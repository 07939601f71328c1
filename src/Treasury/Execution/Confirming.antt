-- ===== src/Treasury/Execution/Confirming.antt =====
-- Confirming an execution, which is possible once.
use tallykeep.Prelude.{ap, ℕ, ◌≡◌, refl, false, some, arith, pos, ◌≤ℤ◌}
use tallykeep.Errors.{ok, err, wrong_execution_status}
use tallykeep.Table.{modify, get}
use tallykeep.Table.Laws.{get-modify}
use tallykeep.Domain.Enums.{awaiting_user_confirmation, requested, is_awaiting_confirmation}
use tallykeep.Domain.Sweep.{SweepExecution, execution_key, new_execution}
use tallykeep.Db.{Db}
use tallykeep.Repositories.Executions.{
  StatusUpdate, execution_get, update_status, apply_status, status_only,
}
use tallykeep.Treasury.Execution.{get_sweep_execution, confirm_sweep_execution}

-- The execution as it is stored and as the constructor accepts it.
pub record IsStored (id : ℕ) (d : Db) (e : SweepExecution) : Type 0 where
  pub found : get id d.executions ≡ some e
  pub balance : pos 0 ≤ℤ e.pre_balance_sats
  pub amount : pos 0 ≤ℤ e.intended_amount_sats

pub get_sweep_execution-stored :
    (id : ℕ) (d : Db) (e : SweepExecution) → IsStored id d e → get_sweep_execution id d ≡ (ok e, d)
unfolding get_sweep_execution execution_get new_execution
get_sweep_execution-stored id d e s = ground (arith, s.found, s.balance, s.amount)

-- A stored execution in any other status is not confirmed, and nothing is written.
pub confirm_sweep_execution-refused :
    (id : ℕ) (d : Db) (e : SweepExecution)
    → IsStored id d e
    → is_awaiting_confirmation e.status ≡ false
    → confirm_sweep_execution id d ≡ (err wrong_execution_status, d)
unfolding confirm_sweep_execution
confirm_sweep_execution-refused id d e s other = ground (arith, get_sweep_execution-stored id d e s)

-- what a status update writes
unfoldable pub with_status : ℕ → StatusUpdate → Db → Db
with_status id u d = record d { executions = modify id (apply_status u) d.executions }

-- The updated execution is stored, and the update returns it.
pub update_status-IsStored :
    (id : ℕ) (u : StatusUpdate) (d : Db) (e : SweepExecution)
    → IsStored id d e
    → (update_status id u d ≡ (ok (some (apply_status u e)), with_status id u d))
      × IsStored id (with_status id u d) (apply_status u e)
unfolding update_status new_execution with_status
update_status-IsStored id u d e s = (
  ground (arith, s.balance, s.amount, written),
  record { found = written; balance = s.balance; amount = s.amount },
)
  where
    written : get id (modify id (apply_status u) d.executions) ≡ some (apply_status u e)
    written = ground (arith, s.found, get-modify (apply_status u) (λ q. refl) id id d.executions)

confirm_sweep_execution-step :
    (id : ℕ) (d : Db) (e : SweepExecution)
    → IsStored id d e
    → e.status ≡ awaiting_user_confirmation
    → confirm_sweep_execution id d
      ≡ (ok (record e { status = requested }), with_status id (status_only requested) d)
unfolding confirm_sweep_execution
confirm_sweep_execution-step id d e s waiting = ground (
  arith,
  get_sweep_execution-stored id d e s,
  (update_status-IsStored id (status_only requested) d e s).0,
)

-- A stored execution that waits for the user is confirmed: it is requested from then on, all else is
-- unchanged, and confirming it again is refused.
pub confirm_sweep_execution-once :
    (id : ℕ) (d : Db) (e : SweepExecution)
    → IsStored id d e
    → e.status ≡ awaiting_user_confirmation
    → let r = confirm_sweep_execution id d in
      let done = record e { status = requested } in
      (r.0 ≡ ok done)
      × IsStored id r.1 done
      × ((confirm_sweep_execution id r.1).0 ≡ err wrong_execution_status)
confirm_sweep_execution-once id d e s waiting =
    rw (confirm_sweep_execution-step id d e s waiting)
      (refl, stored, ap (λ r. r.0) (confirm_sweep_execution-refused id _ _ stored refl))
  where
    stored :
        IsStored id (with_status id (status_only requested) d) (record e { status = requested })
    stored = (update_status-IsStored id (status_only requested) d e s).1
