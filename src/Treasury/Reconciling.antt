-- ===== src/Treasury/Reconciling.antt =====
-- backend/tallykeep/workers/subscribers/custodial_reconciler.py: a deposit or a withdrawal at an exchange
-- is linked to the sweep execution that it belongs to. Times are in seconds. The bus and the parsing of
-- its payload are not modelled; an exception ends a handler, whose session is closed.
pub mod Debits
use tallykeep.Prelude.{
  ℕ, ◌+◌, ◌*◌, ◌/◌, ◌==◌, leb, Bool, true, false, not, ◌&&◌, Option, none, some, List, [], ◌∷◌,
  if◌then◌else◌, ℤ, pos, leb_ℤ, ◌-ℤ◌, max_ℤ, pos_part, neg_part, any_of, filter_by,
}
use tallykeep.Table.{get, select}
use tallykeep.Domain.Enums.{
  SweepExecutionStatus, requested, awaiting_user_confirmation, dispatched, onchain_pending,
}
use tallykeep.Domain.Sweep.{SweepExecution, SweepPolicy, policy_key}
use tallykeep.Domain.Mirror.{EntryKind, deposit, withdrawal}
use tallykeep.Db.{Db, flush_all}
use tallykeep.Errors.{ok, err}
use tallykeep.Db.Session.{Session, pure, write, gets, ◌>>=◌, ◌>>◌}
use tallykeep.Repositories.Executions.{update_status, status_only}
use tallykeep.Repositories.Mirror.{set_reconciled, mark_unmatched}

-- `_TOLERANCE_FLOOR_SATS`, `_OUTFLOW_WINDOW` and `_INFLOW_WINDOW`
abbrev pub tolerance_floor_sats : ℕ
tolerance_floor_sats = 10000

abbrev outflow_window : ℕ
outflow_window = 4 * 3600

abbrev inflow_window : ℕ
inflow_window = 12 * 3600

-- `int(intended * 0.02)`, which is below the floor for an amount below zero
abbrev pub tolerance_of : ℤ → ℕ
tolerance_of intended =
    let share = pos_part intended / 50 in
    if leb share tolerance_floor_sats then tolerance_floor_sats else share

abbrev abs_ℤ : ℤ → ℕ
abs_ℤ a = pos_part a + neg_part a

-- `_within_tolerance`
unfoldable pub within_tolerance : ℤ → ℤ → Bool
within_tolerance observed intended = leb (abs_ℤ (observed -ℤ intended)) (tolerance_of intended)

-- `_OUTFLOW_STATUSES` and `_INFLOW_STATUSES`
abbrev pub is_outflow_status : SweepExecutionStatus → Bool
is_outflow_status requested = true
is_outflow_status awaiting_user_confirmation = true
is_outflow_status dispatched = true
is_outflow_status _ = false

abbrev pub is_inflow_status : SweepExecutionStatus → Bool
is_inflow_status dispatched = true
is_inflow_status onchain_pending = true
is_inflow_status _ = false

abbrev is_dispatched : SweepExecutionStatus → Bool
is_dispatched dispatched = true
is_dispatched _ = false

-- the deposit or the withdrawal of the event's payload
pub record Event : Type 0 where
  pub holding_id : ℕ
  pub entry_id : ℕ
  pub amount_sats : ℤ
  pub entry_ts : ℕ

-- one side of a sweep: the holding of the policy that is looked for, the statuses and the window
pub record Side : Type 0 where
  pub near : SweepPolicy → ℕ
  pub is_open : SweepExecutionStatus → Bool
  pub window : ℕ

abbrev pub outflow : Side
outflow = record {
  near = λ p. p.source_holding_id;
  is_open = is_outflow_status;
  window = outflow_window;
}

abbrev pub inflow : Side
inflow = record {
  near = λ p. p.destination_holding_id;
  is_open = is_inflow_status;
  window = inflow_window;
}

-- the query, and the filter by the amount
abbrev pub is_candidate : Side → Event → Db → SweepExecution → Bool
is_candidate side ev d e =
    any_of (λ p. p.id == e.sweep_policy_id && side.near p == ev.holding_id) d.policies.rows
    && side.is_open e.status
    && leb ev.entry_ts (e.triggered_at + side.window)
    && leb e.triggered_at (ev.entry_ts + side.window)

abbrev pub matched_of : Side → Event → Db → List SweepExecution
matched_of side ev d =
    filter_by (λ e. within_tolerance ev.amount_sats e.intended_amount_sats)
      (select (is_candidate side ev d) d.executions)

-- the counterparty of the policy, if it is found
abbrev counterparty : (SweepPolicy → ℕ) → Option SweepPolicy → Option ℕ
counterparty far none = none
counterparty far (some p) = some (far p)

abbrev pub link_to : (SweepPolicy → ℕ) → Event → SweepExecution → ℕ → Db → Db
link_to far ev e now d =
    set_reconciled ev.entry_id
      record {
        linked_sweep_execution_id = some e.id;
        linked_counterparty_holding_id = counterparty far (get e.sweep_policy_id d.policies);
      }
      now d

abbrev pub settle_outflow : Event → ℕ → List SweepExecution → Session (Unit {0})
settle_outflow ev now (e ∷ []) = do
  write (link_to (λ p. p.destination_holding_id) ev e now)
  if is_dispatched e.status
      then pure tt
      else (do update_status e.id (status_only dispatched); pure tt)
settle_outflow ev now _ = write (mark_unmatched ev.entry_id now)

-- `_reconcile_outflow`
unfoldable pub reconcile_outflow : Event → ℕ → Session (Unit {0})
reconcile_outflow ev now = do matched ← gets (matched_of outflow ev); settle_outflow ev now matched

abbrev pub settle_inflow : Event → ℕ → List SweepExecution → Db → Db
settle_inflow ev now (e ∷ []) = link_to (λ p. p.source_holding_id) ev e now
settle_inflow ev now _ = mark_unmatched ev.entry_id now

-- `_reconcile_inflow`
unfoldable pub reconcile_inflow : Event → ℕ → Db → Db
reconcile_inflow ev now d = settle_inflow ev now (matched_of inflow ev d) d

-- `_on_entry_added` on a payload that is well formed, for the kind of the entry: the committed database
unfoldable pub on_entry_added : EntryKind → Event → ℕ → Db → Db
on_entry_added withdrawal ev now d = elim (reconcile_outflow ev now d).0 [
  | ok _ ↦ flush_all (reconcile_outflow ev now d).1
  | err _ ↦ d
]
on_entry_added deposit ev now d = flush_all (reconcile_inflow ev now d)
on_entry_added _ ev now d = d
