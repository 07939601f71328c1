-- ===== src/Treasury/Engine.antt =====
-- The sweep engine of backend/tallykeep/workers/subscribers/sweep_engine.py: what it does when the
-- balance of a provider was updated.
pub mod Created
pub mod Bounds
use tallykeep.Prelude.{
  ℕ, Bool, true, false, not, Option, none, some, List, [], ◌∷◌, if◌then◌else◌, ℤ, pos, ◌-ℤ◌, leb_ℤ,
  min_ℤ, get_or,
}
use tallykeep.Domain.Enums.{
  SweepExecutionStatus, completed, awaiting_user_confirmation, requested, threshold, is_threshold,
}
use tallykeep.Domain.Sweep.{SweepPolicy, SweepExecution, new_execution}
use tallykeep.Db.{Db}
use tallykeep.Db.Session.{Session, pure, lift, write, ◌>>=◌, ◌>>◌}
use tallykeep.Db.Keeps.{committed}
use tallykeep.Repositories.Policies.{list_policies}
use tallykeep.Repositories.Executions.{StatusUpdate, status_only, execution_create, update_status}

abbrev pub threshold_of : SweepPolicy → ℤ
threshold_of p = get_or p.threshold_sats (pos 0)

abbrev pub capped : Option ℤ → ℤ → ℤ
capped none amount = amount
capped (some cap) amount = min_ℤ amount cap

-- `sweep_amount`
abbrev pub sweep_amount : ℤ → SweepPolicy → ℤ
sweep_amount balance p = capped p.maximum_per_period_sats (balance -ℤ p.minimum_balance_sats)

abbrev pub initial_status : SweepPolicy → SweepExecutionStatus
initial_status p = if p.requires_user_confirmation then awaiting_user_confirmation else requested

-- `now` and `new_id` are the time and the UUID drawn for a policy in this run.
module _ (now new_id : SweepPolicy → ℕ) where
  abbrev pub execution_of : ℤ → SweepPolicy → SweepExecution
  execution_of balance p = record {
    id = new_id p;
    sweep_policy_id = p.id;
    triggered_at = now p;
    trigger_source = threshold;
    pre_balance_sats = balance;
    intended_amount_sats = sweep_amount balance p;
    status = initial_status p;
    provider_withdrawal_id = none;
    expected_txid = none;
    confirmed_txid = none;
    error_message = none;
    completed_at = none;
  }

  abbrev pub completed_now : SweepPolicy → StatusUpdate
  completed_now p = record (status_only completed) { completed_at = some (now p) }

  -- `if policy.is_dry_run`
  abbrev pub complete_dry_run : Bool → ℕ → SweepPolicy → Session (Unit {0})
  complete_dry_run true id p = do update_status id (completed_now p); pure tt
  complete_dry_run false id p = pure tt

  -- the execution is stored, and for a dry run its status is updated
  unfoldable pub trigger : ℤ → SweepPolicy → Session (Unit {0})
  unfolding execution_create
  trigger balance p = do
    execution ← lift (new_execution (execution_of balance p))
    write (execution_create execution)
    complete_dry_run p.is_dry_run execution.id p

  -- the body of the loop
  unfoldable pub process_policy : ℤ → SweepPolicy → Session (Unit {0})
  process_policy balance p =
      if not (is_threshold p.trigger_type)
      then pure tt
      else (if leb_ℤ balance (threshold_of p)
          then pure tt
          else (if leb_ℤ (sweep_amount balance p) (pos 0) then pure tt else trigger balance p))

  unfoldable pub process_policies : ℤ → List SweepPolicy → Session (Unit {0})
  process_policies balance [] = pure tt
  process_policies balance (p ∷ ps) = process_policy balance p >> process_policies balance ps

  -- `_process_threshold_policies`
  unfoldable pub process_threshold_policies : ℕ → ℤ → Session (Unit {0})
  process_threshold_policies source balance = do
    policies ← list_policies (some source) (some true)
    process_policies balance policies

  -- `_on_balance_updated`, where a field of the payload that is missing or malformed is `none`: a
  -- commit, or where the run raised, a log message
  unfoldable pub on_balance_updated : Option ℕ → Option ℤ → Db → Db
  on_balance_updated (some source) (some balance) d =
      committed (process_threshold_policies source balance) d
  on_balance_updated _ _ d = d
