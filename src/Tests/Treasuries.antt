-- ===== src/Tests/Treasuries.antt =====
-- The theorems on holdings and the treasury, at the sample database.
use tallykeep.Prelude.{
  map, ℤ, String, ℕ, ◌≡◌, ◌≢◌, ◌↔◌, inr, refl, true, none, some, [], ◌∷◌, All, arith, pos,
}
use tallykeep.Errors.{
  ok, err, value_error, policy_has_unacknowledged_warnings, wrong_execution_status,
}
use tallykeep.Table.{get, select}
use tallykeep.Table.Laws.{Everywhere}
use tallykeep.Domain.Enums.{requested, no_maximum_cap_set}
use tallykeep.Domain.Sweep.{SweepPolicy, policy_key, execution_key, new_policy, unacknowledged}
use tallykeep.Domain.Holding.{Holding, new_holding}
use tallykeep.Domain.Holding.Valid.{IsHolding, new_holding_iff}
use tallykeep.Repositories.Holdings.{holding_of_row}
use tallykeep.Repositories.Policies.{with_enabled, matches_filter, acknowledge}
use tallykeep.Treasury.Policies.{
  resume_all_policies, get_sweep_policy, acknowledge_warnings, disable_sweep_policy,
  delete_sweep_policy, enable_sweep_policy,
}
use tallykeep.Treasury.Policies.Valid.{IsPolicy, ArePolicies, new_policy_iff}
use tallykeep.Treasury.Policies.Enabling.{enable_sweep_policy-enables, enable_sweep_policy-refuses}
use tallykeep.Treasury.Policies.Invariant.{
  enable, pause, acknowledge_all, serve_all, serve_all-ArePolicies,
}
use tallykeep.Treasury.Policies.Resuming.{resume_all_policies-breaks}
use tallykeep.Treasury.Engine.{process_threshold_policies}
use tallykeep.Treasury.Engine.Created.{with_pending, due_executions, process_threshold_policies-due}
use tallykeep.Treasury.Engine.Bounds.{IsWithin, process_threshold_policies-IsWithin}
use tallykeep.Treasury.Connection.{transient_error, poll_cycle}
use tallykeep.Treasury.Connection.Counting.{IsCounted, poll_cycle-IsCounted}
use tallykeep.Treasury.Execution.{confirm_sweep_execution}
use tallykeep.Treasury.Execution.Confirming.{IsStored, confirm_sweep_execution-once}
use tallykeep.Treasury.Warnings.{compute_safety_warnings}
use tallykeep.Treasury.Warnings.Coverage.{has_kind, IsRisk, compute_safety_warnings-IsRisk}
use tallykeep.Treasury.Warnings.Carryover.{compute_safety_warnings-acknowledged}
use tallykeep.Treasury.Execution.{execute_sweep_now, Withdrawal, refused}
use tallykeep.Treasury.Execution.Manual.{
  IsFresh, IsExecutable, recorded, execute_sweep_now-recorded,
}
use tallykeep.Domain.Provider.{new_provider, provider_key}
use tallykeep.Domain.Chain.{new_descriptor}
use tallykeep.Repositories.Holdings.{get_holding}
use tallykeep.Repositories.Providers.{provider_get}
use tallykeep.Repositories.Descriptors.{next_unused_address}
use tallykeep.Tests.Data.{
  sample_db, policy_row, warned_row, quiet_row, execution_row, provider_row, purse_row, account_row,
  descriptor_row, address_row,
}

policy_row-IsPolicy : IsPolicy policy_row
policy_row-IsPolicy = record {
  two_holdings = ground arith;
  minimum = ground arith;
  cap = ground arith;
  acknowledged = ground arith;
}

warned_row-IsPolicy : IsPolicy warned_row
warned_row-IsPolicy = record {
  two_holdings = ground arith;
  minimum = ground arith;
  cap = ground arith;
  acknowledged = ground arith;
}

quiet_row-IsPolicy : IsPolicy quiet_row
quiet_row-IsPolicy = record {
  two_holdings = ground arith;
  minimum = ground arith;
  cap = ground arith;
  acknowledged = ground arith;
}

sample_db-ArePolicies : ArePolicies sample_db
sample_db-ArePolicies = record {
  policies = record {
    in_rows = (policy_row-IsPolicy, (warned_row-IsPolicy, (quiet_row-IsPolicy, tt)));
    in_pending = tt;
  };
}

abbrev purse_holding : Holding
purse_holding = holding_of_row purse_row (10 ∷ []) none

abbrev account_holding : Holding
account_holding = holding_of_row account_row [] (some 20)

new_holding_iff_example :
    (new_holding (holding_of_row purse_row (10 ∷ []) none)
      ≡ ok (holding_of_row purse_row (10 ∷ []) none))
    ↔ IsHolding (holding_of_row purse_row (10 ∷ []) none)
new_holding_iff_example = new_holding_iff (holding_of_row purse_row (10 ∷ []) none)

new_policy_iff_example : (new_policy policy_row ≡ ok policy_row) ↔ IsPolicy policy_row
new_policy_iff_example = new_policy_iff policy_row

serve_all-ArePolicies_example :
    ArePolicies (serve_all ((7, acknowledge_all 31) ∷ (8, enable 31) ∷ (9, pause) ∷ []) sample_db)
serve_all-ArePolicies_example =
    serve_all-ArePolicies ((7, acknowledge_all 31) ∷ (8, enable 31) ∷ (9, pause) ∷ []) sample_db
      sample_db-ArePolicies

quiet_row-stored : get 32 sample_db.policies ≡ some quiet_row
unfolding get
quiet_row-stored = refl

warned_row-stored : get 31 sample_db.policies ≡ some warned_row
unfolding get
warned_row-stored = refl

some_unacknowledged : unacknowledged warned_row.safety_warnings ≢ []
some_unacknowledged e = cc

enable_sweep_policy-enables_example :
    let enabled = record quiet_row { is_enabled = true; updated_at = some 9 } in
    ((enable_sweep_policy 9 32 sample_db).0 ≡ ok enabled)
    × (get 32 (enable_sweep_policy 9 32 sample_db).1.policies ≡ some enabled)
enable_sweep_policy-enables_example =
    enable_sweep_policy-enables 9 32 sample_db quiet_row quiet_row-stored quiet_row-IsPolicy refl

enable_sweep_policy-refuses_example :
    enable_sweep_policy 9 31 sample_db ≡ (err policy_has_unacknowledged_warnings, sample_db)
enable_sweep_policy-refuses_example =
    enable_sweep_policy-refuses 9 31 sample_db warned_row warned_row-stored warned_row-IsPolicy
      some_unacknowledged

resume_all_policies-breaks_example :
    let r = (resume_all_policies 9 sample_db).1 in
    (get 31 r.policies ≡ some (with_enabled 9 true warned_row))
    × ((get_sweep_policy 31 r).0 ≡ err value_error)
    × ((acknowledge_warnings 10 31 r).0 ≡ err value_error)
    × ((disable_sweep_policy 10 31 r).0 ≡ err value_error)
    × ((enable_sweep_policy 10 31 r).0 ≡ err value_error)
    × ((delete_sweep_policy 31 r).0 ≡ err value_error)
resume_all_policies-breaks_example =
    resume_all_policies-breaks 9 31 10 sample_db warned_row warned_row-stored refl
      some_unacknowledged

-- every id of an execution that is drawn here is new
abbrev drawn : SweepPolicy → ℕ
drawn p = 99

drawn-new : (p : SweepPolicy) → get (drawn p) sample_db.executions ≡ none
unfolding get
drawn-new p = refl

process_threshold_policies-due_example :
    process_threshold_policies drawn drawn 2 (pos 800) sample_db ≡ (
      ok tt,
      with_pending
          (due_executions drawn drawn
            (pos 800)
            (select (matches_filter (some 2) (some true)) sample_db.policies))
          sample_db,
    )
process_threshold_policies-due_example =
    process_threshold_policies-due drawn drawn 2 (pos 800) sample_db sample_db-ArePolicies drawn-new

process_threshold_policies-IsWithin_example :
    All
      (IsWithin 2 (pos 800))
      (process_threshold_policies drawn drawn 2 (pos 800) sample_db).1.executions.pending
process_threshold_policies-IsWithin_example =
    process_threshold_policies-IsWithin drawn drawn 2 (pos 800) sample_db sample_db-ArePolicies
      drawn-new refl

sample_db-IsCounted : Everywhere IsCounted sample_db.providers
sample_db-IsCounted = record { in_rows = (record { counted = inr refl }, tt); in_pending = tt }

poll_cycle-IsCounted_example :
    Everywhere IsCounted (poll_cycle 9 20 true (transient_error "timeout") sample_db).1.providers
poll_cycle-IsCounted_example =
    poll_cycle-IsCounted 9 20 true (transient_error "timeout") sample_db sample_db-IsCounted

execution_row-IsStored : IsStored 40 sample_db execution_row
unfolding get
execution_row-IsStored = record { found = refl; balance = ground arith; amount = ground arith }

confirm_sweep_execution-once_example :
    let r = confirm_sweep_execution 40 sample_db in
    let done = record execution_row { status = requested } in
    (r.0 ≡ ok done)
    × IsStored 40 r.1 done
    × ((confirm_sweep_execution 40 r.1).0 ≡ err wrong_execution_status)
confirm_sweep_execution-once_example =
    confirm_sweep_execution-once 40 sample_db execution_row execution_row-IsStored refl

compute_safety_warnings-IsRisk_example :
    (has_kind no_maximum_cap_set
        (compute_safety_warnings account_holding purse_holding none none [])
      ≡ true)
    ↔ IsRisk account_holding purse_holding none none no_maximum_cap_set
compute_safety_warnings-IsRisk_example =
    compute_safety_warnings-IsRisk account_holding purse_holding none none [] no_maximum_cap_set

compute_safety_warnings-acknowledged_example :
    let ws = compute_safety_warnings account_holding purse_holding none none [] in
    unacknowledged
      (compute_safety_warnings account_holding purse_holding none none (map acknowledge ws))
    ≡ []
compute_safety_warnings-acknowledged_example =
    compute_safety_warnings-acknowledged account_holding purse_holding none none []

-- the account can pay 500 out of its 900
executable : IsExecutable 30 sample_db policy_row provider_row "bc1qa"
unfolding get get_holding provider_get next_unused_address new_holding new_provider new_descriptor
executable = record {
  stored = refl;
  valid = policy_row-IsPolicy;
  enabled = refl;
  source = account_holding;
  source_read = refl;
  of_account = refl;
  provider_id = 20;
  provided = refl;
  provider_read = refl;
  descriptor = descriptor_row;
  others = [];
  descriptors_read = refl;
  receive = address_row;
  handed_out = refl;
  receive_address = refl;
}

sample_db-IsFresh : IsFresh 41 sample_db
unfolding get
sample_db-IsFresh = record { not_stored = refl; not_pending = refl }

abbrev over_limit : ℤ → String → Withdrawal
over_limit amount address = refused "limit"

execute_sweep_now-recorded_example :
    let r = execute_sweep_now over_limit 9 10 41 30 true (some (pos 500)) sample_db in
    let done = recorded 9 10 41 policy_row (pos 900) (pos 500) (refused "limit") in
    (r.0 ≡ ok done) × IsStored 41 r.1 done
execute_sweep_now-recorded_example =
    execute_sweep_now-recorded over_limit 9 10 41 30 (some (pos 500)) sample_db policy_row
      provider_row "bc1qa" executable sample_db-IsFresh (ground arith) (ground arith)
