-- ===== src/Treasury/Policies.antt =====
-- The sweep policies of backend/tallykeep/services/treasury_service.py. `now` and `new_id` stand for
-- `datetime.now(UTC)` and `uuid4()`.
pub mod Valid
pub mod Enabling
pub mod Keeping
pub mod Invariant
pub mod Resuming
use tallykeep.Prelude.{
  ℕ, String, Bool, true, false, not, ◌&&◌, ◌||◌, Option, none, some, List, [], ◌==◌, if◌then◌else◌,
  ℤ, or_else, get_or, is_some, is_empty,
}
use tallykeep.Errors.{
  Result, ok, err, treasury_error, policy_not_found, policy_has_unacknowledged_warnings,
}
use tallykeep.Table.{get}
use tallykeep.Domain.Enums.{HoldingType, SweepTriggerType, is_account}
use tallykeep.Domain.Holding.{Holding}
use tallykeep.Domain.Sweep.{SafetyWarning, SweepPolicy, new_policy, unacknowledged}
use tallykeep.Domain.Provider.{CustodialProvider, provider_key, new_provider}
use tallykeep.Db.{Db}
use tallykeep.Db.Session.{Session, pure, raise, lift, or_raise, raise_if, write, ◌>>=◌, ◌>>◌}
use tallykeep.Repositories.Providers.{provider_get}
use tallykeep.Repositories.Holdings.{get_holding}
use tallykeep.Repositories.Policies.{
  PolicyPatch, policy_get, policy_create, policy_delete, update_policy, set_enabled,
  acknowledge_all_warnings, pause_all, resume_all,
}
use tallykeep.Treasury.Warnings.{compute_safety_warnings}

-- the provider of the source, where that is an Account
abbrev pub source_provider : Bool → Option ℕ → Session (Option CustodialProvider)
source_provider true (some id) = provider_get id
source_provider _ _ = pure none

-- the arguments of `create_sweep_policy`
pub record NewPolicy : Type 0 where
  pub name : String
  pub source_holding_id : ℕ
  pub destination_holding_id : ℕ
  pub trigger_type : SweepTriggerType
  pub threshold_sats : Option ℤ
  pub minimum_balance_sats : ℤ
  pub maximum_per_period_sats : Option ℤ
  pub requires_user_confirmation : Bool
  pub is_dry_run : Bool

abbrev pub policy_of : ℕ → ℕ → NewPolicy → List SafetyWarning → SweepPolicy
policy_of now new_id n warnings = record {
  id = new_id;
  name = n.name;
  source_holding_id = n.source_holding_id;
  destination_holding_id = n.destination_holding_id;
  is_enabled = false;
  trigger_type = n.trigger_type;
  threshold_sats = n.threshold_sats;
  minimum_balance_sats = n.minimum_balance_sats;
  maximum_per_period_sats = n.maximum_per_period_sats;
  requires_user_confirmation = n.requires_user_confirmation;
  is_dry_run = n.is_dry_run;
  safety_warnings = warnings;
  last_executed_at = none;
  created_at = some now;
  updated_at = some now;
}

-- `create_sweep_policy`
unfoldable pub create_sweep_policy : ℕ → ℕ → NewPolicy → Session SweepPolicy
unfolding policy_create
create_sweep_policy now new_id n = do
  found_source ← get_holding n.source_holding_id
  source ← or_raise found_source treasury_error
  found_destination ← get_holding n.destination_holding_id
  destination ← or_raise found_destination treasury_error
  raise_if (n.source_holding_id == n.destination_holding_id) treasury_error
  provider ← source_provider (is_account source.holding_type) source.custodial_provider_id
  let warnings = compute_safety_warnings source destination n.maximum_per_period_sats provider []
  policy ← lift (new_policy (policy_of now new_id n warnings))
  write (policy_create policy)
  pure policy

-- `get_sweep_policy`
unfoldable pub get_sweep_policy : ℕ → Session SweepPolicy
get_sweep_policy id = do found ← policy_get id; or_raise found policy_not_found

-- some argument that the safety validator depends on was given
abbrev pub has_key_field : PolicyPatch → Bool
has_key_field u =
    is_some u.trigger_type
    || is_some u.trigger_configuration
    || is_some u.minimum_balance_sats
    || is_some u.maximum_per_period_sats
    || is_some u.is_dry_run

-- the warnings that an update stores, where both holdings exist
abbrev pub recompute :
    SweepPolicy
    → PolicyPatch
    → Option Holding
    → Option Holding
    → Session (Option (List SafetyWarning))
recompute p u (some source) (some destination) = do
  provider ← source_provider (is_account source.holding_type) source.custodial_provider_id
  let cap = or_else u.maximum_per_period_sats p.maximum_per_period_sats
  pure (some (compute_safety_warnings source destination cap provider p.safety_warnings))
recompute p u _ _ = pure (some p.safety_warnings)

abbrev pub new_warnings : Bool → SweepPolicy → PolicyPatch → Session (Option (List SafetyWarning))
new_warnings true p u = do
  source ← get_holding p.source_holding_id
  destination ← get_holding p.destination_holding_id
  recompute p u source destination
new_warnings false p u = pure none

-- `update_sweep_policy`
unfoldable pub update_sweep_policy : ℕ → ℕ → PolicyPatch → Session SweepPolicy
update_sweep_policy now id u = do
  policy ← get_sweep_policy id
  warnings ← new_warnings (has_key_field u) policy u
  updated ← update_policy now id u warnings
  pure (get_or updated policy)

-- `delete_sweep_policy`
unfoldable pub delete_sweep_policy : ℕ → Session (Unit {0})
delete_sweep_policy id = do
  policy ← get_sweep_policy id
  raise_if policy.is_enabled treasury_error
  write (policy_delete id)

-- `enable_sweep_policy`
unfoldable pub enable_sweep_policy : ℕ → ℕ → Session SweepPolicy
enable_sweep_policy now id = do
  policy ← get_sweep_policy id
  raise_if (not (is_empty (unacknowledged policy.safety_warnings)))
      policy_has_unacknowledged_warnings
  updated ← set_enabled now id true
  pure (get_or updated policy)

-- `disable_sweep_policy`
unfoldable pub disable_sweep_policy : ℕ → ℕ → Session SweepPolicy
disable_sweep_policy now id = do
  policy ← get_sweep_policy id
  updated ← set_enabled now id false
  pure (get_or updated policy)

-- `acknowledge_warnings`
unfoldable pub acknowledge_warnings : ℕ → ℕ → Session SweepPolicy
acknowledge_warnings now id = do
  get_sweep_policy id
  updated ← acknowledge_all_warnings now id
  or_raise updated policy_not_found

-- `pause_all_policies`
unfoldable pub pause_all_policies : ℕ → Session ℕ
pause_all_policies now = pause_all now

-- `resume_all_policies`
unfoldable pub resume_all_policies : ℕ → Session ℕ
resume_all_policies now = resume_all now
