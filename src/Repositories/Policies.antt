-- ===== src/Repositories/Policies.antt =====
-- backend/tallykeep/repositories/sweep_policy.py.
use tallykeep.Prelude.{
  ℕ, String, Bool, true, false, not, ◌&&◌, Option, none, some, List, [], ◌∷◌, map, ◌==◌, ℤ, get_or,
  or_else, length,
}
use tallykeep.Errors.{Result, ok, err}
use tallykeep.Table.{get, modify, add, delete, select, update_where}
use tallykeep.Domain.Enums.{SweepTriggerType}
use tallykeep.Domain.Sweep.{SafetyWarning, SweepPolicy, policy_key, new_policy}
use tallykeep.Db.{Db}
use tallykeep.Db.Session.{Session}

-- `_row_to_domain` on a row that may be missing
abbrev pub build_policy : Option SweepPolicy → Result (Option SweepPolicy)
build_policy none = ok none
build_policy (some r) = elim (new_policy r) [ ok p ↦ ok (some p) | err e ↦ err e ]

abbrev pub build_policies : List SweepPolicy → Result (List SweepPolicy)
build_policies [] = ok []
build_policies (r ∷ rs) = elim (new_policy r) [
  | ok p ↦ elim (build_policies rs) [ ok ps ↦ ok (p ∷ ps) | err e ↦ err e ]
  | err e ↦ err e
]

-- `get`
unfoldable pub policy_get : ℕ → Session (Option SweepPolicy)
policy_get id d = (build_policy (get id d.policies), d)

abbrev pub matches_filter : Option ℕ → Option Bool → SweepPolicy → Bool
matches_filter source enabled p =
    elim source [ none ↦ true | some s ↦ p.source_holding_id == s ]
    && elim enabled [ none ↦ true | some true ↦ p.is_enabled | some false ↦ not p.is_enabled ]

-- `list_policies`
unfoldable pub list_policies : Option ℕ → Option Bool → Session (List SweepPolicy)
list_policies source enabled d =
    (build_policies (select (matches_filter source enabled) d.policies), d)

-- `create`
unfoldable pub policy_create : SweepPolicy → Db → Db
policy_create p d = record d { policies = add p d.policies }

-- the optional arguments of `update_policy`
pub record PolicyPatch : Type 0 where
  pub name : Option String
  pub trigger_type : Option SweepTriggerType
  pub trigger_configuration : Option (Option ℤ)
  pub minimum_balance_sats : Option ℤ
  pub maximum_per_period_sats : Option ℤ
  pub requires_user_confirmation : Option Bool
  pub is_dry_run : Option Bool

abbrev pub apply_patch : ℕ → PolicyPatch → Option (List SafetyWarning) → SweepPolicy → SweepPolicy
apply_patch now u warnings p = record p {
  name = get_or u.name p.name;
  trigger_type = get_or u.trigger_type p.trigger_type;
  threshold_sats = get_or u.trigger_configuration p.threshold_sats;
  minimum_balance_sats = get_or u.minimum_balance_sats p.minimum_balance_sats;
  maximum_per_period_sats = or_else u.maximum_per_period_sats p.maximum_per_period_sats;
  requires_user_confirmation = get_or u.requires_user_confirmation p.requires_user_confirmation;
  is_dry_run = get_or u.is_dry_run p.is_dry_run;
  safety_warnings = get_or warnings p.safety_warnings;
  updated_at = some now;
}

-- A write to one row, which returns the row as a domain object.
abbrev pub write_policy : ℕ → (SweepPolicy → SweepPolicy) → Session (Option SweepPolicy)
write_policy id f d =
    let t = modify id f d.policies in (build_policy (get id t), record d { policies = t })

-- `update_policy`
unfoldable pub update_policy :
    ℕ → ℕ → PolicyPatch → Option (List SafetyWarning) → Session (Option SweepPolicy)
update_policy now id u warnings = write_policy id (apply_patch now u warnings)

abbrev pub with_enabled : ℕ → Bool → SweepPolicy → SweepPolicy
with_enabled now b p = record p { is_enabled = b; updated_at = some now }

-- `set_enabled`
unfoldable pub set_enabled : ℕ → ℕ → Bool → Session (Option SweepPolicy)
set_enabled now id b = write_policy id (with_enabled now b)

-- `delete`
unfoldable pub policy_delete : ℕ → Db → Db
policy_delete id d = record d { policies = delete id d.policies }

abbrev pub acknowledge : SafetyWarning → SafetyWarning
acknowledge w = record w { user_acknowledged = true }

abbrev pub with_acknowledged : ℕ → SweepPolicy → SweepPolicy
with_acknowledged now p = record p {
  safety_warnings = map acknowledge p.safety_warnings;
  updated_at = some now;
}

-- `acknowledge_all_warnings`
unfoldable pub acknowledge_all_warnings : ℕ → ℕ → Session (Option SweepPolicy)
acknowledge_all_warnings now id = write_policy id (with_acknowledged now)

abbrev pub is_enabled_row : SweepPolicy → Bool
is_enabled_row p = p.is_enabled

abbrev pub is_disabled_row : SweepPolicy → Bool
is_disabled_row p = not p.is_enabled

-- `pause_all`, with the number of rows that it changed
unfoldable pub pause_all : ℕ → Session ℕ
pause_all now d = (
  ok (length (select is_enabled_row d.policies)),
  record d { policies = update_where is_enabled_row (with_enabled now false) d.policies },
)

-- `resume_all`, with the number of rows that it changed
unfoldable pub resume_all : ℕ → Session ℕ
resume_all now d = (
  ok (length (select is_disabled_row d.policies)),
  record d { policies = update_where is_disabled_row (with_enabled now true) d.policies },
)
