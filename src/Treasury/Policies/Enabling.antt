-- ===== src/Treasury/Policies/Enabling.antt =====
-- Enabling and disabling policies, one by one and all at once.
use tallykeep.Prelude.{ℕ, ◌≡◌, ◌≢◌, inl, inr, refl, Bool, true, none, some, [], arith, Option-cases}
use tallykeep.Errors.{ok, err, policy_has_unacknowledged_warnings, policy_not_found}
use tallykeep.Table.{get, modify}
use tallykeep.Table.Laws.{get-modify}
use tallykeep.Domain.Sweep.{SweepPolicy, policy_key, unacknowledged}
use tallykeep.Db.{Db}
use tallykeep.Repositories.Policies.{with_enabled, set_enabled, policy_get}
use tallykeep.Treasury.Policies.{get_sweep_policy, enable_sweep_policy}
use tallykeep.Treasury.Policies.Valid.{IsPolicy, new_policy_complete, IsPolicy-new_policy}

-- reading a policy changes nothing
pub get_sweep_policy-unchanged : (id : ℕ) (d : Db) → (get_sweep_policy id d).1 ≡ d
unfolding get_sweep_policy policy_get
get_sweep_policy-unchanged id d = ground arith

-- a policy that is read is the stored one, and valid
pub get_sweep_policy-ok :
    (id : ℕ) (d : Db) (p : SweepPolicy)
    → (get_sweep_policy id d).0 ≡ ok p
    → (get id d.policies ≡ some p) × IsPolicy p
unfolding get_sweep_policy policy_get
get_sweep_policy-ok id d p e = elim (Option-cases (get id d.policies)) [
  | inl missing ↦ ground arith
  | inr (r, found) ↦ ground (arith, IsPolicy-new_policy r p)
]

-- where the table is sound, a stored policy is read
pub get_sweep_policy-found :
    (id : ℕ) (d : Db) (p : SweepPolicy)
    → IsPolicy p
    → get id d.policies ≡ some p
    → get_sweep_policy id d ≡ (ok p, d)
unfolding get_sweep_policy policy_get
get_sweep_policy-found id d p v e = ground (arith, new_policy_complete p v)

pub get_sweep_policy-missing :
    (id : ℕ) (d : Db) → get id d.policies ≡ none → get_sweep_policy id d ≡ (err policy_not_found, d)
unfolding get_sweep_policy policy_get
get_sweep_policy-missing id d e = ground arith

with_enabled-IsPolicy :
    (now : ℕ) (p : SweepPolicy)
    → IsPolicy p
    → unacknowledged p.safety_warnings ≡ []
    → IsPolicy (with_enabled now true p)
with_enabled-IsPolicy now p v e = record {
  two_holdings = v.two_holdings;
  minimum = v.minimum;
  cap = v.cap;
  acknowledged = λ _. e;
}

get-enabled :
    (now id : ℕ) (b : Bool) (d : Db) (p : SweepPolicy)
    → get id d.policies ≡ some p
    → get id (modify id (with_enabled now b) d.policies) ≡ some (with_enabled now b p)
get-enabled now id b d p found =
    ground (arith, get-modify (with_enabled now b) (λ q. refl) id id d.policies)

-- A stored, valid policy with all warnings acknowledged is returned and stored as enabled, with the
-- time of the change and otherwise as it was.
pub enable_sweep_policy-enables :
    (now id : ℕ) (d : Db) (p : SweepPolicy)
    → get id d.policies ≡ some p
    → IsPolicy p
    → unacknowledged p.safety_warnings ≡ []
    → let enabled : SweepPolicy = record p { is_enabled = true; updated_at = some now } in
      ((enable_sweep_policy now id d).0 ≡ ok enabled)
      × (get id (enable_sweep_policy now id d).1.policies ≡ some enabled)
unfolding enable_sweep_policy set_enabled
enable_sweep_policy-enables now id d p found v all_acknowledged = ground (
  arith,
  get_sweep_policy-found id d p v found,
  get-enabled now id true d p found,
  new_policy_complete (with_enabled now true p) (with_enabled-IsPolicy now p v all_acknowledged),
)

-- A stored, valid policy with a warning that is not acknowledged is refused, and nothing is written.
pub enable_sweep_policy-refuses :
    (now id : ℕ) (d : Db) (p : SweepPolicy)
    → get id d.policies ≡ some p
    → IsPolicy p
    → unacknowledged p.safety_warnings ≢ []
    → enable_sweep_policy now id d ≡ (err policy_has_unacknowledged_warnings, d)
unfolding enable_sweep_policy
enable_sweep_policy-refuses now id d p found v left =
    ground (arith, get_sweep_policy-found id d p v found)
