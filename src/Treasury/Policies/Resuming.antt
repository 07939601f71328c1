-- ===== src/Treasury/Policies/Resuming.antt =====
-- Resuming all policies, which does not look at their warnings.
use tallykeep.Prelude.{
  ℕ, ◌≡◌, ◌≢◌, refl, true, false, some, List, [], ◌∷◌, map, arith, ◌==◌, if◌then◌else◌, find_first,
}
use tallykeep.Errors.{err, value_error}
use tallykeep.Table.{get}
use tallykeep.Domain.Sweep.{SweepPolicy, policy_key, new_policy, unacknowledged}
use tallykeep.Db.{Db}
use tallykeep.Repositories.Policies.{with_enabled, is_disabled_row, resume_all, policy_get}
use tallykeep.Treasury.Policies.{
  get_sweep_policy, enable_sweep_policy, disable_sweep_policy, acknowledge_warnings,
  delete_sweep_policy, resume_all_policies,
}

find_first-resumed :
    (now id : ℕ) (rs : List SweepPolicy) (p : SweepPolicy)
    → find_first (λ (r : SweepPolicy). r.id == id) rs ≡ some p
    → p.is_enabled ≡ false
    → find_first
        (λ (r : SweepPolicy). r.id == id)
        (map (λ r. if is_disabled_row r then with_enabled now true r else r) rs)
      ≡ some (with_enabled now true p)
find_first-resumed now id [] p found off = cc
find_first-resumed now id (r ∷ rs) p found off = ground (arith, find_first-resumed now id rs p)

get-resumed :
    (now id : ℕ) (d : Db) (p : SweepPolicy)
    → get id d.policies ≡ some p
    → p.is_enabled ≡ false
    → get id (resume_all_policies now d).1.policies ≡ some (with_enabled now true p)
unfolding get resume_all_policies resume_all
get-resumed now id d p found off = find_first-resumed now id d.policies.rows p found off

resumed-invalid :
    (now : ℕ) (p : SweepPolicy)
    → unacknowledged p.safety_warnings ≢ []
    → new_policy (with_enabled now true p) ≡ err value_error
unfolding new_policy
resumed-invalid now p left = ground arith

get_sweep_policy-resumed :
    (now id : ℕ) (d : Db) (p : SweepPolicy)
    → get id d.policies ≡ some p
    → p.is_enabled ≡ false
    → unacknowledged p.safety_warnings ≢ []
    → (get_sweep_policy id (resume_all_policies now d).1).0 ≡ err value_error
unfolding get_sweep_policy policy_get
get_sweep_policy-resumed now id d p found off left =
    ground (arith, get-resumed now id d p found off, resumed-invalid now p left)

-- Resuming all policies enables a stored, disabled policy with a warning that is not acknowledged
-- too; then it can be neither read nor acknowledged, disabled, enabled or deleted one by one: each of
-- these raises a ValueError.
pub resume_all_policies-breaks :
    (now id later : ℕ) (d : Db) (p : SweepPolicy)
    → get id d.policies ≡ some p
    → p.is_enabled ≡ false
    → unacknowledged p.safety_warnings ≢ []
    → let r = (resume_all_policies now d).1 in
      (get id r.policies ≡ some (with_enabled now true p))
      × ((get_sweep_policy id r).0 ≡ err value_error)
      × ((acknowledge_warnings later id r).0 ≡ err value_error)
      × ((disable_sweep_policy later id r).0 ≡ err value_error)
      × ((enable_sweep_policy later id r).0 ≡ err value_error)
      × ((delete_sweep_policy id r).0 ≡ err value_error)
unfolding acknowledge_warnings disable_sweep_policy enable_sweep_policy delete_sweep_policy
resume_all_policies-breaks now id later d p found off left =
    rw (get_sweep_policy-resumed now id d p found off left)
      (get-resumed now id d p found off, refl, refl, refl, refl, refl)
