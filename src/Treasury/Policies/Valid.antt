-- ===== src/Treasury/Policies/Valid.antt =====
-- What the constructor of a sweep policy accepts, and the invariant of the table of policies.
use tallykeep.Prelude.{◌≡◌, ◌≢◌, ◌↔◌, true, Option, none, some, [], arith, ℤ, pos, ◌≤ℤ◌}
use tallykeep.Errors.{ok}
use tallykeep.Table.Laws.{Everywhere}
use tallykeep.Domain.Sweep.{SweepPolicy, new_policy, unacknowledged}
use tallykeep.Db.{Db}
use tallykeep.Repositories.Policies.{build_policy}

abbrev pub IsCap : Option ℤ → Type 0
IsCap none = Unit
IsCap (some n) = pos 0 ≤ℤ n

-- Two holdings, amounts that are not negative, and no unacknowledged warning while enabled.
pub record IsPolicy (p : SweepPolicy) : Type 0 where
  pub two_holdings : p.source_holding_id ≢ p.destination_holding_id
  pub minimum : pos 0 ≤ℤ p.minimum_balance_sats
  pub cap : IsCap p.maximum_per_period_sats
  pub acknowledged : p.is_enabled ≡ true → unacknowledged p.safety_warnings ≡ []

pub IsPolicy-new_policy : (p q : SweepPolicy) → new_policy p ≡ ok q → (q ≡ p) × IsPolicy p
unfolding new_policy
IsPolicy-new_policy p q e = ground arith

pub new_policy_complete : (p : SweepPolicy) → IsPolicy p → new_policy p ≡ ok p
unfolding new_policy
new_policy_complete p v = ground arith

-- The constructor accepts exactly the valid policies.
pub new_policy_iff : (p : SweepPolicy) → (new_policy p ≡ ok p) ↔ IsPolicy p
new_policy_iff p = ((λ e. (IsPolicy-new_policy p p e).1), new_policy_complete p)

-- every stored policy can be read back
pub record ArePolicies (d : Db) : Type 0 where
  pub policies : Everywhere IsPolicy d.policies

pub build_policy-some :
    (r p : SweepPolicy) → build_policy (some r) ≡ ok (some p) → (p ≡ r) × IsPolicy r
build_policy-some r p e = ground (arith, IsPolicy-new_policy r p)
