-- ===== src/Treasury/Engine/Bounds.antt =====
-- What the amounts of the executions that the sweep engine stores are bounded by.
use tallykeep.Prelude.{
  ℕ, ◌≡◌, refl, true, Option, none, some, List, [], ◌∷◌, arith, inl, inr, Bool-cases, ℤ, pos, ◌-ℤ◌,
  ◌+ℤ◌, ◌≤ℤ◌, ◌<ℤ◌, int_laws, filter_by, All,
}
use tallykeep.Table.{get}
use tallykeep.Domain.Sweep.{SweepPolicy, SweepExecution, execution_key}
use tallykeep.Db.{Db}
use tallykeep.Repositories.Policies.{matches_filter}
use tallykeep.Treasury.Policies.Valid.{IsPolicy, ArePolicies}
use tallykeep.Treasury.Engine.{threshold_of, capped, execution_of, process_threshold_policies}
use tallykeep.Treasury.Engine.Created.{is_due, due_executions, process_threshold_policies-due}

abbrev pub IsWithinCap : Option ℤ → ℤ → Type 0
IsWithinCap none amount = Unit
IsWithinCap (some cap) amount = amount ≤ℤ cap

-- An execution that is within the policy it was made for: one that is valid and enabled, with the
-- balance above its threshold, so much left as the policy wants, and no more than its cap.
pub record IsWithin (source : ℕ) (balance : ℤ) (e : SweepExecution) : Type 0 where
  pub policy : SweepPolicy
  pub made_for : e.sweep_policy_id ≡ policy.id
  pub valid : IsPolicy policy
  pub enabled : policy.is_enabled ≡ true
  pub of_source : policy.source_holding_id ≡ source
  pub above_threshold : threshold_of policy <ℤ balance
  pub positive : pos 0 <ℤ e.intended_amount_sats
  pub leaves_minimum : (e.intended_amount_sats +ℤ policy.minimum_balance_sats) ≤ℤ balance
  pub within_cap : IsWithinCap policy.maximum_per_period_sats e.intended_amount_sats

capped-least : (cap : Option ℤ) (n : ℤ) → (capped cap n ≤ℤ n) × IsWithinCap cap (capped cap n)
capped-least none n = ground arith
capped-least (some c) n = ground arith

minimum-left :
    (cap : Option ℤ) (balance minimum : ℤ) → (capped cap (balance -ℤ minimum) +ℤ minimum) ≤ℤ balance
minimum-left none balance minimum = grind int_laws
minimum-left (some c) balance minimum = grind int_laws

module _ (now new_id : SweepPolicy → ℕ) where
  execution_of-IsWithin :
      (source : ℕ) (balance : ℤ) (p : SweepPolicy)
      → IsPolicy p
      → matches_filter (some source) (some true) p ≡ true
      → is_due balance p ≡ true
      → IsWithin source balance (execution_of now new_id balance p)
  execution_of-IsWithin source balance p v m due = record {
    policy = p;
    made_for = refl;
    valid = v;
    enabled = ground arith;
    of_source = ground arith;
    above_threshold = ground arith;
    positive = ground arith;
    leaves_minimum = minimum-left p.maximum_per_period_sats balance p.minimum_balance_sats;
    within_cap = (capped-least p.maximum_per_period_sats (balance -ℤ p.minimum_balance_sats)).1;
  }

  due_executions-IsWithin :
      (source : ℕ) (balance : ℤ) (ps : List SweepPolicy)
      → All IsPolicy ps
      → All (IsWithin source balance) (
          due_executions now new_id balance
            (filter_by (matches_filter (some source) (some true)) ps))
  due_executions-IsWithin source balance [] h = tt
  due_executions-IsWithin source balance (p ∷ ps) h =
      elim (Bool-cases (matches_filter (some source) (some true) p)) [
        | inr other ↦ rw other (due_executions-IsWithin source balance ps h.1)
        | inl m ↦ elim (Bool-cases (is_due balance p)) [
          | inl due ↦
              rw (m, due)
                (
                  execution_of-IsWithin source balance p h.0 m due,
                  due_executions-IsWithin source balance ps h.1,
                )
          | inr skipped ↦ rw (m, skipped) (due_executions-IsWithin source balance ps h.1)
        ]
      ]

  -- Where every stored policy is valid, the drawn ids are new and no execution is pending, each
  -- execution that a run of the sweep engine stores is made for a valid, enabled policy of the source:
  -- the balance is above its threshold, the amount is positive, within the cap, and leaves the minimum
  -- balance.
  pub process_threshold_policies-IsWithin :
      (source : ℕ) (balance : ℤ) (d : Db)
      → ArePolicies d
      → ((p : SweepPolicy) → get (new_id p) d.executions ≡ none)
      → d.executions.pending ≡ []
      → All
          (IsWithin source balance)
          (process_threshold_policies now new_id source balance d).1.executions.pending
  process_threshold_policies-IsWithin source balance d h fresh none_pending =
      rw (process_threshold_policies-due now new_id source balance d h fresh, none_pending)
        (due_executions-IsWithin source balance d.policies.rows h.policies.in_rows)
