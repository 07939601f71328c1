-- ===== src/Treasury/Engine/Created.antt =====
-- Exactly which executions a run of the sweep engine stores.
use tallykeep.Prelude.{
  ℕ, ◌≡◌, refl, ap, inl, inr, Bool, true, false, ◌&&◌, Option, none, some, List, [], ◌∷◌, ◌++◌, map,
  arith, Bool-cases, ℤ, pos, ◌-ℤ◌, ltb_ℤ, ◌≤ℤ◌, int_laws, filter_by, All, All-filter_by,
  append_assoc, append_nil,
}
use tallykeep.Errors.{ok}
use tallykeep.Table.{get, select}
use tallykeep.Table.Laws.{modify-missing}
use tallykeep.Domain.Enums.{is_threshold}
use tallykeep.Domain.Sweep.{SweepPolicy, SweepExecution, new_execution, execution_key}
use tallykeep.Db.{Db}
use tallykeep.Repositories.Policies.{list_policies, matches_filter, build_policies}
use tallykeep.Repositories.Executions.{execution_create, update_status, apply_status}
use tallykeep.Treasury.Policies.Valid.{IsPolicy, ArePolicies, new_policy_complete}
use tallykeep.Treasury.Engine.{
  threshold_of, capped, sweep_amount, execution_of, complete_dry_run, completed_now, trigger,
  process_policy, process_policies, process_threshold_policies,
}

-- the policy has a threshold, the balance is above it, and something is left to sweep
abbrev pub is_due : ℤ → SweepPolicy → Bool
is_due balance p =
    is_threshold p.trigger_type
    && ltb_ℤ (threshold_of p) balance
    && ltb_ℤ (pos 0) (sweep_amount balance p)

-- the database with more executions pending
abbrev pub with_pending : List SweepExecution → Db → Db
with_pending es d = record d {
  executions = record d.executions { pending = d.executions.pending ++ es };
}

build_policies_complete : (ps : List SweepPolicy) → All IsPolicy ps → build_policies ps ≡ ok ps
build_policies_complete [] h = refl
build_policies_complete (p ∷ ps) h =
    ground (arith, new_policy_complete p h.0, build_policies_complete ps h.1)

list_policies_complete :
    (source : Option ℕ) (enabled : Option Bool) (d : Db)
    → ArePolicies d
    → list_policies source enabled d ≡ (ok (select (matches_filter source enabled) d.policies), d)
unfolding list_policies
list_policies_complete source enabled d h =
    ap (λ r. (r, d))
      (build_policies_complete _
        (All-filter_by IsPolicy (matches_filter source enabled) d.policies.rows h.policies.in_rows))

-- What is swept is positive only where the balance is, so the constructor accepts it.
balance-positive :
    (balance minimum : ℤ) (cap : Option ℤ)
    → pos 0 ≤ℤ minimum
    → ltb_ℤ (pos 0) (capped cap (balance -ℤ minimum)) ≡ true
    → pos 0 ≤ℤ balance
balance-positive balance minimum none m h = grind int_laws
balance-positive balance minimum (some c) m h = grind int_laws

module _ (now new_id : SweepPolicy → ℕ) where
  new_execution-due :
      (balance : ℤ) (p : SweepPolicy)
      → IsPolicy p
      → ltb_ℤ (pos 0) (sweep_amount balance p) ≡ true
      → new_execution (execution_of now new_id balance p) ≡ ok (execution_of now new_id balance p)
  unfolding new_execution
  new_execution-due balance p v h =
      ground
        (arith, balance-positive balance p.minimum_balance_sats p.maximum_per_period_sats v.minimum)

  -- The row of a dry run is pending when its status is updated, so no row is found.
  complete_dry_run-pending :
      (b : Bool) (id : ℕ) (p : SweepPolicy) (d : Db)
      → get id d.executions ≡ none
      → complete_dry_run now new_id b id p d ≡ (ok tt, d)
  unfolding update_status
  complete_dry_run-pending true id p d fresh =
      ground (arith, modify-missing (apply_status (completed_now now new_id p)) id d.executions)
  complete_dry_run-pending false id p d fresh = refl

  -- so a dry run too leaves the execution as it was created
  trigger-due :
      (balance : ℤ) (p : SweepPolicy) (d : Db)
      → IsPolicy p
      → get (new_id p) d.executions ≡ none
      → ltb_ℤ (pos 0) (sweep_amount balance p) ≡ true
      → trigger now new_id balance p d
        ≡ (ok tt, with_pending (execution_of now new_id balance p ∷ []) d)
  unfolding trigger execution_create get
  trigger-due balance p d v fresh h = rw (new_execution-due balance p v h) (
      complete_dry_run-pending p.is_dry_run (new_id p) p
        (with_pending (execution_of now new_id balance p ∷ []) d) fresh)

  process_policy-due :
      (balance : ℤ) (p : SweepPolicy) (d : Db)
      → IsPolicy p
      → get (new_id p) d.executions ≡ none
      → is_due balance p ≡ true
      → process_policy now new_id balance p d
        ≡ (ok tt, with_pending (execution_of now new_id balance p ∷ []) d)
  unfolding process_policy
  process_policy-due balance p d v fresh h = ground (arith, trigger-due balance p d)

  process_policy-skipped :
      (balance : ℤ) (p : SweepPolicy) (d : Db)
      → is_due balance p ≡ false
      → process_policy now new_id balance p d ≡ (ok tt, d)
  unfolding process_policy
  process_policy-skipped balance p d h = ground arith

  -- the executions of the policies that are due
  abbrev pub due_executions : ℤ → List SweepPolicy → List SweepExecution
  due_executions balance ps = map (execution_of now new_id balance) (filter_by (is_due balance) ps)

  process_policies-due :
      (balance : ℤ) (ps : List SweepPolicy) (d : Db)
      → All IsPolicy ps
      → ((p : SweepPolicy) → get (new_id p) d.executions ≡ none)
      → process_policies now new_id balance ps d
        ≡ (ok tt, with_pending (due_executions balance ps) d)
  unfolding process_policies get
  process_policies-due balance [] d h fresh = rw (append_nil d.executions.pending) refl
  process_policies-due balance (p ∷ ps) d h fresh = elim (Bool-cases (is_due balance p)) [
    | inl due ↦
        rw
          (
            process_policy-due balance p d h.0 (fresh p) due,
            due,
            process_policies-due balance ps
                (with_pending (execution_of now new_id balance p ∷ []) d) h.1 fresh,
            append_assoc d.executions.pending (execution_of now new_id balance p ∷ [])
                (due_executions balance ps),
          )
          refl
    | inr skipped ↦
        rw (process_policy-skipped balance p d skipped, skipped)
          (process_policies-due balance ps d h.1 fresh)
  ]

  -- Where every stored policy is valid and the drawn ids are new, a run of the sweep engine stores
  -- exactly one execution for each enabled policy of the source that is due, as it was created, in the
  -- order of the policies, and changes nothing else. So a dry run is not completed by it.
  pub process_threshold_policies-due :
      (source : ℕ) (balance : ℤ) (d : Db)
      → ArePolicies d
      → ((p : SweepPolicy) → get (new_id p) d.executions ≡ none)
      → process_threshold_policies now new_id source balance d ≡ (
        ok tt,
        with_pending
            (due_executions balance (select (matches_filter (some source) (some true)) d.policies))
            d,
      )
  unfolding process_threshold_policies
  process_threshold_policies-due source balance d h fresh =
      rw (list_policies_complete (some source) (some true) d h) (
        process_policies-due balance _ d
          (All-filter_by IsPolicy (matches_filter (some source) (some true)) d.policies.rows
            h.policies.in_rows)
          fresh)
