-- ===== src/Treasury/Reconciling/Debits.antt =====
-- The sign of an amount: the exchange reports a withdrawal as a debit, and an execution intends a
-- positive amount.
use tallykeep.Prelude.{
  ℕ, ◌+◌, ◌≤◌, ◌==◌, ◌≡◌, refl, true, false, Bool, ◌&&◌, ◌⊎◌, inl, inr, Bool-cases, List, [], ◌∷◌,
  All, filter_by, any_of, ℤ, pos, ◌≤ℤ◌, ◌<ℤ◌, -ℤ_parts, arith,
}
use tallykeep.Errors.{ok, err}
use tallykeep.Domain.Enums.{SweepExecutionStatus, requested, awaiting_user_confirmation, dispatched}
use tallykeep.Domain.Sweep.{SweepExecution}
use tallykeep.Domain.Mirror.{withdrawal}
use tallykeep.Db.{Db, flush_all}
use tallykeep.Repositories.Mirror.{mark_unmatched}
use tallykeep.Treasury.Reconciling.{
  settle_outflow, Event, outflow, within_tolerance, is_candidate, is_outflow_status, matched_of,
  reconcile_outflow, on_entry_added,
}

within_tolerance-debit :
    (observed intended : ℤ)
    → observed ≤ℤ pos 0
    → pos 10000 <ℤ intended
    → within_tolerance observed intended ≡ false
unfolding within_tolerance
within_tolerance-debit observed intended h k = ground (arith, -ℤ_parts observed intended)

-- of the executions with `p`, none has its amount within the tolerance
none_within :
    (observed : ℤ) (p : SweepExecution → Bool) (es : List SweepExecution)
    → observed ≤ℤ pos 0
    → All (λ e. p e ≡ true → pos 10000 <ℤ e.intended_amount_sats) es
    → filter_by (λ e. within_tolerance observed e.intended_amount_sats) (filter_by p es) ≡ []
none_within observed p [] h a = refl
none_within observed p (e ∷ es) h a = elim (Bool-cases (p e)) [
  | inl near ↦
      rw (near, within_tolerance-debit observed e.intended_amount_sats h (a.0 near))
        (none_within observed p es h a.1)
  | inr far ↦ rw far (none_within observed p es h a.1)
]

-- An execution that the event may belong to: of a policy from the event's holding, requested, waiting for
-- the user or dispatched, and triggered at most four hours before or after the entry.
pub record IsNear (ev : Event) (d : Db) (e : SweepExecution) : Type 0 where
  pub of_policy :
      any_of
        (λ p. p.id == e.sweep_policy_id && p.source_holding_id == ev.holding_id)
        d.policies.rows
      ≡ true
  pub open_status :
      (e.status ≡ requested) ⊎ ((e.status ≡ awaiting_user_confirmation) ⊎ (e.status ≡ dispatched))
  pub not_before : ev.entry_ts ≤ e.triggered_at + 14400
  pub not_after : e.triggered_at ≤ ev.entry_ts + 14400

outflow-open :
    (s : SweepExecutionStatus)
    → is_outflow_status s ≡ true
    → (s ≡ requested) ⊎ ((s ≡ awaiting_user_confirmation) ⊎ (s ≡ dispatched))
outflow-open requested h = inl refl
outflow-open awaiting_user_confirmation h = inr (inl refl)
outflow-open dispatched h = inr (inr refl)
outflow-open s h = ground arith

is_candidate-IsNear :
    (ev : Event) (d : Db) (e : SweepExecution) → is_candidate outflow ev d e ≡ true → IsNear ev d e
is_candidate-IsNear ev d e h = record {
  of_policy = ground arith;
  open_status = outflow-open e.status (ground arith);
  not_before = ground arith;
  not_after = ground arith;
}

candidates-large :
    (ev : Event) (d : Db) (es : List SweepExecution)
    → All (λ e. IsNear ev d e → pos 10000 <ℤ e.intended_amount_sats) es
    → All (λ e. is_candidate outflow ev d e ≡ true → pos 10000 <ℤ e.intended_amount_sats) es
candidates-large ev d [] a = tt
candidates-large ev d (e ∷ es) a =
    (λ h. a.0 (is_candidate-IsNear ev d e h), candidates-large ev d es a.1)

-- A withdrawal that is reported as a debit, with an amount of at most zero, is linked to no execution
-- where every execution that it may belong to, by its policy, its status and its time, intends more than
-- 10,000 sats: the event marks its entry as unmatched and changes nothing else. A debit is what the
-- adapter of the exchange reports.
pub on_entry_added-debit :
    (ev : Event) (now : ℕ) (d : Db)
    → ev.amount_sats ≤ℤ pos 0
    → All (λ e. IsNear ev d e → pos 10000 <ℤ e.intended_amount_sats) d.executions.rows
    → on_entry_added withdrawal ev now d ≡ flush_all (mark_unmatched ev.entry_id now d)
unfolding on_entry_added reconcile_outflow
on_entry_added-debit ev now d h a =
    let none_matched : matched_of outflow ev d ≡ [] =
      none_within ev.amount_sats (is_candidate outflow ev d) d.executions.rows h
        (candidates-large ev d d.executions.rows a) in
    settled (matched_of outflow ev d) none_matched
  where
    settled :
        (l : List SweepExecution)
        → l ≡ []
        → (elim (settle_outflow ev now l d).0 [
          | ok _ ↦ flush_all (settle_outflow ev now l d).1
          | err _ ↦ d
        ])
          ≡ flush_all (mark_unmatched ev.entry_id now d)
    settled [] e = refl
    settled (x ∷ xs) e = ground arith
