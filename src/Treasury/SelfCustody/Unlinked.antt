-- ===== src/Treasury/SelfCustody/Unlinked.antt =====
-- The rows that the poller adds are pending, so what it then looks up is not found.
use tallykeep.Prelude.{
  ◌≡◌, refl, sym, subst, ap, ◌∙◌, ℕ, Bool, true, false, Option, none, some, List, [], ◌∷◌, arith,
  inl, inr, ℤ, any_of, find_first, ◌==◌, any_of-append, ◌||◌,
}
use tallykeep.Errors.{Result, ok, err}
use tallykeep.Table.{Table, get, modify, add, flush}
use tallykeep.Table.Laws.{modify-missing, get-flush-add, get-add}
use tallykeep.Domain.Payment.{PaymentRequest, request_key}
use tallykeep.Domain.Chain.{Descriptor, Address}
use tallykeep.Domain.Sweep.{
  new_execution-same, SweepPolicy, SweepExecution, execution_key, new_execution,
}
use tallykeep.Db.{Db, flush_all}
use tallykeep.Db.Session.{lift, write, ◌>>=◌, ◌>>◌, Session, state_bind, state_read}
use tallykeep.Repositories.Executions.{StatusUpdate, execution_create, update_status, apply_status}
use tallykeep.Repositories.Payments.{request_insert}
use tallykeep.Repositories.Descriptors.{list_descriptors_for_holding, next_unused_address}
use tallykeep.Repositories.Cascade.{refers}
use tallykeep.Treasury.Engine.{execution_of, sweep_amount}
use tallykeep.Banking.Outside.{Bdk, Node, Texts}
use tallykeep.Banking.Building.{BuildResult, built, requires_confirmation}
use tallykeep.Banking.Building.Built.{IsBuilt, build_payment_request-Outcome}
use tallykeep.Treasury.SelfCustody.{
  in_session, attempt, sweep_order, failed_with, set_status, link_request, link_built, pay_to,
  pay_from, pay_or_complete, trigger_sweep,
}

-- a payment that is linked to the execution
abbrev pub is_linked : ℕ → PaymentRequest → Bool
is_linked execution_id r = refers execution_id r.sweep_execution_id

-- The execution is pending, as it was created, and no payment is linked to it.
record IsPending (e : SweepExecution) (d0 d : Db) : Type 0 where
  executions : d.executions ≡ add e d0.executions
  rows : d.requests.rows ≡ d0.requests.rows
  pending : any_of (is_linked e.id) d.requests.pending ≡ false

set_status-IsPending :
    (e : SweepExecution) (d0 : Db) (u : StatusUpdate) (d : Db)
    → get e.id d0.executions ≡ none
    → IsPending e d0 d
    → IsPending e d0 (set_status e.id u d).1
unfolding update_status get
set_status-IsPending e d0 u d fresh h =
    state_bind (IsPending e d0) (update_status e.id u) _ d kept (λ _. kept)
  where
    kept : IsPending e d0 (update_status e.id u d).1
    kept = record {
      executions =
          ap (modify e.id (apply_status u)) h.executions
          ∙ modify-missing (apply_status u) e.id (add e d0.executions) fresh;
      rows = h.rows;
      pending = h.pending;
    }

-- a session that returns has committed what the action left
session-ok :
    (r : Result (Unit {0})) (d d' : Db)
    → (elim r as (λ _. Result (Unit {0}) × Db) [
      | ok a ↦ (ok a, flush_all d')
      | err e ↦ (err e, d)
    ]).0
      ≡ ok tt
    → (r ≡ ok tt)
      × ((elim r as (λ _. Result (Unit {0}) × Db) [
        | ok a ↦ (ok a, flush_all d')
        | err e ↦ (err e, d)
      ]).1
          ≡ flush_all d')
session-ok (ok a) d d' h = (h, refl)
session-ok (err e) d d' h = cc

module _ (now new_id request_id : SweepPolicy → ℕ) (texts : Texts) {P : Type 0} (bdk : Bdk P)
    (node : Node) (p : SweepPolicy) (balance : ℤ) (d0 : Db)
    (fresh : get (new_id p) d0.executions ≡ none)
    (fresh_request : get (request_id p) d0.requests ≡ none) where
  abbrev created : SweepExecution
  created = execution_of now new_id balance p

  missing : (d : Db) → IsPending created d0 d → get (request_id p) d.requests ≡ none
  unfolding get
  missing d h =
      subst (λ rows. find_first (λ r. r.id == request_id p) rows ≡ none) (sym h.rows) fresh_request

  -- the payment that was built is pending too, and is not found
  built-IsPending :
      (a : Address) (amount : ℤ) (b : BuildResult) (d d' : Db)
      → IsPending created d0 d
      → IsBuilt texts bdk node
          (now p)
          (request_id p)
          (sweep_order now new_id request_id texts bdk node p a amount)
          d
          b
          d'
      → IsPending created d0 (link_built (new_id p) b d').1
  unfolding request_insert
  built-IsPending a amount (built r) d d' h composed =
      subst (λ x. IsPending created d0 (link_request r.id (new_id p) x)) (sym composed.stored)
        (record {
          executions = h.executions;
          rows =
              ap (λ (t : Table PaymentRequest). t.rows)
                (modify-missing (λ q. record q { sweep_execution_id = some (new_id p) }) r.id
                  (add r d.requests)
                  (get-add r.id r d.requests
                    ∙ ap (λ i. get i d.requests)
                        (ap (λ (q : PaymentRequest). q.id) composed.request)
                    ∙ missing d h))
              ∙ h.rows;
          pending =
              ap (λ (t : Table PaymentRequest). any_of (is_linked (new_id p)) t.pending)
                (modify-missing (λ q. record q { sweep_execution_id = some (new_id p) }) r.id
                  (add r d.requests)
                  (get-add r.id r d.requests
                    ∙ ap (λ i. get i d.requests)
                        (ap (λ (q : PaymentRequest). q.id) composed.request)
                    ∙ missing d h))
              ∙ any_of-append (is_linked (new_id p)) d.requests.pending (r ∷ [])
              ∙ unlinked r (ap (λ (q : PaymentRequest). q.sweep_execution_id) composed.request)
                  h.pending;
        })
    where
      unlinked :
          (q : PaymentRequest)
          → q.sweep_execution_id ≡ none
          → any_of (is_linked (new_id p)) d.requests.pending ≡ false
          → (any_of (is_linked (new_id p)) d.requests.pending
              || any_of (is_linked (new_id p)) (q ∷ []))
            ≡ false
      unlinked q e f = ground (arith, e, f)
  built-IsPending a amount requires_confirmation d d' h asked =
      subst (IsPending created d0) (sym asked.1) h

  pay_to-IsPending :
      (amount : ℤ) (o : Option Address) (d : Db)
      → IsPending created d0 d
      → IsPending created d0 (pay_to now new_id request_id texts bdk node p amount o d).1
  pay_to-IsPending amount none d h = set_status-IsPending created d0 _ d fresh h
  pay_to-IsPending amount (some a) d h =
      let order = sweep_order now new_id request_id texts bdk node p a amount in
      elim (build_payment_request-Outcome texts bdk node (now p) (request_id p) order d).outcome [
        | inl (e, run) ↦
            subst (λ x. IsPending created d0 (attempted amount x).1) (sym run)
              (set_status-IsPending created d0 _ d fresh h)
        | inr (b, d', run, after) ↦
            subst (λ x. IsPending created d0 (attempted amount x).1) (sym run)
              (built-IsPending a amount b d d' h after)
      ]
    where
      attempted : ℤ → Result BuildResult × Db → Result (Unit {0}) × Db
      attempted amount r =
          attempt (λ _. r) (link_built (new_id p))
            (set_status (new_id p)
              (failed_with now new_id request_id texts bdk node p "PaymentRequest build failed"))
            d

  pay_from-IsPending :
      (amount : ℤ) (xs : List Descriptor) (d : Db)
      → IsPending created d0 d
      → IsPending created d0 (pay_from now new_id request_id texts bdk node p amount xs d).1
  pay_from-IsPending amount [] d h = set_status-IsPending created d0 _ d fresh h
  pay_from-IsPending amount (x ∷ xs) d h =
      pay_to-IsPending amount (next_unused_address x.id false d) d h

  pay_or_complete-IsPending :
      (dry : Bool) (amount : ℤ) (d : Db)
      → IsPending created d0 d
      → IsPending created d0 (pay_or_complete now new_id request_id texts bdk node dry p amount d).1
  pay_or_complete-IsPending true amount d h = set_status-IsPending created d0 _ d fresh h
  pay_or_complete-IsPending false amount d h =
      state_read (IsPending created d0) d h (list_descriptors_for_holding p.destination_holding_id)
        _ refl (λ xs _. pay_from-IsPending amount xs d h)

  abbrev triggered : Result SweepExecution → Session (Unit {0})
  triggered r = lift r >>= λ execution.
      write (execution_create execution)
      >> pay_or_complete now new_id request_id texts bdk node p.is_dry_run p
          (sweep_amount balance p)

  triggered-IsPending :
      (r : Result SweepExecution)
      → new_execution created ≡ r
      → d0.requests.pending ≡ []
      → (triggered r d0).0 ≡ ok tt
      → IsPending created d0 (triggered r d0).1
  unfolding execution_create
  triggered-IsPending (err e) made settled returns = cc
  triggered-IsPending (ok x) made settled returns =
      pay_or_complete-IsPending p.is_dry_run (sweep_amount balance p) (execution_create x d0)
        (record {
          executions = ap (λ e. add e d0.executions) (new_execution-same created x made);
          rows = refl;
          pending = rw settled refl;
        })

  trigger_sweep-IsPending :
      d0.requests.pending ≡ []
      → (trigger_sweep now new_id request_id texts bdk node p balance d0).0 ≡ ok tt
      → IsPending created d0 (trigger_sweep now new_id request_id texts bdk node p balance d0).1
  unfolding trigger_sweep
  trigger_sweep-IsPending settled returns =
      triggered-IsPending (new_execution created) refl settled returns

  flushed :
      (d : Db)
      → IsPending created d0 d
      → d0.executions.pending ≡ []
      → any_of (is_linked (new_id p)) d0.requests.rows ≡ false
      → (get (new_id p) (flush d.executions) ≡ some created)
        × (any_of (is_linked (new_id p)) (flush d.requests).rows ≡ false)
  flushed d h settled unlinked = (
    subst (λ t. get (new_id p) (flush t) ≡ some created) (sym h.executions)
        (get-flush-add created d0.executions fresh (rw settled refl)),
    any_of-append (is_linked (new_id p)) d.requests.rows d.requests.pending
        ∙ (rw (h.pending, h.rows) (ground (arith, unlinked))),
  )

  session-flushed :
      (m : Session (Unit {0}))
      → (in_session m d0).0 ≡ ok tt
      → ((m d0).0 ≡ ok tt → IsPending created d0 (m d0).1)
      → d0.executions.pending ≡ []
      → any_of (is_linked (new_id p)) d0.requests.rows ≡ false
      → (get (new_id p) (in_session m d0).1.executions ≡ some created)
        × (any_of (is_linked (new_id p)) (in_session m d0).1.requests.rows ≡ false)
  session-flushed m returns pending settled unlinked =
      let run = session-ok (m d0).0 d0 (m d0).1 returns in
      subst
        (λ x.
          (get (new_id p) x.executions ≡ some created)
          × (any_of (is_linked (new_id p)) x.requests.rows ≡ false))
        (sym run.1) (flushed (m d0).1 (pending run.0) settled unlinked)

-- Where the session is new and the UUIDs are, an execution that the poller has made and committed is
-- stored in its first status, be it a dry run or one that failed, and no payment is linked to it.
pub trigger_sweep-unlinked :
    (now new_id request_id : SweepPolicy → ℕ) (texts : Texts) {P : Type 0} (bdk : Bdk P)
    (node : Node) (p : SweepPolicy) (balance : ℤ) (d : Db)
    → get (new_id p) d.executions ≡ none
    → get (request_id p) d.requests ≡ none
    → d.executions.pending ≡ []
    → d.requests.pending ≡ []
    → any_of (is_linked (new_id p)) d.requests.rows ≡ false
    → (in_session (trigger_sweep now new_id request_id texts bdk node p balance) d).0 ≡ ok tt
    → (get
          (new_id p)
          (in_session (trigger_sweep now new_id request_id texts bdk node p balance) d).1.executions
        ≡ some (execution_of now new_id balance p))
      × (any_of
            (is_linked (new_id p))
            (in_session
              (trigger_sweep now new_id request_id texts bdk node p balance)
              d).1.requests.rows
          ≡ false)
trigger_sweep-unlinked now new_id request_id texts bdk node p balance d fresh fresh_request settled
      none_pending unlinked returns =
    session-flushed now new_id request_id texts bdk node p balance d fresh fresh_request
      (trigger_sweep now new_id request_id texts bdk node p balance) returns
      (trigger_sweep-IsPending now new_id request_id texts bdk node p balance d fresh fresh_request
        none_pending)
      settled unlinked
