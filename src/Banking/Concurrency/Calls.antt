-- ===== src/Banking/Concurrency/Calls.antt =====
-- The calls of the banking service and of the chain listener, one by one and in a row.
use tallykeep.Prelude.{
  ◌≡◌, refl, sym, subst, ap, ◌∙◌, ℕ, String, Bool, true, not, Option, none, some, List, [], ◌∷◌,
  arith, inl, inr, Bool-cases,
}
use tallykeep.Errors.{
  uncaught, banking_error, payment_request_not_found, wrong_status_for_operation,
}
use tallykeep.Table.{get}
use tallykeep.Table.Laws.{get-flush_found}
use tallykeep.Domain.Enums.{PaymentStatus, is_awaiting_broadcast, is_awaiting_signature}
use tallykeep.Domain.Payment.{accepted, PaymentRequest, request_key}
use tallykeep.Domain.Sweep.{SweepExecution}
use tallykeep.Db.{Db, flush_all}
use tallykeep.Db.Session.{
  pure, state_bind, state_read, state_or_raise, state_raise_if, bind_or_raise_state,
}
use tallykeep.Repositories.Payments.{
  is_in_flight, has_in_flight_for_holding, request_get, request_get-unchanged, as_signed,
  as_cancelled, as_broadcast, as_confirmed, mark_broadcast, mark_confirmed,
  insert_broadcast_attempt, update_broadcast_attempt,
}
use tallykeep.Repositories.Executions.{execution_get, update_status}
use tallykeep.Banking.Outside.{Bdk, Node, Texts, SendOutcome, sent, node_rejected, node_unreachable}
use tallykeep.Banking.Building.{
  PaymentOrder, BuildResult, built, requires_confirmation, build_payment_request,
}
use tallykeep.Banking.Building.Built.{IsBuilt, build_payment_request-Outcome}
use tallykeep.Banking.Sending.{
  broadcast_committed, settle, submit_signed_payment_request, broadcast_payment_request,
  cancel_payment_request,
}
use tallykeep.Banking.Sending.Signing.{
  with_request, request_get-IsRequest, submit_signed_payment_request-Outcome,
  cancel_payment_request-Outcome,
}
use tallykeep.Banking.Linking.{
  completed_by, is_over, is_broadcast, get_by_broadcast_txid, complete_execution, complete_found,
  confirm_found, confirm_updated, link_payment_request,
}
use tallykeep.Banking.Concurrency.{
  AtMostOne, IsSettled, PaymentCall, build, submit, send, withdraw, confirm, serve_payment,
  serve_payments,
}
use tallykeep.Banking.Concurrency.Steps.{
  with_request-AtMostOne, insert-AtMostOne, flush_all-IsSettled, committed-IsSettled,
  commit_of-IsSettled, Outcome-AtMostOne,
}

-- the signature and the broadcast find the request in flight, and a cancelled one is not
stored-in_flight :
    (was : PaymentStatus → Bool)
    → ((s : PaymentStatus) → was s ≡ true → is_in_flight s ≡ true)
    → (id : ℕ) (d : Db) (r : PaymentRequest) → get id d.requests ≡ some r
    → was r.status ≡ true
    → (q : PaymentRequest) → get id d.requests ≡ some q
    → is_in_flight q.status ≡ true
stored-in_flight was implies id d r found w q again = ground (arith, implies r.status w)

waiting-in_flight : (s : PaymentStatus) → is_awaiting_signature s ≡ true → is_in_flight s ≡ true
waiting-in_flight s e = ground arith

ready-in_flight : (s : PaymentStatus) → is_awaiting_broadcast s ≡ true → is_in_flight s ≡ true
ready-in_flight s e = ground arith

module _ (texts : Texts) {P : Type 0} (bdk : Bdk P) where
  build-AtMostOne :
      (node : Node) (now new_id : ℕ) (o : PaymentOrder) (d : Db)
      → IsSettled d
      → AtMostOne (build_payment_request texts bdk node now new_id o d).1
  build-AtMostOne node now new_id o d s =
      Outcome-AtMostOne _ d s.in_flight
        (build_payment_request-Outcome texts bdk node now new_id o d) kept
    where
      kept : (b : BuildResult) (d' : Db) → IsBuilt texts bdk node now new_id o d b d' → AtMostOne d'
      kept (built r) d' h = subst AtMostOne (sym h.stored) (
          insert-AtMostOne d r s (
            ap (λ (q : PaymentRequest). has_in_flight_for_holding q.holding_id d) h.request
            ∙ h.none_in_flight))
      kept requires_confirmation d' h = subst AtMostOne (sym h.1) s.in_flight

submit-AtMostOne :
    {P : Type 0} (bdk : Bdk P) (now id : ℕ) (psbt hex : Option String) (d : Db)
    → AtMostOne d
    → AtMostOne (submit_signed_payment_request bdk now id psbt hex d).1
submit-AtMostOne bdk now id psbt hex d h =
    Outcome-AtMostOne _ d h (submit_signed_payment_request-Outcome bdk now id psbt hex d) (λ r d' e.
      subst AtMostOne (sym e.database) (
        with_request-AtMostOne id (as_signed now e.hex e.psbt) d (λ q. refl)
          (λ q found _.
            stored-in_flight is_awaiting_signature waiting-in_flight id d e.before e.stored.found
              (ap is_awaiting_signature e.waiting) q found)
          h))

cancel-AtMostOne :
    (now id : ℕ) (d : Db) → AtMostOne d → AtMostOne (cancel_payment_request now id d).1
cancel-AtMostOne now id d h =
    Outcome-AtMostOne _ d h (cancel_payment_request-Outcome now id d) (λ r d' e.
      subst AtMostOne (sym e.database)
        (with_request-AtMostOne id (as_cancelled now) d (λ q. refl) (λ q found p. cc) h))

-- only the requests matter
same_requests-AtMostOne : (d d' : Db) → d'.requests ≡ d.requests → AtMostOne d → AtMostOne d'
same_requests-AtMostOne d d' same h = record { at_most_one = λ i. rw (same) (h.at_most_one i) }

settle-AtMostOne :
    {P : Type 0} (bdk : Bdk P) (now attempt_id id : ℕ) (o : SendOutcome) (d : Db)
    (r : PaymentRequest)
    → get id d.requests ≡ some r
    → is_awaiting_broadcast r.status ≡ true
    → AtMostOne d
    → AtMostOne (settle bdk now attempt_id id o d).1
unfolding settle update_broadcast_attempt mark_broadcast
settle-AtMostOne bdk now attempt_id id (sent txid) d r found ready h =
    subst AtMostOne
      (sym (
        bind_or_raise_state (mark_broadcast now id txid d').0 payment_request_not_found
          (mark_broadcast now id txid d').1))
      (with_request-AtMostOne id (as_broadcast now txid) d' (λ q. refl)
        (λ q again _.
          stored-in_flight is_awaiting_broadcast ready-in_flight id d r found ready q again)
        (same_requests-AtMostOne d d' refl h))
  where
    d' : Db
    d' = update_broadcast_attempt now attempt_id accepted none d
settle-AtMostOne bdk now attempt_id id (node_rejected reason) d r found ready h = record {
  at_most_one = h.at_most_one;
}
settle-AtMostOne bdk now attempt_id id node_unreachable d r found ready h = h

broadcast-AtMostOne :
    {P : Type 0} (bdk : Bdk P) (node : Node) (now attempt_id id : ℕ) (d : Db)
    → AtMostOne d
    → AtMostOne (broadcast_payment_request bdk node now attempt_id id d).1
unfolding broadcast_payment_request insert_broadcast_attempt
broadcast-AtMostOne bdk node now attempt_id id d h =
    state_read AtMostOne d h (request_get id) _ (request_get-unchanged id d) λ found read.
      state_or_raise AtMostOne d h found payment_request_not_found _ λ r is_found.
        state_raise_if AtMostOne d h (not (is_awaiting_broadcast r.status))
          wrong_status_for_operation _
          λ ready. state_or_raise AtMostOne d h r.signed_transaction_hex banking_error _ λ hex _.
            state_or_raise AtMostOne d h (bdk.txid_of hex) uncaught _ λ txid _.
              settle-AtMostOne bdk now attempt_id id (node.send_raw_transaction hex)
                (flush_all (insert_broadcast_attempt attempt_id id hex txid d)) r
                (get-flush_found id d.requests r
                  (request_get-IsRequest id d found r read is_found).found)
                (ground arith)
                (same_requests-AtMostOne (flush_all d) _ refl (flush_all-IsSettled d h).in_flight)

-- completing the sweep leaves the requests alone
complete_found-AtMostOne :
    (now : ℕ) (txid : String) (e : Option SweepExecution) (d : Db)
    → AtMostOne d
    → AtMostOne (complete_found now txid e d).1
unfolding update_status
complete_found-AtMostOne now txid none d h = h
complete_found-AtMostOne now txid (some e) d h = elim (Bool-cases (is_over e.status)) [
  | inl over ↦ rw over h
  | inr running ↦ rw running (
      state_bind AtMostOne (update_status e.id (completed_by now txid)) (λ _. pure tt) d
        (same_requests-AtMostOne d _ refl h) (λ _. same_requests-AtMostOne d _ refl h))
]

complete_execution-AtMostOne :
    (now : ℕ) (txid : String) (id : Option ℕ) (d : Db)
    → AtMostOne d
    → AtMostOne (complete_execution now txid id d).1
unfolding execution_get
complete_execution-AtMostOne now txid none d h = h
complete_execution-AtMostOne now txid (some id) d h =
    state_read AtMostOne d h (execution_get id) _ refl
      (λ found _. complete_found-AtMostOne now txid found d h)

confirm_updated-AtMostOne :
    (now : ℕ) (txid : String) (r : PaymentRequest) (u : Option PaymentRequest) (d : Db)
    → AtMostOne d
    → AtMostOne (confirm_updated now txid r u d).1
confirm_updated-AtMostOne now txid r none d h = h
confirm_updated-AtMostOne now txid r (some u) d h =
    state_bind AtMostOne (complete_execution now txid r.sweep_execution_id) _ d
      (complete_execution-AtMostOne now txid r.sweep_execution_id d h)
      (λ _. complete_execution-AtMostOne now txid r.sweep_execution_id d h)

confirm_found-AtMostOne :
    (now : ℕ) (txid : String) (entry_id : ℕ) (o : Option PaymentRequest) (d : Db)
    → AtMostOne d
    → AtMostOne (confirm_found now txid entry_id o d).1
unfolding mark_confirmed
confirm_found-AtMostOne now txid entry_id none d h = h
confirm_found-AtMostOne now txid entry_id (some r) d h = elim (Bool-cases (is_broadcast r.status)) [
  | inr other ↦ rw other h
  | inl is_sent ↦ rw is_sent (
      state_bind AtMostOne (mark_confirmed now r.id entry_id) (confirm_updated now txid r) d marked
        (λ u. confirm_updated-AtMostOne now txid r u _ marked))
]
  where
    marked : AtMostOne (with_request r.id (as_confirmed now entry_id) d)
    marked =
        with_request-AtMostOne r.id (as_confirmed now entry_id) d (λ q. refl) (λ q found p. cc) h

get_by_broadcast_txid-unchanged : (txid : String) (d : Db) → (get_by_broadcast_txid txid d).1 ≡ d
unfolding get_by_broadcast_txid
get_by_broadcast_txid-unchanged txid d = ground arith

link-AtMostOne :
    (now : ℕ) (txid : String) (height entry_id : Option ℕ) (d : Db)
    → AtMostOne d
    → AtMostOne (link_payment_request now txid height entry_id d).1
unfolding link_payment_request
link-AtMostOne now txid (some height) (some entry_id) d h =
    state_read AtMostOne d h (get_by_broadcast_txid txid) _ (get_by_broadcast_txid-unchanged txid d)
      (λ found _. confirm_found-AtMostOne now txid entry_id found d h)
link-AtMostOne now txid (some height) none d h = h
link-AtMostOne now txid none entry_id d h = h

module _ (texts : Texts) {P : Type 0} (bdk : Bdk P) where
  serve_payment-IsSettled :
      (now : ℕ) (node : Node) (call : PaymentCall) (d : Db)
      → IsSettled d
      → IsSettled (serve_payment texts bdk now node call d)
  unfolding serve_payment broadcast_committed
  serve_payment-IsSettled now node (build new_id o) d s =
      committed-IsSettled _ d s (build-AtMostOne texts bdk node now new_id o d s)
  serve_payment-IsSettled now node (submit id psbt hex) d s =
      committed-IsSettled _ d s (submit-AtMostOne bdk now id psbt hex d s.in_flight)
  serve_payment-IsSettled now node (send attempt_id id) d s =
      commit_of-IsSettled _ d _ s (broadcast-AtMostOne bdk node now attempt_id id d s.in_flight)
  serve_payment-IsSettled now node (withdraw id) d s =
      committed-IsSettled _ d s (cancel-AtMostOne now id d s.in_flight)
  serve_payment-IsSettled now node (confirm txid height entry_id) d s =
      committed-IsSettled _ d s (link-AtMostOne now txid height entry_id d s.in_flight)

  -- Whatever calls are served, in whatever order and whatever bitcoind answers to each: where at most
  -- one payment of every holding is in flight and nothing is pending before, it is so after. In flight
  -- are drafts and the payments that wait for a signature, a broadcast or a confirmation.
  pub serve_payments-IsSettled :
      (calls : List (ℕ × Node × PaymentCall)) (d : Db)
      → IsSettled d
      → IsSettled (serve_payments texts bdk calls d)
  unfolding serve_payments
  serve_payments-IsSettled [] d s = s
  serve_payments-IsSettled ((now, node, call) ∷ rest) d s =
      serve_payments-IsSettled rest _ (serve_payment-IsSettled now node call d s)
