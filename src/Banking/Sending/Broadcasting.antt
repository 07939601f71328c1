-- ===== src/Banking/Sending/Broadcasting.antt =====
-- What a broadcast leaves behind, by what bitcoind answers.
use tallykeep.Prelude.{
  sym, ap, ◌∙◌, subst, ◌≡◌, refl, ℕ, String, true, Option, none, some, arith, ◌==◌, find_first,
}
use tallykeep.Errors.{banking_error, broadcast_rejected, err, ok}
use tallykeep.Table.{get}
use tallykeep.Table.Laws.{get-flush_found, get-modify, get-flush, get-flush-add}
use tallykeep.Domain.Enums.{broadcast, is_awaiting_broadcast}
use tallykeep.Domain.Payment.{
  rejected, accepted, PaymentRequest, BroadcastAttempt, AttemptStatus, request_key, attempt_key,
  new_payment_request,
}
use tallykeep.Db.Session.{bind_result, or_raise}
use tallykeep.Errors.{payment_request_not_found}
use tallykeep.Banking.Sending.{commit_of}
use tallykeep.Db.{Db, flush_all}
use tallykeep.Repositories.Payments.{
  write_request, mark_broadcast, request_get, as_broadcast, as_completed, attempt_of,
  insert_broadcast_attempt, update_broadcast_attempt,
}
use tallykeep.Banking.Outside.{node_rejected, sent, node_unreachable, Bdk, Node}
use tallykeep.Banking.Sending.{broadcast_committed, settle, broadcast_payment_request}
use tallykeep.Banking.Sending.Signing.{write_request-stored, with_request, IsRequest}

request_get-stored :
    (id : ℕ) (d : Db) (r : PaymentRequest) → IsRequest id d r → request_get id d ≡ (ok (some r), d)
unfolding request_get
request_get-stored id d r s = ground (arith, s.found, s.valid)

as_broadcast-valid :
    (now : ℕ) (txid hex : String) (r : PaymentRequest)
    → new_payment_request r ≡ ok r
    → r.signed_transaction_hex ≡ some hex
    → new_payment_request (as_broadcast now txid r) ≡ ok (as_broadcast now txid r)
unfolding new_payment_request
as_broadcast-valid now txid hex r v e = ground arith

-- A payment that waits for its broadcast, and a new id for the attempt.
pub record IsReady {P : Type 0} (bdk : Bdk P) (attempt_id id : ℕ) (d : Db) (r : PaymentRequest)
    (hex txid : String) : Type 0 where
  pub stored : IsRequest id d r
  pub waiting : is_awaiting_broadcast r.status ≡ true
  pub signed : r.signed_transaction_hex ≡ some hex
  pub parsed : bdk.txid_of hex ≡ some txid
  pub not_stored : get attempt_id d.attempts ≡ none
  pub not_pending :
      find_first (λ (a : BroadcastAttempt). a.id == attempt_id) d.attempts.pending ≡ none

module _ {P : Type 0} (bdk : Bdk P) (node : Node) (now attempt_id id : ℕ) (d : Db)
    (r : PaymentRequest) (hex txid : String) (ready : IsReady bdk attempt_id id d r hex txid) where
  -- the database when bitcoind is called
  submitted_db : Db
  submitted_db = flush_all (insert_broadcast_attempt attempt_id id hex txid d)

  broadcast-run :
      broadcast_payment_request bdk node now attempt_id id d
      ≡ settle bdk now attempt_id id (node.send_raw_transaction hex) submitted_db
  unfolding broadcast_payment_request submitted_db
  broadcast-run =
      ground
        (arith, request_get-stored id d r ready.stored, ready.waiting, ready.signed, ready.parsed)

  attempt-stored : get attempt_id submitted_db.attempts ≡ some (attempt_of attempt_id id hex txid)
  unfolding insert_broadcast_attempt submitted_db
  attempt-stored =
      get-flush-add (attempt_of attempt_id id hex txid) d.attempts ready.not_stored
        ready.not_pending

  request-stored : get id submitted_db.requests ≡ some r
  unfolding insert_broadcast_attempt submitted_db
  request-stored = ground (arith, get-flush id d.requests, ready.stored.found)

  attempt-completed :
      (status : AttemptStatus) (reason : Option String)
      → get attempt_id (update_broadcast_attempt now attempt_id status reason submitted_db).attempts
        ≡ some (as_completed now status reason (attempt_of attempt_id id hex txid))
  unfolding update_broadcast_attempt
  attempt-completed status reason = ground (
    arith,
    attempt-stored,
    get-modify (as_completed now status reason) (λ a. refl) attempt_id attempt_id
        submitted_db.attempts,
  )

  completed_db : AttemptStatus → Option String → Db
  completed_db status reason = update_broadcast_attempt now attempt_id status reason submitted_db

  request-kept :
      (status : AttemptStatus) (reason : Option String)
      → get id (completed_db status reason).requests ≡ some r
  unfolding update_broadcast_attempt completed_db
  request-kept status reason = request-stored

  IsRequest-broadcast :
      (new_txid : String)
      → let before = completed_db accepted none in
        let after = with_request id (as_broadcast now new_txid) before in
        (write_request id (as_broadcast now new_txid) before
          ≡ (ok (some (as_broadcast now new_txid r)), after))
        × IsRequest id after (as_broadcast now new_txid r)
  IsRequest-broadcast new_txid =
      write_request-stored id (as_broadcast now new_txid) (completed_db accepted none) r (λ q. refl)
        (request-kept accepted none)
        (as_broadcast-valid now new_txid hex r ready.stored.valid ready.signed)

  run-sent :
      (new_txid : String)
      → node.send_raw_transaction hex ≡ sent new_txid
      → broadcast_payment_request bdk node now attempt_id id d ≡ (
        ok (as_broadcast now new_txid r),
        with_request id (as_broadcast now new_txid) (completed_db accepted none),
      )
  unfolding settle mark_broadcast completed_db
  run-sent new_txid answer =
      broadcast-run
      ∙ ap (λ o. settle bdk now attempt_id id o submitted_db) answer
      ∙ ap (λ x. bind_result x.0 (λ u. or_raise u payment_request_not_found) x.1)
          (IsRequest-broadcast new_txid).0

  run-rejected :
      (reason : String)
      → node.send_raw_transaction hex ≡ node_rejected reason
      → broadcast_payment_request bdk node now attempt_id id d
        ≡ (err broadcast_rejected, completed_db rejected (some reason))
  unfolding settle completed_db
  run-rejected reason answer =
      broadcast-run ∙ ap (λ o. settle bdk now attempt_id id o submitted_db) answer

  run-unreachable :
      node.send_raw_transaction hex ≡ node_unreachable
      → broadcast_payment_request bdk node now attempt_id id d ≡ (err banking_error, submitted_db)
  unfolding settle
  run-unreachable answer =
      broadcast-run ∙ ap (λ o. settle bdk now attempt_id id o submitted_db) answer

  -- Where bitcoind takes the transaction, a payment that is ready is returned and stored in the status
  -- BROADCAST, with bitcoind's txid and the time, and its attempt is stored as accepted and completed,
  -- with the transaction that was sent and no reason for a rejection.
  pub broadcast_payment_request-sent :
      (new_txid : String)
      → node.send_raw_transaction hex ≡ sent new_txid
      → let run = broadcast_payment_request bdk node now attempt_id id d in
        let done : PaymentRequest = record r {
          status = broadcast;
          broadcast_txid = some new_txid;
          updated_at = now;
        } in
        let attempt : BroadcastAttempt = record {
          id = attempt_id;
          payment_request_id = id;
          transaction_hex = hex;
          txid = txid;
          status = accepted;
          rejection_reason = none;
          completed_at = some now;
        } in
        (run.0 ≡ ok done)
        × (get id run.1.requests ≡ some done)
        × (get attempt_id run.1.attempts ≡ some attempt)
  unfolding completed_db
  broadcast_payment_request-sent new_txid answer =
      rw (run-sent new_txid answer)
        (refl, (IsRequest-broadcast new_txid).1.found, attempt-completed accepted none)

  -- Where bitcoind rejects the transaction, the broadcast raises; the payment stays as it is, so it can
  -- be tried again, and the endpoint commits the attempt as rejected and completed, with the
  -- transaction that was sent and bitcoind's reason.
  pub broadcast_payment_request-rejected :
      (reason : String)
      → node.send_raw_transaction hex ≡ node_rejected reason
      → let run = broadcast_payment_request bdk node now attempt_id id in
        let after = broadcast_committed run d in
        let attempt : BroadcastAttempt = record {
          id = attempt_id;
          payment_request_id = id;
          transaction_hex = hex;
          txid = txid;
          status = rejected;
          rejection_reason = some reason;
          completed_at = some now;
        } in
        ((run d).0 ≡ err broadcast_rejected)
        × (get id after.requests ≡ some r)
        × (get attempt_id after.attempts ≡ some attempt)
  unfolding broadcast_committed completed_db
  broadcast_payment_request-rejected reason answer =
      subst
        (λ x.
          (x.0 ≡ err broadcast_rejected)
          × (get id (commit_of x.0 d x.1).requests ≡ some r)
          × (get attempt_id (commit_of x.0 d x.1).attempts
              ≡ some (as_completed now rejected (some reason) (attempt_of attempt_id id hex txid))))
        (sym (run-rejected reason answer))
        (
          refl,
          get-flush_found id _ r (request-kept rejected (some reason)),
          get-flush_found attempt_id _ _ (attempt-completed rejected (some reason)),
        )

  -- Where bitcoind cannot be reached, the broadcast raises and the endpoint commits nothing: the
  -- attempt that was written before the call is lost.
  pub broadcast_payment_request-unreachable :
      node.send_raw_transaction hex ≡ node_unreachable
      → let run = broadcast_payment_request bdk node now attempt_id id in
        ((run d).0 ≡ err banking_error)
        × (get attempt_id (run d).1.attempts ≡ some (attempt_of attempt_id id hex txid))
        × (broadcast_committed run d ≡ d)
  unfolding broadcast_committed
  broadcast_payment_request-unreachable answer =
      subst
        (λ x.
          (x.0 ≡ err banking_error)
          × (get attempt_id x.1.attempts ≡ some (attempt_of attempt_id id hex txid))
          × (commit_of x.0 d x.1 ≡ d))
        (sym (run-unreachable answer)) (refl, attempt-stored, refl)
