-- ===== src/Tests/Payments.antt =====
-- The theorems on payments and invoices, at the sample database.
use tallykeep.Prelude.{◌≡◌, refl, false, none, some, [], ◌∷◌, arith, pos}
use tallykeep.Errors.{ok, err, value_error, banking_error, broadcast_rejected}
use tallykeep.Table.{get}
use tallykeep.Domain.Enums.{broadcast}
use tallykeep.Domain.Payment.{
  BroadcastAttempt, accepted, rejected, request_key, attempt_key, new_payment_request,
}
use tallykeep.Db.{holding_key}
use tallykeep.Db.Outcome.{Outcome}
use tallykeep.Repositories.Payments.{attempt_of}
use tallykeep.Banking.Outside.{sent, node_rejected, node_unreachable}
use tallykeep.Banking.Building.{PaymentOrder, build_payment_request}
use tallykeep.Banking.Building.Built.{build_payment_request-account}
use tallykeep.Banking.Sending.{
  submit_signed_payment_request, broadcast_payment_request, cancel_payment_request,
  broadcast_committed,
}
use tallykeep.Banking.Sending.Signing.{
  IsSubmitted, IsCancelled, submit_signed_payment_request-Outcome, cancel_payment_request-Outcome,
}
use tallykeep.Banking.Sending.Broadcasting.{
  IsReady, broadcast_payment_request-sent, broadcast_payment_request-rejected,
  broadcast_payment_request-unreachable,
}
use tallykeep.Banking.Concurrency.{IsSettled, build, send, confirm, serve_payments}
use tallykeep.Banking.Concurrency.Calls.{serve_payments-IsSettled}
use tallykeep.Banking.Invoicing.{InvoiceOrder}
use tallykeep.Banking.Invoicing.Reserved.{
  AreReserved, issue, pay, serve_invoices, serve_invoices-AreReserved,
}
use tallykeep.Tests.Data.{sample_db, request_row, account_row, sample_bdk, node_with, sample_texts}

abbrev order : PaymentOrder
order = record {
  holding_id = 1;
  destination_address = "bc1qb";
  amount_sats = some (pos 700);
  fee_strategy = none;
  fee_sat_per_vbyte = none;
  description = none;
  confirmed_long_term = false;
}

sample_db-IsSettled : IsSettled sample_db
sample_db-IsSettled = record {
  in_flight = record { at_most_one = λ i. ground arith };
  none_pending = refl;
}

serve_payments-IsSettled_example : IsSettled (
    serve_payments sample_texts sample_bdk
      ((2, node_with node_unreachable, build 51 order)
        ∷ (3, node_with (sent "txid"), send 60 50)
        ∷ (4, node_with node_unreachable, confirm "txid" (some 800) (some 70))
        ∷ (5, node_with node_unreachable, build 52 order)
        ∷ [])
      sample_db)
serve_payments-IsSettled_example =
    serve_payments-IsSettled sample_texts sample_bdk
      ((2, node_with node_unreachable, build 51 order)
        ∷ (3, node_with (sent "txid"), send 60 50)
        ∷ (4, node_with node_unreachable, confirm "txid" (some 800) (some 70))
        ∷ (5, node_with node_unreachable, build 52 order)
        ∷ [])
      sample_db sample_db-IsSettled

account_row-stored : get 2 sample_db.holdings ≡ some account_row
unfolding get
account_row-stored = refl

build_payment_request-account_example :
    build_payment_request sample_texts sample_bdk
      (node_with node_unreachable)
      2
      51
      (record order { holding_id = 2 })
      sample_db
    ≡ (err value_error, sample_db)
build_payment_request-account_example =
    build_payment_request-account sample_texts sample_bdk (node_with node_unreachable) 2 51
      (record order { holding_id = 2 }) sample_db account_row account_row-stored refl

submit_signed_payment_request-Outcome_example :
    Outcome
      (IsSubmitted sample_bdk 3 50 (some "cHNidP8", none) sample_db)
      (submit_signed_payment_request sample_bdk 3 50 (some "cHNidP8") none)
      sample_db
submit_signed_payment_request-Outcome_example =
    submit_signed_payment_request-Outcome sample_bdk 3 50 (some "cHNidP8") none sample_db

cancel_payment_request-Outcome_example :
    Outcome (IsCancelled 3 50 sample_db) (cancel_payment_request 3 50) sample_db
cancel_payment_request-Outcome_example = cancel_payment_request-Outcome 3 50 sample_db

request_row-IsReady : IsReady sample_bdk 60 50 sample_db request_row "f00d" "txid"
unfolding get new_payment_request
request_row-IsReady = record {
  stored = record { found = refl; valid = refl };
  waiting = refl;
  signed = refl;
  parsed = refl;
  not_stored = refl;
  not_pending = refl;
}

-- the attempt before bitcoind answers
abbrev tried : BroadcastAttempt
tried = attempt_of 60 50 "f00d" "txid"

broadcast_payment_request-sent_example :
    let run = broadcast_payment_request sample_bdk (node_with (sent "txid")) 3 60 50 sample_db in
    let done = record request_row {
      status = broadcast;
      broadcast_txid = some "txid";
      updated_at = 3;
    } in
    let attempt = record tried { status = accepted; completed_at = some 3 } in
    (run.0 ≡ ok done) × (get 50 run.1.requests ≡ some done) × (get 60 run.1.attempts ≡ some attempt)
broadcast_payment_request-sent_example =
    broadcast_payment_request-sent sample_bdk (node_with (sent "txid")) 3 60 50 sample_db
      request_row "f00d" "txid" request_row-IsReady "txid" refl

broadcast_payment_request-rejected_example :
    let run = broadcast_payment_request sample_bdk (node_with (node_rejected "-26")) 3 60 50 in
    let after = broadcast_committed run sample_db in
    ((run sample_db).0 ≡ err broadcast_rejected)
    × (get 50 after.requests ≡ some request_row)
    × (get 60 after.attempts
        ≡ some record tried {
          status = rejected;
          rejection_reason = some "-26";
          completed_at = some 3;
        })
broadcast_payment_request-rejected_example =
    broadcast_payment_request-rejected sample_bdk (node_with (node_rejected "-26")) 3 60 50
      sample_db request_row "f00d" "txid" request_row-IsReady "-26" refl

broadcast_payment_request-unreachable_example :
    let run = broadcast_payment_request sample_bdk (node_with node_unreachable) 3 60 50 in
    ((run sample_db).0 ≡ err banking_error)
    × (get 60 (run sample_db).1.attempts ≡ some (attempt_of 60 50 "f00d" "txid"))
    × (broadcast_committed run sample_db ≡ sample_db)
broadcast_payment_request-unreachable_example =
    broadcast_payment_request-unreachable sample_bdk (node_with node_unreachable) 3 60 50 sample_db
      request_row "f00d" "txid" request_row-IsReady refl

abbrev invoice_order : InvoiceOrder
invoice_order = record { holding_id = 1; amount_sats = some (pos 5); description = none }

sample_db-AreReserved : AreReserved sample_db
sample_db-AreReserved = record {
  each = record { at_most_one = λ i. ground arith };
  none_pending = refl;
}

serve_invoices-AreReserved_example : AreReserved (
    serve_invoices sample_texts
      ((2, issue 80 "Invoice" invoice_order)
        ∷ (3, issue 81 "Invoice" invoice_order)
        ∷ (4, pay 80 70 false)
        ∷ (5, issue 82 "Invoice" invoice_order)
        ∷ [])
      sample_db)
serve_invoices-AreReserved_example =
    serve_invoices-AreReserved sample_texts
      ((2, issue 80 "Invoice" invoice_order)
        ∷ (3, issue 81 "Invoice" invoice_order)
        ∷ (4, pay 80 70 false)
        ∷ (5, issue 82 "Invoice" invoice_order)
        ∷ [])
      sample_db sample_db-AreReserved
