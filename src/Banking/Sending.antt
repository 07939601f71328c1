-- ===== src/Banking/Sending.antt =====
-- Signing, broadcasting and cancelling of backend/tallykeep/services/banking_service.py, and what the
-- endpoints of backend/tallykeep/api/v1/banking.py commit.
pub mod Signing
pub mod Broadcasting
use tallykeep.Prelude.{
  ℕ, String, Bool, true, false, not, ◌&&◌, ◌||◌, Option, none, some, List, [], ◌∷◌, if◌then◌else◌,
  is_empty, all_of,
}
use tallykeep.Errors.{
  Error, Result, ok, err, uncaught, banking_error, payment_request_not_found,
  wrong_status_for_operation, psbt_mismatch, signed_transaction_invalid, broadcast_rejected,
  value_error,
}
use tallykeep.Domain.Enums.{PaymentStatus, is_awaiting_signature, is_awaiting_broadcast}
use tallykeep.Domain.Payment.{PaymentRequest, accepted, rejected}
use tallykeep.Db.{Db, flush_all}
use tallykeep.Db.Session.{
  Session, pure, lift, or_raise, raise_if, write, raise, flush_session, ◌>>=◌, ◌>>◌,
}
use tallykeep.Repositories.Payments.{
  request_get, mark_signed, mark_broadcast, cancel, insert_broadcast_attempt,
  update_broadcast_attempt,
}
use tallykeep.Banking.Outside.{
  Bdk, Node, PsbtInput, SendOutcome, sent, node_rejected, node_unreachable,
}

-- `_is_psbt_finalized`
abbrev pub is_psbt_finalized : List PsbtInput → Bool
is_psbt_finalized inputs =
    not (is_empty inputs)
    && all_of (λ i. i.has_final_script_witness || i.has_final_script_sig) inputs

-- what was submitted: a PSBT, or a transaction, or neither
pub data Submission : Type 0 where
  signed_psbt : String → Submission
  signed_hex : String → Submission
  nothing : Submission

-- the PSBT takes precedence over the transaction
abbrev pub submission_of : Option String → Option String → Submission
submission_of (some psbt) hex = signed_psbt psbt
submission_of none (some hex) = signed_hex hex
submission_of none none = nothing

-- `or` with an exception
abbrev pub require : {A : Type 0} → Option A → Error → Result A
require none e = err e
require (some a) e = ok a

module _ {P : Type 0} (bdk : Bdk P) where
  -- the hex and the PSBT of a finalised submission
  abbrev pub signed_finalized : String → P → Result (String × Option String)
  signed_finalized psbt user_psbt = elim (bdk.extract_hex user_psbt) [
    | none ↦ err signed_transaction_invalid
    | some hex ↦ ok (hex, some psbt)
  ]

  abbrev pub finalize_merged : P → Result (String × Option String)
  finalize_merged merged = elim (bdk.finalize merged) [
    | none ↦ err signed_transaction_invalid
    | some (could_finalize, final) ↦ elim could_finalize [
      | false ↦ err signed_transaction_invalid
      | true ↦ elim (bdk.extract_hex final) [
        | none ↦ err signed_transaction_invalid
        | some hex ↦ ok (hex, some (bdk.serialize final))
      ]
    ]
  ]

  -- the hex and the PSBT of a submission that the original is combined with
  abbrev pub signed_combined : String → P → Result (String × Option String)
  signed_combined original user_psbt = elim (bdk.parse_psbt original) [
    | none ↦ err uncaught
    | some original_psbt ↦ elim (bdk.combine original_psbt user_psbt) [
      | none ↦ err psbt_mismatch
      | some merged ↦ finalize_merged merged
    ]
  ]

  -- What is stored of a submission, given the original PSBT.
  unfoldable pub signed_of : String → Submission → Result (String × Option String)
  signed_of original nothing = err banking_error
  signed_of original (signed_hex hex) = elim (bdk.txid_of hex) [
    | none ↦ err banking_error
    | some _ ↦ ok (hex, none)
  ]
  signed_of original (signed_psbt psbt) = elim (bdk.parse_psbt psbt) [
    | none ↦ err banking_error
    | some user_psbt ↦
        if is_psbt_finalized (bdk.inputs user_psbt)
        then signed_finalized psbt user_psbt
        else signed_combined original user_psbt
  ]

  -- `submit_signed_payment_request`
  unfoldable pub submit_signed_payment_request :
      ℕ → ℕ → Option String → Option String → Session PaymentRequest
  submit_signed_payment_request now id psbt hex = do
    found ← request_get id
    request ← or_raise found payment_request_not_found
    raise_if (not (is_awaiting_signature request.status)) wrong_status_for_operation
    original ← or_raise request.psbt_base64 banking_error
    (signed, new_psbt) ← lift (signed_of original (submission_of psbt hex))
    updated ← mark_signed now id signed new_psbt
    or_raise updated payment_request_not_found

  -- what follows the call of bitcoind
  unfoldable pub settle : ℕ → ℕ → ℕ → SendOutcome → Session PaymentRequest
  unfolding update_broadcast_attempt
  settle now attempt_id id (sent txid) = do
    write (update_broadcast_attempt now attempt_id accepted none)
    updated ← mark_broadcast now id txid
    or_raise updated payment_request_not_found
  settle now attempt_id id (node_rejected reason) = do
    write (update_broadcast_attempt now attempt_id rejected (some reason))
    raise broadcast_rejected
  settle now attempt_id id node_unreachable = raise banking_error

  -- `broadcast_payment_request`
  unfoldable pub broadcast_payment_request : Node → ℕ → ℕ → ℕ → Session PaymentRequest
  unfolding insert_broadcast_attempt
  broadcast_payment_request node now attempt_id id = do
    found ← request_get id
    request ← or_raise found payment_request_not_found
    raise_if (not (is_awaiting_broadcast request.status)) wrong_status_for_operation
    hex ← or_raise request.signed_transaction_hex banking_error
    txid ← or_raise (bdk.txid_of hex) uncaught
    write (insert_broadcast_attempt attempt_id id hex txid)
    flush_session
    settle now attempt_id id (node.send_raw_transaction hex)

-- `except ValueError`
abbrev pub translate : {A : Type 0} → Error → Session A → Session A
translate to m d = elim (m d).0 [
  | ok a ↦ (ok a, (m d).1)
  | err value_error ↦ (err to, (m d).1)
  | err e ↦ (err e, (m d).1)
]

-- `cancel_payment_request`
unfoldable pub cancel_payment_request : ℕ → ℕ → Session PaymentRequest
cancel_payment_request now id = do
  found ← request_get id
  or_raise found payment_request_not_found
  cancelled ← translate wrong_status_for_operation (cancel now id)
  or_raise cancelled payment_request_not_found

-- what the endpoint of the broadcast commits of a run: a rejected attempt too
abbrev pub commit_of : {A : Type 0} → Result A → Db → Db → Db
commit_of (ok _) d d' = flush_all d'
commit_of (err broadcast_rejected) d d' = flush_all d'
commit_of (err _) d d' = d

-- the database after the endpoint of the broadcast
unfoldable pub broadcast_committed : {A : Type 0} → Session A → Db → Db
broadcast_committed m d = commit_of (m d).0 d (m d).1
