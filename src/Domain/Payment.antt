-- ===== src/Domain/Payment.antt =====
-- backend/tallykeep/domain/payment_request.py and invoice.py, and the broadcast attempts of
-- backend/tallykeep/models/payment_request.py.
use tallykeep.Prelude.{
  ◌≡◌, arith, ℕ, String, Bool, false, ◌||◌, Option, none, some, is_some, ℤ, pos, leb_ℤ,
}
use tallykeep.Errors.{Result, ok, ◌>>◌, refuse_if}
use tallykeep.Table.{Keyed}
use tallykeep.Domain.Enums.{PaymentType, onchain, lightning, PaymentStatus, InvoiceStatus}

pub record PaymentRequest : Type 0 where
  pub id : ℕ
  pub holding_id : ℕ
  pub payment_type : PaymentType
  pub amount_sats : Option ℤ
  pub description : Option String
  pub status : PaymentStatus
  pub expires_at : Option ℕ
  pub created_at : ℕ
  pub updated_at : ℕ
  pub destination_address : Option String
  pub bip21_uri : Option String
  pub psbt_base64 : Option String
  pub signed_transaction_hex : Option String
  pub broadcast_txid : Option String
  pub lightning_invoice : Option String
  pub lightning_payment_hash : Option String
  pub resulting_ledger_entry_id : Option ℕ
  pub sweep_execution_id : Option ℕ

instance abbrev pub request_key : Keyed PaymentRequest
request_key = record { key = λ r. r.id }

abbrev pub is_not_positive : Option ℤ → Bool
is_not_positive none = false
is_not_positive (some n) = leb_ℤ n (pos 0)

-- the branches of `PaymentRequest.__post_init__` on the payment type
abbrev pub check_payment_fields : PaymentType → PaymentRequest → Result (Unit {0})
check_payment_fields onchain r =
    refuse_if (is_some r.lightning_invoice || is_some r.lightning_payment_hash)
check_payment_fields lightning r = do
  refuse_if (is_some r.psbt_base64 || is_some r.signed_transaction_hex)
  refuse_if (is_some r.broadcast_txid)

-- `PaymentRequest.__post_init__`
unfoldable pub new_payment_request : PaymentRequest → Result PaymentRequest
new_payment_request r = do
  refuse_if (is_not_positive r.amount_sats)
  check_payment_fields r.payment_type r
  ok r

-- `submitted`, `accepted` and `rejected` of `broadcast_attempt.status`
pub data AttemptStatus : Type 0 where
  submitted accepted rejected : AttemptStatus

pub record BroadcastAttempt : Type 0 where
  pub id : ℕ
  pub payment_request_id : ℕ
  pub transaction_hex : String
  pub txid : String
  pub status : AttemptStatus
  pub rejection_reason : Option String
  pub completed_at : Option ℕ

instance abbrev pub attempt_key : Keyed BroadcastAttempt
attempt_key = record { key = λ a. a.id }

pub record Invoice : Type 0 where
  pub id : ℕ
  pub holding_id : ℕ
  pub invoice_type : PaymentType
  pub amount_sats : Option ℤ
  pub description : Option String
  pub status : InvoiceStatus
  pub expires_at : Option ℕ
  pub created_at : ℕ
  pub receiving_address : Option String
  pub receiving_address_id : Option ℕ
  pub bip21_uri : Option String
  pub bolt11 : Option String
  pub payment_hash : Option String
  pub resulting_ledger_entry_id : Option ℕ

instance abbrev pub invoice_key : Keyed Invoice
invoice_key = record { key = λ v. v.id }

-- the branches of `Invoice.__post_init__` on the invoice type
abbrev pub check_invoice_fields : PaymentType → Invoice → Result (Unit {0})
check_invoice_fields onchain v = refuse_if (is_some v.bolt11 || is_some v.payment_hash)
check_invoice_fields lightning v = refuse_if (is_some v.receiving_address || is_some v.bip21_uri)

-- `Invoice.__post_init__`
unfoldable pub new_invoice : Invoice → Result Invoice
new_invoice v = do
  refuse_if (is_not_positive v.amount_sats)
  check_invoice_fields v.invoice_type v
  ok v

-- the constructor returns what it was given
pub new_payment_request-same : (r q : PaymentRequest) → new_payment_request r ≡ ok q → q ≡ r
unfolding new_payment_request
new_payment_request-same r q e = ground arith

pub new_invoice-same : (v w : Invoice) → new_invoice v ≡ ok w → w ≡ v
unfolding new_invoice
new_invoice-same v w e = ground arith
