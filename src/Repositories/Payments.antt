-- ===== src/Repositories/Payments.antt =====
-- backend/tallykeep/repositories/payment_request.py. `now` stands for `datetime.now(UTC)`.
use tallykeep.Prelude.{
  ◌≡◌, refl, ℕ, String, Bool, true, false, ◌&&◌, Option, none, some, ◌==◌, any_of, if◌then◌else◌,
  or_else,
}
use tallykeep.Errors.{Result, ok, err, value_error}
use tallykeep.Table.{get, modify, add}
use tallykeep.Domain.Enums.{
  PaymentStatus, draft, awaiting_signature, awaiting_broadcast, broadcast, confirmed, cancelled,
}
use tallykeep.Domain.Payment.{
  PaymentRequest, BroadcastAttempt, AttemptStatus, submitted, request_key, attempt_key,
  new_payment_request,
}
use tallykeep.Db.{Db}
use tallykeep.Db.Session.{Session}

-- `_row_to_domain` on a row that may be missing
abbrev pub build_request : Option PaymentRequest → Result (Option PaymentRequest)
build_request none = ok none
build_request (some r) = elim (new_payment_request r) [ ok p ↦ ok (some p) | err e ↦ err e ]

-- `get`
unfoldable pub request_get : ℕ → Session (Option PaymentRequest)
request_get id d = (build_request (get id d.requests), d)

-- the statuses that `cancel` allows
abbrev pub is_cancellable : PaymentStatus → Bool
is_cancellable draft = true
is_cancellable awaiting_signature = true
is_cancellable awaiting_broadcast = true
is_cancellable _ = false

-- the statuses of `has_in_flight_for_holding`
abbrev pub is_in_flight : PaymentStatus → Bool
is_in_flight draft = true
is_in_flight awaiting_signature = true
is_in_flight awaiting_broadcast = true
is_in_flight broadcast = true
is_in_flight _ = false

abbrev pub in_flight_for : ℕ → PaymentRequest → Bool
in_flight_for holding_id r = r.holding_id == holding_id && is_in_flight r.status

-- `has_in_flight_for_holding`
abbrev pub has_in_flight_for_holding : ℕ → Db → Bool
has_in_flight_for_holding holding_id d = any_of (in_flight_for holding_id) d.requests.rows

-- `insert`
unfoldable pub request_insert : PaymentRequest → Db → Db
request_insert r d = record d { requests = add r d.requests }

-- A write to one row, which returns the row as a domain object.
abbrev pub write_request : ℕ → (PaymentRequest → PaymentRequest) → Session (Option PaymentRequest)
write_request id f d =
    let t = modify id f d.requests in (build_request (get id t), record d { requests = t })

abbrev pub as_signed : ℕ → String → Option String → PaymentRequest → PaymentRequest
as_signed now hex psbt r = record r {
  signed_transaction_hex = some hex;
  psbt_base64 = or_else psbt r.psbt_base64;
  status = awaiting_broadcast;
  updated_at = now;
}

-- `mark_signed`
unfoldable pub mark_signed : ℕ → ℕ → String → Option String → Session (Option PaymentRequest)
mark_signed now id hex psbt = write_request id (as_signed now hex psbt)

abbrev pub as_broadcast : ℕ → String → PaymentRequest → PaymentRequest
as_broadcast now txid r = record r {
  broadcast_txid = some txid;
  status = broadcast;
  updated_at = now;
}

-- `mark_broadcast`
unfoldable pub mark_broadcast : ℕ → ℕ → String → Session (Option PaymentRequest)
mark_broadcast now id txid = write_request id (as_broadcast now txid)

abbrev pub as_confirmed : ℕ → ℕ → PaymentRequest → PaymentRequest
as_confirmed now entry_id r = record r {
  resulting_ledger_entry_id = some entry_id;
  status = confirmed;
  updated_at = now;
}

-- `mark_confirmed`
unfoldable pub mark_confirmed : ℕ → ℕ → ℕ → Session (Option PaymentRequest)
mark_confirmed now id entry_id = write_request id (as_confirmed now entry_id)

abbrev pub as_cancelled : ℕ → PaymentRequest → PaymentRequest
as_cancelled now r = record r { status = cancelled; updated_at = now }

abbrev pub cancel_found : ℕ → ℕ → Option PaymentRequest → Session (Option PaymentRequest)
cancel_found now id none d = (ok none, d)
cancel_found now id (some r) d =
    if is_cancellable r.status then write_request id (as_cancelled now) d else (err value_error, d)

-- `cancel`
unfoldable pub cancel : ℕ → ℕ → Session (Option PaymentRequest)
cancel now id d = cancel_found now id (get id d.requests) d

abbrev pub attempt_of : ℕ → ℕ → String → String → BroadcastAttempt
attempt_of attempt_id request_id hex txid = record {
  id = attempt_id;
  payment_request_id = request_id;
  transaction_hex = hex;
  txid = txid;
  status = submitted;
  rejection_reason = none;
  completed_at = none;
}

-- `insert_broadcast_attempt`, with `status="submitted"`
unfoldable pub insert_broadcast_attempt : ℕ → ℕ → String → String → Db → Db
insert_broadcast_attempt attempt_id request_id hex txid d = record d {
  attempts = add (attempt_of attempt_id request_id hex txid) d.attempts;
}

abbrev pub as_completed : ℕ → AttemptStatus → Option String → BroadcastAttempt → BroadcastAttempt
as_completed now status reason a = record a {
  status = status;
  rejection_reason = or_else reason a.rejection_reason;
  completed_at = some now;
}

-- `update_broadcast_attempt`
unfoldable pub update_broadcast_attempt : ℕ → ℕ → AttemptStatus → Option String → Db → Db
update_broadcast_attempt now id status reason d = record d {
  attempts = modify id (as_completed now status reason) d.attempts;
}

-- reading a request changes nothing
pub request_get-unchanged : (id : ℕ) (d : Db) → (request_get id d).1 ≡ d
unfolding request_get
request_get-unchanged id d = refl
