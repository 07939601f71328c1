-- ===== src/Banking/Linking.antt =====
-- `_link_payment_request_if_any` of backend/tallykeep/workers/listeners/chain_listener.py: the payment
-- whose broadcast transaction has confirmed.
use tallykeep.Prelude.{
  ℕ, String, Bool, true, false, Option, none, some, List, [], ◌∷◌, if◌then◌else◌, str_eq, filter_by,
}
use tallykeep.Errors.{Result, ok, err, uncaught}
use tallykeep.Domain.Enums.{
  PaymentStatus, broadcast, SweepExecutionStatus, completed, sweep_failed, sweep_cancelled,
}
use tallykeep.Domain.Payment.{PaymentRequest}
use tallykeep.Domain.Sweep.{SweepExecution}
use tallykeep.Db.Session.{Session, pure, ◌>>=◌, ◌>>◌}
use tallykeep.Repositories.Payments.{build_request, mark_confirmed}
use tallykeep.Repositories.Executions.{StatusUpdate, status_only, execution_get, update_status}

-- `scalar_one_or_none()`
abbrev pub one_or_none : {A : Type 0} → List A → Result (Option A)
one_or_none [] = ok none
one_or_none (x ∷ []) = ok (some x)
one_or_none (x ∷ y ∷ rest) = err uncaught

abbrev pub has_txid : String → PaymentRequest → Bool
has_txid txid r = elim r.broadcast_txid [ none ↦ false | some t ↦ str_eq t txid ]

-- `get_by_broadcast_txid`
unfoldable pub get_by_broadcast_txid : String → Session (Option PaymentRequest)
get_by_broadcast_txid txid d = elim (one_or_none (filter_by (has_txid txid) d.requests.rows)) [
  | ok found ↦ (build_request found, d)
  | err e ↦ (err e, d)
]

abbrev pub is_broadcast : PaymentStatus → Bool
is_broadcast broadcast = true
is_broadcast _ = false

abbrev pub is_over : SweepExecutionStatus → Bool
is_over completed = true
is_over sweep_failed = true
is_over sweep_cancelled = true
is_over _ = false

abbrev pub completed_by : ℕ → String → StatusUpdate
completed_by now txid = record (status_only completed) {
  confirmed_txid = some txid;
  completed_at = some now;
}

abbrev pub complete_found : ℕ → String → Option SweepExecution → Session (Unit {0})
complete_found now txid none = pure tt
complete_found now txid (some e) =
    if is_over e.status then pure tt else (do update_status e.id (completed_by now txid); pure tt)

-- the sweep that the payment was created for is completed too
abbrev pub complete_execution : ℕ → String → Option ℕ → Session (Unit {0})
complete_execution now txid none = pure tt
complete_execution now txid (some id) = do found ← execution_get id; complete_found now txid found

abbrev pub confirm_updated :
    ℕ → String → PaymentRequest → Option PaymentRequest → Session (Option ℕ)
confirm_updated now txid r none = pure none
confirm_updated now txid r (some u) = do
  complete_execution now txid r.sweep_execution_id
  pure (some u.id)

abbrev pub confirm_found : ℕ → String → ℕ → Option PaymentRequest → Session (Option ℕ)
confirm_found now txid entry_id none = pure none
confirm_found now txid entry_id (some r) =
    if is_broadcast r.status
    then (do updated ← mark_confirmed now r.id entry_id; confirm_updated now txid r updated)
    else pure none

-- `_link_payment_request_if_any`, given the height of the transaction and the entry it has made, with
-- the id of the payment in place of the event's payload
unfoldable pub link_payment_request : ℕ → String → Option ℕ → Option ℕ → Session (Option ℕ)
link_payment_request now txid (some height) (some entry_id) = do
  found ← get_by_broadcast_txid txid
  confirm_found now txid entry_id found
link_payment_request now txid _ _ = pure none
