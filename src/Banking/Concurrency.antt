-- ===== src/Banking/Concurrency.antt =====
-- At most one payment of a holding is in flight, whatever calls are served in whatever order.
pub mod Steps
pub mod Calls
use tallykeep.Prelude.{ℕ, String, Option, List, [], ◌∷◌, ◌++◌, ◌≡◌, ◌≤◌, count}
use tallykeep.Db.{Db}
use tallykeep.Db.Keeps.{committed}
use tallykeep.Repositories.Payments.{in_flight_for}
use tallykeep.Banking.Outside.{Bdk, Node, Texts}
use tallykeep.Banking.Building.{PaymentOrder, build_payment_request}
use tallykeep.Banking.Sending.{
  submit_signed_payment_request, broadcast_payment_request, cancel_payment_request,
  broadcast_committed,
}
use tallykeep.Banking.Linking.{link_payment_request}

-- of all requests in the session, the pending ones too
pub record AtMostOne (d : Db) : Type 0 where
  pub at_most_one :
      (holding_id : ℕ)
      → count (in_flight_for holding_id) (d.requests.rows ++ d.requests.pending) ≤ 1

-- between two calls nothing is pending
pub record IsSettled (d : Db) : Type 0 where
  pub in_flight : AtMostOne d
  pub none_pending : d.requests.pending ≡ []

-- what an API call or the chain listener does to the payments
pub data PaymentCall : Type 0 where
  build : ℕ → PaymentOrder → PaymentCall
  submit : ℕ → Option String → Option String → PaymentCall
  send : ℕ → ℕ → PaymentCall
  withdraw : ℕ → PaymentCall
  confirm : String → Option ℕ → Option ℕ → PaymentCall

module _ (texts : Texts) {P : Type 0} (bdk : Bdk P) where
  -- the database after the call at the time `now`, with bitcoind as it answers then
  unfoldable pub serve_payment : ℕ → Node → PaymentCall → Db → Db
  serve_payment now node (build new_id o) =
      committed (build_payment_request texts bdk node now new_id o)
  serve_payment now node (submit id psbt hex) =
      committed (submit_signed_payment_request bdk now id psbt hex)
  serve_payment now node (send attempt_id id) =
      broadcast_committed (broadcast_payment_request bdk node now attempt_id id)
  serve_payment now node (withdraw id) = committed (cancel_payment_request now id)
  serve_payment now node (confirm txid height entry_id) =
      committed (link_payment_request now txid height entry_id)

  unfoldable pub serve_payments : List (ℕ × Node × PaymentCall) → Db → Db
  serve_payments [] d = d
  serve_payments ((now, node, call) ∷ rest) d = serve_payments rest (serve_payment now node call d)
