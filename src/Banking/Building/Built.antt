-- ===== src/Banking/Building/Built.antt =====
-- What a payment request that was built rests on, and that nothing is written otherwise.
use tallykeep.Prelude.{
  some, arith, ◌≡◌, refl, ℕ, String, Bool, true, false, not, ◌||◌, none, List, is_empty, inr,
}
use tallykeep.Errors.{
  err, ok, holding_not_found, holding_cannot_send, in_flight_payment_exists, insufficient_balance,
  invalid_destination, banking_error,
}
use tallykeep.Domain.Payment.{PaymentRequest, new_payment_request, new_payment_request-same}
use tallykeep.Domain.Chain.{Descriptor, Utxo}
use tallykeep.Db.{HoldingRow, Db}
use tallykeep.Db.Session.{Session}
use tallykeep.Db.Outcome.{
  Outcome, Outcome-pure, Outcome-lift, Outcome-or_raise, Outcome-read, Outcome-raise_if,
}
use tallykeep.Table.{get}
use tallykeep.Errors.{value_error}
use tallykeep.Db.{HoldingRow, holding_key}
use tallykeep.Domain.Enums.{account, is_account, is_not_applicable}
use tallykeep.Repositories.Holdings.{holding_get, descriptor_ids_for_holding, holding_get-account}
use tallykeep.Repositories.Descriptors.{list_descriptors_for_holding}
use tallykeep.Repositories.Payments.{has_in_flight_for_holding, request_insert}
use tallykeep.Banking.Outside.{Bdk, Node, Texts}
use tallykeep.Banking.Building.{
  unless_unusual, BuildResult, built, requires_confirmation, PaymentOrder, gather_spendable_utxos,
  total_value, exceeds, primary_descriptor, request_of, order_of, resolve_fee_rate, fetch_parents,
  compose, build_payment_request,
}

gather_spendable_utxos-unchanged : (id : ℕ) (d : Db) → (gather_spendable_utxos id d).1 ≡ d
unfolding gather_spendable_utxos
gather_spendable_utxos-unchanged id d = ground arith

module _ (texts : Texts) {P : Type 0} (bdk : Bdk P) (node : Node) where
  -- No payment of the holding was in flight, its only descriptor has spendable outputs that cover the
  -- amount, the destination is an address of the network, and the request with the PSBT is stored.
  pub record IsComposed (now new_id : ℕ) (o : PaymentOrder) (d : Db) (r : PaymentRequest) (d' : Db)
      : Type 0 where
    pub none_in_flight : has_in_flight_for_holding o.holding_id d ≡ false
    pub descriptors : List Descriptor
    pub of_holding : (list_descriptors_for_holding o.holding_id d).0 ≡ ok descriptors
    pub primary : Descriptor
    pub only_one : primary_descriptor descriptors ≡ ok primary
    pub utxos : List Utxo
    pub spendable : (gather_spendable_utxos primary.id d).0 ≡ ok utxos
    pub some_spendable : is_empty utxos ≡ false
    pub covered : exceeds o.amount_sats (total_value utxos) ≡ false
    pub destination : bdk.is_address o.destination_address primary.network ≡ true
    pub psbt : String
    pub request : r ≡ request_of texts now new_id o psbt
    pub stored : d' ≡ request_insert r d

  abbrev pub IsBuilt : ℕ → ℕ → PaymentOrder → Db → BuildResult → Db → Type 0
  IsBuilt now new_id o d (built r) d' = IsComposed now new_id o d r d'
  IsBuilt now new_id o d requires_confirmation d' = (o.confirmed_long_term ≡ false) × (d' ≡ d)

  compose-Outcome :
      (now new_id : ℕ) (o : PaymentOrder) (d : Db)
      → Outcome (IsBuilt now new_id o d) (compose texts bdk node now new_id o) d
  unfolding compose
  compose-Outcome now new_id o d = record {
    outcome =
        (Outcome-raise_if d _ in_flight_payment_exists _ λ idle.
          Outcome-read d (list_descriptors_for_holding o.holding_id) _ refl λ xs listed.
            Outcome-lift d (primary_descriptor xs) _ λ x only.
              Outcome-read d (gather_spendable_utxos x.id) _
                (gather_spendable_utxos-unchanged x.id d)
                λ us gathered. Outcome-raise_if d (is_empty us) insufficient_balance _ λ nonempty.
                  Outcome-raise_if d (exceeds o.amount_sats (total_value us)) insufficient_balance _
                    λ covered.
                      Outcome-raise_if d (not (bdk.is_address o.destination_address x.network))
                        invalid_destination _
                        λ valid.
                          Outcome-lift d (resolve_fee_rate node o.fee_strategy o.fee_sat_per_vbyte)
                            _
                            λ rate _. Outcome-lift d (fetch_parents node us) _ λ inputs _.
                              Outcome-or_raise d
                                (bdk.build_psbt (order_of texts bdk node o x inputs rate d))
                                banking_error _
                                λ psbt _.
                                  Outcome-lift d
                                    (new_payment_request (request_of texts now new_id o psbt)) _
                                    λ r accepted. record {
                                      outcome = inr (
                                        built r,
                                        request_insert r d,
                                        refl,
                                        record {
                                          none_in_flight = idle;
                                          descriptors = xs;
                                          of_holding = listed;
                                          primary = x;
                                          only_one = only;
                                          utxos = us;
                                          spendable = gathered;
                                          some_spendable = nonempty;
                                          covered = covered;
                                          destination = ground arith;
                                          psbt = psbt;
                                          request = new_payment_request-same _ r accepted;
                                          stored = refl;
                                        },
                                      );
                                    }).outcome;
  }

  unless_unusual-Outcome :
      (b : Bool) (m : Session BuildResult) (E : BuildResult → Db → Type 0) (d : Db)
      → (b ≡ true → E requires_confirmation d)
      → Outcome E m d
      → Outcome E (unless_unusual texts bdk node b m) d
  unless_unusual-Outcome true m E d unusual h = Outcome-pure d requires_confirmation (unusual refl)
  unless_unusual-Outcome false m E d unusual h = h

  pub build_payment_request-Outcome :
      (now new_id : ℕ) (o : PaymentOrder) (d : Db)
      → Outcome (IsBuilt now new_id o d) (build_payment_request texts bdk node now new_id o) d
  unfolding build_payment_request
  build_payment_request-Outcome now new_id o d = record {
    outcome =
        (Outcome-read d (holding_get o.holding_id (descriptor_ids_for_holding o.holding_id d) none)
          _ refl
          λ found _. Outcome-or_raise d found holding_not_found _ λ h _.
            Outcome-raise_if d
              (is_account h.holding_type || is_not_applicable h.declared_security.signing_model)
              holding_cannot_send _
              λ can_send.
                unless_unusual-Outcome _ _ (IsBuilt now new_id o d) d
                  (λ unusual. (ground arith, refl)) (compose-Outcome now new_id o d)).outcome;
  }

  -- For an Account the holding is read without its provider, which its constructor refuses: building
  -- a payment request raises a ValueError, not the service's own exception.
  pub build_payment_request-account :
      (now new_id : ℕ) (o : PaymentOrder) (d : Db) (row : HoldingRow)
      → get o.holding_id d.holdings ≡ some row
      → row.holding_type ≡ account
      → build_payment_request texts bdk node now new_id o d ≡ (err value_error, d)
  unfolding build_payment_request
  build_payment_request-account now new_id o d row found of_account = ground (
    arith,
    holding_get-account o.holding_id (descriptor_ids_for_holding o.holding_id d) d row found
        of_account,
  )
