-- ===== src/Banking/Building.antt =====
-- `build_payment_request` of backend/tallykeep/services/banking_service.py.
pub mod Built
use Prim.Native.String.{◌++◌ as text_append}
use tallykeep.Prelude.{
  ℕ, zero, String, Bool, true, false, not, ◌&&◌, ◌||◌, Option, none, some, List, [], ◌∷◌, map, ◌==◌,
  ltb, if◌then◌else◌, ℤ, pos, ◌+ℤ◌, ltb_ℤ, leb_ℤ, is_some, is_none, is_empty, str_eq, any_of,
  filter_by,
}
use tallykeep.Errors.{
  build_all, Result, ok, err, value_error, uncaught, banking_error, holding_cannot_send,
  holding_not_found, insufficient_balance, invalid_destination, in_flight_payment_exists,
}
use tallykeep.Table.{select}
use tallykeep.Domain.Enums.{
  onchain, awaiting_signature, is_account, is_vault, is_long_term, is_not_applicable,
}
use tallykeep.Domain.Holding.{Holding}
use tallykeep.Domain.Payment.{PaymentRequest, new_payment_request}
use tallykeep.Domain.Chain.{Descriptor, Address, Utxo, new_utxo}
use tallykeep.Db.{Db}
use tallykeep.Db.Session.{Session, pure, gets, lift, or_raise, raise_if, write, raise, ◌>>=◌, ◌>>◌}
use tallykeep.Repositories.Holdings.{holding_get, descriptor_ids_for_holding}
use tallykeep.Repositories.Descriptors.{list_descriptors_for_holding}
use tallykeep.Repositories.Payments.{has_in_flight_for_holding, request_insert}
use tallykeep.Banking.Outside.{
  UtxoForBuild, PsbtOrder, Bdk, Node, RawTransaction, raw, wrong_type, rpc_error, node_down, Texts,
}

-- `PaymentRequestBuildResult`
pub data BuildResult : Type 0 where
  built : PaymentRequest → BuildResult
  requires_confirmation : BuildResult

-- `_NAMED_TIERS_TARGETS`
abbrev pub tier_target : String → Option ℕ
tier_target s =
    if str_eq s "economy"
    then some 24
    else (if str_eq s "normal" then some 6 else (if str_eq s "priority" then some 2 else none))

-- `strategy or "normal"`
abbrev pub strategy_or_normal : Option String → String
strategy_or_normal none = "normal"
strategy_or_normal (some s) = if str_eq s "" then "normal" else s

-- 10 sat/vB
abbrev pub default_rate : ℤ
default_rate = pos 10000

abbrev pub estimated_rate : Option ℤ → ℤ
estimated_rate none = default_rate
estimated_rate (some n) = if leb_ℤ n (pos 0) then default_rate else n

abbrev pub rate_for_target : Node → Option ℕ → Result ℤ
rate_for_target node none = err value_error
rate_for_target node (some target) = ok (estimated_rate (node.estimate_smart_fee target))

-- `_resolve_fee_rate`; bitcoind's sat/kvB are thousandths of a sat/vB
unfoldable pub resolve_fee_rate : Node → Option String → Option ℤ → Result ℤ
resolve_fee_rate node strategy (some rate) = if leb_ℤ rate (pos 0) then err value_error else ok rate
resolve_fee_rate node strategy none =
    rate_for_target node (tier_target (strategy_or_normal strategy))

abbrev pub is_unspent_of : ℕ → Utxo → Bool
is_unspent_of descriptor_id u = u.descriptor_id == descriptor_id && not u.is_spent

abbrev pub is_spendable : Utxo → Bool
is_spendable u = not u.is_frozen && is_some u.confirmation_height

-- `_gather_spendable_utxos`; the order of the query is that of the table
unfoldable pub gather_spendable_utxos : ℕ → Session (List Utxo)
gather_spendable_utxos descriptor_id = do
  unspent ← λ d. (build_all new_utxo (select (is_unspent_of descriptor_id) d.utxos), d)
  pure (filter_by is_spendable unspent)

abbrev pub total_value : List Utxo → ℤ
unfolding ◌+ℤ◌
total_value [] = pos 0
total_value (u ∷ us) = u.value_sats +ℤ total_value us

abbrev pub exceeds : Option ℤ → ℤ → Bool
exceeds none available = false
exceeds (some amount) available = ltb_ℤ available amount

abbrev pub highest : List Address → ℕ
highest [] = 0
highest (a ∷ rest) =
    let h = highest rest in if ltb h a.derivation_index then a.derivation_index else h

-- `_high_water_index`
abbrev pub high_water_index : ℕ → Bool → Db → ℕ
high_water_index descriptor_id is_change d = highest (
    select
      (λ a.
        a.descriptor_id == descriptor_id && (if is_change then a.is_change else not a.is_change))
      d.addresses)

abbrev pub parent_result : RawTransaction → Result String
parent_result (raw hex) = ok hex
parent_result wrong_type = err banking_error
parent_result rpc_error = err banking_error
parent_result node_down = err uncaught

-- The raw transaction of each parent is asked for once; an answer does not change in between.
unfoldable pub fetch_parents : Node → List Utxo → Result (List UtxoForBuild)
fetch_parents node [] = ok []
fetch_parents node (u ∷ us) = elim (parent_result (node.get_raw_transaction u.txid)) [
  | ok hex ↦ elim (fetch_parents node us) [
    | ok rest ↦ ok (
        record { txid = u.txid; vout = u.vout; value_sats = u.value_sats; parent_raw_hex = hex }
        ∷ rest)
    | err e ↦ err e
  ]
  | err e ↦ err e
]

-- the only descriptor of the holding
abbrev pub primary_descriptor : List Descriptor → Result Descriptor
primary_descriptor [] = err insufficient_balance
primary_descriptor (x ∷ []) = ok x
primary_descriptor (x ∷ y ∷ rest) = err banking_error

-- the arguments of `build_payment_request`
pub record PaymentOrder : Type 0 where
  pub holding_id : ℕ
  pub destination_address : String
  pub amount_sats : Option ℤ
  pub fee_strategy : Option String
  pub fee_sat_per_vbyte : Option ℤ
  pub description : Option String
  pub confirmed_long_term : Bool

module _ (texts : Texts) where
  -- `?amount=` for an amount that is neither missing nor 0
  abbrev pub amount_query : Option ℤ → String
  amount_query none = ""
  amount_query (some (pos zero)) = ""
  amount_query (some n) = text_append "?amount=" (texts.amount_text n)

  abbrev pub payment_uri : PaymentOrder → String
  payment_uri o =
      text_append (text_append "bitcoin:" o.destination_address) (amount_query o.amount_sats)

  abbrev pub request_of : ℕ → ℕ → PaymentOrder → String → PaymentRequest
  request_of now new_id o psbt = record {
    id = new_id;
    holding_id = o.holding_id;
    payment_type = onchain;
    amount_sats = o.amount_sats;
    description = o.description;
    status = awaiting_signature;
    expires_at = none;
    created_at = now;
    updated_at = now;
    destination_address = some o.destination_address;
    bip21_uri = some (payment_uri o);
    psbt_base64 = some psbt;
    signed_transaction_hex = none;
    broadcast_txid = none;
    lightning_invoice = none;
    lightning_payment_hash = none;
    resulting_ledger_entry_id = none;
    sweep_execution_id = none;
  }

  module _ {P : Type 0} (bdk : Bdk P) (node : Node) where
    abbrev pub order_of : PaymentOrder → Descriptor → List UtxoForBuild → ℤ → Db → PsbtOrder
    order_of o x utxos rate d = record {
      external_descriptor = x.expression;
      change_descriptor = x.change_expression;
      network = x.network;
      utxos = utxos;
      recipient_address = o.destination_address;
      amount_sats = o.amount_sats;
      fee_rate = rate;
      max_external_index = high_water_index x.id false d;
      max_change_index = high_water_index x.id true d;
    }

    -- from the in-flight check on
    unfoldable pub compose : ℕ → ℕ → PaymentOrder → Session BuildResult
    unfolding request_insert
    compose now new_id o d =
        (do
          raise_if (has_in_flight_for_holding o.holding_id d) in_flight_payment_exists
          descriptors ← list_descriptors_for_holding o.holding_id
          primary ← lift (primary_descriptor descriptors)
          utxos ← gather_spendable_utxos primary.id
          raise_if (is_empty utxos) insufficient_balance
          raise_if (exceeds o.amount_sats (total_value utxos)) insufficient_balance
          raise_if (not (bdk.is_address o.destination_address primary.network)) invalid_destination
          rate ← lift (resolve_fee_rate node o.fee_strategy o.fee_sat_per_vbyte)
          inputs ← lift (fetch_parents node utxos)
          psbt ← or_raise (bdk.build_psbt (order_of o primary inputs rate d)) banking_error
          payment ← lift (new_payment_request (request_of now new_id o psbt))
          write (request_insert payment)
          pure (built payment))
          d

    -- the confirmation of a payment from a long-term vault
    abbrev pub unless_unusual : Bool → Session BuildResult → Session BuildResult
    unless_unusual true m = pure requires_confirmation
    unless_unusual false m = m

    -- `build_payment_request`; the reads before the write all see the database `d`
    unfoldable pub build_payment_request : ℕ → ℕ → PaymentOrder → Session BuildResult
    build_payment_request now new_id o d =
        (do
          found ← holding_get o.holding_id (descriptor_ids_for_holding o.holding_id d) none
          holding ← or_raise found holding_not_found
          raise_if
              (is_account holding.holding_type
                || is_not_applicable holding.declared_security.signing_model)
              holding_cannot_send
          unless_unusual
              (is_vault holding.holding_type
                && is_long_term holding.purpose
                && not o.confirmed_long_term)
              (compose now new_id o))
          d
