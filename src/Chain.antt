-- ===== src/Chain.antt =====
-- backend/tallykeep/services/chain_processing_service.py: the inputs and outputs of a transaction that
-- are the user's, its direction, and the entry of one holding. The outputs are given with their values
-- in satoshis.
pub mod Inputs
pub mod Slices
pub mod Spent
pub mod Hygiene
pub mod Processing
pub mod Storing
use tallykeep.Prelude.{
  ℕ, String, Bool, true, false, not, ◌&&◌, ◌==◌, Option, none, some, List, [], ◌∷◌, ◌++◌, any_of,
  length, find_first, if◌then◌else◌, str_eq, ℤ, pos, ◌+ℤ◌, ◌-ℤ◌, ltb_ℤ, leb_ℤ, ltb,
}
use tallykeep.Table.{Table, get, modify_first}
use tallykeep.Domain.Enums.{Direction, incoming, outgoing, internal, onchain_transaction}
use tallykeep.Domain.Chain.{Utxo, Address, LedgerEntry, descriptor_key, Descriptor}
use tallykeep.Db.{Db}

-- an element of "vin": without "txid" or "vout" it is skipped, as the one of a coinbase
pub data TxInput : Type 0 where
  coinbase : TxInput
  spends : String → ℕ → TxInput

-- an element of "vout"
pub record TxOutput : Type 0 where
  pub value_sats : Option ℤ
  pub n : ℕ
  pub address : Option String

pub record DiscoveredOutput : Type 0 where
  pub vout : ℕ
  pub value_sats : ℤ
  pub address : String
  pub address_id : ℕ
  pub descriptor_id : ℕ
  pub holding_id : ℕ

pub record SpentInputs : Type 0 where
  pub spent_value : ℤ
  pub spent_ids : List ℕ
  pub descriptors : List ℕ
  pub holdings : List ℕ

-- `ids.add(id)` of a set
abbrev pub insert_id : ℕ → List ℕ → List ℕ
insert_id id ids = if any_of (λ i. i == id) ids then ids else ids ++ (id ∷ [])

abbrev pub is_outpoint : String → ℕ → Utxo → Bool
is_outpoint txid vout u = str_eq u.txid txid && u.vout == vout

-- the stored UTXO that an input spends; the database holds an outpoint once
abbrev pub utxo_at : TxInput → Db → Option Utxo
utxo_at coinbase d = none
utxo_at (spends txid vout) d = find_first (is_outpoint txid vout) d.utxos.rows

abbrev pub as_spent : String → Utxo → Utxo
as_spent spending_txid u =
    if u.is_spent then u else record u { is_spent = true; spent_in_txid = some spending_txid }

abbrev pub spend_at : TxInput → String → Db → Db
spend_at coinbase spending_txid d = d
spend_at (spends txid vout) spending_txid d = record d {
  utxos = record d.utxos {
    rows = modify_first (is_outpoint txid vout) (as_spent spending_txid) d.utxos.rows;
  };
}

abbrev pub holdings_with : Option Descriptor → List ℕ → List ℕ
holdings_with none holdings = holdings
holdings_with (some x) holdings = insert_id x.holding_id holdings

abbrev pub count_spent : Utxo → Db → SpentInputs → SpentInputs
count_spent u d s = record {
  spent_value = s.spent_value +ℤ u.value_sats;
  spent_ids = s.spent_ids ++ (u.id ∷ []);
  descriptors = insert_id u.descriptor_id s.descriptors;
  holdings = holdings_with (get u.descriptor_id d.descriptors) s.holdings;
}

-- the loop of `_mark_inputs_spent`
unfoldable pub mark_from : String → List TxInput → SpentInputs → Db → SpentInputs × Db
mark_from txid [] s d = (s, d)
mark_from txid (i ∷ rest) s d = elim (utxo_at i d) [
  | none ↦ mark_from txid rest s d
  | some u ↦ mark_from txid rest (count_spent u d s) (spend_at i txid d)
]

abbrev pub no_inputs : SpentInputs
no_inputs = record { spent_value = pos 0; spent_ids = []; descriptors = []; holdings = [] }

-- `_mark_inputs_spent`
abbrev pub mark_inputs_spent : String → List TxInput → Db → SpentInputs × Db
mark_inputs_spent txid vin d = mark_from txid vin no_inputs d

abbrev pub slice_of : ℕ → Option Utxo → Table Descriptor → ℤ
slice_of holding_id none t = pos 0
slice_of holding_id (some u) t = elim (get u.descriptor_id t) [
  | none ↦ pos 0
  | some x ↦ if x.holding_id == holding_id then u.value_sats else pos 0
]

-- `_holding_input_value`
unfoldable pub holding_input_value : List TxInput → ℕ → Db → ℤ
holding_input_value [] holding_id d = pos 0
holding_input_value (i ∷ rest) holding_id d =
    slice_of holding_id (utxo_at i d) d.descriptors +ℤ holding_input_value rest holding_id d

abbrev pub pays : Address → Option String → Bool
pays row none = false
pays row (some address) = not (str_eq address "") && str_eq address row.address

abbrev pub discovered_of : Address → TxOutput → Option Descriptor → Option ℤ → List DiscoveredOutput
discovered_of row o none value = []
discovered_of row o (some x) none = []
discovered_of row o (some x) (some value) =
    if pays row o.address
    then record {
      vout = o.n;
      value_sats = value;
      address = row.address;
      address_id = row.id;
      descriptor_id = row.descriptor_id;
      holding_id = x.holding_id;
    }
      ∷ []
    else []

abbrev pub discovered_at : List TxOutput → Db → Address → List DiscoveredOutput
discovered_at [] d row = []
discovered_at (o ∷ rest) d row =
    discovered_of row o (get row.descriptor_id d.descriptors) o.value_sats
    ++ discovered_at rest d row

abbrev pub discovered_in : List TxOutput → Db → List Address → List DiscoveredOutput
discovered_in outputs d [] = []
discovered_in outputs d (row ∷ rows) = discovered_at outputs d row ++ discovered_in outputs d rows

-- `_discover_outputs`
unfoldable pub discover_outputs : List TxOutput → Db → List DiscoveredOutput
discover_outputs outputs d = discovered_in outputs d d.addresses.rows

-- `sum(received_value_per_holding.values())`
unfoldable pub received_total : List DiscoveredOutput → ℤ
received_total [] = pos 0
received_total (o ∷ rest) = o.value_sats +ℤ received_total rest

-- `received_value_per_holding.get(holding_id, 0)`
unfoldable pub received_by : ℕ → List DiscoveredOutput → ℤ
received_by holding_id [] = pos 0
received_by holding_id (o ∷ rest) =
    (if o.holding_id == holding_id then o.value_sats else pos 0) +ℤ received_by holding_id rest

-- the keys of `received_value_per_holding`
unfoldable pub receiving : List DiscoveredOutput → List ℕ
receiving [] = []
receiving (o ∷ rest) = insert_id o.holding_id (receiving rest)

-- `_infer_direction`
unfoldable pub infer_direction : ℤ → ℤ → ℕ → ℕ → Direction
infer_direction spent_value total num_by_inputs num_by_outputs =
    if ltb_ℤ (pos 0) spent_value
      && ltb_ℤ (pos 0) total
      && ltb 0 num_by_inputs
      && ltb 0 num_by_outputs
    then internal
    else if leb_ℤ spent_value total
    then incoming
    else outgoing

-- the entry of a holding, with its share of the transaction
abbrev pub entry_of : ℕ → ℕ → ℕ → String → Direction → ℤ → LedgerEntry
entry_of new_id now timestamp txid direction net = record {
  id = new_id;
  direction = direction;
  net_amount_sats = net;
  fee_sats = none;
  timestamp = timestamp;
  source = onchain_transaction;
  source_reference = txid;
  category = none;
  counterparty_label = none;
  note = none;
  suggested_category = none;
  categorized_at = none;
  created_at = now;
}

-- the direction of the transaction, once its inputs are marked
unfoldable pub direction_of : SpentInputs → List DiscoveredOutput → Direction
direction_of s found =
    infer_direction s.spent_value (received_total found) (length s.holdings)
      (length (receiving found))

-- the direction of the transaction
unfoldable pub transaction_direction : String → List TxInput → List TxOutput → Db → Direction
transaction_direction txid vin vout d =
    let (s, d') = mark_inputs_spent txid vin d in direction_of s (discover_outputs vout d')

-- `holding_net`
unfoldable pub holding_net : String → List TxInput → List TxOutput → ℕ → Db → ℤ
holding_net txid vin vout holding_id d =
    let (s, d') = mark_inputs_spent txid vin d in
    received_by holding_id (discover_outputs vout d') -ℤ holding_input_value vin holding_id d'

-- the entry that the holding gets, in the loop over the affected holdings
unfoldable pub share_entry :
    ℕ → ℕ → ℕ → String → List TxInput → List TxOutput → ℕ → Db → LedgerEntry
share_entry new_id now timestamp txid vin vout holding_id d =
    entry_of new_id now timestamp txid (transaction_direction txid vin vout d)
      (holding_net txid vin vout holding_id d)
