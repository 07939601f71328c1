-- ===== src/Chain/Storing.antt =====
-- backend/tallykeep/services/chain_processing_service.py: the rows of the transaction and of its outputs,
-- which `process_decoded_transaction` stores. `uuid4` is a parameter that sees the database.
pub mod Marked
use tallykeep.Prelude.{
  ℕ, String, Bool, true, false, not, ◌&&◌, ◌||◌, ◌==◌, Option, none, some, List, [], ◌∷◌, ◌++◌,
  any_of, find_first, filter_by, if◌then◌else◌, str_eq, ℤ, pos, ◌-ℤ◌, leb_ℤ, is_none, is_some,
  is_empty, or_else, get_or,
}
use tallykeep.Errors.{ok, uncaught}
use tallykeep.Table.{Table, get, add, modify, modify_first}
use tallykeep.Domain.Enums.{Direction, native_segwit, AddressType, is_onchain_source}
use tallykeep.Domain.Chain.{
  Utxo, Descriptor, descriptor_key, LedgerEntry, LedgerEntryHoldingLink, OnChainTransaction,
  new_transaction, new_ledger_entry,
}
use tallykeep.Errors.{Result, ok, err}
use tallykeep.Db.{Db, flush_all}
use tallykeep.Db.Session.{Session}
use tallykeep.Db.Session.{Session, pure, raise, lift, write, gets, flush_session, ◌>>=◌, ◌>>◌}
use tallykeep.Chain.{
  TxInput, TxOutput, DiscoveredOutput, SpentInputs, insert_id, is_outpoint, mark_inputs_spent,
  discover_outputs, holding_input_value, received_by, received_total, direction_of, entry_of,
}
use tallykeep.Chain.Hygiene.{HygieneContext, apply_flags, fallback_fee_rate}

-- the decoded transaction and the other arguments, with the ids of the entries that are made
pub record Arrival : Type 0 where
  pub txid : String
  pub raw_hex : Option String
  pub vin : List TxInput
  pub vout : List TxOutput
  pub confirmation_height : Option ℕ
  pub block_time : Option ℕ
  pub fee_rate : Option ℕ
  pub now : ℕ
  pub entry_id : ℕ → ℕ

abbrev pub is_txid : String → OnChainTransaction → Bool
is_txid txid t = str_eq t.txid txid

-- `_row_to_domain` on a row that may be missing
abbrev pub build_transaction : Option OnChainTransaction → Result (Option OnChainTransaction)
build_transaction none = ok none
build_transaction (some t) = elim (new_transaction t) [ ok x ↦ ok (some x) | err e ↦ err e ]

-- `onchain_repo.get`
abbrev pub transaction_get : String → Session (Option OnChainTransaction)
transaction_get txid d = (build_transaction (find_first (is_txid txid) d.transactions.rows), d)

abbrev refresh_transaction : Arrival → OnChainTransaction → OnChainTransaction
refresh_transaction a t = record t {
  raw_hex = or_else a.raw_hex t.raw_hex;
  confirmation_height = or_else a.confirmation_height t.confirmation_height;
  block_time = or_else a.block_time t.block_time;
}

-- the row of a transaction that is seen for the first time
abbrev transaction_of : Arrival → OnChainTransaction
transaction_of a = record {
  txid = a.txid;
  raw_hex = a.raw_hex;
  confirmation_height = a.confirmation_height;
  block_time = a.block_time;
  first_seen_at = a.now;
  fee_sats = none;
  size_vbytes = none;
  is_coinjoin_suspected = false;
}

-- `onchain_repo.upsert`, which returns the row as a domain object
unfoldable pub upsert_transaction : Arrival → Session OnChainTransaction
upsert_transaction a d = elim (find_first (is_txid a.txid) d.transactions.rows) [
  | some t ↦ (
    new_transaction (refresh_transaction a t),
    record d {
      transactions = record d.transactions {
        rows = modify_first (is_txid a.txid) (refresh_transaction a) d.transactions.rows;
      };
    },
  )
  | none ↦ (
    new_transaction (transaction_of a),
    record d { transactions = add (transaction_of a) d.transactions },
  )
]

abbrev pub utxo_of : ℕ → Arrival → DiscoveredOutput → Utxo
utxo_of new_id a o = record {
  id = new_id;
  descriptor_id = o.descriptor_id;
  address_id = o.address_id;
  txid = a.txid;
  vout = o.vout;
  value_sats = o.value_sats;
  confirmation_height = a.confirmation_height;
  is_frozen = false;
  is_spent = false;
  spent_in_txid = none;
  hygiene_flags = [];
}

-- the address type of the descriptor, if it is found
abbrev type_of : Option Descriptor → AddressType
type_of none = native_segwit
type_of (some x) = x.address_type

abbrev pub context_of : Arrival → DiscoveredOutput → Db → HygieneContext
context_of a o d = record {
  decoded_tx = some (a.vin, a.vout);
  address_type = type_of (get o.descriptor_id d.descriptors);
  fee_rate = get_or a.fee_rate fallback_fee_rate;
}

-- a new UTXO is stored, flushed and flagged
unfoldable pub store_utxo : ℕ → Arrival → DiscoveredOutput → Db → Db
store_utxo new_id a o d =
    let u = utxo_of new_id a o in
    let stored = flush_all record d { utxos = add u d.utxos } in
    apply_flags u (context_of a o stored) stored

-- a UTXO that is known is confirmed
abbrev pub confirm_utxo : Option ℕ → Utxo → Utxo
confirm_utxo height u = record u { confirmation_height = or_else u.confirmation_height height }

unfoldable pub refresh_utxo : Arrival → DiscoveredOutput → Db → Db
refresh_utxo a o d = record d {
  utxos = record d.utxos {
    rows =
        modify_first (is_outpoint a.txid o.vout) (confirm_utxo a.confirmation_height) d.utxos.rows;
  };
}

module _ (uuid4 : Db → ℕ) where
  -- one round of the loop over the outputs: the ids that are new
  abbrev pub store_output : Arrival → DiscoveredOutput → Db → List ℕ × Db
  store_output a o d = elim (find_first (is_outpoint a.txid o.vout) d.utxos.rows) [
    | none ↦ (uuid4 d ∷ [], store_utxo (uuid4 d) a o d)
    | some _ ↦ ([], refresh_utxo a o d)
  ]

  unfoldable pub store_outputs : Arrival → List DiscoveredOutput → Db → List ℕ × Db
  store_outputs a [] d = ([], d)
  store_outputs a (o ∷ os) d =
      let (new, d') = store_output a o d in
      let (rest, d'') = store_outputs a os d' in (new ++ rest, d'')
