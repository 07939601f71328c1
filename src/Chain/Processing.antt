-- ===== src/Chain/Processing.antt =====
-- backend/tallykeep/services/chain_processing_service.py: `process_decoded_transaction`, with the rows
-- that it writes. `uuid4` is a parameter that sees the database.
pub mod Marked
use tallykeep.Prelude.{
  ℕ, String, Bool, true, false, not, ◌&&◌, ◌||◌, ◌==◌, Option, none, some, List, [], ◌∷◌, ◌++◌,
  any_of, find_first, filter_by, if◌then◌else◌, str_eq, ℤ, pos, ◌-ℤ◌, leb_ℤ, is_none, is_some,
  is_empty, or_else, get_or,
}
use tallykeep.Errors.{ok, uncaught}
use tallykeep.Table.{Table, get, add, modify, modify_first}
use tallykeep.Domain.Enums.{Direction, native_segwit, AddressType, is_onchain_source}
use tallykeep.Domain.Chain.{
  Utxo, Descriptor, descriptor_key, LedgerEntry, LedgerEntryHoldingLink, OnChainTransaction,
  new_ledger_entry,
}
use tallykeep.Db.{Db, flush_all}
use tallykeep.Db.Session.{Session, pure, raise, lift, write, gets, flush_session, ◌>>=◌, ◌>>◌}
use tallykeep.Chain.{
  TxInput, TxOutput, DiscoveredOutput, SpentInputs, insert_id, is_outpoint, mark_inputs_spent,
  discover_outputs, holding_input_value, received_by, received_total, direction_of, entry_of,
}
use tallykeep.Chain.Hygiene.{HygieneContext, apply_flags, fallback_fee_rate}
use tallykeep.Chain.Storing.{
  Arrival, transaction_get, upsert_transaction, utxo_of, context_of, store_utxo, confirm_utxo,
  refresh_utxo, store_output, store_outputs,
}

pub record TxProcessingResult : Type 0 where
  pub txid : String
  pub confirmation_height : Option ℕ
  pub is_new : Bool
  pub spent_utxo_ids : List ℕ
  pub discovered_utxo_ids : List ℕ
  pub new_ledger_entry_ids : List ℕ
  pub affected_holding_ids : List ℕ
  pub affected_descriptor_ids : List ℕ
  pub direction : Option Direction
  pub net_amount_sats : ℤ

-- an entry of this transaction
abbrev is_entry_of : String → ℕ → LedgerEntry → Bool
is_entry_of txid id e = e.id == id && is_onchain_source e.source && str_eq e.source_reference txid

-- `_already_linked`: more than one link raises
abbrev pub already_linked_to : List LedgerEntryHoldingLink → Session Bool
already_linked_to [] = pure false
already_linked_to (_ ∷ []) = pure true
already_linked_to (_ ∷ _ ∷ _) = raise uncaught

abbrev pub already_linked : String → ℕ → Session Bool
already_linked txid holding_id d =
    already_linked_to
      (filter_by
        (λ l.
          l.holding_id == holding_id && any_of (is_entry_of txid l.ledger_entry_id) d.entries.rows)
        d.links.rows)
      d

-- `ledger_repo.insert`, with one link
abbrev pub ledger_insert : LedgerEntry → LedgerEntryHoldingLink → Session (Unit {0})
ledger_insert e l = do
  write (λ d. record d { entries = add e d.entries })
  flush_session
  write (λ d. record d { links = add l d.links })

abbrev pub write_entry : Arrival → Direction → ℕ → ℤ → Session (List ℕ)
write_entry a direction holding_id net = do
  entry ← lift (
      new_ledger_entry
        (entry_of (a.entry_id holding_id) a.now (get_or a.block_time a.now) a.txid direction net))
  ledger_insert entry
      (record { ledger_entry_id = entry.id; holding_id = holding_id; holding_amount_sats = net })
  pure (entry.id ∷ [])

abbrev pub is_zero : ℤ → Bool
is_zero n = leb_ℤ n (pos 0) && leb_ℤ (pos 0) n

-- the share of one holding
abbrev pub share_of : Arrival → List DiscoveredOutput → ℕ → Db → ℤ × ℤ
share_of a found holding_id d =
    (received_by holding_id found, holding_input_value a.vin holding_id d)

abbrev pub write_share : Arrival → Direction → ℕ → ℤ × ℤ → Session (List ℕ)
write_share a direction holding_id (received, spent) =
    if is_zero received && is_zero spent
    then pure []
    else write_entry a direction holding_id (received -ℤ spent)

-- the loop over the affected holdings: the ids of the new entries
unfoldable pub link_holdings :
    Arrival → Direction → List DiscoveredOutput → List ℕ → Session (List ℕ)
link_holdings a direction found [] = pure []
link_holdings a direction found (id ∷ ids) = do
  linked ← already_linked a.txid id
  share ← gets (share_of a found id)
  new ← (if linked then pure [] else write_share a direction id share)
  rest ← link_holdings a direction found ids
  pure (new ++ rest)

-- `affected_holdings`, a set whose order is left open
abbrev pub affected : List ℕ → List DiscoveredOutput → List ℕ
affected holdings [] = holdings
affected holdings (o ∷ os) = affected (insert_id o.holding_id holdings) os

abbrev pub affected_descriptors : List ℕ → List DiscoveredOutput → List ℕ
affected_descriptors descriptors [] = descriptors
affected_descriptors descriptors (o ∷ os) =
    affected_descriptors (insert_id o.descriptor_id descriptors) os

abbrev pub untouched : Arrival → TxProcessingResult
untouched a = record {
  txid = a.txid;
  confirmation_height = a.confirmation_height;
  is_new = false;
  spent_utxo_ids = [];
  discovered_utxo_ids = [];
  new_ledger_entry_ids = [];
  affected_holding_ids = [];
  affected_descriptor_ids = [];
  direction = none;
  net_amount_sats = pos 0;
}

-- the result, for the ids of the new UTXOs and entries
abbrev pub result_of :
    Arrival → Bool → SpentInputs → List DiscoveredOutput → List ℕ → List ℕ → TxProcessingResult
result_of a known s found new entries = record {
  txid = a.txid;
  confirmation_height = a.confirmation_height;
  is_new = not known;
  spent_utxo_ids = s.spent_ids;
  discovered_utxo_ids = new;
  new_ledger_entry_ids = entries;
  affected_holding_ids = affected s.holdings found;
  affected_descriptor_ids = affected_descriptors s.descriptors found;
  direction = some (direction_of s found);
  net_amount_sats = received_total found -ℤ s.spent_value;
}

module _ (uuid4 : Db → ℕ) where
  -- the loop over the outputs
  abbrev pub write_outputs : Arrival → List DiscoveredOutput → Session (List ℕ)
  write_outputs a found d = let (new, d') = store_outputs uuid4 a found d in (ok new, d')

  abbrev pub record_transaction :
      Arrival → SpentInputs → List DiscoveredOutput → Session TxProcessingResult
  record_transaction a s found = do
    existing ← transaction_get a.txid
    upsert_transaction a
    new ← write_outputs a found
    entries ← link_holdings a (direction_of s found) found (affected s.holdings found)
    pure (result_of a (is_some existing) s found new entries)

  -- `process_decoded_transaction`
  unfoldable pub process_decoded_transaction : Arrival → Session TxProcessingResult
  process_decoded_transaction a d =
      let (s, d') = mark_inputs_spent a.txid a.vin d in
      let found = discover_outputs a.vout d' in
      if is_empty s.spent_ids && is_empty found
      then pure (untouched a) d'
      else record_transaction a s found d'
