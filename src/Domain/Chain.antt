-- ===== src/Domain/Chain.antt =====
-- backend/tallykeep/domain/descriptor.py and ledger_entry.py: descriptors, addresses, UTXOs, the
-- transactions of the chain and the entries of the user's ledger. Indices and heights are natural
-- numbers, so the checks that they are not negative have no counterpart.
use Prim.Native.String.{count}
use tallykeep.Prelude.{
  ◌==◌, ℕ, String, Bool, false, not, ◌&&◌, Option, none, some, List, is_some, is_none, ℤ, pos,
  ltb_ℤ, str_eq,
}
use tallykeep.Errors.{Result, ok, ◌>>◌, refuse_if}
use tallykeep.Table.{Keyed}
use tallykeep.Domain.Enums.{
  Network, AddressType, HygieneFlag, Direction, LedgerEntrySource, LedgerCategory, is_incoming,
  is_outgoing,
}

pub record Descriptor : Type 0 where
  pub id : ℕ
  pub holding_id : ℕ
  pub name : String
  pub expression : String
  pub change_expression : Option String
  pub network : Network
  pub address_type : AddressType
  pub gap_limit : ℤ
  pub is_watch_only : Bool
  pub last_scanned_height : ℤ
  pub created_at : ℕ

instance abbrev pub descriptor_key : Keyed Descriptor
descriptor_key = record { key = λ d. d.id }

-- `Descriptor.__post_init__`
unfoldable pub new_descriptor : Descriptor → Result Descriptor
new_descriptor d = do
  refuse_if (not d.is_watch_only)
  refuse_if (ltb_ℤ d.gap_limit (pos 1))
  refuse_if (ltb_ℤ d.last_scanned_height (pos 0))
  refuse_if (str_eq d.expression "")
  ok d

pub record Address : Type 0 where
  pub id : ℕ
  pub descriptor_id : ℕ
  pub address : String
  pub derivation_path : String
  pub is_change : Bool
  pub derivation_index : ℕ
  pub label : Option String
  pub first_seen_height : Option ℕ
  pub is_reused : Bool

instance abbrev pub address_key : Keyed Address
address_key = record { key = λ a. a.id }

pub record Utxo : Type 0 where
  pub id : ℕ
  pub descriptor_id : ℕ
  pub address_id : ℕ
  pub txid : String
  pub vout : ℕ
  pub value_sats : ℤ
  pub confirmation_height : Option ℕ
  pub is_frozen : Bool
  pub is_spent : Bool
  pub spent_in_txid : Option String
  pub hygiene_flags : List HygieneFlag

instance abbrev pub utxo_key : Keyed Utxo
utxo_key = record { key = λ u. u.id }

-- `UTXO.__post_init__`; an output index is a natural number here
unfoldable pub new_utxo : Utxo → Result Utxo
new_utxo u = do
  refuse_if (ltb_ℤ u.value_sats (pos 0))
  refuse_if (u.is_spent && is_none u.spent_in_txid)
  refuse_if (not u.is_spent && is_some u.spent_in_txid)
  ok u

pub record LedgerEntry : Type 0 where
  pub id : ℕ
  pub direction : Direction
  pub net_amount_sats : ℤ
  pub fee_sats : Option ℤ
  pub timestamp : ℕ
  pub source : LedgerEntrySource
  pub source_reference : String
  pub category : Option LedgerCategory
  pub counterparty_label : Option String
  pub note : Option String
  pub suggested_category : Option LedgerCategory
  pub categorized_at : Option ℕ
  pub created_at : ℕ

instance abbrev pub entry_key : Keyed LedgerEntry
entry_key = record { key = λ e. e.id }

abbrev pub is_negative : Option ℤ → Bool
is_negative none = false
is_negative (some n) = ltb_ℤ n (pos 0)

-- `LedgerEntry.__post_init__`
unfoldable pub new_ledger_entry : LedgerEntry → Result LedgerEntry
new_ledger_entry e = do
  refuse_if (str_eq e.source_reference "")
  refuse_if (is_incoming e.direction && ltb_ℤ e.net_amount_sats (pos 0))
  refuse_if (is_outgoing e.direction && ltb_ℤ (pos 0) e.net_amount_sats)
  refuse_if (is_negative e.fee_sats)
  refuse_if (is_some e.category && is_none e.categorized_at)
  ok e

pub record LedgerEntryHoldingLink : Type 0 where
  pub ledger_entry_id : ℕ
  pub holding_id : ℕ
  pub holding_amount_sats : ℤ

pub record OnChainTransaction : Type 0 where
  pub txid : String
  pub raw_hex : Option String
  pub confirmation_height : Option ℕ
  pub block_time : Option ℕ
  pub first_seen_at : ℕ
  pub fee_sats : Option ℤ
  pub size_vbytes : Option ℤ
  pub is_coinjoin_suspected : Bool

-- `OnChainTransaction.__post_init__`; a height is a natural number here
unfoldable pub new_transaction : OnChainTransaction → Result OnChainTransaction
new_transaction t = do
  refuse_if (str_eq t.txid "")
  refuse_if (not (count t.txid == 64))
  refuse_if (is_negative t.fee_sats)
  refuse_if (is_negative t.size_vbytes)
  ok t
