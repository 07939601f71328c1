-- ===== src/Domain/Mirror.antt =====
-- backend/tallykeep/models/custodial_ledger_entry.py: the entries that are mirrored of an exchange's
-- own ledger. `raw_payload` is kept as its text.
use tallykeep.Prelude.{ℕ, String, Option, ℤ}
use tallykeep.Table.{Keyed}

-- `_VALID_KINDS`
pub data EntryKind : Type 0 where
  trade deposit withdrawal transfer fee reward other_kind : EntryKind

pub record CustodialEntry : Type 0 where
  pub id : ℕ
  pub holding_id : ℕ
  pub custodial_provider_id : ℕ
  pub provider_entry_id : String
  pub kind : EntryKind
  pub asset : String
  pub amount_sats : ℤ
  pub fee_sats : Option ℤ
  pub status : String
  pub timestamp : ℕ
  pub raw_payload : String
  pub linked_sweep_execution_id : Option ℕ
  pub linked_counterparty_holding_id : Option ℕ
  pub linked_chain_ledger_entry_id : Option ℕ
  pub reconciled_at : Option ℕ
  pub updated_at : ℕ

instance abbrev pub mirror_key : Keyed CustodialEntry
mirror_key = record { key = λ e. e.id }
