-- ===== src/Db.antt =====
-- The tables of the database and the session over them. A service function changes the session and
-- returns, or raises: what it had written before the raise is still in the session, and the caller
-- commits or closes it.
-- (backend/tallykeep/models, backend/tallykeep/repositories/holding.py)
pub mod Session
pub mod Keeps
pub mod Outcome
pub mod After
use tallykeep.Prelude.{ℕ, String, Option, Bool, ℤ}
use tallykeep.Table.{Keyed, Table, flush}
use tallykeep.Domain.Enums.{HoldingType, Purpose, PurseMode}
use tallykeep.Domain.Holding.{SecurityClaim}
use tallykeep.Domain.Sweep.{SweepPolicy, SweepExecution}
use tallykeep.Domain.Payment.{PaymentRequest, BroadcastAttempt, Invoice}
use tallykeep.Domain.Chain.{
  Descriptor, Address, Utxo, LedgerEntry, LedgerEntryHoldingLink, OnChainTransaction,
}
use tallykeep.Domain.Provider.{CustodialProvider}
use tallykeep.Domain.Health.{SecurityHealthItem}
use tallykeep.Domain.Mirror.{CustodialEntry}

-- The keys of the column `subtype_data`.
pub record SubtypeData : Type 0 where
  pub purse_mode : Option PurseMode
  pub signing_device_label : Option String
  pub vendor : Option String
  pub signing_metadata_present : Option Bool
  pub required_signers : Option ℤ
  pub total_signers : Option ℤ
  pub timelock_kind : Option String
  pub timelock_value : Option ℤ
  pub recovery_setup_notes : Option String

pub record HoldingRow : Type 0 where
  pub id : ℕ
  pub holding_type : HoldingType
  pub name : String
  pub description : Option String
  pub purpose : Purpose
  pub declared_security : SecurityClaim
  pub subtype_data : SubtypeData
  pub display_color : String
  pub display_order : ℤ
  pub created_at : ℕ
  pub updated_at : ℕ

instance abbrev pub holding_key : Keyed HoldingRow
holding_key = record { key = λ h. h.id }

-- a row of the log of the changes of a holding's type
pub record HoldingTypeChange : Type 0 where
  pub id : ℕ
  pub holding_id : ℕ
  pub previous_type : HoldingType
  pub new_type : HoldingType
  pub reason : Option String

pub record Db : Type 0 where
  pub holdings : Table HoldingRow
  pub providers : Table CustodialProvider
  pub policies : Table SweepPolicy
  pub executions : Table SweepExecution
  pub requests : Table PaymentRequest
  pub attempts : Table BroadcastAttempt
  pub invoices : Table Invoice
  pub descriptors : Table Descriptor
  pub addresses : Table Address
  pub utxos : Table Utxo
  pub transactions : Table OnChainTransaction
  pub entries : Table LedgerEntry
  pub links : Table LedgerEntryHoldingLink
  pub health_items : Table SecurityHealthItem
  pub mirror : Table CustodialEntry
  pub type_changes : Table HoldingTypeChange
  pub principles_acknowledged_at : Option ℕ

-- `session.flush()`
abbrev pub flush_all : Db → Db
flush_all d = record {
  holdings = flush d.holdings;
  providers = flush d.providers;
  policies = flush d.policies;
  executions = flush d.executions;
  requests = flush d.requests;
  attempts = flush d.attempts;
  invoices = flush d.invoices;
  descriptors = flush d.descriptors;
  addresses = flush d.addresses;
  utxos = flush d.utxos;
  transactions = flush d.transactions;
  entries = flush d.entries;
  links = flush d.links;
  health_items = flush d.health_items;
  mirror = flush d.mirror;
  type_changes = flush d.type_changes;
  principles_acknowledged_at = d.principles_acknowledged_at;
}
