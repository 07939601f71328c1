-- ===== src/Repositories/Cascade.antt =====
-- `delete_cascade` of backend/tallykeep/repositories/holding.py. Every statement runs in the database
-- at once, and the foreign keys of backend/tallykeep/models decide on it: a row that a `RESTRICT` key
-- refers to makes the statement raise, `SET NULL` and `CASCADE` change the referring rows.
pub mod Rows
pub mod Deletable
pub mod Completing
pub mod Reserved
use tallykeep.Prelude.{
  ℕ, Bool, true, false, not, ◌&&◌, ◌||◌, ◌==◌, Option, none, some, List, [], ◌∷◌, any_of, map,
  filter_by, if◌then◌else◌,
}
use tallykeep.Errors.{ok, err, uncaught}
use tallykeep.Table.{get, delete, delete_where, update_where}
use tallykeep.Domain.Sweep.{SweepPolicy, SweepExecution}
use tallykeep.Domain.Payment.{PaymentRequest, BroadcastAttempt, Invoice}
use tallykeep.Domain.Chain.{Descriptor, Address, Utxo, LedgerEntryHoldingLink}
use tallykeep.Domain.Provider.{CustodialProvider}
use tallykeep.Domain.Mirror.{CustodialEntry}
use tallykeep.Db.{Db, HoldingRow, HoldingTypeChange, holding_key}
use tallykeep.Db.Session.{Session, pure, ◌>>◌}

-- a statement that raises an `IntegrityError` where a row refers to one that it deletes
abbrev pub guarded : (Db → Bool) → (Db → Db) → Session (Unit {0})
guarded referenced f d = if referenced d then (err uncaught, d) else (ok tt, f d)

abbrev pub unguarded : (Db → Db) → Session (Unit {0})
unguarded f d = (ok tt, f d)

-- a key that may be null
abbrev pub refers : ℕ → Option ℕ → Bool
refers id none = false
refers id (some i) = i == id

-- `id.in_(ids)`
abbrev pub is_in : List ℕ → ℕ → Bool
is_in ids id = any_of (λ i. i == id) ids

abbrev pub refers_in : List ℕ → Option ℕ → Bool
refers_in ids none = false
refers_in ids (some i) = is_in ids i

abbrev pub touches : ℕ → SweepPolicy → Bool
touches id p = p.source_holding_id == id || p.destination_holding_id == id

-- the subqueries
abbrev pub policy_ids : ℕ → Db → List ℕ
policy_ids id d = map (λ (p : SweepPolicy). p.id) (filter_by (touches id) d.policies.rows)

abbrev pub execution_ids : ℕ → Db → List ℕ
execution_ids id d =
    map (λ (e : SweepExecution). e.id)
      (filter_by (λ e. is_in (policy_ids id d) e.sweep_policy_id) d.executions.rows)

abbrev pub desc_ids : ℕ → Db → List ℕ
desc_ids id d =
    map (λ (x : Descriptor). x.id) (filter_by (λ x. x.holding_id == id) d.descriptors.rows)

abbrev pub address_ids : ℕ → Db → List ℕ
address_ids id d =
    map (λ (a : Address). a.id)
      (filter_by (λ a. is_in (desc_ids id d) a.descriptor_id) d.addresses.rows)

abbrev pub request_ids : ℕ → Db → List ℕ
request_ids id d =
    map (λ (r : PaymentRequest). r.id) (filter_by (λ r. r.holding_id == id) d.requests.rows)

abbrev pub candidate_ids : ℕ → Db → List ℕ
candidate_ids id d =
    map (λ (l : LedgerEntryHoldingLink). l.ledger_entry_id)
      (filter_by (λ l. l.holding_id == id) d.links.rows)

abbrev pub provider_ids : ℕ → Db → List ℕ
provider_ids id d =
    map (λ (p : CustodialProvider). p.id) (filter_by (λ p. p.holding_id == id) d.providers.rows)

-- 1, the log
abbrev pub delete_type_changes : ℕ → Db → Db
delete_type_changes id d = record d {
  type_changes = delete_where (λ c. c.holding_id == id) d.type_changes;
}

-- 2, the policies and their executions
abbrev pub unlink_executions : ℕ → Db → Db
unlink_executions id d = record d {
  mirror =
      update_where (λ c. refers_in (execution_ids id d) c.linked_sweep_execution_id)
        (λ c. record c { linked_sweep_execution_id = none }) d.mirror;
}

abbrev pub executions_referenced : ℕ → Db → Bool
executions_referenced id d =
    any_of (λ (c : CustodialEntry). refers_in (execution_ids id d) c.linked_sweep_execution_id)
      d.mirror.rows

abbrev pub delete_executions : ℕ → Db → Db
delete_executions id d = record d {
  executions = delete_where (λ e. is_in (policy_ids id d) e.sweep_policy_id) d.executions;
  requests =
      update_where (λ r. refers_in (execution_ids id d) r.sweep_execution_id)
        (λ r. record r { sweep_execution_id = none }) d.requests;
}

abbrev pub policies_referenced : ℕ → Db → Bool
policies_referenced id d =
    any_of (λ (e : SweepExecution). is_in (policy_ids id d) e.sweep_policy_id) d.executions.rows

abbrev pub delete_policies : ℕ → Db → Db
delete_policies id d = record d { policies = delete_where (touches id) d.policies }

-- 3, the UTXOs, addresses and descriptors
abbrev pub delete_utxos : ℕ → Db → Db
delete_utxos id d = record d {
  utxos = delete_where (λ u. is_in (desc_ids id d) u.descriptor_id) d.utxos;
}

abbrev pub addresses_referenced : ℕ → Db → Bool
addresses_referenced id d =
    any_of (λ (u : Utxo). is_in (address_ids id d) u.address_id) d.utxos.rows
    || any_of (λ (v : Invoice). refers_in (address_ids id d) v.receiving_address_id) d.invoices.rows

abbrev pub delete_addresses : ℕ → Db → Db
delete_addresses id d = record d {
  addresses = delete_where (λ a. is_in (desc_ids id d) a.descriptor_id) d.addresses;
}

abbrev pub descriptors_referenced : ℕ → Db → Bool
descriptors_referenced id d =
    any_of (λ (a : Address). is_in (desc_ids id d) a.descriptor_id) d.addresses.rows
    || any_of (λ (u : Utxo). is_in (desc_ids id d) u.descriptor_id) d.utxos.rows
    || any_of
        (λ (p : CustodialProvider). refers_in (desc_ids id d) p.whitelist_address_descriptor_id)
        d.providers.rows

abbrev pub delete_descriptors : ℕ → Db → Db
delete_descriptors id d = record d {
  descriptors = delete_where (λ x. x.holding_id == id) d.descriptors;
}

-- 4, the payments and invoices
abbrev pub delete_attempts : ℕ → Db → Db
delete_attempts id d = record d {
  attempts = delete_where (λ a. is_in (request_ids id d) a.payment_request_id) d.attempts;
}

abbrev pub requests_referenced : ℕ → Db → Bool
requests_referenced id d =
    any_of (λ (a : BroadcastAttempt). is_in (request_ids id d) a.payment_request_id) d.attempts.rows

abbrev pub delete_requests : ℕ → Db → Db
delete_requests id d = record d { requests = delete_where (λ r. r.holding_id == id) d.requests }

abbrev pub delete_invoices : ℕ → Db → Db
delete_invoices id d = record d { invoices = delete_where (λ v. v.holding_id == id) d.invoices }

-- 5, the links, and the entries that no link is left of
abbrev pub unlink_entries : List ℕ → Db → Db
unlink_entries ids d = record d {
  mirror =
      update_where (λ c. refers_in ids c.linked_chain_ledger_entry_id)
        (λ c. record c { linked_chain_ledger_entry_id = none }) d.mirror;
  requests =
      update_where (λ r. refers_in ids r.resulting_ledger_entry_id)
        (λ r. record r { resulting_ledger_entry_id = none }) d.requests;
}

abbrev pub delete_links : ℕ → Db → Db
delete_links id d = record d { links = delete_where (λ l. l.holding_id == id) d.links }

-- a candidate that has no link left
abbrev pub is_orphan : List ℕ → Db → ℕ → Bool
is_orphan ids d i =
    is_in ids i
    && not (any_of (λ (l : LedgerEntryHoldingLink). l.ledger_entry_id == i) d.links.rows)

abbrev pub refers_orphan : List ℕ → Db → Option ℕ → Bool
refers_orphan ids d none = false
refers_orphan ids d (some i) = is_orphan ids d i

abbrev pub entries_referenced : List ℕ → Db → Bool
entries_referenced ids d =
    any_of (λ (l : LedgerEntryHoldingLink). is_orphan ids d l.ledger_entry_id) d.links.rows
    || any_of (λ (r : PaymentRequest). refers_orphan ids d r.resulting_ledger_entry_id)
        d.requests.rows
    || any_of (λ (v : Invoice). refers_orphan ids d v.resulting_ledger_entry_id) d.invoices.rows
    || any_of (λ (c : CustodialEntry). refers_orphan ids d c.linked_chain_ledger_entry_id)
        d.mirror.rows

abbrev pub delete_orphans : List ℕ → Db → Db
delete_orphans ids d = record d { entries = delete_where (λ e. is_orphan ids d e.id) d.entries }

-- 6, the provider, whose mirrored entries go with it
abbrev pub delete_providers : ℕ → Db → Db
delete_providers id d = record d {
  providers = delete_where (λ p. p.holding_id == id) d.providers;
  mirror = delete_where (λ c. is_in (provider_ids id d) c.custodial_provider_id) d.mirror;
}

-- 7, the row itself, when the session is flushed
abbrev pub holding_referenced : ℕ → Db → Bool
holding_referenced id d =
    any_of (λ (c : HoldingTypeChange). c.holding_id == id) d.type_changes.rows
    || any_of (touches id) d.policies.rows
    || any_of (λ (x : Descriptor). x.holding_id == id) d.descriptors.rows
    || any_of (λ (r : PaymentRequest). r.holding_id == id) d.requests.rows
    || any_of (λ (v : Invoice). v.holding_id == id) d.invoices.rows
    || any_of (λ (l : LedgerEntryHoldingLink). l.holding_id == id) d.links.rows
    || any_of (λ (p : CustodialProvider). p.holding_id == id) d.providers.rows
    || any_of (λ (c : CustodialEntry). c.holding_id == id) d.mirror.rows

abbrev pub delete_row : ℕ → Db → Db
delete_row id d = record d {
  holdings = delete id d.holdings;
  mirror =
      update_where (λ c. refers id c.linked_counterparty_holding_id)
        (λ c. record c { linked_counterparty_holding_id = none }) d.mirror;
  health_items = delete_where (λ i. refers id i.holding_id) d.health_items;
}

-- the statements on the ledger entries, for the candidates
abbrev pub delete_ledger : ℕ → List ℕ → Session (Unit {0})
delete_ledger id [] = unguarded (delete_links id)
delete_ledger id (i ∷ ids) = do
  unguarded (unlink_entries (i ∷ ids))
  unguarded (delete_links id)
  guarded (entries_referenced (i ∷ ids)) (delete_orphans (i ∷ ids))

abbrev pub delete_chain_side : ℕ → Session (Unit {0})
delete_chain_side id = do
  unguarded (delete_utxos id)
  guarded (addresses_referenced id) (delete_addresses id)
  guarded (descriptors_referenced id) (delete_descriptors id)

abbrev pub delete_sweeps : ℕ → Session (Unit {0})
delete_sweeps id = do
  unguarded (unlink_executions id)
  guarded (executions_referenced id) (delete_executions id)
  guarded (policies_referenced id) (delete_policies id)

abbrev pub delete_payments : ℕ → Session (Unit {0})
delete_payments id = do
  unguarded (delete_attempts id)
  guarded (requests_referenced id) (delete_requests id)
  unguarded (delete_invoices id)

abbrev pub delete_found : ℕ → Option HoldingRow → Session Bool
delete_found id none = pure false
delete_found id (some row) = do
  unguarded (delete_type_changes id)
  delete_sweeps id
  delete_chain_side id
  delete_payments id
  (λ d. delete_ledger id (candidate_ids id d) d)
  unguarded (delete_providers id)
  guarded (holding_referenced id) (delete_row id)
  pure true

-- `delete_cascade`, with the flush of the deletion of the row
unfoldable pub delete_cascade : ℕ → Session Bool
delete_cascade id d = delete_found id (get id d.holdings) d
