-- ===== src/Repositories/Cascade/Deletable.antt =====
-- When the statements of `delete_cascade` run through, and when they do not.
use tallykeep.Prelude.{
  ◌≡◌, refl, ◌∙◌, ap, ℕ, Bool, true, false, not, ◌||◌, ◌==◌, Option, none, some, List, [], ◌∷◌,
  arith, any_of, filter_by, All,
}
use tallykeep.Errors.{ok}
use tallykeep.Domain.Payment.{PaymentRequest, Invoice}
use tallykeep.Domain.Chain.{Utxo, LedgerEntryHoldingLink}
use tallykeep.Domain.Provider.{CustodialProvider}
use tallykeep.Domain.Mirror.{CustodialEntry}
use tallykeep.Db.{Db, holding_key}
use tallykeep.Db.Session.{Session, ◌>>◌}
use tallykeep.Repositories.Cascade.{
  guarded, unguarded, is_in, refers_in, policy_ids, execution_ids, desc_ids, address_ids,
  request_ids, candidate_ids, provider_ids, unlink_executions, executions_referenced,
  delete_executions, policies_referenced, delete_policies, delete_utxos, addresses_referenced,
  delete_addresses, descriptors_referenced, delete_descriptors, delete_attempts,
  requests_referenced, delete_requests, delete_invoices, unlink_entries, delete_links,
  refers_orphan, entries_referenced, delete_orphans, delete_ledger, delete_chain_side,
  delete_sweeps, delete_payments,
}
use tallykeep.Repositories.Cascade.Rows.{
  any_of-filter_not, any_of-cleared, All-true, any_of-unmatched,
}

-- a statement that no foreign key stops, and then the rest
pub guarded-pass :
    {B : Type 0} (p : Db → Bool) (f : Db → Db) (k : Session B) (d : Db)
    → p d ≡ false
    → (guarded p f >> k) d ≡ k (f d)
guarded-pass p f k d e = rw e refl

guarded-last : (p : Db → Bool) (f : Db → Db) (d : Db) → p d ≡ false → guarded p f d ≡ (ok tt, f d)
guarded-last p f d e = rw e refl

-- a group of statements that ran through, and then the rest
pub run_then :
    {B : Type 0} (m : Session (Unit {0})) (k : Session B) (d d' : Db)
    → m d ≡ (ok tt, d')
    → (m >> k) d ≡ k d'
run_then m k d d' e = rw e refl

abbrev pub after_sweeps : ℕ → Db → Db
after_sweeps id d = delete_policies id (delete_executions id (unlink_executions id d))

pub sweeps-pass : (id : ℕ) (d : Db) → delete_sweeps id d ≡ (ok tt, after_sweeps id d)
sweeps-pass id d =
    guarded-pass (executions_referenced id) (delete_executions id)
      (guarded (policies_referenced id) (delete_policies id)) (unlink_executions id d)
      (any_of-cleared
        (λ (c : CustodialEntry). refers_in (execution_ids id d) c.linked_sweep_execution_id)
        (λ c. refers_in (execution_ids id d) c.linked_sweep_execution_id)
        (λ c. record c { linked_sweep_execution_id = none }) (λ c e. refl) (λ c e. e) d.mirror.rows)
    ∙ guarded-last (policies_referenced id) (delete_policies id)
        (delete_executions id (unlink_executions id d))
        (any_of-filter_not (λ e. is_in (policy_ids id d) e.sweep_policy_id)
          (λ e. is_in (policy_ids id d) e.sweep_policy_id) d.executions.rows
          (All-true _ d.executions.rows))

abbrev pub after_chain_side : ℕ → Db → Db
after_chain_side id d = delete_descriptors id (delete_addresses id (delete_utxos id d))

-- What the statements need of the other rows, and no foreign key gives: a UTXO at one of the holding's
-- addresses is of one of its descriptors, no provider's whitelist address is of one of its descriptors,
-- an invoice that was settled by one of its ledger entries is its own, and a mirrored entry of the
-- holding is of its provider.
pub record IsLinked (id : ℕ) (d : Db) : Type 0 where
  pub utxos_at_addresses :
      All
        (λ (u : Utxo).
          is_in (address_ids id d) u.address_id ≡ true
          → is_in (desc_ids id d) u.descriptor_id ≡ true)
        d.utxos.rows
  pub no_whitelist :
      any_of
        (λ (p : CustodialProvider). refers_in (desc_ids id d) p.whitelist_address_descriptor_id)
        d.providers.rows
      ≡ false
  pub own_settlements :
      All
        (λ (v : Invoice).
          refers_in (candidate_ids id d) v.resulting_ledger_entry_id ≡ true
          → (v.holding_id == id) ≡ true)
        d.invoices.rows
  pub own_mirror :
      All
        (λ (c : CustodialEntry).
          (c.holding_id == id) ≡ true → is_in (provider_ids id d) c.custodial_provider_id ≡ true)
        d.mirror.rows

-- an invoice waits, or waited, on one of the holding's addresses
abbrev pub has_reserved : ℕ → Db → Bool
has_reserved id d =
    any_of (λ (v : Invoice). refers_in (address_ids id d) v.receiving_address_id) d.invoices.rows

pub or_false : (a b : Bool) → a ≡ false → b ≡ false → (a || b) ≡ false
or_false a b h k = ground (arith, h, k)

pub chain_side-pass :
    (id : ℕ) (d : Db)
    → All
        (λ (u : Utxo).
          is_in (address_ids id d) u.address_id ≡ true
          → is_in (desc_ids id d) u.descriptor_id ≡ true)
        d.utxos.rows
    → any_of
        (λ (p : CustodialProvider). refers_in (desc_ids id d) p.whitelist_address_descriptor_id)
        d.providers.rows
      ≡ false
    → has_reserved id d ≡ false
    → delete_chain_side id d ≡ (ok tt, after_chain_side id d)
chain_side-pass id d utxos whitelist invoices =
    guarded-pass (addresses_referenced id) (delete_addresses id)
      (guarded (descriptors_referenced id) (delete_descriptors id)) (delete_utxos id d)
      (or_false _ _
        (any_of-filter_not (λ u. is_in (desc_ids id d) u.descriptor_id)
          (λ u. is_in (address_ids id d) u.address_id) d.utxos.rows utxos)
        invoices)
    ∙ guarded-last (descriptors_referenced id) (delete_descriptors id)
        (delete_addresses id (delete_utxos id d))
        (or_false _ _
          (or_false _ _
            (any_of-filter_not (λ a. is_in (desc_ids id d) a.descriptor_id)
              (λ a. is_in (desc_ids id d) a.descriptor_id) d.addresses.rows
              (All-true _ d.addresses.rows))
            (any_of-filter_not (λ u. is_in (desc_ids id d) u.descriptor_id)
              (λ u. is_in (desc_ids id d) u.descriptor_id) d.utxos.rows (All-true _ d.utxos.rows)))
          whitelist)

abbrev pub after_payments : ℕ → Db → Db
after_payments id d = delete_invoices id (delete_requests id (delete_attempts id d))

pub payments-pass : (id : ℕ) (d : Db) → delete_payments id d ≡ (ok tt, after_payments id d)
payments-pass id d =
    guarded-pass (requests_referenced id) (delete_requests id) (unguarded (delete_invoices id))
      (delete_attempts id d)
      (any_of-filter_not (λ a. is_in (request_ids id d) a.payment_request_id)
        (λ a. is_in (request_ids id d) a.payment_request_id) d.attempts.rows
        (All-true _ d.attempts.rows))

-- what the statements on the ledger entries leave
abbrev pub after_ledger : ℕ → List ℕ → Db → Db
after_ledger id [] d = delete_links id d
after_ledger id (i ∷ ids) d =
    delete_orphans (i ∷ ids) (delete_links id (unlink_entries (i ∷ ids) d))

orphan-refers :
    (ids : List ℕ) (d : Db) (o : Option ℕ) → refers_in ids o ≡ false → refers_orphan ids d o ≡ false
orphan-refers ids d none e = refl
orphan-refers ids d (some i) e = ground (arith, e)

orphan-none :
    (ids : List ℕ) (d : Db) (o : Option ℕ) → refers_orphan ids d o ≡ true → refers_in ids o ≡ true
orphan-none ids d none e = cc
orphan-none ids d (some i) e = ground (arith, e)

All-orphans :
    (ids : List ℕ) (d : Db) (id : ℕ) (vs : List Invoice)
    → All
        (λ (v : Invoice).
          refers_in ids v.resulting_ledger_entry_id ≡ true → (v.holding_id == id) ≡ true)
        vs
    → All
        (λ (v : Invoice).
          refers_orphan ids d v.resulting_ledger_entry_id ≡ true → (v.holding_id == id) ≡ true)
        vs
All-orphans ids d id [] h = tt
All-orphans ids d id (v ∷ vs) h =
    (λ e. h.0 (orphan-none ids d v.resulting_ledger_entry_id e), All-orphans ids d id vs h.1)

-- `vs` are the invoices before those of the holding were deleted
pub ledger-pass :
    (id : ℕ) (ids : List ℕ) (d : Db) (vs : List Invoice)
    → d.invoices.rows ≡ filter_by (λ v. not (v.holding_id == id)) vs
    → All
        (λ (v : Invoice).
          refers_in ids v.resulting_ledger_entry_id ≡ true → (v.holding_id == id) ≡ true)
        vs
    → delete_ledger id ids d ≡ (ok tt, after_ledger id ids d)
ledger-pass id [] d vs e own = refl
ledger-pass id (i ∷ ids) d vs e own =
    let d' = delete_links id (unlink_entries (i ∷ ids) d) in
    guarded-last (entries_referenced (i ∷ ids)) (delete_orphans (i ∷ ids)) d' (
      or_false _ _
        (or_false _ _
          (or_false _ _
            (any_of-unmatched (λ (l : LedgerEntryHoldingLink). l.ledger_entry_id) (is_in (i ∷ ids))
              d'.links.rows)
            (any_of-cleared
              (λ (r : PaymentRequest). refers_in (i ∷ ids) r.resulting_ledger_entry_id)
              (λ r. refers_orphan (i ∷ ids) d' r.resulting_ledger_entry_id)
              (λ r. record r { resulting_ledger_entry_id = none }) (λ r h. refl)
              (λ r h. orphan-refers (i ∷ ids) d' r.resulting_ledger_entry_id h) d.requests.rows))
          (ap (any_of (λ (v : Invoice). refers_orphan (i ∷ ids) d' v.resulting_ledger_entry_id)) e
            ∙ any_of-filter_not (λ v. v.holding_id == id)
                (λ v. refers_orphan (i ∷ ids) d' v.resulting_ledger_entry_id) vs
                (All-orphans (i ∷ ids) d' id vs own)))
        (any_of-cleared (λ (c : CustodialEntry). refers_in (i ∷ ids) c.linked_chain_ledger_entry_id)
          (λ c. refers_orphan (i ∷ ids) d' c.linked_chain_ledger_entry_id)
          (λ c. record c { linked_chain_ledger_entry_id = none }) (λ c h. refl)
          (λ c h. orphan-refers (i ∷ ids) d' c.linked_chain_ledger_entry_id h) d.mirror.rows))
