-- ===== src/Repositories/Cascade/Completing.antt =====
-- The deletion of a holding as a whole.
use tallykeep.Prelude.{
  ◌≡◌, refl, ◌∙◌, ap, ℕ, Bool, true, false, ◌||◌, ◌==◌, none, some, List, [], ◌∷◌, any_of, All,
  if◌then◌else◌,
}
use tallykeep.Errors.{ok}
use tallykeep.Table.{Table, get}
use tallykeep.Table.Laws.{get-delete}
use tallykeep.Domain.Payment.{PaymentRequest, Invoice}
use tallykeep.Domain.Chain.{Descriptor, LedgerEntryHoldingLink}
use tallykeep.Domain.Provider.{CustodialProvider}
use tallykeep.Domain.Health.{SecurityHealthItem}
use tallykeep.Domain.Mirror.{CustodialEntry}
use tallykeep.Db.{Db, HoldingTypeChange, HoldingRow, holding_key}
use tallykeep.Db.Session.{pure}
use tallykeep.Repositories.Cascade.{
  refers, is_in, refers_in, touches, execution_ids, candidate_ids, provider_ids,
  delete_type_changes, delete_providers, holding_referenced, delete_row, delete_ledger,
  delete_chain_side, delete_sweeps, delete_payments, delete_cascade, delete_found,
}
use tallykeep.Repositories.Cascade.Rows.{
  any_of-filter_not, any_of-cleared, any_of-kept, All-true, All-kept,
}
use tallykeep.Repositories.Cascade.Deletable.{
  guarded-pass, run_then, sweeps-pass, chain_side-pass, payments-pass, ledger-pass, or_false,
  after_sweeps, after_chain_side, after_payments, after_ledger, IsLinked, has_reserved,
}

-- the database once everything but the row itself is gone
abbrev before_row : ℕ → Db → Db
before_row id d =
    let p = after_payments id (after_chain_side id (after_sweeps id (delete_type_changes id d))) in
    delete_providers id (after_ledger id (candidate_ids id d) p)

-- where nothing but links, the provider and its entries refers to the holding, nothing does in the end
row-free :
    (id : ℕ) (ids : List ℕ) (p : Db)
    → any_of (λ (c : HoldingTypeChange). c.holding_id == id) p.type_changes.rows ≡ false
    → any_of (touches id) p.policies.rows ≡ false
    → any_of (λ (x : Descriptor). x.holding_id == id) p.descriptors.rows ≡ false
    → any_of (λ (r : PaymentRequest). r.holding_id == id) p.requests.rows ≡ false
    → any_of (λ (v : Invoice). v.holding_id == id) p.invoices.rows ≡ false
    → All
        (λ (c : CustodialEntry).
          (c.holding_id == id) ≡ true → is_in (provider_ids id p) c.custodial_provider_id ≡ true)
        p.mirror.rows
    → holding_referenced id (delete_providers id (after_ledger id ids p)) ≡ false
row-free id ids p log policies descriptors requests invoices own =
    or_false _ _
      (or_false _ _
        (or_false _ _
          (or_false _ _
            (or_false _ _
              (or_false _ _ (or_false _ _ (same_log ids) (same_policies ids))
                (same_descriptors ids))
              (no_requests ids))
            (same_invoices ids))
          (no_links ids))
        (no_providers ids))
      (no_mirror ids)
  where
    same_log :
        (js : List ℕ)
        → any_of
            (λ (c : HoldingTypeChange). c.holding_id == id)
            (after_ledger id js p).type_changes.rows
          ≡ false
    same_log [] = log
    same_log (j ∷ js) = log

    same_policies : (js : List ℕ) → any_of (touches id) (after_ledger id js p).policies.rows ≡ false
    same_policies [] = policies
    same_policies (j ∷ js) = policies

    same_descriptors :
        (js : List ℕ)
        → any_of (λ (x : Descriptor). x.holding_id == id) (after_ledger id js p).descriptors.rows
          ≡ false
    same_descriptors [] = descriptors
    same_descriptors (j ∷ js) = descriptors

    same_invoices :
        (js : List ℕ)
        → any_of (λ (v : Invoice). v.holding_id == id) (after_ledger id js p).invoices.rows ≡ false
    same_invoices [] = invoices
    same_invoices (j ∷ js) = invoices

    no_requests :
        (js : List ℕ)
        → any_of (λ (r : PaymentRequest). r.holding_id == id) (after_ledger id js p).requests.rows
          ≡ false
    no_requests [] = requests
    no_requests (j ∷ js) =
        any_of-kept (λ (r : PaymentRequest). refers_in (j ∷ js) r.resulting_ledger_entry_id)
          (λ r. r.holding_id == id) (λ r. record r { resulting_ledger_entry_id = none }) (λ r. refl)
          p.requests.rows
        ∙ requests

    no_links :
        (js : List ℕ)
        → any_of
            (λ (l : LedgerEntryHoldingLink). l.holding_id == id)
            (after_ledger id js p).links.rows
          ≡ false
    no_links [] =
        any_of-filter_not (λ l. l.holding_id == id) (λ l. l.holding_id == id) p.links.rows
          (All-true _ p.links.rows)
    no_links (j ∷ js) =
        any_of-filter_not (λ l. l.holding_id == id) (λ l. l.holding_id == id) p.links.rows
          (All-true _ p.links.rows)

    no_providers :
        (js : List ℕ)
        → any_of
            (λ (q : CustodialProvider). q.holding_id == id)
            (delete_providers id (after_ledger id js p)).providers.rows
          ≡ false
    no_providers js =
        any_of-filter_not (λ (q : CustodialProvider). q.holding_id == id) (λ q. q.holding_id == id)
          (after_ledger id js p).providers.rows (All-true _ (after_ledger id js p).providers.rows)

    no_mirror :
        (js : List ℕ)
        → any_of
            (λ (c : CustodialEntry). c.holding_id == id)
            (delete_providers id (after_ledger id js p)).mirror.rows
          ≡ false
    no_mirror [] =
        any_of-filter_not (λ c. is_in (provider_ids id p) c.custodial_provider_id)
          (λ c. c.holding_id == id) p.mirror.rows own
    no_mirror (j ∷ js) =
        any_of-filter_not (λ c. is_in (provider_ids id p) c.custodial_provider_id)
          (λ c. c.holding_id == id) _
          (All-kept
            (λ (c : CustodialEntry).
              (c.holding_id == id) ≡ true
              → is_in (provider_ids id p) c.custodial_provider_id ≡ true)
            (λ c. refers_in (j ∷ js) c.linked_chain_ledger_entry_id)
            (λ c. record c { linked_chain_ledger_entry_id = none }) (λ c k. k) p.mirror.rows own)

unreferenced : (id : ℕ) (d : Db) → IsLinked id d → holding_referenced id (before_row id d) ≡ false
unreferenced id d linked =
    let d4 = after_payments id (after_chain_side id (after_sweeps id (delete_type_changes id d))) in
    row-free id (candidate_ids id d) d4
      (any_of-filter_not (λ c. c.holding_id == id) (λ c. c.holding_id == id) d.type_changes.rows
        (All-true _ d.type_changes.rows))
      (any_of-filter_not (touches id) (touches id) d.policies.rows (All-true _ d.policies.rows))
      (any_of-filter_not (λ x. x.holding_id == id) (λ x. x.holding_id == id) d.descriptors.rows
        (All-true _ d.descriptors.rows))
      (any_of-filter_not (λ r. r.holding_id == id) (λ r. r.holding_id == id) _ (All-true _ _))
      (any_of-filter_not (λ v. v.holding_id == id) (λ v. v.holding_id == id) d.invoices.rows
        (All-true _ d.invoices.rows))
      (All-kept
        (λ (c : CustodialEntry).
          (c.holding_id == id) ≡ true → is_in (provider_ids id d) c.custodial_provider_id ≡ true)
        (λ c. refers_in (execution_ids id d) c.linked_sweep_execution_id)
        (λ c. record c { linked_sweep_execution_id = none }) (λ c k. k) d.mirror.rows
        linked.own_mirror)

found-pass :
    (id : ℕ) (row : HoldingRow) (d : Db)
    → IsLinked id d
    → has_reserved id d ≡ false
    → delete_found id (some row) d ≡ (ok true, delete_row id (before_row id d))
found-pass id row d linked none_reserved =
    let d1 = delete_type_changes id d in
    let d2 = after_sweeps id d1 in
    let d3 = after_chain_side id d2 in
    let d4 = after_payments id d3 in
    run_then (delete_sweeps id) _ d1 d2 (sweeps-pass id d1)
    ∙ run_then (delete_chain_side id) _ d2 d3
        (chain_side-pass id d2 linked.utxos_at_addresses linked.no_whitelist none_reserved)
    ∙ run_then (delete_payments id) _ d3 d4 (payments-pass id d3)
    ∙ run_then (λ x. delete_ledger id (candidate_ids id x) x) _ d4
        (after_ledger id (candidate_ids id d) d4)
        (ledger-pass id (candidate_ids id d) d4 d.invoices.rows refl linked.own_settlements)
    ∙ guarded-pass (holding_referenced id) (delete_row id) (pure true)
        (delete_providers id (after_ledger id (candidate_ids id d) d4)) (unreferenced id d linked)

-- a row of the database still names the holding
abbrev pub is_mentioned : ℕ → Db → Bool
is_mentioned id d =
    holding_referenced id d
    || any_of (λ (c : CustodialEntry). refers id c.linked_counterparty_holding_id) d.mirror.rows
    || any_of (λ (i : SecurityHealthItem). refers id i.holding_id) d.health_items.rows

row-unmentioned :
    (id : ℕ) (d : Db) → holding_referenced id d ≡ false → is_mentioned id (delete_row id d) ≡ false
row-unmentioned id d h =
    or_false _ _
      (or_false _ _
        (ap
            (λ b.
              any_of (λ (c : HoldingTypeChange). c.holding_id == id) d.type_changes.rows
              || any_of (touches id) d.policies.rows
              || any_of (λ (x : Descriptor). x.holding_id == id) d.descriptors.rows
              || any_of (λ (r : PaymentRequest). r.holding_id == id) d.requests.rows
              || any_of (λ (v : Invoice). v.holding_id == id) d.invoices.rows
              || any_of (λ (l : LedgerEntryHoldingLink). l.holding_id == id) d.links.rows
              || any_of (λ (p : CustodialProvider). p.holding_id == id) d.providers.rows
              || b)
            (any_of-kept (λ (c : CustodialEntry). refers id c.linked_counterparty_holding_id)
              (λ c. c.holding_id == id) (λ c. record c { linked_counterparty_holding_id = none })
              (λ c. refl) d.mirror.rows)
          ∙ h)
        (any_of-cleared (λ (c : CustodialEntry). refers id c.linked_counterparty_holding_id)
          (λ c. refers id c.linked_counterparty_holding_id)
          (λ c. record c { linked_counterparty_holding_id = none }) (λ c e. refl) (λ c e. e)
          d.mirror.rows))
      (any_of-filter_not (λ i. refers id i.holding_id) (λ i. refers id i.holding_id)
        d.health_items.rows (All-true _ d.health_items.rows))

same_holdings : (id : ℕ) (ids : List ℕ) (p : Db) → (after_ledger id ids p).holdings ≡ p.holdings
same_holdings id [] p = refl
same_holdings id (i ∷ ids) p = refl

-- Deleting a stored holding runs through all its statements where no invoice has been given one of its
-- addresses, no provider's whitelist address is of one of its descriptors, the UTXOs at its addresses are of
-- its descriptors, the invoices that its ledger entries settled are its own, and its mirrored entries are
-- of its provider. Then no row names the holding any more, it is gone, and every other holding is stored
-- as before.
pub delete_cascade-deletes :
    (id : ℕ) (row : HoldingRow) (d : Db)
    → get id d.holdings ≡ some row
    → IsLinked id d
    → has_reserved id d ≡ false
    → (d' : Db) × (delete_cascade id d ≡ (ok true, d'))
      × (is_mentioned id d' ≡ false)
      × ((j : ℕ) → get j d'.holdings ≡ (if id == j then none else get j d.holdings))
unfolding delete_cascade
delete_cascade-deletes id row d found linked none_reserved = (
  delete_row id (before_row id d),
  ap (λ o. delete_found id o d) found ∙ found-pass id row d linked none_reserved,
  row-unmentioned id (before_row id d) (unreferenced id d linked),
  λ j.
      get-delete id j (before_row id d).holdings
      ∙ ap (λ (t : Table HoldingRow). if id == j then none else get j t)
          (same_holdings id (candidate_ids id d) _),
)
