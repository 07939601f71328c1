-- ===== src/Banking/Invoicing/Reserved.antt =====
-- No two open invoices wait on the same address.
use tallykeep.Prelude.{
  ◌≡◌, refl, sym, subst, ap, ℕ, String, Bool, true, false, Option, none, some, List, [], ◌∷◌, ◌++◌,
  arith, inl, inr, Bool-cases, ◌==◌, ◌≤◌, count, count-append, count-any_of, append_nil,
}
use tallykeep.Errors.{Result, ok, err, holding_not_found, holding_cannot_receive, no_unused_address}
use tallykeep.Table.{get, modify, modify_first}
use tallykeep.Table.Laws.{count-modify_first}
use tallykeep.Domain.Enums.{is_open_invoice, is_account}
use tallykeep.Domain.Payment.{Invoice, invoice_key, new_invoice, new_invoice-same}
use tallykeep.Domain.Chain.{Address}
use tallykeep.Db.{Db, flush_all}
use tallykeep.Db.Session.{Session, state_read, state_or_raise, state_raise_if, lift}
use tallykeep.Db.Keeps.{committed}
use tallykeep.Repositories.Holdings.{holding_get, descriptor_ids_for_holding}
use tallykeep.Repositories.Descriptors.{
  holds_address, is_reserved, next_unused_address, list_descriptors_for_holding,
}
use tallykeep.Repositories.Invoices.{
  invoice_insert, mark_paid, as_paid, as_invoice_cancelled, invoice_cancel, invoice_cancel_found,
}
use tallykeep.Banking.Outside.{Texts}
use tallykeep.Banking.Invoicing.Unused.{next_unused_address-IsLeast}
use tallykeep.Banking.Invoicing.{
  InvoiceOrder, invoice_of, update_address_label, first_of, reserve, create_invoice,
}

-- At most one open invoice of the session holds an address, the pending ones counted too.
pub record AtMostOneEach (d : Db) : Type 0 where
  pub at_most_one :
      (address_id : ℕ)
      → count (holds_address address_id) (d.invoices.rows ++ d.invoices.pending) ≤ 1

-- between two calls nothing is pending
pub record AreReserved (d : Db) : Type 0 where
  pub each : AtMostOneEach d
  pub none_pending : d.invoices.pending ≡ []

insert-AtMostOneEach :
    (d : Db) (v : Invoice) (a : ℕ)
    → AreReserved d
    → v.receiving_address_id ≡ some a
    → is_reserved a d.invoices ≡ false
    → AtMostOneEach (invoice_insert v d)
unfolding invoice_insert
insert-AtMostOneEach d v a s holds free = record { at_most_one = added }
  where
    none_there : (i : ℕ) → holds_address i v ≡ true → count (holds_address i) d.invoices.rows ≡ 0
    none_there i e =
        subst (λ x. count (holds_address x) d.invoices.rows ≡ 0) (ground arith)
          (count-any_of (holds_address a) d.invoices.rows free)

    bound : (i : ℕ) → count (holds_address i) d.invoices.rows ≤ 1
    bound i = ground (
      arith,
      s.each.at_most_one i,
      count-append (holds_address i) d.invoices.rows d.invoices.pending,
    )

    added :
        (i : ℕ) → count (holds_address i) (d.invoices.rows ++ (d.invoices.pending ++ (v ∷ []))) ≤ 1
    added i =
        rw (s.none_pending, count-append (holds_address i) d.invoices.rows (v ∷ []))
          (ground (arith, bound i, none_there i))

-- an invoice that is rewritten to one that is not open frees its address
with_invoice-AtMostOneEach :
    (id : ℕ) (f : Invoice → Invoice) (d : Db)
    → ((v : Invoice) → is_open_invoice (f v).status ≡ false)
    → AtMostOneEach d
    → AtMostOneEach (record d { invoices = modify id f d.invoices })
unfolding modify
with_invoice-AtMostOneEach id f d closed h = record {
  at_most_one = λ i. ground (
    arith,
    h.at_most_one i,
    fewer i,
    count-append (holds_address i) d.invoices.rows d.invoices.pending,
    count-append (holds_address i) (modify_first (λ (v : Invoice). v.id == id) f d.invoices.rows)
        d.invoices.pending,
  );
}
  where
    fewer :
        (i : ℕ)
        → count (holds_address i) (modify_first (λ (v : Invoice). v.id == id) f d.invoices.rows)
          ≤ count (holds_address i) d.invoices.rows
    fewer i =
        count-modify_first (holds_address i) _ f d.invoices.rows
          (λ v found p. ground (arith, closed v))

-- what an API call or the chain listener does to the invoices
pub data InvoiceCall : Type 0 where
  issue : ℕ → String → InvoiceOrder → InvoiceCall
  call_off : ℕ → InvoiceCall
  pay : ℕ → ℕ → Bool → InvoiceCall

module _ (texts : Texts) where
  -- the database after the call at the time `now`
  unfoldable pub serve_invoice : ℕ → InvoiceCall → Db → Db
  serve_invoice now (issue new_id reserved o) =
      committed (create_invoice texts now new_id reserved o)
  serve_invoice now (call_off id) = committed (invoice_cancel id)
  serve_invoice now (pay id entry_id is_overpaid) = committed (mark_paid id entry_id is_overpaid)

  unfoldable pub serve_invoices : List (ℕ × InvoiceCall) → Db → Db
  serve_invoices [] d = d
  serve_invoices ((now, call) ∷ rest) d = serve_invoices rest (serve_invoice now call d)

  reserve-AtMostOneEach :
      (now new_id : ℕ) (reserved : String) (o : InvoiceOrder) (a : Address) (d : Db)
      → AreReserved d
      → is_reserved a.id d.invoices ≡ false
      → AtMostOneEach (reserve texts now new_id reserved o a d).1
  unfolding reserve
  reserve-AtMostOneEach now new_id reserved o a d s free =
      state_read AtMostOneEach labelled (record { at_most_one = s.each.at_most_one })
        (lift (new_invoice (invoice_of texts now new_id o a))) _ refl
        (λ v accepted.
          insert-AtMostOneEach labelled v a.id
            (record {
              each = record { at_most_one = s.each.at_most_one };
              none_pending = s.none_pending;
            })
            (ap (λ (w : Invoice). w.receiving_address_id) (new_invoice-same _ v accepted)) free)
    where
      labelled : Db
      labelled = update_address_label a.id reserved d

  create_invoice-AtMostOneEach :
      (now new_id : ℕ) (reserved : String) (o : InvoiceOrder) (d : Db)
      → AreReserved d
      → AtMostOneEach (create_invoice texts now new_id reserved o d).1
  unfolding create_invoice
  create_invoice-AtMostOneEach now new_id reserved o d s =
      state_read AtMostOneEach d s.each
        (holding_get o.holding_id (descriptor_ids_for_holding o.holding_id d) none) _ refl
        λ found _. state_or_raise AtMostOneEach d s.each found holding_not_found _ λ h _.
          state_raise_if AtMostOneEach d s.each (is_account h.holding_type) holding_cannot_receive _
            λ _.
              state_read AtMostOneEach d s.each (list_descriptors_for_holding o.holding_id) _ refl
                λ xs _. state_read AtMostOneEach d s.each (lift (first_of xs)) _ refl λ x _.
                  state_or_raise AtMostOneEach d s.each (next_unused_address x.id false d)
                    no_unused_address _
                    λ a handed.
                      reserve-AtMostOneEach now new_id reserved o a d s
                        (ground (arith, (next_unused_address-IsLeast x.id false d a handed).0))

  cancel-AtMostOneEach : (id : ℕ) (d : Db) → AtMostOneEach d → AtMostOneEach (invoice_cancel id d).1
  unfolding invoice_cancel
  cancel-AtMostOneEach id d h = cancelled (get id d.invoices)
    where
      cancelled : (o : Option Invoice) → AtMostOneEach (invoice_cancel_found id o d).1
      cancelled none = h
      cancelled (some v) = elim (Bool-cases (is_open_invoice v.status)) [
        | inl e ↦ rw e (with_invoice-AtMostOneEach id as_invoice_cancelled d (λ w. refl) h)
        | inr e ↦ rw e h
      ]

  pay-AtMostOneEach :
      (id entry_id : ℕ) (is_overpaid : Bool) (d : Db)
      → AtMostOneEach d
      → AtMostOneEach (mark_paid id entry_id is_overpaid d).1
  unfolding mark_paid
  pay-AtMostOneEach id entry_id is_overpaid d h =
      with_invoice-AtMostOneEach id (as_paid entry_id is_overpaid) d (λ v. ground arith) h

  flushed : (d : Db) → AtMostOneEach d → AreReserved (flush_all d)
  flushed d h = record {
    each = record {
      at_most_one = λ i.
          subst (λ vs. count (holds_address i) vs ≤ 1)
            (sym (append_nil (d.invoices.rows ++ d.invoices.pending))) (h.at_most_one i);
    };
    none_pending = refl;
  }

  committed-AreReserved :
      {A : Type 0} (m : Session A) (d : Db)
      → AreReserved d
      → AtMostOneEach (m d).1
      → AreReserved (committed m d)
  unfolding committed
  committed-AreReserved {A = A} m d s h = settled (m d).0
    where
      settled :
          (r : Result A)
          → AreReserved (elim r as (λ _. Db) [ ok _ ↦ flush_all (m d).1 | err _ ↦ d ])
      settled (ok a) = flushed (m d).1 h
      settled (err e) = s

  serve_invoice-AreReserved :
      (now : ℕ) (call : InvoiceCall) (d : Db)
      → AreReserved d
      → AreReserved (serve_invoice now call d)
  unfolding serve_invoice
  serve_invoice-AreReserved now (issue new_id reserved o) d s =
      committed-AreReserved _ d s (create_invoice-AtMostOneEach now new_id reserved o d s)
  serve_invoice-AreReserved now (call_off id) d s =
      committed-AreReserved _ d s (cancel-AtMostOneEach id d s.each)
  serve_invoice-AreReserved now (pay id entry_id is_overpaid) d s =
      committed-AreReserved _ d s (pay-AtMostOneEach id entry_id is_overpaid d s.each)

  -- Whatever invoices are created, cancelled and marked as paid, in whatever order: where at most one
  -- open invoice holds each address and nothing is pending before, it is so after.
  pub serve_invoices-AreReserved :
      (calls : List (ℕ × InvoiceCall)) (d : Db)
      → AreReserved d
      → AreReserved (serve_invoices calls d)
  unfolding serve_invoices
  serve_invoices-AreReserved [] d s = s
  serve_invoices-AreReserved ((now, call) ∷ rest) d s =
      serve_invoices-AreReserved rest _ (serve_invoice-AreReserved now call d s)
