-- ===== src/Repositories/Invoices.antt =====
-- backend/tallykeep/repositories/invoice.py.
use tallykeep.Prelude.{ℕ, Bool, Option, none, some, if◌then◌else◌}
use tallykeep.Errors.{Result, ok, err, value_error}
use tallykeep.Table.{get, modify, add}
use tallykeep.Domain.Enums.{paid, overpaid, invoice_cancelled, is_open_invoice}
use tallykeep.Domain.Payment.{Invoice, invoice_key, new_invoice}
use tallykeep.Db.{Db}
use tallykeep.Db.Session.{Session}

-- `_row_to_domain` on a row that may be missing
abbrev pub build_invoice : Option Invoice → Result (Option Invoice)
build_invoice none = ok none
build_invoice (some r) = elim (new_invoice r) [ ok v ↦ ok (some v) | err e ↦ err e ]

-- `insert`
unfoldable pub invoice_insert : Invoice → Db → Db
invoice_insert v d = record d { invoices = add v d.invoices }

-- A write to one row, which returns the row as a domain object.
abbrev pub write_invoice : ℕ → (Invoice → Invoice) → Session (Option Invoice)
write_invoice id f d =
    let t = modify id f d.invoices in (build_invoice (get id t), record d { invoices = t })

abbrev pub as_paid : ℕ → Bool → Invoice → Invoice
as_paid entry_id is_overpaid v = record v {
  resulting_ledger_entry_id = some entry_id;
  status = if is_overpaid then overpaid else paid;
}

-- `mark_paid`
unfoldable pub mark_paid : ℕ → ℕ → Bool → Session (Option Invoice)
mark_paid id entry_id is_overpaid = write_invoice id (as_paid entry_id is_overpaid)

abbrev pub as_invoice_cancelled : Invoice → Invoice
as_invoice_cancelled v = record v { status = invoice_cancelled }

abbrev pub invoice_cancel_found : ℕ → Option Invoice → Session (Option Invoice)
invoice_cancel_found id none d = (ok none, d)
invoice_cancel_found id (some v) d =
    if is_open_invoice v.status
    then write_invoice id as_invoice_cancelled d
    else (err value_error, d)

-- `cancel`
unfoldable pub invoice_cancel : ℕ → Session (Option Invoice)
invoice_cancel id d = invoice_cancel_found id (get id d.invoices) d
