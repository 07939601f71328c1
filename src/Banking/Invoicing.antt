-- ===== src/Banking/Invoicing.antt =====
-- `create_invoice` of backend/tallykeep/services/banking_service.py.
pub mod Unused
pub mod Reserved
use Prim.Native.String.{◌++◌ as text_append}
use tallykeep.Prelude.{
  false, ℕ, String, Option, none, some, List, [], ◌∷◌, if◌then◌else◌, ℤ, str_eq,
}
use tallykeep.Errors.{
  Result, ok, err, holding_not_found, holding_cannot_receive, invoice_error, no_unused_address,
}
use tallykeep.Table.{modify}
use tallykeep.Domain.Enums.{onchain, open_invoice, is_account}
use tallykeep.Domain.Payment.{Invoice, new_invoice}
use tallykeep.Domain.Chain.{Descriptor, Address, address_key}
use tallykeep.Db.{Db}
use tallykeep.Db.Session.{Session, pure, lift, or_raise, raise_if, write, ◌>>=◌, ◌>>◌}
use tallykeep.Repositories.Holdings.{holding_get, descriptor_ids_for_holding}
use tallykeep.Repositories.Descriptors.{list_descriptors_for_holding, next_unused_address}
use tallykeep.Repositories.Invoices.{invoice_insert}
use tallykeep.Banking.Outside.{Texts}

-- the first descriptor of the holding
abbrev pub first_of : List Descriptor → Result Descriptor
first_of [] = err invoice_error
first_of (x ∷ _) = ok x

-- `update_address_label`
abbrev pub update_address_label : ℕ → String → Db → Db
update_address_label id label d = record d {
  addresses = modify id (λ a. record a { label = some label }) d.addresses;
}

-- the arguments of `create_invoice`
pub record InvoiceOrder : Type 0 where
  pub holding_id : ℕ
  pub amount_sats : Option ℤ
  pub description : Option String

module _ (texts : Texts) where
  -- a description that is neither missing nor empty, after `separator`
  abbrev pub label_query : String → Option String → String
  label_query separator none = ""
  label_query separator (some s) = if str_eq s "" then "" else text_append separator (texts.quote s)

  abbrev pub invoice_query : InvoiceOrder → String
  invoice_query o = elim o.amount_sats [
    | none ↦ label_query "?label=" o.description
    | some n ↦
        text_append (text_append "?amount=" (texts.amount_text n))
          (label_query "&label=" o.description)
  ]

  abbrev pub invoice_of : ℕ → ℕ → InvoiceOrder → Address → Invoice
  invoice_of now new_id o a = record {
    id = new_id;
    holding_id = o.holding_id;
    invoice_type = onchain;
    amount_sats = o.amount_sats;
    description = o.description;
    status = open_invoice;
    expires_at = none;
    created_at = now;
    receiving_address = some a.address;
    receiving_address_id = some a.id;
    bip21_uri = some (text_append (text_append "bitcoin:" a.address) (invoice_query o));
    bolt11 = none;
    payment_hash = none;
    resulting_ledger_entry_id = none;
  }

  -- the label, the constructor and the insert, with the label's text as `reserved`
  unfoldable pub reserve : ℕ → ℕ → String → InvoiceOrder → Address → Session Invoice
  unfolding invoice_insert
  reserve now new_id reserved o a = do
    write (update_address_label a.id reserved)
    invoice ← lift (new_invoice (invoice_of now new_id o a))
    write (invoice_insert invoice)
    pure invoice

  -- `create_invoice`; the reads before the writes all see the database `d`
  unfoldable pub create_invoice : ℕ → ℕ → String → InvoiceOrder → Session Invoice
  create_invoice now new_id reserved o d =
      (do
        found ← holding_get o.holding_id (descriptor_ids_for_holding o.holding_id d) none
        holding ← or_raise found holding_not_found
        raise_if (is_account holding.holding_type) holding_cannot_receive
        descriptors ← list_descriptors_for_holding o.holding_id
        primary ← lift (first_of descriptors)
        address ← or_raise (next_unused_address primary.id false d) no_unused_address
        reserve now new_id reserved o address)
        d
