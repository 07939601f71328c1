-- ===== src/Repositories/Descriptors.antt =====
-- backend/tallykeep/repositories/descriptor.py: the reads that the services use.
use tallykeep.Prelude.{
  ℕ, Bool, false, not, ◌&&◌, Option, none, some, List, [], ◌∷◌, ◌==◌, ltb, if◌then◌else◌, is_none,
  any_of,
}
use tallykeep.Table.{Table, select}
use tallykeep.Domain.Enums.{is_open_invoice}
use tallykeep.Domain.Payment.{Invoice}
use tallykeep.Domain.Chain.{Descriptor, Address, new_descriptor}
use tallykeep.Db.{Db}
use tallykeep.Db.Session.{Session}
use tallykeep.Errors.{build_all}

-- `list_descriptors_for_holding`. `ORDER BY created_at` leaves the order of rows open that one transaction
-- has inserted, since they share that time; here the rows are in the order in which they were inserted.
abbrev pub list_descriptors_for_holding : ℕ → Session (List Descriptor)
list_descriptors_for_holding id d =
    (build_all new_descriptor (select (λ x. x.holding_id == id) d.descriptors), d)

abbrev pub holds_address : ℕ → Invoice → Bool
holds_address id v =
    is_open_invoice v.status && elim v.receiving_address_id [ none ↦ false | some a ↦ a == id ]

-- `id in reserved_subq`
abbrev pub is_reserved : ℕ → Table Invoice → Bool
is_reserved id t = any_of (holds_address id) t.rows

abbrev pub is_unused : ℕ → Bool → Table Invoice → Address → Bool
is_unused descriptor_id is_change t a =
    a.descriptor_id == descriptor_id
    && (if is_change then a.is_change else not a.is_change)
    && is_none a.first_seen_height
    && not (is_reserved a.id t)

-- the first row of `order_by(derivation_index).limit(1)`
abbrev pub lower : Address → Option Address → Option Address
lower a none = some a
lower a (some b) = if ltb b.derivation_index a.derivation_index then some b else some a

abbrev pub lowest : List Address → Option Address
lowest [] = none
lowest (a ∷ rest) = lower a (lowest rest)

-- `next_unused_address`
unfoldable pub next_unused_address : ℕ → Bool → Db → Option Address
next_unused_address descriptor_id is_change d =
    lowest (select (is_unused descriptor_id is_change d.invoices) d.addresses)
