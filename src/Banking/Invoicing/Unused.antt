-- ===== src/Banking/Invoicing/Unused.antt =====
-- Which address an invoice is handed.
use tallykeep.Prelude.{
  ◌≡◌, refl, ℕ, Bool, true, none, some, List, [], ◌∷◌, arith, inl, inr, Bool-cases, Option-cases,
  ◌≤◌, filter_by, All,
}
use tallykeep.Table.{select}
use tallykeep.Domain.Chain.{Address}
use tallykeep.Db.{Db}
use tallykeep.Repositories.Descriptors.{is_unused, lowest, next_unused_address}

lowest-All :
    (Q : Address → Type 0) (xs : List Address) (a : Address) → lowest xs ≡ some a → All Q xs → Q a
lowest-All Q [] a e h = cc
lowest-All Q (b ∷ rest) a e h = elim (Option-cases (lowest rest)) [
  | inl empty ↦ ground (arith, h.0)
  | inr (c, found) ↦ ground (arith, h.0, lowest-All Q rest c found h.1)
]

lowest-none : (xs : List Address) → lowest xs ≡ none → xs ≡ []
lowest-none [] e = refl
lowest-none (b ∷ rest) e = elim (Option-cases (lowest rest)) [
  | inl empty ↦ ground arith
  | inr (c, found) ↦ ground arith
]

-- no address of the list has a lower index
abbrev pub IsLeast : Address → List Address → Type 0
IsLeast a xs = All (λ (b : Address). a.derivation_index ≤ b.derivation_index) xs

below :
    (a b : Address) (xs : List Address)
    → a.derivation_index ≤ b.derivation_index
    → IsLeast b xs
    → IsLeast a xs
below a b [] le h = tt
below a b (c ∷ rest) le h = (omega (arith, le, h.0), below a b rest le h.1)

lowest-IsLeast : (xs : List Address) (a : Address) → lowest xs ≡ some a → IsLeast a xs
lowest-IsLeast [] a e = tt
lowest-IsLeast (b ∷ rest) a e = elim (Option-cases (lowest rest)) [
  | inl empty ↦ rw (lowest-none rest empty) (ground arith, tt)
  | inr (c, found) ↦
      (ground (arith, found), below a c rest (ground (arith, found)) (lowest-IsLeast rest c found))
]

filtered : (p : Address → Bool) (xs : List Address) → All (λ x. p x ≡ true) (filter_by p xs)
filtered p [] = tt
filtered p (x ∷ xs) = elim (Bool-cases (p x)) [
  | inl e ↦ rw e (e, filtered p xs)
  | inr e ↦ rw e (filtered p xs)
]

pub next_unused_address-IsLeast :
    (descriptor_id : ℕ) (is_change : Bool) (d : Db) (a : Address)
    → next_unused_address descriptor_id is_change d ≡ some a
    → (is_unused descriptor_id is_change d.invoices a ≡ true)
      × IsLeast a (select (is_unused descriptor_id is_change d.invoices) d.addresses)
unfolding next_unused_address
next_unused_address-IsLeast descriptor_id is_change d a e =
    let p = is_unused descriptor_id is_change d.invoices in
    (
      lowest-All (λ x. p x ≡ true) (filter_by p d.addresses.rows) a e (filtered p d.addresses.rows),
      lowest-IsLeast (filter_by p d.addresses.rows) a e,
    )
