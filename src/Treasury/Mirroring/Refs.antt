-- ===== src/Treasury/Mirroring/Refs.antt =====
-- The references of mirrored entries: when two are the same, and what a change of one entry does to the
-- entries with another reference.
use tallykeep.Prelude.{
  ℕ, Bool, true, false, ◌≡◌, refl, ◌∙◌, List, [], ◌∷◌, ◌++◌, filter_by, arith, str_eq_iff,
  Bool-cases, inl, inr,
}
use tallykeep.Table.{modify_first}
use tallykeep.Domain.Mirror.{CustodialEntry}
use tallykeep.Repositories.Mirror.{same_ref, overwrite}

pub same_ref_refl : (e : CustodialEntry) → same_ref e e ≡ true
same_ref_refl e = ground (arith, str_eq_iff e.provider_entry_id e.provider_entry_id)

-- entries that share a reference with the same entry share one
pub same_ref-shared : (a b r : CustodialEntry) → same_ref a r ≡ true → same_ref a b ≡ same_ref r b
same_ref-shared a b r h = ground (
  arith,
  str_eq_iff r.provider_entry_id a.provider_entry_id,
  str_eq_iff b.provider_entry_id a.provider_entry_id,
  str_eq_iff b.provider_entry_id r.provider_entry_id,
)

pub same_ref-sym : (a b : CustodialEntry) → same_ref a b ≡ same_ref b a
same_ref-sym a b = ground (
  arith,
  str_eq_iff a.provider_entry_id b.provider_entry_id,
  str_eq_iff b.provider_entry_id a.provider_entry_id,
)

-- a row with one reference has not another
pub same_ref-apart :
    (a b r : CustodialEntry) → same_ref a b ≡ false → same_ref a r ≡ true → same_ref b r ≡ false
same_ref-apart a b r h k = same_ref-sym b r ∙ cc (same_ref-shared a b r k, h)

pub filter_by-append :
    (p : CustodialEntry → Bool) (xs ys : List CustodialEntry)
    → filter_by p (xs ++ ys) ≡ filter_by p xs ++ filter_by p ys
filter_by-append p [] ys = refl
filter_by-append p (x ∷ xs) ys = ground (arith, filter_by-append p xs ys)

module _ (e : CustodialEntry) (now : ℕ) where
  -- the entries with another reference stay
  pub overwrite-others :
      (a : CustodialEntry) (rows : List CustodialEntry)
      → same_ref e a ≡ false
      → filter_by (same_ref a) (modify_first (same_ref e) (overwrite e now) rows)
        ≡ filter_by (same_ref a) rows
  overwrite-others a [] h = refl
  overwrite-others a (r ∷ rows) h = elim (Bool-cases (same_ref e r)) [
    | inl hit ↦ let apart = same_ref-apart e a r h hit in ground arith
    | inr miss ↦ ground (arith, overwrite-others a rows h)
  ]

  -- the entry with the reference, where there is one, is overwritten
  pub overwrite-own :
      (x : CustodialEntry) (rows : List CustodialEntry)
      → filter_by (same_ref e) rows ≡ x ∷ []
      → filter_by (same_ref e) (modify_first (same_ref e) (overwrite e now) rows)
        ≡ overwrite e now x ∷ []
  overwrite-own x [] h = ground arith
  overwrite-own x (r ∷ rows) h = elim (Bool-cases (same_ref e r)) [
    | inl hit ↦ ground arith
    | inr miss ↦ ground (arith, overwrite-own x rows)
  ]
