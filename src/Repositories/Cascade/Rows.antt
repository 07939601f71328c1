-- ===== src/Repositories/Cascade/Rows.antt =====
-- What no row satisfies after a deletion or an assignment to many rows.
use tallykeep.Prelude.{
  ◌≡◌, refl, ℕ, Bool, true, false, not, ◌&&◌, ◌==◌, ==_iff, List, [], ◌∷◌, arith, inl, inr,
  Bool-cases, any_of, map, filter_by, All, if◌then◌else◌,
}

module _ {R : Type 0} (p q : R → Bool) where
  -- the rows with `q` were among those that were deleted
  pub any_of-filter_not :
      (rs : List R)
      → All (λ r. q r ≡ true → p r ≡ true) rs
      → any_of q (filter_by (λ r. not (p r)) rs) ≡ false
  any_of-filter_not [] h = refl
  any_of-filter_not (r ∷ rs) h = ground (arith, h.0, any_of-filter_not rs h.1)

  -- the assignment takes `q` from the rows with `p`, and no other row has it
  pub any_of-cleared :
      (f : R → R)
      → ((r : R) → p r ≡ true → q (f r) ≡ false)
      → ((r : R) → p r ≡ false → q r ≡ false)
      → (rs : List R) → any_of q (map (λ r. if p r then f r else r) rs) ≡ false
  any_of-cleared f cleared other [] = refl
  any_of-cleared f cleared other (r ∷ rs) =
      ground (arith, cleared r, other r, any_of-cleared f cleared other rs)

  -- an assignment that leaves `q` alone
  pub any_of-kept :
      (f : R → R)
      → ((r : R) → q (f r) ≡ q r)
      → (rs : List R) → any_of q (map (λ r. if p r then f r else r) rs) ≡ any_of q rs
  any_of-kept f same [] = refl
  any_of-kept f same (r ∷ rs) = ground (arith, same r, any_of-kept f same rs)

module _ {R : Type 0} where
  pub All-true : (p : R → Bool) (rs : List R) → All (λ r. p r ≡ true → p r ≡ true) rs
  All-true p [] = tt
  All-true p (r ∷ rs) = ((λ h. h), All-true p rs)

  pub All-kept :
      (P : R → Type 0) (p : R → Bool) (f : R → R)
      → ((r : R) → P r → P (f r))
      → (rs : List R) → All P rs
      → All P (map (λ r. if p r then f r else r) rs)
  All-kept P p f keep [] h = tt
  All-kept P p f keep (r ∷ rs) h = elim (Bool-cases (p r)) [
    | inl e ↦ rw e (keep r h.0, All-kept P p f keep rs h.1)
    | inr e ↦ rw e (h.0, All-kept P p f keep rs h.1)
  ]

  -- each row's key is the key of a row
  any_of-more :
      (key : R → ℕ) (i : ℕ) (r : R) (rs : List R)
      → any_of (λ m. key m == i) rs ≡ true
      → any_of (λ m. key m == i) (r ∷ rs) ≡ true
  any_of-more key i r rs h = ground (arith, h)

  unmatched :
      (key : R → ℕ) (p : ℕ → Bool) (all rs : List R)
      → ((r : R) → any_of (λ m. key m == key r) rs ≡ true → any_of (λ m. key m == key r) all ≡ true)
      → any_of (λ r. p (key r) && not (any_of (λ m. key m == key r) all)) rs ≡ false
  unmatched key p all [] inside = refl
  unmatched key p all (r ∷ rs) inside = ground (
    arith,
    (==_iff (key r) (key r)).1 refl,
    inside r,
    unmatched key p all rs (λ m h. inside m (any_of-more key (key m) r rs h)),
  )

  pub any_of-unmatched :
      (key : R → ℕ) (p : ℕ → Bool) (rs : List R)
      → any_of (λ r. p (key r) && not (any_of (λ m. key m == key r) rs)) rs ≡ false
  any_of-unmatched key p rs = unmatched key p rs rs (λ r h. h)
