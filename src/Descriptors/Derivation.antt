-- ===== src/Descriptors/Derivation.antt =====
-- Addresses in several steps: `DescriptorAdapter.derive_addresses` over a range, and over its parts.
use tallykeep.Prelude.{
  ℕ, zero, suc, ◌+◌, ◌≡◌, refl, sym, ap, ◌∙◌, List, [], ◌∷◌, ◌++◌, Bool, false, arith, pos, ltb_ℤ,
  Option, none, some, Option-cases, inl, inr,
}
use tallykeep.Errors.{Result, ok, err, ◌>>=◌}
use tallykeep.Domain.Enums.{Network}
use tallykeep.Descriptors.Parsing.{
  with_script, Script, Reader, DerivedAddress, derive_from, derive_addresses, parse,
}

-- one result after the other
abbrev pub both :
    Result (List DerivedAddress) → Result (List DerivedAddress) → Result (List DerivedAddress)
both first second = first >>= λ xs. second >>= λ ys. ok (xs ++ ys)

both-cons :
    (x : DerivedAddress) (first second : Result (List DerivedAddress))
    → (both first second >>= λ rest. ok (x ∷ rest)) ≡ both (first >>= λ rest. ok (x ∷ rest)) second
both-cons x (err e) second = refl
both-cons x (ok xs) (err e) = refl
both-cons x (ok xs) (ok ys) = refl

both-nil : (second : Result (List DerivedAddress)) → both (ok []) second ≡ second
both-nil (err e) = refl
both-nil (ok ys) = refl

derive_from-step :
    (d : Script) (start m n k : ℕ)
    → derive_from d (suc start) k
      ≡ both (derive_from d (suc start) m) (derive_from d (suc start + m) n)
    → derive_from d start (suc k)
      ≡ both (derive_from d start (suc m)) (derive_from d (suc start + m) n)
unfolding derive_from
derive_from-step d start m n k h = elim (Option-cases (d.derive start)) [
  | inl e ↦ rw (e, derive_from) refl
  | inr (a, e) ↦
      let first : DerivedAddress = record { address = a; derivation_index = start } in
      rw (e, derive_from)
        (ap (λ r. r >>= λ rest. ok (first ∷ rest)) h
          ∙ both-cons first (derive_from d (suc start) m) (derive_from d (suc start + m) n))
]

derive_from-split :
    (d : Script) (start m n : ℕ)
    → derive_from d start (m + n) ≡ both (derive_from d start m) (derive_from d (start + m) n)
unfolding derive_from
derive_from-split d start zero n =
    let left : zero + n ≡ n = omega arith in
    let right : start + zero ≡ start = omega arith in
    ap (derive_from d start) left
    ∙ ap (λ k. derive_from d k n) (sym right)
    ∙ sym (both-nil (derive_from d (start + zero) n))
derive_from-split d start (suc m) n =
    let left : suc m + n ≡ suc (m + n) = omega arith in
    let right : suc start + m ≡ start + suc m = omega arith in
    ap (derive_from d start) left
    ∙ derive_from-step d start m n (m + n) (derive_from-split d (suc start) m n)
    ∙ ap (λ k. both (derive_from d start (suc m)) (derive_from d k n)) right

split_through :
    {P : Type 0} (r : Result P) (o : Option Script) (f g h : Script → Result (List DerivedAddress))
    → ((d : Script) → f d ≡ both (g d) (h d))
    → (r >>= λ _. with_script o f) ≡ both (r >>= λ _. with_script o g) (r >>= λ _. with_script o h)
split_through (err e) o f g h each = refl
split_through (ok p) none f g h each = refl
split_through (ok p) (some d) f g h each = each d

not_negative : (n : ℕ) → ltb_ℤ (pos n) (pos 0) ≡ false
not_negative n = ground arith

module _ (bdk : Reader) where
  derive_addresses-natural :
      (expression : List ℕ) (network : Network) (start n : ℕ) (allow : Bool)
      → derive_addresses bdk expression network (pos start) (pos n) allow ≡ (
          parse bdk expression network allow >>= λ _.
          with_script (bdk expression network) (λ d. derive_from d start n))
  unfolding derive_addresses
  derive_addresses-natural expression network start n allow =
      rw (not_negative n, not_negative start) refl

  -- Deriving a range of addresses gives what deriving its first part and then the rest gives, in this
  -- order; where one of the two raises, so does the whole, with the first exception.
  pub derive_addresses-split :
      (expression : List ℕ) (network : Network) (start m n : ℕ) (allow : Bool)
      → derive_addresses bdk expression network (pos start) (pos (m + n)) allow
        ≡ both
            (derive_addresses bdk expression network (pos start) (pos m) allow)
            (derive_addresses bdk expression network (pos (start + m)) (pos n) allow)
  derive_addresses-split expression network start m n allow =
      derive_addresses-natural expression network start (m + n) allow
      ∙ split_through (parse bdk expression network allow) (bdk expression network)
          (λ d. derive_from d start (m + n)) (λ d. derive_from d start m)
          (λ d. derive_from d (start + m) n) (λ d. derive_from-split d start m n)
      ∙ cc (
        derive_addresses-natural expression network start m allow,
        derive_addresses-natural expression network (start + m) n allow,
      )
