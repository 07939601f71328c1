-- ===== src/Descriptors/Base58/Digits.antt =====
-- The digits of a number and the number of some digits: each undoes the other, up to zeros in front.
use tallykeep.Prelude.{
  append_nil, subst, ℕ, zero, suc, ◌+◌, ◌*◌, ◌/◌, ◌%◌, ◌<◌, ◌≤◌, ◌≡◌, refl, sym, ◌∙◌, ap, List, [],
  ◌∷◌, ◌++◌, All, arith,
}
use tallykeep.Descriptors.Base58.{value_from, digits_fuel, digits, lead, repeat}
use tallykeep.Descriptors.Base58.Radix.{IsRadix}

module _ (base : ℕ) (r : IsRadix base) where
  -- more fuel changes nothing
  digits_fuel-same :
      (f g n : ℕ) (ds : List ℕ) → n ≤ f → n ≤ g → digits_fuel f base n ds ≡ digits_fuel g base n ds
  unfolding digits_fuel
  digits_fuel-same zero zero n ds h k = refl
  digits_fuel-same (suc f) zero zero ds h k = refl
  digits_fuel-same zero (suc g) zero ds h k = refl
  digits_fuel-same (suc f) (suc g) zero ds h k = refl
  digits_fuel-same (suc f) zero (suc n) ds h k = ground arith
  digits_fuel-same zero (suc g) (suc n) ds h k = ground arith
  digits_fuel-same (suc f) (suc g) (suc n) ds h k =
      let less = r.shrinks (suc n) (omega arith) in
      let rest =
        digits_fuel-same f g (suc n / base) (suc n % base ∷ ds) (omega arith) (omega arith) in
      ground arith

  pub digits-step :
      (n : ℕ) (ds : List ℕ) → 0 < n → digits base n ds ≡ digits base (n / base) (n % base ∷ ds)
  unfolding digits_fuel
  digits-step zero ds h = ground arith
  digits-step (suc n) ds h =
      let less = r.shrinks (suc n) h in
      let rest =
        digits_fuel-same n (suc n / base) (suc n / base) (suc n % base ∷ ds) (omega arith)
          (omega arith) in
      ground arith

  -- the digit that is put behind a number is its lowest
  pub digits-push :
      (n d : ℕ) (ds : List ℕ)
      → d < base
      → 0 < n * base + d
      → digits base (n * base + d) ds ≡ digits base n (d ∷ ds)
  digits-push n d ds h k = digits-step (n * base + d) ds k ∙ cc (r.high n d h, r.low n d h)

  pub digits-value_from :
      (n : ℕ) (xs ds : List ℕ)
      → 0 < n
      → All (λ x. x < base) xs
      → digits base (value_from base n xs) ds ≡ digits base n (xs ++ ds)
  unfolding value_from
  digits-value_from n [] ds h a = refl
  digits-value_from n (x ∷ xs) ds h a =
      let up = r.grows n in
      let more : 0 < n * base + x = omega arith in
      digits-value_from (n * base + x) xs ds more a.1 ∙ digits-push n x (xs ++ ds) a.0 more

  pub value_from-digits :
      (fuel n : ℕ) (ds : List ℕ)
      → n ≤ fuel
      → value_from base 0 (digits base n ds) ≡ value_from base n ds
  unfolding value_from digits_fuel
  value_from-digits fuel zero ds h = refl
  value_from-digits zero (suc n) ds h = omega arith
  value_from-digits (suc fuel) (suc n) ds h =
      let less = r.shrinks (suc n) (omega arith) in
      ap (value_from base 0) (digits-step (suc n) ds (omega arith))
      ∙ value_from-digits fuel (suc n / base) (suc n % base ∷ ds) (omega arith)
      ∙ ap (λ m. value_from base m ds) (r.split (suc n))

  pub digits-small :
      (fuel n : ℕ) (ds : List ℕ)
      → n ≤ fuel
      → All (λ x. x < base) ds
      → All (λ x. x < base) (digits base n ds)
  unfolding digits_fuel
  digits-small fuel zero ds h a = a
  digits-small zero (suc n) ds h a = ground arith
  digits-small (suc fuel) (suc n) ds h a =
      let less = r.shrinks (suc n) (omega arith) in
      subst (All (λ x. x < base)) (sym (digits-step (suc n) ds (omega arith)))
        (digits-small fuel (suc n / base) (suc n % base ∷ ds) (omega arith) (r.small (suc n), a))

  -- no zero in front
  pub lead-digits :
      (fuel n d : ℕ) (ds : List ℕ)
      → n ≤ fuel
      → 0 < n * base + d
      → d < base
      → lead 0 (digits base n (d ∷ ds)) ≡ 0
  unfolding lead digits_fuel
  lead-digits fuel zero d ds h p k = ground arith
  lead-digits zero (suc n) d ds h p k = omega arith
  lead-digits (suc fuel) (suc n) d ds h p k =
      let less = r.shrinks (suc n) (omega arith) in
      let whole = r.split (suc n) in
      ap (lead 0) (digits-step (suc n) (d ∷ ds) (omega arith))
      ∙ lead-digits fuel (suc n / base) (suc n % base) (d ∷ ds) (omega arith) (omega arith)
          (r.small (suc n))

  -- the digits of the number of some digits are those digits without the zeros in front
  pub digits-value :
      (xs : List ℕ)
      → All (λ x. x < base) xs
      → repeat 0 (lead 0 xs) ++ digits base (value_from base 0 xs) [] ≡ xs
  unfolding lead repeat value_from digits_fuel
  digits-value [] a = refl
  digits-value (zero ∷ xs) a =
      ap (λ n. 0 ∷ repeat 0 (lead 0 xs) ++ digits base (value_from base n xs) []) (omega arith)
      ∙ ap (λ ys. 0 ∷ ys) (digits-value xs a.1)
  digits-value (suc x ∷ xs) a =
      let first : 0 * base + suc x ≡ suc x = omega arith in
      let none_lead : lead 0 (suc x ∷ xs) ≡ 0 = ground arith in
      ap (λ n. repeat 0 n ++ digits base (value_from base 0 (suc x ∷ xs)) []) none_lead
      ∙ ap (λ n. digits base (value_from base n xs) []) first
      ∙ digits-value_from (suc x) xs [] (omega arith) a.1
      ∙ ap (λ n. digits base n (xs ++ [])) (sym first)
      ∙ digits-push 0 (suc x) (xs ++ []) a.0 (omega arith)
      ∙ append_nil (suc x ∷ xs)

  pub lead-digits_whole : (n : ℕ) → lead 0 (digits base n []) ≡ 0
  unfolding lead digits_fuel
  lead-digits_whole zero = refl
  lead-digits_whole (suc n) =
      let whole = r.split (suc n) in
      ap (lead 0) (digits-step (suc n) [] (omega arith))
      ∙ lead-digits (suc n / base) (suc n / base) (suc n % base) [] (omega arith) (omega arith)
          (r.small (suc n))

pub value_from-repeat :
    (base k : ℕ) (ds : List ℕ) → value_from base 0 (repeat 0 k ++ ds) ≡ value_from base 0 ds
unfolding repeat value_from
value_from-repeat base zero ds = refl
value_from-repeat base (suc k) ds =
    ap (λ n. value_from base n (repeat 0 k ++ ds)) (omega arith) ∙ value_from-repeat base k ds

pub lead-repeat : (k : ℕ) (ds : List ℕ) → lead 0 (repeat 0 k ++ ds) ≡ k + lead 0 ds
unfolding repeat lead
lead-repeat zero ds = omega arith
lead-repeat (suc k) ds = omega (arith, lead-repeat k ds)

pub All-repeat :
    (base k : ℕ) (ds : List ℕ)
    → 0 < base
    → All (λ x. x < base) ds
    → All (λ x. x < base) (repeat 0 k ++ ds)
unfolding repeat
All-repeat base zero ds h a = a
All-repeat base (suc k) ds h a = (h, All-repeat base k ds h a)
