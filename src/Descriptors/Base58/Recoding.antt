-- ===== src/Descriptors/Base58/Recoding.antt =====
-- The version of an extended key: writing a version over another one, and what becomes of the rest.
use tallykeep.Prelude.{
  subst, ℕ, zero, suc, ◌-◌, ◌<◌, ◌≤◌, ◌≡◌, refl, sym, ◌∙◌, ap, some, List, [], ◌∷◌, ◌++◌, All,
  All-append, length, length-append, append_assoc, arith, Option-cases, inl, inr,
}
use tallykeep.Errors.{ok}
use tallykeep.Descriptors.Base58.{
  value_from, digits, lead, repeat, b58encode, b58decode, lookup_all, take, drop, payload_of,
  with_checksum, recode_extended_key_version,
}
use tallykeep.Descriptors.Base58.Radix.{IsRadix-256}
use tallykeep.Descriptors.Base58.Digits.{digits-small, All-repeat}
use tallykeep.Descriptors.Base58.RoundTrip.{b58decode-b58encode}

abbrev pub AreBytes : List ℕ → Type 0
AreBytes xs = All (λ x. x < 256) xs

-- the texts that are read are bytes
b58decode-AreBytes : (key decoded : List ℕ) → b58decode key ≡ some decoded → AreBytes decoded
unfolding b58decode
b58decode-AreBytes key decoded e = elim (Option-cases (lookup_all key)) [
  | inl none_found ↦ ground arith
  | inr (ds, found) ↦
      let n = value_from 58 0 ds in
      let whole : some (repeat 0 (lead 49 key) ++ digits 256 n []) ≡ some decoded = ground arith in
      subst AreBytes (cc whole) (
        All-repeat 256 (lead 49 key) (digits 256 n []) (omega arith)
          (digits-small 256 IsRadix-256 n n [] (omega arith) tt))
]

take-AreBytes : (n : ℕ) (xs : List ℕ) → AreBytes xs → AreBytes (take n xs)
unfolding take
take-AreBytes zero xs a = tt
take-AreBytes (suc n) [] a = tt
take-AreBytes (suc n) (x ∷ xs) a = (a.0, take-AreBytes n xs a.1)

drop-AreBytes : (n : ℕ) (xs : List ℕ) → AreBytes xs → AreBytes (drop n xs)
unfolding drop
drop-AreBytes zero xs a = a
drop-AreBytes (suc n) [] a = tt
drop-AreBytes (suc n) (x ∷ xs) a = drop-AreBytes n xs a.1

length-take : (n : ℕ) (xs : List ℕ) → n ≤ length xs → length (take n xs) ≡ n
unfolding take
length-take zero xs h = refl
length-take (suc n) [] h = omega arith
length-take (suc n) (x ∷ xs) h = omega (arith, length-take n xs (omega arith))

length-drop : (n : ℕ) (xs : List ℕ) → length (drop n xs) ≡ length xs - n
unfolding drop
length-drop zero xs = omega arith
length-drop (suc n) [] = omega arith
length-drop (suc n) (x ∷ xs) = omega (arith, length-drop n xs)

-- what is taken from a list that is long enough ignores what stands behind
take-append : (n : ℕ) (xs ys : List ℕ) → length xs ≡ n → take n (xs ++ ys) ≡ xs
unfolding take
take-append zero [] ys h = refl
take-append (suc n) [] ys h = ground arith
take-append zero (x ∷ xs) ys h = ground arith
take-append (suc n) (x ∷ xs) ys h = ap (λ zs. x ∷ zs) (take-append n xs ys (omega arith))

drop-append : (n : ℕ) (xs ys : List ℕ) → length xs ≡ n → drop n (xs ++ ys) ≡ ys
unfolding drop
drop-append zero [] ys h = refl
drop-append (suc n) [] ys h = ground arith
drop-append zero (x ∷ xs) ys h = ground arith
drop-append (suc n) (x ∷ xs) ys h = drop-append n xs ys (omega arith)

-- the bytes behind the version are the ones that were there
payload_of-kept :
    (first second decoded rest : List ℕ)
    → length first ≡ 4
    → 78 ≤ length decoded
    → payload_of second (payload_of first decoded ++ rest) ≡ payload_of second decoded
payload_of-kept first second decoded rest h long =
    let body = take 74 (drop 4 decoded) in
    let count : length body ≡ 74 =
      length-take 74 (drop 4 decoded) (omega (arith, length-drop 4 decoded)) in
    ap (λ zs. second ++ take 74 zs)
      (ap (drop 4) (append_assoc first body rest) ∙ drop-append 4 first (body ++ rest) h)
    ∙ ap (λ zs. second ++ zs) (take-append 74 body rest count)

module _ (sha256 : List ℕ → List ℕ) (hash-AreBytes : (xs : List ℕ) → AreBytes (sha256 xs)) where
  recode-result :
      (key version decoded : List ℕ)
      → b58decode key ≡ some decoded
      → 78 ≤ length decoded
      → recode_extended_key_version sha256 key version
        ≡ ok (b58encode (with_checksum sha256 (payload_of version decoded)))
  unfolding recode_extended_key_version
  recode-result key version decoded e long = ground arith

  recode-inverts :
      (key version recoded : List ℕ)
      → recode_extended_key_version sha256 key version ≡ ok recoded
      → (decoded : List ℕ) × ((b58decode key ≡ some decoded)
          × (78 ≤ length decoded)
          × (recoded ≡ b58encode (with_checksum sha256 (payload_of version decoded))))
  unfolding recode_extended_key_version
  recode-inverts key version recoded e = elim (Option-cases (b58decode key)) [
    | inl none_read ↦ ground arith
    | inr (decoded, read) ↦ (decoded, (read, ground arith, ground arith))
  ]

  with_checksum-AreBytes :
      (version decoded : List ℕ)
      → AreBytes version
      → AreBytes decoded
      → AreBytes (with_checksum sha256 (payload_of version decoded))
  with_checksum-AreBytes version decoded v a =
      let payload = payload_of version decoded in
      All-append (λ x. x < 256) payload (take 4 (sha256 (sha256 payload)))
        (All-append (λ x. x < 256) version (take 74 (drop 4 decoded)) v
          (take-AreBytes 74 (drop 4 decoded) (drop-AreBytes 4 decoded a)))
        (take-AreBytes 4 (sha256 (sha256 payload)) (hash-AreBytes (sha256 payload)))

  with_checksum-long :
      (version decoded : List ℕ)
      → length version ≡ 4
      → 78 ≤ length decoded
      → 78 ≤ length (with_checksum sha256 (payload_of version decoded))
  with_checksum-long version decoded four long =
      let body = take 74 (drop 4 decoded) in
      let payload = payload_of version decoded in
      let dropped = length-drop 4 decoded in
      omega (
        arith,
        length-append version body,
        length-take 74 (drop 4 decoded) (omega arith),
        length-append payload (take 4 (sha256 (sha256 payload))),
      )

  recode-encoded :
      (key first second decoded : List ℕ)
      → AreBytes first
      → length first ≡ 4
      → b58decode key ≡ some decoded
      → 78 ≤ length decoded
      → recode_extended_key_version sha256
          (b58encode (with_checksum sha256 (payload_of first decoded)))
          second
        ≡ recode_extended_key_version sha256 key second
  recode-encoded key first second decoded bytes four read long =
      let payload = payload_of first decoded in
      let coded = with_checksum sha256 payload in
      recode-result (b58encode coded) second coded
        (b58decode-b58encode coded
          (with_checksum-AreBytes first decoded bytes (b58decode-AreBytes key decoded read)))
        (with_checksum-long first decoded four long)
      ∙ ap (λ p. ok (b58encode (with_checksum sha256 p)))
          (payload_of-kept first second decoded (take 4 (sha256 (sha256 payload))) four long)
      ∙ sym (recode-result key second decoded read long)

  -- Only the last version that is written to an extended key counts: where a key was recoded with a
  -- version of four bytes, recoding the result with a second version does not raise, and it gives the text
  -- that recoding the first key gives. SHA-256 is a parameter that returns bytes.
  pub recode-recode :
      (key first second recoded : List ℕ)
      → AreBytes first
      → length first ≡ 4
      → recode_extended_key_version sha256 key first ≡ ok recoded
      → (recode_extended_key_version sha256 recoded second
          ≡ recode_extended_key_version sha256 key second)
        × ((again : List ℕ) × (recode_extended_key_version sha256 recoded second ≡ ok again))
  recode-recode key first second recoded bytes four e =
      let inverted = recode-inverts key first recoded e in
      let decoded = inverted.0 in
      let same : recode_extended_key_version sha256 recoded second
          ≡ recode_extended_key_version sha256 key second =
        ap (λ k. recode_extended_key_version sha256 k second) inverted.1.2
        ∙ recode-encoded key first second decoded bytes four inverted.1.0 inverted.1.1 in
      (
        same,
        (
          b58encode (with_checksum sha256 (payload_of second decoded)),
          same ∙ recode-result key second decoded inverted.1.0 inverted.1.1,
        ),
      )
