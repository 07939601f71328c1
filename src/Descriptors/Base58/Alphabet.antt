-- ===== src/Descriptors/Base58/Alphabet.antt =====
-- The characters of Base58 and their positions: each of the 58 is found where it stands, and only the
-- first is `1`.
use tallykeep.Prelude.{
  not, ℕ, zero, suc, ◌<◌, ◌≡◌, refl, ap, ◌==◌, Bool, true, false, ◌&&◌, Option, none, some, List,
  [], ◌∷◌, ◌++◌, All, arith, if◌then◌else◌, inl, inr, Option-cases,
}
use tallykeep.Descriptors.Base58.{
  b58_alphabet, char_at, position_from, b58_lookup, lead, repeat, lookup_all, encode_all,
}

abbrev is_at : ℕ → Option ℕ → Bool
is_at d none = false
is_at d (some i) = i == d

-- the position `d` is that of its character, which is `1` at 0 alone
abbrev is_placed : ℕ → Bool
is_placed d =
    is_at d (b58_lookup (char_at d b58_alphabet))
    && (if d == 0 then char_at d b58_alphabet == 49 else not (char_at d b58_alphabet == 49))

abbrev all_below : ℕ → Bool
all_below zero = true
all_below (suc n) = is_placed n && all_below n

all_placed : all_below 58 ≡ true
unfolding char_at position_from
all_placed = refl

all_below-holds : (n d : ℕ) → all_below n ≡ true → d < n → is_placed d ≡ true
all_below-holds zero d e h = ground arith
all_below-holds (suc n) d e h = ground (arith, all_below-holds n d)

pub lookup-char_at : (d : ℕ) → d < 58 → b58_lookup (char_at d b58_alphabet) ≡ some d
lookup-char_at d h =
    let placed = all_below-holds 58 d all_placed h in
    elim (Option-cases (b58_lookup (char_at d b58_alphabet))) [
      | inl e ↦ ground arith
      | inr (i, e) ↦ ground arith
    ]

pub char_at-one : (d : ℕ) → d < 58 → (char_at d b58_alphabet == 49) ≡ (d == 0)
char_at-one d h = let placed = all_below-holds 58 d all_placed h in ground arith

pub lookup_all-encode_all :
    (ds : List ℕ) → All (λ d. d < 58) ds → lookup_all (encode_all ds) ≡ some ds
unfolding lookup_all encode_all
lookup_all-encode_all [] a = refl
lookup_all-encode_all (d ∷ ds) a =
    ground (arith, lookup-char_at d a.0, lookup_all-encode_all ds a.1)

pub lead-encode_all : (ds : List ℕ) → All (λ d. d < 58) ds → lead 49 (encode_all ds) ≡ lead 0 ds
unfolding lead encode_all
lead-encode_all [] a = refl
lead-encode_all (d ∷ ds) a = rw (char_at-one d a.0, lead-encode_all ds a.1) refl

pub encode_all-repeat :
    (k : ℕ) (ds : List ℕ) → encode_all (repeat 0 k ++ ds) ≡ repeat 49 k ++ encode_all ds
unfolding encode_all repeat char_at
encode_all-repeat zero ds = refl
encode_all-repeat (suc k) ds = ap (λ cs. 49 ∷ cs) (encode_all-repeat k ds)
