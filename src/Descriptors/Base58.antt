-- ===== src/Descriptors/Base58.antt =====
-- backend/tallykeep/adapters/descriptor_adapter.py: Base58 and the version bytes of an extended key. A
-- text is the list of its code points, and a byte is a number below 256.
pub mod Radix
pub mod Digits
pub mod Alphabet
pub mod RoundTrip
pub mod Recoding
use tallykeep.Prelude.{
  ℕ, zero, suc, ◌+◌, ◌*◌, ◌/◌, ◌%◌, ◌==◌, Bool, Option, none, some, List, [], ◌∷◌, ◌++◌,
  if◌then◌else◌, length, ltb,
}
use tallykeep.Errors.{Result, ok, err, value_error, uncaught}

-- the code points of `_B58_ALPHABET`
abbrev pub b58_alphabet : List ℕ
b58_alphabet =
    49 ∷ 50 ∷ 51 ∷ 52 ∷ 53 ∷ 54 ∷ 55 ∷ 56 ∷ 57 ∷ 65 ∷ 66 ∷ 67 ∷ 68 ∷ 69 ∷ 70 ∷ 71 ∷ 72 ∷ 74 ∷ 75
    ∷ 76 ∷ 77 ∷ 78 ∷ 80 ∷ 81 ∷ 82 ∷ 83 ∷ 84 ∷ 85 ∷ 86 ∷ 87 ∷ 88 ∷ 89 ∷ 90 ∷ 97 ∷ 98 ∷ 99 ∷ 100 ∷ 101
    ∷ 102 ∷ 103 ∷ 104 ∷ 105 ∷ 106 ∷ 107 ∷ 109 ∷ 110 ∷ 111 ∷ 112 ∷ 113 ∷ 114 ∷ 115 ∷ 116 ∷ 117 ∷ 118
    ∷ 119 ∷ 120 ∷ 121 ∷ 122 ∷ []

-- `_B58_ALPHABET[i]`
unfoldable pub char_at : ℕ → List ℕ → ℕ
char_at i [] = 0
char_at zero (c ∷ cs) = c
char_at (suc i) (c ∷ cs) = char_at i cs

-- `_B58_LOOKUP[c]`, where no key gives a `KeyError`
unfoldable pub position_from : ℕ → List ℕ → ℕ → Option ℕ
position_from i [] c = none
position_from i (a ∷ cs) c = if a == c then some i else position_from (suc i) cs c

abbrev pub b58_lookup : ℕ → Option ℕ
b58_lookup c = position_from 0 b58_alphabet c

-- the loop of `_b58decode`, and `int.from_bytes(data, 'big')`: digits in a base, the first the highest
unfoldable pub value_from : ℕ → ℕ → List ℕ → ℕ
value_from base n [] = n
value_from base n (d ∷ ds) = value_from base (n * base + d) ds

-- the loop of `_b58encode`, and `n.to_bytes(...)` at the least length: the digits, in front of others.
-- The first argument is fuel
unfoldable pub digits_fuel : ℕ → ℕ → ℕ → List ℕ → List ℕ
digits_fuel zero base n ds = ds
digits_fuel (suc fuel) base n ds =
    let rest = digits_fuel fuel base (n / base) (n % base ∷ ds) in if n == 0 then ds else rest

-- a number is fuel enough for its digits
abbrev pub digits : ℕ → ℕ → List ℕ → List ℕ
digits base n ds = digits_fuel n base n ds

-- `len(s) - len(s.lstrip(c))`
unfoldable pub lead : ℕ → List ℕ → ℕ
lead c [] = 0
lead c (x ∷ xs) = if x == c then suc (lead c xs) else 0

-- `c * n`
unfoldable pub repeat : ℕ → ℕ → List ℕ
repeat c zero = []
repeat c (suc n) = c ∷ repeat c n

unfoldable pub lookup_all : List ℕ → Option (List ℕ)
lookup_all [] = some []
lookup_all (c ∷ cs) = elim (b58_lookup c) [
  | none ↦ none
  | some d ↦ elim (lookup_all cs) [ none ↦ none | some ds ↦ some (d ∷ ds) ]
]

unfoldable pub encode_all : List ℕ → List ℕ
encode_all [] = []
encode_all (d ∷ ds) = char_at d b58_alphabet ∷ encode_all ds

-- `_b58decode`, where `none` is a `KeyError`
unfoldable pub b58decode : List ℕ → Option (List ℕ)
b58decode s = elim (lookup_all s) [
  | none ↦ none
  | some ds ↦ some (repeat 0 (lead 49 s) ++ digits 256 (value_from 58 0 ds) [])
]

-- `_b58encode`
unfoldable pub b58encode : List ℕ → List ℕ
b58encode bytes = repeat 49 (lead 0 bytes) ++ encode_all (digits 58 (value_from 256 0 bytes) [])

-- `data[:n]` and `data[n:]`
unfoldable pub take : ℕ → List ℕ → List ℕ
take zero xs = []
take (suc n) [] = []
take (suc n) (x ∷ xs) = x ∷ take n xs

unfoldable pub drop : ℕ → List ℕ → List ℕ
drop zero xs = xs
drop (suc n) [] = []
drop (suc n) (x ∷ xs) = drop n xs

abbrev pub xpub_version : List ℕ
xpub_version = 4 ∷ 136 ∷ 178 ∷ 30 ∷ []

abbrev pub tpub_version : List ℕ
tpub_version = 4 ∷ 53 ∷ 135 ∷ 207 ∷ []

-- the version bytes in front of the other 74 bytes of an extended key
abbrev pub payload_of : List ℕ → List ℕ → List ℕ
payload_of version decoded = version ++ take 74 (drop 4 decoded)

module _ (sha256 : List ℕ → List ℕ) where
  abbrev pub with_checksum : List ℕ → List ℕ
  with_checksum payload = payload ++ take 4 (sha256 (sha256 payload))

  -- `_recode_extended_key_version`
  unfoldable pub recode_extended_key_version : List ℕ → List ℕ → Result (List ℕ)
  recode_extended_key_version key version = elim (b58decode key) [
    | none ↦ err uncaught
    | some decoded ↦
        if ltb (length decoded) 78
        then err value_error
        else ok (b58encode (with_checksum (payload_of version decoded)))
  ]
