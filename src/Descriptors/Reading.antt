-- ===== src/Descriptors/Reading.antt =====
-- backend/tallykeep/adapters/descriptor_adapter.py: what the adapter reads off a descriptor with regular
-- expressions.
use tallykeep.Prelude.{
  String, map, ℕ, ◌+◌, ◌-◌, ◌==◌, Bool, true, false, not, ◌&&◌, ◌||◌, Option, none, some, List, [],
  ◌∷◌, if◌then◌else◌, length, is_some, any_of,
}
use tallykeep.Descriptors.Base58.{value_from}
use tallykeep.Descriptors.Patterns.{
  Matcher, codes, ◌>>=◌, ◌>>◌, ◌<|>◌, matched, optional, one_of, exactly, at_least_one, up_to,
  times, at_end, first_of, search_after, search, find_all, is_between, is_digit, is_letter,
  is_alphanumeric, spaces, starts_word,
}

abbrev literally : String → Matcher (Unit {0})
literally s = exactly (codes s)

-- `_MULTISIG_THRESHOLD_RE`: `(?:sorted)?multi(?:_a)?\(\s*(\d+)\s*,`
abbrev multisig_threshold : Matcher (List ℕ)
multisig_threshold = do
  optional (literally "sorted")
  literally "multi"
  optional (literally "_a")
  literally "("
  spaces
  ds ← at_least_one is_digit
  spaces
  literally ","
  matched ds

-- `_XPUB_RE`: `[a-zA-Z]{1,4}pub[a-zA-Z0-9]+`
abbrev xpub : Matcher (Unit {0})
xpub = do
  one_of is_letter
  up_to 3 is_letter
  literally "pub"
  at_least_one is_alphanumeric
  matched tt

-- `_TIMELOCK_AFTER_RE` and `_TIMELOCK_OLDER_RE`: `name\(\s*(\d+)\s*\)`
abbrev timelock_of : String → Matcher (List ℕ)
timelock_of name = do
  literally name
  literally "("
  spaces
  ds ← at_least_one is_digit
  spaces
  literally ")"
  matched ds

-- `_FINGERPRINT_RE`: `\[([0-9a-fA-F]{8})[/\]]`
abbrev fingerprint : Matcher (List ℕ)
fingerprint = do
  literally "["
  ds ← times 8 (λ c. is_digit c || is_between 97 102 c || is_between 65 70 c)
  one_of (λ c. c == 47 || c == 93)
  matched ds

-- `_TAPROOT_MULTISIG_RE`: `(?:sorted)?multi_a\(`
abbrev taproot_multisig : Matcher (Unit {0})
taproot_multisig = optional (literally "sorted") >> literally "multi_a("

-- `_UNSUPPORTED_FRAGMENT_RE`: `\bor_[idcb]\(|\bthresh\(|\bsha256\(|...`
abbrev unsupported_fragment : Option ℕ → Matcher (Unit {0})
unsupported_fragment before = starts_word before (
    (literally "or_" >> one_of (λ c. is_between 98 100 c || c == 105) >> literally "(")
    <|> literally "thresh("
    <|> literally "sha256("
    <|> literally "hash256("
    <|> literally "ripemd160("
    <|> literally "hash160(")

-- `\s*s`
abbrev spaced : String → Matcher (Unit {0})
spaced s = spaces >> literally s

-- `_LSP_PATTERN_RE`: `\bor_[dcib]\s*\(\s*pk\s*\([^)]+\)\s*,\s*and_v\s*\(\s*v:pk\s*\([^)]+\)\s*,\s*older\s*\(\s*\d+\s*\)\s*\)\s*\)`
abbrev lsp_pattern : Option ℕ → Matcher (Unit {0})
lsp_pattern before = starts_word before (do
  literally "or_"
  one_of (λ c. is_between 98 100 c || c == 105)
  spaced "("
  spaced "pk"
  spaced "("
  at_least_one (λ c. not (c == 41))
  literally ")"
  spaced ","
  spaced "and_v"
  spaced "("
  spaced "v:pk"
  spaced "("
  at_least_one (λ c. not (c == 41))
  literally ")"
  spaced ","
  spaced "older"
  spaced "("
  spaces
  at_least_one is_digit
  spaced ")"
  spaced ")"
  spaced ")")

-- `[a-zA-HJ-NP-Z0-9]` and `[a-km-zA-HJ-NP-Z1-9]`
abbrev is_bech32 : ℕ → Bool
is_bech32 c =
    is_between 97 122 c
    || is_between 65 72 c
    || is_between 74 78 c
    || is_between 80 90 c
    || is_digit c

abbrev is_base58 : ℕ → Bool
is_base58 c =
    is_between 97 107 c
    || is_between 109 122 c
    || is_between 65 72 c
    || is_between 74 78 c
    || is_between 80 90 c
    || is_between 49 57 c

-- `[...]{6,87}`
abbrev bech32_part : Matcher (Unit {0})
bech32_part = times 6 is_bech32 >> up_to 81 is_bech32 >> matched tt

-- `_ADDRESS_PATTERN_CLASSIFIER`
abbrev address_pattern : Matcher (Unit {0})
address_pattern =
    ((literally "bc1" >> bech32_part)
      <|> (literally "tb1" >> bech32_part)
      <|> (literally "bcrt1" >> bech32_part)
      <|> (one_of (λ c. c == 49 || c == 51 || c == 109 || c == 110 || c == 50)
          >> times 24 is_base58
          >> up_to 10 is_base58
          >> matched tt))
    >> at_end

-- the tests `RE.search(expression)` and `RE.match(expression)`
unfoldable pub has_threshold : List ℕ → Bool
has_threshold s = is_some (search multisig_threshold s)

unfoldable pub has_taproot_multisig : List ℕ → Bool
has_taproot_multisig s = is_some (search taproot_multisig s)

unfoldable pub has_unsupported_fragment : List ℕ → Bool
has_unsupported_fragment s = is_some (search_after none unsupported_fragment s)

unfoldable pub has_lsp_pattern : List ℕ → Bool
has_lsp_pattern s = is_some (search_after none lsp_pattern s)

unfoldable pub has_key_origin : List ℕ → Bool
has_key_origin s = is_some (search fingerprint s)

unfoldable pub is_address_shaped : List ℕ → Bool
is_address_shaped s = is_some (first_of (address_pattern s))

-- `int(...)` of some digits
abbrev int_of : List ℕ → ℕ
int_of ds = value_from 10 0 (map (λ c. c - 48) ds)

pub record Signers : Type 0 where
  pub required_signers : Option ℕ
  pub total_signers : Option ℕ

-- `_extract_multisig_params`
unfoldable pub extract_multisig_params : List ℕ → Bool → Signers
extract_multisig_params s is_taproot = elim (search multisig_threshold s) [
  | none ↦ record { required_signers = none; total_signers = none }
  | some ds ↦
      let found = length (find_all xpub s) in
      let total = if is_taproot then found - 1 else found in
      record {
        required_signers = some (int_of ds);
        total_signers = if total == 0 then none else some total;
      }
]

pub data TimelockKind : Type 0 where
  cltv csv : TimelockKind

-- `_extract_timelock`
unfoldable pub extract_timelock : List ℕ → Option (TimelockKind × ℕ)
extract_timelock s = elim (search (timelock_of "after") s) [
  | some ds ↦ some (cltv, int_of ds)
  | none ↦ elim (search (timelock_of "older") s) [ some ds ↦ some (csv, int_of ds) | none ↦ none ]
]

abbrev pub to_lower : ℕ → ℕ
to_lower c = if is_between 65 90 c then c + 32 else c

unfoldable pub text_eq : List ℕ → List ℕ → Bool
text_eq [] [] = true
text_eq (c ∷ cs) (x ∷ xs) = c == x && text_eq cs xs
text_eq _ _ = false

-- the loop of `_extract_fingerprints`: a fingerprint that was seen is not added again
unfoldable pub unseen_fingerprints : List (List ℕ) → List (List ℕ) → List (List ℕ)
unseen_fingerprints seen [] = []
unseen_fingerprints seen (f ∷ fs) =
    let lower = map to_lower f in
    elim (any_of (text_eq lower) seen) [
      | true ↦ unseen_fingerprints seen fs
      | false ↦ lower ∷ unseen_fingerprints (lower ∷ seen) fs
    ]

-- `_extract_fingerprints`
unfoldable pub extract_fingerprints : List ℕ → List (List ℕ)
extract_fingerprints s = unseen_fingerprints [] (find_all fingerprint s)
