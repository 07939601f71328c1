-- ===== src/Tests/Descriptors.antt =====
-- The theorems on descriptors and extended keys, at short texts, with a stand-in for BDK.
use tallykeep.Prelude.{◌+◌, pos, ◌++◌, ℕ, false, ◌≡◌, refl, some, List, [], ◌∷◌, arith}
use tallykeep.Errors.{ok}
use tallykeep.Domain.Enums.{mainnet}
use tallykeep.Descriptors.Base58.{
  b58encode, b58decode, repeat, take, drop, xpub_version, tpub_version, recode_extended_key_version,
  char_at, value_from, digits_fuel, lead, encode_all, lookup_all, position_from,
}
use tallykeep.Descriptors.Base58.RoundTrip.{b58decode-b58encode}
use tallykeep.Descriptors.Base58.Recoding.{AreBytes, recode-recode}
use tallykeep.Descriptors.Patterns.{
  codes, search_after, each_rest, exactly, any_number, prepend_all, up_to, times, find_from,
}
use tallykeep.Descriptors.Reading.{
  has_key_origin, extract_multisig_params, is_address_shaped, has_lsp_pattern,
  has_unsupported_fragment,
}
use tallykeep.Tests.Data.{sample_reader}
use tallykeep.Descriptors.Parsing.{has_bad_length, parse, derive_addresses}
use tallykeep.Descriptors.Classifying.{
  for_strongbox, fits, classify_type, classify_expression, classify_descriptor, expression_of,
  auto_wrap_bare_key, strip_left, strip_right,
}
use tallykeep.Descriptors.Agreement.{parse-suits, is_accepted, suits}
use tallykeep.Descriptors.Derivation.{derive_addresses-split, both}

-- a checksum of four bytes
abbrev sample_hash : List ℕ → List ℕ
sample_hash xs = 250 ∷ 7 ∷ 0 ∷ 99 ∷ []

b58decode-b58encode_example :
    b58decode (b58encode (0 ∷ 0 ∷ 17 ∷ 255 ∷ [])) ≡ some (0 ∷ 0 ∷ 17 ∷ 255 ∷ [])
b58decode-b58encode_example =
    b58decode-b58encode (0 ∷ 0 ∷ 17 ∷ 255 ∷ [])
      (ground arith, (ground arith, (ground arith, (ground arith, tt))))

-- an extended key of 78 bytes and a checksum
abbrev sample_bytes : List ℕ
sample_bytes = 4 ∷ 178 ∷ 71 ∷ 70 ∷ repeat 201 78

abbrev sample_key : List ℕ
sample_key = b58encode sample_bytes

abbrev recoded_key : List ℕ
recoded_key = b58encode (4 ∷ 136 ∷ 178 ∷ 30 ∷ (take 74 (drop 4 sample_bytes) ++ sample_hash []))

recoded : recode_extended_key_version sample_hash sample_key xpub_version ≡ ok recoded_key
unfolding b58encode b58decode repeat take drop recode_extended_key_version char_at value_from
    digits_fuel lead encode_all lookup_all position_from
recoded = refl

hash-AreBytes : (xs : List ℕ) → AreBytes (sample_hash xs)
hash-AreBytes xs = (ground arith, (ground arith, (ground arith, (ground arith, tt))))

version-AreBytes : AreBytes xpub_version
version-AreBytes = (ground arith, (ground arith, (ground arith, (ground arith, tt))))

recode-recode_example :
    (recode_extended_key_version sample_hash recoded_key tpub_version
      ≡ recode_extended_key_version sample_hash sample_key tpub_version)
    × ((again : List ℕ) × (recode_extended_key_version sample_hash recoded_key tpub_version
          ≡ ok again))
recode-recode_example =
    recode-recode sample_hash hash-AreBytes sample_key xpub_version tpub_version recoded_key
      version-AreBytes refl recoded

abbrev sample_expression : List ℕ
sample_expression = codes " wpkh([aabbccdd/84h]xpub6C/0/*) "

long_enough : has_bad_length (expression_of sample_hash sample_expression) ≡ false
unfolding strip_left strip_right auto_wrap_bare_key
long_enough = refl

no_address : is_address_shaped (expression_of sample_hash sample_expression) ≡ false
unfolding strip_left strip_right auto_wrap_bare_key is_address_shaped each_rest exactly up_to times
    prepend_all
no_address = refl

no_lsp : has_lsp_pattern (expression_of sample_hash sample_expression) ≡ false
unfolding strip_left strip_right auto_wrap_bare_key has_lsp_pattern search_after each_rest exactly
    any_number prepend_all
no_lsp = refl

no_fragment : has_unsupported_fragment (expression_of sample_hash sample_expression) ≡ false
unfolding strip_left strip_right auto_wrap_bare_key has_unsupported_fragment search_after each_rest
    exactly
no_fragment = refl

parse-suits_example :
    is_accepted (parse sample_reader (expression_of sample_hash sample_expression) mainnet false)
    ≡ suits false (classify_descriptor sample_hash sample_reader sample_expression mainnet).verdict
parse-suits_example =
    parse-suits sample_hash sample_reader sample_expression mainnet false long_enough no_address
      no_lsp no_fragment

derive_addresses-split_example :
    derive_addresses sample_reader sample_expression mainnet (pos 5) (pos (2 + 1)) false
    ≡ both
        (derive_addresses sample_reader sample_expression mainnet (pos 5) (pos 2) false)
        (derive_addresses sample_reader sample_expression mainnet (pos (5 + 2)) (pos 1) false)
derive_addresses-split_example =
    derive_addresses-split sample_reader sample_expression mainnet 5 2 1 false

-- the key origin makes the expression one for a Strongbox
strongbox_found :
    (classify_descriptor sample_hash sample_reader sample_expression mainnet).verdict
    ≡ fits for_strongbox
unfolding strip_left strip_right auto_wrap_bare_key classify_descriptor classify_expression
    classify_type is_address_shaped has_lsp_pattern has_unsupported_fragment has_key_origin
    search_after each_rest exactly any_number prepend_all up_to times
strongbox_found = refl

-- the numbers of a multisig expression, with spaces in it
signers_read :
    extract_multisig_params (codes "wsh(sortedmulti( 2 ,xpub6A,tpub6B,zpub6C))") false
    ≡ record { required_signers = some 2; total_signers = some 3 }
unfolding extract_multisig_params search_after each_rest exactly any_number prepend_all up_to
    find_from value_from
signers_read = refl
