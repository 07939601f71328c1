-- ===== src/Descriptors/Base58/RoundTrip.antt =====
-- Reading Base58 back: the bytes that were written, the zeros in front included.
use tallykeep.Prelude.{ℕ, ◌<◌, ◌≡◌, sym, ◌∙◌, ap, some, List, ◌++◌, All, arith}
use tallykeep.Descriptors.Base58.{
  [], value_from, digits, lead, repeat, b58encode, b58decode, encode_all,
}
use tallykeep.Descriptors.Base58.Radix.{IsRadix-58, IsRadix-256}
use tallykeep.Descriptors.Base58.Digits.{
  digits-value, value_from-digits, value_from-repeat, digits-small, lead-digits_whole, lead-repeat,
  All-repeat,
}
use tallykeep.Descriptors.Base58.Alphabet.{
  lookup_all-encode_all, lead-encode_all, encode_all-repeat,
}

-- the digits in base 58 that are written, the zeros in front included
abbrev digits_of : List ℕ → List ℕ
digits_of bytes = repeat 0 (lead 0 bytes) ++ digits 58 (value_from 256 0 bytes) []

digits_of-small : (bytes : List ℕ) → All (λ x. x < 58) (digits_of bytes)
digits_of-small bytes =
    All-repeat 58 (lead 0 bytes) (digits 58 (value_from 256 0 bytes) []) (omega arith) (
      digits-small 58 IsRadix-58 (value_from 256 0 bytes) (value_from 256 0 bytes) [] (omega arith)
        tt)

lead-digits_of : (bytes : List ℕ) → lead 0 (digits_of bytes) ≡ lead 0 bytes
lead-digits_of bytes = omega (
  arith,
  lead-repeat (lead 0 bytes) (digits 58 (value_from 256 0 bytes) []),
  lead-digits_whole 58 IsRadix-58 (value_from 256 0 bytes),
)

value_from-digits_of : (bytes : List ℕ) → value_from 58 0 (digits_of bytes) ≡ value_from 256 0 bytes
unfolding value_from
value_from-digits_of bytes =
    value_from-repeat 58 (lead 0 bytes) (digits 58 (value_from 256 0 bytes) [])
    ∙ value_from-digits 58 IsRadix-58 (value_from 256 0 bytes) (value_from 256 0 bytes) []
        (omega arith)

b58encode-digits_of : (bytes : List ℕ) → b58encode bytes ≡ encode_all (digits_of bytes)
unfolding b58encode
b58encode-digits_of bytes =
    sym (encode_all-repeat (lead 0 bytes) (digits 58 (value_from 256 0 bytes) []))

-- what is decoded from the characters of some digits
decode-encode_all :
    (ds : List ℕ)
    → All (λ x. x < 58) ds
    → b58decode (encode_all ds) ≡ some (repeat 0 (lead 0 ds) ++ digits 256 (value_from 58 0 ds) [])
unfolding b58decode
decode-encode_all ds a = ground (arith, lookup_all-encode_all ds a, lead-encode_all ds a)

-- `_b58decode` undoes `_b58encode`: whatever the bytes are, zeros in front included, the text that is
-- written for them is read without a `KeyError`, as the same bytes.
pub b58decode-b58encode :
    (bytes : List ℕ) → All (λ x. x < 256) bytes → b58decode (b58encode bytes) ≡ some bytes
b58decode-b58encode bytes a =
    ap b58decode (b58encode-digits_of bytes)
    ∙ decode-encode_all (digits_of bytes) (digits_of-small bytes)
    ∙ cc (lead-digits_of bytes, value_from-digits_of bytes, digits-value 256 IsRadix-256 bytes a)
