-- ===== src/Descriptors/Agreement.antt =====
-- The two decisions on a descriptor: what it is classified as, and whether `parse` accepts it where a
-- holding of that type is created.
use tallykeep.Prelude.{
  if◌then◌else◌, Bool-cases, ℕ, Bool, true, false, ◌≡◌, refl, List, arith, Option-cases, inl, inr,
  ◌∙◌,
}
use tallykeep.Errors.{Result, ok, err}
use tallykeep.Domain.Enums.{Network}
use tallykeep.Descriptors.Reading.{has_unsupported_fragment, has_lsp_pattern, is_address_shaped}
use tallykeep.Descriptors.Parsing.{
  Script, Reader, DescriptorType, bare, sh, pkh, wpkh, wsh, sh_wsh, sh_wpkh, sh_sorted_multi,
  wsh_sorted_multi, sh_wsh_sorted_multi, tr, parse, parse_script, parse_single, parse_multisig,
  parse_miniscript, parse_taproot, is_vault_tr, has_bad_length,
}
use tallykeep.Descriptors.Classifying.{
  multi_path_miniscript, lsp_coordinated_wallet, unsupported_form, for_purse, for_strongbox,
  for_vault, Verdict, fits, rejected, classify_type, classify_expression, classify_descriptor,
  expression_of,
}

abbrev pub is_accepted : {T : Type 0} → Result T → Bool
is_accepted (ok _) = true
is_accepted (err _) = false

-- whether a holding of the type that fits may be created: a vault alone allows multisig
abbrev pub suits : Bool → Verdict → Bool
suits allow_multisig (rejected _) = false
suits allow_multisig (fits for_vault) = allow_multisig
suits allow_multisig (fits for_purse) = true
suits allow_multisig (fits for_strongbox) = true

type-suits :
    (t : DescriptorType) (d : Script) (e : List ℕ) (allow : Bool)
    → d.desc_type ≡ t
    → d.is_multipath ≡ false
    → has_unsupported_fragment e ≡ false
    → is_accepted (parse_script d e allow) ≡ suits allow (classify_type t e)
unfolding parse_script parse_single parse_multisig parse_miniscript parse_taproot classify_type
    is_vault_tr
type-suits bare d e allow is path plain = ground arith
type-suits sh d e allow is path plain = ground arith
type-suits pkh d e allow is path plain = ground arith
type-suits wpkh d e allow is path plain = ground arith
type-suits wsh d e allow is path plain = ground arith
type-suits sh_wsh d e allow is path plain = ground arith
type-suits sh_wpkh d e allow is path plain = ground arith
type-suits sh_sorted_multi d e allow is path plain = ground arith
type-suits wsh_sorted_multi d e allow is path plain = ground arith
type-suits sh_wsh_sorted_multi d e allow is path plain = ground arith
type-suits tr d e allow is path plain = ground arith

multipath-rejected :
    (d : Script) (e : List ℕ) (allow : Bool)
    → d.is_multipath ≡ true
    → is_accepted (parse_script d e allow) ≡ false
unfolding parse_script
multipath-rejected d e allow several = rw several refl

script-suits :
    (d : Script) (e : List ℕ) (allow : Bool)
    → has_lsp_pattern e ≡ false
    → has_unsupported_fragment e ≡ false
    → is_accepted (parse_script d e allow)
      ≡ suits allow (
          if d.is_multipath
          then rejected unsupported_form
          else if has_lsp_pattern e
          then rejected lsp_coordinated_wallet
          else if has_unsupported_fragment e
          then rejected multi_path_miniscript
          else classify_type d.desc_type e)
script-suits d e allow no_lsp plain = elim (Bool-cases d.is_multipath) [
  | inl several ↦ multipath-rejected d e allow several ∙ cc several
  | inr path ↦ type-suits d.desc_type d e allow refl path plain ∙ cc (path, no_lsp, plain)
]

expression-suits :
    (bdk : Reader) (e : List ℕ) (network : Network) (allow : Bool)
    → has_bad_length e ≡ false
    → is_address_shaped e ≡ false
    → has_lsp_pattern e ≡ false
    → has_unsupported_fragment e ≡ false
    → is_accepted (parse bdk e network allow) ≡ suits allow (classify_expression bdk e network)
unfolding parse classify_expression
expression-suits bdk e network allow length_ok no_address no_lsp plain =
    elim (Option-cases (bdk e network)) [
      | inl unread ↦ ground arith
      | inr (d, read) ↦ rw (length_ok, no_address, read) (script-suits d e allow no_lsp plain)
    ]

module _ (sha256 : List ℕ → List ℕ) (bdk : Reader) where
  -- `classify_descriptor` and `parse` agree on an input whose expression has 1 to 4096 characters and
  -- neither the shape of an address nor a branch of a coordinated wallet nor another unsupported
  -- fragment: `parse` accepts the expression without multisig exactly when it is classified as one for a
  -- purse or a strongbox, and with multisig exactly when it is classified as one for any holding.
  pub parse-suits :
      (raw : List ℕ) (network : Network) (allow_multisig : Bool)
      → has_bad_length (expression_of sha256 raw) ≡ false
      → is_address_shaped (expression_of sha256 raw) ≡ false
      → has_lsp_pattern (expression_of sha256 raw) ≡ false
      → has_unsupported_fragment (expression_of sha256 raw) ≡ false
      → is_accepted (parse bdk (expression_of sha256 raw) network allow_multisig)
        ≡ suits allow_multisig (classify_descriptor sha256 bdk raw network).verdict
  unfolding classify_descriptor
  parse-suits raw network allow = expression-suits bdk (expression_of sha256 raw) network allow
