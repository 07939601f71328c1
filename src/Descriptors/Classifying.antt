-- ===== src/Descriptors/Classifying.antt =====
-- backend/tallykeep/adapters/descriptor_adapter.py: `_auto_wrap_bare_key` and `classify_descriptor`, which
-- says what type of holding an input is for, or why it is for none.
use tallykeep.Prelude.{
  map, String, is_empty, ℕ, ◌==◌, Bool, not, is_some, ◌&&◌, ◌||◌, Option, none, some, List, [], ◌∷◌,
  ◌++◌, if◌then◌else◌, any_of,
}
use tallykeep.Errors.{Result, ok, err}
use tallykeep.Domain.Enums.{Network}
use tallykeep.Descriptors.Base58.{xpub_version, tpub_version, recode_extended_key_version}
use tallykeep.Descriptors.Patterns.{codes, is_space, exactly}
use tallykeep.Descriptors.Reading.{
  has_threshold, extract_timelock, has_taproot_multisig, has_unsupported_fragment, has_lsp_pattern,
  has_key_origin, is_address_shaped, to_lower,
}
use tallykeep.Descriptors.Parsing.{
  DescriptorType, Reader, is_tr, is_sh, is_single_key, is_multisig_type, is_miniscript,
}

-- `s.strip()`: the spaces in front, and those behind
unfoldable pub strip_left : List ℕ → List ℕ
strip_left [] = []
strip_left (c ∷ s) = let rest = strip_left s in if is_space c then rest else c ∷ s

unfoldable pub strip_right : List ℕ → List ℕ
strip_right [] = []
strip_right (c ∷ s) = elim (strip_right s) [
  | [] ↦ if is_space c then [] else c ∷ []
  | x ∷ rest ↦ c ∷ x ∷ rest
]

abbrev pub strip : List ℕ → List ℕ
strip s = strip_right (strip_left s)

-- `[()\[\]/]`
abbrev is_punctuation : ℕ → Bool
is_punctuation c = c == 40 || c == 41 || c == 91 || c == 93 || c == 47

-- `s.lower().startswith(prefix)`
abbrev starts_with : String → List ℕ → Bool
starts_with prefix s = not (is_empty (exactly (codes prefix) (map to_lower s)))

-- the descriptors of the two chains of a key
abbrev native_segwit_pair : List ℕ → List ℕ × List ℕ
native_segwit_pair k = (codes "wpkh(" ++ k ++ codes "/0/*)", codes "wpkh(" ++ k ++ codes "/1/*)")

abbrev nested_segwit_pair : List ℕ → List ℕ × List ℕ
nested_segwit_pair k =
    (codes "sh(wpkh(" ++ k ++ codes "/0/*))", codes "sh(wpkh(" ++ k ++ codes "/1/*))")

-- `except (ValueError, KeyError): pass`
abbrev wrap_recoded : (List ℕ → List ℕ × List ℕ) → Result (List ℕ) → Option (List ℕ × List ℕ)
wrap_recoded pair (err _) = none
wrap_recoded pair (ok k) = some (pair k)

module _ (sha256 : List ℕ → List ℕ) where
  -- `_auto_wrap_bare_key`
  unfoldable pub auto_wrap_bare_key : List ℕ → Option (List ℕ × List ℕ)
  auto_wrap_bare_key expression =
      let s = strip expression in
      if is_empty s || any_of is_punctuation s
      then none
      else if starts_with "zpub" s
      then wrap_recoded native_segwit_pair (recode_extended_key_version sha256 s xpub_version)
      else if starts_with "ypub" s
      then wrap_recoded nested_segwit_pair (recode_extended_key_version sha256 s xpub_version)
      else if starts_with "xpub" s
      then some (native_segwit_pair s)
      else if starts_with "vpub" s
      then wrap_recoded native_segwit_pair (recode_extended_key_version sha256 s tpub_version)
      else if starts_with "upub" s
      then wrap_recoded nested_segwit_pair (recode_extended_key_version sha256 s tpub_version)
      else if starts_with "tpub" s
      then some (native_segwit_pair s)
      else none

  -- the expression that is classified: the wrapped key, or the input without the spaces around it
  abbrev pub expression_of : List ℕ → List ℕ
  expression_of raw = elim (auto_wrap_bare_key (strip raw)) [
    | none ↦ strip raw
    | some (external, _) ↦ external
  ]

pub data Fit : Type 0 where
  for_purse for_strongbox for_vault : Fit

pub data Rejection : Type 0 where
  unparseable single_address_input lsp_coordinated_wallet : Rejection
  multi_path_miniscript unsupported_form : Rejection

-- the fields `best_fit` and `rejection_category`, of which one is set
pub data Verdict : Type 0 where
  fits : Fit → Verdict
  rejected : Rejection → Verdict

pub record ClassifiedDescriptor : Type 0 where
  pub verdict : Verdict
  -- `canonical_expression` and `canonical_change_expression`, which are set together
  pub canonical : Option (List ℕ × List ℕ)

abbrev single_key_fit : List ℕ → Verdict
single_key_fit expression = fits (if has_key_origin expression then for_strongbox else for_purse)

-- `timelock_kind or has_taproot_multisig`, the sixth step's own copy of what `parse` tests
abbrev is_vault_shape : List ℕ → Bool
is_vault_shape expression = is_some (extract_timelock expression) || has_taproot_multisig expression

-- the sixth step
unfoldable pub classify_type : DescriptorType → List ℕ → Verdict
classify_type desc_type expression =
    if is_tr desc_type
    then (if is_vault_shape expression then fits for_vault else single_key_fit expression)
    else if is_single_key desc_type
    then single_key_fit expression
    else if is_multisig_type desc_type || is_miniscript desc_type
    then (if is_sh desc_type && not (has_threshold expression)
        then rejected unsupported_form
        else fits for_vault)
    else rejected unsupported_form

-- the steps from the second on
unfoldable pub classify_expression : Reader → List ℕ → Network → Verdict
classify_expression bdk expression network =
    if is_address_shaped expression
    then rejected single_address_input
    else elim (bdk expression network) [
      | none ↦ rejected unparseable
      | some d ↦
          if d.is_multipath
          then rejected unsupported_form
          else if has_lsp_pattern expression
          then rejected lsp_coordinated_wallet
          else if has_unsupported_fragment expression
          then rejected multi_path_miniscript
          else classify_type d.desc_type expression
    ]

module _ (sha256 : List ℕ → List ℕ) (bdk : Reader) where
  -- `classify_descriptor`
  unfoldable pub classify_descriptor : List ℕ → Network → ClassifiedDescriptor
  classify_descriptor raw network = record {
    verdict = classify_expression bdk (expression_of sha256 raw) network;
    canonical = auto_wrap_bare_key sha256 (strip raw);
  }
