-- ===== src/Descriptors/Parsing.antt =====
-- backend/tallykeep/adapters/descriptor_adapter.py: `DescriptorAdapter.parse` and the derivation of
-- addresses. BDK is a parameter, and so are its checksum and its ids. `expression` and `is_multipath` of
-- the result, which are the argument and false, are left out.
use tallykeep.Prelude.{
  String, ℕ, zero, suc, ◌==◌, ltb, Bool, true, false, not, ◌&&◌, ◌||◌, Option, none, some, List, [],
  ◌∷◌, if◌then◌else◌, length, is_some, ℤ, pos, ltb_ℤ, pos_part,
}
use tallykeep.Errors.{
  Result, ok, err, ◌>>=◌, ◌>>◌, refuse_if, descriptor_parse_error, unsupported_descriptor, uncaught,
}
use tallykeep.Domain.Enums.{
  Network, AddressType, legacy, nested_segwit, native_segwit, taproot, p2sh_multisig, p2wsh,
  p2sh_p2wsh,
}
use tallykeep.Descriptors.Reading.{
  Signers, TimelockKind, has_threshold, has_taproot_multisig, has_unsupported_fragment,
  extract_multisig_params, extract_timelock, extract_fingerprints,
}

-- `bdk.DescriptorType`
pub data DescriptorType : Type 0 where
  bare sh pkh wpkh wsh sh_wsh sh_wpkh : DescriptorType
  sh_sorted_multi wsh_sorted_multi sh_wsh_sorted_multi tr : DescriptorType

-- a `bdk.Descriptor`, as far as it is read
pub record Script : Type 0 where
  pub is_multipath : Bool
  pub desc_type : DescriptorType
  -- `str(descriptor)` and `str(descriptor.descriptor_id())`
  pub canonical : String
  pub descriptor_id : String
  -- `str(descriptor.derive_address(index, network))`, where `none` raises
  pub derive : ℕ → Option String

-- `bdk.Descriptor(expression, network)`, where `none` raises
abbrev pub Reader : Type 0
Reader = List ℕ → Network → Option Script

abbrev pub is_tr : DescriptorType → Bool
is_tr tr = true
is_tr _ = false

abbrev pub is_sh : DescriptorType → Bool
is_sh sh = true
is_sh _ = false

-- `_SINGLE_KEY_TYPES`, `_MULTISIG_TYPES` and `_MINISCRIPT_TYPES`
abbrev pub is_single_key : DescriptorType → Bool
is_single_key pkh = true
is_single_key wpkh = true
is_single_key sh_wpkh = true
is_single_key tr = true
is_single_key _ = false

abbrev pub is_multisig_type : DescriptorType → Bool
is_multisig_type sh_sorted_multi = true
is_multisig_type wsh_sorted_multi = true
is_multisig_type sh_wsh_sorted_multi = true
is_multisig_type _ = false

abbrev pub is_miniscript : DescriptorType → Bool
is_miniscript wsh = true
is_miniscript sh = true
is_miniscript _ = false

-- `_BDK_TYPE_TO_ADDRESS_TYPE[desc_type]`, where no key raises a `KeyError`
abbrev pub address_type_of : DescriptorType → Result AddressType
address_type_of pkh = ok legacy
address_type_of sh_wpkh = ok nested_segwit
address_type_of wpkh = ok native_segwit
address_type_of tr = ok taproot
address_type_of sh_sorted_multi = ok p2sh_multisig
address_type_of wsh_sorted_multi = ok p2wsh
address_type_of sh_wsh_sorted_multi = ok p2sh_p2wsh
address_type_of wsh = ok p2wsh
address_type_of sh = ok p2sh_multisig
address_type_of bare = err uncaught
address_type_of sh_wsh = err uncaught

pub record ParsedDescriptor : Type 0 where
  pub canonical_expression : String
  pub address_type : AddressType
  pub descriptor_id : String
  pub is_multisig : Bool
  pub signers : Signers
  pub timelock : Option (TimelockKind × ℕ)
  pub cosigner_fingerprints : List (List ℕ)

abbrev no_signers : Signers
no_signers = record { required_signers = none; total_signers = none }

abbrev one_signer : Signers
one_signer = record { required_signers = some 1; total_signers = some 1 }

-- `raise UnsupportedDescriptorError(...)` under a test
abbrev unsupported_if : Bool → Result (Unit {0})
unsupported_if false = ok tt
unsupported_if true = err unsupported_descriptor

abbrev vault_parsed : Script → List ℕ → Bool → Signers → AddressType → ParsedDescriptor
vault_parsed d expression is_multisig signers address_type = record {
  canonical_expression = d.canonical;
  address_type = address_type;
  descriptor_id = d.descriptor_id;
  is_multisig = is_multisig;
  signers = signers;
  timelock = extract_timelock expression;
  cosigner_fingerprints = extract_fingerprints expression;
}

-- the branch of `_MULTISIG_TYPES`
unfoldable pub parse_multisig : Script → List ℕ → Bool → Result ParsedDescriptor
parse_multisig d expression allow_multisig = do
  unsupported_if (not allow_multisig)
  address_type ← address_type_of d.desc_type
  ok (vault_parsed d expression true (extract_multisig_params expression false) address_type)

-- the branch of `_MINISCRIPT_TYPES`
unfoldable pub parse_miniscript : Script → List ℕ → Bool → Result ParsedDescriptor
parse_miniscript d expression allow_multisig = do
  unsupported_if (not allow_multisig)
  unsupported_if (has_unsupported_fragment expression)
  unsupported_if (is_sh d.desc_type && not (has_threshold expression))
  address_type ← address_type_of d.desc_type
  ok (
      vault_parsed d expression (has_threshold expression)
        (if has_threshold expression then extract_multisig_params expression false else one_signer)
        address_type)

-- the return for one key
unfoldable pub parse_single : Script → Result ParsedDescriptor
parse_single d = do
  address_type ← address_type_of d.desc_type
  ok record {
    canonical_expression = d.canonical;
    address_type = address_type;
    descriptor_id = d.descriptor_id;
    is_multisig = false;
    signers = no_signers;
    timelock = none;
    cosigner_fingerprints = [];
  }

-- `is_vault_tr`
unfoldable pub is_vault_tr : List ℕ → Bool
is_vault_tr expression = is_some (extract_timelock expression) || has_taproot_multisig expression

-- the branch of `bdk.DescriptorType.TR`
unfoldable pub parse_taproot : Script → List ℕ → Bool → Result ParsedDescriptor
parse_taproot d expression allow_multisig =
    if is_vault_tr expression
    then (do
      unsupported_if (not allow_multisig)
      unsupported_if (has_unsupported_fragment expression)
      ok (
          vault_parsed d expression (has_taproot_multisig expression)
            (if has_taproot_multisig expression
              then extract_multisig_params expression true
              else one_signer)
            taproot))
    else parse_single d

unfoldable pub parse_script : Script → List ℕ → Bool → Result ParsedDescriptor
parse_script d expression allow_multisig =
    if d.is_multipath
    then err unsupported_descriptor
    else if is_multisig_type d.desc_type
    then parse_multisig d expression allow_multisig
    else if is_miniscript d.desc_type
    then parse_miniscript d expression allow_multisig
    else if not (is_single_key d.desc_type)
    then err unsupported_descriptor
    else if is_tr d.desc_type
    then parse_taproot d expression allow_multisig
    else parse_single d

-- `not expression or len(expression) > 4096`
abbrev pub has_bad_length : List ℕ → Bool
has_bad_length expression = length expression == 0 || ltb 4096 (length expression)

module _ (bdk : Reader) where
  -- `DescriptorAdapter.parse`
  unfoldable pub parse : List ℕ → Network → Bool → Result ParsedDescriptor
  parse expression network allow_multisig =
      if has_bad_length expression
      then err descriptor_parse_error
      else elim (bdk expression network) [
        | none ↦ err descriptor_parse_error
        | some d ↦ parse_script d expression allow_multisig
      ]

pub record DerivedAddress : Type 0 where
  pub address : String
  pub derivation_index : ℕ

-- the loop of `derive_addresses`
unfoldable pub derive_from : Script → ℕ → ℕ → Result (List DerivedAddress)
derive_from d start zero = ok []
derive_from d start (suc count) = elim (d.derive start) [
  | none ↦ err uncaught
  | some a ↦ derive_from d (suc start) count >>= λ rest.
      ok (record { address = a; derivation_index = start } ∷ rest)
]

-- a `bdk.Descriptor` that is built again
abbrev pub with_script : {T : Type 0} → Option Script → (Script → Result T) → Result T
with_script none next = err uncaught
with_script (some d) next = next d

module _ (bdk : Reader) where
  -- `DescriptorAdapter.derive_addresses`
  unfoldable pub derive_addresses : List ℕ → Network → ℤ → ℤ → Bool → Result (List DerivedAddress)
  derive_addresses expression network start_index count allow_multisig = do
    refuse_if (ltb_ℤ count (pos 0))
    refuse_if (ltb_ℤ start_index (pos 0))
    _ ← parse bdk expression network allow_multisig
    with_script (bdk expression network)
        (λ d. derive_from d (pos_part start_index) (pos_part count))

  -- `DescriptorAdapter.derive_address`
  unfoldable pub derive_address : List ℕ → Network → ℤ → Bool → Result String
  derive_address expression network index allow_multisig = do
    refuse_if (ltb_ℤ index (pos 0))
    _ ← parse bdk expression network allow_multisig
    with_script (bdk expression network)
        (λ d. elim (d.derive (pos_part index)) [ none ↦ err uncaught | some a ↦ ok a ])
