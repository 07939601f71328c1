-- ===== src/Holdings.antt =====
-- backend/tallykeep/services/holding_service.py: the import of a descriptor with its addresses. BDK is a
-- parameter, and so are the ids that `uuid4` gives and the text of a derivation path.
pub mod Creating
pub mod Changing
pub mod Types
pub mod Imported
pub mod RoundTrip
use tallykeep.Prelude.{
  if◌then◌else◌, ℕ, String, Bool, true, false, not, ◌||◌, ◌++◌, Option, none, some, List, [], ◌∷◌,
  map, str_eq, any_of, ℤ, pos,
}
use tallykeep.Errors.{
  Error, Result, ok, err, descriptor_parse_error, unsupported_descriptor, holding_service_error,
  descriptor_already_exists,
}
use tallykeep.Table.{Table, add}
use tallykeep.Domain.Enums.{
  Network, AddressType, legacy, nested_segwit, native_segwit, taproot, same_address_type,
}
use tallykeep.Domain.Chain.{Descriptor, Address, new_descriptor}
use tallykeep.Db.{Db}
use tallykeep.Db.Session.{Session, pure, raise_if, lift, write, gets, flush_session, ◌>>=◌, ◌>>◌}
use tallykeep.Descriptors.Patterns.{codes}
use tallykeep.Descriptors.Parsing.{
  Reader, ParsedDescriptor, DerivedAddress, parse, derive_addresses,
}

-- what the service takes from outside, the clock, and `NOW()` of the database, which is the default of
-- `created_at` and `updated_at`
pub record Outside : Type 0 where
  pub bdk : Reader
  pub path_text : String → Bool → ℕ → String
  pub now : ℕ
  pub server_now : ℕ

-- `DescriptorInput`, with the ids that its rows are given
pub record DescriptorInput : Type 0 where
  pub name : String
  pub expression : String
  pub change_expression : Option String
  pub network : Network
  pub gap_limit : ℤ
  pub descriptor_id : ℕ
  pub external_id : ℕ → ℕ
  pub change_id : ℕ → ℕ

-- `_BIP44_PATH_BY_ADDRESS_TYPE.get(..., "m/0")`
abbrev derivation_root : AddressType → String
derivation_root legacy = "m/44'/0'/0'"
derivation_root nested_segwit = "m/49'/0'/0'"
derivation_root native_segwit = "m/84'/0'/0'"
derivation_root taproot = "m/86'/0'/0'"
derivation_root _ = "m/0"

-- `except (DescriptorParseError, UnsupportedDescriptorError)`
abbrev pub wrap_parse : {T : Type 0} → Result T → Result T
wrap_parse (ok t) = ok t
wrap_parse (err descriptor_parse_error) = err holding_service_error
wrap_parse (err unsupported_descriptor) = err holding_service_error
wrap_parse (err e) = err e

module _ (o : Outside) where
  abbrev pub parsed : String → Network → Bool → Result ParsedDescriptor
  parsed expression network allow = wrap_parse (parse o.bdk (codes expression) network allow)

  -- the checks of the change descriptor
  abbrev pub check_change : Option String → Network → Bool → AddressType → Session (Unit {0})
  check_change none network allow address_type = pure tt
  check_change (some change) network allow address_type = do
    p ← lift (parsed change network allow)
    raise_if (not (same_address_type p.address_type address_type)) holding_service_error

  abbrev pub descriptor_of : ℕ → DescriptorInput → AddressType → Descriptor
  descriptor_of holding_id spec address_type = record {
    id = spec.descriptor_id;
    holding_id = holding_id;
    name = spec.name;
    expression = spec.expression;
    change_expression = spec.change_expression;
    network = spec.network;
    address_type = address_type;
    gap_limit = spec.gap_limit;
    is_watch_only = true;
    last_scanned_height = pos 0;
    created_at = o.now;
  }

  abbrev pub address_of : ℕ → AddressType → Bool → (ℕ → ℕ) → DerivedAddress → Address
  address_of descriptor_id address_type is_change new_id a = record {
    id = new_id a.derivation_index;
    descriptor_id = descriptor_id;
    address = a.address;
    derivation_path = o.path_text (derivation_root address_type) is_change a.derivation_index;
    is_change = is_change;
    derivation_index = a.derivation_index;
    label = none;
    first_seen_height = none;
    is_reused = false;
  }

  -- the addresses of one of the two chains
  abbrev pub derived : String → DescriptorInput → AddressType → Bool → Bool → Session (List Address)
  derived expression spec address_type is_change allow = do
    found ←
        lift (derive_addresses o.bdk (codes expression) spec.network (pos 0) spec.gap_limit allow)
    pure (
        map
          (address_of spec.descriptor_id address_type is_change
            (if is_change then spec.change_id else spec.external_id))
          found)

  abbrev pub derived_change :
      Option String → DescriptorInput → AddressType → Bool → Session (List Address)
  derived_change none spec address_type allow = pure []
  derived_change (some change) spec address_type allow = derived change spec address_type true allow

  abbrev pub store_descriptor : Descriptor → Session (Unit {0})
  store_descriptor x =
      write
        (λ d. record d { descriptors = add (record x { created_at = o.server_now }) d.descriptors })
      >> flush_session

  -- `insert_descriptor`, with the constraint `uq_descriptor_expression`: a collision rolls back
  abbrev pub insert_descriptor : Descriptor → Session (Unit {0})
  insert_descriptor x = do
    collides ← gets (λ d. any_of (λ y. str_eq y.expression x.expression) d.descriptors.rows)
    raise_if collides descriptor_already_exists
    store_descriptor x

  -- `insert_addresses`
  abbrev pub insert_addresses : List Address → Session (Unit {0})
  insert_addresses new =
      write
        λ d. record d { addresses = record d.addresses { pending = d.addresses.pending ++ new } }

  -- `_import_descriptor`: the descriptor
  unfoldable pub import_descriptor : ℕ → DescriptorInput → Bool → Session Descriptor
  import_descriptor holding_id spec allow_multisig = do
    external ← lift (parsed spec.expression spec.network allow_multisig)
    check_change spec.change_expression spec.network allow_multisig external.address_type
    descriptor ← lift (new_descriptor (descriptor_of holding_id spec external.address_type))
    insert_descriptor descriptor
    on_external ← derived spec.expression spec external.address_type false allow_multisig
    on_change ← derived_change spec.change_expression spec external.address_type allow_multisig
    insert_addresses (on_external ++ on_change)
    pure descriptor
