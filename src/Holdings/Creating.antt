-- ===== src/Holdings/Creating.antt =====
-- backend/tallykeep/services/holding_service.py: `create_purse`, `create_strongbox` and `create_vault`.
use tallykeep.Prelude.{
  ℕ, String, Bool, true, false, not, ◌||◌, Option, none, some, List, [], ◌∷◌, ℤ, pos, is_some,
}
use tallykeep.Errors.{holding_service_error}
use tallykeep.Table.{add}
use tallykeep.Domain.Enums.{HoldingType, Purpose, PurseMode, purse, strongbox, vault}
use tallykeep.Domain.Holding.{Holding, SecurityClaim, new_holding}
use tallykeep.Db.{HoldingRow, SubtypeData}
use tallykeep.Db.Session.{Session, pure, raise, raise_if, lift, write, flush_session, ◌>>=◌, ◌>>◌}
use tallykeep.Repositories.Holdings.{holding_of_row}
use tallykeep.Descriptors.Reading.{TimelockKind, cltv, csv}
use tallykeep.Descriptors.Parsing.{ParsedDescriptor, parse}
use tallykeep.Descriptors.Patterns.{codes}
use tallykeep.Holdings.{Outside, DescriptorInput, wrap_parse, import_descriptor}

-- the arguments that the three functions share, with the id that the holding is given
pub record HoldingInput : Type 0 where
  pub id : ℕ
  pub name : String
  pub description : Option String
  pub purpose : Purpose
  pub declared_security : SecurityClaim
  pub display_color : String
  pub display_order : ℤ
  pub descriptors : List DescriptorInput

abbrev pub no_subtype_data : SubtypeData
no_subtype_data = record {
  purse_mode = none;
  signing_device_label = none;
  vendor = none;
  signing_metadata_present = none;
  required_signers = none;
  total_signers = none;
  timelock_kind = none;
  timelock_value = none;
  recovery_setup_notes = none;
}

-- the columns that a holding is given, with the times
abbrev pub row_of_input : HoldingType → HoldingInput → SubtypeData → ℕ → HoldingRow
row_of_input holding_type input data_ now = record {
  id = input.id;
  holding_type = holding_type;
  name = input.name;
  description = input.description;
  purpose = input.purpose;
  declared_security = input.declared_security;
  subtype_data = data_;
  display_color = input.display_color;
  display_order = input.display_order;
  created_at = now;
  updated_at = now;
}

module _ (o : Outside) where
  -- the loop over the descriptors: their ids
  unfoldable pub import_all : ℕ → List DescriptorInput → Bool → Session (List ℕ)
  import_all id [] allow_multisig = pure []
  import_all id (spec ∷ specs) allow_multisig = do
    descriptor ← import_descriptor o id spec allow_multisig
    rest ← import_all id specs allow_multisig
    pure (descriptor.id ∷ rest)

  -- `_create_holding_with_descriptors`, `insert_row` included: the row has the times of the database, and
  -- the object that is returned those of the service; the extra arguments of the constructor are the
  -- columns of `subtype_data`
  unfoldable pub create_holding : HoldingType → HoldingInput → SubtypeData → Bool → Session Holding
  create_holding holding_type input subtype allow_multisig = do
    write (λ d. record d {
      holdings = add (row_of_input holding_type input subtype o.server_now) d.holdings;
    })
    flush_session
    descriptor_ids ← import_all input.id input.descriptors allow_multisig
    lift (
        new_holding
          (holding_of_row (row_of_input holding_type input subtype o.now) descriptor_ids none))

  -- `create_purse`
  unfoldable pub create_purse : HoldingInput → PurseMode → Session Holding
  create_purse input mode =
      create_holding purse input record no_subtype_data { purse_mode = some mode } false

  -- `create_strongbox`
  unfoldable pub create_strongbox :
      HoldingInput → Option String → Option String → Option Bool → Session Holding
  create_strongbox input label vendor present =
      create_holding strongbox input
        record no_subtype_data {
          signing_device_label = label;
          vendor = vendor;
          signing_metadata_present = present;
        }
        false

  abbrev count_of : Option ℕ → Option ℤ
  count_of none = none
  count_of (some n) = some (pos n)

  abbrev kind_of : Option (TimelockKind × ℕ) → Option String
  kind_of none = none
  kind_of (some (cltv, _)) = some "cltv"
  kind_of (some (csv, _)) = some "csv"

  abbrev value_of : Option (TimelockKind × ℕ) → Option ℤ
  value_of none = none
  value_of (some (_, n)) = some (pos n)

  -- the metadata of a Vault, as its first descriptor has it
  abbrev vault_data : ParsedDescriptor → Option String → SubtypeData
  vault_data p notes = record no_subtype_data {
    required_signers = count_of p.signers.required_signers;
    total_signers = count_of p.signers.total_signers;
    timelock_kind = kind_of p.timelock;
    timelock_value = value_of p.timelock;
    recovery_setup_notes = notes;
  }

  abbrev create_vault_from : HoldingInput → List DescriptorInput → Option String → Session Holding
  create_vault_from input [] notes = raise holding_service_error
  create_vault_from input (first ∷ _) notes = do
    p ← lift (wrap_parse (parse o.bdk (codes first.expression) first.network true))
    raise_if (not (p.is_multisig || is_some p.timelock)) holding_service_error
    create_holding vault input (vault_data p notes) true

  -- `create_vault`
  unfoldable pub create_vault : HoldingInput → Option String → Session Holding
  create_vault input notes = create_vault_from input input.descriptors notes
