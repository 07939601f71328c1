-- ===== src/Repositories/Holdings.antt =====
-- backend/tallykeep/repositories/holding.py, and `get_holding` of services/holding_service.py.
use tallykeep.Prelude.{arith, ℕ, Option, none, some, List, map, ◌==◌, ◌≡◌, refl, find_first}
use tallykeep.Errors.{Result, ok, err}
use tallykeep.Domain.Enums.{account}
use tallykeep.Errors.{value_error}
use tallykeep.Table.{get, select}
use tallykeep.Domain.Holding.{Holding, new_holding}
use tallykeep.Domain.Chain.{Descriptor}
use tallykeep.Domain.Provider.{CustodialProvider}
use tallykeep.Db.{Db, HoldingRow, holding_key}
use tallykeep.Db.Session.{Session}

-- the arguments that `_row_to_domain` hands to the constructor
abbrev pub holding_of_row : HoldingRow → List ℕ → Option ℕ → Holding
holding_of_row r descriptor_ids provider_id = record {
  id = r.id;
  holding_type = r.holding_type;
  name = r.name;
  description = r.description;
  purpose = r.purpose;
  declared_security = r.declared_security;
  display_color = r.display_color;
  display_order = r.display_order;
  created_at = r.created_at;
  updated_at = r.updated_at;
  custodial_provider_id = provider_id;
  descriptor_ids = descriptor_ids;
  purse_mode = r.subtype_data.purse_mode;
  signing_device_label = r.subtype_data.signing_device_label;
  vendor = r.subtype_data.vendor;
  signing_metadata_present = r.subtype_data.signing_metadata_present;
  required_signers = r.subtype_data.required_signers;
  total_signers = r.subtype_data.total_signers;
  timelock_kind = r.subtype_data.timelock_kind;
  timelock_value = r.subtype_data.timelock_value;
  recovery_setup_notes = r.subtype_data.recovery_setup_notes;
}

abbrev pub build_holding : Option HoldingRow → List ℕ → Option ℕ → Result (Option Holding)
build_holding none ids provider_id = ok none
build_holding (some r) ids provider_id = elim (new_holding (holding_of_row r ids provider_id)) [
  | ok h ↦ ok (some h)
  | err e ↦ err e
]

-- `holding_repo.get`
abbrev pub holding_get : ℕ → List ℕ → Option ℕ → Session (Option Holding)
holding_get id ids provider_id d = (build_holding (get id d.holdings) ids provider_id, d)

-- `descriptor_repo.descriptor_ids_for_holding`. `ORDER BY created_at` leaves the order of rows open that
-- one transaction has inserted, since they share that time; here the rows are in the order in which they
-- were inserted.
abbrev pub descriptor_ids_for_holding : ℕ → Db → List ℕ
descriptor_ids_for_holding id d =
    map (λ (x : Descriptor). x.id) (select (λ x. x.holding_id == id) d.descriptors)

-- the id of the provider of a holding
abbrev pub provider_id_of : Option CustodialProvider → Option ℕ
provider_id_of none = none
provider_id_of (some p) = some p.id

abbrev pub provider_id_for_holding : ℕ → Db → Option ℕ
provider_id_for_holding id d =
    provider_id_of (find_first (λ p. p.holding_id == id) d.providers.rows)

-- the rest of `get_holding`, for the ids of the descriptors in the order that the database gives them
abbrev pub get_holding_as : List ℕ → ℕ → Session (Option Holding)
get_holding_as ids id d = holding_get id ids (provider_id_for_holding id d) d

-- `holding_service.get_holding`
unfoldable pub get_holding : ℕ → Session (Option Holding)
get_holding id d = get_holding_as (descriptor_ids_for_holding id d) id d

pub get_holding-unchanged : (id : ℕ) (d : Db) → (get_holding id d).1 ≡ d
unfolding get_holding
get_holding-unchanged id d = refl

-- An Account that is read without its provider is refused.
pub holding_get-account :
    (id : ℕ) (ids : List ℕ) (d : Db) (row : HoldingRow)
    → get id d.holdings ≡ some row
    → row.holding_type ≡ account
    → holding_get id ids none d ≡ (err value_error, d)
unfolding new_holding
holding_get-account id ids d row found of_account = ground arith
