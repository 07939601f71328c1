-- ===== src/Holdings/Changing.antt =====
-- backend/tallykeep/services/holding_service.py: `list_holdings`, `update_holding`, `delete_holding` and
-- `change_holding_type`, with the functions of repositories/holding.py that they call.
use tallykeep.Prelude.{
  or_else, ℕ, String, Bool, true, false, not, ◌&&◌, ◌||◌, ◌==◌, Option, none, some, List, [], ◌∷◌,
  ℤ, ltb_ℤ, ltb, str_eq, is_empty, if◌then◌else◌, get_or, filter_by,
}
use tallykeep.Errors.{Result, ok, err, holding_service_error, value_error}
use tallykeep.Table.{add, get, modify, select}
use tallykeep.Domain.Enums.{HoldingType, Purpose, is_account, is_strongbox, is_vault}
use tallykeep.Domain.Holding.{Holding, SecurityClaim, new_holding}
use tallykeep.Domain.Provider.{CustodialProvider}
use tallykeep.Db.{Db, HoldingRow, HoldingTypeChange, holding_key}
use tallykeep.Db.Session.{Session, pure, raise_if, lift, write, gets, ◌>>=◌, ◌>>◌}
use tallykeep.Repositories.Holdings.{
  holding_of_row, build_holding, descriptor_ids_for_holding, provider_id_for_holding,
}
use tallykeep.Repositories.Providers.{provider_by_holding}
use tallykeep.Repositories.Cascade.{delete_cascade}

-- `order_by(HoldingRow.display_order, HoldingRow.created_at)`
abbrev comes_before : HoldingRow → HoldingRow → Bool
comes_before a b =
    ltb_ℤ a.display_order b.display_order
    || (not (ltb_ℤ b.display_order a.display_order) && ltb a.created_at b.created_at)

unfoldable pub insert_row_sorted : HoldingRow → List HoldingRow → List HoldingRow
insert_row_sorted r [] = r ∷ []
insert_row_sorted r (x ∷ xs) =
    let later = insert_row_sorted r xs in if comes_before x r then x ∷ later else r ∷ x ∷ xs

unfoldable pub sort_rows : List HoldingRow → List HoldingRow
sort_rows [] = []
sort_rows (r ∷ rs) = insert_row_sorted r (sort_rows rs)

-- `cp_by_holding.get(row.id)`: the last row of a holding is in the dictionary
unfoldable pub last_provider : ℕ → List CustodialProvider → Option ℕ
last_provider id [] = none
last_provider id (p ∷ ps) =
    let later = last_provider id ps in
    elim later [ some i ↦ some i | none ↦ if p.holding_id == id then some p.id else none ]

abbrev listed_holding : Db → HoldingRow → Result Holding
listed_holding d r = new_holding (
    holding_of_row r (descriptor_ids_for_holding r.id d)
      (if is_account r.holding_type then last_provider r.id d.providers.rows else none))

unfoldable pub build_listed : Db → List HoldingRow → Result (List Holding)
build_listed d [] = ok []
build_listed d (r ∷ rs) = elim (listed_holding d r) [
  | ok h ↦ elim (build_listed d rs) [ ok hs ↦ ok (h ∷ hs) | err e ↦ err e ]
  | err e ↦ err e
]

-- `list_holdings`, for the optional filters
unfoldable pub list_holdings : (HoldingType → Bool) → (Purpose → Bool) → Session (List Holding)
list_holdings of_type of_purpose d =
    let rows =
      sort_rows (select (λ r. of_type r.holding_type && of_purpose r.purpose) d.holdings) in
    (build_listed d rows, d)

-- an argument that may be left out, as `_UNSET` is, or be `None`
pub data Patch : Type 0 where
  unset : Patch
  set : Option String → Patch

abbrev pub is_set : Patch → Bool
is_set unset = false
is_set (set _) = true

abbrev patched : Patch → Option String → Option String
patched unset old = old
patched (set new) old = new

pub record HoldingUpdate : Type 0 where
  pub name : Option String
  pub description : Option String
  pub purpose : Option Purpose
  pub declared_security : Option SecurityClaim
  pub display_color : Option String
  pub display_order : Option ℤ
  pub signing_device_label : Patch
  pub recovery_setup_notes : Patch

abbrev apply_basics : HoldingUpdate → HoldingRow → HoldingRow
apply_basics u r = record r {
  name = get_or u.name r.name;
  description = or_else u.description r.description;
  purpose = get_or u.purpose r.purpose;
  display_color = get_or u.display_color r.display_color;
  display_order = get_or u.display_order r.display_order;
  declared_security = get_or u.declared_security r.declared_security;
}

abbrev set_label : Patch → HoldingRow → HoldingRow
set_label p r = record r {
  subtype_data = record r.subtype_data {
    signing_device_label = patched p r.subtype_data.signing_device_label;
  };
}

abbrev set_notes : Patch → HoldingRow → HoldingRow
set_notes p r = record r {
  subtype_data = record r.subtype_data {
    recovery_setup_notes = patched p r.subtype_data.recovery_setup_notes;
  };
}

abbrev change_holding : ℕ → (HoldingRow → HoldingRow) → Session (Unit {0})
change_holding id f = write λ d. record d { holdings = modify id f d.holdings }

abbrev update_found : ℕ → HoldingUpdate → ℕ → Option HoldingRow → Session (Option HoldingRow)
update_found id u now none = pure none
update_found id u now (some row) = do
  change_holding id (apply_basics u)
  raise_if (is_set u.signing_device_label && not (is_strongbox row.holding_type)) value_error
  change_holding id (set_label u.signing_device_label)
  raise_if (is_set u.recovery_setup_notes && not (is_vault row.holding_type)) value_error
  change_holding id (set_notes u.recovery_setup_notes)
  change_holding id (λ r. record r { updated_at = now })
  gets (λ d. get id d.holdings)

-- `update_basics`
unfoldable pub update_basics : ℕ → HoldingUpdate → ℕ → Session (Option HoldingRow)
update_basics id u now = do found ← gets (λ d. get id d.holdings); update_found id u now found

-- `update_holding`
unfoldable pub update_holding : ℕ → HoldingUpdate → ℕ → Session (Option Holding)
update_holding id u now = do
  found ← update_basics id u now
  ids ← gets (descriptor_ids_for_holding id)
  provider_id ← gets (provider_id_for_holding id)
  lift (build_holding found ids provider_id)

abbrev pub retyped : HoldingType → ℕ → HoldingRow → HoldingRow
retyped new_type now r = record r { holding_type = new_type; updated_at = now }

abbrev pub log_change : HoldingTypeChange → Session (Unit {0})
log_change log = write λ d. record d { type_changes = add log d.type_changes }

abbrev change_found :
    ℕ → HoldingType → Option String → ℕ → ℕ → Option HoldingRow → Session (Option HoldingRow)
change_found id new_type reason now log_id none = pure none
change_found id new_type reason now log_id (some row) = do
  log_change record {
    id = log_id;
    holding_id = id;
    previous_type = row.holding_type;
    new_type = new_type;
    reason = reason;
  }
  change_holding id (retyped new_type now)
  gets (λ d. get id d.holdings)

-- `change_type`
unfoldable pub change_type : ℕ → HoldingType → Option String → ℕ → ℕ → Session (Option HoldingRow)
change_type id new_type reason now log_id = do
  found ← gets (λ d. get id d.holdings)
  change_found id new_type reason now log_id found

-- `change_holding_type`, with the clock and the id of the log's row
unfoldable pub change_holding_type :
    ℕ → HoldingType → Option String → ℕ → ℕ → Session (Option Holding)
change_holding_type id new_type reason now log_id = do
  raise_if (is_account new_type) holding_service_error
  ids ← gets (descriptor_ids_for_holding id)
  raise_if (is_empty ids) holding_service_error
  found ← change_type id new_type reason now log_id
  lift (build_holding found ids none)

-- The secret store, by the references that it holds. A locked one raises, and the service goes on.
pub record Secrets : Type 0 where
  pub locked : Bool
  pub references : List String

-- `if ref: try: secret_store.delete_secret(ref) except ...: pass`
abbrev delete_secret : String → Secrets → Secrets
delete_secret ref s =
    if s.locked || str_eq ref ""
    then s
    else record s { references = filter_by (λ r. not (str_eq r ref)) s.references }

abbrev delete_optional : Option String → Secrets → Secrets
delete_optional none s = s
delete_optional (some ref) s = delete_secret ref s

abbrev wipe_secrets : Option CustodialProvider → Secrets → Secrets
wipe_secrets none s = s
wipe_secrets (some p) s =
    delete_optional p.api_passphrase_reference
      (delete_secret p.api_secret_reference (delete_secret p.api_credential_reference s))

abbrev wiped_for : HoldingRow → Secrets → Session Secrets
wiped_for row s =
    if is_account row.holding_type
    then (provider_by_holding row.id >>= λ p. pure (wipe_secrets p s))
    else pure s

abbrev delete_found_holding : ℕ → Option HoldingRow → Secrets → Session (Bool × Secrets)
delete_found_holding id none s = pure (false, s)
delete_found_holding id (some row) s = do
  rest ← wiped_for row s
  deleted ← delete_cascade id
  pure (deleted, rest)

-- `delete_holding`, with the secret store that it leaves
unfoldable pub delete_holding : ℕ → Secrets → Session (Bool × Secrets)
delete_holding id s = do found ← gets (λ d. get id d.holdings); delete_found_holding id found s
