-- ===== src/Holdings/Types.antt =====
-- Which changes of a holding's type succeed: what the old type has put into `subtype_data` stays there.
use tallykeep.Prelude.{
  ℕ, Bool, false, not, ◌&&◌, ◌||◌, ◌≡◌, refl, ◌∙◌, Option, none, some, List, is_some, is_empty,
  if◌then◌else◌, arith, ==_refl, String,
}
use tallykeep.Errors.{ok, err, value_error}
use tallykeep.Table.{get, modify}
use tallykeep.Table.Laws.{get-modify}
use tallykeep.Domain.Enums.{
  HoldingType, account, purse, strongbox, vault, is_account, is_strongbox, is_vault,
}
use tallykeep.Domain.Holding.{new_holding}
use tallykeep.Db.{Db, HoldingRow, SubtypeData, holding_key}
use tallykeep.Repositories.Holdings.{holding_of_row, build_holding, descriptor_ids_for_holding}
use tallykeep.Holdings.Changing.{retyped, change_type, change_holding_type}

abbrev has_strongbox_data : SubtypeData → Bool
has_strongbox_data s =
    is_some s.signing_device_label || is_some s.vendor || is_some s.signing_metadata_present

abbrev has_vault_data : SubtypeData → Bool
has_vault_data s =
    is_some s.required_signers
    || is_some s.total_signers
    || is_some s.timelock_kind
    || is_some s.timelock_value
    || is_some s.recovery_setup_notes

-- data of a type that is not the new one
abbrev pub has_leftover : HoldingType → SubtypeData → Bool
has_leftover t s =
    (not (is_strongbox t) && has_strongbox_data s) || (not (is_vault t) && has_vault_data s)

-- the constructor on the row of a valid holding, with another type
retyped-built :
    (t : HoldingType) (now : ℕ) (row : HoldingRow) (ids : List ℕ)
    → is_account t ≡ false
    → is_empty ids ≡ false
    → new_holding (holding_of_row row ids none) ≡ ok (holding_of_row row ids none)
    → build_holding (some (retyped t now row)) ids none ≡ (
        if has_leftover t row.subtype_data
        then err value_error
        else ok (some (holding_of_row (retyped t now row) ids none)))
unfolding new_holding
retyped-built account now row ids h k valid = ground arith
retyped-built purse now row ids h k valid = ground arith
retyped-built strongbox now row ids h k valid = ground arith
retyped-built vault now row ids h k valid = ground arith

-- A change of type to a Purse, a Strongbox or a Vault, of a stored and valid holding with a descriptor:
-- it raises `ValueError` where `subtype_data` has a field that only another type than the new one may
-- have, and it returns the holding with the new type where there is none. Of a Vault with signers or of a
-- Strongbox with a device label, no change to another type succeeds.
pub change_holding_type-leftover :
    (id : ℕ) (t : HoldingType) (reason : Option String) (now log_id : ℕ) (d : Db) (row : HoldingRow)
    → get id d.holdings ≡ some row
    → is_account t ≡ false
    → is_empty (descriptor_ids_for_holding id d) ≡ false
    → new_holding (holding_of_row row (descriptor_ids_for_holding id d) none)
      ≡ ok (holding_of_row row (descriptor_ids_for_holding id d) none)
    → (change_holding_type id t reason now log_id d).0 ≡ (
        if has_leftover t row.subtype_data
        then err value_error
        else ok (some (holding_of_row (retyped t now row) (descriptor_ids_for_holding id d) none)))
unfolding change_holding_type change_type
change_holding_type-leftover id t reason now log_id d row found not_account some_ids valid =
    let written : get id (modify id (retyped t now) d.holdings) ≡ some (retyped t now row) =
      get-modify (retyped t now) (λ r. refl) id id d.holdings ∙ cc (==_refl id, found) in
    ground
      (arith, retyped-built t now row (descriptor_ids_for_holding id d) not_account some_ids valid)
