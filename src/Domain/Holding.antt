-- ===== src/Domain/Holding.antt =====
-- backend/tallykeep/domain/holding.py: the record of a Holding and the checks of `__post_init__`.
pub mod Valid
use tallykeep.Prelude.{
  ℕ, String, Bool, true, false, not, ◌||◌, ◌&&◌, Option, none, some, List, is_some, is_none,
  is_empty, if◌then◌else◌, ℤ, pos, ltb_ℤ, str_eq,
}
use tallykeep.Errors.{Result, ok, err, value_error, ◌>>◌, refuse_if}
use tallykeep.Domain.Enums.{
  HoldingType, Purpose, CustodyModel, SigningModel, PurseMode, is_account, is_strongbox, is_vault,
  is_not_applicable, is_third_party,
}

pub record SecurityClaim : Type 0 where
  pub custody_model : CustodyModel
  pub signing_model : SigningModel
  pub geographic_distribution : Bool
  pub inheritance_configured : Bool
  pub notes : Option String

pub record Holding : Type 0 where
  pub id : ℕ
  pub holding_type : HoldingType
  pub name : String
  pub description : Option String
  pub purpose : Purpose
  pub declared_security : SecurityClaim
  pub display_color : String
  pub display_order : ℤ
  pub created_at : ℕ
  pub updated_at : ℕ
  pub custodial_provider_id : Option ℕ
  pub descriptor_ids : List ℕ
  pub purse_mode : Option PurseMode
  pub signing_device_label : Option String
  pub vendor : Option String
  pub signing_metadata_present : Option Bool
  pub required_signers : Option ℤ
  pub total_signers : Option ℤ
  pub timelock_kind : Option String
  pub timelock_value : Option ℤ
  pub recovery_setup_notes : Option String

-- `_reject_vault_metadata`
abbrev pub reject_vault_metadata : Holding → Result (Unit {0})
reject_vault_metadata h = refuse_if (
    is_some h.required_signers
    || is_some h.total_signers
    || is_some h.timelock_kind
    || is_some h.timelock_value
    || is_some h.recovery_setup_notes)

-- `_reject_strongbox_metadata`
abbrev pub reject_strongbox_metadata : Holding → Result (Unit {0})
reject_strongbox_metadata h = do
  refuse_if (is_some h.signing_device_label)
  refuse_if (is_some h.vendor)
  refuse_if (is_some h.signing_metadata_present)

-- both or neither of the signer counts, and `1 <= required <= total`
abbrev pub check_signers : Option ℤ → Option ℤ → Result (Unit {0})
check_signers none none = ok tt
check_signers (some required) (some total) = do
  refuse_if (ltb_ℤ required (pos 1))
  refuse_if (ltb_ℤ total required)
check_signers _ _ = err value_error

abbrev pub is_timelock_kind : Option String → Bool
is_timelock_kind none = true
is_timelock_kind (some kind) = str_eq kind "cltv" || str_eq kind "csv"

abbrev pub is_negative : Option ℤ → Bool
is_negative none = false
is_negative (some n) = ltb_ℤ n (pos 0)

-- `_validate_vault_metadata`
abbrev pub validate_vault_metadata : Holding → Result (Unit {0})
validate_vault_metadata h = do
  check_signers h.required_signers h.total_signers
  refuse_if (not (is_timelock_kind h.timelock_kind))
  refuse_if (is_some h.timelock_kind && is_none h.timelock_value)
  refuse_if (is_negative h.timelock_value)

-- the branch of `__post_init__` for an Account, and the one for the other types
abbrev pub check_backing : Bool → Holding → Result (Unit {0})
check_backing true h = do
  refuse_if (not (is_empty h.descriptor_ids))
  refuse_if (is_none h.custodial_provider_id)
  refuse_if (not (is_not_applicable h.declared_security.signing_model))
  refuse_if (not (is_third_party h.declared_security.custody_model))
  reject_vault_metadata h
  reject_strongbox_metadata h
check_backing false h = do
  refuse_if (is_empty h.descriptor_ids)
  refuse_if (is_some h.custodial_provider_id)
  refuse_if (is_not_applicable h.declared_security.signing_model)
  refuse_if (is_third_party h.declared_security.custody_model)

-- `Holding.__post_init__`: the constructor returns the object or raises `ValueError`
unfoldable pub new_holding : Holding → Result Holding
new_holding h = do
  check_backing (is_account h.holding_type) h
  if is_strongbox h.holding_type then ok tt else reject_strongbox_metadata h
  if is_vault h.holding_type then validate_vault_metadata h else reject_vault_metadata h
  ok h
