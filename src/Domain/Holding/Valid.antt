-- ===== src/Domain/Holding/Valid.antt =====
-- What the constructor of a Holding accepts, stated without its order of checks.
use tallykeep.Prelude.{
  ◌≡◌, ◌≢◌, ◌↔◌, ◌⊎◌, true, Option, none, some, [], arith, ℤ, pos, ◌≤ℤ◌, String,
}
use tallykeep.Errors.{ok, err, value_error}
use tallykeep.Domain.Enums.{account, strongbox, vault, not_applicable, third_party}
use tallykeep.Domain.Holding.{Holding, new_holding, is_timelock_kind}

-- no vault metadata
pub record NoVaultData (h : Holding) : Type 0 where
  pub no_required : h.required_signers ≡ none
  pub no_total : h.total_signers ≡ none
  pub no_kind : h.timelock_kind ≡ none
  pub no_value : h.timelock_value ≡ none
  pub no_recovery : h.recovery_setup_notes ≡ none

-- no strongbox metadata
pub record NoStrongboxData (h : Holding) : Type 0 where
  pub no_label : h.signing_device_label ≡ none
  pub no_vendor : h.vendor ≡ none
  pub no_present : h.signing_metadata_present ≡ none

-- an m-of-n pair is absent, or 1 ≤ m ≤ n
abbrev pub AreSigners : Option ℤ → Option ℤ → Type 0
AreSigners none none = Unit
AreSigners (some m) (some n) = (pos 1 ≤ℤ m) × (m ≤ℤ n)
AreSigners _ _ = ⊥

-- a value that is not negative, where there is one
abbrev pub IsNonneg : Option ℤ → Type 0
IsNonneg none = Unit
IsNonneg (some n) = pos 0 ≤ℤ n

-- A timelock kind is known and comes with a value.
pub record IsTimelock (kind : Option String) (value : Option ℤ) : Type 0 where
  pub known : is_timelock_kind kind ≡ true
  pub with_value : kind ≢ none → value ≢ none
  pub nonneg : IsNonneg value

-- An Account: a provider, no descriptor, custodial security.
pub record IsAccount (h : Holding) : Type 0 where
  pub no_descriptors : h.descriptor_ids ≡ []
  pub provider : h.custodial_provider_id ≢ none
  pub signing : h.declared_security.signing_model ≡ not_applicable
  pub custody : h.declared_security.custody_model ≡ third_party

-- A Purse, a Strongbox or a Vault: a descriptor, no provider, security of its own.
pub record IsSelfCustody (h : Holding) : Type 0 where
  pub descriptors : h.descriptor_ids ≢ []
  pub no_provider : h.custodial_provider_id ≡ none
  pub signing : h.declared_security.signing_model ≢ not_applicable
  pub custody : h.declared_security.custody_model ≢ third_party

pub record IsHolding (h : Holding) : Type 0 where
  pub of_account : h.holding_type ≡ account → IsAccount h
  pub of_self_custody : h.holding_type ≢ account → IsSelfCustody h
  pub of_strongbox : h.holding_type ≢ strongbox → NoStrongboxData h
  pub of_vault : h.holding_type ≢ vault → NoVaultData h
  pub signers : h.holding_type ≡ vault → AreSigners h.required_signers h.total_signers
  pub timelock : h.holding_type ≡ vault → IsTimelock h.timelock_kind h.timelock_value

-- the constructor returns what it was given, or raises `ValueError`
pub new_holding-cases : (h : Holding) → (new_holding h ≡ ok h) ⊎ (new_holding h ≡ err value_error)
unfolding new_holding
new_holding-cases h = ground arith

-- what the constructor accepts is a well-formed Holding
pub IsHolding-new_holding : (h : Holding) → new_holding h ≡ ok h → IsHolding h
unfolding new_holding
IsHolding-new_holding h e = ground arith

new_holding_complete : (h : Holding) → IsHolding h → new_holding h ≡ ok h
unfolding new_holding
new_holding_complete h v = ground arith

-- The constructor of a Holding accepts exactly the well-formed ones, and returns them unchanged.
pub new_holding_iff : (h : Holding) → (new_holding h ≡ ok h) ↔ IsHolding h
new_holding_iff h = (IsHolding-new_holding h, new_holding_complete h)
