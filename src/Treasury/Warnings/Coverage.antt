-- ===== src/Treasury/Warnings/Coverage.antt =====
-- Which warnings a sweep policy gets.
use tallykeep.Prelude.{
  refl, ◌≡◌, ◌≢◌, ◌↔◌, Bool, true, false, not, none, some, ◌&&◌, Option, List, arith, ℤ, is_none,
  any_of,
}
use tallykeep.Domain.Enums.{
  SafetyWarningKind, destination_keys_on_host, destination_is_custodial, same_security_tier,
  no_maximum_cap_set, unverified_whitelist_on_provider, account, purse, HoldingType, SigningModel,
  not_applicable, is_not_applicable, same_signing, is_account, is_purse, same_kind,
}
use tallykeep.Domain.Holding.{Holding}
use tallykeep.Domain.Sweep.{SafetyWarning}
use tallykeep.Domain.Provider.{CustodialProvider}
use tallykeep.Treasury.Warnings.{run_checks, same_tier, is_unverified, compute_safety_warnings}

-- a warning of kind `k` is in the list
abbrev pub has_kind : SafetyWarningKind → List SafetyWarning → Bool
has_kind k ws = any_of (λ w. same_kind w.kind k) ws

-- The risk that a kind of warning stands for: the destination is a purse, or an account; both holdings
-- declare one signing model, which is applicable; there is no cap; or the source is an account whose
-- provider has no verified whitelist.
abbrev pub IsRisk :
    Holding → Holding → Option ℤ → Option CustodialProvider → SafetyWarningKind → Type 0
IsRisk src dst cap provider destination_keys_on_host = dst.holding_type ≡ purse
IsRisk src dst cap provider destination_is_custodial = dst.holding_type ≡ account
IsRisk src dst cap provider same_security_tier =
    (src.declared_security.signing_model ≡ dst.declared_security.signing_model)
    × (src.declared_security.signing_model ≢ not_applicable)
IsRisk src dst cap provider no_maximum_cap_set = cap ≡ none
IsRisk src dst cap provider unverified_whitelist_on_provider =
    (src.holding_type ≡ account)
    × (p : CustodialProvider) × (provider ≡ some p)
    × (p.whitelist_verified ≡ false)

-- the guard of a kind of warning
abbrev guard : Holding → Holding → Option ℤ → Option CustodialProvider → SafetyWarningKind → Bool
guard src dst cap provider destination_keys_on_host = is_purse dst.holding_type
guard src dst cap provider destination_is_custodial = is_account dst.holding_type
guard src dst cap provider same_security_tier = same_tier src dst
guard src dst cap provider no_maximum_cap_set = is_none cap
guard src dst cap provider unverified_whitelist_on_provider =
    is_account src.holding_type && is_unverified provider

compute_safety_warnings-guard :
    (src dst : Holding) (cap : Option ℤ) (provider : Option CustodialProvider)
    (existing : List SafetyWarning) (k : SafetyWarningKind)
    → has_kind k (compute_safety_warnings src dst cap provider existing)
      ≡ guard src dst cap provider k
unfolding compute_safety_warnings run_checks
compute_safety_warnings-guard src dst cap provider existing destination_keys_on_host = ground arith
compute_safety_warnings-guard src dst cap provider existing k = ground arith

is_purse_iff : (t : HoldingType) → (is_purse t ≡ true) ↔ (t ≡ purse)
is_purse_iff t = ground arith

is_account_iff : (t : HoldingType) → (is_account t ≡ true) ↔ (t ≡ account)
is_account_iff t = ground arith

same_tier_iff :
    (a b : SigningModel)
    → ((same_signing a b && not (is_not_applicable a)) ≡ true) ↔ ((a ≡ b) × (a ≢ not_applicable))
same_tier_iff a b = ground arith

is_none_iff : (cap : Option ℤ) → (is_none cap ≡ true) ↔ (cap ≡ none)
is_none_iff cap = ground arith

is_unverified_iff :
    (t : HoldingType) (o : Option CustodialProvider)
    → ((is_account t && is_unverified o) ≡ true)
      ↔ ((t ≡ account) × (p : CustodialProvider) × (o ≡ some p) × (p.whitelist_verified ≡ false))
is_unverified_iff t none =
    (λ e. ground arith, λ (of_account, p, found, unverified). ground (arith, found))
is_unverified_iff t (some p) = (
  λ e. (ground arith, p, refl, ground arith),
  λ (of_account, q, found, unverified). ground (arith, of_account, found, unverified),
)

guard-IsRisk :
    (src dst : Holding) (cap : Option ℤ) (provider : Option CustodialProvider)
    (k : SafetyWarningKind)
    → (guard src dst cap provider k ≡ true) ↔ IsRisk src dst cap provider k
guard-IsRisk src dst cap provider destination_keys_on_host = is_purse_iff dst.holding_type
guard-IsRisk src dst cap provider destination_is_custodial = is_account_iff dst.holding_type
guard-IsRisk src dst cap provider same_security_tier =
    same_tier_iff src.declared_security.signing_model dst.declared_security.signing_model
guard-IsRisk src dst cap provider no_maximum_cap_set = is_none_iff cap
guard-IsRisk src dst cap provider unverified_whitelist_on_provider =
    is_unverified_iff src.holding_type provider

-- A kind of warning is in the computed list exactly when its risk is there: no risk is passed over,
-- and none is reported that is not there.
pub compute_safety_warnings-IsRisk :
    (src dst : Holding) (cap : Option ℤ) (provider : Option CustodialProvider)
    (existing : List SafetyWarning) (k : SafetyWarningKind)
    → (has_kind k (compute_safety_warnings src dst cap provider existing) ≡ true)
      ↔ IsRisk src dst cap provider k
compute_safety_warnings-IsRisk src dst cap provider existing k =
    rw (compute_safety_warnings-guard src dst cap provider existing k)
      (guard-IsRisk src dst cap provider k)
