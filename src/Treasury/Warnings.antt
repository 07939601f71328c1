-- ===== src/Treasury/Warnings.antt =====
-- `_compute_safety_warnings` of backend/tallykeep/services/treasury_service.py.
use Prim.Native.String.{◌++◌ as text_append}
pub mod Coverage
pub mod Carryover
use tallykeep.Prelude.{
  String, Bool, true, false, not, ◌&&◌, Option, none, some, List, [], ◌∷◌, if◌then◌else◌, ℤ, get_or,
  or_else, is_none, str_eq,
}
use tallykeep.Domain.Enums.{
  SigningModel, not_applicable, software_hot, hardware_offline, airgapped, ceremonial, unknown,
  SafetyWarningKind, destination_keys_on_host, destination_is_custodial, same_security_tier,
  no_maximum_cap_set, unverified_whitelist_on_provider, SafetyWarningSeverity, medium, high,
  is_account, is_purse, is_not_applicable, same_signing, same_kind,
}
use tallykeep.Domain.Holding.{Holding}
use tallykeep.Domain.Sweep.{SafetyWarning}
use tallykeep.Domain.Provider.{CustodialProvider}

-- `SigningModel.value`
abbrev pub signing_value : SigningModel → String
signing_value not_applicable = "not_applicable"
signing_value software_hot = "software_hot"
signing_value hardware_offline = "hardware_offline"
signing_value airgapped = "airgapped"
signing_value ceremonial = "ceremonial"
signing_value unknown = "unknown"

abbrev pub same_warning : SafetyWarningKind → String → SafetyWarning → Bool
same_warning k m w = same_kind w.kind k && str_eq w.message m

-- The dictionary `acked` at (kind, message): of two entries with one key the later one counts.
unfoldable pub acked : List SafetyWarning → SafetyWarningKind → String → Option Bool
acked [] k m = none
acked (w ∷ ws) k m =
    or_else (acked ws k m) (if same_warning k m w then some w.user_acknowledged else none)

-- One call of `_warn` with the `if` that guards it.
pub record Check : Type 0 where
  pub applies : Bool
  pub kind : SafetyWarningKind
  pub severity : SafetyWarningSeverity
  pub message : String

-- what `_warn` appends
abbrev pub warning_of : List SafetyWarning → Check → SafetyWarning
warning_of existing c = record {
  kind = c.kind;
  severity = c.severity;
  message = c.message;
  user_acknowledged = get_or (acked existing c.kind c.message) false;
}

-- the guarded calls of `_warn`, one after the other
unfoldable pub run_checks : List SafetyWarning → List Check → List SafetyWarning
run_checks existing [] = []
run_checks existing (c ∷ cs) =
    if c.applies then warning_of existing c ∷ run_checks existing cs else run_checks existing cs

abbrev pub purse_message : String
purse_message =
    "Destination Holding is a Purse — signing keys may live on the same host as the app."

abbrev pub account_message : String
account_message =
    "Destination Holding is an Account (custodial) — this defeats the minimum-exposure principle."

unfoldable pub tier_message : SigningModel → String
tier_message s =
    text_append "Source and destination both declare "
      (text_append (signing_value s) " signing — no security tier upgrade.")

abbrev pub cap_message : String
cap_message = "No maximum_per_period_sats cap is set — sweeps are unbounded."

unfoldable pub whitelist_message : String → String
whitelist_message name = text_append "The withdrawal whitelist for " (
    text_append name
      " could not be verified via the provider's API. Confirm it is configured manually.")

-- the guard of the tier warning
abbrev pub same_tier : Holding → Holding → Bool
same_tier src dst =
    same_signing src.declared_security.signing_model dst.declared_security.signing_model
    && not (is_not_applicable src.declared_security.signing_model)

-- the guard of the whitelist warning
abbrev pub is_unverified : Option CustodialProvider → Bool
is_unverified none = false
is_unverified (some p) = not p.whitelist_verified

abbrev pub provider_name : Option CustodialProvider → String
provider_name none = ""
provider_name (some p) = p.display_name

-- the five guarded calls, in the order of the source
unfoldable pub checks : Holding → Holding → Option ℤ → Option CustodialProvider → List Check
checks src dst cap provider =
    record {
      applies = is_purse dst.holding_type;
      kind = destination_keys_on_host;
      severity = high;
      message = purse_message;
    }
    ∷ record {
      applies = is_account dst.holding_type;
      kind = destination_is_custodial;
      severity = high;
      message = account_message;
    }
    ∷ record {
      applies = same_tier src dst;
      kind = same_security_tier;
      severity = medium;
      message = tier_message src.declared_security.signing_model;
    }
    ∷ record {
      applies = is_none cap;
      kind = no_maximum_cap_set;
      severity = medium;
      message = cap_message;
    }
    ∷ record {
      applies = is_account src.holding_type && is_unverified provider;
      kind = unverified_whitelist_on_provider;
      severity = high;
      message = whitelist_message (provider_name provider);
    }
    ∷ []

unfoldable pub compute_safety_warnings :
    Holding
    → Holding
    → Option ℤ
    → Option CustodialProvider
    → List SafetyWarning
    → List SafetyWarning
unfolding checks
compute_safety_warnings src dst cap provider existing =
    run_checks existing (checks src dst cap provider)
