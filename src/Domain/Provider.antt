-- ===== src/Domain/Provider.antt =====
-- backend/tallykeep/domain/custodial_provider.py.
use text.Mathlib.Text.{find?}
use tallykeep.Prelude.{
  ℕ, String, Bool, false, ◌||◌, Option, none, some, List, is_some, ℤ, pos, ltb_ℤ, str_eq,
}
use tallykeep.Errors.{Result, ok, ◌>>◌, refuse_if}
use tallykeep.Table.{Keyed}

pub data ProviderKind : Type 0 where
  exchange broker p2p_venue : ProviderKind

pub record ProviderPermissions : Type 0 where
  pub can_read : Bool
  pub can_trade : Bool
  pub can_withdraw : Bool
  pub overage : List String
  pub underage : List String

-- the values of `connection_status`
pub data ConnectionStatus : Type 0 where
  healthy degraded unreachable auth_failed : ConnectionStatus

pub record CustodialProvider : Type 0 where
  pub id : ℕ
  pub holding_id : ℕ
  pub provider_kind : ProviderKind
  pub display_name : String
  pub adapter_id : String
  pub api_credential_reference : String
  pub api_secret_reference : String
  pub api_passphrase_reference : Option String
  pub permissions : ProviderPermissions
  pub whitelist_address : Option String
  pub whitelist_address_descriptor_id : Option ℕ
  pub whitelist_verified : Bool
  pub is_active : Bool
  pub last_polled_at : Option ℕ
  pub last_error : Option String
  pub last_known_balance_sats : Option ℤ
  pub connection_status : ConnectionStatus
  pub consecutive_error_count : ℕ
  pub ledger_cursor_at : Option ℕ
  pub polling_interval_seconds : ℤ
  pub observation_key_last_four : Option String
  pub non_btc_balances : List (String × String)

instance abbrev pub provider_key : Keyed CustodialProvider
provider_key = record { key = λ p. p.id }

-- `"{" in s`
abbrev pub has_brace : String → Bool
has_brace s = is_some (find? s "{")

abbrev pub is_negative_balance : Option ℤ → Bool
is_negative_balance none = false
is_negative_balance (some n) = ltb_ℤ n (pos 0)

-- `CustodialProvider.__post_init__`
unfoldable pub new_provider : CustodialProvider → Result CustodialProvider
new_provider p = do
  refuse_if (str_eq p.adapter_id "")
  refuse_if (str_eq p.api_credential_reference "" || str_eq p.api_secret_reference "")
  refuse_if (has_brace p.api_credential_reference || has_brace p.api_secret_reference)
  refuse_if (is_negative_balance p.last_known_balance_sats)
  ok p
