-- ===== src/Repositories/Providers.antt =====
-- backend/tallykeep/repositories/custodial_provider.py.
use tallykeep.Prelude.{
  ◌≡◌, ◌⊎◌, arith, ℕ, String, Option, none, some, List, ◌==◌, find_first, ℤ, or_else,
}
use tallykeep.Errors.{Result, ok, err, value_error}
use tallykeep.Table.{get, modify}
use tallykeep.Domain.Provider.{CustodialProvider, ConnectionStatus, provider_key, new_provider}
use tallykeep.Db.{Db}
use tallykeep.Db.Session.{Session}

-- `_row_to_domain` on a row that may be missing
abbrev pub build_provider : Option CustodialProvider → Result (Option CustodialProvider)
build_provider none = ok none
build_provider (some r) = elim (new_provider r) [ ok p ↦ ok (some p) | err e ↦ err e ]

-- `get`
unfoldable pub provider_get : ℕ → Session (Option CustodialProvider)
provider_get id d = (build_provider (get id d.providers), d)

-- `get_by_holding_id`
unfoldable pub provider_by_holding : ℕ → Session (Option CustodialProvider)
provider_by_holding holding_id d =
    (build_provider (find_first (λ p. p.holding_id == holding_id) d.providers.rows), d)

abbrev pub modify_provider : ℕ → (CustodialProvider → CustodialProvider) → Db → Db
modify_provider id f d = record d { providers = modify id f d.providers }

-- `update_balance`
abbrev pub update_balance : ℕ → ℤ → ℕ → Db → Db
update_balance id balance polled_at = modify_provider id λ p. record p {
  last_known_balance_sats = some balance;
  last_polled_at = some polled_at;
  last_error = none;
}

-- `update_non_btc_balances`
abbrev pub update_non_btc_balances : ℕ → List (String × String) → Db → Db
update_non_btc_balances id balances =
    modify_provider id λ p. record p { non_btc_balances = balances }

-- `update_ledger_cursor`
abbrev pub update_ledger_cursor : ℕ → ℕ → Db → Db
update_ledger_cursor id cursor_at =
    modify_provider id λ p. record p { ledger_cursor_at = some cursor_at }

-- `update_connection_status`
abbrev pub update_connection_status : ℕ → ConnectionStatus → ℕ → ℕ → Option String → Db → Db
update_connection_status id status count polled_at error = modify_provider id λ p. record p {
  connection_status = status;
  consecutive_error_count = count;
  last_polled_at = some polled_at;
  last_error = or_else error p.last_error;
}

-- `update_polling_interval`
unfoldable pub set_polling_interval : ℕ → ℤ → Session (Option CustodialProvider)
set_polling_interval id seconds d =
    let t = modify id (λ p. record p { polling_interval_seconds = seconds }) d.providers in
    (build_provider (get id t), record d { providers = t })

-- a stored provider is read as it is, or not at all
pub new_provider-cases :
    (p : CustodialProvider) → (new_provider p ≡ ok p) ⊎ (new_provider p ≡ err value_error)
unfolding new_provider
new_provider-cases p = ground arith
