-- ===== src/Treasury/Connection.antt =====
-- The poll cycle of backend/tallykeep/api/v1/internal_custodial.py: the connection status of a
-- provider and its error count. The secrets and the exchange are parameters: whether the secrets can
-- be read, and what the adapter's calls gave. `datetime.now` is one clock for the whole cycle. The events
-- on the bus and the check of the withdrawals' txids are not modelled.
pub mod Counting
use tallykeep.Repositories.Mirror.{has_double_ref}
use tallykeep.Domain.Mirror.{CustodialEntry}
use tallykeep.Treasury.Mirroring.{Tally, persist_entries}
use tallykeep.Prelude.{
  ◌-◌, length, ◌++◌, ℕ, suc, String, Bool, true, false, not, Option, none, some, List, ◌+◌, leb,
  if◌then◌else◌, ℤ,
}
use tallykeep.Errors.{uncaught, http_error}
use tallykeep.Domain.Provider.{
  CustodialProvider, ConnectionStatus, healthy, degraded, unreachable, auth_failed,
}
use tallykeep.Db.{Db}
use tallykeep.Db.Session.{
  gets, Session, pure, raise, or_raise, raise_if, write, flush_session, in_transaction, ◌>>=◌, ◌>>◌,
}
use tallykeep.Repositories.Providers.{
  provider_get, update_balance, update_non_btc_balances, update_ledger_cursor,
  update_connection_status,
}

-- `_N_UNREACHABLE`
abbrev pub n_unreachable : ℕ
n_unreachable = 5

abbrev pub is_auth_failed : ConnectionStatus → Bool
is_auth_failed auth_failed = true
is_auth_failed _ = false

abbrev pub is_healthy : ConnectionStatus → Bool
is_healthy healthy = true
is_healthy _ = false

-- `_handle_auth_error`, with its commit
unfoldable pub handle_auth_error : CustodialProvider → String → ℕ → Session (Unit {0})
handle_auth_error p error polled_at =
    if is_auth_failed p.connection_status
    then pure tt
    else write (update_connection_status p.id auth_failed 0 polled_at (some error)) >> flush_session

-- the new status of `_handle_transient_error`
abbrev pub status_after_error : ConnectionStatus → ℕ → ConnectionStatus
status_after_error status new_count =
    if leb n_unreachable new_count
    then unreachable
    else (if is_healthy status then degraded else status)

-- `_handle_transient_error`, with its commit
unfoldable pub handle_transient_error : CustodialProvider → String → ℕ → Session ConnectionStatus
handle_transient_error p error polled_at =
    if is_auth_failed p.connection_status then pure auth_failed else (do
      let new_count = p.consecutive_error_count + 1
      let new_status = status_after_error p.connection_status new_count
      write (update_connection_status p.id new_status new_count polled_at (some error))
      flush_session
      pure new_status)

-- what the calls of the adapter gave: `ProviderAuthError`, `ProviderError` or
-- `UnsupportedAdapterError`, or the rows of the new entries, the balances and the newest timestamp
pub data PollOutcome : Type 0 where
  auth_error : String → PollOutcome
  transient_error : String → PollOutcome
  polled : List CustodialEntry → ℤ → List (String × String) → Option ℕ → PollOutcome

abbrev pub move_cursor : ℕ → Option ℕ → Db → Db
move_cursor id none d = d
move_cursor id (some t) d = update_ledger_cursor id t d

-- the writes of a successful cycle to the provider
unfoldable pub record_success : ℕ → ℕ → ℤ → List (String × String) → Option ℕ → Db → Db
record_success id polled_at balance others newest d =
    update_connection_status id healthy 0 polled_at none (
      move_cursor id newest
        (update_non_btc_balances id others (update_balance id balance polled_at d)))

pub record PollCycleOut : Type 0 where
  pub rows_added : ℕ
  pub rows_updated : ℕ
  pub rows_unchanged : ℕ
  pub last_polled_at : ℕ
  pub connection_status : ConnectionStatus

-- the answer; a difference below zero is 0
abbrev pub cycle_out : List CustodialEntry → Tally → ℕ → PollCycleOut
cycle_out entries t polled_at = record {
  rows_added = t.added;
  rows_updated = t.updated;
  rows_unchanged = length entries - t.added - t.updated;
  last_polled_at = polled_at;
  connection_status = healthy;
}

-- the commit, where the constraint on the entries' references may refuse new rows
abbrev pub commit_entries : Session (Unit {0})
commit_entries = do
  broken ← gets (λ d. has_double_ref (d.mirror.rows ++ d.mirror.pending))
  raise_if broken uncaught
  flush_session

-- what is written of a report; a raise rolls it back
abbrev pub store_report :
    CustodialProvider
    → ℕ
    → List CustodialEntry
    → ℤ
    → List (String × String)
    → Option ℕ
    → Session PollCycleOut
unfolding record_success
store_report p polled_at entries balance others newest = do
  counted ← persist_entries entries polled_at
  write (record_success p.id polled_at balance others newest)
  commit_entries
  pure (cycle_out entries counted polled_at)

-- the part of `poll_cycle` from the calls of the adapter on
unfoldable pub handle_outcome : CustodialProvider → ℕ → PollOutcome → Session PollCycleOut
unfolding record_success
handle_outcome p polled_at (auth_error e) = do
  handle_auth_error p e polled_at
  raise (http_error 502)
handle_outcome p polled_at (transient_error e) = do
  handle_transient_error p e polled_at
  raise (http_error 502)
handle_outcome p polled_at (polled entries balance others newest) =
    in_transaction (store_report p polled_at entries balance others newest)

-- `poll_cycle`; the database of the result is the committed one
unfoldable pub poll_cycle : ℕ → ℕ → Bool → PollOutcome → Session PollCycleOut
poll_cycle polled_at id secrets_readable outcome = do
  found ← provider_get id
  p ← or_raise found (http_error 404)
  raise_if (not p.is_active) (http_error 404)
  raise_if (not secrets_readable) (http_error 423)
  handle_outcome p polled_at outcome
