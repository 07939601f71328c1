-- ===== src/Treasury/Execution.antt =====
-- Manual executions and confirmations of backend/tallykeep/services/treasury_service.py. The exchange
-- is a parameter: what the adapter's call of `withdraw` gives for an amount and an address.
pub mod Confirming
pub mod Manual
use tallykeep.Prelude.{
  ℕ, String, Bool, true, false, not, ◌||◌, Option, none, some, List, [], ◌∷◌, ◌==◌, if◌then◌else◌,
  ℤ, pos, ◌-ℤ◌, leb_ℤ, get_or, is_none,
}
use tallykeep.Errors.{
  Result, ok, err, treasury_error, execution_not_found, wrong_execution_status,
  invalid_polling_interval, provider_not_found,
}
use tallykeep.Domain.Enums.{
  HoldingType, manual, requested, sweep_failed, is_account, is_awaiting_confirmation,
}
use tallykeep.Domain.Chain.{Descriptor, Address}
use tallykeep.Domain.Holding.{Holding}
use tallykeep.Domain.Provider.{CustodialProvider}
use tallykeep.Domain.Sweep.{SweepPolicy, SweepExecution, new_execution}
use tallykeep.Db.{Db}
use tallykeep.Db.Session.{
  Session, pure, gets, lift, or_raise, raise_if, write, flush_session, ◌>>=◌, ◌>>◌,
}
use tallykeep.Repositories.Holdings.{get_holding}
use tallykeep.Repositories.Providers.{provider_get, provider_by_holding, set_polling_interval}
use tallykeep.Repositories.Descriptors.{list_descriptors_for_holding, next_unused_address}
use tallykeep.Repositories.Executions.{
  StatusUpdate, status_only, execution_get, execution_create, update_status,
}
use tallykeep.Treasury.Policies.{get_sweep_policy}
use tallykeep.Treasury.Engine.{sweep_amount}

-- `get_sweep_execution`
unfoldable pub get_sweep_execution : ℕ → Session SweepExecution
get_sweep_execution id = do found ← execution_get id; or_raise found execution_not_found

-- `confirm_sweep_execution`
unfoldable pub confirm_sweep_execution : ℕ → Session SweepExecution
confirm_sweep_execution id = do
  execution ← get_sweep_execution id
  raise_if (not (is_awaiting_confirmation execution.status)) wrong_execution_status
  updated ← update_status id (status_only requested)
  pure (get_or updated execution)

-- `WithdrawalResult.withdrawal_id`, or `ProviderAuthError` or `ProviderError` with its text
pub data Withdrawal : Type 0 where
  withdrawn : String → Withdrawal
  refused : String → Withdrawal

-- the update of the status after the call
abbrev pub status_of : ℕ → Withdrawal → StatusUpdate
status_of later (withdrawn id) = record (status_only requested) { provider_withdrawal_id = some id }
status_of later (refused e) = record (status_only sweep_failed) {
  error_message = some e;
  completed_at = some later;
}

abbrev pub first_descriptor : List Descriptor → Option ℕ
first_descriptor [] = none
first_descriptor (x ∷ _) = some x.id

-- `sweep_amount`, by the amount that was asked for
abbrev pub amount_of : Option ℤ → ℤ → SweepPolicy → ℤ
amount_of none balance p = sweep_amount balance p
amount_of (some amount) balance p = amount

abbrev pub manual_execution : ℕ → ℕ → SweepPolicy → ℤ → ℤ → SweepExecution
manual_execution now new_id p balance amount = record {
  id = new_id;
  sweep_policy_id = p.id;
  triggered_at = now;
  trigger_source = manual;
  pre_balance_sats = balance;
  intended_amount_sats = amount;
  status = requested;
  provider_withdrawal_id = none;
  expected_txid = none;
  confirmed_txid = none;
  error_message = none;
  completed_at = none;
}

-- the execution is stored and flushed, the withdrawal is tried, and the status is updated
unfoldable pub withdraw_now :
    (ℤ → String → Withdrawal) → ℕ → SweepExecution → String → Session SweepExecution
unfolding execution_create
withdraw_now withdraw later execution address = do
  write (execution_create execution)
  flush_session
  updated ←
      update_status execution.id (status_of later (withdraw execution.intended_amount_sats address))
  pure (get_or updated execution)

-- the checks of `execute_sweep_now` on the policy, the source and the destination, which give the
-- policy, the provider and the receive address
unfoldable pub prepare_execution : ℕ → Bool → Session (SweepPolicy × CustodialProvider × String)
prepare_execution policy_id secrets_readable = do
  policy ← get_sweep_policy policy_id
  raise_if (not policy.is_enabled) treasury_error
  found_source ← get_holding policy.source_holding_id
  source ← or_raise found_source treasury_error
  raise_if (not (is_account source.holding_type) || is_none source.custodial_provider_id)
      treasury_error
  provider_id ← or_raise source.custodial_provider_id treasury_error
  found_provider ← provider_get provider_id
  provider ← or_raise found_provider treasury_error
  descriptors ← list_descriptors_for_holding policy.destination_holding_id
  descriptor_id ← or_raise (first_descriptor descriptors) treasury_error
  found_address ← gets (next_unused_address descriptor_id false)
  address ← or_raise found_address treasury_error
  raise_if (not secrets_readable) treasury_error
  pure (policy, provider, address.address)

-- `current_balance`
abbrev pub known_balance : CustodialProvider → ℤ
known_balance provider = get_or provider.last_known_balance_sats (pos 0)

-- `execute_sweep_now`
unfoldable pub execute_sweep_now :
    (ℤ → String → Withdrawal) → ℕ → ℕ → ℕ → ℕ → Bool → Option ℤ → Session SweepExecution
unfolding ◌-ℤ◌
execute_sweep_now withdraw now later new_id policy_id secrets_readable asked = do
  (policy, provider, address) ← prepare_execution policy_id secrets_readable
  let balance = known_balance provider
  let amount = amount_of asked balance policy
  raise_if (leb_ℤ amount (pos 0)) treasury_error
  execution ← lift (new_execution (manual_execution now new_id policy balance amount))
  withdraw_now withdraw later execution address

-- `VALID_POLLING_INTERVALS`
abbrev pub is_valid_interval : ℤ → Bool
is_valid_interval (pos n) = n == 60 || n == 300 || n == 600 || n == 1800 || n == 3600
is_valid_interval _ = false

-- `update_polling_interval`
unfoldable pub update_polling_interval : ℕ → ℤ → Session CustodialProvider
update_polling_interval holding_id seconds = do
  raise_if (not (is_valid_interval seconds)) invalid_polling_interval
  found ← provider_by_holding holding_id
  provider ← or_raise found provider_not_found
  updated ← set_polling_interval provider.id seconds
  pure (get_or updated provider)
