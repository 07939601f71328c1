-- ===== src/Treasury/Execution/Manual.antt =====
-- What a manual execution withdraws, and how it is recorded.
use tallykeep.Prelude.{
  sym, subst, ℕ, ◌≡◌, refl, String, true, false, Option, none, some, List, ◌∷◌, arith, ℤ, pos, ◌≤ℤ◌,
  ◌<ℤ◌, find_first, ◌==◌, get_or,
}
use tallykeep.Errors.{Result, ok}
use tallykeep.Table.{get}
use tallykeep.Table.Laws.{get-flush-add}
use tallykeep.Domain.Enums.{account, manual, requested, sweep_failed}
use tallykeep.Domain.Chain.{Descriptor, Address}
use tallykeep.Domain.Holding.{Holding}
use tallykeep.Domain.Provider.{CustodialProvider}
use tallykeep.Domain.Sweep.{SweepPolicy, policy_key, SweepExecution, execution_key, new_execution}
use tallykeep.Db.{Db, flush_all}
use tallykeep.Repositories.Holdings.{get_holding}
use tallykeep.Repositories.Providers.{provider_get}
use tallykeep.Repositories.Descriptors.{list_descriptors_for_holding, next_unused_address}
use tallykeep.Repositories.Executions.{apply_status, execution_create}
use tallykeep.Treasury.Policies.Valid.{IsPolicy}
use tallykeep.Treasury.Policies.Enabling.{get_sweep_policy-found}
use tallykeep.Treasury.Engine.{sweep_amount}
use tallykeep.Treasury.Execution.{
  Withdrawal, withdrawn, refused, status_of, withdraw_now, execute_sweep_now, manual_execution,
  amount_of, prepare_execution,
}
use tallykeep.Treasury.Execution.Confirming.{IsStored, update_status-IsStored}

-- the id is drawn once
pub record IsFresh (id : ℕ) (d : Db) : Type 0 where
  pub not_stored : get id d.executions ≡ none
  pub not_pending : find_first (λ (e : SweepExecution). e.id == id) d.executions.pending ≡ none

created-IsStored :
    (d : Db) (e : SweepExecution)
    → IsFresh e.id d
    → pos 0 ≤ℤ e.pre_balance_sats
    → pos 0 ≤ℤ e.intended_amount_sats
    → IsStored e.id (flush_all (execution_create e d)) e
unfolding execution_create
created-IsStored d e fresh b a = record {
  found = get-flush-add e d.executions fresh.not_stored fresh.not_pending;
  balance = b;
  amount = a;
}

withdraw_now-recorded :
    (withdraw : ℤ → String → Withdrawal) (later : ℕ) (e : SweepExecution) (address : String)
    (d : Db)
    → IsFresh e.id d
    → pos 0 ≤ℤ e.pre_balance_sats
    → pos 0 ≤ℤ e.intended_amount_sats
    → let done = apply_status (status_of later (withdraw e.intended_amount_sats address)) e in
      let r = withdraw_now withdraw later e address d in (r.0 ≡ ok done) × IsStored e.id r.1 done
unfolding withdraw_now
withdraw_now-recorded withdraw later e address d fresh b a =
    let written =
      update_status-IsStored e.id (status_of later (withdraw e.intended_amount_sats address))
        (flush_all (execution_create e d)) e (created-IsStored d e fresh b a) in
    rw written.0 (refl, written.1)

-- What a manual execution needs: a stored, valid and enabled policy; its source, an account with
-- its provider row; and an unused receive address of the destination's first descriptor.
pub record IsExecutable (policy_id : ℕ) (d : Db) (p : SweepPolicy) (provider : CustodialProvider)
    (address : String) : Type 0 where
  pub stored : get policy_id d.policies ≡ some p
  pub valid : IsPolicy p
  pub enabled : p.is_enabled ≡ true
  pub source : Holding
  pub source_read : get_holding p.source_holding_id d ≡ (ok (some source), d)
  pub of_account : source.holding_type ≡ account
  pub provider_id : ℕ
  pub provided : source.custodial_provider_id ≡ some provider_id
  pub provider_read : provider_get provider_id d ≡ (ok (some provider), d)
  pub descriptor : Descriptor
  pub others : List Descriptor
  pub descriptors_read :
      (list_descriptors_for_holding p.destination_holding_id d).0 ≡ ok (descriptor ∷ others)
  pub receive : Address
  pub handed_out : next_unused_address descriptor.id false d ≡ some receive
  pub receive_address : receive.address ≡ address

prepare_execution-IsExecutable :
    (policy_id : ℕ) (d : Db) (p : SweepPolicy) (provider : CustodialProvider) (address : String)
    → IsExecutable policy_id d p provider address
    → prepare_execution policy_id true d ≡ (ok (p, provider, address), d)
unfolding prepare_execution
prepare_execution-IsExecutable policy_id d p provider address x =
    rw
      (
        get_sweep_policy-found policy_id d p x.valid x.stored,
        x.enabled,
        x.source_read,
        x.of_account,
        x.provided,
        x.provider_read,
        x.descriptors_read,
        x.handed_out,
        x.receive_address,
      )
      refl

-- what is recorded of a withdrawal that was tried
abbrev pub recorded : ℕ → ℕ → ℕ → SweepPolicy → ℤ → ℤ → Withdrawal → SweepExecution
recorded now later new_id p balance amount (withdrawn withdrawal_id) = record {
  id = new_id;
  sweep_policy_id = p.id;
  triggered_at = now;
  trigger_source = manual;
  pre_balance_sats = balance;
  intended_amount_sats = amount;
  status = requested;
  provider_withdrawal_id = some withdrawal_id;
  expected_txid = none;
  confirmed_txid = none;
  error_message = none;
  completed_at = none;
}
recorded now later new_id p balance amount (refused error) = record {
  id = new_id;
  sweep_policy_id = p.id;
  triggered_at = now;
  trigger_source = manual;
  pre_balance_sats = balance;
  intended_amount_sats = amount;
  status = sweep_failed;
  provider_withdrawal_id = none;
  expected_txid = none;
  confirmed_txid = none;
  error_message = some error;
  completed_at = some later;
}

apply_status-recorded :
    (now later new_id : ℕ) (p : SweepPolicy) (balance amount : ℤ) (w : Withdrawal)
    → apply_status (status_of later w) (manual_execution now new_id p balance amount)
      ≡ recorded now later new_id p balance amount w
apply_status-recorded now later new_id p balance amount (withdrawn i) = refl
apply_status-recorded now later new_id p balance amount (refused e) = refl

amount_of_lem :
    (asked : Option ℤ) (balance : ℤ) (p : SweepPolicy)
    → amount_of asked balance p ≡ get_or asked (sweep_amount balance p)
amount_of_lem none balance p = refl
amount_of_lem (some a) balance p = refl

-- A manual execution of an enabled policy, whose source is an account with its provider and whose
-- destination has an unused receive address, withdraws the amount that was asked for, or the amount
-- of the policy, to that address. Where the amount is positive and the known balance at least zero, the
-- execution is returned and stored under the new id, with the balance and the amount: as requested with
-- the withdrawal id that the exchange gave, or as failed and completed with the exchange's error.
pub execute_sweep_now-recorded :
    (withdraw : ℤ → String → Withdrawal) (now later new_id policy_id : ℕ) (asked : Option ℤ)
    (d : Db) (p : SweepPolicy) (provider : CustodialProvider) (address : String)
    → IsExecutable policy_id d p provider address
    → IsFresh new_id d
    → let balance = get_or provider.last_known_balance_sats (pos 0) in
      let amount = get_or asked (sweep_amount balance p) in
      pos 0 ≤ℤ balance
      → pos 0 <ℤ amount
      → let done = recorded now later new_id p balance amount (withdraw amount address) in
        let r = execute_sweep_now withdraw now later new_id policy_id true asked d in
        (r.0 ≡ ok done) × IsStored new_id r.1 done
unfolding execute_sweep_now new_execution
execute_sweep_now-recorded withdraw now later new_id policy_id asked d p provider address x fresh b
      a =
    subst (λ e. (r.0 ≡ ok e) × IsStored new_id r.1 e)
      (apply_status-recorded now later new_id p balance amount (withdraw amount address))
      (subst (λ q. (q.0 ≡ ok done) × IsStored new_id q.1 done) (sym tried)
        (withdraw_now-recorded withdraw later execution address d fresh b (ground (arith, a))))
  where
    balance : ℤ
    balance = get_or provider.last_known_balance_sats (pos 0)

    amount : ℤ
    amount = get_or asked (sweep_amount balance p)

    execution : SweepExecution
    execution = manual_execution now new_id p balance amount

    done : SweepExecution
    done = apply_status (status_of later (withdraw amount address)) execution

    r : Result SweepExecution × Db
    r = execute_sweep_now withdraw now later new_id policy_id true asked d

    tried : r ≡ withdraw_now withdraw later execution address d
    tried = ground (
      arith,
      prepare_execution-IsExecutable policy_id d p provider address x,
      amount_of_lem asked balance p,
      b,
      a,
    )
