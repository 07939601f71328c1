-- ===== src/Treasury/SelfCustody.antt =====
-- backend/tallykeep/workers/schedulers/self_custody_poller.py: sweeps from the holdings whose keys are
-- the user's. An execution is stored together with the payment that the user is to sign. The event on
-- the bus is not modelled, and the threads are not.
pub mod Unlinked
use tallykeep.Prelude.{
  ℕ, String, Bool, true, false, not, ◌&&◌, ◌==◌, Option, none, some, List, [], ◌∷◌, if◌then◌else◌,
  ℤ, pos, ◌+ℤ◌, leb_ℤ, filter_by,
}
use tallykeep.Errors.{ok, err, uncaught}
use tallykeep.Table.{get, modify, select}
use tallykeep.Domain.Enums.{SweepExecutionStatus, completed, sweep_failed, is_threshold, is_account}
use tallykeep.Domain.Holding.{Holding}
use tallykeep.Domain.Sweep.{SweepPolicy, SweepExecution, new_execution}
use tallykeep.Domain.Payment.{PaymentRequest, request_key}
use tallykeep.Domain.Chain.{Descriptor, Address, Utxo}
use tallykeep.Db.{Db, flush_all}
use tallykeep.Db.Session.{Session, pure, raise, lift, write, gets, ◌>>=◌, ◌>>◌}
use tallykeep.Repositories.Policies.{list_policies}
use tallykeep.Repositories.Holdings.{get_holding}
use tallykeep.Repositories.Executions.{StatusUpdate, status_only, execution_create, update_status}
use tallykeep.Repositories.Descriptors.{list_descriptors_for_holding, next_unused_address}
use tallykeep.Treasury.Engine.{execution_of, threshold_of, sweep_amount}
use tallykeep.Banking.Outside.{Bdk, Node, Texts}
use tallykeep.Banking.Building.{
  PaymentOrder, BuildResult, built, requires_confirmation, build_payment_request,
}

-- `descriptor_balance_sats`
unfoldable pub sum_values : List Utxo → ℤ
sum_values [] = pos 0
sum_values (u ∷ us) = u.value_sats +ℤ sum_values us

abbrev pub descriptor_balance_sats : ℕ → Db → ℤ
descriptor_balance_sats id d =
    sum_values (select (λ u. u.descriptor_id == id && not u.is_spent) d.utxos)

unfoldable pub balance_of : List Descriptor → Db → ℤ
balance_of [] d = pos 0
balance_of (x ∷ xs) d = descriptor_balance_sats x.id d +ℤ balance_of xs d

-- `with session_factory() as session: ...; session.commit()`: a raise closes the session
abbrev pub in_session : {A : Type 0} → Session A → Session A
in_session m d = elim (m d).0 [ ok a ↦ (ok a, flush_all (m d).1) | err e ↦ (err e, d) ]

-- `try: ... except Exception: ...`, with what follows
abbrev pub attempt : {A B : Type 0} → Session A → (A → Session B) → Session B → Session B
attempt m next handler d = elim (m d).0 [ ok a ↦ next a (m d).1 | err e ↦ handler (m d).1 ]

abbrev pub set_status : ℕ → StatusUpdate → Session (Unit {0})
set_status id u = do update_status id u; pure tt

-- `pr_row.sweep_execution_id = execution.id`, where `session.get` finds the row
abbrev pub link_request : ℕ → ℕ → Db → Db
link_request id execution_id d = record d {
  requests = modify id (λ r. record r { sweep_execution_id = some execution_id }) d.requests;
}

-- a result with no payment has no `id`
abbrev pub link_built : ℕ → BuildResult → Session (Unit {0})
link_built execution_id (built r) = write (link_request r.id execution_id)
link_built execution_id requires_confirmation = raise uncaught

-- `now`, and the UUIDs that are drawn for the execution and the payment of a policy
module _ (now new_id request_id : SweepPolicy → ℕ) (texts : Texts) {P : Type 0} (bdk : Bdk P)
    (node : Node) where
  abbrev pub sweep_order : SweepPolicy → Address → ℤ → PaymentOrder
  sweep_order p a amount = record {
    holding_id = p.source_holding_id;
    destination_address = a.address;
    amount_sats = some amount;
    fee_strategy = some "normal";
    fee_sat_per_vbyte = none;
    description = some "Auto-sweep";
    confirmed_long_term = false;
  }

  abbrev pub failed_with : SweepPolicy → String → StatusUpdate
  failed_with p message = record (status_only sweep_failed) {
    error_message = some message;
    completed_at = some (now p);
  }

  abbrev pub pay_to : SweepPolicy → ℤ → Option Address → Session (Unit {0})
  pay_to p amount none =
      set_status (new_id p) (failed_with p "No unused receive address on destination holding")
  pay_to p amount (some a) =
      attempt (build_payment_request texts bdk node (now p) (request_id p) (sweep_order p a amount))
        (link_built (new_id p))
        (set_status (new_id p) (failed_with p "PaymentRequest build failed"))

  abbrev pub pay_from : SweepPolicy → ℤ → List Descriptor → Session (Unit {0})
  pay_from p amount [] d =
      set_status (new_id p) (failed_with p "Destination holding has no descriptors") d
  pay_from p amount (x ∷ xs) d = pay_to p amount (next_unused_address x.id false d) d

  abbrev pub pay_or_complete : Bool → SweepPolicy → ℤ → Session (Unit {0})
  pay_or_complete true p amount =
      set_status (new_id p) (record (status_only completed) { completed_at = some (now p) })
  pay_or_complete false p amount = do
    descriptors ← list_descriptors_for_holding p.destination_holding_id
    pay_from p amount descriptors

  -- `_trigger_sweep`, before its commit
  unfoldable pub trigger_sweep : SweepPolicy → ℤ → Session (Unit {0})
  unfolding execution_create
  trigger_sweep p balance = do
    execution ← lift (new_execution (execution_of now new_id balance p))
    write (execution_create execution)
    pay_or_complete p.is_dry_run p (sweep_amount balance p)

  -- the body of the loop, once the balance is known
  abbrev pub sweep_balance : SweepPolicy → ℤ → Session (Unit {0})
  sweep_balance p balance =
      if leb_ℤ balance (threshold_of p)
      then pure tt
      else (if leb_ℤ (sweep_amount balance p) (pos 0)
          then pure tt
          else in_session (trigger_sweep p balance))

  abbrev pub poll_source : SweepPolicy → Option Holding → Session (Unit {0})
  poll_source p none = pure tt
  poll_source p (some h) = if is_account h.holding_type then pure tt else (do
    descriptors ← list_descriptors_for_holding p.source_holding_id
    balance ← gets (balance_of descriptors)
    sweep_balance p balance)

  unfoldable pub poll_policy : SweepPolicy → Session (Unit {0})
  poll_policy p =
      if not (is_threshold p.trigger_type)
      then pure tt
      else (do source ← get_holding p.source_holding_id; poll_source p source)

  unfoldable pub poll_policies : List SweepPolicy → Session (Unit {0})
  poll_policies [] = pure tt
  poll_policies (p ∷ ps) = poll_policy p >> poll_policies ps

  -- `_poll_once`
  unfoldable pub poll_once : Session (Unit {0})
  poll_once = do policies ← list_policies none (some true); poll_policies policies
