-- ===== src/Tests/Mirrors.antt =====
-- The theorems on the mirrored ledger of an exchange and on the sweeps from the user's own holdings.
use tallykeep.Prelude.{
  any_of, any_of, any_of, any_of, any_of, any_of, false, ◌≡◌, refl, none, some, List, [], ◌∷◌,
  arith, pos, ◌-ℤ◌, negsuc, any_of,
}
use tallykeep.Errors.{ok}
use tallykeep.Table.{get, modify}
use tallykeep.Domain.Enums.{completed}
use tallykeep.Domain.Sweep.{SweepExecution, execution_key, new_execution}
use tallykeep.Domain.Mirror.{CustodialEntry, withdrawal, deposit}
use tallykeep.Db.{Db, flush_all}
use tallykeep.Repositories.Mirror.{mark_unmatched}
use tallykeep.Treasury.Mirroring.{Tally, persist_entries}
use tallykeep.Treasury.Mirroring.Again.{persist-again}
use tallykeep.Treasury.Reconciling.{Event, on_entry_added}
use tallykeep.Treasury.Reconciling.Debits.{IsNear, on_entry_added-debit}
use tallykeep.Domain.Payment.{request_key}
use tallykeep.Repositories.Executions.{update_status}
use tallykeep.Treasury.Engine.{execution_of}
use tallykeep.Treasury.SelfCustody.{in_session, trigger_sweep}
use tallykeep.Treasury.SelfCustody.Unlinked.{is_linked, trigger_sweep-unlinked}
use tallykeep.Banking.Outside.{sent}
use tallykeep.Tests.Data.{execution_row, sample_db, policy_row, sample_texts, sample_bdk, node_with}

abbrev deposit_entry : CustodialEntry
deposit_entry = record {
  id = 80;
  holding_id = 2;
  custodial_provider_id = 20;
  provider_entry_id = "L1";
  kind = deposit;
  asset = "BTC";
  amount_sats = pos 5000;
  fee_sats = none;
  status = "pending";
  timestamp = 5;
  raw_payload = "{}";
  linked_sweep_execution_id = none;
  linked_counterparty_holding_id = none;
  linked_chain_ledger_entry_id = none;
  reconciled_at = none;
  updated_at = 5;
}

-- the deposit when it has gone through, and a withdrawal
abbrev report : List CustodialEntry
report =
    record deposit_entry { id = 81; status = "success" }
    ∷ record deposit_entry {
      id = 82;
      provider_entry_id = "L2";
      kind = withdrawal;
      amount_sats = negsuc 49999;
    }
    ∷ []

abbrev mirrored_db : Db
mirrored_db = record sample_db { mirror = record { rows = deposit_entry ∷ []; pending = [] } }

persist-again_example :
    ((t : Tally) × ((persist_entries report 6 mirrored_db).0 ≡ ok t))
    × (persist_entries report 9 (flush_all (persist_entries report 6 mirrored_db).1) ≡ (
      ok (record { added = 0; updated = 0 }),
      flush_all (persist_entries report 6 mirrored_db).1,
    ))
persist-again_example = persist-again report 6 9 mirrored_db ((refl, tt), (tt, tt)) (refl, tt) refl

abbrev debit_event : Event
debit_event = record { holding_id = 2; entry_id = 82; amount_sats = negsuc 49999; entry_ts = 5 }

-- an execution that intends as much as the withdrawal takes, and one of a thousand sats that is done
abbrev pending_db : Db
pending_db = record mirrored_db {
  executions = record {
    rows =
        record execution_row { intended_amount_sats = pos 50000 }
        ∷ record execution_row { id = 44; intended_amount_sats = pos 1000; status = completed }
        ∷ [];
    pending = [];
  };
}

completed-not_open :
    (ev : Event) (d : Db) (e : SweepExecution) → e.status ≡ completed → ¬ IsNear ev d e
completed-not_open ev d e done near = ground (arith, done, near.open_status)

on_entry_added-debit_example :
    on_entry_added withdrawal debit_event 6 pending_db ≡ flush_all (mark_unmatched 82 6 pending_db)
on_entry_added-debit_example = on_entry_added-debit debit_event 6 pending_db (ground arith) (
  (λ near. ground arith),
  ((λ near. absurd (completed-not_open debit_event pending_db _ refl near)), tt),
)

no_execution : get 41 sample_db.executions ≡ none
unfolding get
no_execution = refl

no_request : get 51 sample_db.requests ≡ none
unfolding get
no_request = refl

-- a dry run
triggered :
    (in_session
      (trigger_sweep
        (λ p. 9)
        (λ p. 41)
        (λ p. 51)
        sample_texts
        sample_bdk
        (node_with (sent "txid"))
        policy_row
        (pos 800))
      sample_db).0
    ≡ ok tt
unfolding trigger_sweep new_execution get modify ◌-ℤ◌ update_status
triggered = refl

trigger_sweep-unlinked_example :
    (get 41
        (in_session
          (trigger_sweep
            (λ p. 9)
            (λ p. 41)
            (λ p. 51)
            sample_texts
            sample_bdk
            (node_with (sent "txid"))
            policy_row
            (pos 800))
          sample_db).1.executions
      ≡ some (execution_of (λ p. 9) (λ p. 41) (pos 800) policy_row))
    × (any_of
          (is_linked 41)
          (in_session
            (trigger_sweep
              (λ p. 9)
              (λ p. 41)
              (λ p. 51)
              sample_texts
              sample_bdk
              (node_with (sent "txid"))
              policy_row
              (pos 800))
            sample_db).1.requests.rows
        ≡ false)
trigger_sweep-unlinked_example =
    trigger_sweep-unlinked (λ p. 9) (λ p. 41) (λ p. 51) sample_texts sample_bdk
      (node_with (sent "txid")) policy_row (pos 800) sample_db no_execution no_request refl refl
      refl triggered
