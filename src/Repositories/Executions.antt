-- ===== src/Repositories/Executions.antt =====
-- backend/tallykeep/repositories/sweep_execution.py.
use tallykeep.Prelude.{ℕ, String, Option, none, some, or_else}
use tallykeep.Errors.{Result, ok, err}
use tallykeep.Table.{get, modify, add}
use tallykeep.Domain.Enums.{SweepExecutionStatus}
use tallykeep.Domain.Sweep.{SweepExecution, execution_key, new_execution}
use tallykeep.Db.{Db}
use tallykeep.Db.Session.{Session}

-- `_row_to_domain` on a row that may be missing
abbrev pub build_execution : Option SweepExecution → Result (Option SweepExecution)
build_execution none = ok none
build_execution (some r) = elim (new_execution r) [ ok e ↦ ok (some e) | err e ↦ err e ]

-- `get`
unfoldable pub execution_get : ℕ → Session (Option SweepExecution)
execution_get id d = (build_execution (get id d.executions), d)

-- `create`: the row is pending until a flush
unfoldable pub execution_create : SweepExecution → Db → Db
execution_create e d = record d { executions = add e d.executions }

-- the optional arguments of `update_status`
pub record StatusUpdate : Type 0 where
  pub status : SweepExecutionStatus
  pub provider_withdrawal_id : Option String
  pub expected_txid : Option String
  pub confirmed_txid : Option String
  pub error_message : Option String
  pub completed_at : Option ℕ

abbrev pub status_only : SweepExecutionStatus → StatusUpdate
status_only s = record {
  status = s;
  provider_withdrawal_id = none;
  expected_txid = none;
  confirmed_txid = none;
  error_message = none;
  completed_at = none;
}

abbrev pub apply_status : StatusUpdate → SweepExecution → SweepExecution
apply_status u e = record e {
  status = u.status;
  provider_withdrawal_id = or_else u.provider_withdrawal_id e.provider_withdrawal_id;
  expected_txid = or_else u.expected_txid e.expected_txid;
  confirmed_txid = or_else u.confirmed_txid e.confirmed_txid;
  error_message = or_else u.error_message e.error_message;
  completed_at = or_else u.completed_at e.completed_at;
}

-- `update_status`
unfoldable pub update_status : ℕ → StatusUpdate → Session (Option SweepExecution)
update_status id u d =
    let t = modify id (apply_status u) d.executions in
    (build_execution (get id t), record d { executions = t })
