-- ===== src/Domain/Sweep.antt =====
-- backend/tallykeep/domain/sweep_policy.py: sweep policies, their safety warnings and executions.
use tallykeep.Prelude.{
  ◌≡◌, arith, ℕ, String, Bool, false, not, Option, none, some, List, ◌==◌, filter_by, is_empty,
  if◌then◌else◌, ℤ, pos, ltb_ℤ,
}
use tallykeep.Errors.{Result, ok, ◌>>◌, refuse_if}
use tallykeep.Table.{Keyed}
use tallykeep.Domain.Enums.{
  SafetyWarningKind, SafetyWarningSeverity, SweepTriggerType, SweepExecutionStatus,
}

pub record SafetyWarning : Type 0 where
  pub kind : SafetyWarningKind
  pub severity : SafetyWarningSeverity
  pub message : String
  pub user_acknowledged : Bool

-- Of the dictionary `trigger_configuration` the program reads `threshold_sats` only; nothing writes
-- `last_result_summary`, which is left out.
pub record SweepPolicy : Type 0 where
  pub id : ℕ
  pub name : String
  pub source_holding_id : ℕ
  pub destination_holding_id : ℕ
  pub is_enabled : Bool
  pub trigger_type : SweepTriggerType
  pub threshold_sats : Option ℤ
  pub minimum_balance_sats : ℤ
  pub maximum_per_period_sats : Option ℤ
  pub requires_user_confirmation : Bool
  pub is_dry_run : Bool
  pub safety_warnings : List SafetyWarning
  pub last_executed_at : Option ℕ
  pub created_at : Option ℕ
  pub updated_at : Option ℕ

instance abbrev pub policy_key : Keyed SweepPolicy
policy_key = record { key = λ p. p.id }

-- `[w for w in warnings if not w.user_acknowledged]`
abbrev pub unacknowledged : List SafetyWarning → List SafetyWarning
unacknowledged ws = filter_by (λ w. not w.user_acknowledged) ws

abbrev pub is_below_zero : Option ℤ → Bool
is_below_zero none = false
is_below_zero (some n) = ltb_ℤ n (pos 0)

-- `SweepPolicy.__post_init__`
unfoldable pub new_policy : SweepPolicy → Result SweepPolicy
new_policy p = do
  refuse_if (p.source_holding_id == p.destination_holding_id)
  refuse_if (ltb_ℤ p.minimum_balance_sats (pos 0))
  refuse_if (is_below_zero p.maximum_per_period_sats)
  if p.is_enabled then refuse_if (not (is_empty (unacknowledged p.safety_warnings))) else ok tt
  ok p

pub record SweepExecution : Type 0 where
  pub id : ℕ
  pub sweep_policy_id : ℕ
  pub triggered_at : ℕ
  pub trigger_source : SweepTriggerType
  pub pre_balance_sats : ℤ
  pub intended_amount_sats : ℤ
  pub status : SweepExecutionStatus
  pub provider_withdrawal_id : Option String
  pub expected_txid : Option String
  pub confirmed_txid : Option String
  pub error_message : Option String
  pub completed_at : Option ℕ

instance abbrev pub execution_key : Keyed SweepExecution
execution_key = record { key = λ e. e.id }

-- `SweepExecution.__post_init__`
unfoldable pub new_execution : SweepExecution → Result SweepExecution
new_execution e = do
  refuse_if (ltb_ℤ e.pre_balance_sats (pos 0))
  refuse_if (ltb_ℤ e.intended_amount_sats (pos 0))
  ok e

-- the constructor returns what it was given
pub new_execution-same : (e x : SweepExecution) → new_execution e ≡ ok x → x ≡ e
unfolding new_execution
new_execution-same e x h = ground arith
