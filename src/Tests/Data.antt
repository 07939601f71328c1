-- ===== src/Tests/Data.antt =====
-- A database with a purse, an account with its provider, a sweep policy and a payment, and outside
-- worlds for it.
use tallykeep.Prelude.{String, true, false, none, some, [], ◌∷◌, pos}
use tallykeep.Table.{empty_table}
use tallykeep.Domain.Enums.{
  account, purse, spending, third_party, self_single, not_applicable, hardware_offline, mainnet,
  native_segwit, medium, no_maximum_cap_set, threshold, onchain, awaiting_broadcast,
  awaiting_user_confirmation,
}
use tallykeep.Domain.Sweep.{SafetyWarning, SweepPolicy, SweepExecution}
use tallykeep.Domain.Payment.{PaymentRequest}
use tallykeep.Domain.Chain.{Descriptor, Address, Utxo}
use tallykeep.Domain.Provider.{exchange, degraded, CustodialProvider}
use tallykeep.Db.{Db, HoldingRow, SubtypeData}
use tallykeep.Descriptors.Parsing.{Script, Reader, wpkh}
use tallykeep.Banking.Outside.{Bdk, Node, Texts, raw, SendOutcome}

abbrev pub no_subtype : SubtypeData
no_subtype = record {
  purse_mode = none;
  signing_device_label = none;
  vendor = none;
  signing_metadata_present = none;
  required_signers = none;
  total_signers = none;
  timelock_kind = none;
  timelock_value = none;
  recovery_setup_notes = none;
}

abbrev pub purse_row : HoldingRow
purse_row = record {
  id = 1;
  holding_type = purse;
  name = "Purse";
  description = none;
  purpose = spending;
  declared_security = record {
    custody_model = self_single;
    signing_model = hardware_offline;
    geographic_distribution = false;
    inheritance_configured = false;
    notes = none;
  };
  subtype_data = no_subtype;
  display_color = "#fff";
  display_order = pos 0;
  created_at = 1;
  updated_at = 1;
}

abbrev pub account_row : HoldingRow
account_row = record purse_row {
  id = 2;
  holding_type = account;
  name = "Exchange";
  declared_security = record {
    custody_model = third_party;
    signing_model = not_applicable;
    geographic_distribution = false;
    inheritance_configured = false;
    notes = none;
  };
}

abbrev pub provider_row : CustodialProvider
provider_row = record {
  id = 20;
  holding_id = 2;
  provider_kind = exchange;
  display_name = "Exchange";
  adapter_id = "kraken";
  api_credential_reference = "custodial/key";
  api_secret_reference = "custodial/secret";
  api_passphrase_reference = none;
  permissions = record {
    can_read = true;
    can_trade = false;
    can_withdraw = true;
    overage = [];
    underage = [];
  };
  whitelist_address = none;
  whitelist_address_descriptor_id = none;
  whitelist_verified = true;
  is_active = true;
  last_polled_at = none;
  last_error = none;
  last_known_balance_sats = some (pos 900);
  connection_status = degraded;
  consecutive_error_count = 4;
  ledger_cursor_at = none;
  polling_interval_seconds = pos 300;
  observation_key_last_four = none;
  non_btc_balances = [];
}

abbrev pub cap_warning : SafetyWarning
cap_warning = record {
  kind = no_maximum_cap_set;
  severity = medium;
  message = "No cap";
  user_acknowledged = false;
}

abbrev pub policy_row : SweepPolicy
policy_row = record {
  id = 30;
  name = "Sweep";
  source_holding_id = 2;
  destination_holding_id = 1;
  is_enabled = true;
  trigger_type = threshold;
  threshold_sats = some (pos 500);
  minimum_balance_sats = pos 100;
  maximum_per_period_sats = some (pos 300);
  requires_user_confirmation = true;
  is_dry_run = true;
  safety_warnings = [];
  last_executed_at = none;
  created_at = some 1;
  updated_at = some 1;
}

-- disabled, with a warning that is not acknowledged
abbrev pub warned_row : SweepPolicy
warned_row = record policy_row { id = 31; is_enabled = false; safety_warnings = cap_warning ∷ [] }

-- disabled, without a warning
abbrev pub quiet_row : SweepPolicy
quiet_row = record policy_row { id = 32; is_enabled = false }

abbrev pub execution_row : SweepExecution
execution_row = record {
  id = 40;
  sweep_policy_id = 30;
  triggered_at = 1;
  trigger_source = threshold;
  pre_balance_sats = pos 800;
  intended_amount_sats = pos 300;
  status = awaiting_user_confirmation;
  provider_withdrawal_id = none;
  expected_txid = none;
  confirmed_txid = none;
  error_message = none;
  completed_at = none;
}

abbrev pub descriptor_row : Descriptor
descriptor_row = record {
  id = 10;
  holding_id = 1;
  name = "main";
  expression = "wpkh(xpub/0/*)";
  change_expression = some "wpkh(xpub/1/*)";
  network = mainnet;
  address_type = native_segwit;
  gap_limit = pos 20;
  is_watch_only = true;
  last_scanned_height = pos 0;
  created_at = 1;
}

abbrev pub address_row : Address
address_row = record {
  id = 11;
  descriptor_id = 10;
  address = "bc1qa";
  derivation_path = "0/0";
  is_change = false;
  derivation_index = 0;
  label = none;
  first_seen_height = none;
  is_reused = false;
}

abbrev pub utxo_row : Utxo
utxo_row = record {
  id = 12;
  descriptor_id = 10;
  address_id = 11;
  txid = "aa";
  vout = 0;
  value_sats = pos 1000;
  confirmation_height = some 100;
  is_frozen = false;
  is_spent = false;
  spent_in_txid = none;
  hygiene_flags = [];
}

-- signed, and waiting for its broadcast
abbrev pub request_row : PaymentRequest
request_row = record {
  id = 50;
  holding_id = 1;
  payment_type = onchain;
  amount_sats = some (pos 700);
  description = none;
  status = awaiting_broadcast;
  expires_at = none;
  created_at = 1;
  updated_at = 1;
  destination_address = some "bc1qb";
  bip21_uri = none;
  psbt_base64 = some "cHNidP8";
  signed_transaction_hex = some "f00d";
  broadcast_txid = none;
  lightning_invoice = none;
  lightning_payment_hash = none;
  resulting_ledger_entry_id = none;
  sweep_execution_id = none;
}

abbrev pub sample_db : Db
sample_db = record {
  holdings = record { rows = purse_row ∷ account_row ∷ []; pending = [] };
  providers = record { rows = provider_row ∷ []; pending = [] };
  policies = record { rows = policy_row ∷ warned_row ∷ quiet_row ∷ []; pending = [] };
  executions = record { rows = execution_row ∷ []; pending = [] };
  requests = record { rows = request_row ∷ []; pending = [] };
  attempts = empty_table;
  invoices = empty_table;
  descriptors = record { rows = descriptor_row ∷ []; pending = [] };
  addresses = record { rows = address_row ∷ []; pending = [] };
  utxos = record { rows = utxo_row ∷ []; pending = [] };
  transactions = empty_table;
  entries = empty_table;
  links = empty_table;
  health_items = empty_table;
  mirror = empty_table;
  type_changes = empty_table;
  principles_acknowledged_at = none;
}

-- no payment yet
abbrev pub idle_db : Db
idle_db = record sample_db { requests = empty_table }

-- BDK with texts for PSBTs, which takes everything
abbrev pub sample_bdk : Bdk String
sample_bdk = record {
  is_address = λ a n. true;
  build_psbt = λ o. some "cHNidP8";
  parse_psbt = λ s. some s;
  inputs = λ p. [];
  extract_hex = λ p. some "f00d";
  combine = λ p q. some q;
  finalize = λ p. some (true, p);
  serialize = λ p. p;
  txid_of = λ h. some "txid";
}

abbrev pub node_with : SendOutcome → Node
node_with answer = record {
  estimate_smart_fee = λ t. some (pos 2000);
  get_raw_transaction = λ t. raw "beef";
  send_raw_transaction = λ h. answer;
}

abbrev pub sample_texts : Texts
sample_texts = record { amount_text = λ n. "0.00000700"; quote = λ s. s }

-- a stand-in for BDK that reads every expression as one with a single key
abbrev pub sample_script : Script
sample_script = record {
  is_multipath = false;
  desc_type = wpkh;
  canonical = "wpkh([aabbccdd/84h]xpub6C/0/*)#x";
  descriptor_id = "id";
  derive = λ i. some "bc1qa";
}

abbrev pub sample_reader : Reader
sample_reader expression network = some sample_script
