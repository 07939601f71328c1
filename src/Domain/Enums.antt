-- ===== src/Domain/Enums.antt =====
-- The enumerations of backend/tallykeep/domain/enums.py. Two members are equal when their values
-- are, so the tests `x == Enum.MEMBER` are functions by clauses.
use tallykeep.Prelude.{ℕ, ◌==◌, Bool, true, false}

pub data Purpose : Type 0 where
  spending reserve long_term transit undeclared : Purpose

pub data CustodyModel : Type 0 where
  third_party self_single self_multisig : CustodyModel

pub data SigningModel : Type 0 where
  not_applicable software_hot hardware_offline airgapped ceremonial unknown : SigningModel

pub data HoldingType : Type 0 where
  account purse strongbox vault : HoldingType

pub data Network : Type 0 where
  mainnet testnet signet regtest : Network

pub data AddressType : Type 0 where
  legacy nested_segwit native_segwit taproot p2sh_multisig p2wsh p2sh_p2wsh : AddressType

-- the tests `x == AddressType.MEMBER`, by the place of the member
abbrev address_type_index : AddressType → ℕ
address_type_index legacy = 0
address_type_index nested_segwit = 1
address_type_index native_segwit = 2
address_type_index taproot = 3
address_type_index p2sh_multisig = 4
address_type_index p2wsh = 5
address_type_index p2sh_p2wsh = 6

abbrev pub same_address_type : AddressType → AddressType → Bool
same_address_type a b = address_type_index a == address_type_index b

pub data HygieneFlag : Type 0 where
  address_reused dust suspected_consolidation round_number : HygieneFlag

pub data Direction : Type 0 where
  incoming outgoing internal : Direction

pub data LedgerEntrySource : Type 0 where
  onchain_transaction lightning_payment custodial_event : LedgerEntrySource

-- `x == LedgerEntrySource.ONCHAIN_TRANSACTION`
abbrev pub is_onchain_source : LedgerEntrySource → Bool
is_onchain_source onchain_transaction = true
is_onchain_source _ = false

pub data LedgerCategory : Type 0 where
  custodial_withdrawal p2p_receive salary merchant_receipt : LedgerCategory
  merchant_payment p2p_send custodial_deposit : LedgerCategory
  internal_transfer consolidation other : LedgerCategory

pub data PaymentType : Type 0 where
  onchain lightning : PaymentType

pub data PaymentStatus : Type 0 where
  draft awaiting_signature awaiting_broadcast broadcast : PaymentStatus
  confirmed failed expired cancelled : PaymentStatus

pub data InvoiceStatus : Type 0 where
  open_invoice paid overpaid invoice_expired invoice_cancelled : InvoiceStatus

pub data SweepTriggerType : Type 0 where
  scheduled threshold manual : SweepTriggerType

pub data SafetyWarningKind : Type 0 where
  destination_keys_on_host destination_is_custodial same_security_tier : SafetyWarningKind
  no_maximum_cap_set unverified_whitelist_on_provider : SafetyWarningKind

pub data SafetyWarningSeverity : Type 0 where
  low medium high : SafetyWarningSeverity

pub data SweepExecutionStatus : Type 0 where
  requested awaiting_user_confirmation dispatched onchain_pending : SweepExecutionStatus
  completed sweep_failed sweep_cancelled : SweepExecutionStatus

pub data PurseMode : Type 0 where
  watch_only on_device_tk_generated on_device_user_imported : PurseMode

pub data DiscrepancyKind : Type 0 where
  claimed_multisig_but_single_key claimed_single_but_observable_multisig : DiscrepancyKind
  claimed_offline_but_pattern_suggests_hot claimed_vault_no_timelock_no_multisig : DiscrepancyKind
  claimed_inheritance_no_recovery_path : DiscrepancyKind

pub data DiscrepancySeverity : Type 0 where
  informational low_severity medium_severity high_severity : DiscrepancySeverity

abbrev pub is_account : HoldingType → Bool
is_account account = true
is_account _ = false

abbrev pub is_purse : HoldingType → Bool
is_purse purse = true
is_purse _ = false

abbrev pub is_strongbox : HoldingType → Bool
is_strongbox strongbox = true
is_strongbox _ = false

abbrev pub is_vault : HoldingType → Bool
is_vault vault = true
is_vault _ = false

abbrev pub is_long_term : Purpose → Bool
is_long_term long_term = true
is_long_term _ = false

abbrev pub is_third_party : CustodyModel → Bool
is_third_party third_party = true
is_third_party _ = false

abbrev pub is_self_single : CustodyModel → Bool
is_self_single self_single = true
is_self_single _ = false

abbrev pub is_self_multisig : CustodyModel → Bool
is_self_multisig self_multisig = true
is_self_multisig _ = false

abbrev pub is_not_applicable : SigningModel → Bool
is_not_applicable not_applicable = true
is_not_applicable _ = false

abbrev pub same_signing : SigningModel → SigningModel → Bool
same_signing not_applicable not_applicable = true
same_signing software_hot software_hot = true
same_signing hardware_offline hardware_offline = true
same_signing airgapped airgapped = true
same_signing ceremonial ceremonial = true
same_signing unknown unknown = true
same_signing _ _ = false

abbrev pub same_kind : SafetyWarningKind → SafetyWarningKind → Bool
same_kind destination_keys_on_host destination_keys_on_host = true
same_kind destination_is_custodial destination_is_custodial = true
same_kind same_security_tier same_security_tier = true
same_kind no_maximum_cap_set no_maximum_cap_set = true
same_kind unverified_whitelist_on_provider unverified_whitelist_on_provider = true
same_kind _ _ = false

abbrev pub is_awaiting_signature : PaymentStatus → Bool
is_awaiting_signature awaiting_signature = true
is_awaiting_signature _ = false

abbrev pub is_awaiting_broadcast : PaymentStatus → Bool
is_awaiting_broadcast awaiting_broadcast = true
is_awaiting_broadcast _ = false

abbrev pub is_open_invoice : InvoiceStatus → Bool
is_open_invoice open_invoice = true
is_open_invoice _ = false

abbrev pub is_threshold : SweepTriggerType → Bool
is_threshold threshold = true
is_threshold _ = false

abbrev pub is_awaiting_confirmation : SweepExecutionStatus → Bool
is_awaiting_confirmation awaiting_user_confirmation = true
is_awaiting_confirmation _ = false

abbrev pub is_reused_flag : HygieneFlag → Bool
is_reused_flag address_reused = true
is_reused_flag _ = false

abbrev pub is_incoming : Direction → Bool
is_incoming incoming = true
is_incoming _ = false

abbrev pub is_outgoing : Direction → Bool
is_outgoing outgoing = true
is_outgoing _ = false
