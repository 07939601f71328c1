-- ===== src/Banking/Outside.antt =====
-- What the banking service takes from BDK, from bitcoind and from Python's formatting: parameters of
-- the model. A call that raises gives `none`, or a constructor for the exception.
use tallykeep.Prelude.{ℕ, String, Bool, Option, List, ℤ}
use tallykeep.Domain.Enums.{Network}

-- `UtxoForBuild`
pub record UtxoForBuild : Type 0 where
  pub txid : String
  pub vout : ℕ
  pub value_sats : ℤ
  pub parent_raw_hex : String

-- the arguments of `descriptor_adapter.build_psbt`. A fee rate is in thousandths of a sat/vB.
pub record PsbtOrder : Type 0 where
  pub external_descriptor : String
  pub change_descriptor : Option String
  pub network : Network
  pub utxos : List UtxoForBuild
  pub recipient_address : String
  pub amount_sats : Option ℤ
  pub fee_rate : ℤ
  pub max_external_index : ℕ
  pub max_change_index : ℕ

-- an input of a PSBT, as far as `_is_psbt_finalized` reads it
pub record PsbtInput : Type 0 where
  pub has_final_script_witness : Bool
  pub has_final_script_sig : Bool

-- BDK, over its type of parsed PSBTs
pub record Bdk (P : Type 0) : Type 0 where
  pub is_address : String → Network → Bool
  pub build_psbt : PsbtOrder → Option String
  pub parse_psbt : String → Option P
  pub inputs : P → List PsbtInput
  -- `extract_tx().serialize().hex()`
  pub extract_hex : P → Option String
  pub combine : P → P → Option P
  -- the result's `could_finalize` and `psbt`
  pub finalize : P → Option (Bool × P)
  pub serialize : P → String
  -- `str(Transaction(bytes.fromhex(hex)).compute_txid())`
  pub txid_of : String → Option String

-- `getrawtransaction`: a string, another type, `NodeRpcError` or another `NodeError`
pub data RawTransaction : Type 0 where
  raw : String → RawTransaction
  wrong_type rpc_error node_down : RawTransaction

-- `sendrawtransaction`: the txid, `NodeRpcError` with its reason, or another `NodeError`
pub data SendOutcome : Type 0 where
  sent : String → SendOutcome
  node_rejected : String → SendOutcome
  node_unreachable : SendOutcome

pub record Node : Type 0 where
  -- the estimate for a target, in sat/kvB, where there is one
  pub estimate_smart_fee : ℕ → Option ℤ
  pub get_raw_transaction : String → RawTransaction
  pub send_raw_transaction : String → SendOutcome

-- `f"{sats / 100_000_000:.8f}"` and `urllib.parse.quote`
pub record Texts : Type 0 where
  pub amount_text : ℤ → String
  pub quote : String → String
