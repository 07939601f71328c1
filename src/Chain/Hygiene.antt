-- ===== src/Chain/Hygiene.antt =====
-- backend/tallykeep/services/utxo_hygiene_service.py: the hygiene flags of a new UTXO, and what they do to
-- the other UTXOs at its address. A fee rate is in thousandths of a sat/vB.
pub mod Marks
use tallykeep.Prelude.{
  ℕ, suc, ◌+◌, ◌*◌, ◌%◌, ◌==◌, ltb, leb, String, Bool, true, false, not, ◌&&◌, ◌||◌, Option, none,
  some, List, [], ◌∷◌, ◌++◌, any_of, length, if◌then◌else◌, str_eq, ℤ, pos, pos_part, ltb_ℤ, leb_ℤ,
}
use tallykeep.Table.{Table, get, modify, update_where}
use tallykeep.Domain.Enums.{
  AddressType, legacy, nested_segwit, native_segwit, taproot, HygieneFlag, address_reused, dust,
  suspected_consolidation, round_number,
}
use tallykeep.Domain.Chain.{Utxo, utxo_key, Address, address_key}
use tallykeep.Db.{Db}
use tallykeep.Chain.{TxInput, TxOutput, utxo_at}

-- the inputs and outputs of the transaction, where it is given, the type of the address, and the fee rate
pub record HygieneContext : Type 0 where
  pub decoded_tx : Option (List TxInput × List TxOutput)
  pub address_type : AddressType
  pub fee_rate : ℕ

-- `_FALLBACK_FEE_RATE_SAT_PER_VBYTE`
abbrev pub fallback_fee_rate : ℕ
fallback_fee_rate = 10000

abbrev positive_rate : ℤ → ℕ
positive_rate rate = if leb_ℤ rate (pos 0) then fallback_fee_rate else pos_part rate

-- `estimate_fee_rate_sat_per_vbyte`, for the node's estimate in sat/kvB, if there is one
unfoldable pub estimate_fee_rate : Option ℤ → ℕ
estimate_fee_rate none = fallback_fee_rate
estimate_fee_rate (some rate) = positive_rate rate

-- `_TYPICAL_INPUT_VBYTES`, in half vbytes
abbrev pub typical_input_halves : AddressType → ℕ
typical_input_halves legacy = 296
typical_input_halves nested_segwit = 182
typical_input_halves native_segwit = 136
typical_input_halves taproot = 115
typical_input_halves _ = 136

-- a UTXO at the same address from another transaction
abbrev pub clashes : Utxo → Utxo → Bool
clashes u v = v.address_id == u.address_id && not (str_eq v.txid u.txid)

-- `_is_address_reused`
abbrev pub is_address_reused : Utxo → Db → Bool
is_address_reused u d = any_of (clashes u) d.utxos.rows

-- `_is_dust`, with both sides of the comparison times 2,000
unfoldable pub is_dust : Utxo → HygieneContext → Bool
is_dust u c =
    ltb (2000 * pos_part u.value_sats) (3 * c.fee_rate * typical_input_halves c.address_type)

-- `_is_round_number`
unfoldable pub is_round_number : ℤ → Bool
is_round_number value = leb 100000 (pos_part value) && pos_part value % 100000 == 0

abbrev found_count : Option Utxo → ℕ
found_count none = 0
found_count (some _) = 1

unfoldable pub count_ours : List TxInput → Db → ℕ
count_ours [] d = 0
count_ours (i ∷ rest) d = found_count (utxo_at i d) + count_ours rest d

-- `_is_suspected_consolidation`
unfoldable pub is_suspected_consolidation : List TxInput → List TxOutput → Db → Bool
is_suspected_consolidation vin vout d =
    not (ltb (length vin) 5 || ltb 2 (length vout)) && ltb (length vin) (2 * count_ours vin d)

abbrev flag_if : Bool → HygieneFlag → List HygieneFlag
flag_if true f = f ∷ []
flag_if false f = []

abbrev transaction_flags : Utxo → Option (List TxInput × List TxOutput) → Db → List HygieneFlag
transaction_flags u none d = []
transaction_flags u (some (vin, vout)) d =
    flag_if (is_round_number u.value_sats) round_number
    ++ flag_if (is_suspected_consolidation vin vout d) suspected_consolidation

-- `compute_flags`
unfoldable pub compute_flags : Utxo → HygieneContext → Db → List HygieneFlag
compute_flags u c d =
    flag_if (is_address_reused u d) address_reused
    ++ (flag_if (is_dust u c) dust ++ transaction_flags u c.decoded_tx d)

abbrev pub is_reused_flag : HygieneFlag → Bool
is_reused_flag address_reused = true
is_reused_flag _ = false

abbrev pub is_marked : Utxo → Bool
is_marked u = any_of is_reused_flag u.hygiene_flags

abbrev pub mark_reused : Utxo → Utxo
mark_reused u =
    if is_marked u then u else record u { hygiene_flags = u.hygiene_flags ++ (address_reused ∷ []) }

-- `_propagate_address_reuse`
unfoldable pub propagate_address_reuse : Utxo → Db → Db
propagate_address_reuse u d = record d {
  utxos =
      update_where (λ r. r.address_id == u.address_id && not (r.id == u.id)) mark_reused d.utxos;
  addresses = modify u.address_id (λ a. record a { is_reused = true }) d.addresses;
}

abbrev with_flags : Utxo → List HygieneFlag → Db → Db
with_flags u flags d = record d {
  utxos = modify u.id (λ r. record r { hygiene_flags = flags }) d.utxos;
}

-- `apply_flags_and_propagate_reuse`
unfoldable pub apply_flags : Utxo → HygieneContext → Db → Db
apply_flags u c d =
    let flags = compute_flags u c d in
    let flagged = with_flags u flags d in
    if any_of is_reused_flag flags then propagate_address_reuse u flagged else flagged
