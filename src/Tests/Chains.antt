-- ===== src/Tests/Chains.antt =====
-- The theorems on the processing of a transaction, at one that spends the sample UTXO and pays change back.
use tallykeep.Prelude.{
  ℕ, suc, ◌+ℤ◌, ◌+◌, ◌≤◌, ◌==◌, false, map, true, ◌≡◌, refl, none, some, List, [], ◌∷◌, arith, pos,
  All,
}
use tallykeep.Errors.{ok}
use tallykeep.Table.{get, modify}
use tallykeep.Domain.Enums.{address_reused, dust}
use tallykeep.Db.{Db}
use tallykeep.Domain.Chain.{Utxo, new_transaction, new_ledger_entry, descriptor_key}
use tallykeep.Chain.{
  TxInput, coinbase, spends, TxOutput, share_entry, mark_inputs_spent, utxo_at, mark_from,
  discover_outputs, received_by, direction_of, infer_direction, received_total, receiving,
}
use tallykeep.Chain.Inputs.{IsCoin}
use tallykeep.Chain.Slices.{IsValued, share_entry-accepted}
use tallykeep.Chain.Spent.{AreSpent, mark_inputs_spent-AreSpent, mark_inputs_spent_kept}
use tallykeep.Chain.Hygiene.{
  apply_flags, compute_flags, propagate_address_reuse, is_dust, is_round_number,
  is_suspected_consolidation,
}
use tallykeep.Chain.Processing.{process_decoded_transaction, link_holdings}
use tallykeep.Chain.Storing.{Arrival, store_outputs, store_utxo, upsert_transaction}
use tallykeep.Chain.Storing.Marked.{HasMarks}
use tallykeep.Chain.Processing.Marked.{process_decoded_transaction-HasMarks}
use tallykeep.Tests.Data.{sample_db, utxo_row}

abbrev vin : List TxInput
vin = coinbase ∷ spends "aa" 0 ∷ spends "cc" 1 ∷ []

abbrev vout : List TxOutput
vout =
    record { value_sats = some (pos 700); n = 0; address = some "bc1qother" }
    ∷ record { value_sats = some (pos 290); n = 1; address = some "bc1qa" }
    ∷ record { value_sats = none; n = 2; address = none }
    ∷ []

coins : All (IsCoin sample_db.descriptors) sample_db.utxos.rows
unfolding get
coins = ((ground arith, refl), tt)

valued : All IsValued vout
valued = (λ v e. ground (arith, e), (λ v e. ground (arith, e), (λ v e. ground (arith, e), tt)))

share_entry-accepted_example :
    new_ledger_entry (share_entry 80 5 4 "dd" vin vout 1 sample_db)
    ≡ ok (share_entry 80 5 4 "dd" vin vout 1 sample_db)
share_entry-accepted_example =
    share_entry-accepted "dd" vin vout 1 80 5 4 sample_db refl coins valued

mark_inputs_spent-AreSpent_example : AreSpent vin (mark_inputs_spent "dd" vin sample_db).1
mark_inputs_spent-AreSpent_example = mark_inputs_spent-AreSpent "dd" vin sample_db

abbrev spent_row : Utxo
spent_row = record utxo_row { is_spent = true; spent_in_txid = some "ee" }

abbrev spent_db : Db
spent_db = record sample_db { utxos = record { rows = spent_row ∷ []; pending = [] } }

mark_inputs_spent_kept_example :
    utxo_at (spends "aa" 0) (mark_inputs_spent "dd" vin spent_db).1 ≡ some spent_row
mark_inputs_spent_kept_example =
    mark_inputs_spent_kept "dd" vin (spends "aa" 0) spent_row spent_db refl refl

-- an id above those of the stored UTXOs
abbrev id_sum : List Utxo → ℕ
id_sum [] = 0
id_sum (u ∷ us) = u.id + id_sum us

abbrev next_id : Db → ℕ
next_id d = suc (id_sum d.utxos.rows)

below-fresh : (n : ℕ) (us : List Utxo) → id_sum us ≤ n → All (λ r. (r.id == suc n) ≡ false) us
below-fresh n [] h = tt
below-fresh n (u ∷ us) h = (ground (arith, h), below-fresh n us (omega (arith, h)))

next_id-fresh : (d : Db) → All (λ r. (r.id == next_id d) ≡ false) d.utxos.rows
next_id-fresh d = below-fresh (id_sum d.utxos.rows) d.utxos.rows (omega arith)

abbrev arrival : Arrival
arrival = record {
  txid = "dddddddddddddddddddddddddddddddddddddddddddddddddddddddddddddddd";
  raw_hex = none;
  vin = vin;
  vout = vout;
  confirmation_height = none;
  block_time = none;
  fee_rate = some 2000;
  now = 5;
  entry_id = λ id. 80 + id;
}

sample_marks : HasMarks sample_db
sample_marks = record { marked = (λ clash. ground (arith, clash), tt); none_pending = refl }

-- the change is paid to the address of the UTXO that is spent, which is marked with it
process_marked :
    map (λ u. u.hygiene_flags) (process_decoded_transaction next_id arrival sample_db).1.utxos.rows
    ≡ (address_reused ∷ []) ∷ (address_reused ∷ dust ∷ []) ∷ []
unfolding process_decoded_transaction mark_from discover_outputs store_outputs store_utxo
    upsert_transaction new_transaction apply_flags compute_flags propagate_address_reuse
    link_holdings modify is_dust is_round_number get is_suspected_consolidation received_by
    direction_of infer_direction received_total receiving new_ledger_entry ◌+ℤ◌
process_marked = refl

process_decoded_transaction-HasMarks_example :
    HasMarks (process_decoded_transaction next_id arrival sample_db).1
process_decoded_transaction-HasMarks_example =
    process_decoded_transaction-HasMarks next_id next_id-fresh arrival sample_db sample_marks
