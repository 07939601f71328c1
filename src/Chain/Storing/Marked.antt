-- ===== src/Chain/Storing/Marked.antt =====
-- The outputs of a transaction are stored: every address that was paid in two transactions stays marked.
use tallykeep.Prelude.{
  ℕ, String, false, ◌≡◌, refl, ap, List, [], ◌∷◌, ◌++◌, All, Option-cases, Bool-cases, inl, inr,
  find_first, ◌==◌, any_of, arith,
}
use tallykeep.Table.{modify, add}
use tallykeep.Domain.Chain.{Utxo}
use tallykeep.Db.{Db, flush_all}
use tallykeep.Chain.{
  TxInput, coinbase, spends, SpentInputs, DiscoveredOutput, mark_from, spend_at, as_spent,
  is_outpoint, utxo_at, count_spent,
}
use tallykeep.Chain.Hygiene.{
  is_reused_flag, compute_flags, HygieneContext, apply_flags, propagate_address_reuse,
}
use tallykeep.Chain.Hygiene.Marks.{AreMarked, AreMarked-kept, apply_flags-AreMarked}
use tallykeep.Chain.Storing.{
  Arrival, is_txid, upsert_transaction, utxo_of, context_of, store_utxo, confirm_utxo, refresh_utxo,
  store_output, store_outputs,
}

-- every address with UTXOs of two transactions is marked, and no UTXO is pending
pub record HasMarks (d : Db) : Type 0 where
  pub marked : AreMarked d.utxos.rows
  pub none_pending : d.utxos.pending ≡ []

as_spent-flags : (txid : String) (u : Utxo) → (as_spent txid u).hygiene_flags ≡ u.hygiene_flags
as_spent-flags txid u = ground arith

spend_at-HasMarks :
    (i : TxInput) (txid : String) (d : Db) → HasMarks d → HasMarks (spend_at i txid d)
spend_at-HasMarks coinbase txid d h = h
spend_at-HasMarks (spends prev n) txid d h = record {
  marked =
      AreMarked-kept (is_outpoint prev n) (as_spent txid) (λ u. ground arith) (λ u. ground arith)
        (as_spent-flags txid) d.utxos.rows h.marked;
  none_pending = h.none_pending;
}

pub mark_from-HasMarks :
    (txid : String) (vin : List TxInput) (s : SpentInputs) (d : Db)
    → HasMarks d
    → HasMarks (mark_from txid vin s d).1
unfolding mark_from
mark_from-HasMarks txid [] s d h = h
mark_from-HasMarks txid (i ∷ vin) s d h = elim (Option-cases (utxo_at i d)) [
  | inl unknown ↦ rw (unknown, mark_from) (mark_from-HasMarks txid vin s d h)
  | inr (u, known) ↦
      rw (known, mark_from)
        (mark_from-HasMarks txid vin (count_spent u d s) (spend_at i txid d)
          (spend_at-HasMarks i txid d h))
]

refresh_utxo-HasMarks :
    (a : Arrival) (o : DiscoveredOutput) (d : Db) → HasMarks d → HasMarks (refresh_utxo a o d)
unfolding refresh_utxo
refresh_utxo-HasMarks a o d h = record {
  marked =
      AreMarked-kept (is_outpoint a.txid o.vout) (confirm_utxo a.confirmation_height) (λ u. refl)
        (λ u. refl) (λ u. refl) d.utxos.rows h.marked;
  none_pending = h.none_pending;
}

apply_flags-pending :
    (u : Utxo) (c : HygieneContext) (d : Db) → (apply_flags u c d).utxos.pending ≡ d.utxos.pending
unfolding apply_flags propagate_address_reuse modify
apply_flags-pending u c d = elim (Bool-cases (any_of is_reused_flag (compute_flags u c d))) [
  | inl reused ↦ rw reused refl
  | inr fresh ↦ rw fresh refl
]

store_utxo-HasMarks :
    (id : ℕ) (a : Arrival) (o : DiscoveredOutput) (d : Db)
    → All (λ r. (r.id == id) ≡ false) d.utxos.rows
    → HasMarks d
    → HasMarks (store_utxo id a o d)
unfolding store_utxo
store_utxo-HasMarks id a o d fresh h =
    let u = utxo_of id a o in
    let stored = flush_all record d { utxos = add u d.utxos } in
    record {
      marked =
          apply_flags-AreMarked u (context_of a o stored) stored d.utxos.rows
            (ap (λ ps. d.utxos.rows ++ (ps ++ u ∷ [])) h.none_pending) fresh h.marked;
      none_pending = apply_flags-pending u (context_of a o stored) stored;
    }

pub upsert_transaction-HasMarks :
    (a : Arrival) (d : Db) → HasMarks d → HasMarks (upsert_transaction a d).1
unfolding upsert_transaction
upsert_transaction-HasMarks a d h =
    elim (Option-cases (find_first (is_txid a.txid) d.transactions.rows)) [
      | inl unknown ↦
          rw (unknown, upsert_transaction)
            record { marked = h.marked; none_pending = h.none_pending }
      | inr (t, known) ↦
          rw (known, upsert_transaction) record { marked = h.marked; none_pending = h.none_pending }
    ]

module _ (uuid4 : Db → ℕ)
    (uuid4-fresh : (d : Db) → All (λ r. (r.id == uuid4 d) ≡ false) d.utxos.rows) where
  store_output-HasMarks :
      (a : Arrival) (o : DiscoveredOutput) (d : Db)
      → HasMarks d
      → HasMarks (store_output uuid4 a o d).1
  store_output-HasMarks a o d h =
      elim (Option-cases (find_first (is_outpoint a.txid o.vout) d.utxos.rows)) [
        | inl unknown ↦
            rw (unknown, store_output) (store_utxo-HasMarks (uuid4 d) a o d (uuid4-fresh d) h)
        | inr (u, known) ↦ rw (known, store_output) (refresh_utxo-HasMarks a o d h)
      ]

  pub store_outputs-HasMarks :
      (a : Arrival) (os : List DiscoveredOutput) (d : Db)
      → HasMarks d
      → HasMarks (store_outputs uuid4 a os d).1
  unfolding store_outputs
  store_outputs-HasMarks a [] d h = h
  store_outputs-HasMarks a (o ∷ os) d h =
      store_outputs-HasMarks a os (store_output uuid4 a o d).1 (store_output-HasMarks a o d h)
