-- ===== src/Chain/Processing/Marked.antt =====
-- A transaction that is processed leaves every address that was paid in two transactions marked.
use tallykeep.Prelude.{
  is_some, ℕ, Bool, true, false, ◌≡◌, refl, sym, ap, ◌∙◌, subst, List, [], ◌∷◌, ◌++◌, All,
  append_nil, Bool-cases, inl, inr, ℤ, ◌-ℤ◌, ◌==◌, if◌then◌else◌, is_empty, ◌&&◌, get_or,
}
use tallykeep.Table.{add}
use tallykeep.Domain.Enums.{Direction}
use tallykeep.Domain.Chain.{LedgerEntry, LedgerEntryHoldingLink, new_ledger_entry}
use tallykeep.Db.{Db, flush_all}
use tallykeep.Db.Session.{pure, state_bind, state_read, lift, ◌>>=◌, ◌>>◌}
use tallykeep.Chain.{
  SpentInputs, DiscoveredOutput, mark_inputs_spent, no_inputs, discover_outputs, entry_of,
  direction_of,
}
use tallykeep.Chain.Hygiene.Marks.{AreMarked}
use tallykeep.Chain.Storing.{Arrival, transaction_get, upsert_transaction}
use tallykeep.Chain.Storing.Marked.{
  HasMarks, mark_from-HasMarks, upsert_transaction-HasMarks, store_outputs-HasMarks,
}
use tallykeep.Chain.Processing.{
  link_holdings, process_decoded_transaction, already_linked, already_linked_to, ledger_insert,
  write_entry, write_share, share_of, is_zero, affected, record_transaction, write_outputs,
  result_of,
}

flush-HasMarks : (d : Db) → HasMarks d → HasMarks (flush_all d)
flush-HasMarks d h = record {
  marked =
      subst AreMarked
        (sym (append_nil d.utxos.rows) ∙ ap (λ ps. d.utxos.rows ++ ps) (sym h.none_pending))
        h.marked;
  none_pending = refl;
}

with_entry-HasMarks :
    (e : LedgerEntry) (d : Db) → HasMarks d → HasMarks record d { entries = add e d.entries }
with_entry-HasMarks e d h = record { marked = h.marked; none_pending = h.none_pending }

with_link-HasMarks :
    (l : LedgerEntryHoldingLink) (d : Db) → HasMarks d → HasMarks record d { links = add l d.links }
with_link-HasMarks l d h = record { marked = h.marked; none_pending = h.none_pending }

ledger_insert-HasMarks :
    (e : LedgerEntry) (l : LedgerEntryHoldingLink) (d : Db)
    → HasMarks d
    → HasMarks (ledger_insert e l d).1
ledger_insert-HasMarks e l d h =
    with_link-HasMarks l (flush_all record d { entries = add e d.entries })
      (flush-HasMarks (record d { entries = add e d.entries }) (with_entry-HasMarks e d h))

write_entry-HasMarks :
    (a : Arrival) (t : Direction) (id : ℕ) (net : ℤ) (d : Db)
    → HasMarks d
    → HasMarks (write_entry a t id net d).1
write_entry-HasMarks a t id net d h =
    state_read HasMarks d h
      (lift (
        new_ledger_entry (entry_of (a.entry_id id) a.now (get_or a.block_time a.now) a.txid t net)))
      (λ entry.
        ledger_insert entry
          (record { ledger_entry_id = entry.id; holding_id = id; holding_amount_sats = net })
        >> pure (entry.id ∷ []))
      refl (λ entry _. ledger_insert-HasMarks entry _ d h)

write_share-HasMarks :
    (a : Arrival) (t : Direction) (id : ℕ) (share : ℤ × ℤ) (d : Db)
    → HasMarks d
    → HasMarks (write_share a t id share d).1
write_share-HasMarks a t id (received, spent) d h =
    elim (Bool-cases (is_zero received && is_zero spent)) [
      | inl nothing ↦ rw nothing h
      | inr some_share ↦ rw some_share (write_entry-HasMarks a t id (received -ℤ spent) d h)
    ]

already_linked-reads :
    (links : List LedgerEntryHoldingLink) (d : Db) → (already_linked_to links d).1 ≡ d
already_linked-reads [] d = refl
already_linked-reads (l ∷ []) d = refl
already_linked-reads (l ∷ k ∷ links) d = refl

share_unless-HasMarks :
    (linked : Bool) (a : Arrival) (t : Direction) (id : ℕ) (share : ℤ × ℤ) (d : Db)
    → HasMarks d
    → HasMarks ((if linked then pure [] else write_share a t id share) d).1
share_unless-HasMarks true a t id share d h = h
share_unless-HasMarks false a t id share d h = write_share-HasMarks a t id share d h

link_holdings-HasMarks :
    (a : Arrival) (t : Direction) (found : List DiscoveredOutput) (ids : List ℕ) (d : Db)
    → HasMarks d
    → HasMarks (link_holdings a t found ids d).1
unfolding link_holdings
link_holdings-HasMarks a t found [] d h = h
link_holdings-HasMarks a t found (id ∷ ids) d h =
    state_read HasMarks d h (already_linked a.txid id) _ (already_linked-reads _ d) λ linked _.
      let share = if linked then pure [] else write_share a t id (share_of a found id d) in
      let h' = share_unless-HasMarks linked a t id (share_of a found id d) d h in
      state_bind HasMarks share _ d h' λ new.
        state_bind HasMarks (link_holdings a t found ids) _ (share d).1
          (link_holdings-HasMarks a t found ids (share d).1 h')
          λ later. link_holdings-HasMarks a t found ids (share d).1 h'

module _ (uuid4 : Db → ℕ)
    (uuid4-fresh : (d : Db) → All (λ r. (r.id == uuid4 d) ≡ false) d.utxos.rows) where
  record_transaction-HasMarks :
      (a : Arrival) (s : SpentInputs) (found : List DiscoveredOutput) (d : Db)
      → HasMarks d
      → HasMarks (record_transaction uuid4 a s found d).1
  record_transaction-HasMarks a s found d h =
      let d1 = (upsert_transaction a d).1 in
      let h1 = upsert_transaction-HasMarks a d h in
      let d2 = (write_outputs uuid4 a found d1).1 in
      let h2 = store_outputs-HasMarks uuid4 uuid4-fresh a found d1 h1 in
      let ids = affected s.holdings found in
      let h3 = link_holdings-HasMarks a (direction_of s found) found ids d2 h2 in
      let linked = link_holdings a (direction_of s found) found ids in
      state_read HasMarks d h (transaction_get a.txid) _ refl λ existing _.
        let result = result_of a (is_some existing) s found in
        state_bind HasMarks (upsert_transaction a)
          (λ _. write_outputs uuid4 a found >>= λ new. linked >>= λ es. pure (result new es)) d h1
          λ _.
            state_bind HasMarks (write_outputs uuid4 a found)
              (λ new. linked >>= λ es. pure (result new es)) d1 h2
              λ new. state_bind HasMarks linked (λ es. pure (result new es)) d2 h3 λ es. h3

  -- Where the ids of new UTXOs are unused, processing a transaction keeps that a UTXO whose address is
  -- paid by another transaction, too, carries the flag ADDRESS_REUSED, and that no UTXO is left unflushed.
  pub process_decoded_transaction-HasMarks :
      (a : Arrival) (d : Db) → HasMarks d → HasMarks (process_decoded_transaction uuid4 a d).1
  unfolding process_decoded_transaction
  process_decoded_transaction-HasMarks a d h =
      let (s, d') = mark_inputs_spent a.txid a.vin d in
      let found = discover_outputs a.vout d' in
      let h' = mark_from-HasMarks a.txid a.vin no_inputs d h in
      elim (Bool-cases (is_empty s.spent_ids && is_empty found)) [
        | inl none_ours ↦ rw none_ours h'
        | inr ours ↦ rw ours (record_transaction-HasMarks a s found d' h')
      ]
