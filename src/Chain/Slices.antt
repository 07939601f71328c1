-- ===== src/Chain/Slices.antt =====
-- The entry that a holding gets of a transaction.
use tallykeep.Prelude.{
  +ℤ_parts, -ℤ_parts, ◌&&◌, ◌≡◌, refl, ℕ, String, Option, none, some, List, [], ◌∷◌, arith, inl,
  inr, true, false, Bool-cases, is_some, int_laws, ◌-ℤ◌, ℤ, pos, ◌≤ℤ◌, All, All-append, str_eq, ltb,
  length, ◌==◌, ltb_ℤ,
}
use tallykeep.Errors.{ok}
use tallykeep.Table.{get}
use tallykeep.Domain.Enums.{Direction, is_incoming, is_outgoing}
use tallykeep.Domain.Chain.{Descriptor, Utxo, Address, descriptor_key, new_ledger_entry}
use tallykeep.Db.{Db}
use tallykeep.Chain.{
  holding_net, transaction_direction, TxInput, SpentInputs, utxo_at, spend_at, count_spent,
  mark_from, holding_input_value, TxOutput, DiscoveredOutput, insert_id, holdings_with, no_inputs,
  mark_inputs_spent, pays, discovered_of, discovered_at, discovered_in, discover_outputs,
  received_total, received_by, receiving, infer_direction, entry_of, direction_of, share_entry,
}
use tallykeep.Chain.Inputs.{
  IsCoin, IsCoin-at, All-spend_at, mark_from-IsShare, holding_input_value-mark_from,
}

-- an output is not worth less than nothing
abbrev pub IsPaid : DiscoveredOutput → Type 0
IsPaid o = pos 0 ≤ℤ o.value_sats

insert_id-nonempty : (id : ℕ) (ids : List ℕ) → ltb 0 (length (insert_id id ids)) ≡ true
insert_id-nonempty id [] = refl
insert_id-nonempty id (i ∷ ids) = ground arith

-- what a holding receives is not negative, and not more than all that is received
received_by-bound :
    (holding_id : ℕ) (found : List DiscoveredOutput)
    → All IsPaid found
    → (pos 0 ≤ℤ received_by holding_id found)
      × (received_by holding_id found ≤ℤ received_total found)
unfolding received_by received_total
received_by-bound holding_id [] h = (ground arith, ground arith)
received_by-bound holding_id (o ∷ rest) h =
    let ih = received_by-bound holding_id rest h.1 in
    elim (Bool-cases (o.holding_id == holding_id)) [
      | inl e ↦ rw e (grind (int_laws, ih, h), grind (int_laws, ih, h))
      | inr e ↦ rw e (grind (int_laws, ih, h), grind (int_laws, ih, h))
    ]

receiving-nonempty :
    (found : List DiscoveredOutput)
    → ltb_ℤ (pos 0) (received_total found) ≡ true
    → ltb 0 (length (receiving found)) ≡ true
unfolding received_total receiving
receiving-nonempty [] e = ground arith
receiving-nonempty (o ∷ rest) e = insert_id-nonempty o.holding_id (receiving rest)

-- an output of the transaction that is not worth less than nothing
abbrev pub IsValued : TxOutput → Type 0
IsValued o = (v : ℤ) → o.value_sats ≡ some v → pos 0 ≤ℤ v

discovered_of-IsPaid :
    (row : Address) (o : TxOutput) (x : Option Descriptor) (value : Option ℤ)
    → ((v : ℤ) → value ≡ some v → pos 0 ≤ℤ v)
    → All IsPaid (discovered_of row o x value)
discovered_of-IsPaid row o none value h = tt
discovered_of-IsPaid row o (some x) none h = tt
discovered_of-IsPaid row o (some x) (some value) h = elim (Bool-cases (pays row o.address)) [
  | inl e ↦ rw e (h value refl, tt)
  | inr e ↦ rw e tt
]

discovered_at-IsPaid :
    (outputs : List TxOutput) (d : Db) (row : Address)
    → All IsValued outputs
    → All IsPaid (discovered_at outputs d row)
discovered_at-IsPaid [] d row h = tt
discovered_at-IsPaid (o ∷ rest) d row h =
    All-append IsPaid (discovered_of row o (get row.descriptor_id d.descriptors) o.value_sats) _
      (discovered_of-IsPaid row o (get row.descriptor_id d.descriptors) o.value_sats h.0)
      (discovered_at-IsPaid rest d row h.1)

discovered_in-IsPaid :
    (outputs : List TxOutput) (d : Db) (rows : List Address)
    → All IsValued outputs
    → All IsPaid (discovered_in outputs d rows)
discovered_in-IsPaid outputs d [] h = tt
discovered_in-IsPaid outputs d (row ∷ rows) h =
    All-append IsPaid (discovered_at outputs d row) _ (discovered_at-IsPaid outputs d row h)
      (discovered_in-IsPaid outputs d rows h)

-- where something is spent, the holding that spends it is known
abbrev AreKnown : SpentInputs → Type 0
AreKnown s = ltb_ℤ (pos 0) s.spent_value ≡ true → ltb 0 (length s.holdings) ≡ true

holdings_with-nonempty :
    (x : Option Descriptor) (holdings : List ℕ)
    → is_some x ≡ true
    → ltb 0 (length (holdings_with x holdings)) ≡ true
holdings_with-nonempty none holdings e = ground arith
holdings_with-nonempty (some x) holdings e = insert_id-nonempty x.holding_id holdings

cons-AreKnown :
    (i : TxInput) (rest : List TxInput) (s : SpentInputs) (txid : String) (d : Db) (o : Option Utxo)
    → All (IsCoin d.descriptors) d.utxos.rows
    → utxo_at i d ≡ o
    → AreKnown s
    → ((s : SpentInputs) (d : Db)
        → All (IsCoin d.descriptors) d.utxos.rows
        → AreKnown s
        → AreKnown (mark_from txid rest s d).0)
    → AreKnown
        (elim o as (λ _. SpentInputs × Db) [
          | none ↦ mark_from txid rest s d
          | some u ↦ mark_from txid rest (count_spent u d s) (spend_at i txid d)
        ]).0
cons-AreKnown i rest s txid d none h e k next = next s d h k
cons-AreKnown i rest s txid d (some u) h e k next =
    next (count_spent u d s) (spend_at i txid d) (All-spend_at i txid d h) (λ _.
      holdings_with-nonempty (get u.descriptor_id d.descriptors) s.holdings (IsCoin-at i d u h e).1)

mark_from-AreKnown :
    (vin : List TxInput) (s : SpentInputs) (txid : String) (d : Db)
    → All (IsCoin d.descriptors) d.utxos.rows
    → AreKnown s
    → AreKnown (mark_from txid vin s d).0
unfolding mark_from
mark_from-AreKnown [] s txid d h k = k
mark_from-AreKnown (i ∷ rest) s txid d h k =
    cons-AreKnown i rest s txid d (utxo_at i d) h refl k
      (λ s d h k. mark_from-AreKnown rest s txid d h k)

-- the direction agrees with the sign of a share
module _ (spent total received given : ℤ) (by_inputs by_outputs : ℕ)
    (r : (pos 0 ≤ℤ received) × (received ≤ℤ total)) (g : (pos 0 ≤ℤ given) × (given ≤ℤ spent))
    (known : ltb_ℤ (pos 0) spent ≡ true → ltb 0 by_inputs ≡ true)
    (paid : ltb_ℤ (pos 0) total ≡ true → ltb 0 by_outputs ≡ true) where
  incoming-sign :
      is_incoming (infer_direction spent total by_inputs by_outputs)
        && ltb_ℤ (received -ℤ given) (pos 0)
      ≡ false
  unfolding infer_direction
  incoming-sign = ground (arith, -ℤ_parts received given, r, g, known, paid)

  outgoing-sign :
      is_outgoing (infer_direction spent total by_inputs by_outputs)
        && ltb_ℤ (pos 0) (received -ℤ given)
      ≡ false
  unfolding infer_direction
  outgoing-sign = ground (arith, -ℤ_parts received given, r, g, known, paid)

entry-accepted :
    (new_id now timestamp : ℕ) (txid : String) (direction : Direction) (net : ℤ)
    → str_eq txid "" ≡ false
    → is_incoming direction && ltb_ℤ net (pos 0) ≡ false
    → is_outgoing direction && ltb_ℤ (pos 0) net ≡ false
    → new_ledger_entry (entry_of new_id now timestamp txid direction net)
      ≡ ok (entry_of new_id now timestamp txid direction net)
unfolding new_ledger_entry
entry-accepted new_id now timestamp txid direction net e a b = rw (e, a, b) refl

-- Where every stored UTXO is of a stored descriptor and no stored UTXO and no output is worth less than
-- nothing, the constructor of the ledger entries accepts the entry that a holding gets of a transaction
-- with an id: the direction that is inferred agrees with the sign of the holding's share.
pub share_entry-accepted :
    (txid : String) (vin : List TxInput) (vout : List TxOutput)
    (holding_id new_id now timestamp : ℕ) (d : Db)
    → str_eq txid "" ≡ false
    → All (IsCoin d.descriptors) d.utxos.rows
    → All IsValued vout
    → new_ledger_entry (share_entry new_id now timestamp txid vin vout holding_id d)
      ≡ ok (share_entry new_id now timestamp txid vin vout holding_id d)
unfolding share_entry transaction_direction holding_net direction_of discover_outputs
share_entry-accepted txid vin vout holding_id new_id now timestamp d named coins valued =
    entry-accepted new_id now timestamp txid _ _ named
      (incoming-sign spent _ _ given _ _ (received_by-bound holding_id found paid) share known
        (receiving-nonempty found))
      (outgoing-sign spent _ _ given _ _ (received_by-bound holding_id found paid) share known
        (receiving-nonempty found))
  where
    s : SpentInputs
    s = (mark_inputs_spent txid vin d).0

    d' : Db
    d' = (mark_inputs_spent txid vin d).1

    spent : ℤ
    spent = s.spent_value

    found : List DiscoveredOutput
    found = discovered_in vout d' d'.addresses.rows

    paid : All IsPaid found
    paid = discovered_in-IsPaid vout d' d'.addresses.rows valued

    given : ℤ
    given = holding_input_value vin holding_id d'

    share : (pos 0 ≤ℤ given) × (given ≤ℤ spent)
    share =
        let h = mark_from-IsShare vin no_inputs txid holding_id d coins in
        let same = holding_input_value-mark_from vin vin no_inputs txid holding_id d in
        (
          ground (arith, h, same),
          ground (arith, h, same, +ℤ_parts (pos 0) (holding_input_value vin holding_id d)),
        )

    known : ltb_ℤ (pos 0) spent ≡ true → ltb 0 (length s.holdings) ≡ true
    known = mark_from-AreKnown vin no_inputs txid d coins (λ e. ground (arith, e))
