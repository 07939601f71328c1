-- ===== src/Chain/Spent.antt =====
-- Which UTXOs are spent once the inputs are marked.
use tallykeep.Prelude.{
  ◌≡◌, refl, ℕ, String, Bool, true, Option, none, some, List, [], ◌∷◌, arith, inl, inr, Bool-cases,
  find_first, All,
}
use tallykeep.Table.{modify_first}
use tallykeep.Domain.Chain.{Utxo}
use tallykeep.Db.{Db}
use tallykeep.Chain.{
  TxInput, coinbase, spends, SpentInputs, is_outpoint, utxo_at, as_spent, spend_at, count_spent,
  mark_from, no_inputs, mark_inputs_spent,
}

-- no UTXO, or a spent one
abbrev pub is_none_unspent : Option Utxo → Bool
is_none_unspent none = true
is_none_unspent (some u) = u.is_spent

spent-modify_first :
    (t txid : String) (v : ℕ) (p : Utxo → Bool) (us : List Utxo)
    → is_none_unspent (find_first (is_outpoint t v) us) ≡ true
    → is_none_unspent (find_first (is_outpoint t v) (modify_first p (as_spent txid) us)) ≡ true
spent-modify_first t txid v p [] h = refl
spent-modify_first t txid v p (u ∷ us) h = elim (Bool-cases (p u)) [
  | inl e ↦ ground (arith, h)
  | inr e ↦ ground (arith, h, spent-modify_first t txid v p us)
]

spent-spend_at :
    (i j : TxInput) (txid : String) (d : Db)
    → is_none_unspent (utxo_at i d) ≡ true
    → is_none_unspent (utxo_at i (spend_at j txid d)) ≡ true
spent-spend_at coinbase j txid d h = refl
spent-spend_at (spends t v) coinbase txid d h = h
spent-spend_at (spends t v) (spends t' v') txid d h =
    spent-modify_first t txid v (is_outpoint t' v') d.utxos.rows h

now_spent-modify_first :
    (t txid : String) (v : ℕ) (us : List Utxo)
    → is_none_unspent
        (find_first (is_outpoint t v) (modify_first (is_outpoint t v) (as_spent txid) us))
      ≡ true
now_spent-modify_first t txid v [] = refl
now_spent-modify_first t txid v (u ∷ us) = ground (arith, now_spent-modify_first t txid v us)

now_spent-spend_at :
    (i : TxInput) (txid : String) (d : Db) → is_none_unspent (utxo_at i (spend_at i txid d)) ≡ true
now_spent-spend_at coinbase txid d = refl
now_spent-spend_at (spends t v) txid d = now_spent-modify_first t txid v d.utxos.rows

-- what every spending keeps, marking the inputs keeps
module _ (Kept : Db → Type 0) (txid : String)
    (keep : (j : TxInput) (d : Db) → Kept d → Kept (spend_at j txid d)) where
  mark_from-Kept :
      (vin : List TxInput) (s : SpentInputs) (d : Db) → Kept d → Kept (mark_from txid vin s d).1
  unfolding mark_from
  mark_from-Kept [] s d h = h
  mark_from-Kept (i ∷ rest) s d h =
      elim (utxo_at i d)
        as (λ o.
          Kept
            (elim o as (λ _. SpentInputs × Db) [
              | none ↦ mark_from txid rest s d
              | some u ↦ mark_from txid rest (count_spent u d s) (spend_at i txid d)
            ]).1) [
              | none ↦ mark_from-Kept rest s d h
              | some u ↦ mark_from-Kept rest (count_spent u d s) (spend_at i txid d) (keep i d h)
            ]

cons-spent :
    (txid : String) (i : TxInput) (rest : List TxInput) (s : SpentInputs) (d : Db) (o : Option Utxo)
    → utxo_at i d ≡ o
    → is_none_unspent (
        utxo_at i
          (elim o as (λ _. SpentInputs × Db) [
            | none ↦ mark_from txid rest s d
            | some u ↦ mark_from txid rest (count_spent u d s) (spend_at i txid d)
          ]).1)
      ≡ true
cons-spent txid i rest s d none e =
    mark_from-Kept (λ d. is_none_unspent (utxo_at i d) ≡ true) txid
      (λ j d h. spent-spend_at i j txid d h) rest s d (rw e refl)
cons-spent txid i rest s d (some u) e =
    mark_from-Kept (λ d. is_none_unspent (utxo_at i d) ≡ true) txid
      (λ j d h. spent-spend_at i j txid d h) rest (count_spent u d s) (spend_at i txid d)
      (now_spent-spend_at i txid d)

-- the inputs name no unspent UTXO
abbrev pub AreSpent : List TxInput → Db → Type 0
AreSpent vin d = All (λ i. is_none_unspent (utxo_at i d) ≡ true) vin

cons-AreSpent :
    (txid : String) (i : TxInput) (rest : List TxInput) (s : SpentInputs) (d : Db) (o : Option Utxo)
    → ((s : SpentInputs) (d : Db) → AreSpent rest (mark_from txid rest s d).1)
    → AreSpent rest
        (elim o as (λ _. SpentInputs × Db) [
          | none ↦ mark_from txid rest s d
          | some u ↦ mark_from txid rest (count_spent u d s) (spend_at i txid d)
        ]).1
cons-AreSpent txid i rest s d none next = next s d
cons-AreSpent txid i rest s d (some u) next = next (count_spent u d s) (spend_at i txid d)

mark_from-AreSpent :
    (txid : String) (vin : List TxInput) (s : SpentInputs) (d : Db)
    → AreSpent vin (mark_from txid vin s d).1
unfolding mark_from
mark_from-AreSpent txid [] s d = tt
mark_from-AreSpent txid (i ∷ rest) s d = (
  cons-spent txid i rest s d (utxo_at i d) refl,
  cons-AreSpent txid i rest s d (utxo_at i d) (λ s d. mark_from-AreSpent txid rest s d),
)

-- Once the inputs of a transaction are marked, every stored UTXO that one of them names is spent.
pub mark_inputs_spent-AreSpent :
    (txid : String) (vin : List TxInput) (d : Db) → AreSpent vin (mark_inputs_spent txid vin d).1
mark_inputs_spent-AreSpent txid vin d = mark_from-AreSpent txid vin no_inputs d

found-modify_first :
    (t txid : String) (v : ℕ) (p : Utxo → Bool) (u : Utxo) (us : List Utxo)
    → u.is_spent ≡ true
    → find_first (is_outpoint t v) us ≡ some u
    → find_first (is_outpoint t v) (modify_first p (as_spent txid) us) ≡ some u
found-modify_first t txid v p u [] spent h = h
found-modify_first t txid v p u (x ∷ us) spent h = elim (Bool-cases (p x)) [
  | inl e ↦ ground (arith, h, spent)
  | inr e ↦ ground (arith, h, spent, found-modify_first t txid v p u us)
]

found-spend_at :
    (i j : TxInput) (txid : String) (u : Utxo) (d : Db)
    → u.is_spent ≡ true
    → utxo_at i d ≡ some u
    → utxo_at i (spend_at j txid d) ≡ some u
found-spend_at coinbase j txid u d spent h = cc
found-spend_at (spends t v) coinbase txid u d spent h = h
found-spend_at (spends t v) (spends t' v') txid u d spent h =
    found-modify_first t txid v (is_outpoint t' v') u d.utxos.rows spent h

-- A UTXO that is spent is left as it is, with the transaction that it was spent in, when the inputs of
-- another transaction, or of the same one again, are marked.
pub mark_inputs_spent_kept :
    (txid : String) (vin : List TxInput) (i : TxInput) (u : Utxo) (d : Db)
    → u.is_spent ≡ true
    → utxo_at i d ≡ some u
    → utxo_at i (mark_inputs_spent txid vin d).1 ≡ some u
mark_inputs_spent_kept txid vin i u d spent h =
    mark_from-Kept (λ d. utxo_at i d ≡ some u) txid (λ j d h. found-spend_at i j txid u d spent h)
      vin no_inputs d h
