-- ===== src/Chain/Inputs.antt =====
-- Marking inputs as spent leaves the values of the UTXOs alone.
use tallykeep.Prelude.{
  Bool, ◌≡◌, refl, ◌∙◌, ℕ, String, Option, none, some, List, [], ◌∷◌, arith, inl, inr, true,
  Bool-cases, find_first, is_some, int_laws, ◌+ℤ◌, pos, ◌≤ℤ◌, All, All-find_first,
}
use tallykeep.Table.{Table, get, modify_first}
use tallykeep.Domain.Chain.{Descriptor, Utxo, descriptor_key}
use tallykeep.Db.{Db}
use tallykeep.Chain.{
  TxInput, coinbase, spends, SpentInputs, is_outpoint, utxo_at, as_spent, spend_at, count_spent,
  mark_from, slice_of, holding_input_value,
}

slice-modify_first :
    (t txid : String) (v : ℕ) (p : Utxo → Bool) (holding_id : ℕ) (ds : Table Descriptor)
    (us : List Utxo)
    → slice_of holding_id (find_first (is_outpoint t v) (modify_first p (as_spent txid) us)) ds
      ≡ slice_of holding_id (find_first (is_outpoint t v) us) ds
slice-modify_first t txid v p holding_id ds [] = refl
slice-modify_first t txid v p holding_id ds (u ∷ us) = elim (Bool-cases (p u)) [
  | inl e ↦ ground arith
  | inr e ↦ ground (arith, slice-modify_first t txid v p holding_id ds us)
]

slice-spend_at :
    (i j : TxInput) (txid : String) (holding_id : ℕ) (d : Db)
    → slice_of holding_id (utxo_at i (spend_at j txid d)) (spend_at j txid d).descriptors
      ≡ slice_of holding_id (utxo_at i d) d.descriptors
slice-spend_at coinbase coinbase txid holding_id d = refl
slice-spend_at coinbase (spends t v) txid holding_id d = refl
slice-spend_at (spends t v) coinbase txid holding_id d = refl
slice-spend_at (spends t v) (spends t' v') txid holding_id d =
    slice-modify_first t txid v (is_outpoint t' v') holding_id d.descriptors d.utxos.rows

pub holding_input_value-spend_at :
    (vin : List TxInput) (j : TxInput) (txid : String) (holding_id : ℕ) (d : Db)
    → holding_input_value vin holding_id (spend_at j txid d) ≡ holding_input_value vin holding_id d
unfolding holding_input_value
holding_input_value-spend_at [] j txid holding_id d = refl
holding_input_value-spend_at (i ∷ rest) j txid holding_id d =
    rw (slice-spend_at i j txid holding_id d, holding_input_value-spend_at rest j txid holding_id d)
      refl

pub holding_input_value-mark_from :
    (vin rest : List TxInput) (s : SpentInputs) (txid : String) (holding_id : ℕ) (d : Db)
    → holding_input_value vin holding_id (mark_from txid rest s d).1
      ≡ holding_input_value vin holding_id d
unfolding mark_from
holding_input_value-mark_from vin [] s txid holding_id d = refl
holding_input_value-mark_from vin (i ∷ rest) s txid holding_id d =
    elim (utxo_at i d)
      as (λ o.
        holding_input_value vin holding_id
          (elim o as (λ _. SpentInputs × Db) [
            | none ↦ mark_from txid rest s d
            | some u ↦ mark_from txid rest (count_spent u d s) (spend_at i txid d)
          ]).1
        ≡ holding_input_value vin holding_id d) [
          | none ↦ holding_input_value-mark_from vin rest s txid holding_id d
          | some u ↦
              holding_input_value-mark_from vin rest (count_spent u d s) txid holding_id
                (spend_at i txid d)
              ∙ holding_input_value-spend_at vin i txid holding_id d
        ]

-- a UTXO that is not worth less than nothing, of a stored descriptor
abbrev pub IsCoin : Table Descriptor → Utxo → Type 0
IsCoin ds u = (pos 0 ≤ℤ u.value_sats) × (is_some (get u.descriptor_id ds) ≡ true)

pub All-spend_at :
    (j : TxInput) (txid : String) (d : Db)
    → All (IsCoin d.descriptors) d.utxos.rows
    → All (IsCoin (spend_at j txid d).descriptors) (spend_at j txid d).utxos.rows
All-spend_at coinbase txid d h = h
All-spend_at (spends t v) txid d h = kept d.utxos.rows h
  where
    kept :
        (us : List Utxo)
        → All (IsCoin d.descriptors) us
        → All (IsCoin d.descriptors) (modify_first (is_outpoint t v) (as_spent txid) us)
    kept [] h = tt
    kept (u ∷ us) h = elim (Bool-cases (is_outpoint t v u)) [
      | inl e ↦ rw e ((ground (arith, h.0), ground (arith, h.0)), h.1)
      | inr e ↦ rw e (h.0, kept us h.1)
    ]

pub IsCoin-at :
    (i : TxInput) (d : Db) (u : Utxo)
    → All (IsCoin d.descriptors) d.utxos.rows
    → utxo_at i d ≡ some u
    → IsCoin d.descriptors u
IsCoin-at coinbase d u h e = cc
IsCoin-at (spends t v) d u h e =
    All-find_first (IsCoin d.descriptors) (is_outpoint t v) d.utxos.rows u e h

slice-bound :
    (holding_id : ℕ) (u : Utxo) (ds : Table Descriptor)
    → pos 0 ≤ℤ u.value_sats
    → (pos 0 ≤ℤ slice_of holding_id (some u) ds) × (slice_of holding_id (some u) ds ≤ℤ u.value_sats)
slice-bound holding_id u ds h = (ground arith, ground arith)

-- what the UTXOs of a holding give is not negative, and not more than what all inputs give
abbrev pub IsShare : List TxInput → SpentInputs → String → ℕ → Db → Type 0
IsShare vin s txid holding_id d =
    (pos 0 ≤ℤ holding_input_value vin holding_id d)
    × (s.spent_value +ℤ holding_input_value vin holding_id d
        ≤ℤ (mark_from txid vin s d).0.spent_value)

cons-IsShare :
    (i : TxInput) (rest : List TxInput) (s : SpentInputs) (txid : String) (holding_id : ℕ) (d : Db)
    (o : Option Utxo)
    → All (IsCoin d.descriptors) d.utxos.rows
    → utxo_at i d ≡ o
    → ((s : SpentInputs) (d : Db)
        → All (IsCoin d.descriptors) d.utxos.rows
        → IsShare rest s txid holding_id d)
    → (pos 0 ≤ℤ slice_of holding_id o d.descriptors +ℤ holding_input_value rest holding_id d)
      × (s.spent_value
            +ℤ (slice_of holding_id o d.descriptors +ℤ holding_input_value rest holding_id d)
          ≤ℤ (elim o as (λ _. SpentInputs × Db) [
            | none ↦ mark_from txid rest s d
            | some u ↦ mark_from txid rest (count_spent u d s) (spend_at i txid d)
          ]).0.spent_value)
cons-IsShare i rest s txid holding_id d none h e next =
    let ih = next s d h in (grind (int_laws, ih), grind (int_laws, ih))
cons-IsShare i rest s txid holding_id d (some u) h e next =
    let bound = slice-bound holding_id u d.descriptors (IsCoin-at i d u h e).0 in
    let here = next s d h in
    let ih = next (count_spent u d s) (spend_at i txid d) (All-spend_at i txid d h) in
    (
      grind (int_laws, bound, here),
      grind (int_laws, bound, ih, holding_input_value-spend_at rest i txid holding_id d),
    )

pub mark_from-IsShare :
    (vin : List TxInput) (s : SpentInputs) (txid : String) (holding_id : ℕ) (d : Db)
    → All (IsCoin d.descriptors) d.utxos.rows
    → IsShare vin s txid holding_id d
unfolding mark_from holding_input_value
mark_from-IsShare [] s txid holding_id d h = (ground arith, grind int_laws)
mark_from-IsShare (i ∷ rest) s txid holding_id d h =
    cons-IsShare i rest s txid holding_id d (utxo_at i d) h refl
      (λ s d h. mark_from-IsShare rest s txid holding_id d h)
