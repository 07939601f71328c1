-- ===== src/Chain/Hygiene/Marks.antt =====
-- Addresses that were paid in two transactions: every UTXO at such an address carries the flag.
use tallykeep.Chain.{TxOutput, TxInput}
use tallykeep.Prelude.{
  ==_refl, All-append, Option, none, some, any_of-append, Bool, true, false, not, ◌&&◌, ◌||◌, ◌==◌,
  ◌≡◌, refl, sym, ap, ◌∙◌, List, [], ◌∷◌, ◌++◌, All, arith, map, any_of, str_eq_iff, Bool-cases,
  inl, inr, if◌then◌else◌,
}
use tallykeep.Table.{modify, modify_first}
use tallykeep.Domain.Enums.{HygieneFlag, address_reused, dust}
use tallykeep.Domain.Chain.{Utxo, utxo_key}
use tallykeep.Db.{Db}
use tallykeep.Chain.Hygiene.{
  HygieneContext, clashes, is_marked, is_reused_flag, mark_reused, compute_flags, apply_flags,
  propagate_address_reuse, flag_if, transaction_flags, is_dust,
}

-- a row that another transaction's row clashes with is marked
abbrev pub AreMarkedIn : List Utxo → List Utxo → Type 0
AreMarkedIn rows us = All (λ u. any_of (clashes u) rows ≡ true → is_marked u ≡ true) us

abbrev pub AreMarked : List Utxo → Type 0
AreMarked rows = AreMarkedIn rows rows

clashes_sym : (u v : Utxo) → clashes u v ≡ clashes v u
clashes_sym u v = ground (arith, str_eq_iff v.txid u.txid, str_eq_iff u.txid v.txid)

clashes_self : (u : Utxo) → clashes u u ≡ false
clashes_self u = ground (arith, str_eq_iff u.txid u.txid)

-- the last row, which is the first with its id
modify_first-last :
    (f : Utxo → Utxo) (old : List Utxo) (u : Utxo)
    → All (λ r. (r.id == u.id) ≡ false) old
    → modify_first (λ r. r.id == u.id) f (old ++ u ∷ []) ≡ old ++ f u ∷ []
modify_first-last f [] u h = ground arith
modify_first-last f (r ∷ old) u h = rw h.0 (ap (λ rs. r ∷ rs) (modify_first-last f old u h.1))

-- the flag is computed exactly where a row clashes
compute_flags-reused :
    (u : Utxo) (c : HygieneContext) (d : Db)
    → any_of is_reused_flag (compute_flags u c d) ≡ any_of (clashes u) d.utxos.rows
unfolding compute_flags
compute_flags-reused u c d = elim (Bool-cases (any_of (clashes u) d.utxos.rows)) [
  | inl reused ↦ rw reused refl
  | inr fresh ↦ rw fresh (others (is_dust u c) c.decoded_tx)
]
  where
    tail :
        (o : Option (List TxInput × List TxOutput))
        → any_of is_reused_flag (transaction_flags u o d) ≡ false
    tail none = refl
    tail (some (vin, vout)) = ground arith

    others :
        (b : Bool) (o : Option (List TxInput × List TxOutput))
        → any_of is_reused_flag (flag_if b dust ++ transaction_flags u o d) ≡ false
    others true o = tail o
    others false o = tail o

-- the rows after the flag was passed on
module _ (u : Utxo) where
  abbrev step : Utxo → Utxo
  step r = if r.address_id == u.address_id && not (r.id == u.id) then mark_reused r else r

  clashes-step : (r x : Utxo) → clashes (step r) (step x) ≡ clashes r x
  clashes-step r x = ground arith

  any_of-step :
      (r : Utxo) (xs : List Utxo) → any_of (clashes (step r)) (map step xs) ≡ any_of (clashes r) xs
  any_of-step r [] = refl
  any_of-step r (x ∷ xs) = rw (clashes-step r x, any_of-step r xs) refl

  step-marked : (r : Utxo) → is_marked r ≡ true → is_marked (step r) ≡ true
  step-marked r h = ground arith

  mark_reused-marks : (r : Utxo) → is_marked (mark_reused r) ≡ true
  mark_reused-marks r = elim (Bool-cases (is_marked r)) [
    | inl marked ↦ rw marked marked
    | inr unmarked ↦
        rw unmarked
          (any_of-append is_reused_flag r.hygiene_flags (address_reused ∷ []) ∙ ground arith)
  ]

  step-clashing :
      (r : Utxo) → (r.id == u.id) ≡ false → clashes r u ≡ true → is_marked (step r) ≡ true
  step-clashing r other h = let marks = mark_reused-marks r in ground arith

any_of-none : (p : Utxo → Bool) (xs : List Utxo) → any_of p xs ≡ false → All (λ x. p x ≡ false) xs
any_of-none p [] h = tt
any_of-none p (x ∷ xs) h = (ground arith, any_of-none p xs (ground arith))

-- the rows with the new one behind them, when the flag is not its
module _ (old : List Utxo) (u : Utxo) (flags : List HygieneFlag) where
  abbrev flagged : Utxo
  flagged = record u { hygiene_flags = flags }

  any_of-last :
      (r : Utxo) → any_of (clashes r) (old ++ flagged ∷ []) ≡ any_of (clashes r) old || clashes r u
  any_of-last r = any_of-append (clashes r) old (flagged ∷ []) ∙ ground arith

  unreused-old :
      (us : List Utxo)
      → AreMarkedIn old us
      → All (λ r. clashes u r ≡ false) us
      → AreMarkedIn (old ++ flagged ∷ []) us
  unreused-old [] marked apart = tt
  unreused-old (r ∷ us) marked apart = (
    λ h. marked.0 (let last = any_of-last r in let sym_clash = clashes_sym r u in ground arith),
    unreused-old us marked.1 apart.1,
  )

  reused-old :
      (us : List Utxo)
      → AreMarkedIn old us
      → All (λ r. (r.id == u.id) ≡ false) us
      → AreMarkedIn (map (step u) (old ++ flagged ∷ [])) (map (step u) us)
  reused-old [] marked others = tt
  reused-old (r ∷ us) marked others = (
    λ h. elim (Bool-cases (any_of (clashes r) old)) [
      | inl clashing ↦ step-marked u r (marked.0 clashing)
      | inr apart ↦
          let moved = any_of-step u r (old ++ flagged ∷ []) in
          let last = any_of-last r in step-clashing u r others.0 (ground arith)
    ],
    reused-old us marked.1 others.1,
  )

All-map_last :
    (P : Utxo → Type 0) (f : Utxo → Utxo) (xs : List Utxo) (u : Utxo)
    → All P (map f xs)
    → P (f u)
    → All P (map f (xs ++ u ∷ []))
All-map_last P f [] u h p = (p, tt)
All-map_last P f (x ∷ xs) u h p = (h.0, All-map_last P f xs u h.1 p)

unreused_rows :
    (old : List Utxo) (u : Utxo) (flags : List HygieneFlag)
    → AreMarked old
    → any_of (clashes u) old ≡ false
    → AreMarked (old ++ flagged old u flags ∷ [])
unreused_rows old u flags marked apart =
    All-append
      (λ r. any_of (clashes r) (old ++ flagged old u flags ∷ []) ≡ true → is_marked r ≡ true) old
      (flagged old u flags ∷ [])
      (unreused-old old u flags old marked (any_of-none (clashes u) old apart))
      ((λ h. let last = any_of-last old u flags u in let self = clashes_self u in ground arith), tt)

reused_rows :
    (old : List Utxo) (u : Utxo) (flags : List HygieneFlag)
    → AreMarked old
    → All (λ r. (r.id == u.id) ≡ false) old
    → any_of is_reused_flag flags ≡ true
    → AreMarked (map (step u) (old ++ flagged old u flags ∷ []))
reused_rows old u flags marked others reused =
    All-map_last
      (λ r.
        any_of (clashes r) (map (step u) (old ++ flagged old u flags ∷ [])) ≡ true
        → is_marked r ≡ true)
      (step u) old (flagged old u flags) (reused-old old u flags old marked others)
      (λ h. let self = ==_refl u.id in step-marked u (flagged old u flags) reused)

-- A UTXO that was stored behind the others, under an id of its own, and was given its flags: wherever two
-- stored UTXOs at an address are from two transactions, both are marked as reused, if that held of the
-- UTXOs before.
pub apply_flags-AreMarked :
    (u : Utxo) (c : HygieneContext) (d : Db) (old : List Utxo)
    → d.utxos.rows ≡ old ++ u ∷ []
    → All (λ r. (r.id == u.id) ≡ false) old
    → AreMarked old
    → AreMarked (apply_flags u c d).utxos.rows
unfolding apply_flags propagate_address_reuse modify
apply_flags-AreMarked u c d old rows others marked =
    let flags = compute_flags u c d in
    let placed : modify_first (λ r. r.id == u.id) (λ r. record r { hygiene_flags = flags })
          d.utxos.rows
        ≡ old ++ flagged old u flags ∷ [] =
      ap (modify_first (λ r. r.id == u.id) (λ r. record r { hygiene_flags = flags })) rows
      ∙ modify_first-last (λ r. record r { hygiene_flags = flags }) old u others in
    let among : any_of is_reused_flag flags ≡ any_of (clashes u) old =
      compute_flags-reused u c d
      ∙ ap (any_of (clashes u)) rows
      ∙ any_of-append (clashes u) old (u ∷ [])
      ∙ (let self = clashes_self u in ground arith) in
    elim (Bool-cases (any_of is_reused_flag flags)) [
      | inl reused ↦ rw (reused, placed) (reused_rows old u flags marked others reused)
      | inr fresh ↦ rw (fresh, placed) (unreused_rows old u flags marked (sym among ∙ fresh))
    ]

-- a write to one row that keeps its address, its transaction and its flags
module _ (p : Utxo → Bool) (f : Utxo → Utxo)
    (address : (u : Utxo) → (f u).address_id ≡ u.address_id)
    (txid : (u : Utxo) → (f u).txid ≡ u.txid)
    (flags : (u : Utxo) → (f u).hygiene_flags ≡ u.hygiene_flags) where
  clashing-kept :
      (u : Utxo) (xs : List Utxo) → any_of (clashes u) (modify_first p f xs) ≡ any_of (clashes u) xs
  clashing-kept u [] = refl
  clashing-kept u (x ∷ xs) = elim (Bool-cases (p x)) [
    | inl hit ↦ rw hit (cc (address x, txid x))
    | inr miss ↦ rw miss (cc (clashing-kept u xs))
  ]

  clashing-same : (u : Utxo) (xs : List Utxo) → any_of (clashes (f u)) xs ≡ any_of (clashes u) xs
  clashing-same u [] = refl
  clashing-same u (x ∷ xs) = cc (address u, txid u, clashing-same u xs)

  marked-rest : (rows us : List Utxo) → AreMarkedIn rows us → AreMarkedIn (modify_first p f rows) us
  marked-rest rows [] h = tt
  marked-rest rows (u ∷ us) h =
      ((λ k. h.0 (sym (clashing-kept u rows) ∙ k)), marked-rest rows us h.1)

  marked-kept :
      (rows us : List Utxo)
      → AreMarkedIn rows us
      → AreMarkedIn (modify_first p f rows) (modify_first p f us)
  marked-kept rows [] h = tt
  marked-kept rows (u ∷ us) h = elim (Bool-cases (p u)) [
    | inl hit ↦ rw hit (
      (λ k.
          ap (any_of is_reused_flag) (flags u)
          ∙ h.0 (sym (clashing-kept u rows) ∙ sym (clashing-same u (modify_first p f rows)) ∙ k)),
      marked-rest rows us h.1,
    )
    | inr miss ↦ rw miss ((λ k. h.0 (sym (clashing-kept u rows) ∙ k)), marked-kept rows us h.1)
  ]

  pub AreMarked-kept : (rows : List Utxo) → AreMarked rows → AreMarked (modify_first p f rows)
  AreMarked-kept rows h = marked-kept rows rows h
