-- ===== src/Repositories/Cascade/Reserved.antt =====
-- A deletion that the key of an invoice stops.
use tallykeep.Prelude.{◌≡◌, refl, ◌∙◌, ap, ℕ, Bool, true, ◌||◌, some, arith}
use tallykeep.Errors.{Error, err, uncaught}
use tallykeep.Table.{get}
use tallykeep.Db.{Db, HoldingRow, holding_key}
use tallykeep.Db.Session.{Session, ◌>>◌}
use tallykeep.Db.Keeps.{committed}
use tallykeep.Repositories.Cascade.{
  guarded, delete_type_changes, delete_utxos, addresses_referenced, delete_addresses,
  descriptors_referenced, delete_descriptors, delete_chain_side, delete_sweeps, delete_cascade,
  delete_found,
}
use tallykeep.Repositories.Cascade.Deletable.{run_then, sweeps-pass, after_sweeps, has_reserved}

-- what follows a raise is not run
stop_then :
    {A : Type 0} (m : Session (Unit {0})) (k : Session A) (e : Error) (d d' : Db)
    → m d ≡ (err e, d')
    → (m >> k) d ≡ (err e, d')
stop_then m k e d d' h = rw h refl

or_true : (a b : Bool) → b ≡ true → (a || b) ≡ true
or_true a b h = ground (arith, h)

chain_side-stops :
    (id : ℕ) (d : Db)
    → has_reserved id d ≡ true
    → delete_chain_side id d ≡ (err uncaught, delete_utxos id d)
chain_side-stops id d reserved =
    stop_then (guarded (addresses_referenced id) (delete_addresses id))
      (guarded (descriptors_referenced id) (delete_descriptors id)) uncaught (delete_utxos id d)
      (delete_utxos id d) (rw (or_true _ _ reserved) refl)

found-stops :
    (id : ℕ) (row : HoldingRow) (d : Db)
    → has_reserved id d ≡ true
    → delete_found id (some row) d
      ≡ (err uncaught, delete_utxos id (after_sweeps id (delete_type_changes id d)))
found-stops id row d reserved =
    let d1 = delete_type_changes id d in
    run_then (delete_sweeps id) _ d1 (after_sweeps id d1) (sweeps-pass id d1)
    ∙ stop_then (delete_chain_side id) _ uncaught (after_sweeps id d1)
        (delete_utxos id (after_sweeps id d1)) (chain_side-stops id (after_sweeps id d1) reserved)

committed-err :
    {A : Type 0} (m : Session A) (e : Error) (d d' : Db) → m d ≡ (err e, d') → committed m d ≡ d
unfolding committed
committed-err m e d d' h = rw (h, committed) refl

-- Addresses are deleted before invoices: where an invoice has been given an address of a stored holding,
-- deleting the holding raises, and as its caller then commits nothing, the database stays as it is.
pub delete_cascade-reserved :
    (id : ℕ) (row : HoldingRow) (d : Db)
    → get id d.holdings ≡ some row
    → has_reserved id d ≡ true
    → ((delete_cascade id d).0 ≡ err uncaught) × (committed (delete_cascade id) d ≡ d)
unfolding delete_cascade
delete_cascade-reserved id row d found reserved =
    let d' = delete_utxos id (after_sweeps id (delete_type_changes id d)) in
    let run = ap (λ o. delete_found id o d) found ∙ found-stops id row d reserved in
    (ap (λ r. r.0) run, committed-err (delete_cascade id) uncaught d d' run)
