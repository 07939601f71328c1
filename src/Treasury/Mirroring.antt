-- ===== src/Treasury/Mirroring.antt =====
-- The persist loop of `poll_cycle` in backend/tallykeep/api/v1/internal_custodial.py: what an exchange
-- reports of its ledger is stored, each entry once.
pub mod Refs
pub mod Settled
pub mod Again
pub mod Providers
use tallykeep.Prelude.{
  ℕ, suc, ◌-◌, Bool, true, false, not, List, [], ◌∷◌, is_empty, if◌then◌else◌, length, any_of, ◌||◌,
}
use tallykeep.Errors.{ok, err, uncaught}
use tallykeep.Table.{Table}
use tallykeep.Domain.Mirror.{CustodialEntry}
use tallykeep.Db.{Db}
use tallykeep.Db.Session.{Session, pure, raise_if, gets, ◌>>=◌}
use tallykeep.Repositories.Mirror.{UpsertResult, upsert, same_ref}

-- the lengths of `added_entries` and `updated_entries`
pub record Tally : Type 0 where
  pub added : ℕ
  pub updated : ℕ

abbrev pub tally : UpsertResult → Tally → Tally
tally r t =
    if r.is_new
    then record t { added = suc t.added }
    else if is_empty r.changed
    then t
    else record t { updated = suc t.updated }

-- the loop, over the rows that are made of the entries
unfoldable pub persist_entries : List CustodialEntry → ℕ → Session Tally
persist_entries [] now = pure record { added = 0; updated = 0 }
persist_entries (e ∷ es) now = do
  result ← upsert e now
  rest ← persist_entries es now
  pure (tally result rest)
