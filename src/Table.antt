-- ===== src/Table.antt =====
-- A database table behind an SQLAlchemy session (backend/tallykeep/infrastructure/database.py).
-- The sessions are made with `autoflush=False`: a row that was added is pending until a flush, and
-- neither `session.get` nor a query sees it before.
pub mod Laws
use tallykeep.Prelude.{
  ℕ, Bool, Option, List, [], ◌∷◌, ◌++◌, map, ◌==◌, if◌then◌else◌, find_first, filter_by, not,
}

-- the primary key of a row
pub record Keyed (R : Type 0) : Type 0 where
  pub key : R → ℕ

pub record Table (R : Type 0) : Type 0 where
  pub rows : List R
  pub pending : List R

module _ {R : Type 0} where
  abbrev pub empty_table : Table R
  empty_table = record { rows = []; pending = [] }

  -- `session.add(row)`
  abbrev pub add : R → Table R → Table R
  add r t = record t { pending = t.pending ++ (r ∷ []) }

  -- `session.flush()`, as far as it concerns one table
  abbrev pub flush : Table R → Table R
  flush t = record { rows = t.rows ++ t.pending; pending = [] }

  -- `select(Row).where(p)`
  abbrev pub select : (R → Bool) → Table R → List R
  select p t = filter_by p t.rows

  -- `update(Row).where(p).values(f)`
  abbrev pub update_where : (R → Bool) → (R → R) → Table R → Table R
  update_where p f t = record t { rows = map (λ r. if p r then f r else r) t.rows }

  -- `f` on the first row with `p`
  abbrev pub modify_first : (R → Bool) → (R → R) → List R → List R
  modify_first p f [] = []
  modify_first p f (r ∷ rs) = if p r then f r ∷ rs else r ∷ modify_first p f rs

  -- `delete(Row).where(p)`
  abbrev pub delete_where : (R → Bool) → Table R → Table R
  delete_where p t = record t { rows = filter_by (λ r. not (p r)) t.rows }

module _ {R : Type 0} ⦃k : Keyed R⦄ where
  abbrev has_key : ℕ → R → Bool
  has_key id r = k.key r == id

  -- `session.get(Row, id)`
  unfoldable pub get : ℕ → Table R → Option R
  get id t = find_first (has_key id) t.rows

  -- assignments to the fields of the object that `session.get(Row, id)` returned
  unfoldable pub modify : ℕ → (R → R) → Table R → Table R
  modify id f t = record t { rows = modify_first (has_key id) f t.rows }

  -- `session.delete(row)`
  unfoldable pub delete : ℕ → Table R → Table R
  delete id t = delete_where (has_key id) t
