-- ===== src/Table/Laws.antt =====
-- What a lookup by key, and a predicate on every row, make of each write to a table.
use mathlib.Core.Option
use tallykeep.Prelude.{
  false, ◌≤◌, count, ℕ, ◌≡◌, refl, ap, Bool, inl, inr, true, none, some, List, [], ◌∷◌, ◌++◌, map,
  arith, ◌==◌, ==_iff, if◌then◌else◌, find_first, find_first-holds, filter_by, Bool-cases, All,
  All-append, All-filter_by, All-find_first, not, or_else,
}
use tallykeep.Table.{
  Keyed, Table, get, modify, modify_first, delete, add, flush, update_where, delete_where,
}

module _ {R : Type 0} ⦃k : Keyed R⦄ where
  -- a row that is found has the key that was asked for
  pub key-get : (id : ℕ) (t : Table R) (r : R) → get id t ≡ some r → k.key r ≡ id
  unfolding get
  key-get id t r e = (==_iff _ _).0 (find_first-holds _ t.rows r e)

  find_first-modify_first :
      (f : R → R)
      → ((r : R) → k.key (f r) ≡ k.key r)
      → (id j : ℕ) (rs : List R)
      → find_first (λ r. k.key r == j) (modify_first (λ r. k.key r == id) f rs) ≡ (
          if id == j
          then Option.map f (find_first (λ r. k.key r == j) rs)
          else find_first (λ r. k.key r == j) rs)
  find_first-modify_first f same id j [] = ground arith
  find_first-modify_first f same id j (r ∷ rs) =
      ground (arith, same r, find_first-modify_first f same id j rs)

  -- A lookup after an assignment, which keeps the key, finds the assigned row.
  pub get-modify :
      (f : R → R)
      → ((r : R) → k.key (f r) ≡ k.key r)
      → (id j : ℕ) (t : Table R)
      → get j (modify id f t) ≡ (if id == j then Option.map f (get j t) else get j t)
  unfolding get modify
  get-modify f same id j t = find_first-modify_first f same id j t.rows

  modify_first-missing :
      (p : R → Bool) (f : R → R) (rs : List R) → find_first p rs ≡ none → modify_first p f rs ≡ rs
  modify_first-missing p f [] e = refl
  modify_first-missing p f (r ∷ rs) e = ground (arith, modify_first-missing p f rs)

  -- an assignment to a row that is not found changes nothing
  pub modify-missing : (f : R → R) (id : ℕ) (t : Table R) → get id t ≡ none → modify id f t ≡ t
  unfolding get modify
  modify-missing f id t e =
      ap (λ rows. record t { rows = rows }) (modify_first-missing _ f t.rows e)

  -- a pending row is not found
  pub get-add : (id : ℕ) (r : R) (t : Table R) → get id (add r t) ≡ get id t
  unfolding get
  get-add id r t = refl

  find_first-append :
      (id : ℕ) (xs ys : List R)
      → find_first (λ r. k.key r == id) (xs ++ ys)
        ≡ or_else (find_first (λ r. k.key r == id) xs) (find_first (λ r. k.key r == id) ys)
  find_first-append id [] ys = refl
  find_first-append id (x ∷ xs) ys = ground (arith, find_first-append id xs ys)

  -- after a flush the pending rows are found too
  pub get-flush :
      (id : ℕ) (t : Table R)
      → get id (flush t) ≡ or_else (get id t) (find_first (λ r. k.key r == id) t.pending)
  unfolding get
  get-flush id t = find_first-append id t.rows t.pending

  -- a row that is found before a flush is found after it
  pub get-flush_found :
      (id : ℕ) (t : Table R) (r : R) → get id t ≡ some r → get id (flush t) ≡ some r
  get-flush_found id t r found = ground (arith, get-flush id t)

  -- a row that was added under a new key is found after the flush
  pub get-flush-add :
      (r : R) (t : Table R)
      → get (k.key r) t ≡ none
      → find_first (λ s. k.key s == k.key r) t.pending ≡ none
      → get (k.key r) (flush (add r t)) ≡ some r
  unfolding get
  get-flush-add r t stored pending = ground (
    arith,
    stored,
    pending,
    get-flush (k.key r) (add r t),
    find_first-append (k.key r) t.rows (t.pending ++ (r ∷ [])),
    find_first-append (k.key r) t.pending (r ∷ []),
  )

  find_first-update_where :
      (q : R → Bool) (f : R → R)
      → ((r : R) → k.key (f r) ≡ k.key r)
      → (id : ℕ) (rs : List R) (r : R) → find_first (λ s. k.key s == id) rs ≡ some r
      → q r ≡ false
      → find_first (λ s. k.key s == id) (map (λ s. if q s then f s else s) rs) ≡ some r
  find_first-update_where q f same id [] r found out = cc
  find_first-update_where q f same id (x ∷ rs) r found out =
      ground (arith, same x, find_first-update_where q f same id rs r)

  -- a row that a write to many rows leaves out is found as before
  pub get-update_where :
      (q : R → Bool) (f : R → R)
      → ((r : R) → k.key (f r) ≡ k.key r)
      → (id : ℕ) (t : Table R) (r : R) → get id t ≡ some r
      → q r ≡ false
      → get id (update_where q f t) ≡ some r
  unfolding get
  get-update_where q f same id t r found out =
      find_first-update_where q f same id t.rows r found out

  find_first-filter_by :
      (id j : ℕ) (rs : List R)
      → find_first (λ r. k.key r == j) (filter_by (λ r. not (k.key r == id)) rs)
        ≡ (if id == j then none else find_first (λ r. k.key r == j) rs)
  find_first-filter_by id j [] = ground arith
  find_first-filter_by id j (r ∷ rs) = ground (arith, find_first-filter_by id j rs)

  pub get-delete :
      (id j : ℕ) (t : Table R) → get j (delete id t) ≡ (if id == j then none else get j t)
  unfolding get delete
  get-delete id j t = find_first-filter_by id j t.rows

-- A write to the first row with `q` that gives it the property `p` only where it had it does not
-- raise the number of rows with `p`.
pub count-modify_first :
    {R : Type 0} (p q : R → Bool) (f : R → R) (rs : List R)
    → ((r : R) → find_first q rs ≡ some r → p (f r) ≡ true → p r ≡ true)
    → count p (modify_first q f rs) ≤ count p rs
count-modify_first p q f [] keep = omega arith
count-modify_first p q f (r ∷ rs) keep = elim (Bool-cases (q r)) [
  | inl e ↦ ground (arith, keep r)
  | inr e ↦ ground (arith, count-modify_first p q f rs (λ x found. keep x (rw e found)))
]

-- A write to all rows with `q` that leaves none of them with `p` does not raise the number of rows
-- with `p`.
pub count-update_where :
    {R : Type 0} (p q : R → Bool) (f : R → R) (rs : List R)
    → ((r : R) → p (f r) ≡ false)
    → count p (map (λ r. if q r then f r else r) rs) ≤ count p rs
count-update_where p q f [] never = omega arith
count-update_where p q f (r ∷ rs) never = ground (arith, never r, count-update_where p q f rs never)

-- every row satisfies `P`, the pending ones too
pub record Everywhere {R : Type 0} (P : R → Type 0) (t : Table R) : Type 0 where
  pub in_rows : All P t.rows
  pub in_pending : All P t.pending

module _ {R : Type 0} (P : R → Type 0) where
  pub Everywhere-add : (r : R) (t : Table R) → P r → Everywhere P t → Everywhere P (add r t)
  Everywhere-add r t h e = record {
    in_rows = e.in_rows;
    in_pending = All-append P t.pending (r ∷ []) e.in_pending (h, tt);
  }

  pub Everywhere-flush : (t : Table R) → Everywhere P t → Everywhere P (flush t)
  Everywhere-flush t e = record {
    in_rows = All-append P t.rows t.pending e.in_rows e.in_pending;
    in_pending = tt;
  }

  pub Everywhere-delete_where :
      (p : R → Bool) (t : Table R) → Everywhere P t → Everywhere P (delete_where p t)
  Everywhere-delete_where p t e = record {
    in_rows = All-filter_by P (λ r. not (p r)) t.rows e.in_rows;
    in_pending = e.in_pending;
  }

  All-map_if :
      (p : R → Bool) (f : R → R)
      → ((r : R) → P r → p r ≡ true → P (f r))
      → (rs : List R) → All P rs
      → All P (map (λ r. if p r then f r else r) rs)
  All-map_if p f keep [] h = tt
  All-map_if p f keep (r ∷ rs) h = elim (Bool-cases (p r)) [
    | inl e ↦ rw e (keep r h.0 e, All-map_if p f keep rs h.1)
    | inr e ↦ rw e (h.0, All-map_if p f keep rs h.1)
  ]

  pub Everywhere-update_where :
      (p : R → Bool) (f : R → R) (t : Table R)
      → ((r : R) → P r → p r ≡ true → P (f r))
      → Everywhere P t
      → Everywhere P (update_where p f t)
  Everywhere-update_where p f t keep e = record {
    in_rows = All-map_if p f keep t.rows e.in_rows;
    in_pending = e.in_pending;
  }

  All-modify_first :
      (p : R → Bool) (f : R → R) (rs : List R)
      → ((r : R) → find_first p rs ≡ some r → P r → P (f r))
      → All P rs
      → All P (modify_first p f rs)
  All-modify_first p f [] keep h = tt
  All-modify_first p f (r ∷ rs) keep h = elim (Bool-cases (p r)) [
    | inl e ↦ rw e (keep r (rw e) h.0, h.1)
    | inr e ↦ rw e (h.0, All-modify_first p f rs (λ x q. keep x (rw e q)) h.1)
  ]

  module _ ⦃k : Keyed R⦄ where
    pub Everywhere-modify :
        (id : ℕ) (f : R → R) (t : Table R)
        → ((r : R) → get id t ≡ some r → P r → P (f r))
        → Everywhere P t
        → Everywhere P (modify id f t)
    unfolding get modify
    Everywhere-modify id f t keep e = record {
      in_rows = All-modify_first (λ r. k.key r == id) f t.rows keep e.in_rows;
      in_pending = e.in_pending;
    }

    pub Everywhere-delete : (id : ℕ) (t : Table R) → Everywhere P t → Everywhere P (delete id t)
    unfolding delete
    Everywhere-delete id t e = Everywhere-delete_where (λ r. k.key r == id) t e

    pub Everywhere-get : (id : ℕ) (t : Table R) (r : R) → get id t ≡ some r → Everywhere P t → P r
    unfolding get
    Everywhere-get id t r q e = All-find_first P (λ r. k.key r == id) t.rows r q e.in_rows
