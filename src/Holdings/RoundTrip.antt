-- ===== src/Holdings/RoundTrip.antt =====
-- A holding that was created is read back as it was returned.
use mathlib.Core.List.{Perm, cons≢nil}
use mathlib.Core.List.Perm
use tallykeep.Prelude.{
  sym, ◌∷◌, is_empty, subst, arith, ℕ, Bool, ◌≡◌, refl, ap, none, some, List, [], append_nil,
}
use tallykeep.Errors.{ok}
use tallykeep.Table.{get, add}
use tallykeep.Table.Laws.{get-flush-add}
use tallykeep.Domain.Enums.{HoldingType}
use tallykeep.Domain.Holding.{Holding, new_holding}
use tallykeep.Db.{Db, HoldingRow, SubtypeData, flush_all, holding_key}
use tallykeep.Db.Session.{lift}
use tallykeep.Db.After.{After, After-bind}
use tallykeep.Repositories.Holdings.{
  build_holding, holding_of_row, get_holding_as, descriptor_ids_for_holding,
  provider_id_for_holding,
}
use tallykeep.Holdings.{Outside}
use tallykeep.Holdings.Creating.{HoldingInput, row_of_input, import_all, create_holding}
use tallykeep.Holdings.Imported.{IsAttached, IsAttached-flush, import_all-attaches}

-- nothing of these tables is pending, and nothing belongs to the new id
pub record IsFresh (id : ℕ) (d : Db) : Type 0 where
  pub unknown : get id d.holdings ≡ none
  pub no_holdings : d.holdings.pending ≡ []
  pub unowned : descriptor_ids_for_holding id d ≡ []
  pub no_descriptors : d.descriptors.pending ≡ []
  pub no_provider : provider_id_for_holding id d ≡ none
  pub no_providers : d.providers.pending ≡ []

inserted-IsAttached :
    (row : HoldingRow) (d : Db)
    → IsFresh row.id d
    → IsAttached row.id row [] (flush_all record d { holdings = add row d.holdings })
inserted-IsAttached row d f = record {
  holding = get-flush-add row d.holdings f.unknown (rw f.no_holdings refl);
  descriptors = rw (f.no_descriptors, append_nil d.descriptors.rows) f.unowned;
  no_provider = rw (f.no_providers, append_nil d.providers.rows) f.no_provider;
  no_holdings = refl;
  no_descriptors = refl;
  no_providers = refl;
}

-- the constructor looks neither at the times nor at the order of the descriptors
new_holding-retimed :
    (h made : Holding) (ids : List ℕ) (t : ℕ)
    → is_empty ids ≡ is_empty h.descriptor_ids
    → new_holding h ≡ ok made
    → (made ≡ h)
      × (new_holding (record h { descriptor_ids = ids; created_at = t; updated_at = t })
          ≡ ok (record h { descriptor_ids = ids; created_at = t; updated_at = t }))
unfolding new_holding
new_holding-retimed h made ids t same e = (ground (arith, e), ground (arith, same, e))

built :
    (row : HoldingRow) (ids : List ℕ) (h : Holding)
    → new_holding (holding_of_row row ids none) ≡ ok h
    → build_holding (some row) ids none ≡ ok (some h)
built row ids h made = ground arith

empty-Perm : (xs ys : List ℕ) → Perm xs ys → is_empty xs ≡ is_empty ys
empty-Perm xs [] p = rw (Perm.eq-nil p) refl
empty-Perm [] (y ∷ ys) p = absurd (cons≢nil (sym (Perm.nil-eq p)))
empty-Perm (x ∷ xs) (y ∷ ys) p = refl

-- a holding as a read gives it, with the times of the database and the ids in its order
abbrev pub as_read : ℕ → List ℕ → Holding → Holding
as_read t ids h = record h { descriptor_ids = ids; created_at = t; updated_at = t }

module _ (o : Outside) where
  -- the object that the constructor accepts is what a read builds
  read_back :
      (t : HoldingType) (input : HoldingInput) (subtype : SubtypeData) (ids : List ℕ) (h : Holding)
      (d : Db)
      → IsAttached input.id (row_of_input t input subtype o.server_now) ids d
      → new_holding (holding_of_row (row_of_input t input subtype o.now) ids none) ≡ ok h
      → (order : List ℕ) → Perm order (descriptor_ids_for_holding input.id (flush_all d))
      → (get_holding_as order input.id (flush_all d)
          ≡ (ok (some (as_read o.server_now order h)), flush_all d))
        × Perm order h.descriptor_ids
  read_back t input subtype ids h d a made order p =
      let row = row_of_input t input subtype o.server_now in
      let base = holding_of_row (row_of_input t input subtype o.now) ids none in
      let b = IsAttached-flush input.id row ids d a in
      let q = subst (Perm order) b.descriptors p in
      let (same, accepted) =
        new_holding-retimed base h order o.server_now (empty-Perm order ids q) made in
      (
        rw (b.holding, b.no_provider, same)
            (ap (λ r. (r, flush_all d))
              (built row order (as_read o.server_now order base) accepted)),
        rw same q,
      )

  create_holding-attaches :
      (t : HoldingType) (input : HoldingInput) (subtype : SubtypeData) (allow : Bool) (d : Db)
      → IsFresh input.id d
      → After
          (λ h d'.
            (order : List ℕ)
            → Perm order (descriptor_ids_for_holding input.id (flush_all d'))
            → (get_holding_as order input.id (flush_all d')
                ≡ (ok (some (as_read o.server_now order h)), flush_all d'))
              × Perm order h.descriptor_ids)
          (create_holding o t input subtype allow)
          d
  unfolding create_holding
  create_holding-attaches t input subtype allow d f =
      let row = row_of_input t input subtype o.server_now in
      let d' = flush_all record d { holdings = add row d.holdings } in
      let rest =
        After-bind (import_all o input.id input.descriptors allow)
          (λ ids. lift (new_holding (holding_of_row (row_of_input t input subtype o.now) ids none)))
          d'
          (import_all-attaches o input.id row input.descriptors allow [] d'
            (inserted-IsAttached row d f))
          λ ids d'' a. record { returned = λ h made. read_back t input subtype ids h d'' a made } in
      record { returned = rest.returned }

  -- What the creation of a holding returns is what is read afterwards: where `create_purse`,
  -- `create_strongbox` or `create_vault`, which share these steps, return a holding and the session is
  -- committed, `get_holding` finds that holding under its id, with the database's times in place of
  -- the service's, and with the same descriptors, in whichever order the database gives them. The
  -- id that the holding is given belongs to no stored holding, descriptor or provider.
  pub get_holding-create_holding :
      (t : HoldingType) (input : HoldingInput) (subtype : SubtypeData) (allow_multisig : Bool)
      (d : Db) (h : Holding)
      → IsFresh input.id d
      → (create_holding o t input subtype allow_multisig d).0 ≡ ok h
      → (order : List ℕ)
      → let d' = flush_all (create_holding o t input subtype allow_multisig d).1 in
        Perm order (descriptor_ids_for_holding input.id d')
        → (get_holding_as order input.id d' ≡ (
          ok (
              some record h {
                descriptor_ids = order;
                created_at = o.server_now;
                updated_at = o.server_now;
              }),
          d',
        ))
          × Perm order h.descriptor_ids
  get_holding-create_holding t input subtype allow d h f =
      (create_holding-attaches t input subtype allow d f).returned h
