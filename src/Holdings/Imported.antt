-- ===== src/Holdings/Imported.antt =====
-- The rows of a holding while its descriptors are imported, one after the other.
use tallykeep.Descriptors.Patterns.{codes}
use tallykeep.Prelude.{
  any_of, not, pos, ==_refl, not, pos, ◌==◌, ℕ, String, Bool, true, false, ◌≡◌, refl, ap, sym, ◌∙◌,
  subst, Option, none, some, List, [], ◌∷◌, ◌++◌, append_nil, append_assoc, arith, map, filter_by,
}
use tallykeep.Errors.{descriptor_already_exists, ok, holding_service_error}
use tallykeep.Table.{add, get}
use tallykeep.Table.Laws.{get-flush_found}
use tallykeep.Domain.Enums.{same_address_type, Network, AddressType}
use tallykeep.Domain.Chain.{Descriptor, Address, new_descriptor}
use tallykeep.Db.{Db, HoldingRow, flush_all, holding_key}
use tallykeep.Db.Session.{◌>>=◌, raise_if, gets}
use tallykeep.Db.After.{
  raise_if-reads, lift-reads, After, After-lift, After-read, After-raise_if, After-bind, After-pure,
}
use tallykeep.Repositories.Holdings.{descriptor_ids_for_holding, provider_id_for_holding}
use tallykeep.Descriptors.Patterns.{codes}
use tallykeep.Descriptors.Parsing.{parse, derive_addresses}
use tallykeep.Holdings.{
  str_eq, Outside, DescriptorInput, import_descriptor, check_change, derived, derived_change,
  wrap_parse, parsed, descriptor_of, insert_descriptor, store_descriptor, insert_addresses,
}
use tallykeep.Holdings.Creating.{import_all}

-- the holding is stored with these descriptors and no provider, and none of these rows is pending
pub record IsAttached (id : ℕ) (row : HoldingRow) (ids : List ℕ) (d : Db) : Type 0 where
  pub holding : get id d.holdings ≡ some row
  pub descriptors : descriptor_ids_for_holding id d ≡ ids
  pub no_provider : provider_id_for_holding id d ≡ none
  pub no_holdings : d.holdings.pending ≡ []
  pub no_descriptors : d.descriptors.pending ≡ []
  pub no_providers : d.providers.pending ≡ []

-- a flush where nothing of these tables is pending
pub IsAttached-flush :
    (id : ℕ) (row : HoldingRow) (ids : List ℕ) (d : Db)
    → IsAttached id row ids d
    → IsAttached id row ids (flush_all d)
IsAttached-flush id row ids d a = record {
  holding = get-flush_found id d.holdings row a.holding;
  descriptors = rw (a.no_descriptors, append_nil d.descriptors.rows) a.descriptors;
  no_provider = rw (a.no_providers, append_nil d.providers.rows) a.no_provider;
  no_holdings = refl;
  no_descriptors = refl;
  no_providers = refl;
}

map-select-append :
    (id : ℕ) (xs : List Descriptor) (x : Descriptor)
    → (x.holding_id == id) ≡ true
    → map (λ (y : Descriptor). y.id) (filter_by (λ y. y.holding_id == id) (xs ++ x ∷ []))
      ≡ map (λ (y : Descriptor). y.id) (filter_by (λ y. y.holding_id == id) xs) ++ x.id ∷ []
map-select-append id [] x h = rw h refl
map-select-append id (y ∷ ys) x h = ground (arith, map-select-append id ys x h)

new_descriptor-same : (x y : Descriptor) → new_descriptor x ≡ ok y → y ≡ x
unfolding new_descriptor
new_descriptor-same x y e = ground arith

module _ (o : Outside) (id : ℕ) (row : HoldingRow) where
  check_change-reads :
      (change : Option String) (network : Network) (allow : Bool) (t : AddressType) (d : Db)
      → (check_change o change network allow t d).1 ≡ d
  check_change-reads none network allow t d = refl
  check_change-reads (some change) network allow t d =
      lift-reads (wrap_parse (parse o.bdk (codes change) network allow)) _ d
        (λ p. raise_if-reads (not (same_address_type p.address_type t)) holding_service_error d)

  derived-reads :
      (e : String) (spec : DescriptorInput) (t : AddressType) (is_change allow : Bool) (d : Db)
      → (derived o e spec t is_change allow d).1 ≡ d
  derived-reads e spec t is_change allow d =
      lift-reads (derive_addresses o.bdk (codes e) spec.network (pos 0) spec.gap_limit allow) _ d
        (λ _. refl)

  derived_change-reads :
      (change : Option String) (spec : DescriptorInput) (t : AddressType) (allow : Bool) (d : Db)
      → (derived_change o change spec t allow d).1 ≡ d
  derived_change-reads none spec t allow d = refl
  derived_change-reads (some e) spec t allow d = derived-reads e spec t true allow d

  -- the descriptor is stored behind the others, and the holding stays
  with_descriptor :
      (x : Descriptor) (ids : List ℕ) (d : Db)
      → (x.holding_id == id) ≡ true
      → IsAttached id row ids d
      → IsAttached id row (ids ++ x.id ∷ []) (
          flush_all
            record d { descriptors = add (record x { created_at = o.server_now }) d.descriptors })
  with_descriptor x ids d own a = record {
    holding = get-flush_found id d.holdings row a.holding;
    descriptors =
        ap
          (λ xs.
            map (λ (y : Descriptor). y.id)
              (filter_by (λ y. y.holding_id == id)
                (d.descriptors.rows ++ (xs ++ (record x { created_at = o.server_now }) ∷ []))))
          a.no_descriptors
        ∙ map-select-append id d.descriptors.rows (record x { created_at = o.server_now }) own
        ∙ ap (λ is. is ++ x.id ∷ []) a.descriptors;
    no_provider = (IsAttached-flush id row ids d a).no_provider;
    no_holdings = refl;
    no_descriptors = refl;
    no_providers = refl;
  }

  insert_descriptor-attaches :
      (x : Descriptor) (ids : List ℕ) (d : Db)
      → (x.holding_id == id) ≡ true
      → IsAttached id row ids d
      → After (λ _ d'. IsAttached id row (ids ++ x.id ∷ []) d') (insert_descriptor o x) d
  insert_descriptor-attaches x ids d own a =
      After-read d (gets (λ d'. any_of (λ y. str_eq y.expression x.expression) d'.descriptors.rows))
        (λ collides. raise_if collides descriptor_already_exists >>= λ _. store_descriptor o x) refl
        λ collides.
          After-raise_if d collides descriptor_already_exists (λ _. store_descriptor o x)
            record { returned = λ _ _. with_descriptor x ids d own a }

  with_addresses :
      (ids : List ℕ) (new : List Address) (d : Db)
      → IsAttached id row ids d
      → IsAttached id row ids (insert_addresses o new d).1
  with_addresses ids new d a = record {
    holding = a.holding;
    descriptors = a.descriptors;
    no_provider = a.no_provider;
    no_holdings = a.no_holdings;
    no_descriptors = a.no_descriptors;
    no_providers = a.no_providers;
  }

  import_descriptor-attaches :
      (spec : DescriptorInput) (allow : Bool) (ids : List ℕ) (d : Db)
      → IsAttached id row ids d
      → After
          (λ x d'. IsAttached id row (ids ++ x.id ∷ []) d')
          (import_descriptor o id spec allow)
          d
  unfolding import_descriptor
  import_descriptor-attaches spec allow ids d a =
      After-lift d (parsed o spec.expression spec.network allow) _ λ external _.
        After-read d
          (check_change o spec.change_expression spec.network allow external.address_type) _
          (check_change-reads spec.change_expression spec.network allow external.address_type d)
          λ _.
            After-lift d (new_descriptor (descriptor_of o id spec external.address_type)) _
              λ x made.
                After-bind {P = λ _ d'. IsAttached id row (ids ++ x.id ∷ []) d'}
                  (insert_descriptor o x) _ d
                  (insert_descriptor-attaches x ids d
                    (rw (new_descriptor-same (descriptor_of o id spec external.address_type) x made)
                      (==_refl id))
                    a)
                  λ _ d' a'.
                    After-read d' (derived o spec.expression spec external.address_type false allow)
                      _ (derived-reads spec.expression spec external.address_type false allow d')
                      λ on_external.
                        After-read d'
                          (derived_change o spec.change_expression spec external.address_type allow)
                          _
                          (derived_change-reads spec.change_expression spec external.address_type
                            allow d')
                          λ on_change.
                            After-bind {P = λ _ d''. IsAttached id row (ids ++ x.id ∷ []) d''}
                              (insert_addresses o (on_external ++ on_change)) _ d'
                              (record {
                                returned = λ _ _.
                                    with_addresses (ids ++ x.id ∷ []) (on_external ++ on_change) d'
                                      a';
                              })
                              λ _ d'' a''. After-pure x d'' a''

  pub import_all-attaches :
      (specs : List DescriptorInput) (allow : Bool) (ids : List ℕ) (d : Db)
      → IsAttached id row ids d
      → After (λ new d'. IsAttached id row (ids ++ new) d') (import_all o id specs allow) d
  unfolding import_all
  import_all-attaches [] allow ids d a =
      After-pure [] d (subst (λ is. IsAttached id row is d) (sym (append_nil ids)) a)
  import_all-attaches (spec ∷ specs) allow ids d a =
      After-bind (import_descriptor o id spec allow) _ d
        (import_descriptor-attaches spec allow ids d a)
        λ x d' a'.
          After-bind (import_all o id specs allow) _ d'
            (import_all-attaches specs allow (ids ++ x.id ∷ []) d' a')
            λ new d'' a''.
              After-pure (x.id ∷ new) d''
                (subst (λ is. IsAttached id row is d'') (append_assoc ids (x.id ∷ []) new) a'')
