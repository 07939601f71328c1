-- ===== src/Health/Single.antt =====
-- The hooks make no second open item of a type for a holding.
use tallykeep.Prelude.{
  ◌≡◌, ◌≤◌, refl, subst, ℕ, Bool, true, false, not, Option, none, some, List, [], ◌∷◌, ◌++◌, arith,
  inl, inr, Bool-cases, ◌==◌, count, any_of, count-append, count-any_of, append_nil, String,
}
use tallykeep.Errors.{health_error, uncaught, invalid_state_transition}
use tallykeep.Table.{get, modify, modify_first, update_where}
use tallykeep.Table.Laws.{count-modify_first, count-update_where}
use tallykeep.Domain.Health.{
  principles_ack, missing_signing_metadata, SecurityHealthItem, ItemState, ItemType, ItemSeverity,
  same_item_type, resolved_by_fix, acknowledged, item_key, is_item_open,
}
use tallykeep.Db.{Db, flush_all}
use tallykeep.Db.Session.{state_or_raise, state_raise_if, state_bind}
use tallykeep.Repositories.Health.{
  has_open_item_of_type, item_of, item_insert, as_resolved, write_item, resolve_open_items,
  open_for, same_holding,
}
use tallykeep.Health.{
  emit_item, emit_seed_backup_item, emit_missing_signing_metadata_item,
  emit_principles_ack_item_if_needed, is_valid_transition, acknowledge_in_profile,
  acknowledge_if_principles, resolve_item, resolve_missing_metadata_items_for_holding,
  acknowledge_principles, HealthCall, seed_missing, metadata_missing, principles_missing, resolve,
  revive, serve_healths, metadata_added, principles_read, serve_health,
}
use tallykeep.Health.Permanent.{profile-cases}

-- at most one open item of a type for a holding or for the application, and nothing pending
pub record IsSingle (d : Db) : Type 0 where
  pub at_most_one :
      (type : ItemType) (holding_id : Option ℕ)
      → count (open_for type holding_id) d.health_items.rows ≤ 1
  pub none_pending : d.health_items.pending ≡ []

abbrev pub is_revival : ℕ × HealthCall → Bool
is_revival (_, revive _) = true
is_revival _ = false

same_item_type-eq : (s t : ItemType) → same_item_type s t ≡ true → s ≡ t
same_item_type-eq s t h = ground arith

same_holding-eq : (a b : Option ℕ) → same_holding a b ≡ true → a ≡ b
same_holding-eq a b h = ground arith

flush_all-IsSingle : (d : Db) → IsSingle d → IsSingle (flush_all d)
flush_all-IsSingle d s = record {
  at_most_one = λ type holding_id.
      rw (s.none_pending, append_nil d.health_items.rows) (s.at_most_one type holding_id);
  none_pending = refl;
}

insert-IsSingle :
    (i : SecurityHealthItem) (d : Db)
    → has_open_item_of_type i.item_type i.holding_id d ≡ false
    → IsSingle d
    → IsSingle (item_insert i d)
unfolding item_insert
insert-IsSingle i d idle s = record {
  at_most_one = λ type holding_id. added type holding_id;
  none_pending = refl;
}
  where
    none_there :
        (type : ItemType) (holding_id : Option ℕ)
        → open_for type holding_id i ≡ true
        → count (open_for type holding_id) d.health_items.rows ≡ 0
    none_there type holding_id e = count-any_of (open_for type holding_id) d.health_items.rows (
        subst (λ t. any_of (open_for t holding_id) d.health_items.rows ≡ false)
          (same_item_type-eq i.item_type type (ground arith))
          (subst (λ h. any_of (open_for i.item_type h) d.health_items.rows ≡ false)
            (same_holding-eq i.holding_id holding_id (ground arith)) idle))

    added :
        (type : ItemType) (holding_id : Option ℕ)
        → count
            (open_for type holding_id)
            (d.health_items.rows ++ (d.health_items.pending ++ (i ∷ [])))
          ≤ 1
    added type holding_id =
        rw (s.none_pending, count-append (open_for type holding_id) d.health_items.rows (i ∷ []))
          (ground (arith, s.at_most_one type holding_id, none_there type holding_id))

emit-IsSingle :
    (now new_id : ℕ) (type : ItemType) (holding_id : Option ℕ) (severity : ItemSeverity)
    (context : List (String × String)) (d : Db)
    → IsSingle d
    → IsSingle (emit_item now new_id type holding_id severity context d)
unfolding emit_item
emit-IsSingle now new_id type holding_id severity context d s =
    elim (Bool-cases (has_open_item_of_type type holding_id d)) [
      | inl e ↦ rw e s
      | inr e ↦ rw e (
          flush_all-IsSingle (item_insert (item_of now new_id type holding_id severity context) d)
            (insert-IsSingle (item_of now new_id type holding_id severity context) d e s))
    ]

write-IsSingle :
    (now id : ℕ) (new_state : ItemState) (reason : Option String) (d : Db)
    → is_item_open new_state ≡ false
    → IsSingle d
    → IsSingle (write_item id (as_resolved now new_state reason) d).1
unfolding write_item modify
write-IsSingle now id new_state reason d closed s =
    flush_all-IsSingle
      (record d { health_items = modify id (as_resolved now new_state reason) d.health_items })
      (record {
        at_most_one = λ type holding_id. fewer type holding_id;
        none_pending = s.none_pending;
      })
  where
    fewer :
        (type : ItemType) (holding_id : Option ℕ)
        → count (open_for type holding_id) (
            modify_first
              (λ (r : SecurityHealthItem). r.id == id)
              (as_resolved now new_state reason)
              d.health_items.rows)
          ≤ 1
    fewer type holding_id = ground (
      arith,
      s.at_most_one type holding_id,
      count-modify_first (open_for type holding_id) (λ (r : SecurityHealthItem). r.id == id)
          (as_resolved now new_state reason) d.health_items.rows
          (λ r _ shown. ground (arith, closed, shown)),
    )

resolve_open-IsSingle :
    (now : ℕ) (holding_id : Option ℕ) (type : ItemType) (new_state : ItemState) (d : Db)
    → is_item_open new_state ≡ false
    → IsSingle d
    → IsSingle (resolve_open_items now holding_id type new_state d)
unfolding resolve_open_items
resolve_open-IsSingle now holding_id type new_state d closed s =
    flush_all-IsSingle
      (record d {
        health_items =
            update_where (open_for type holding_id) (as_resolved now new_state none) d.health_items;
      })
      (record {
        at_most_one = λ t h. ground (
          arith,
          s.at_most_one t h,
          count-update_where (open_for t h) (open_for type holding_id)
              (as_resolved now new_state none) d.health_items.rows (λ r. ground (arith, closed)),
        );
        none_pending = s.none_pending;
      })

acknowledge-IsSingle : (now : ℕ) (d : Db) → IsSingle d → IsSingle (acknowledge_in_profile now d)
acknowledge-IsSingle now d h =
    let flushed = flush_all-IsSingle d h in
    record { at_most_one = flushed.at_most_one; none_pending = flushed.none_pending }

profile-IsSingle :
    (now : ℕ) (type : ItemType) (s : ItemState) (d : Db)
    → IsSingle d
    → IsSingle (acknowledge_if_principles now type s d)
profile-IsSingle now type s d h = elim (profile-cases now type s d) [
  | inl same ↦ rw same h
  | inr set ↦ rw set (acknowledge-IsSingle now d h)
]

resolve_item-IsSingle :
    (now id : ℕ) (new_state : ItemState) (reason : Option String) (d : Db)
    → IsSingle d
    → IsSingle (resolve_item now id new_state reason d).1
unfolding resolve_item
resolve_item-IsSingle now id new_state reason d h =
    state_or_raise IsSingle d h (get id d.health_items) health_error _ λ was found.
      state_raise_if IsSingle d h (not (is_valid_transition was.state new_state))
        invalid_state_transition _
        λ valid.
          let written = write-IsSingle now id new_state reason d (ground (arith, valid)) h in
          let d' = (write_item id (as_resolved now new_state reason) d).1 in
          state_bind IsSingle (write_item id (as_resolved now new_state reason)) _ d written λ o.
            state_or_raise IsSingle d' written o uncaught _ λ u _.
              flush_all-IsSingle (acknowledge_if_principles now was.item_type new_state d')
                (profile-IsSingle now was.item_type new_state d' written)

serve-IsSingle :
    (now : ℕ) (c : HealthCall) (d : Db)
    → is_revival (now, c) ≡ false
    → IsSingle d
    → IsSingle (serve_health now c d)
unfolding serve_health emit_seed_backup_item emit_missing_signing_metadata_item
    emit_principles_ack_item_if_needed resolve_missing_metadata_items_for_holding
    acknowledge_principles
serve-IsSingle now (seed_missing new_id holding_id mode) d _ h =
    emit-IsSingle now new_id _ _ _ _ d h
serve-IsSingle now (metadata_missing new_id holding_id vendor) d _ h =
    emit-IsSingle now new_id _ _ _ _ d h
serve-IsSingle now (principles_missing new_id) d _ h = emit-IsSingle now new_id _ _ _ _ d h
serve-IsSingle now (resolve id new_state reason) d _ h =
    resolve_item-IsSingle now id new_state reason d h
serve-IsSingle now (revive id) d e h = ground (arith, e)
serve-IsSingle now (metadata_added holding_id) d _ h =
    flush_all-IsSingle
      (resolve_open_items now (some holding_id) missing_signing_metadata resolved_by_fix d)
      (resolve_open-IsSingle now (some holding_id) missing_signing_metadata resolved_by_fix d refl
        h)
serve-IsSingle now principles_read d _ h =
    flush_all-IsSingle
      (resolve_open_items now none principles_ack acknowledged (acknowledge_in_profile now d))
      (resolve_open-IsSingle now none principles_ack acknowledged (acknowledge_in_profile now d)
        refl (acknowledge-IsSingle now d h))

-- If no item is revived, then whatever calls of the service follow one another, at most one open item
-- of a type is stored for a holding, and at most one of a type for the application, as before them.
pub serve_healths-IsSingle :
    (calls : List (ℕ × HealthCall)) (d : Db)
    → any_of is_revival calls ≡ false
    → IsSingle d
    → IsSingle (serve_healths calls d)
unfolding serve_healths
serve_healths-IsSingle [] d e h = h
serve_healths-IsSingle ((now, c) ∷ rest) d e h =
    serve_healths-IsSingle rest (serve_health now c d) (ground (arith, e))
      (serve-IsSingle now c d (ground (arith, e)) h)
