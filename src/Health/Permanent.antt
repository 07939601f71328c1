-- ===== src/Health/Permanent.antt =====
-- An item that was fixed or acknowledged stays so.
use tallykeep.Prelude.{
  ◌≡◌, ◌⊎◌, refl, ℕ, String, Bool, true, false, not, Option, none, some, List, [], ◌∷◌, arith, inl,
  inr, Bool-cases,
}
use tallykeep.Errors.{health_error, uncaught, invalid_state_transition, revive_not_allowed}
use tallykeep.Table.{get, modify, add, update_where}
use tallykeep.Table.Laws.{get-modify, get-flush_found, get-add, get-update_where}
use tallykeep.Domain.Health.{
  principles_ack, missing_signing_metadata, SecurityHealthItem, ItemState, ItemType, ItemSeverity,
  resolved_by_fix, acknowledged, item_key, is_user_attested,
}
use tallykeep.Db.{Db, flush_all}
use tallykeep.Db.Session.{state_or_raise, state_raise_if, state_bind}
use tallykeep.Repositories.Health.{
  has_open_item_of_type, item_of, item_insert, as_resolved, as_revived, write_item,
  resolve_open_items, open_for,
}
use tallykeep.Health.{
  emit_item, emit_seed_backup_item, emit_missing_signing_metadata_item,
  emit_principles_ack_item_if_needed, is_valid_transition, acknowledge_in_profile,
  acknowledge_if_principles, resolve_item, revive_item, resolve_missing_metadata_items_for_holding,
  acknowledge_principles, HealthCall, seed_missing, metadata_missing, principles_missing, resolve,
  revive, serve_healths, metadata_added, principles_read, serve_health,
}

-- the states that are never left
abbrev pub is_permanent : ItemState → Bool
is_permanent resolved_by_fix = true
is_permanent acknowledged = true
is_permanent _ = false

pub profile-cases :
    (now : ℕ) (type : ItemType) (s : ItemState) (d : Db)
    → (acknowledge_if_principles now type s d ≡ d)
      ⊎ (acknowledge_if_principles now type s d ≡ acknowledge_in_profile now d)
profile-cases now principles_ack acknowledged d = inr refl
profile-cases now type s d = ground arith

module _ (id : ℕ) (i : SecurityHealthItem) (final : is_permanent i.state ≡ true) where
  -- the item is stored
  abbrev Stored : Db → Type 0
  Stored d = get id d.health_items ≡ some i

  flush_all-Stored : (d : Db) → Stored d → Stored (flush_all d)
  flush_all-Stored d h = get-flush_found id d.health_items i h

  insert-Stored : (j : SecurityHealthItem) (d : Db) → Stored d → Stored (item_insert j d)
  unfolding item_insert
  insert-Stored j d h =
      get-flush_found id (add j d.health_items) i (ground (arith, get-add id j d.health_items, h))

  emit-Stored :
      (now new_id : ℕ) (type : ItemType) (holding_id : Option ℕ) (severity : ItemSeverity)
      (context : List (String × String)) (d : Db)
      → Stored d
      → Stored (emit_item now new_id type holding_id severity context d)
  unfolding emit_item
  emit-Stored now new_id type holding_id severity context d h =
      elim (Bool-cases (has_open_item_of_type type holding_id d)) [
        | inl e ↦ rw e h
        | inr e ↦ rw e (
            flush_all-Stored (item_insert (item_of now new_id type holding_id severity context) d)
              (insert-Stored (item_of now new_id type holding_id severity context) d h))
      ]

  -- a write to another item, or to one in another state
  write-Stored :
      (j : ℕ) (f : SecurityHealthItem → SecurityHealthItem) (was : SecurityHealthItem) (d : Db)
      → ((q : SecurityHealthItem) → (f q).id ≡ q.id)
      → get j d.health_items ≡ some was
      → is_permanent was.state ≡ false
      → Stored d
      → Stored (write_item j f d).1
  unfolding write_item
  write-Stored j f was d same found other h =
      get-flush_found id (modify j f d.health_items) i
        (ground (arith, get-modify f same j id d.health_items, h, found, final))

  resolve_open-Stored :
      (now : ℕ) (holding_id : Option ℕ) (type : ItemType) (s : ItemState) (d : Db)
      → Stored d
      → Stored (resolve_open_items now holding_id type s d)
  unfolding resolve_open_items
  resolve_open-Stored now holding_id type s d h =
      get-flush_found id
        (update_where (open_for type holding_id) (as_resolved now s none) d.health_items) i
        (get-update_where (open_for type holding_id) (as_resolved now s none) (λ q. refl) id
          d.health_items i h (ground (arith, final)))

  profile-Stored :
      (now : ℕ) (type : ItemType) (s : ItemState) (d : Db)
      → Stored d
      → Stored (acknowledge_if_principles now type s d)
  profile-Stored now type s d h = elim (profile-cases now type s d) [
    | inl same ↦ rw same h
    | inr set ↦ rw set (flush_all-Stored d h)
  ]

  resolve_item-Stored :
      (now j : ℕ) (s : ItemState) (reason : Option String) (d : Db)
      → Stored d
      → Stored (resolve_item now j s reason d).1
  unfolding resolve_item
  resolve_item-Stored now j s reason d h =
      state_or_raise Stored d h (get j d.health_items) health_error _ λ was found.
        state_raise_if Stored d h (not (is_valid_transition was.state s)) invalid_state_transition _
          λ valid.
            let written =
              write-Stored j (as_resolved now s reason) was d (λ q. refl) found
                (ground (arith, valid)) h in
            let d' = (write_item j (as_resolved now s reason) d).1 in
            state_bind Stored (write_item j (as_resolved now s reason)) _ d written λ o.
              state_or_raise Stored d' written o uncaught _ λ u _.
                flush_all-Stored (acknowledge_if_principles now was.item_type s d')
                  (profile-Stored now was.item_type s d' written)

  revive_item-Stored : (j : ℕ) (d : Db) → Stored d → Stored (revive_item j d).1
  unfolding revive_item
  revive_item-Stored j d h =
      state_or_raise Stored d h (get j d.health_items) health_error _ λ was found.
        state_raise_if Stored d h (not (is_user_attested was.state)) revive_not_allowed _
          λ attested.
            let written =
              write-Stored j as_revived was d (λ q. refl) found (ground (arith, attested)) h in
            let d' = (write_item j as_revived d).1 in
            state_bind Stored (write_item j as_revived) _ d written
              λ o. state_or_raise Stored d' written o uncaught _ λ u _. flush_all-Stored d' written

  serve-Stored : (now : ℕ) (c : HealthCall) (d : Db) → Stored d → Stored (serve_health now c d)
  unfolding serve_health emit_seed_backup_item emit_missing_signing_metadata_item
      emit_principles_ack_item_if_needed resolve_missing_metadata_items_for_holding
      acknowledge_principles
  serve-Stored now (seed_missing new_id holding_id mode) d h = emit-Stored now new_id _ _ _ _ d h
  serve-Stored now (metadata_missing new_id holding_id vendor) d h =
      emit-Stored now new_id _ _ _ _ d h
  serve-Stored now (principles_missing new_id) d h = emit-Stored now new_id _ _ _ _ d h
  serve-Stored now (resolve j s reason) d h = resolve_item-Stored now j s reason d h
  serve-Stored now (revive j) d h = revive_item-Stored j d h
  serve-Stored now (metadata_added holding_id) d h =
      flush_all-Stored
        (resolve_open_items now (some holding_id) missing_signing_metadata resolved_by_fix d)
        (resolve_open-Stored now (some holding_id) missing_signing_metadata resolved_by_fix d h)
  serve-Stored now principles_read d h =
      flush_all-Stored
        (resolve_open_items now none principles_ack acknowledged (acknowledge_in_profile now d))
        (resolve_open-Stored now none principles_ack acknowledged (acknowledge_in_profile now d)
          (flush_all-Stored d h))

  -- An item that was resolved by a fix or acknowledged stays as it is, whatever calls of the service
  -- follow, in whatever order.
  pub serve_healths_permanent :
      (calls : List (ℕ × HealthCall)) (d : Db)
      → get id d.health_items ≡ some i
      → get id (serve_healths calls d).health_items ≡ some i
  unfolding serve_healths
  serve_healths_permanent [] d h = h
  serve_healths_permanent ((now, c) ∷ rest) d h =
      serve_healths_permanent rest (serve_health now c d) (serve-Stored now c d h)
