-- ===== src/Health.antt =====
-- backend/tallykeep/services/security_health_service.py: the items of the security health list, from
-- the hooks that make them to their resolution. The events on the bus are not modelled; every function
-- commits what it has written.
pub mod Permanent
pub mod Single
use tallykeep.Prelude.{
  ℕ, String, Bool, true, false, not, Option, none, some, List, [], ◌∷◌, ◌++◌, if◌then◌else◌, str_eq,
  or_else,
}
use tallykeep.Errors.{health_error, uncaught, invalid_state_transition, revive_not_allowed}
use tallykeep.Table.{get}
use tallykeep.Domain.Health.{
  SecurityHealthItem, ItemType, seed_backup, missing_signing_metadata, principles_ack, ItemState,
  item_open, resolved_by_fix, dismissed_intentional, acknowledged, critical, warning, ItemSeverity,
  item_key, is_user_attested,
}
use tallykeep.Db.{Db, HoldingRow, holding_key, flush_all}
use tallykeep.Db.Session.{Session, pure, or_raise, raise_if, write, flush_session, ◌>>=◌, ◌>>◌}
use tallykeep.Repositories.Health.{
  has_open_item_of_type, item_of, item_insert, as_resolved, as_revived, write_item,
  resolve_open_items,
}

-- `holding.name if holding else ""`
abbrev pub name_of : Option HoldingRow → String
name_of none = ""
name_of (some h) = h.name

-- an item is inserted, unless one of the type is open
unfoldable pub emit_item :
    ℕ → ℕ → ItemType → Option ℕ → ItemSeverity → List (String × String) → Db → Db
emit_item now new_id type holding_id severity context d =
    if has_open_item_of_type type holding_id d
    then d
    else flush_all (item_insert (item_of now new_id type holding_id severity context) d)

-- `emit_seed_backup_item`
unfoldable pub emit_seed_backup_item : ℕ → ℕ → ℕ → String → Db → Db
emit_seed_backup_item now new_id holding_id purse_mode d =
    emit_item now new_id seed_backup (some holding_id) critical
      (("purse_mode", purse_mode) ∷ ("holding_name", name_of (get holding_id d.holdings)) ∷ []) d

abbrev pub vendor_context : Option String → List (String × String)
vendor_context none = []
vendor_context (some v) = if str_eq v "" then [] else ("vendor", v) ∷ []

-- `emit_missing_signing_metadata_item`
unfoldable pub emit_missing_signing_metadata_item : ℕ → ℕ → ℕ → Option String → Db → Db
emit_missing_signing_metadata_item now new_id holding_id vendor d =
    emit_item now new_id missing_signing_metadata (some holding_id) warning
      (("holding_name", name_of (get holding_id d.holdings)) ∷ vendor_context vendor) d

-- `emit_principles_ack_item_if_needed`
unfoldable pub emit_principles_ack_item_if_needed : ℕ → ℕ → Db → Db
emit_principles_ack_item_if_needed now new_id d =
    emit_item now new_id principles_ack none warning [] d

-- `_VALID_TRANSITIONS`
abbrev pub is_valid_transition : ItemState → ItemState → Bool
is_valid_transition item_open resolved_by_fix = true
is_valid_transition item_open dismissed_intentional = true
is_valid_transition item_open acknowledged = true
is_valid_transition _ _ = false

-- `profile_repo.update(session, principles_acknowledged=True)`, which commits; the first time is kept
abbrev pub acknowledge_in_profile : ℕ → Db → Db
acknowledge_in_profile now d =
    flush_all
      (record d { principles_acknowledged_at = or_else d.principles_acknowledged_at (some now) })

abbrev pub acknowledge_if_principles : ℕ → ItemType → ItemState → Db → Db
acknowledge_if_principles now principles_ack acknowledged d = acknowledge_in_profile now d
acknowledge_if_principles now _ _ d = d

-- `resolve_item`; an assertion that fails is not caught
unfoldable pub resolve_item : ℕ → ℕ → ItemState → Option String → Session SecurityHealthItem
resolve_item now id new_state reason d =
    (do
      item ← or_raise (get id d.health_items) health_error
      raise_if (not (is_valid_transition item.state new_state)) invalid_state_transition
      found ← write_item id (as_resolved now new_state reason)
      updated ← or_raise found uncaught
      write (acknowledge_if_principles now item.item_type new_state)
      flush_session
      pure updated)
      d

-- `revive_item`
unfoldable pub revive_item : ℕ → Session SecurityHealthItem
revive_item id d =
    (do
      item ← or_raise (get id d.health_items) health_error
      raise_if (not (is_user_attested item.state)) revive_not_allowed
      found ← write_item id as_revived
      updated ← or_raise found uncaught
      flush_session
      pure updated)
      d

-- `resolve_missing_metadata_items_for_holding`
unfoldable pub resolve_missing_metadata_items_for_holding : ℕ → ℕ → Db → Db
resolve_missing_metadata_items_for_holding now holding_id d =
    flush_all (resolve_open_items now (some holding_id) missing_signing_metadata resolved_by_fix d)

-- `acknowledge_principles`
unfoldable pub acknowledge_principles : ℕ → Db → Db
acknowledge_principles now d =
    flush_all
      (resolve_open_items now none principles_ack acknowledged (acknowledge_in_profile now d))

-- the calls of the service
pub data HealthCall : Type 0 where
  seed_missing : ℕ → ℕ → String → HealthCall
  metadata_missing : ℕ → ℕ → Option String → HealthCall
  principles_missing : ℕ → HealthCall
  resolve : ℕ → ItemState → Option String → HealthCall
  revive : ℕ → HealthCall
  metadata_added : ℕ → HealthCall
  principles_read : HealthCall

-- The database after the call; a call that raises has written nothing.
unfoldable pub serve_health : ℕ → HealthCall → Db → Db
serve_health now (seed_missing new_id holding_id mode) d =
    emit_seed_backup_item now new_id holding_id mode d
serve_health now (metadata_missing new_id holding_id vendor) d =
    emit_missing_signing_metadata_item now new_id holding_id vendor d
serve_health now (principles_missing new_id) d = emit_principles_ack_item_if_needed now new_id d
serve_health now (resolve id new_state reason) d = (resolve_item now id new_state reason d).1
serve_health now (revive id) d = (revive_item id d).1
serve_health now (metadata_added holding_id) d =
    resolve_missing_metadata_items_for_holding now holding_id d
serve_health now principles_read d = acknowledge_principles now d

-- the calls, each with its time, in the order in which they are served
unfoldable pub serve_healths : List (ℕ × HealthCall) → Db → Db
serve_healths [] d = d
serve_healths ((now, c) ∷ rest) d = serve_healths rest (serve_health now c d)
