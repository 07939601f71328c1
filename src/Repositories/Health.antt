-- ===== src/Repositories/Health.antt =====
-- backend/tallykeep/repositories/security_health.py.
use tallykeep.Prelude.{
  ℕ, String, Bool, true, false, ◌&&◌, Option, none, some, List, ◌==◌, any_of, or_else,
}
use tallykeep.Errors.{ok}
use tallykeep.Table.{get, modify, add, update_where}
use tallykeep.Domain.Health.{
  SecurityHealthItem, ItemType, ItemState, ItemSeverity, item_open, item_key, is_item_open,
  same_item_type,
}
use tallykeep.Db.{Db, flush_all}
use tallykeep.Db.Session.{Session}

-- `holding_id == h`, or `holding_id IS NULL` for none
abbrev pub same_holding : Option ℕ → Option ℕ → Bool
same_holding none none = true
same_holding (some a) (some b) = a == b
same_holding _ _ = false

-- an open item of the type for the holding, or for the application
abbrev pub open_for : ItemType → Option ℕ → SecurityHealthItem → Bool
open_for type holding_id i =
    is_item_open i.state && same_item_type i.item_type type && same_holding i.holding_id holding_id

-- `has_open_item_of_type`
abbrev pub has_open_item_of_type : ItemType → Option ℕ → Db → Bool
has_open_item_of_type type holding_id d = any_of (open_for type holding_id) d.health_items.rows

abbrev pub item_of :
    ℕ → ℕ → ItemType → Option ℕ → ItemSeverity → List (String × String) → SecurityHealthItem
item_of now new_id type holding_id severity context = record {
  id = new_id;
  item_type = type;
  holding_id = holding_id;
  state = item_open;
  severity = severity;
  created_at = now;
  resolved_at = none;
  dismissal_reason = none;
  raw_context = context;
}

-- `insert`, with its flush
unfoldable pub item_insert : SecurityHealthItem → Db → Db
item_insert i d = flush_all (record d { health_items = add i d.health_items })

abbrev pub as_resolved : ℕ → ItemState → Option String → SecurityHealthItem → SecurityHealthItem
as_resolved now new_state reason i = record i {
  state = new_state;
  resolved_at = some now;
  dismissal_reason = or_else reason i.dismissal_reason;
}

abbrev pub as_revived : SecurityHealthItem → SecurityHealthItem
as_revived i = record i { state = item_open; resolved_at = none; dismissal_reason = none }

-- the write of `resolve` and `revive` to one row, with the flush
unfoldable pub write_item :
    ℕ → (SecurityHealthItem → SecurityHealthItem) → Session (Option SecurityHealthItem)
write_item id f d =
    let t = modify id f d.health_items in (ok (get id t), flush_all (record d { health_items = t }))

-- `resolve_open_items_for_holding`, without the list that it returns
unfoldable pub resolve_open_items : ℕ → Option ℕ → ItemType → ItemState → Db → Db
resolve_open_items now holding_id type new_state d = flush_all (record d {
  health_items =
      update_where (open_for type holding_id) (as_resolved now new_state none) d.health_items;
})
