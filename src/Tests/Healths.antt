-- ===== src/Tests/Healths.antt =====
-- The theorems on the security health list, at a list of two items.
use tallykeep.Prelude.{◌≡◌, refl, arith, none, some, [], ◌∷◌}
use tallykeep.Table.{get}
use tallykeep.Domain.Health.{
  SecurityHealthItem, item_key, item_open, acknowledged, principles_ack, seed_backup, warning,
  critical,
}
use tallykeep.Db.{Db}
use tallykeep.Health.{
  seed_missing, principles_missing, resolve, revive, principles_read, serve_healths,
}
use tallykeep.Health.Permanent.{serve_healths_permanent}
use tallykeep.Health.Single.{IsSingle, serve_healths-IsSingle}
use tallykeep.Tests.Data.{sample_db}

abbrev acknowledged_item : SecurityHealthItem
acknowledged_item = record {
  id = 70;
  item_type = principles_ack;
  holding_id = none;
  state = acknowledged;
  severity = warning;
  created_at = 1;
  resolved_at = some 2;
  dismissal_reason = none;
  raw_context = [];
}

abbrev open_item : SecurityHealthItem
open_item = record {
  id = 71;
  item_type = seed_backup;
  holding_id = some 1;
  state = item_open;
  severity = critical;
  created_at = 1;
  resolved_at = none;
  dismissal_reason = none;
  raw_context = [];
}

abbrev listed_db : Db
listed_db = record sample_db {
  health_items = record { rows = acknowledged_item ∷ open_item ∷ []; pending = [] };
}

acknowledged_item-stored : get 70 listed_db.health_items ≡ some acknowledged_item
unfolding get
acknowledged_item-stored = refl

serve_healths_permanent_example :
    get 70
      (serve_healths
        ((3, revive 70)
          ∷ (4, resolve 71 acknowledged none)
          ∷ (5, principles_missing 72)
          ∷ (6, principles_read)
          ∷ [])
        listed_db).health_items
    ≡ some acknowledged_item
serve_healths_permanent_example =
    serve_healths_permanent 70 acknowledged_item refl
      ((3, revive 70)
        ∷ (4, resolve 71 acknowledged none)
        ∷ (5, principles_missing 72)
        ∷ (6, principles_read)
        ∷ [])
      listed_db acknowledged_item-stored

listed_db-IsSingle : IsSingle listed_db
listed_db-IsSingle = record { at_most_one = λ type holding_id. ground arith; none_pending = refl }

serve_healths-IsSingle_example : IsSingle (
    serve_healths
      ((3, seed_missing 72 1 "on_device")
        ∷ (4, resolve 71 acknowledged none)
        ∷ (5, seed_missing 73 1 "on_device")
        ∷ (6, principles_missing 74)
        ∷ (7, principles_read)
        ∷ [])
      listed_db)
serve_healths-IsSingle_example =
    serve_healths-IsSingle
      ((3, seed_missing 72 1 "on_device")
        ∷ (4, resolve 71 acknowledged none)
        ∷ (5, seed_missing 73 1 "on_device")
        ∷ (6, principles_missing 74)
        ∷ (7, principles_read)
        ∷ [])
      listed_db refl listed_db-IsSingle
