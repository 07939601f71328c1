-- ===== src/Domain/Health.antt =====
-- backend/tallykeep/domain/security_health_item.py: the items of the security health list.
use tallykeep.Prelude.{ℕ, String, Bool, true, false, Option, List}
use tallykeep.Table.{Keyed}

pub data ItemState : Type 0 where
  item_open resolved_by_fix dismissed_intentional acknowledged : ItemState

pub data ItemSeverity : Type 0 where
  critical warning notification : ItemSeverity

pub data ItemType : Type 0 where
  seed_backup missing_signing_metadata principles_ack : ItemType

pub record SecurityHealthItem : Type 0 where
  pub id : ℕ
  pub item_type : ItemType
  pub holding_id : Option ℕ
  pub state : ItemState
  pub severity : ItemSeverity
  pub created_at : ℕ
  pub resolved_at : Option ℕ
  pub dismissal_reason : Option String
  pub raw_context : List (String × String)

instance abbrev pub item_key : Keyed SecurityHealthItem
item_key = record { key = λ i. i.id }

-- `is_open`
abbrev pub is_item_open : ItemState → Bool
is_item_open item_open = true
is_item_open _ = false

-- `is_user_attested`: only intentional dismissals can be revived
abbrev pub is_user_attested : ItemState → Bool
is_user_attested dismissed_intentional = true
is_user_attested _ = false

abbrev pub same_item_type : ItemType → ItemType → Bool
same_item_type seed_backup seed_backup = true
same_item_type missing_signing_metadata missing_signing_metadata = true
same_item_type principles_ack principles_ack = true
same_item_type _ _ = false
