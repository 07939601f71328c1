-- ===== src/Repositories/Mirror.antt =====
-- backend/tallykeep/repositories/custodial_ledger_entry.py: the mirrored ledger of an exchange, an entry
-- of which is found by its provider and by the id that the provider gave it.
use tallykeep.Prelude.{
  any_of, leb_ℤ, ℕ, Bool, true, false, ◌&&◌, ◌||◌, ◌==◌, str_eq, Option, none, some, List, [], ◌∷◌,
  ◌++◌, if◌then◌else◌, is_empty, ℤ,
}
use tallykeep.Errors.{uncaught}
use tallykeep.Table.{update_where, add, select, modify_first}
use tallykeep.Domain.Mirror.{
  CustodialEntry, EntryKind, trade, deposit, withdrawal, transfer, fee, reward, other_kind,
  mirror_key,
}
use tallykeep.Db.{Db}
use tallykeep.Db.Session.{Session, pure, raise, ◌>>=◌}

-- the key of the constraint `uq_custodial_ledger_entry_provider_entry`
abbrev pub same_ref : CustodialEntry → CustodialEntry → Bool
same_ref e r =
    r.custodial_provider_id == e.custodial_provider_id
    && str_eq r.provider_entry_id e.provider_entry_id

-- two rows with the same key, which the constraint refuses
unfoldable pub has_double_ref : List CustodialEntry → Bool
has_double_ref [] = false
has_double_ref (r ∷ rs) = any_of (same_ref r) rs || has_double_ref rs

-- `scalar_one_or_none`: more than one row raises
abbrev pub one_or_none : {A : Type 0} → List A → Session (Option A)
one_or_none [] = pure none
one_or_none (r ∷ []) = pure (some r)
one_or_none (_ ∷ _ ∷ _) = raise uncaught

-- `get_by_refid`, for the ids of an entry
abbrev pub get_by_refid : CustodialEntry → Session (Option CustodialEntry)
get_by_refid e d = one_or_none (select (same_ref e) d.mirror) d

abbrev pub kind_eq : EntryKind → EntryKind → Bool
kind_eq trade trade = true
kind_eq deposit deposit = true
kind_eq withdrawal withdrawal = true
kind_eq transfer transfer = true
kind_eq fee fee = true
kind_eq reward reward = true
kind_eq other_kind other_kind = true
kind_eq _ _ = false

abbrev pub eq_ℤ : ℤ → ℤ → Bool
eq_ℤ a b = leb_ℤ a b && leb_ℤ b a

abbrev pub eq_option : Option ℤ → Option ℤ → Bool
eq_option none none = true
eq_option (some a) (some b) = eq_ℤ a b
eq_option _ _ = false

-- `mutable_fields`
pub data MutableField : Type 0 where
  kind_field amount_field fee_field status_field payload_field : MutableField

abbrev listed : Bool → MutableField → List MutableField
listed true f = []
listed false f = f ∷ []

-- the fields of the stored entry that the loop changes
unfoldable pub changed_fields : CustodialEntry → CustodialEntry → List MutableField
changed_fields existing e =
    listed (kind_eq existing.kind e.kind) kind_field
    ++ listed (eq_ℤ existing.amount_sats e.amount_sats) amount_field
    ++ listed (eq_option existing.fee_sats e.fee_sats) fee_field
    ++ listed (str_eq existing.status e.status) status_field
    ++ listed (str_eq existing.raw_payload e.raw_payload) payload_field

-- the assignments to the fields
abbrev pub overwrite : CustodialEntry → ℕ → CustodialEntry → CustodialEntry
overwrite e now existing = record existing {
  kind = e.kind;
  amount_sats = e.amount_sats;
  fee_sats = e.fee_sats;
  status = e.status;
  raw_payload = e.raw_payload;
  updated_at = now;
}

-- without the row
pub record UpsertResult : Type 0 where
  pub is_new : Bool
  pub changed : List MutableField

abbrev pub upserted : CustodialEntry → ℕ → Option CustodialEntry → Session UpsertResult
upserted e now none d =
    pure record { is_new = true; changed = [] } record d { mirror = add e d.mirror }
upserted e now (some existing) d =
    let fields = changed_fields existing e in
    let result = pure record { is_new = false; changed = fields } in
    if is_empty fields
    then result d
    else result record d {
      mirror = record d.mirror { rows = modify_first (same_ref e) (overwrite e now) d.mirror.rows };
    }

-- `upsert`: `existing` is the object that the query found
unfoldable pub upsert : CustodialEntry → ℕ → Session UpsertResult
upsert e now = get_by_refid e >>= λ existing. upserted e now existing

pub record Linkage : Type 0 where
  pub linked_sweep_execution_id : Option ℕ
  pub linked_counterparty_holding_id : Option ℕ

abbrev change_entry : ℕ → (CustodialEntry → CustodialEntry) → Db → Db
change_entry id f d = record d { mirror = update_where (λ r. r.id == id) f d.mirror }

-- `set_reconciled`, with no link to the ledger of the chain
unfoldable pub set_reconciled : ℕ → Linkage → ℕ → Db → Db
set_reconciled id l now = change_entry id λ r. record r {
  linked_sweep_execution_id = l.linked_sweep_execution_id;
  linked_counterparty_holding_id = l.linked_counterparty_holding_id;
  linked_chain_ledger_entry_id = none;
  reconciled_at = some now;
  updated_at = now;
}

-- `mark_unmatched`
unfoldable pub mark_unmatched : ℕ → ℕ → Db → Db
mark_unmatched id now = change_entry id λ r. record r { reconciled_at = some now; updated_at = now }
