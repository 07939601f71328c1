-- ===== src/Treasury/Mirroring/Settled.antt =====
-- One entry: storing it leaves a table that holds it as it was reported, and the other entries alone.
use tallykeep.Prelude.{
  ℕ, Bool, true, false, ◌≡◌, refl, ap, ◌∙◌, sym, List, [], ◌∷◌, ◌++◌, filter_by, arith, str_eq,
  str_eq_iff, Bool-cases, inl, inr, ◌⊎◌, append_nil, is_empty, String, ℤ, Option, none, some,
}
use tallykeep.Errors.{ok}
use tallykeep.Table.{Table, modify_first}
use tallykeep.Domain.Mirror.{
  CustodialEntry, EntryKind, trade, deposit, withdrawal, transfer, fee, reward, other_kind,
}
use tallykeep.Db.{Db}
use tallykeep.Db.Session.{bind_result}
use tallykeep.Repositories.Mirror.{
  same_ref, overwrite, upsert, upserted, one_or_none, UpsertResult, changed_fields, kind_eq, eq_ℤ,
  eq_option,
}
use tallykeep.Treasury.Mirroring.Refs.{
  same_ref-sym, same_ref_refl, filter_by-append, overwrite-others, overwrite-own,
}

-- stored once, as it was reported
pub record IsSettled (e : CustodialEntry) (t : Table CustodialEntry) : Type 0 where
  pub stored : CustodialEntry
  pub once : filter_by (same_ref e) (t.rows ++ t.pending) ≡ stored ∷ []
  pub current : changed_fields stored e ≡ []

-- an entry that is in none of the pending rows and in at most one of the others
pub record IsReady (e : CustodialEntry) (t : Table CustodialEntry) : Type 0 where
  pub not_pending : filter_by (same_ref e) t.pending ≡ []
  pub at_most_once :
      (filter_by (same_ref e) t.rows ≡ [])
      ⊎ ((x : CustodialEntry) × (filter_by (same_ref e) t.rows ≡ x ∷ []))

kind_eq_refl : (k : EntryKind) → kind_eq k k ≡ true
kind_eq_refl trade = refl
kind_eq_refl deposit = refl
kind_eq_refl withdrawal = refl
kind_eq_refl transfer = refl
kind_eq_refl fee = refl
kind_eq_refl reward = refl
kind_eq_refl other_kind = refl

eq_option_refl : (o : Option ℤ) → eq_option o o ≡ true
eq_option_refl none = refl
eq_option_refl (some a) = ground arith

str_eq_refl : (s : String) → str_eq s s ≡ true
str_eq_refl s = ground (arith, str_eq_iff s s)

-- an entry with the reported fields has none to change
changed_fields-none :
    (x e : CustodialEntry)
    → x.kind ≡ e.kind
    → x.amount_sats ≡ e.amount_sats
    → x.fee_sats ≡ e.fee_sats
    → x.status ≡ e.status
    → x.raw_payload ≡ e.raw_payload
    → changed_fields x e ≡ []
unfolding changed_fields
changed_fields-none x e k a f s p =
    let amounts : eq_ℤ x.amount_sats e.amount_sats ≡ true = ground arith in
    rw
      (
        k,
        f,
        s,
        p,
        amounts,
        kind_eq_refl e.kind,
        eq_option_refl e.fee_sats,
        str_eq_refl e.status,
        str_eq_refl e.raw_payload,
      )
      refl

-- the entries with another reference, in the two parts of the table, are the same
pub record AreKept (a : CustodialEntry) (t t' : Table CustodialEntry) : Type 0 where
  pub in_rows : filter_by (same_ref a) t'.rows ≡ filter_by (same_ref a) t.rows
  pub in_pending : filter_by (same_ref a) t'.pending ≡ filter_by (same_ref a) t.pending

module _ (e : CustodialEntry) (now : ℕ) (d : Db) where
  upserted-others :
      (a : CustodialEntry) (o : Option CustodialEntry)
      → same_ref e a ≡ false
      → AreKept a d.mirror (upserted e now o d).1.mirror
  upserted-others a none h = record {
    in_rows = refl;
    in_pending =
        let apart : same_ref a e ≡ false = same_ref-sym a e ∙ h in
        filter_by-append (same_ref a) d.mirror.pending (e ∷ [])
        ∙ rw apart (append_nil (filter_by (same_ref a) d.mirror.pending));
  }
  upserted-others a (some x) h = elim (Bool-cases (is_empty (changed_fields x e))) [
    | inl same ↦ rw same record { in_rows = refl; in_pending = refl }
    | inr changed ↦
        rw changed record { in_rows = overwrite-others e now a d.mirror.rows h; in_pending = refl }
  ]

  found-others :
      (a : CustodialEntry) (l : List CustodialEntry)
      → same_ref e a ≡ false
      → AreKept a d.mirror
          (bind_result (one_or_none l d).0 (upserted e now) (one_or_none l d).1).1.mirror
  found-others a [] h = upserted-others a none h
  found-others a (x ∷ []) h = upserted-others a (some x) h
  found-others a (x ∷ y ∷ xs) h = record { in_rows = refl; in_pending = refl }

  pub upsert-others :
      (a : CustodialEntry) → same_ref e a ≡ false → AreKept a d.mirror (upsert e now d).1.mirror
  unfolding upsert
  upsert-others a h = found-others a (filter_by (same_ref e) d.mirror.rows) h

  stored_before :
      (x : CustodialEntry)
      → filter_by (same_ref e) d.mirror.pending ≡ []
      → filter_by (same_ref e) d.mirror.rows ≡ x ∷ []
      → IsSettled e (upserted e now (some x) d).1.mirror
  stored_before x no_pending found = elim (Bool-cases (is_empty (changed_fields x e))) [
    | inl same ↦ rw same record {
      stored = x;
      once = filter_by-append (same_ref e) d.mirror.rows d.mirror.pending ∙ cc (no_pending, found);
      current = ground arith;
    }
    | inr changed ↦ rw changed record {
      stored = overwrite e now x;
      once =
          filter_by-append (same_ref e) (modify_first (same_ref e) (overwrite e now) d.mirror.rows)
            d.mirror.pending
          ∙ cc (no_pending, overwrite-own e now x d.mirror.rows found);
      current = changed_fields-none (overwrite e now x) e refl refl refl refl refl;
    }
  ]

  stored_now :
      filter_by (same_ref e) d.mirror.pending ≡ []
      → filter_by (same_ref e) d.mirror.rows ≡ []
      → IsSettled e (upserted e now none d).1.mirror
  stored_now no_pending missing = record {
    stored = e;
    once =
        let own = same_ref_refl e in
        filter_by-append (same_ref e) d.mirror.rows (d.mirror.pending ++ e ∷ [])
        ∙ cc (
          missing,
          filter_by-append (same_ref e) d.mirror.pending (e ∷ []),
          no_pending,
          only_own own,
        );
    current = changed_fields-none e e refl refl refl refl refl;
  }
    where
      only_own : same_ref e e ≡ true → filter_by (same_ref e) (e ∷ []) ≡ e ∷ []
      only_own h = rw h refl

  -- the upsert of an entry that is ready returns, and the entry is settled then
  pub upsert-settles :
      IsReady e d.mirror
      → ((r : UpsertResult) × ((upsert e now d).0 ≡ ok r)) × IsSettled e (upsert e now d).1.mirror
  unfolding upsert
  upsert-settles ready = elim ready.at_most_once [
    | inl missing ↦ rw missing ((_, refl), stored_now ready.not_pending missing)
    | inr (x, found) ↦
        rw found
          (returns x (is_empty (changed_fields x e)) refl, stored_before x ready.not_pending found)
  ]
    where
      returns :
          (x : CustodialEntry) (b : Bool)
          → is_empty (changed_fields x e) ≡ b
          → (r : UpsertResult) × ((upserted e now (some x) d).0 ≡ ok r)
      returns x true h = rw h (_, refl)
      returns x false h = rw h (_, refl)

  -- storing a settled entry again changes nothing
  pub upsert-settled :
      d.mirror.pending ≡ []
      → IsSettled e d.mirror
      → upsert e now d ≡ (ok (record { is_new = false; changed = [] }), d)
  unfolding upsert
  upsert-settled no_pending settled =
      let found : filter_by (same_ref e) d.mirror.rows ≡ settled.stored ∷ [] =
        ap (filter_by (same_ref e)) (sym (append_nil d.mirror.rows))
        ∙ ap (λ ps. filter_by (same_ref e) (d.mirror.rows ++ ps)) (sym no_pending)
        ∙ settled.once in
      rw found (rw settled.current refl)
