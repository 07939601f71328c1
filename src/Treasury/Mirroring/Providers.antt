-- ===== src/Treasury/Mirroring/Providers.antt =====
-- The loop over the reported entries leaves the providers alone.
use tallykeep.Prelude.{
  filter_by, ℕ, ◌≡◌, refl, ◌∙◌, List, [], ◌∷◌, Option, none, some, is_empty, Bool-cases, inl, inr,
}
use tallykeep.Domain.Mirror.{CustodialEntry}
use tallykeep.Db.{Db}
use tallykeep.Db.Session.{state_bind, state_read, pure, ◌>>=◌}
use tallykeep.Repositories.Mirror.{
  same_ref, upsert, upserted, one_or_none, get_by_refid, changed_fields,
}
use tallykeep.Treasury.Mirroring.{persist_entries, tally}

one_or_none-reads : (l : List CustodialEntry) (d : Db) → (one_or_none l d).1 ≡ d
one_or_none-reads [] d = refl
one_or_none-reads (x ∷ []) d = refl
one_or_none-reads (x ∷ y ∷ l) d = refl

upserted-providers :
    (e : CustodialEntry) (now : ℕ) (o : Option CustodialEntry) (d : Db)
    → (upserted e now o d).1.providers ≡ d.providers
upserted-providers e now none d = refl
upserted-providers e now (some x) d = elim (Bool-cases (is_empty (changed_fields x e))) [
  | inl same ↦ rw same refl
  | inr changed ↦ rw changed refl
]

upsert-providers :
    (e : CustodialEntry) (now : ℕ) (d : Db) → (upsert e now d).1.providers ≡ d.providers
unfolding upsert
upsert-providers e now d =
    state_read (λ x. x.providers ≡ d.providers) d refl (get_by_refid e) (upserted e now)
      (one_or_none-reads (filter_by (same_ref e) d.mirror.rows) d)
      (λ o _. upserted-providers e now o d)

pub persist_entries-providers :
    (es : List CustodialEntry) (now : ℕ) (d : Db)
    → (persist_entries es now d).1.providers ≡ d.providers
unfolding persist_entries
persist_entries-providers [] now d = refl
persist_entries-providers (e ∷ es) now d =
    state_bind (λ x. x.providers ≡ d.providers) (upsert e now)
      (λ u. persist_entries es now >>= λ t. pure (tally u t)) d (upsert-providers e now d)
      λ u.
        state_bind (λ x. x.providers ≡ d.providers) (persist_entries es now) (λ t. pure (tally u t))
          (upsert e now d).1
          (persist_entries-providers es now (upsert e now d).1 ∙ upsert-providers e now d)
          (λ t. persist_entries-providers es now (upsert e now d).1 ∙ upsert-providers e now d)
