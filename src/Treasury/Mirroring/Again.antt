-- ===== src/Treasury/Mirroring/Again.antt =====
-- A whole report: once it is stored, the same report adds nothing and changes nothing.
use tallykeep.Db.Session.{pure, bind_result}
use tallykeep.Prelude.{
  Bool-cases, ◌⊎◌, if◌then◌else◌, ℕ, Bool, true, false, ◌≡◌, refl, ap, ◌∙◌, sym, subst, List, [],
  ◌∷◌, ◌++◌, All, All-filter_by, filter_by, inl, inr, append_nil,
}
use tallykeep.Errors.{Result, ok, err}
use tallykeep.Table.{Table, flush}
use tallykeep.Domain.Mirror.{CustodialEntry}
use tallykeep.Db.{Db, flush_all}
use tallykeep.Repositories.Mirror.{same_ref, upsert, UpsertResult}
use tallykeep.Treasury.Mirroring.{Tally, tally, persist_entries}
use tallykeep.Treasury.Mirroring.Refs.{same_ref-sym, same_ref-shared, filter_by-append}
use tallykeep.Treasury.Mirroring.Settled.{
  IsSettled, IsReady, AreKept, upsert-others, upsert-settles, upsert-settled,
}

-- no two entries of a report have the same reference
abbrev pub AreDistinct : List CustodialEntry → Type 0
AreDistinct [] = Unit
AreDistinct (e ∷ es) = All (λ a. same_ref e a ≡ false) es × AreDistinct es

-- the constraint of the table: each row is the only one with its reference
abbrev pub HasUniqueRefs : List CustodialEntry → Type 0
HasUniqueRefs rows = All (λ r. filter_by (same_ref r) rows ≡ r ∷ []) rows

module _ {a : CustodialEntry} {t t' : Table CustodialEntry} (kept : AreKept a t t') where
  kept-IsReady : IsReady a t → IsReady a t'
  kept-IsReady r = record {
    not_pending = kept.in_pending ∙ r.not_pending;
    at_most_once = elim r.at_most_once [
      | inl missing ↦ inl (kept.in_rows ∙ missing)
      | inr (x, found) ↦ inr (x, kept.in_rows ∙ found)
    ];
  }

  kept-IsSettled : IsSettled a t → IsSettled a t'
  kept-IsSettled s = record {
    stored = s.stored;
    once =
        filter_by-append (same_ref a) t'.rows t'.pending
        ∙ cc (kept.in_rows, kept.in_pending)
        ∙ sym (filter_by-append (same_ref a) t.rows t.pending)
        ∙ s.once;
    current = s.current;
  }

-- what is flushed is settled still
flush-IsSettled :
    (a : CustodialEntry) (t : Table CustodialEntry) → IsSettled a t → IsSettled a (flush t)
flush-IsSettled a t s = record {
  stored = s.stored;
  once = ap (filter_by (same_ref a)) (append_nil (t.rows ++ t.pending)) ∙ s.once;
  current = s.current;
}

same_filter :
    (p q : CustodialEntry → Bool)
    → ((r : CustodialEntry) → p r ≡ q r)
    → (rows : List CustodialEntry) → filter_by p rows ≡ filter_by q rows
same_filter p q same [] = refl
same_filter p q same (r ∷ rows) =
    rw (same r) (ap (λ rs. if q r then r ∷ rs else rs) (same_filter p q same rows))

filter_by-holds :
    (p : CustodialEntry → Bool) (rows : List CustodialEntry)
    → All (λ r. p r ≡ true) (filter_by p rows)
filter_by-holds p [] = tt
filter_by-holds p (r ∷ rows) = elim (Bool-cases (p r)) [
  | inl hit ↦ rw hit (hit, filter_by-holds p rows)
  | inr miss ↦ rw miss (filter_by-holds p rows)
]

-- an entry is in a table with unique references at most once
unique-IsReady :
    (e : CustodialEntry) (t : Table CustodialEntry)
    → t.pending ≡ []
    → HasUniqueRefs t.rows
    → IsReady e t
unique-IsReady e t no_pending unique = record {
  not_pending = ap (filter_by (same_ref e)) no_pending;
  at_most_once =
      first (filter_by (same_ref e) t.rows) refl
        (All-filter_by (λ r. filter_by (same_ref r) t.rows ≡ r ∷ []) (same_ref e) t.rows unique)
        (filter_by-holds (same_ref e) t.rows);
}
  where
    first :
        (l : List CustodialEntry)
        → filter_by (same_ref e) t.rows ≡ l
        → All (λ r. filter_by (same_ref r) t.rows ≡ r ∷ []) l
        → All (λ r. same_ref e r ≡ true) l
        → (filter_by (same_ref e) t.rows ≡ [])
          ⊎ ((x : CustodialEntry) × (filter_by (same_ref e) t.rows ≡ x ∷ []))
    first [] h a b = inl h
    first (x ∷ xs) h a b =
        inr (x, same_filter (same_ref e) (same_ref x) (λ r. same_ref-shared e r x b.0) t.rows ∙ a.0)

-- the rest of the loop after an upsert that returned
persist-after :
    (e : CustodialEntry) (es : List CustodialEntry) (now : ℕ) (d : Db) (r : UpsertResult)
    → (upsert e now d).0 ≡ ok r
    → (((persist_entries (e ∷ es) now d).1 ≡ (persist_entries es now (upsert e now d).1).1)
        × ((t : Tally)
            → (persist_entries es now (upsert e now d).1).0 ≡ ok t
            → (persist_entries (e ∷ es) now d).0 ≡ ok (tally r t)))
unfolding persist_entries
persist-after e es now d r h =
    rw h (ends (persist_entries es now (upsert e now d).1).0, λ t k. rw k refl)
  where
    ends :
        (o : Result Tally)
        → (bind_result o (λ t. pure (tally r t)) (persist_entries es now (upsert e now d).1).1).1
          ≡ (persist_entries es now (upsert e now d).1).1
    ends (ok t) = refl
    ends (err x) = refl

-- what the loop over a report leaves
record IsPersisted (es : List CustodialEntry) (now : ℕ) (d : Db) : Type 0 where
  pub returned : (t : Tally) × ((persist_entries es now d).0 ≡ ok t)
  pub settled : All (λ e. IsSettled e (persist_entries es now d).1.mirror) es
  pub others :
      (a : CustodialEntry)
      → All (λ e. same_ref e a ≡ false) es
      → AreKept a d.mirror (persist_entries es now d).1.mirror

AreKept-trans :
    (a : CustodialEntry) (t u v : Table CustodialEntry)
    → AreKept a t u
    → AreKept a u v
    → AreKept a t v
AreKept-trans a t u v h k = record {
  in_rows = k.in_rows ∙ h.in_rows;
  in_pending = k.in_pending ∙ h.in_pending;
}

still-IsReady :
    (e : CustodialEntry) (es : List CustodialEntry) (now : ℕ) (d : Db)
    → All (λ a. same_ref e a ≡ false) es
    → All (λ a. IsReady a d.mirror) es
    → All (λ a. IsReady a (upsert e now d).1.mirror) es
still-IsReady e [] now d apart ready = tt
still-IsReady e (a ∷ es) now d apart ready = (
  kept-IsReady (upsert-others e now d a apart.0) ready.0,
  still-IsReady e es now d apart.1 ready.1,
)

apart_sym :
    (e : CustodialEntry) (es : List CustodialEntry)
    → All (λ a. same_ref e a ≡ false) es
    → All (λ a. same_ref a e ≡ false) es
apart_sym e [] apart = tt
apart_sym e (a ∷ es) apart = (same_ref-sym a e ∙ apart.0, apart_sym e es apart.1)

persist-IsPersisted :
    (es : List CustodialEntry) (now : ℕ) (d : Db)
    → AreDistinct es
    → All (λ e. IsReady e d.mirror) es
    → IsPersisted es now d
unfolding persist_entries
persist-IsPersisted [] now d distinct ready = record {
  returned = (_, refl);
  settled = tt;
  others = λ a h. record { in_rows = refl; in_pending = refl };
}
persist-IsPersisted (e ∷ es) now d distinct ready =
    let first = upsert-settles e now d ready.0 in
    let d' = (upsert e now d).1 in
    let after = persist-after e es now d first.0.0 first.0.1 in
    let rest =
      persist-IsPersisted es now d' distinct.1 (still-IsReady e es now d distinct.0 ready.1) in
    let own : IsSettled e (persist_entries es now d').1.mirror =
      kept-IsSettled (rest.others e (apart_sym e es distinct.0)) first.1 in
    record {
      returned = (tally first.0.0 rest.returned.0, after.1 rest.returned.0 rest.returned.1);
      settled =
          subst (λ x. All (λ a. IsSettled a x.mirror) (e ∷ es)) (sym after.0) (own, rest.settled);
      others = λ a h.
          subst (λ x. AreKept a d.mirror x.mirror) (sym after.0)
            (AreKept-trans a d.mirror d'.mirror (persist_entries es now d').1.mirror
              (upsert-others e now d a h.0) (rest.others a h.1));
    }

persist-settled :
    (es : List CustodialEntry) (now : ℕ) (d : Db)
    → d.mirror.pending ≡ []
    → All (λ e. IsSettled e d.mirror) es
    → persist_entries es now d ≡ (ok (record { added = 0; updated = 0 }), d)
unfolding persist_entries
persist-settled [] now d no_pending settled = refl
persist-settled (e ∷ es) now d no_pending settled =
    rw (upsert-settled e now d no_pending settled.0)
      (rw (persist-settled es now d no_pending settled.1) refl)

All-IsReady :
    (es : List CustodialEntry) (t : Table CustodialEntry)
    → t.pending ≡ []
    → HasUniqueRefs t.rows
    → All (λ e. IsReady e t) es
All-IsReady [] t no_pending unique = tt
All-IsReady (e ∷ es) t no_pending unique =
    (unique-IsReady e t no_pending unique, All-IsReady es t no_pending unique)

All-flushed :
    (es : List CustodialEntry) (t : Table CustodialEntry)
    → All (λ e. IsSettled e t) es
    → All (λ e. IsSettled e (flush t)) es
All-flushed [] t settled = tt
All-flushed (e ∷ es) t settled = (flush-IsSettled e t settled.0, All-flushed es t settled.1)

-- Storing a report is idempotent. Let no two entries of the report have the same reference, let the
-- stored rows have unique references and let no row be pending. Then the loop returns; and after the
-- commit the same report, at any later time, adds and updates no entry and leaves the database as it is.
pub persist-again :
    (es : List CustodialEntry) (now later : ℕ) (d : Db)
    → AreDistinct es
    → HasUniqueRefs d.mirror.rows
    → d.mirror.pending ≡ []
    → ((t : Tally) × ((persist_entries es now d).0 ≡ ok t))
      × (persist_entries es later (flush_all (persist_entries es now d).1)
          ≡ (ok (record { added = 0; updated = 0 }), flush_all (persist_entries es now d).1))
persist-again es now later d distinct unique no_pending =
    let p = persist-IsPersisted es now d distinct (All-IsReady es d.mirror no_pending unique) in
    (
      p.returned,
      persist-settled es later (flush_all (persist_entries es now d).1) refl
          (All-flushed es (persist_entries es now d).1.mirror p.settled),
    )
