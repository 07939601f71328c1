-- ===== src/Banking/Concurrency/Steps.antt =====
-- Each call keeps at most one payment of a holding in flight.
use tallykeep.Prelude.{
  ◌≡◌, refl, sym, subst, ℕ, true, false, some, [], ◌∷◌, ◌++◌, arith, inl, inr, ◌==◌, ==_iff, ◌≤◌,
  count, count-append, count-any_of, append_nil,
}
use tallykeep.Errors.{Result, ok, err, broadcast_rejected}
use tallykeep.Table.{get, modify, modify_first}
use tallykeep.Table.Laws.{count-modify_first}
use tallykeep.Domain.Payment.{PaymentRequest, request_key}
use tallykeep.Db.{Db, flush_all}
use tallykeep.Db.Session.{Session}
use tallykeep.Db.Keeps.{committed}
use tallykeep.Db.Outcome.{Outcome}
use tallykeep.Repositories.Payments.{
  is_in_flight, in_flight_for, has_in_flight_for_holding, request_insert,
}
use tallykeep.Banking.Sending.{commit_of}
use tallykeep.Banking.Sending.Signing.{with_request}
use tallykeep.Banking.Concurrency.{AtMostOne, IsSettled}

-- A rewrite of a stored request that keeps its holding, and that only an in-flight one comes out of in
-- flight.
pub with_request-AtMostOne :
    (id : ℕ) (f : PaymentRequest → PaymentRequest) (d : Db)
    → ((r : PaymentRequest) → (f r).holding_id ≡ r.holding_id)
    → ((r : PaymentRequest)
        → get id d.requests ≡ some r
        → is_in_flight (f r).status ≡ true
        → is_in_flight r.status ≡ true)
    → AtMostOne d
    → AtMostOne (with_request id f d)
unfolding get modify
with_request-AtMostOne id f d same keep h = record {
  at_most_one = λ holding_id. ground (
    arith,
    h.at_most_one holding_id,
    fewer holding_id,
    count-append (in_flight_for holding_id) d.requests.rows d.requests.pending,
    count-append (in_flight_for holding_id)
        (modify_first (λ (r : PaymentRequest). r.id == id) f d.requests.rows) d.requests.pending,
  );
}
  where
    fewer :
        (holding_id : ℕ)
        → count
            (in_flight_for holding_id)
            (modify_first (λ (r : PaymentRequest). r.id == id) f d.requests.rows)
          ≤ count (in_flight_for holding_id) d.requests.rows
    fewer holding_id =
        count-modify_first (in_flight_for holding_id) _ f d.requests.rows
          (λ r found p. ground (arith, same r, keep r found))

pub insert-AtMostOne :
    (d : Db) (r : PaymentRequest)
    → IsSettled d
    → has_in_flight_for_holding r.holding_id d ≡ false
    → AtMostOne (request_insert r d)
unfolding request_insert
insert-AtMostOne d r s idle = record { at_most_one = λ holding_id. added holding_id }
  where
    none_there : (h : ℕ) → (r.holding_id == h) ≡ true → count (in_flight_for h) d.requests.rows ≡ 0
    none_there h e =
        subst (λ x. count (in_flight_for x) d.requests.rows ≡ 0) ((==_iff r.holding_id h).0 e)
          (count-any_of (in_flight_for r.holding_id) d.requests.rows idle)

    bound : (h : ℕ) → count (in_flight_for h) d.requests.rows ≤ 1
    bound h = ground (
      arith,
      s.in_flight.at_most_one h,
      count-append (in_flight_for h) d.requests.rows d.requests.pending,
    )

    added :
        (h : ℕ) → count (in_flight_for h) (d.requests.rows ++ (d.requests.pending ++ (r ∷ []))) ≤ 1
    added h =
        rw (s.none_pending, count-append (in_flight_for h) d.requests.rows (r ∷ []))
          (ground (arith, bound h, none_there h))

pub flush_all-IsSettled : (d : Db) → AtMostOne d → IsSettled (flush_all d)
flush_all-IsSettled d h = record {
  in_flight = record {
    at_most_one = λ holding_id.
        subst (λ rs. count (in_flight_for holding_id) rs ≤ 1)
          (sym (append_nil (d.requests.rows ++ d.requests.pending))) (h.at_most_one holding_id);
  };
  none_pending = refl;
}

-- A commit settles what the session holds, and where nothing is committed all is as it was.
pub committed-IsSettled :
    {A : Type 0} (m : Session A) (d : Db)
    → IsSettled d
    → AtMostOne (m d).1
    → IsSettled (committed m d)
unfolding committed
committed-IsSettled {A = A} m d s h = settled (m d).0
  where
    settled :
        (r : Result A) → IsSettled (elim r as (λ _. Db) [ ok _ ↦ flush_all (m d).1 | err _ ↦ d ])
    settled (ok a) = flush_all-IsSettled (m d).1 h
    settled (err e) = s

pub commit_of-IsSettled :
    {A : Type 0} (r : Result A) (d d' : Db)
    → IsSettled d
    → AtMostOne d'
    → IsSettled (commit_of r d d')
commit_of-IsSettled (ok a) d d' s h = flush_all-IsSettled d' h
commit_of-IsSettled (err broadcast_rejected) d d' s h = flush_all-IsSettled d' h
commit_of-IsSettled (err e) d d' s h = ground (arith, s)

-- what the outcome of a call says of the session after it
pub Outcome-AtMostOne :
    {A : Type 0} {E : A → Db → Type 0} (m : Session A) (d : Db)
    → AtMostOne d
    → Outcome E m d
    → ((a : A) (d' : Db) → E a d' → AtMostOne d')
    → AtMostOne (m d).1
Outcome-AtMostOne m d h o keep = elim o.outcome [
  | inl (e, run) ↦ subst (λ x. AtMostOne x.1) (sym run) h
  | inr (a, d', run, after) ↦ subst (λ x. AtMostOne x.1) (sym run) (keep a d' after)
]
