-- ===== src/Db/Keeps.antt =====
-- Properties of the database that an action keeps when it returns. An action that raises is not
-- committed, so nothing is asked of it.
use tallykeep.Prelude.{◌≡◌, refl, sym, subst, Bool, true, false, Option, none, some, if◌then◌else◌}
use tallykeep.Errors.{Error, Result, ok, err}
use tallykeep.Db.{Db, flush_all}
use tallykeep.Db.Session.{
  Session, pure, raise, gets, lift, or_raise, bind_result, ◌>>=◌, raise_if, write,
}

-- `m` keeps `P` where it returns.
pub record Keeps {A : Type 0} (P : Db → Type 0) (m : Session A) : Type 0 where
  pub at : (d : Db) (a : A) → (m d).0 ≡ ok a → P d → P (m d).1

module _ {A : Type 0} {P : Db → Type 0} where
  pub Keeps-pure : (a : A) → Keeps P (pure a)
  Keeps-pure a = record { at = λ d b e h. h }

  pub Keeps-raise : (e : Error) → Keeps P (raise {A = A} e)
  Keeps-raise e = record { at = λ d b q h. h }

  pub Keeps-gets : (f : Db → A) → Keeps P (gets f)
  Keeps-gets f = record { at = λ d b e h. h }

  pub Keeps-lift : (r : Result A) → Keeps P (lift r)
  Keeps-lift r = record { at = λ d b e h. h }

  pub Keeps-or_raise : (o : Option A) (e : Error) → Keeps P (or_raise o e)
  Keeps-or_raise none e = record { at = λ d b q h. h }
  Keeps-or_raise (some a) e = record { at = λ d b q h. h }

  -- an action that only reads
  pub Keeps-read : (m : Session A) → ((d : Db) → (m d).1 ≡ d) → Keeps P m
  Keeps-read m same = record { at = λ d a e h. subst P (sym (same d)) h }

  pub Keeps-if : (b : Bool) (m n : Session A) → Keeps P m → Keeps P n → Keeps P (if b then m else n)
  Keeps-if true m n km kn = km
  Keeps-if false m n km kn = kn

pub Keeps-raise_if : {P : Db → Type 0} (b : Bool) (e : Error) → Keeps P (raise_if b e)
Keeps-raise_if true e = record { at = λ d a q h. h }
Keeps-raise_if false e = record { at = λ d a q h. h }

pub Keeps-write : {P : Db → Type 0} (f : Db → Db) → ((d : Db) → P d → P (f d)) → Keeps P (write f)
Keeps-write f keep = record { at = λ d a q h. keep d h }

module _ {A B : Type 0} (P : Db → Type 0) where
  bind_result-Keeps :
      (r : Result A) (f : A → Session B) (d : Db) (b : B)
      → ((a : A) → r ≡ ok a → Keeps P (f a))
      → (bind_result r f d).0 ≡ ok b
      → P d
      → P (bind_result r f d).1
  bind_result-Keeps (ok a) f d b kf e h = (kf a refl).at d b e h
  bind_result-Keeps (err x) f d b kf e h = cc

  -- the first action returned, so what it wrote keeps `P`
  first-Keeps :
      (r : Result A) (f : A → Session B) (d d' : Db) (b : B)
      → ((a : A) → r ≡ ok a → P d → P d')
      → (bind_result r f d').0 ≡ ok b
      → P d
      → P d'
  first-Keeps (ok a) f d d' b km e h = km a refl h
  first-Keeps (err x) f d d' b km e h = cc

module _ {A B : Type 0} {P : Db → Type 0} where
  pub Keeps-bind :
      (m : Session A) (f : A → Session B)
      → Keeps P m
      → ((a : A) → Keeps P (f a))
      → Keeps P (m >>= f)
  Keeps-bind m f km kf = record {
    at = λ d b e h.
        bind_result-Keeps P (m d).0 f (m d).1 b (λ a _. kf a) e
          (first-Keeps P (m d).0 f d (m d).1 b (km.at d) e h);
  }

  -- The rest may use that the check was passed.
  pub Keeps-bind_lift :
      (r : Result A) (f : A → Session B)
      → ((a : A) → r ≡ ok a → Keeps P (f a))
      → Keeps P (lift r >>= f)
  Keeps-bind_lift r f kf = record { at = λ d b e h. bind_result-Keeps P r f d b kf e h }

pub ruleset keeps_rules = (
  Keeps-pure, Keeps-raise, Keeps-gets, Keeps-lift, Keeps-or_raise, Keeps-if, Keeps-raise_if,
  Keeps-bind,
)

-- An endpoint of the API commits where the service returned; where it raised, the session is closed
-- and what it wrote is gone.
unfoldable pub committed : {A : Type 0} → Session A → Db → Db
committed m d = elim (m d).0 [ ok _ ↦ flush_all (m d).1 | err _ ↦ d ]

committed_result :
    {A : Type 0} (P : Db → Type 0) (r : Result A) (d d' : Db)
    → ((a : A) → r ≡ ok a → P d → P (flush_all d'))
    → P d
    → P (elim r as (λ _. Db) [ ok _ ↦ flush_all d' | err _ ↦ d ])
committed_result P (ok a) d d' keep h = keep a refl h
committed_result P (err e) d d' keep h = h

-- What an action keeps where it returns, and a flush keeps, a commit keeps.
pub committed-keeps :
    {A : Type 0} (P : Db → Type 0) (m : Session A)
    → ((d : Db) → P d → P (flush_all d))
    → Keeps P m
    → (d : Db) → P d
    → P (committed m d)
unfolding committed
committed-keeps P m flushes km d h =
    committed_result P (m d).0 d (m d).1 (λ a e p. flushes (m d).1 (km.at d a e p)) h
