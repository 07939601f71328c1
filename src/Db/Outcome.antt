-- ===== src/Db/Outcome.antt =====
-- Actions that write only when they return: a raise leaves the database as it was.
use tallykeep.Prelude.{
  ◌≡◌, refl, ap, sym, subst, ◌⊎◌, inl, inr, Bool, true, false, Option, none, some,
}
use tallykeep.Errors.{Error, Result, ok, err}
use tallykeep.Db.{Db}
use tallykeep.Db.Session.{Session, pure, raise, lift, gets, or_raise, raise_if, bind_result, ◌>>=◌}

-- The run of `m` on `d` raises and leaves `d`, or returns as `E` says.
pub record Outcome {A : Type 0} (E : A → Db → Type 0) (m : Session A) (d : Db) : Type 0 where
  pub outcome :
      ((e : Error) × (m d ≡ (err e, d))) ⊎ ((a : A) × (d' : Db) × (m d ≡ (ok a, d')) × E a d')

module _ {A : Type 0} {E : A → Db → Type 0} (d : Db) where
  pub Outcome-raise : (e : Error) → Outcome E (raise e) d
  Outcome-raise e = record { outcome = inl (e, refl) }

  pub Outcome-pure : (a : A) → E a d → Outcome E (pure a) d
  Outcome-pure a h = record { outcome = inr (a, d, refl, h) }

module _ {A B : Type 0} {E : B → Db → Type 0} (d : Db) where
  bind_result-Outcome :
      (r : Result A) (f : A → Session B)
      → ((a : A) → r ≡ ok a → Outcome E (f a) d)
      → Outcome E (λ d'. bind_result r f d') d
  bind_result-Outcome (ok a) f rest = record { outcome = (rest a refl).outcome }
  bind_result-Outcome (err e) f rest = record { outcome = inl (e, refl) }

  -- a check or a query, and then the rest
  pub Outcome-lift :
      (r : Result A) (f : A → Session B)
      → ((a : A) → r ≡ ok a → Outcome E (f a) d)
      → Outcome E (lift r >>= f) d
  Outcome-lift r f rest = record { outcome = (bind_result-Outcome r f rest).outcome }

  pub Outcome-gets :
      (g : Db → A) (f : A → Session B) → Outcome E (f (g d)) d → Outcome E (gets g >>= f) d
  Outcome-gets g f rest = record { outcome = rest.outcome }

  pub Outcome-or_raise :
      (o : Option A) (e : Error) (f : A → Session B)
      → ((a : A) → o ≡ some a → Outcome E (f a) d)
      → Outcome E (or_raise o e >>= f) d
  Outcome-or_raise none e f rest = record { outcome = inl (e, refl) }
  Outcome-or_raise (some a) e f rest = record { outcome = (rest a refl).outcome }

  -- an action that leaves the database as it is
  pub Outcome-read :
      (m : Session A) (f : A → Session B)
      → (m d).1 ≡ d
      → ((a : A) → (m d).0 ≡ ok a → Outcome E (f a) d)
      → Outcome E (m >>= f) d
  Outcome-read m f same rest = record {
    outcome =
        subst
          (λ d'.
            ((e : Error) × (bind_result (m d).0 f d' ≡ (err e, d)))
            ⊎ ((b : B) × (d'' : Db) × (bind_result (m d).0 f d' ≡ (ok b, d'')) × E b d''))
          (sym same) (bind_result-Outcome (m d).0 f rest).outcome;
  }

pub Outcome-raise_if :
    {B : Type 0} {E : B → Db → Type 0} (d : Db) (b : Bool) (e : Error) (f : Unit {0} → Session B)
    → (b ≡ false → Outcome E (f tt) d)
    → Outcome E (raise_if b e >>= f) d
Outcome-raise_if d true e f rest = record { outcome = inl (e, refl) }
Outcome-raise_if d false e f rest = record { outcome = (rest refl).outcome }

-- a write that returns the row it has written
pub Outcome-written :
    {A : Type 0} {E : A → Db → Type 0} (d : Db) (m : Session (Option A)) (e : Error) (a : A)
    (d' : Db)
    → m d ≡ (ok (some a), d')
    → E a d'
    → Outcome E (m >>= λ u. or_raise u e) d
Outcome-written d m e a d' run h = record {
  outcome = inr (a, d', ap (λ r. bind_result r.0 (λ u. or_raise u e) r.1) run, h);
}

-- a write that raises before it writes
pub Outcome-refused :
    {A : Type 0} {E : A → Db → Type 0} (d : Db) (m : Session (Option A)) (e raised : Error)
    → m d ≡ (err raised, d)
    → Outcome E (m >>= λ u. or_raise u e) d
Outcome-refused d m e raised run = record {
  outcome = inl (raised, ap (λ r. bind_result r.0 (λ u. or_raise u e) r.1) run);
}
