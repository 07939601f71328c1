-- ===== src/Db/After.antt =====
-- What holds of the result and of the database when an action has returned: nothing is said of a raise.
use tallykeep.Prelude.{arith, ◌≡◌, refl, sym, subst, Bool, true, false}
use tallykeep.Errors.{Error, Result, ok, err}
use tallykeep.Db.{Db}
use tallykeep.Db.Session.{Session, pure, lift, raise_if, bind_result, ◌>>=◌}

-- The run of `m` on `d` raises, or returns as `Q` says.
pub record After {A : Type 0} (Q : A → Db → Type 0) (m : Session A) (d : Db) : Type 0 where
  pub returned : (a : A) → (m d).0 ≡ ok a → Q a (m d).1

module _ {A B : Type 0} {Q : B → Db → Type 0} (d : Db) where
  bind_result-returned :
      (r : Result A) (f : A → Session B)
      → ((a : A) → r ≡ ok a → After Q (f a) d)
      → (b : B) → (bind_result r f d).0 ≡ ok b
      → Q b (bind_result r f d).1
  bind_result-returned (ok a) f rest b h = (rest a refl).returned b h
  bind_result-returned (err e) f rest b h = ground arith

  -- a pure step, and then the rest
  pub After-lift :
      (r : Result A) (f : A → Session B)
      → ((a : A) → r ≡ ok a → After Q (f a) d)
      → After Q (lift r >>= f) d
  After-lift r f rest = record { returned = bind_result-returned r f rest }

  -- an action that leaves the database as it is, and then the rest
  pub After-read :
      (m : Session A) (f : A → Session B)
      → (m d).1 ≡ d
      → ((a : A) → After Q (f a) d)
      → After Q (m >>= f) d
  After-read m f same rest = record {
    returned = λ b.
        subst (λ x. (bind_result (m d).0 f x).0 ≡ ok b → Q b (bind_result (m d).0 f x).1) (sym same)
          (bind_result-returned (m d).0 f (λ a _. rest a) b);
  }

pub After-raise_if :
    {B : Type 0} {Q : B → Db → Type 0} (d : Db) (b : Bool) (e : Error) (f : Unit {0} → Session B)
    → After Q (f tt) d
    → After Q (raise_if b e >>= f) d
After-raise_if d true e f rest = record { returned = λ b h. ground arith }
After-raise_if d false e f rest = record { returned = rest.returned }

-- an action and its postcondition, and then the rest
pub After-bind :
    {A B : Type 0} {P : A → Db → Type 0} {Q : B → Db → Type 0} (m : Session A) (f : A → Session B)
    (d : Db)
    → After P m d
    → ((a : A) (d' : Db) → P a d' → After Q (f a) d')
    → After Q (m >>= f) d
After-bind m f d first rest = record {
  returned = bind_result-returned (m d).1 (m d).0 f (λ a h. rest a (m d).1 (first.returned a h));
}

pub After-pure : {A : Type 0} {Q : A → Db → Type 0} (a : A) (d : Db) → Q a d → After Q (pure a) d
After-pure {A = A} {Q = Q} a d h = record {
  returned = λ b e. subst (λ x. Q x d) (returned_same a b e) h;
}
  where
    returned_same : (a b : A) → ◌≡◌ {A = Result A} (ok a) (ok b) → a ≡ b
    returned_same a b e = cc

pub raise_if-reads : (b : Bool) (e : Error) (d : Db) → (raise_if b e d).1 ≡ d
raise_if-reads true e d = refl
raise_if-reads false e d = refl

-- a pure step, and then a read
pub lift-reads :
    {A B : Type 0} (r : Result A) (f : A → Session B) (d : Db)
    → ((a : A) → (f a d).1 ≡ d)
    → ((lift r >>= f) d).1 ≡ d
lift-reads (ok a) f d rest = rest a
lift-reads (err e) f d rest = refl
