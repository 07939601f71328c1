-- ===== src/Db/Session.antt =====
-- Service functions as actions on the session: state, and an exception that keeps what was written.
use tallykeep.Prelude.{◌≡◌, refl, sym, subst, Bool, true, false, Option, none, some}
use tallykeep.Errors.{Error, Result, ok, err}
use tallykeep.Db.{Db, flush_all}

abbrev pub Session : Type 0 → Type 0
Session A = Db → Result A × Db

module _ {A : Type 0} where
  abbrev pub pure : A → Session A
  pure a d = (ok a, d)

  abbrev pub raise : Error → Session A
  raise e d = (err e, d)

  -- a query
  abbrev pub gets : (Db → A) → Session A
  gets f d = (ok (f d), d)

  -- a pure step that may raise
  abbrev pub lift : Result A → Session A
  lift r d = (r, d)

  -- `if x is None: raise e`
  abbrev pub or_raise : Option A → Error → Session A
  or_raise none e = raise e
  or_raise (some a) e = pure a

abbrev pub bind_result : {A B : Type 0} → Result A → (A → Session B) → Session B
bind_result (ok a) f d = f a d
bind_result (err e) f d = (err e, d)

infixl 5 ◌>>=◌ ◌>>◌
abbrev pub ◌>>=◌ : {A B : Type 0} → Session A → (A → Session B) → Session B
◌>>=◌ m f d = bind_result (m d).0 f (m d).1

abbrev pub ◌>>◌ : {A B : Type 0} → Session A → Session B → Session B
m >> k = m >>= λ _. k

-- `if b: raise e`
abbrev pub raise_if : Bool → Error → Session (Unit {0})
raise_if true e d = (err e, d)
raise_if false e d = (ok tt, d)

abbrev pub write : (Db → Db) → Session (Unit {0})
write f d = (ok tt, f d)

abbrev pub flush_session : Session (Unit {0})
flush_session d = (ok tt, flush_all d)

-- an action that is followed by a raise leaves what it wrote
pub bind_raise_state :
    {A : Type 0} (B : Type 0) (r : Result A) (e : Error) (d : Db)
    → (bind_result r (λ _. raise {A = B} e) d).1 ≡ d
bind_raise_state B (ok a) e d = refl
bind_raise_state B (err x) e d = refl

-- the database after a write and a check of what it returned
pub bind_or_raise_state :
    {A : Type 0} (r : Result (Option A)) (e : Error) (d : Db)
    → (bind_result r (λ u. or_raise u e) d).1 ≡ d
bind_or_raise_state (ok none) e d = refl
bind_or_raise_state (ok (some a)) e d = refl
bind_or_raise_state (err x) e d = refl

-- A property of the database after a check or a query, and then the rest.
module _ {A B : Type 0} (P : Db → Type 0) (d : Db) (h : P d) where
  bind_result-state :
      (r : Result A) (f : A → Session B)
      → ((a : A) → r ≡ ok a → P (f a d).1)
      → P (bind_result r f d).1
  bind_result-state (ok a) f rest = rest a refl
  bind_result-state (err e) f rest = h

  pub state_read :
      (m : Session A) (f : A → Session B)
      → (m d).1 ≡ d
      → ((a : A) → (m d).0 ≡ ok a → P (f a d).1)
      → P ((m >>= f) d).1
  state_read m f same rest =
      subst (λ d'. P (bind_result (m d).0 f d').1) (sym same) (bind_result-state (m d).0 f rest)

  pub state_or_raise :
      (o : Option A) (e : Error) (f : A → Session B)
      → ((a : A) → o ≡ some a → P (f a d).1)
      → P ((or_raise o e >>= f) d).1
  state_or_raise none e f rest = h
  state_or_raise (some a) e f rest = rest a refl

pub state_raise_if :
    {B : Type 0} (P : Db → Type 0) (d : Db)
    → P d
    → (b : Bool) (e : Error) (f : Unit {0} → Session B) → (b ≡ false → P (f tt d).1)
    → P ((raise_if b e >>= f) d).1
state_raise_if P d h true e f rest = h
state_raise_if P d h false e f rest = rest refl

-- a property of the database after a write, and after the rest
pub state_bind :
    {A B : Type 0} (P : Db → Type 0) (m : Session A) (f : A → Session B) (d : Db)
    → P (m d).1
    → ((a : A) → P (f a (m d).1).1)
    → P ((m >>= f) d).1
state_bind P m f d h rest = bind_result-state P (m d).1 h (m d).0 f (λ a _. rest a)

-- the database after an action that is committed where it returns, and rolled back where it raises
abbrev pub kept_if : {A : Type 0} → Result A → Db → Db → Result A × Db
kept_if (ok a) d d' = (ok a, d')
kept_if (err e) d d' = (err e, d)

abbrev pub in_transaction : {A : Type 0} → Session A → Session A
in_transaction m d = kept_if (m d).0 d (m d).1

pub state_in_transaction :
    {A : Type 0} (P : Db → Type 0) (m : Session A) (d : Db)
    → P d
    → P (m d).1
    → P (in_transaction m d).1
state_in_transaction {A = A} P m d h h' = kept (m d).0
  where
    kept : (r : Result A) → P (kept_if r d (m d).1).1
    kept (ok a) = h'
    kept (err e) = h
