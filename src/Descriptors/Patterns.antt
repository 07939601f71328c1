-- ===== src/Descriptors/Patterns.antt =====
-- Python's regular expressions, as far as backend/tallykeep/adapters/descriptor_adapter.py uses them:
-- matchers on texts of code points. A matcher lists what it can match, what Python tries first in front,
-- so that a later part of the pattern goes back to the next. The classes of characters are those of ASCII.
use tallykeep.Prelude.{
  ℕ, zero, suc, ◌-◌, ◌==◌, leb, String, Bool, ◌&&◌, ◌||◌, Option, none, some, List, [], ◌∷◌, ◌++◌,
  if◌then◌else◌, length,
}
use Prim.Native.Char.{code}

-- the code points of a text
abbrev pub codes : String → List ℕ
codes String.[] = []
codes (String.◌∷◌ c s) = code c ∷ codes s

-- what was matched, and the rest of the text
abbrev pub Matcher : Type 0 → Type 0
Matcher A = List ℕ → List (A × List ℕ)

unfoldable pub each_rest : {A B : Type 0} → (A → Matcher B) → List (A × List ℕ) → List (B × List ℕ)
each_rest next [] = []
each_rest next ((a, rest) ∷ more) = next a rest ++ each_rest next more

infixl 5 ◌>>=◌ ◌>>◌
abbrev pub ◌>>=◌ : {A B : Type 0} → Matcher A → (A → Matcher B) → Matcher B
(m >>= next) s = each_rest next (m s)

abbrev pub ◌>>◌ : {A B : Type 0} → Matcher A → Matcher B → Matcher B
m >> next = m >>= λ _. next

abbrev pub matched : {A : Type 0} → A → Matcher A
matched a s = (a, s) ∷ []

-- `m|n`
infixr 4 ◌<|>◌
abbrev pub ◌<|>◌ : {A : Type 0} → Matcher A → Matcher A → Matcher A
(m <|> n) s = m s ++ n s

-- `(?:m)?`
abbrev pub optional : Matcher (Unit {0}) → Matcher (Unit {0})
optional m = m <|> matched tt

abbrev pub one_of : (ℕ → Bool) → Matcher ℕ
one_of p [] = []
one_of p (c ∷ s) = if p c then (c, s) ∷ [] else []

unfoldable pub exactly : List ℕ → Matcher (Unit {0})
exactly [] s = (tt, s) ∷ []
exactly (c ∷ cs) [] = []
exactly (c ∷ cs) (x ∷ s) = let rest = exactly cs s in if c == x then rest else []

unfoldable pub prepend_all : ℕ → List (List ℕ × List ℕ) → List (List ℕ × List ℕ)
prepend_all c [] = []
prepend_all c ((cs, s) ∷ more) = (c ∷ cs, s) ∷ prepend_all c more

-- `[...]*`
unfoldable pub any_number : (ℕ → Bool) → Matcher (List ℕ)
any_number p [] = ([], []) ∷ []
any_number p (c ∷ s) =
    let longer = any_number p s in
    if p c then prepend_all c longer ++ ([], c ∷ s) ∷ [] else ([], c ∷ s) ∷ []

-- `[...]+`
abbrev pub at_least_one : (ℕ → Bool) → Matcher (List ℕ)
at_least_one p = one_of p >>= λ c. any_number p >>= λ cs. matched (c ∷ cs)

-- `[...]{0,n}`
unfoldable pub up_to : ℕ → (ℕ → Bool) → Matcher (List ℕ)
up_to zero p s = ([], s) ∷ []
up_to (suc n) p [] = ([], []) ∷ []
up_to (suc n) p (c ∷ s) =
    let longer = up_to n p s in
    if p c then prepend_all c longer ++ ([], c ∷ s) ∷ [] else ([], c ∷ s) ∷ []

-- `[...]{n}`
unfoldable pub times : ℕ → (ℕ → Bool) → Matcher (List ℕ)
times zero p s = ([], s) ∷ []
times (suc n) p [] = []
times (suc n) p (c ∷ s) = let longer = times n p s in if p c then prepend_all c longer else []

-- `$`
abbrev pub at_end : Matcher (Unit {0})
at_end [] = (tt, []) ∷ []
at_end (c ∷ []) = if c == 10 then (tt, c ∷ []) ∷ [] else []
at_end (_ ∷ _ ∷ _) = []

abbrev pub first_of : {A : Type 0} → List (A × List ℕ) → Option A
first_of [] = none
first_of ((a, _) ∷ _) = some a

-- `re.search`, where the matcher may ask for the character in front of the place
unfoldable pub search_after : {A : Type 0} → Option ℕ → (Option ℕ → Matcher A) → List ℕ → Option A
search_after before m [] = first_of (m before [])
search_after before m (c ∷ s) =
    let later = search_after (some c) m s in
    elim (first_of (m before (c ∷ s))) [ none ↦ later | some a ↦ some a ]

abbrev pub search : {A : Type 0} → Matcher A → List ℕ → Option A
search m s = search_after none (λ _. m) s

-- `re.findall`: no match overlaps the one before it, whose characters are skipped
unfoldable pub find_from : {A : Type 0} → ℕ → Matcher A → List ℕ → List A
find_from skipped m [] = []
find_from (suc n) m (c ∷ s) = find_from n m s
find_from zero m (c ∷ s) = elim (m (c ∷ s)) [
  | [] ↦ find_from zero m s
  | (a, rest) ∷ _ ↦ a ∷ find_from (length s - length rest) m s
]

abbrev pub find_all : {A : Type 0} → Matcher A → List ℕ → List A
find_all m s = find_from 0 m s

abbrev pub is_between : ℕ → ℕ → ℕ → Bool
is_between lo hi c = leb lo c && leb c hi

-- `\d`, `[a-zA-Z]`, `[a-zA-Z0-9]`, `\w` and `\s`
abbrev pub is_digit : ℕ → Bool
is_digit c = is_between 48 57 c

abbrev pub is_letter : ℕ → Bool
is_letter c = is_between 97 122 c || is_between 65 90 c

abbrev pub is_alphanumeric : ℕ → Bool
is_alphanumeric c = is_letter c || is_digit c

abbrev pub is_word : ℕ → Bool
is_word c = is_alphanumeric c || c == 95

abbrev pub is_space : ℕ → Bool
is_space c = c == 32 || is_between 9 13 c || is_between 28 31 c

abbrev pub spaces : Matcher (List ℕ)
spaces = any_number is_space

-- `\b` in front of a word
abbrev pub starts_word : Option ℕ → {A : Type 0} → Matcher A → Matcher A
starts_word none m = m
starts_word (some c) m = if is_word c then (λ _. []) else m
