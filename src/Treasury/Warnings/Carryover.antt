-- ===== src/Treasury/Warnings/Carryover.antt =====
-- How acknowledgements carry over when the warnings of a policy are computed again.
use text.Mathlib.TextPositions.{eq_refl}
use tallykeep.Prelude.{
  ◌≡◌, refl, subst, sym, Bool, true, false, Option, none, some, List, [], ◌∷◌, map, arith, ℤ,
  String, any_of, if◌then◌else◌, All, Bool-cases, inl, inr,
}
use tallykeep.Domain.Enums.{SafetyWarningKind, same_kind}
use tallykeep.Domain.Holding.{Holding}
use tallykeep.Domain.Sweep.{SafetyWarning, unacknowledged}
use tallykeep.Domain.Provider.{CustodialProvider}
use tallykeep.Repositories.Policies.{acknowledge}
use tallykeep.Treasury.Warnings.{
  acked, same_warning, run_checks, compute_safety_warnings, Check, checks, warning_of,
}

-- some warning of the list has this kind and this message
abbrev lists : List SafetyWarning → SafetyWarningKind → String → Bool
lists ws k m = any_of (same_warning k m) ws

acked-acknowledge :
    (ws : List SafetyWarning) (k : SafetyWarningKind) (m : String)
    → acked (map acknowledge ws) k m ≡ (if lists ws k m then some true else none)
unfolding acked
acked-acknowledge [] k m = refl
acked-acknowledge (w ∷ ws) k m = ground (arith, acked-acknowledge ws k m)

same_kind_refl : (k : SafetyWarningKind) → same_kind k k ≡ true
same_kind_refl k = ground arith

-- what `c` reports, if it applies, is in the list
abbrev IsListed : List SafetyWarning → Check → Type 0
IsListed ws c = c.applies ≡ true → lists ws c.kind c.message ≡ true

All-IsListed_cons :
    (w : SafetyWarning) (ws : List SafetyWarning) (cs : List Check)
    → All (IsListed ws) cs
    → All (IsListed (w ∷ ws)) cs
All-IsListed_cons w ws [] h = tt
All-IsListed_cons w ws (c ∷ cs) h = ((λ a. ground (arith, h.0 a)), All-IsListed_cons w ws cs h.1)

run_checks-applies :
    (existing : List SafetyWarning) (c : Check) (cs : List Check)
    → c.applies ≡ true
    → run_checks existing (c ∷ cs) ≡ warning_of existing c ∷ run_checks existing cs
unfolding run_checks
run_checks-applies existing c cs h = rw h

run_checks-not_applies :
    (existing : List SafetyWarning) (c : Check) (cs : List Check)
    → c.applies ≡ false
    → run_checks existing (c ∷ cs) ≡ run_checks existing cs
unfolding run_checks
run_checks-not_applies existing c cs h = rw h

-- the checks report all that applies
run_checks-IsListed :
    (existing : List SafetyWarning) (cs : List Check) → All (IsListed (run_checks existing cs)) cs
run_checks-IsListed existing [] = tt
run_checks-IsListed existing (c ∷ cs) = elim (Bool-cases c.applies) [
  | inl e ↦
      subst (λ ws. All (IsListed ws) (c ∷ cs)) (sym (run_checks-applies existing c cs e))
        (
          (λ a. ground (arith, same_kind_refl c.kind, eq_refl c.message)),
          All-IsListed_cons (warning_of existing c) _ cs (run_checks-IsListed existing cs),
        )
  | inr e ↦
      subst (λ ws. All (IsListed ws) (c ∷ cs)) (sym (run_checks-not_applies existing c cs e))
        ((λ a. cc), run_checks-IsListed existing cs)
]

-- where all that applies is acknowledged already, the checks report it as acknowledged
unacknowledged-run_checks :
    (ws : List SafetyWarning) (cs : List Check)
    → All (IsListed ws) cs
    → unacknowledged (run_checks (map acknowledge ws) cs) ≡ []
unfolding run_checks
unacknowledged-run_checks ws [] h = refl
unacknowledged-run_checks ws (c ∷ cs) h =
    ground (arith, acked-acknowledge ws c.kind c.message, h.0, unacknowledged-run_checks ws cs h.1)

-- Once every warning of a policy is acknowledged, computing the warnings again from the same
-- holdings, cap and provider leaves none unacknowledged.
pub compute_safety_warnings-acknowledged :
    (src dst : Holding) (cap : Option ℤ) (provider : Option CustodialProvider)
    (existing : List SafetyWarning)
    → let ws = compute_safety_warnings src dst cap provider existing in
      unacknowledged (compute_safety_warnings src dst cap provider (map acknowledge ws)) ≡ []
unfolding compute_safety_warnings
compute_safety_warnings-acknowledged src dst cap provider existing =
    let cs = checks src dst cap provider in
    unacknowledged-run_checks (run_checks existing cs) cs (run_checks-IsListed existing cs)
