-- ===== src/Treasury/Policies/Keeping.antt =====
-- Which actions on the policies keep every stored policy valid, where they return.
use tallykeep.Prelude.{
  ℕ, ◌≡◌, refl, sym, subst, ◌∙◌, ap, Bool, true, false, Option, none, some, List, arith,
}
use tallykeep.Errors.{ok}
use tallykeep.Table.{get, modify}
use tallykeep.Table.Laws.{
  Everywhere-modify, Everywhere-update_where, Everywhere-delete, Everywhere-add, Everywhere-flush,
  get-modify,
}
use tallykeep.Domain.Holding.{Holding}
use tallykeep.Domain.Sweep.{SafetyWarning, SweepPolicy, policy_key, new_policy}
use tallykeep.Db.{Db, flush_all}
use tallykeep.Db.Session.{pure, lift, write, ◌>>=◌, ◌>>◌}
use tallykeep.Db.Keeps.{
  Keeps, keeps_rules, Keeps-pure, Keeps-bind, Keeps-bind_lift, Keeps-write, Keeps-read,
}
use tallykeep.Repositories.Providers.{provider_get}
use tallykeep.Repositories.Holdings.{get_holding, get_holding-unchanged}
use tallykeep.Repositories.Policies.{
  PolicyPatch, with_enabled, apply_patch, with_acknowledged, is_enabled_row, set_enabled,
  update_policy, acknowledge_all_warnings, write_policy, pause_all, policy_create, policy_delete,
  build_policy,
}
use tallykeep.Treasury.Policies.{
  NewPolicy, source_provider, recompute, new_warnings, create_sweep_policy, update_sweep_policy,
  get_sweep_policy, enable_sweep_policy, disable_sweep_policy, acknowledge_warnings,
  delete_sweep_policy,
}
use tallykeep.Treasury.Policies.Valid.{
  IsPolicy, ArePolicies, IsPolicy-new_policy, build_policy-some,
}
use tallykeep.Treasury.Policies.Enabling.{get_sweep_policy-unchanged}

-- What is written is read back, so an invalid row raises, and is not committed.
row-IsPolicy :
    (o : Option SweepPolicy) (r : SweepPolicy) → build_policy (some r) ≡ ok o → IsPolicy r
row-IsPolicy none r e = ground arith
row-IsPolicy (some p) r e = (build_policy-some r p e).1

pub write_policy-Keeps :
    (id : ℕ) (f : SweepPolicy → SweepPolicy)
    → ((p : SweepPolicy) → (f p).id ≡ p.id)
    → Keeps ArePolicies (write_policy id f)
write_policy-Keeps id f same = record {
  at = λ d o e h. record {
    policies =
        Everywhere-modify IsPolicy id f d.policies
          (λ r found _. row-IsPolicy o (f r) (ap build_policy (sym (stored d r found)) ∙ e))
          h.policies;
  };
}
  where
    stored :
        (d : Db) (r : SweepPolicy)
        → get id d.policies ≡ some r
        → get id (modify id f d.policies) ≡ some (f r)
    stored d r found = ground (arith, get-modify f same id id d.policies)

pub set_enabled-Keeps : (now id : ℕ) (b : Bool) → Keeps ArePolicies (set_enabled now id b)
unfolding set_enabled
set_enabled-Keeps now id b = write_policy-Keeps id (with_enabled now b) (λ p. refl)

pub update_policy-Keeps :
    (now id : ℕ) (u : PolicyPatch) (ws : Option (List SafetyWarning))
    → Keeps ArePolicies (update_policy now id u ws)
unfolding update_policy
update_policy-Keeps now id u ws = write_policy-Keeps id (apply_patch now u ws) (λ p. refl)

pub acknowledge_all_warnings-Keeps :
    (now id : ℕ) → Keeps ArePolicies (acknowledge_all_warnings now id)
unfolding acknowledge_all_warnings
acknowledge_all_warnings-Keeps now id = write_policy-Keeps id (with_acknowledged now) (λ p. refl)

pub policy_create-Keeps :
    (p : SweepPolicy) → IsPolicy p → Keeps ArePolicies (write (policy_create p))
unfolding policy_create
policy_create-Keeps p v =
    Keeps-write _ (λ d h. record { policies = Everywhere-add IsPolicy p d.policies v h.policies })

pub policy_delete-Keeps : (id : ℕ) → Keeps ArePolicies (write (policy_delete id))
unfolding policy_delete
policy_delete-Keeps id =
    Keeps-write _ (λ d h. record { policies = Everywhere-delete IsPolicy id d.policies h.policies })

disabled-IsPolicy : (now : ℕ) (p : SweepPolicy) → IsPolicy p → IsPolicy (with_enabled now false p)
disabled-IsPolicy now p v = record {
  two_holdings = v.two_holdings;
  minimum = v.minimum;
  cap = v.cap;
  acknowledged = λ e. cc;
}

pub pause_all-Keeps : (now : ℕ) → Keeps ArePolicies (pause_all now)
unfolding pause_all
pause_all-Keeps now = record {
  at = λ d n e h. record {
    policies =
        Everywhere-update_where IsPolicy is_enabled_row (with_enabled now false) d.policies
          (λ p v _. disabled-IsPolicy now p v) h.policies;
  };
}

pub get_holding-Keeps : (id : ℕ) → Keeps ArePolicies (get_holding id)
get_holding-Keeps id = Keeps-read (get_holding id) (get_holding-unchanged id)

pub get_sweep_policy-Keeps : (id : ℕ) → Keeps ArePolicies (get_sweep_policy id)
get_sweep_policy-Keeps id = Keeps-read (get_sweep_policy id) (get_sweep_policy-unchanged id)

pub source_provider-Keeps : (b : Bool) (id : Option ℕ) → Keeps ArePolicies (source_provider b id)
unfolding provider_get
source_provider-Keeps true (some id) = Keeps-read (provider_get id) (λ d. refl)
source_provider-Keeps true none = Keeps-pure none
source_provider-Keeps false id = Keeps-pure none

pub recompute-Keeps :
    (p : SweepPolicy) (u : PolicyPatch) (s t : Option Holding)
    → Keeps ArePolicies (recompute p u s t)
recompute-Keeps p u (some s) (some t) = search (keeps_rules, source_provider-Keeps)
recompute-Keeps p u (some s) none = Keeps-pure _
recompute-Keeps p u none t = Keeps-pure _

pub new_warnings-Keeps :
    (b : Bool) (p : SweepPolicy) (u : PolicyPatch) → Keeps ArePolicies (new_warnings b p u)
new_warnings-Keeps true p u = search (keeps_rules, get_holding-Keeps, recompute-Keeps)
new_warnings-Keeps false p u = Keeps-pure none

pub create_sweep_policy-Keeps :
    (now new_id : ℕ) (n : NewPolicy) → Keeps ArePolicies (create_sweep_policy now new_id n)
unfolding create_sweep_policy
create_sweep_policy-Keeps now new_id n =
    search (keeps_rules, get_holding-Keeps, source_provider-Keeps, stored-Keeps) depth 14
  where
    stored-Keeps :
        (p : SweepPolicy)
        → Keeps ArePolicies (lift (new_policy p) >>= λ q. write (policy_create q) >> pure q)
    stored-Keeps p = Keeps-bind_lift (new_policy p) _ (λ q e.
        Keeps-bind _ _
          (policy_create-Keeps q
            (subst IsPolicy (sym (IsPolicy-new_policy p q e).0) (IsPolicy-new_policy p q e).1))
          (λ _. Keeps-pure q))

pub update_sweep_policy-Keeps :
    (now id : ℕ) (u : PolicyPatch) → Keeps ArePolicies (update_sweep_policy now id u)
unfolding update_sweep_policy
update_sweep_policy-Keeps now id u =
    search (keeps_rules, get_sweep_policy-Keeps, new_warnings-Keeps, update_policy-Keeps)

pub delete_sweep_policy-Keeps : (id : ℕ) → Keeps ArePolicies (delete_sweep_policy id)
unfolding delete_sweep_policy
delete_sweep_policy-Keeps id = search (keeps_rules, get_sweep_policy-Keeps, policy_delete-Keeps)

pub enable_sweep_policy-Keeps : (now id : ℕ) → Keeps ArePolicies (enable_sweep_policy now id)
unfolding enable_sweep_policy
enable_sweep_policy-Keeps now id = search (keeps_rules, get_sweep_policy-Keeps, set_enabled-Keeps)

pub disable_sweep_policy-Keeps : (now id : ℕ) → Keeps ArePolicies (disable_sweep_policy now id)
unfolding disable_sweep_policy
disable_sweep_policy-Keeps now id = search (keeps_rules, get_sweep_policy-Keeps, set_enabled-Keeps)

pub acknowledge_warnings-Keeps : (now id : ℕ) → Keeps ArePolicies (acknowledge_warnings now id)
unfolding acknowledge_warnings
acknowledge_warnings-Keeps now id =
    search (keeps_rules, get_sweep_policy-Keeps, acknowledge_all_warnings-Keeps)

pub flush_all-ArePolicies : (d : Db) → ArePolicies d → ArePolicies (flush_all d)
flush_all-ArePolicies d h = record { policies = Everywhere-flush IsPolicy d.policies h.policies }
