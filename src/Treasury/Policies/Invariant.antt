-- ===== src/Treasury/Policies/Invariant.antt =====
-- Every operation on the policies but one keeps each stored policy valid, after a commit. The
-- exception is resuming all (Resuming.antt).
use tallykeep.Prelude.{ℕ, List, [], ◌∷◌}
use tallykeep.Domain.Sweep.{policy_key}
use tallykeep.Db.{Db}
use tallykeep.Db.Session.{Session}
use tallykeep.Db.Keeps.{Keeps, committed, committed-keeps}
use tallykeep.Repositories.Policies.{PolicyPatch}
use tallykeep.Treasury.Policies.{
  NewPolicy, create_sweep_policy, update_sweep_policy, enable_sweep_policy, disable_sweep_policy,
  acknowledge_warnings, delete_sweep_policy, pause_all_policies,
}
use tallykeep.Treasury.Policies.Valid.{ArePolicies}
use tallykeep.Treasury.Policies.Keeping.{
  create_sweep_policy-Keeps, update_sweep_policy-Keeps, delete_sweep_policy-Keeps,
  enable_sweep_policy-Keeps, disable_sweep_policy-Keeps, acknowledge_warnings-Keeps,
  pause_all-Keeps, flush_all-ArePolicies,
}

-- the requests to the API that write a policy, but for resuming all
pub data PolicyRequest : Type 0 where
  create : ℕ → NewPolicy → PolicyRequest
  update : ℕ → PolicyPatch → PolicyRequest
  remove : ℕ → PolicyRequest
  enable : ℕ → PolicyRequest
  disable : ℕ → PolicyRequest
  acknowledge_all : ℕ → PolicyRequest
  pause : PolicyRequest

-- the database after the request, made at the time `now`
unfoldable pub serve : ℕ → PolicyRequest → Db → Db
serve now (create new_id n) = committed (create_sweep_policy now new_id n)
serve now (update id u) = committed (update_sweep_policy now id u)
serve now (remove id) = committed (delete_sweep_policy id)
serve now (enable id) = committed (enable_sweep_policy now id)
serve now (disable id) = committed (disable_sweep_policy now id)
serve now (acknowledge_all id) = committed (acknowledge_warnings now id)
serve now pause = committed (pause_all_policies now)

committed-ArePolicies :
    {A : Type 0} (m : Session A)
    → Keeps ArePolicies m
    → (d : Db) → ArePolicies d
    → ArePolicies (committed m d)
committed-ArePolicies m km d h = committed-keeps ArePolicies m flush_all-ArePolicies km d h

-- a request keeps the stored policies valid
pub serve-ArePolicies :
    (now : ℕ) (r : PolicyRequest) (d : Db) → ArePolicies d → ArePolicies (serve now r d)
unfolding serve pause_all_policies
serve-ArePolicies now (create new_id n) d h =
    committed-ArePolicies _ (create_sweep_policy-Keeps now new_id n) d h
serve-ArePolicies now (update id u) d h =
    committed-ArePolicies _ (update_sweep_policy-Keeps now id u) d h
serve-ArePolicies now (remove id) d h = committed-ArePolicies _ (delete_sweep_policy-Keeps id) d h
serve-ArePolicies now (enable id) d h =
    committed-ArePolicies _ (enable_sweep_policy-Keeps now id) d h
serve-ArePolicies now (disable id) d h =
    committed-ArePolicies _ (disable_sweep_policy-Keeps now id) d h
serve-ArePolicies now (acknowledge_all id) d h =
    committed-ArePolicies _ (acknowledge_warnings-Keeps now id) d h
serve-ArePolicies now pause d h = committed-ArePolicies _ (pause_all-Keeps now) d h

-- the requests, each with its time, in the order in which they are served
unfoldable pub serve_all : List (ℕ × PolicyRequest) → Db → Db
serve_all [] d = d
serve_all ((now, r) ∷ rs) d = serve_all rs (serve now r d)

-- Whatever requests are served, in whatever order, but for resuming all policies: where every stored
-- policy is valid before, every stored policy is valid after. So each can be read back, and none is
-- enabled with an unacknowledged warning.
pub serve_all-ArePolicies :
    (rs : List (ℕ × PolicyRequest)) (d : Db) → ArePolicies d → ArePolicies (serve_all rs d)
unfolding serve_all
serve_all-ArePolicies [] d h = h
serve_all-ArePolicies ((now, r) ∷ rs) d h =
    serve_all-ArePolicies rs (serve now r d) (serve-ArePolicies now r d h)
