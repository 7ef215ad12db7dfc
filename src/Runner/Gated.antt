-- ===== src/Runner/Gated.antt =====
-- Nothing happens before the policy gate of packages/pipeline/runner.py.
use gaussian_os.Prelude.{
  String, true, false, ◌≡◌, ◌≢◌, refl, Option, none, some, Result, ok, err, arith, Bool-cases, inl,
  inr,
}
use gaussian_os.Contracts.Manifest.{PluginManifest}
use gaussian_os.Contracts.Request.{StageRequest}
use gaussian_os.Licensing.Policy.{ProfilePolicy}
use gaussian_os.Licensing.Evaluate.{PolicyDecision}
use gaussian_os.Licensing.Registry.{Policies, RegistryError, new_registry, get_policy, enforce}
use gaussian_os.Licensing.Gate.{IsPermitted}
use gaussian_os.Licensing.Closed.{enforce-IsPermitted}
use gaussian_os.Store.World.{World}
use gaussian_os.Runner.Contract.{request_manifest_error}
use gaussian_os.Runner.Failure.{Failure}
use gaussian_os.Runner.Meeting.{Runner, Meeting}
use gaussian_os.Runner.Precheck.{
  precheck, token_check, time_check, contract_check, policy_check, is_positive, is_expired,
}
use gaussian_os.Runner.Run.{run, run_checked}

-- What holds of a call that `precheck` lets through.
pub record IsCleared (s : Runner) (q : StageRequest) (m : PluginManifest) (e : Meeting)
    : Type 0 where
  pub not_cancelled : e.cancelled ≡ none
  pub timed : is_positive e.timeout ≡ true
  pub in_time : is_expired q.deadline_utc e.started_at ≡ false
  pub matches : request_manifest_error q m ≡ none
  pub decision : PolicyDecision
  pub enforced : enforce s.registry m q.profile ≡ ok decision

policy_none :
    (s : Runner) (r : Result RegistryError PolicyDecision)
    → policy_check s r ≡ none
    → (d : PolicyDecision) × (r ≡ ok d)
policy_none s (ok d) h = (d, refl)
policy_none s (err x) h = ground arith

module _ (s : Runner) (q : StageRequest) (m : PluginManifest) (e : Meeting) where
  contract_none :
      (o : Option String)
      → contract_check s q m o ≡ none
      → (o ≡ none) × (policy_check s (enforce s.registry m q.profile) ≡ none)
  contract_none none h = (refl, h)
  contract_none (some message) h = ground arith

  time_none :
      time_check s q m e ≡ none
      → (is_positive e.timeout ≡ true)
        × (is_expired q.deadline_utc e.started_at ≡ false)
        × (contract_check s q m (request_manifest_error q m) ≡ none)
  time_none h = elim (Bool-cases (is_positive e.timeout)) [
    | inl positive ↦ elim (Bool-cases (is_expired q.deadline_utc e.started_at)) [
      | inl expired ↦ absurd (some_not_none (rw (positive, expired) at h))
      | inr early ↦ (positive, early, rw (positive, early) at h)
    ]
    | inr none_left ↦ absurd (some_not_none (rw none_left at h))
  ]
    where
      some_not_none : {A : Type 0} {a : A} → some a ≡ none → ⊥
      some_not_none h = cc

  token_none :
      (o : Option String) → token_check s q m e o ≡ none → (o ≡ none) × (time_check s q m e ≡ none)
  token_none none h = (refl, h)
  token_none (some reason) h = ground arith

  precheck-IsCleared : precheck s q m e ≡ none → IsCleared s q m e
  unfolding precheck
  precheck-IsCleared h =
      let token = token_none e.cancelled h in
      let time = time_none token.1 in
      let contract = contract_none (request_manifest_error q m) time.2 in
      let policy = policy_none s (enforce s.registry m q.profile) contract.1 in
      record {
        not_cancelled = token.0;
        timed = time.0;
        in_time = time.1;
        matches = contract.0;
        decision = policy.0;
        enforced = policy.1;
      }

  checked : (o : Option Failure) (w : World) → (run_checked s q m e o w).1 ≢ w → o ≡ none
  checked none w changed = refl
  checked (some f) w changed = absurd (changed refl)

  -- A call of `run` that changes anything below the store's root was not cancelled and not late,
  -- its request matches the plugin's manifest, and the registry's policy for the request's own
  -- profile permits the plugin.
  pub run_gated :
      (ps : Policies) (w : World)
      → new_registry ps ≡ ok s.registry
      → (run s q m e w).1 ≢ w
      → IsCleared s q m e
        × ((policy : ProfilePolicy) × (get_policy q.profile (s.registry).policies ≡ some policy)
            × (policy.profile ≡ q.profile)
            × IsPermitted m policy q.profile)
  unfolding run
  run_gated ps w built changed =
      let cleared = precheck-IsCleared (checked (precheck s q m e) w changed) in
      (
        cleared,
        enforce-IsPermitted ps s.registry m q.profile cleared.decision built cleared.enforced,
      )
