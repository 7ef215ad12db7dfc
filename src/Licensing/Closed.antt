-- ===== src/Licensing/Closed.antt =====
-- The registry and the loaded policies of packages/licensing/policy.py fail closed.
use gaussian_os.Prelude.{
  String, true, false, ◌≡◌, refl, Option, none, some, List, [], ◌∷◌, ◌==◌, all, arith, ok,
  Option-cases, inl, inr, Bool-cases, string_eq, collect,
}
use gaussian_os.Contracts.Kinds.{ExecutionProfile, profile_eq}
use gaussian_os.Contracts.Manifest.{PluginManifest}
use gaussian_os.Licensing.Policy.{
  PolicyFault, ProfilePolicy, policy_faults, policy_rule, policy_fields, then_rule,
}
use gaussian_os.Licensing.Evaluate.{PolicyDecision, evaluate_plugin_policy, enforce_plugin_policy}
use gaussian_os.Licensing.Gate.{IsPermitted, evaluate_iff}
use gaussian_os.Licensing.Registry.{
  Policies, ProfilePolicyRegistry, new_registry, get_policy, decided, enforce,
}

-- What the registry finds under a profile is a policy for that profile.
get_policy-profile :
    (profile : ExecutionProfile) (ps : Policies) (policy : ProfilePolicy)
    → all (λ (entry : ExecutionProfile × ProfilePolicy). entry.0 == (entry.1).profile) ps ≡ true
    → get_policy profile ps ≡ some policy
    → profile ≡ policy.profile
unfolding get_policy
get_policy-profile profile [] policy h e = ground arith
get_policy-profile profile ((key, p) ∷ ps) policy h e = ground (
  arith,
  profile_eq.beq_iff profile key,
  profile_eq.beq_iff key p.profile,
  get_policy-profile profile ps policy,
)

new_registry-keys :
    (ps : Policies) (r : ProfilePolicyRegistry)
    → new_registry ps ≡ ok r
    → all (λ (entry : ExecutionProfile × ProfilePolicy). entry.0 == (entry.1).profile) r.policies
      ≡ true
unfolding new_registry
new_registry-keys ps r h = ground arith

decided_ok :
    (m : PluginManifest) (policy : ProfilePolicy) (profile : ExecutionProfile) (d : PolicyDecision)
    → decided (enforce_plugin_policy m policy profile) ≡ ok d
    → (evaluate_plugin_policy m policy profile).allowed ≡ true
unfolding enforce_plugin_policy
decided_ok m policy profile d h = ground arith

-- Whatever a registry was built from: if `enforce` lets a plugin through under a profile, the
-- registry holds a policy for that very profile and that policy permits the plugin.
pub enforce-IsPermitted :
    (ps : Policies) (r : ProfilePolicyRegistry) (m : PluginManifest) (profile : ExecutionProfile)
    (d : PolicyDecision)
    → new_registry ps ≡ ok r
    → enforce r m profile ≡ ok d
    → (policy : ProfilePolicy) × (get_policy profile r.policies ≡ some policy)
      × (policy.profile ≡ profile)
      × IsPermitted m policy profile
unfolding enforce
enforce-IsPermitted ps r m profile d built h = elim (Option-cases (get_policy profile r.policies)) [
  | inl e ↦ ground arith
  | inr (policy, e) ↦ (
    policy,
    e,
    cc (get_policy-profile profile r.policies policy (new_registry-keys ps r built) e),
    (evaluate_iff m policy profile).0 (decided_ok m policy profile d (ground arith)),
  )
]

rule_of_faults :
    (fields : List PolicyFault) (rule : Option PolicyFault)
    → then_rule fields rule ≡ []
    → rule ≡ none
rule_of_faults [] none h = refl
rule_of_faults [] (some f) h = ground arith
rule_of_faults (f ∷ fs) rule h = ground arith

no_research :
    (p : ProfilePolicy)
    → policy_rule p ≡ none
    → p.profile ≡ ExecutionProfile.production
    → p.allow_research_only ≡ false
unfolding policy_rule
no_research p h e = ground arith

-- No policy that loads for the production profile lets a research-only plugin through, whatever
-- the plugin's manifest and the rest of the policy say.
pub production_refuses_research :
    (casefold : String → String) (p : ProfilePolicy) (m : PluginManifest)
    (requested : ExecutionProfile)
    → policy_faults casefold p ≡ []
    → p.profile ≡ ExecutionProfile.production
    → m.research_only ≡ true
    → (evaluate_plugin_policy m p requested).allowed ≡ false
unfolding policy_faults
production_refuses_research casefold p m requested loaded production research =
    elim (Bool-cases (evaluate_plugin_policy m p requested).allowed) [
      | inl yes_allowed ↦
          let permitted = (evaluate_iff m p requested).0 yes_allowed in
          let closed =
            no_research p
              (rule_of_faults (collect (policy_fields casefold p)) (policy_rule p) loaded)
              production in
          cc (permitted.research research)
      | inr refused ↦ refused
    ]
