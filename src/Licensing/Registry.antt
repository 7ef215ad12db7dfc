-- ===== src/Licensing/Registry.antt =====
-- `ProfilePolicyRegistry` of packages/licensing/policy.py.
use gaussian_os.Prelude.{
  Option, none, some, List, [], ◌∷◌, ◌++◌, ◌==◌, all, if◌then◌else◌, Result, ok, err,
}
use gaussian_os.Contracts.Kinds.{ExecutionProfile, profile_eq}
use gaussian_os.Contracts.Manifest.{PluginManifest}
use gaussian_os.Licensing.Policy.{ProfilePolicy}
use gaussian_os.Licensing.Evaluate.{PolicyDecision, enforce_plugin_policy}

abbrev pub Policies : Type 0
Policies = List (ExecutionProfile × ProfilePolicy)

pub data RegistryError : Type 0 where
  key_differs duplicate_policy : RegistryError
  load_failed : ExecutionProfile → RegistryError
  no_policy : ExecutionProfile → RegistryError
  refused : PolicyDecision → RegistryError

pub record ProfilePolicyRegistry : Type 0 where
  pub policies : Policies

-- `__init__`
unfoldable pub new_registry : Policies → Result RegistryError ProfilePolicyRegistry
new_registry policies =
    if all (λ (entry : ExecutionProfile × ProfilePolicy). entry.0 == (entry.1).profile) policies
    then ok (record { policies = policies })
    else err RegistryError.key_differs

unfoldable pub get_policy : ExecutionProfile → Policies → Option ProfilePolicy
get_policy profile [] = none
get_policy profile ((key, policy) ∷ rest) =
    if profile == key then some policy else get_policy profile rest

-- What stands in the directory under `<profile>.json`: no file, or what `load_profile_policy` makes
-- of the file, a policy or a ValueError.
pub data PolicyFile : Type 0 where
  missing unreadable : PolicyFile
  loaded : ProfilePolicy → PolicyFile

-- The loop of `from_directory`, over the profiles in the order of the enumeration
unfoldable pub collect_policies :
    (ExecutionProfile → PolicyFile)
    → List ExecutionProfile
    → Policies
    → Result RegistryError Policies
unfolding get_policy
collect_policies directory [] policies = ok policies
collect_policies directory (profile ∷ profiles) policies = elim (directory profile) [
  | missing ↦ collect_policies directory profiles policies
  | unreadable ↦ err (RegistryError.load_failed profile)
  | loaded policy ↦ elim (get_policy policy.profile policies) [
    | some other ↦ err RegistryError.duplicate_policy
    | none ↦ collect_policies directory profiles (policies ++ (policy.profile, policy) ∷ [])
  ]
]

abbrev pub all_profiles : List ExecutionProfile
all_profiles = ExecutionProfile.production ∷ ExecutionProfile.research ∷ []

abbrev pub registry_of : Result RegistryError Policies → Result RegistryError ProfilePolicyRegistry
registry_of (ok policies) = new_registry policies
registry_of (err e) = err e

unfoldable pub from_directory :
    (ExecutionProfile → PolicyFile) → Result RegistryError ProfilePolicyRegistry
unfolding collect_policies new_registry
from_directory directory = registry_of (collect_policies directory all_profiles [])

abbrev pub decided : Result PolicyDecision PolicyDecision → Result RegistryError PolicyDecision
decided (ok d) = ok d
decided (err d) = err (RegistryError.refused d)

abbrev pub enforce_with :
    PluginManifest → ExecutionProfile → Option ProfilePolicy → Result RegistryError PolicyDecision
enforce_with m profile none = err (RegistryError.no_policy profile)
enforce_with m profile (some policy) = decided (enforce_plugin_policy m policy profile)

-- `enforce`, with the KeyError of `get` and the PolicyError of the gate
unfoldable pub enforce :
    ProfilePolicyRegistry → PluginManifest → ExecutionProfile → Result RegistryError PolicyDecision
unfolding get_policy enforce_plugin_policy
enforce registry m profile = enforce_with m profile (get_policy profile registry.policies)
