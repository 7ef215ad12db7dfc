-- ===== src/Contracts/Manifest.antt =====
-- `WorkerEntrypoint`, `CheckpointAsset`, `DependencyLock` and `PluginManifest` of
-- packages/plugin_sdk/contracts.py. The texts are those that pydantic hands to the validators (it
-- strips the fields of a `ContractModel` first); an `HttpUrl` is the text of a URL that it accepted.
pub mod Guarantees
use gaussian_os.Prelude.{
  collect, each, ℕ, String, Bool, true, false, not, ◌&&◌, ◌||◌, ◌≡◌, refl, Option, none, some, List,
  [], ◌∷◌, ◌++◌, map, ◌==◌, string_eq, ltb, leb, length, is_empty, is_none, any, filter, contains,
  is_unique, unless, has_char, if◌then◌else◌, Result,
}
use gaussian_os.Contracts.Patterns.{is_identifier, is_exact_version, is_sha256, is_commit}
use gaussian_os.Contracts.Kinds.{
  ContractVersion, ExecutionProfile, PluginDistribution, StageKind, version_eq, profile_eq, kind_eq,
}
use gaussian_os.Contracts.Violations.{Violation, check_length, then_rule, validated}

pub record WorkerEntrypoint : Type 0 where
  pub command : List String
  pub environment : List (String × String)

-- `command_items_are_safe`
unfoldable pub check_command : List String → List Violation
check_command command =
    if is_empty command
    then Violation.too_short ∷ []
    else if any (λ part. part == "" || has_char 0 part) command
    then Violation.command_item_unsafe ∷ []
    else unless (leb (length (filter (λ part. part == "{python}") command)) 1)
        Violation.python_placeholder_repeated

-- `environment_is_plain_text`
unfoldable pub check_environment : List (String × String) → List Violation
check_environment environment =
    unless
      (not (
        any
          (λ (entry : String × String).
            entry.0 == "" || has_char b'=' entry.0 || has_char 0 entry.0 || has_char 0 entry.1)
          environment))
      Violation.environment_invalid

unfoldable pub entrypoint_violations : WorkerEntrypoint → List Violation
unfolding check_command check_environment
entrypoint_violations e = check_command e.command ++ check_environment e.environment

pub record CheckpointAsset : Type 0 where
  pub asset_id : String
  pub sha256 : String
  pub license : String
  pub source_url : Option String

unfoldable pub asset_violations : CheckpointAsset → List Violation
asset_violations a = collect (
    unless (is_identifier a.asset_id) Violation.identifier_unstable
    ∷ unless (is_sha256 a.sha256) Violation.sha256_malformed
    ∷ check_length 1 128 a.license
    ∷ [])

pub record DependencyLock : Type 0 where
  pub dependency_id : String
  pub version : String
  pub upstream_repository : String
  pub upstream_commit : String
  pub code_license : String

unfoldable pub lock_violations : DependencyLock → List Violation
lock_violations d = collect (
    unless (is_identifier d.dependency_id) Violation.identifier_unstable
    ∷ unless (is_exact_version d.version) Violation.version_not_exact
    ∷ unless (is_commit d.upstream_commit) Violation.commit_malformed
    ∷ check_length 1 128 d.code_license
    ∷ [])

pub record PluginManifest : Type 0 where
  pub schema_version : ContractVersion
  pub plugin_id : String
  pub display_name : String
  pub plugin_version : String
  pub distribution : PluginDistribution
  pub stage_kinds : List StageKind
  pub supported_profiles : List ExecutionProfile
  pub research_only : Bool
  pub entrypoint : WorkerEntrypoint
  pub supported_request_versions : List ContractVersion
  pub supported_result_versions : List ContractVersion
  pub code_license : String
  pub upstream_repository : Option String
  pub upstream_commit : Option String
  pub checkpoint_assets : List CheckpointAsset
  pub dependency_locks : List DependencyLock

-- `commit_is_exact` of an optional commit
abbrev pub check_commit : Option String → List Violation
check_commit none = []
check_commit (some c) = unless (is_commit c) Violation.commit_malformed

unfoldable pub manifest_fields : PluginManifest → List (List Violation)
manifest_fields m =
    unless (is_identifier m.plugin_id) Violation.identifier_unstable
    ∷ check_length 1 160 m.display_name
    ∷ unless (is_exact_version m.plugin_version) Violation.version_not_exact
    ∷ unless (leb 1 (length m.stage_kinds)) Violation.too_short
    ∷ unless (leb 1 (length m.supported_profiles)) Violation.too_short
    ∷ entrypoint_violations m.entrypoint
    ∷ check_length 1 128 m.code_license
    ∷ check_commit m.upstream_commit
    ∷ each asset_violations m.checkpoint_assets
    ∷ each lock_violations m.dependency_locks
    ∷ []

abbrev pub is_third_party : PluginDistribution → Bool
is_third_party PluginDistribution.builtin = false
is_third_party PluginDistribution.third_party = true

abbrev pub asset_ids : PluginManifest → List String
asset_ids m = map (λ (a : CheckpointAsset). a.asset_id) m.checkpoint_assets

abbrev pub dependency_ids : PluginManifest → List String
dependency_ids m = map (λ (d : DependencyLock). d.dependency_id) m.dependency_locks

-- `provenance_and_profile_invariants`
unfoldable pub manifest_rule : PluginManifest → Option Violation
manifest_rule m =
    if not (is_unique m.stage_kinds)
    then some Violation.stage_kinds_repeated
    else if not (is_unique m.supported_profiles)
    then some Violation.profiles_repeated
    else if not (is_unique m.supported_request_versions)
        || not (is_unique m.supported_result_versions)
    then some Violation.versions_repeated
    else if not (is_unique (asset_ids m))
    then some Violation.asset_ids_repeated
    else if not (is_unique (dependency_ids m))
    then some Violation.dependency_ids_repeated
    else if is_third_party m.distribution
        && (is_none m.upstream_repository || is_none m.upstream_commit)
    then some Violation.provenance_missing
    else if m.research_only && contains ExecutionProfile.production m.supported_profiles
    then some Violation.research_only_in_production
    else if m.research_only && not (contains ExecutionProfile.research m.supported_profiles)
    then some Violation.research_only_without_research
    else none

unfoldable pub manifest_violations : PluginManifest → List Violation
unfolding manifest_fields manifest_rule
manifest_violations m = then_rule (collect (manifest_fields m)) (manifest_rule m)

abbrev pub validate_manifest : PluginManifest → Result (List Violation) PluginManifest
validate_manifest m = validated (manifest_violations m) m
