-- ===== src/Contracts/Artifact.antt =====
-- `ArtifactFile` and `ArtifactManifest` of packages/plugin_sdk/contracts.py.
use gaussian_os.Prelude.{
  collect, each, ℕ, String, Bool, not, ◌||◌, Option, none, some, List, [], ◌∷◌, map, ◌==◌,
  string_eq, leb, length, is_unique, any, contains, unless, has_char, split_slash, if◌then◌else◌,
  false,
}
use gaussian_os.Contracts.Patterns.{is_identifier, is_exact_version, is_sha256}
use gaussian_os.Contracts.Kinds.{ContractVersion, DateTime}
use gaussian_os.Contracts.Json.{Dict, is_json_dict}
use gaussian_os.Contracts.Violations.{Violation, check_length, then_rule}

pub record ArtifactFile : Type 0 where
  pub relative_path : String
  pub sha256 : String
  pub size_bytes : ℕ
  pub media_type : String

-- PurePosixPath(value).is_absolute()
abbrev pub is_absolute : String → Bool
is_absolute value = starts_with_slash (split_slash value)
  where
    starts_with_slash : List String → Bool
    starts_with_slash [] = false
    starts_with_slash (p ∷ []) = false
    starts_with_slash (p ∷ q ∷ ps) = p == ""

-- The parts that a portable path must not have.
abbrev pub is_unsafe_part : String → Bool
is_unsafe_part part = contains part ("" ∷ "." ∷ ".." ∷ [])

-- `path_is_relative_and_portable`
unfoldable pub is_safe_path : String → Bool
is_safe_path value = not (
    value == ""
    || value == "."
    || has_char b'\\' value
    || is_absolute value
    || any is_unsafe_part (split_slash value)
    || value == "artifact.manifest.json")

-- `size_bytes` is a natural number here: pydantic's `ge=0` has refused any other.
unfoldable pub file_violations : ArtifactFile → List Violation
file_violations f = collect (
    unless (is_safe_path f.relative_path) Violation.path_unsafe
    ∷ unless (is_sha256 f.sha256) Violation.sha256_malformed
    ∷ check_length 1 160 f.media_type
    ∷ [])

pub record ArtifactManifest : Type 0 where
  pub schema_version : ContractVersion
  pub artifact_id : String
  pub artifact_type : String
  pub format_version : String
  pub producer_plugin_id : String
  pub producer_plugin_version : String
  pub source_request_id : String
  pub source_attempt_id : String
  pub files : List ArtifactFile
  pub created_at : DateTime
  pub metadata : Dict

unfoldable pub artifact_fields : ArtifactManifest → List (List Violation)
artifact_fields m =
    unless (is_identifier m.artifact_id) Violation.identifier_unstable
    ∷ unless (is_identifier m.artifact_type) Violation.identifier_unstable
    ∷ check_length 1 64 m.format_version
    ∷ unless (is_identifier m.producer_plugin_id) Violation.identifier_unstable
    ∷ unless (is_exact_version m.producer_plugin_version) Violation.version_not_exact
    ∷ unless (is_identifier m.source_attempt_id) Violation.identifier_unstable
    ∷ unless (leb 1 (length m.files)) Violation.too_short
    ∷ each file_violations m.files
    ∷ unless m.created_at.has_timezone Violation.timezone_missing
    ∷ unless (is_json_dict m.metadata) Violation.not_json
    ∷ []

abbrev pub file_paths : ArtifactManifest → List String
file_paths m = map (λ (f : ArtifactFile). f.relative_path) m.files

-- `file_paths_are_unique`
unfoldable pub artifact_rule : ArtifactManifest → Option Violation
artifact_rule m =
    if not (is_unique (file_paths m)) then some Violation.file_paths_repeated else none

unfoldable pub artifact_violations : ArtifactManifest → List Violation
unfolding artifact_fields artifact_rule
artifact_violations m = then_rule (collect (artifact_fields m)) (artifact_rule m)
