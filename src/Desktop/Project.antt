-- ===== src/Desktop/Project.antt =====
-- `StageState` and `Project` of apps/desktop/project_store.py, and `_classify`.
pub mod Classes
use gaussian_os.Prelude.{
  ℕ, ◌+◌, String, Bool, true, false, not, ◌&&◌, ◌||◌, ◌≡◌, Option, none, some, List, [], ◌∷◌, ◌++◌,
  map, ◌==◌, string_eq, list_eq, Result, ok, err, if◌then◌else◌, contains, leb, filter, length,
}
use gaussian_os.Contracts.Json.{Dict}
use gaussian_os.Desktop.Paths.{
  FilePath, ProjectPaths, IdentityError, parent_of, safe_identity, is_isolated,
}

pub record StageState : Type 0 where
  pub status : String
  pub artifact_paths : List FilePath
  pub metrics : Dict
  pub error : Option String
  pub updated_at : String

-- StageState(), made at a time
abbrev pub new_stage : String → StageState
new_stage now = record {
  status = "pending";
  artifact_paths = [];
  metrics = [];
  error = none;
  updated_at = now;
}

pub record Project : Type 0 where
  pub project_id : String
  pub name : String
  pub root : FilePath
  pub input_path : Option String
  pub input_kind : Option String
  pub profile : String
  pub run_id : Option String
  pub status : String
  pub current_stage : Option String
  pub sampling : Dict
  pub stages : List (String × StageState)
  pub warnings : List String
  pub created_at : String
  pub updated_at : String
  pub library_root : Option FilePath
  pub workspace_kind : String
  pub archived : Bool
  pub archived_at : Option String

abbrev pub library_of : Project → FilePath
library_of p = elim p.library_root [ none ↦ parent_of p.root | some root ↦ root ]

-- `ProjectPaths.from_project`
unfoldable pub from_project : Project → Result IdentityError ProjectPaths
unfolding safe_identity
from_project p = elim (safe_identity p.project_id) [
  | err e ↦ err e
  | ok id ↦ ok (record {
    project_id = id;
    library_root = library_of p;
    workspace = p.root;
    workspace_kind = p.workspace_kind;
  })
]

abbrev pub compatibility_warning : String
compatibility_warning =
    "Legacy workspace compatibility mode; its existing files are not moved automatically."

abbrev pub shared_warning : String
shared_warning =
    "Legacy/shared workspace detected; writes and recursive deletion are blocked until the project is migrated explicitly."

-- if warning not in project.warnings: project.warnings.append(warning)
abbrev pub warn : String → Project → Project
warn warning p =
    if contains warning p.warnings then p else record p { warnings = p.warnings ++ warning ∷ [] }

abbrev pub in_compatibility : Project → Project
in_compatibility p = if p.workspace_kind == "legacy" then warn compatibility_warning p else p

-- `os.path.normcase`, on a resolved path
module _ (normcase : FilePath → FilePath) where
  abbrev pub root_key : Project → FilePath
  root_key p = normcase p.root

  -- The projects of `roots[root_key]`.
  abbrev pub shares_root : FilePath → Project → Bool
  shares_root key p = not (is_isolated p.workspace_kind) && root_key p == key

  unfoldable pub is_shared : List FilePath → List Project → Project → Bool
  is_shared trashed projects p =
      leb 2 (length (filter (shares_root (root_key p)) projects)) || contains (root_key p) trashed

  -- What `_classify` makes of one of the projects.
  unfoldable pub classified : List FilePath → List Project → Project → Project
  unfolding is_shared
  classified trashed projects p =
      if is_isolated p.workspace_kind
      then p
      else if is_shared trashed projects p
      then warn shared_warning (record (in_compatibility p) { workspace_kind = "legacy_shared" })
      else in_compatibility p

  -- `_classify`, with the roots of the projects in the trash that are not isolated
  unfoldable pub classify : List FilePath → List Project → List Project
  unfolding classified
  classify trashed projects = map (classified trashed projects) projects
