-- ===== src/Desktop/Paths.antt =====
-- apps/desktop/project_paths.py. A path is resolved and taken apart at its separators: the list of its
-- names from the root. A project's paths are found from its record, in `Project`.
use gaussian_os.Prelude.{
  String, Bool, true, false, not, ◌&&◌, Option, none, some, List, [], ◌∷◌, ◌++◌, ◌==◌, string_eq,
  list_eq, option_eq, Result, ok, err, if◌then◌else◌,
}
use gaussian_os.Store.Attempt.{is_unsafe_name}

abbrev pub FilePath : Type 0
FilePath = List String

abbrev pub project_marker : String
project_marker = ".gaussianos-project.json"

pub data IdentityError : Type 0 where
  unsafe_identity workspace_differs marker_invalid marker_of_other : IdentityError

-- `_safe_identity`
unfoldable pub safe_identity : String → Result IdentityError String
unfolding is_unsafe_name
safe_identity value = if is_unsafe_name value then err IdentityError.unsafe_identity else ok value

-- `isolated_workspace`, of an id that is safe
abbrev pub isolated_workspace : FilePath → String → FilePath
isolated_workspace library_root project_id =
    library_root ++ ".gaussianos" ∷ "projects" ∷ project_id ∷ []

pub record ProjectPaths : Type 0 where
  pub project_id : String
  pub library_root : FilePath
  pub workspace : FilePath
  pub workspace_kind : String

-- `Path.parent`
abbrev pub parent_of : FilePath → FilePath
parent_of [] = []
parent_of (name ∷ []) = []
parent_of (name ∷ next ∷ names) = name ∷ parent_of (next ∷ names)

abbrev pub is_isolated : String → Bool
is_isolated kind = kind == "isolated"

abbrev pub trash_root : ProjectPaths → FilePath
trash_root paths =
    if is_isolated paths.workspace_kind
    then paths.library_root ++ ".gaussianos" ∷ ".trash" ∷ []
    else parent_of paths.workspace ++ ".gaussianos-trash" ∷ []

-- `relative_to`: the path starts with the names of the other one.
unfoldable pub starts_with : FilePath → FilePath → Bool
starts_with [] path = true
starts_with (name ∷ names) [] = false
starts_with (name ∷ names) (other ∷ others) = name == other && starts_with names others

unfoldable pub path_contains : ProjectPaths → FilePath → Bool
unfolding starts_with
path_contains paths candidate = starts_with paths.workspace candidate

-- What stands in the marker file of a workspace: nothing readable, or a project id (none: another
-- value, or no such member).
pub data Marker : Type 0 where
  no_marker : Marker
  marks : Option String → Marker

abbrev pub check_marker : String → Marker → Option IdentityError
check_marker project_id no_marker = some IdentityError.marker_invalid
check_marker project_id (marks o) =
    if o == some project_id then none else some IdentityError.marker_of_other

-- `validate_isolated_identity`, with `os.path.normcase` and the marker of the workspace
unfoldable pub validate_isolated_identity :
    (FilePath → FilePath) → Marker → ProjectPaths → Option IdentityError
validate_isolated_identity normcase marker paths =
    if not (is_isolated paths.workspace_kind)
    then none
    else if not (
        normcase (isolated_workspace paths.library_root paths.project_id)
        == normcase paths.workspace)
    then some IdentityError.workspace_differs
    else check_marker paths.project_id marker
