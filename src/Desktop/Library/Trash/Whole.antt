-- ===== src/Desktop/Library/Trash/Whole.antt =====
-- `delete` of apps/desktop/project_store.py takes the whole project to the trash, or leaves it.
use gaussian_os.Prelude.{
  String, ◌≡◌, none, string_eq, list_eq, pair_eq, ok, lookup, arith, Option-cases,
}
use gaussian_os.Desktop.Paths.{FilePath, ProjectPaths}
use gaussian_os.Desktop.Project.{Project, from_project}
use gaussian_os.Desktop.Library.{Library, load}
use gaussian_os.Desktop.Library.Trash.{new_directory}
use gaussian_os.Desktop.Library.Trash.Moved.{Place, PlaceOf}

pub new_directory-eq_ok :
    (name : String) (l : Library) → new_directory name l ≡ ok tt → lookup name l.trash ≡ none
new_directory-eq_ok name l h = ground (arith, Option-cases (lookup name l.trash))

module _ (normcase : FilePath → FilePath) where
  -- The place for the project that `load` gives.
  abbrev pub PlaceIn : String → String → Library → Place
  PlaceIn id name l source destination =
      (p : Project) × (found : ProjectPaths) × (load normcase id l ≡ ok p)
      × (from_project p ≡ ok found)
      × PlaceOf p found name source destination
