-- ===== src/Desktop/Library.antt =====
-- The state that `ProjectStore` of apps/desktop/project_store.py keeps on disk, its locks, and how it
-- reads the projects.
pub mod Tests
pub mod Update
pub mod Outcome
pub mod Renamed
pub mod Trash
pub mod Restore
pub mod RoundTrip
use gaussian_os.Prelude.{
  String, Bool, true, false, not, ◌&&◌, ◌≡◌, Option, none, some, List, [], ◌∷◌, ◌==◌, string_eq,
  list_eq, pair_eq, Result, ok, err, if◌then◌else◌, contains, filter, lookup, without,
}
use gaussian_os.Store.Attempt.{is_unsafe_name}
use gaussian_os.Desktop.Paths.{FilePath, IdentityError, Marker, is_isolated}
use gaussian_os.Desktop.Durable.{WriteError}
use gaussian_os.Desktop.Project.{Project, root_key, classify}

-- What a call may raise: ValueError, ProjectLockError with the operation of the lock,
-- ProjectStoreError for a document that cannot be read, what json or Project raise on a broken one,
-- UnsafeProjectWorkspaceError, ValueError of a path, what `_write_json` raises,
-- ProjectLifecycleError and ProjectDeleteError with what it names, OSError, the errors of a rollback
-- that did not work, and RuntimeError of an update.
pub data StoreError : Type 0 where
  value_error : StoreError
  lock_busy : String → StoreError
  unreadable : String → StoreError
  broken_document : StoreError
  unsafe_workspace : StoreError
  identity : IdentityError → StoreError
  not_written : WriteError → StoreError
  lifecycle : String → StoreError
  delete_failed : String → StoreError
  os_error rollback_failed : StoreError
  runtime_error : String → StoreError

-- A JSON document of a project: one that `Project.from_dict` accepts, or one that cannot be read.
pub data StateDocument : Type 0 where
  readable : Project → StateDocument
  broken : StateDocument

-- What the program reads of trash.json.
pub record Manifest : Type 0 where
  pub deleted_at : String
  pub workspace_path : Option FilePath
  pub legacy_workspace_preserved : Bool

-- A directory of .trash: its project.json and its trash.json.
pub record TrashDirectory : Type 0 where
  pub metadata : Option StateDocument
  pub manifest : Option Manifest

-- The documents `*.json` of the store's root by project id, the directories of its .trash by name,
-- the workspaces that exist with their marker, and the locks that are held, as (project, operation).
pub record Library : Type 0 where
  pub documents : List (String × StateDocument)
  pub trash : List (String × TrashDirectory)
  pub workspaces : List (FilePath × Marker)
  pub held : List (String × String)

-- A call that may raise, on a library.
abbrev pub StoreAction : Type 0 → Type 0
StoreAction A = Library → Result StoreError A × Library

infixl 5 ◌>>=◌
abbrev pub ◌>>=◌ {ℓ κ μ} :
    {E : Type ℓ} {A : Type κ} {B : Type μ} → Result E A → (A → Result E B) → Result E B
ok a >>= f = f a
err e >>= f = err e

-- A call that only reads, then one that works with what it read.
abbrev pub and_then {κ} :
    {A : Type κ} {B : Type 0} → Result StoreError A → (A → StoreAction B) → StoreAction B
and_then (ok a) act l = act a l
and_then (err e) act l = (err e, l)

-- `_path`
unfoldable pub checked_id : String → Result StoreError String
unfolding is_unsafe_name
checked_id id = if is_unsafe_name id then err StoreError.value_error else ok id

-- `FileLock.acquire` without a wait, or once its wait is over
abbrev pub take_lock : String → String → Library → Library
take_lock id operation l = record l { held = (id, operation) ∷ l.held }

-- `FileLock.release`
abbrev pub drop_lock : String → String → Library → Library
drop_lock id operation l = record l { held = filter (λ key. not (key == (id, operation))) l.held }

module _ {A : Type 0} where
  -- with self._operation_lock(project_id, operation): body. The lock is taken or busy; an OSError of its
  -- file is left to the model of `FileLock`.
  unfoldable pub with_lock : String → String → StoreAction A → StoreAction A
  with_lock id operation body l =
      if contains (id, operation) l.held
      then (err (StoreError.lock_busy operation), l)
      else let (r, l') = body (take_lock id operation l) in (r, drop_lock id operation l')

-- `_raw_project`
abbrev pub raw_project : String → StateDocument → Result StoreError Project
raw_project stem (readable p) = ok p
raw_project stem broken = err (StoreError.unreadable stem)

-- [self._raw_project(path) for path in paths]
unfoldable pub raw_projects : List (String × StateDocument) → Result StoreError (List Project)
raw_projects [] = ok []
raw_projects ((stem, document) ∷ rest) = do
  p ← raw_project stem document
  ps ← raw_projects rest
  ok (p ∷ ps)

abbrev pub first_of : Project → List Project → Project
first_of p [] = p
first_of p (q ∷ qs) = q

abbrev pub own_document : String → Option StateDocument → Result StoreError Project
own_document id none = err (StoreError.unreadable id)
own_document id (some broken) = err StoreError.broken_document
own_document id (some (readable p)) = ok p

-- `os.path.normcase`, on a resolved path
module _ (normcase : FilePath → FilePath) where
  -- The roots of `trashed_legacy_roots`: of readable projects in the trash that are not isolated.
  unfoldable pub trashed_legacy_roots : List (String × TrashDirectory) → List FilePath
  trashed_legacy_roots [] = []
  trashed_legacy_roots ((name, directory) ∷ rest) =
      let roots = trashed_legacy_roots rest in
      elim directory.metadata [
        | some (readable p) ↦
            if is_isolated p.workspace_kind then roots else root_key normcase p ∷ roots
        | some broken ↦ roots
        | none ↦ roots
      ]

  -- The read of the project's own document, which the caller classifies among the others.
  unfoldable pub classified_among : String → Project → Library → Result StoreError Project
  unfolding raw_projects trashed_legacy_roots classify
  classified_among id p l = do
    others ← raw_projects (without id l.documents)
    ok (first_of p (classify normcase (trashed_legacy_roots l.trash) (p ∷ others)))

  -- `load`
  unfoldable pub load : String → Library → Result StoreError Project
  unfolding checked_id classified_among
  load id l = do
    stem ← checked_id id
    p ← own_document stem (lookup stem l.documents)
    classified_among stem p l

  -- `all`
  unfoldable pub all_projects : Library → Result StoreError (List Project)
  unfolding raw_projects trashed_legacy_roots classify
  all_projects l = do
    projects ← raw_projects l.documents
    ok (classify normcase (trashed_legacy_roots l.trash) projects)
