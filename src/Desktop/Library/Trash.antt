-- ===== src/Desktop/Library/Trash.antt =====
-- `delete` and `restore` of apps/desktop/project_store.py: a project goes to the trash of the store,
-- with its workspace if that is isolated, and comes back.
pub mod Moved
pub mod Whole
use gaussian_os.Prelude.{
  String, Bool, true, false, not, Option, none, some, [], ◌∷◌, ◌++◌, ◌==◌, string_eq, list_eq,
  option_eq, Result, ok, err, if◌then◌else◌, is_none, lookup, insert, without, contains, is_some,
  pair_eq,
}
use gaussian_os.Desktop.Paths.{FilePath, Marker, ProjectPaths, is_isolated, trash_root}
use gaussian_os.Desktop.Durable.{Volume, write_json}
use gaussian_os.Desktop.Project.{Project}
use gaussian_os.Desktop.Library.{
  StoreError, StateDocument, Manifest, Library, StoreAction, ◌>>=◌, and_then, checked_id, with_lock,
  load,
}
use gaussian_os.Desktop.Library.Update.{paths, raised_write}

-- What the calls to the file system do during a `delete` or a `restore`: the write of trash.json, the
-- replacement of the metadata and of the workspace, that of a rollback, and the unlink of trash.json.
pub record Moves : Type 0 where
  pub manifest : Volume
  pub metadata : Bool
  pub workspace : Bool
  pub rollback : Bool
  pub cleanup : Bool

pub record DeletedProject : Type 0 where
  pub project_id : String
  pub metadata_directory : String
  pub workspace_path : Option FilePath
  pub legacy_workspace_preserved : Bool

-- metadata_trash.mkdir(exist_ok=False)
abbrev pub new_directory : String → Library → Result {0, 0} StoreError Unit
new_directory name l = if is_some (lookup name l.trash) then err StoreError.os_error else ok tt

abbrev pub make_directory : String → Library → Library
make_directory name l = record l {
  trash = insert name (record { metadata = none; manifest = none }) l.trash;
}

-- shutil.rmtree(metadata_trash)
abbrev pub remove_directory : String → Library → Library
remove_directory name l = record l { trash = without name l.trash }

-- os.replace(metadata, metadata_destination), beside a trash.json
abbrev pub move_to_trash : String → String → Option StateDocument → Manifest → Library → Library
move_to_trash id name document manifest l = record l {
  documents = without id l.documents;
  trash = insert name (record { metadata = document; manifest = some manifest }) l.trash;
}

-- os.replace(metadata_destination, metadata)
abbrev pub put_back : String → Option StateDocument → Library → Library
put_back id none l = l
put_back id (some document) l = record l { documents = insert id document l.documents }

-- os.replace(source, destination), of a workspace that exists
abbrev pub move_workspace : FilePath → FilePath → Marker → Library → Library
move_workspace source destination marker l = record l {
  workspaces = insert destination marker (without source l.workspaces);
}

-- `_write_json` of trash.json in a new directory
unfoldable pub write_trash_manifest : Volume → Manifest → Result {0, 0} StoreError Unit
unfolding write_json
write_trash_manifest volume manifest =
    raised_write
      (write_json volume manifest (record { document = none; has_temporary = false; slept = 0 })).0

-- What the `except` clause does when the call raises, and what follows the call when it returns.
abbrev pub except {κ} : {A : Type κ} → Result {0, 0} StoreError Unit → A → A → A
except (ok u) handler next = next
except (err e) handler next = handler

-- The exception before the metadata has moved.
abbrev pub not_deleted : String → String → StoreAction DeletedProject
not_deleted what name l = (err (StoreError.delete_failed what), remove_directory name l)

-- trash.json, with the destination of the workspace if that moves too
abbrev pub manifest_of : String → Option FilePath → Manifest
manifest_of deleted_at destination = record {
  deleted_at = deleted_at;
  workspace_path = destination;
  legacy_workspace_preserved = is_none destination;
}

abbrev pub deleted_project : String → String → Option FilePath → DeletedProject
deleted_project id name destination = record {
  project_id = id;
  metadata_directory = name;
  workspace_path = destination;
  legacy_workspace_preserved = is_none destination;
}

-- The metadata of a project whose workspace stays where it is goes to the directory of that name.
unfoldable pub trash_metadata : Moves → String → String → String → StoreAction DeletedProject
unfolding write_trash_manifest
trash_metadata moves id name deleted_at l =
    let manifest = manifest_of deleted_at none in
    except (write_trash_manifest moves.manifest manifest) (not_deleted "legacy metadata" name l) (
      if moves.metadata
      then (
        ok (deleted_project id name none),
        move_to_trash id name (lookup id l.documents) manifest l,
      )
      else not_deleted "legacy metadata" name l)

-- The metadata comes back when the workspace could not be moved.
abbrev pub take_back : Moves → String → String → Option StateDocument → StoreAction DeletedProject
take_back moves id name document l =
    if moves.rollback
    then (err (StoreError.delete_failed "project"), remove_directory name (put_back id document l))
    else (err StoreError.rollback_failed, l)

-- os.replace(paths.workspace, workspace_destination), after which the project is deleted
abbrev pub trash_workspace :
    Moves
    → String
    → String
    → Option StateDocument
    → FilePath
    → FilePath
    → Option Marker
    → StoreAction DeletedProject
trash_workspace moves id name document workspace destination none l =
    take_back moves id name document l
trash_workspace moves id name document workspace destination (some marker) l =
    if moves.workspace
    then (
      ok (deleted_project id name (some destination)),
      move_workspace workspace destination marker l,
    )
    else take_back moves id name document l

-- The metadata goes to the directory of that name, then the workspace to its destination.
unfoldable pub trash_both :
    Moves → String → String → String → FilePath → FilePath → StoreAction DeletedProject
unfolding write_trash_manifest
trash_both moves id name deleted_at workspace destination l =
    let manifest = manifest_of deleted_at (some destination) in
    let document = lookup id l.documents in
    except (write_trash_manifest moves.manifest manifest) (not_deleted "project" name l) (
      if moves.metadata
      then trash_workspace moves id name document workspace destination
          (lookup workspace l.workspaces) (move_to_trash id name document manifest l)
      else not_deleted "project" name l)

-- if project.status == "running": raise ProjectDeleteError
abbrev pub not_running : Project → Result StoreError Project
not_running p = if p.status == "running" then err (StoreError.delete_failed "running") else ok p

-- The run lock, which `delete` names in an error of its own.
unfoldable pub with_run_lock : String → StoreAction DeletedProject → StoreAction DeletedProject
unfolding with_lock
with_run_lock id body l =
    if contains (id, "run") l.held
    then (err (StoreError.delete_failed "running elsewhere"), l)
    else with_lock id "run" body l

-- if workspace_destination.exists(): raise ProjectDeleteError
abbrev pub free_destination : FilePath → Library → Result {0, 0} StoreError Unit
free_destination destination l =
    if is_some (lookup destination l.workspaces)
    then err (StoreError.delete_failed "destination")
    else ok tt

-- `os.path.normcase`, on a resolved path
module _ (normcase : FilePath → FilePath) where
  -- The project that `delete` takes to the trash, with its paths.
  unfoldable pub deletable : String → String → Library → Result StoreError (Project × ProjectPaths)
  unfolding load paths
  deletable id name l = do
    current ← load normcase id l
    p ← not_running current
    found ← paths normcase p l
    made ← new_directory name l
    ok (p, found)

  -- The part of `delete` that has made its directory.
  unfoldable pub trash_project :
      Moves → String → String → String → Project × ProjectPaths → StoreAction DeletedProject
  unfolding paths trash_metadata trash_both
  trash_project moves id name deleted_at (p, found) l =
      if not (is_isolated p.workspace_kind)
      then trash_metadata moves id name deleted_at l
      else let destination = trash_root found ++ name ∷ [] in
        and_then (paths normcase p l >>= λ same. free_destination destination l)
          (λ free. trash_both moves id name deleted_at found.workspace destination) l

  -- `delete`, once it has its locks
  unfoldable pub delete_locked : Moves → String → String → String → StoreAction DeletedProject
  unfolding deletable trash_project
  delete_locked moves id name deleted_at l =
      and_then (deletable id name l)
        (λ found before. trash_project moves id name deleted_at found (make_directory name before))
        l

  -- `delete`, with the name f"{project_id}-{timestamp}" and the time in trash.json
  unfoldable pub delete : Moves → String → String → String → StoreAction DeletedProject
  unfolding checked_id with_lock with_run_lock delete_locked
  delete moves id name deleted_at = and_then (checked_id id) (λ stem.
      with_lock stem "delete"
        (with_run_lock stem (with_lock stem "state" (delete_locked moves stem name deleted_at))))
