-- ===== src/Desktop/Library/Restore.antt =====
-- `trash_entries` and `restore` of apps/desktop/project_store.py: what the trash holds, and how a
-- project comes back from it. The sizes of the entries are left out.
use gaussian_os.Prelude.{
  ℕ, String, Bool, true, false, not, ◌&&◌, Option, none, some, List, [], ◌∷◌, ◌++◌, ◌==◌, string_eq,
  list_eq, option_eq, Result, ok, err, if◌then◌else◌, lookup, insert, without, is_some, filter, ltb,
  nat_beq, codes,
}
use gaussian_os.Desktop.Paths.{
  FilePath, Marker, ProjectPaths, is_isolated, trash_root, IdentityError,
}
use gaussian_os.Desktop.Project.{Project, from_project}
use gaussian_os.Desktop.Library.{
  StoreError, StateDocument, Manifest, TrashDirectory, Library, StoreAction, ◌>>=◌, and_then,
  checked_id, with_lock, load,
}
use gaussian_os.Desktop.Library.Trash.{Moves, move_workspace}

pub record TrashEntry : Type 0 where
  pub project_id : String
  pub name : String
  pub directory : String
  pub workspace_path : Option FilePath
  pub deleted_at : String
  pub legacy_workspace_preserved : Bool

-- The place for a manifest without a workspace path.
abbrev pub default_workspace :
    String → Project → Result IdentityError ProjectPaths → Option (Option FilePath)
default_workspace name p (ok found) = some (some (trash_root found ++ name ∷ []))
default_workspace name p (err e) = none

-- `workspace` of an entry; none: the identity of the project raises.
abbrev pub entry_workspace : String → Project → Option Manifest → Option (Option FilePath)
entry_workspace name p manifest =
    let fallback : Option (Option FilePath) =
      if is_isolated p.workspace_kind
      then default_workspace name p (from_project p)
      else some none in
    elim manifest [
      | none ↦ fallback
      | some m ↦ elim m.workspace_path [ none ↦ fallback | some path ↦ some (some path) ]
    ]

-- str(manifest.get("deleted_at") or directory.name)
abbrev pub entry_deleted_at : String → Option Manifest → String
entry_deleted_at name none = name
entry_deleted_at name (some m) = if m.deleted_at == "" then name else m.deleted_at

abbrev pub entry_preserved : Project → Option Manifest → Bool
entry_preserved p none = not (is_isolated p.workspace_kind)
entry_preserved p (some m) = m.legacy_workspace_preserved

-- The entry of a directory with its metadata, or none where the loop continues.
unfoldable pub entry_of : String → TrashDirectory → Option TrashEntry
unfolding from_project
entry_of name directory = elim directory.metadata [
  | some (StateDocument.readable p) ↦ elim (entry_workspace name p directory.manifest) [
    | none ↦ none
    | some workspace ↦ some (record {
      project_id = p.project_id;
      name = p.name;
      directory = name;
      workspace_path = workspace;
      deleted_at = entry_deleted_at name directory.manifest;
      legacy_workspace_preserved = entry_preserved p directory.manifest;
    })
  ]
  | some StateDocument.broken ↦ none
  | none ↦ none
]

abbrev pub add_entry : Option TrashEntry → List TrashEntry → List TrashEntry
add_entry none entries = entries
add_entry (some entry) entries = entry ∷ entries

-- `trash_entries`
unfoldable pub trash_entries : List (String × TrashDirectory) → List TrashEntry
unfolding entry_of
trash_entries [] = []
trash_entries ((name, directory) ∷ rest) = add_entry (entry_of name directory) (trash_entries rest)

-- One text is later than another in Python's order on str.
unfoldable pub is_later : List ℕ → List ℕ → Bool
is_later [] other = false
is_later (c ∷ cs) [] = true
is_later (c ∷ cs) (d ∷ ds) =
    let rest = is_later cs ds in if ltb d c then true else nat_beq c d && rest

-- sorted(matches, key=lambda item: item.deleted_at, reverse=True)[0]
unfoldable pub latest : TrashEntry → List TrashEntry → TrashEntry
unfolding is_later
latest entry [] = entry
latest entry (next ∷ entries) =
    if is_later (codes next.deleted_at) (codes entry.deleted_at)
    then latest next entries
    else latest entry entries

abbrev pub is_entry_of : String → TrashEntry → Bool
is_entry_of id entry = entry.project_id == id

abbrev pub latest_of : List TrashEntry → Result StoreError TrashEntry
latest_of [] = err (StoreError.lifecycle "not in trash")
latest_of (entry ∷ entries) = ok (latest entry entries)

-- `_trash_entry`
unfoldable pub trash_entry : String → Library → Result StoreError TrashEntry
unfolding trash_entries latest
trash_entry id l = latest_of (filter (is_entry_of id) (trash_entries l.trash))

-- The metadata of an entry, as `_raw_project` reads it, with the document itself.
abbrev pub entry_project :
    String → Option TrashDirectory → Result StoreError (StateDocument × Project)
entry_project id none = err (StoreError.unreadable id)
entry_project id (some directory) = elim directory.metadata [
  | some (StateDocument.readable p) ↦ ok (StateDocument.readable p, p)
  | some StateDocument.broken ↦ err (StoreError.unreadable id)
  | none ↦ err (StoreError.unreadable id)
]

-- if self._path(project_id).exists(): raise ProjectLifecycleError
abbrev pub no_live_project : String → Library → Result {0, 0} StoreError Unit
no_live_project id l =
    if is_some (lookup id l.documents) then err (StoreError.lifecycle "live") else ok tt

abbrev pub owned_marker : String → Option Marker → Result StoreError Marker
owned_marker id none = err (StoreError.lifecycle "workspace missing")
owned_marker id (some Marker.no_marker) = err (StoreError.lifecycle "marker invalid")
owned_marker id (some (Marker.marks o)) =
    if o == some id then ok (Marker.marks o) else err (StoreError.lifecycle "marker of another")

abbrev pub present_path : Option FilePath → Result StoreError FilePath
present_path none = err (StoreError.lifecycle "workspace missing")
present_path (some path) = ok path

-- The checks of an isolated workspace in the trash: its path and its marker.
unfoldable pub restorable :
    String → Project → TrashEntry → Library → Result StoreError (FilePath × Marker)
restorable id p entry l = do
  workspace ← present_path entry.workspace_path
  marker ← owned_marker id (lookup workspace l.workspaces)
  if is_some (lookup p.root l.workspaces)
      then err (StoreError.lifecycle "occupied")
      else ok (workspace, marker)

-- os.replace(entry.metadata_path, self._path(project_id)), then the clean-up of the directory
abbrev pub move_from_trash : String → String → StateDocument → Library → Library
move_from_trash id name document l = record l {
  documents = insert id document l.documents;
  trash = without name l.trash;
}

-- The same, when trash.json stays where it is.
abbrev pub emptied : Option TrashDirectory → TrashDirectory
emptied none = record { metadata = none; manifest = none }
emptied (some directory) = record directory { metadata = none }

abbrev pub left_in_trash : String → String → StateDocument → Library → Library
left_in_trash id name document l = record l {
  documents = insert id document l.documents;
  trash = insert name (emptied (lookup name l.trash)) l.trash;
}

-- An exception of the clean-up leaves `restore` after the moves.
abbrev pub finish_restore : Moves → String → TrashEntry → StateDocument → StoreAction Unit
finish_restore moves id entry document l =
    if moves.cleanup
    then (ok tt, move_from_trash id entry.directory document l)
    else (err StoreError.os_error, left_in_trash id entry.directory document l)

-- What `restore` moves: the workspace of an isolated project, then the metadata; the workspace goes
-- back when the metadata cannot be moved.
unfoldable pub move_to_library :
    Moves → String → TrashEntry → StateDocument → Project → StoreAction Unit
unfolding restorable
move_to_library moves id entry document p l =
    let restored = finish_restore moves id entry document in
    let failed = err (StoreError.lifecycle "restore failed") in
    if not (is_isolated p.workspace_kind)
    then if moves.metadata then restored l else (failed, l)
    else and_then (restorable id p entry l)
        (λ found l.
          let moved = move_workspace found.0 p.root found.1 l in
          if not moves.workspace
          then (failed, l)
          else if moves.metadata
          then restored moved
          else if moves.rollback
          then (failed, move_workspace p.root found.0 found.1 moved)
          else (err StoreError.rollback_failed, moved))
        l

abbrev pub then_load {κ} :
    {A : Type κ}
    → (Library → Result StoreError A)
    → Result {0, 0} StoreError Unit × Library
    → Result StoreError A × Library
then_load read (ok u, l) = (read l, l)
then_load read (err e, l) = (err e, l)

-- `os.path.normcase`, on a resolved path
module _ (normcase : FilePath → FilePath) where
  -- `restore`, once it has its locks
  unfoldable pub restore_locked : Moves → String → StoreAction Project
  unfolding trash_entry move_to_library load
  restore_locked moves id l =
      let found : Result StoreError (TrashEntry × (StateDocument × Project)) = do
        entry ← trash_entry id l
        free ← no_live_project id l
        read ← entry_project id (lookup entry.directory l.trash)
        ok (entry, read)
      in and_then found
        (λ (entry, (document, p)) before.
          then_load (load normcase id) (move_to_library moves id entry document p before))
        l

  -- `restore`
  unfoldable pub restore : Moves → String → StoreAction Project
  unfolding checked_id with_lock restore_locked
  restore moves id =
      and_then (checked_id id)
        (λ stem. with_lock stem "delete" (with_lock stem "run" (restore_locked moves stem)))
