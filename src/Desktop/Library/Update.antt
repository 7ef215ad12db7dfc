-- ===== src/Desktop/Library/Update.antt =====
-- The writes of `ProjectStore` of apps/desktop/project_store.py: the checks before one, and the
-- operations that load, change and save one project.
use gaussian_os.Prelude.{
  String, Bool, false, not, Option, none, some, List, [], ◌∷◌, ◌==◌, string_eq, list_eq, Result, ok,
  err, if◌then◌else◌, lookup, insert, without,
}
use gaussian_os.Desktop.Paths.{
  FilePath, IdentityError, Marker, ProjectPaths, is_isolated, validate_isolated_identity,
}
use gaussian_os.Desktop.Durable.{Volume, WriteError, write_json}
use gaussian_os.Desktop.Project.{Project, from_project, root_key}
use gaussian_os.Desktop.Library.{
  StoreError, StateDocument, Library, StoreAction, ◌>>=◌, and_then, checked_id, with_lock,
  raw_projects, own_document, classified_among, load,
}

abbrev pub raised_identity {κ} : {A : Type κ} → Result IdentityError A → Result StoreError A
raised_identity (ok a) = ok a
raised_identity (err e) = err (StoreError.identity e)

abbrev pub none_raised {κ} : {A : Type κ} → A → Option IdentityError → Result StoreError A
none_raised a none = ok a
none_raised a (some e) = err (StoreError.identity e)

abbrev pub raised_write : Result {0, 0} WriteError Unit → Result {0, 0} StoreError Unit
raised_write (ok u) = ok tt
raised_write (err e) = err (StoreError.not_written e)

abbrev pub returning : Project → Result {0, 0} StoreError Unit → Result StoreError Project
returning p (ok u) = ok p
returning p (err e) = err e

-- What the marker file of a workspace says.
abbrev pub marker_of : Option Marker → Marker
marker_of none = Marker.no_marker
marker_of (some m) = m

-- if not name: raise ValueError("project name is required")
abbrev pub required_name : String → Result StoreError String
required_name name = if name == "" then err StoreError.value_error else ok name

-- `_assert_idle`
abbrev pub assert_idle : String → Project → Result StoreError Project
assert_idle operation p =
    if p.status == "running" then err (StoreError.lifecycle operation) else ok p

-- `_write_json` of a project's document
abbrev pub put_state : String → Option StateDocument → Library → Library
put_state id none l = l
put_state id (some document) l = record l { documents = insert id document l.documents }

unfoldable pub write_state : Volume → String → Project → StoreAction Unit
unfolding write_json
write_state volume id p l =
    let (r, f) =
      write_json volume (StateDocument.readable p)
        (record { document = lookup id l.documents; has_temporary = false; slept = 0 }) in
    (elim r [ ok u ↦ ok tt | err e ↦ err (StoreError.not_written e) ], put_state id f.document l)

-- with self.lifecycle_lock(project_id), self.run_lock(project_id): body
unfoldable pub with_lifecycle : String → StoreAction Project → StoreAction Project
unfolding checked_id with_lock
with_lifecycle id body =
    and_then (checked_id id) (λ stem. with_lock stem "lifecycle" (with_lock stem "run" body))

-- The directories that `ProjectPaths.ensure` makes: the workspace, when it is not there.
abbrev pub ensure_workspace : FilePath → Library → Library
ensure_workspace workspace l = elim (lookup workspace l.workspaces) [
  | none ↦ record l { workspaces = insert workspace Marker.no_marker l.workspaces }
  | some m ↦ l
]

-- `apply` of `rename`
abbrev pub renamed : String → Project → Result StoreError Project
renamed display_name p = do idle ← assert_idle "renamed" p; ok (record idle { name = display_name })

-- `apply` of `set_archived`, at a time
abbrev pub archived_as : String → Bool → Project → Result StoreError Project
archived_as changed archived p = do
  idle ← assert_idle "archived" p
  ok (record idle { archived = archived; archived_at = if archived then some changed else none })

-- `os.path.normcase`, on a resolved path
module _ (normcase : FilePath → FilePath) where
  -- `paths`, of a project
  unfoldable pub paths : Project → Library → Result StoreError ProjectPaths
  unfolding from_project validate_isolated_identity
  paths p l = do
    found ← raised_identity (from_project p)
    none_raised found (
        validate_isolated_identity normcase (marker_of (lookup found.workspace l.workspaces)) found)

  -- The loop of `_assert_unique_workspace` over the other documents.
  unfoldable pub binds_root :
      FilePath → List (String × StateDocument) → Result {0, 0} StoreError Unit
  unfolding raw_projects
  binds_root target [] = ok tt
  binds_root target ((stem, StateDocument.broken) ∷ rest) = err (StoreError.unreadable stem)
  binds_root target ((stem, StateDocument.readable p) ∷ rest) =
      let later = binds_root target rest in
      if root_key normcase p == target then err StoreError.unsafe_workspace else later

  -- `_assert_unique_workspace`
  unfoldable pub assert_unique_workspace : Project → Library → Result {0, 0} StoreError Unit
  unfolding paths binds_root
  assert_unique_workspace p l =
      if not (is_isolated p.workspace_kind)
      then ok tt
      else do found ← paths p l; binds_root (root_key normcase p) (without p.project_id l.documents)

  -- What `update_project` and `save` do with a changed project, at a time.
  unfoldable pub write_project : Volume → String → String → Project → StoreAction Project
  unfolding assert_unique_workspace write_state
  write_project volume now id p l =
      let saved = record p { updated_at = now } in
      and_then (assert_unique_workspace p l)
        (λ u before. let (r, l') = write_state volume id saved before in (returning saved r, l')) l

  -- `save`
  unfoldable pub save : Volume → String → Project → StoreAction Project
  unfolding with_lock write_project
  save volume now p = with_lock p.project_id "state" (write_project volume now p.project_id p)

  -- The project that `update_project` writes.
  unfoldable pub updated :
      String → (Project → Result StoreError Project) → Library → Result StoreError Project
  unfolding checked_id classified_among
  updated id update l = do
    stem ← checked_id id
    p ← own_document stem (lookup stem l.documents)
    current ← classified_among normcase stem p l
    update current

  -- `update_project`, with an update that may raise
  unfoldable pub update_project :
      Volume → String → String → (Project → Result StoreError Project) → StoreAction Project
  unfolding with_lock updated write_project
  update_project volume now id update =
      with_lock id "state" (λ l. and_then (updated id update l) (write_project volume now id) l)

  -- `rename`, with the name stripped
  unfoldable pub rename : Volume → String → String → String → StoreAction Project
  unfolding with_lifecycle update_project
  rename volume now id name =
      and_then (required_name name)
        (λ display_name. with_lifecycle id (update_project volume now id (renamed display_name)))

  -- `set_archived`, at the time of the change and of the write
  unfoldable pub set_archived : Volume → String → String → String → Bool → StoreAction Project
  unfolding with_lifecycle update_project
  set_archived volume changed now id archived =
      with_lifecycle id (update_project volume now id (archived_as changed archived))

  -- `ensure_writable`, of an id
  unfoldable pub ensure_writable : String → StoreAction ProjectPaths
  unfolding load paths
  ensure_writable id l =
      let writable = do
        p ← load normcase id l
        if p.workspace_kind == "legacy_shared" then err StoreError.unsafe_workspace else paths p l
      in and_then writable (λ found before. (ok found, ensure_workspace found.workspace before)) l
