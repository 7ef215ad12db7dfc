-- ===== src/Desktop/Library/RoundTrip/Deleted.antt =====
-- What a `delete` of apps/desktop/project_store.py that returns leaves of an isolated project.
use gaussian_os.Prelude.{
  String, true, false, ◌≡◌, ◌≢◌, refl, ap, ◌∙◌, subst, Option, none, some, [], ◌∷◌, ◌++◌, string_eq,
  list_eq, pair_eq, option_eq, Result, ok, err, if◌then◌else◌, lookup, insert, without, contains,
  arith, Option-cases,
}
use gaussian_os.Desktop.Paths.{FilePath, Marker, is_isolated, trash_root}
use gaussian_os.Desktop.Project.{Project}
use gaussian_os.Desktop.Library.{
  StoreError, StateDocument, Library, StoreAction, ◌>>=◌, and_then, with_lock, take_lock, drop_lock,
  load, checked_id, classified_among,
}
use gaussian_os.Desktop.Library.Update.{paths}
use gaussian_os.Desktop.Library.Outcome.{checked_id-eq_ok}
use gaussian_os.Desktop.Library.Renamed.{>>=-eq_ok}
use gaussian_os.Desktop.Library.Trash.{
  Moves, delete_locked, DeletedProject, make_directory, move_to_trash, move_workspace,
  write_trash_manifest, manifest_of, trash_workspace, trash_both, except, not_deleted,
  with_run_lock, deletable, trash_project, delete, free_destination,
}
use gaussian_os.Desktop.Library.RoundTrip.Checked.{paths_of, deletable-eq_ok}

except-eq_ok {κ} :
    {A : Type κ} (r : Result {0, 0} StoreError Unit) (handler next : Result StoreError A × Library)
    (a : A) (l : Library)
    → ((b : A) (l' : Library) → handler ≢ (ok b, l'))
    → except r handler next ≡ (ok a, l)
    → next ≡ (ok a, l)
except-eq_ok (ok u) handler next a l fails h = h
except-eq_ok (err e) handler next a l fails h = absurd (fails a l h)

-- The library after the metadata and the workspace have gone to the trash.
abbrev pub emptied : Project → String → String → FilePath → Marker → Library → Library
emptied p name deleted_at destination marker l = move_workspace p.root destination marker (
    move_to_trash p.project_id name (lookup p.project_id l.documents)
      (manifest_of deleted_at (some destination)) l)

trash_workspace-eq_ok :
    (moves : Moves) (id name : String) (document : Option StateDocument)
    (workspace destination : FilePath) (o : Option Marker) (l l' : Library) (d : DeletedProject)
    → trash_workspace moves id name document workspace destination o l ≡ (ok d, l')
    → (marker : Marker) × (o ≡ some marker) × (l' ≡ move_workspace workspace destination marker l)
trash_workspace-eq_ok moves id name document workspace destination none l l' d h =
    absurd (ground arith)
trash_workspace-eq_ok moves id name document workspace destination (some m) l l' d h =
    (m, refl, ground arith)

pub trash_both-eq_ok :
    (moves : Moves) (id name deleted_at : String) (workspace destination : FilePath)
    (l l' : Library) (d : DeletedProject)
    → trash_both moves id name deleted_at workspace destination l ≡ (ok d, l')
    → (marker : Marker) × (lookup workspace l.workspaces ≡ some marker)
      × (l'
          ≡ move_workspace workspace destination marker (
              move_to_trash id name
                (lookup id l.documents)
                (manifest_of deleted_at (some destination))
                l))
unfolding trash_both
trash_both-eq_ok moves id name deleted_at workspace destination l l' d h =
    let manifest = manifest_of deleted_at (some destination) in
    let moved = move_to_trash id name (lookup id l.documents) manifest l in
    let next =
      except-eq_ok (write_trash_manifest moves.manifest manifest) (not_deleted "project" name l)
        (if moves.metadata
          then trash_workspace moves id name (lookup id l.documents) workspace destination
              (lookup workspace l.workspaces) moved
          else not_deleted "project" name l)
        d l' (λ b l'' same. ground arith) h in
    trash_workspace-eq_ok moves id name (lookup id l.documents) workspace destination
      (lookup workspace l.workspaces) moved l' d (ground arith)

pub with_lock-eq_ok_pair :
    {A : Type 0} (id operation : String) (body : StoreAction A) (l l' : Library) (a : A)
    → with_lock id operation body l ≡ (ok a, l')
    → (contains (id, operation) l.held ≡ false)
      × ((l'' : Library) × (body (take_lock id operation l) ≡ (ok a, l''))
          × (l' ≡ drop_lock id operation l''))
unfolding with_lock
with_lock-eq_ok_pair id operation body l l' a h =
    (ground arith, ((body (take_lock id operation l)).1, ground arith, ground arith))

pub with_run_lock-eq_ok_pair :
    (id : String) (body : StoreAction DeletedProject) (l l' : Library) (d : DeletedProject)
    → with_run_lock id body l ≡ (ok d, l')
    → with_lock id "run" body l ≡ (ok d, l')
unfolding with_run_lock
with_run_lock-eq_ok_pair id body l l' d h = ground arith

pub and_then-eq_ok_pair {κ} :
    {A : Type κ} {B : Type 0} (check : Result StoreError A) (act : A → StoreAction B)
    (l l' : Library) (b : B)
    → and_then check act l ≡ (ok b, l')
    → (a : A) × (check ≡ ok a) × (act a l ≡ (ok b, l'))
and_then-eq_ok_pair (ok a) act l l' b h = (a, refl, h)
and_then-eq_ok_pair (err e) act l l' b h = absurd (cc)

some-injective : {A : Type 0} (o : Option A) (a b : A) → o ≡ some a → o ≡ some b → a ≡ b
some-injective o a b p q = cc

-- The three locks are released after the moves.
unlocked :
    (id : String) (l m₁ m₂ m₃ : Library)
    → l ≡ drop_lock id "delete" m₁
    → m₁ ≡ drop_lock id "run" m₂
    → m₂ ≡ drop_lock id "state" m₃
    → (l.documents ≡ m₃.documents) × (l.trash ≡ m₃.trash) × (l.workspaces ≡ m₃.workspaces)
unlocked id l m₁ m₂ m₃ p q r = (
  ap Library.documents p ∙ ap Library.documents q ∙ ap Library.documents r,
  ap Library.trash p ∙ ap Library.trash q ∙ ap Library.trash r,
  ap Library.workspaces p ∙ ap Library.workspaces q ∙ ap Library.workspaces r,
)

moved-fields :
    (id name deleted_at : String) (destination : FilePath) (p : Project) (marker : Marker)
    (l l' : Library)
    → lookup id l.documents ≡ some (StateDocument.readable p)
    → lookup p.root l.workspaces ≡ some marker
    → lookup p.root l.workspaces ≡ some (Marker.marks (some p.project_id))
    → l'
      ≡ move_workspace p.root destination marker (
          move_to_trash id name
            (lookup id l.documents)
            (manifest_of deleted_at (some destination))
            (make_directory name l))
    → (l'.documents ≡ without id l.documents)
      × (l'.trash
          ≡ insert name
              (record {
                metadata = some (StateDocument.readable p);
                manifest = some (manifest_of deleted_at (some destination));
              })
              (Library.trash (make_directory name l)))
      × (l'.workspaces
          ≡ insert destination (Marker.marks (some p.project_id)) (without p.root l.workspaces))
moved-fields id name deleted_at destination p marker l l' own stands marked moved = (
  ap Library.documents moved,
  ap Library.trash moved
      ∙ ap
          (λ o.
            insert name
              (record { metadata = o; manifest = some (manifest_of deleted_at (some destination)) })
              (Library.trash (make_directory name l)))
          own,
  ap Library.workspaces moved
      ∙ ap (λ m. insert destination m (without p.root l.workspaces))
          (some-injective (lookup p.root l.workspaces) marker (Marker.marks (some p.project_id))
            stands marked),
)

free_destination-eq_ok :
    (destination : FilePath) (l : Library)
    → free_destination destination l ≡ ok tt
    → lookup destination l.workspaces ≡ none
free_destination-eq_ok destination l h =
    ground (arith, Option-cases (lookup destination l.workspaces))

module _ (normcase : FilePath → FilePath) (p : Project)
    (isolated : is_isolated p.workspace_kind ≡ true) where
  trash_project-eq_ok :
      (moves : Moves) (id name deleted_at : String) (l l' : Library) (d : DeletedProject)
      → trash_project normcase moves id name deleted_at (p, paths_of p) l ≡ (ok d, l')
      → let destination = trash_root (paths_of p) ++ name ∷ [] in
        (lookup destination l.workspaces ≡ none)
        × ((marker : Marker) × (lookup p.root l.workspaces ≡ some marker)
            × (l'
                ≡ move_workspace p.root destination marker (
                    move_to_trash id name
                      (lookup id l.documents)
                      (manifest_of deleted_at (some destination))
                      l)))
  unfolding trash_project
  trash_project-eq_ok moves id name deleted_at l l' d h =
      let destination = trash_root (paths_of p) ++ name ∷ [] in
      let (u, free, both) =
        and_then-eq_ok_pair (paths normcase p l >>= λ same. free_destination destination l)
          (λ free. trash_both moves id name deleted_at p.root destination) l l' d (ground arith) in
      let (same, checked, free) =
        >>=-eq_ok (paths normcase p l) (λ same. free_destination destination l) u free in
      (
        free_destination-eq_ok destination l free,
        trash_both-eq_ok moves id name deleted_at p.root destination l l' d both,
      )

  -- The library before and after a `delete` that returns.
  abbrev pub Deleted : String → String → String → Library → Library → Type 0
  Deleted id name deleted_at l l' =
      let destination = trash_root (paths_of p) ++ name ∷ [] in
      let marker = Marker.marks (some p.project_id) in
      (contains (id, "delete") l.held ≡ false)
      × (contains (id, "run") (Library.held (take_lock id "delete" l)) ≡ false)
      × (lookup name l.trash ≡ none)
      × (lookup destination l.workspaces ≡ none)
      × (lookup p.root l.workspaces ≡ some marker)
      × (load normcase id l ≡ ok p)
      × (l'.documents ≡ without id l.documents)
      × (l'.trash
          ≡ insert name
              (record {
                metadata = some (StateDocument.readable p);
                manifest = some (manifest_of deleted_at (some destination));
              })
              (Library.trash (make_directory name l)))
      × (l'.workspaces ≡ insert destination marker (without p.root l.workspaces))

  pub delete-Deleted :
      (moves : Moves) (id name deleted_at : String) (l l' : Library) (d : DeletedProject)
      → lookup id l.documents ≡ some (StateDocument.readable p)
      → delete normcase moves id name deleted_at l ≡ (ok d, l')
      → Deleted id name deleted_at l l'
  unfolding delete delete_locked load classified_among
  delete-Deleted moves id name deleted_at l l' d own h =
      let body : String → StoreAction DeletedProject =
        λ stem. delete_locked normcase moves stem name deleted_at in
      let l₁ = take_lock id "delete" l in
      let l₂ = take_lock id "run" l₁ in
      let l₃ = take_lock id "state" l₂ in
      let (stem, checked, locked) =
        and_then-eq_ok_pair (checked_id id)
          (λ stem.
            with_lock stem "delete" (with_run_lock stem (with_lock stem "state" (body stem))))
          l l' d h in
      let (free₁, (m₁, run, last₁)) =
        with_lock-eq_ok_pair id "delete" (with_run_lock id (with_lock id "state" (body id))) l l' d
          (subst
            (λ stem.
              with_lock stem "delete" (with_run_lock stem (with_lock stem "state" (body stem))) l
              ≡ (ok d, l'))
            (checked_id-eq_ok id stem checked) locked) in
      let (free₂, (m₂, state, last₂)) =
        with_lock-eq_ok_pair id "run" (with_lock id "state" (body id)) l₁ m₁ d
          (with_run_lock-eq_ok_pair id (with_lock id "state" (body id)) l₁ m₁ d run) in
      let (free₃, (m₃, inner, last₃)) = with_lock-eq_ok_pair id "state" (body id) l₂ m₂ d state in
      let (read, deleting, trashing) =
        and_then-eq_ok_pair (deletable normcase id name l₃)
          (λ found before.
            trash_project normcase moves id name deleted_at found (make_directory name before))
          l₃ m₃ d inner in
      let (same, paths, marked, fresh, loaded) =
        deletable-eq_ok normcase p isolated id name l₃ read.0 read.1 own deleting in
      let pair : read ≡ (p, paths_of p) = cc in
      let (free, (marker, stands, moved)) =
        trash_project-eq_ok moves id name deleted_at (make_directory name l₃) m₃ d (
          subst
            (λ read.
              trash_project normcase moves id name deleted_at read (make_directory name l₃)
              ≡ (ok d, m₃))
            pair trashing) in
      let destination = trash_root (paths_of p) ++ name ∷ [] in
      let (documents, trash, workspaces) = unlocked id l' m₁ m₂ m₃ last₁ last₂ last₃ in
      let (documents', trash', workspaces') =
        moved-fields id name deleted_at destination p marker l₃ m₃ own stands marked moved in
      (
        free₁,
        free₂,
        fresh,
        free,
        marked,
        loaded,
        documents ∙ documents',
        trash ∙ trash',
        workspaces ∙ workspaces',
      )
