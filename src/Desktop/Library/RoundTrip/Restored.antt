-- ===== src/Desktop/Library/RoundTrip/Restored.antt =====
-- `restore` of apps/desktop/project_store.py on a library from which a project was deleted.
use gaussian_os.Prelude.{
  String, true, false, ◌≡◌, refl, ap, ◌∙◌, subst, none, some, List, [], ◌∷◌, ◌++◌, ◌==◌, string_eq,
  list_eq, pair_eq, option_eq, ok, if◌then◌else◌, lookup, insert, without, contains, filter,
  same_iff, eq_self, arith, lookup-insert, lookup-without, lookup-insert_self,
}
use gaussian_os.Desktop.Paths.{FilePath, Marker, is_isolated, trash_root}
use gaussian_os.Desktop.Project.{Project, classify}
use gaussian_os.Desktop.Library.{
  StateDocument, TrashDirectory, Library, ◌>>=◌, and_then, with_lock, drop_lock, load, checked_id,
  trashed_legacy_roots, raw_projects, own_document, classified_among,
}
use gaussian_os.Desktop.Library.Outcome.{with_lock-free, checked_id-eq_ok}
use gaussian_os.Desktop.Library.Renamed.{>>=-eq_ok, load-eq_ok}
use gaussian_os.Desktop.Library.Trash.{Moves, make_directory, move_workspace, manifest_of}
use gaussian_os.Desktop.Library.Trash.Moved.{SameProjects}
use gaussian_os.Desktop.Library.Restore.{
  TrashEntry, trash_entries, trash_entry, is_entry_of, restorable, move_from_trash, move_to_library,
  restore_locked, restore, latest_of, latest, entry_of,
}
use gaussian_os.Desktop.Library.RoundTrip.Entries.{insert-insert, trash_entries-insert}
use gaussian_os.Desktop.Library.RoundTrip.Checked.{paths_of, classified_isolated}

pub load-checked_id :
    (normcase : FilePath → FilePath) (id : String) (l : Library) (p : Project)
    → load normcase id l ≡ ok p
    → checked_id id ≡ ok id
unfolding load
load-checked_id normcase id l p h =
    let (stem, checked, read) =
      >>=-eq_ok (checked_id id)
        (λ stem.
          own_document stem (lookup stem l.documents) >>= λ p. classified_among normcase stem p l)
        p h in
    subst (λ stem. checked_id id ≡ ok stem) (checked_id-eq_ok id stem checked) checked

-- A project with an isolated workspace loads alike from two libraries with the same other documents.
pub load_same :
    (normcase : FilePath → FilePath) (id : String) (l l' : Library) (p : Project)
    → is_isolated p.workspace_kind ≡ true
    → load normcase id l ≡ ok p
    → lookup id l'.documents ≡ some (StateDocument.readable p)
    → without id l'.documents ≡ without id l.documents
    → load normcase id l' ≡ ok p
unfolding load classified_among classify
load_same normcase id l l' p isolated loaded own same =
    let (raw, others, found, read, classes) = load-eq_ok normcase id l p loaded in
    ground (
      arith,
      load-checked_id normcase id l p loaded,
      own,
      ap raw_projects same ∙ read,
      classified_isolated normcase (trashed_legacy_roots normcase l'.trash) (p ∷ others) p isolated,
    )

-- The entry of a deleted project.
abbrev entry_for : Project → String → String → TrashEntry
entry_for p name deleted_at = record {
  project_id = p.project_id;
  name = p.name;
  directory = name;
  workspace_path = some (trash_root (paths_of p) ++ name ∷ []);
  deleted_at = if deleted_at == "" then name else deleted_at;
  legacy_workspace_preserved = false;
}

module _ (p : Project) (name deleted_at : String) (l : Library) where
  abbrev pub directory : TrashDirectory
  directory = record {
    metadata = some (StateDocument.readable p);
    manifest = some (manifest_of deleted_at (some (trash_root (paths_of p) ++ name ∷ [])));
  }

  abbrev pub after : List (String × String) → Library
  after held = record {
    documents = without p.project_id l.documents;
    trash = insert name directory (Library.trash (make_directory name l));
    workspaces =
        insert (trash_root (paths_of p) ++ name ∷ []) (Marker.marks (some p.project_id))
          (without p.root l.workspaces);
    held = held;
  }

  trash_entry-after :
      (held : List (String × String))
      → lookup name l.trash ≡ none
      → filter (is_entry_of p.project_id) (trash_entries l.trash) ≡ []
      → trash_entry p.project_id (after held) ≡ ok (entry_for p name deleted_at)
  unfolding trash_entry latest entry_of
  trash_entry-after held fresh alone = ap latest_of (
      ap (λ t. filter (is_entry_of p.project_id) (trash_entries t))
        (insert-insert name directory (record { metadata = none; manifest = none }) l.trash)
      ∙ trash_entries-insert p.project_id name directory (entry_for p name deleted_at) l.trash refl
          refl fresh alone)

  -- The library after the project has come back.
  abbrev pub back : List (String × String) → Library
  back held =
      let destination = trash_root (paths_of p) ++ name ∷ [] in
      move_from_trash p.project_id name (StateDocument.readable p)
        (move_workspace destination p.root (Marker.marks (some p.project_id)) (after held))

  restorable-after :
      (held : List (String × String))
      → lookup (trash_root (paths_of p) ++ name ∷ []) l.workspaces ≡ none
      → lookup p.root l.workspaces ≡ some (Marker.marks (some p.project_id))
      → restorable p.project_id p (entry_for p name deleted_at) (after held)
        ≡ ok (trash_root (paths_of p) ++ name ∷ [], Marker.marks (some p.project_id))
  unfolding restorable
  restorable-after held free marked =
      let destination = trash_root (paths_of p) ++ name ∷ [] in
      let marker = Marker.marks (some p.project_id) in
      ground (
        arith,
        lookup-insert_self destination marker (without p.root l.workspaces),
        lookup-insert destination p.root marker (without p.root l.workspaces),
        lookup-without p.root p.root l.workspaces,
        eq_self p.root,
        same_iff p.root destination,
        eq_self (some p.project_id),
        eq_self p.project_id,
      )

  move_to_library-after :
      (moves : Moves) (held : List (String × String))
      → is_isolated p.workspace_kind ≡ true
      → moves.workspace ≡ true
      → moves.metadata ≡ true
      → moves.cleanup ≡ true
      → lookup (trash_root (paths_of p) ++ name ∷ []) l.workspaces ≡ none
      → lookup p.root l.workspaces ≡ some (Marker.marks (some p.project_id))
      → move_to_library moves p.project_id
          (entry_for p name deleted_at)
          (StateDocument.readable p)
          p
          (after held)
        ≡ (ok tt, back held)
  unfolding move_to_library
  move_to_library-after moves held isolated works works' works'' free marked =
      let found = restorable-after held free marked in ground (arith, found)

  restore_locked-after :
      (normcase : FilePath → FilePath) (moves : Moves) (held : List (String × String))
      → is_isolated p.workspace_kind ≡ true
      → moves.workspace ≡ true
      → moves.metadata ≡ true
      → moves.cleanup ≡ true
      → lookup (trash_root (paths_of p) ++ name ∷ []) l.workspaces ≡ none
      → lookup p.root l.workspaces ≡ some (Marker.marks (some p.project_id))
      → lookup name l.trash ≡ none
      → filter (is_entry_of p.project_id) (trash_entries l.trash) ≡ []
      → restore_locked normcase moves p.project_id (after held)
        ≡ (load normcase p.project_id (back held), back held)
  unfolding restore_locked
  restore_locked-after normcase moves held isolated works works' works'' free marked fresh alone =
      ground (
        arith,
        trash_entry-after held fresh alone,
        lookup-without p.project_id p.project_id l.documents,
        eq_self p.project_id,
        lookup-insert_self name directory (Library.trash (make_directory name l)),
        move_to_library-after moves held isolated works works' works'' free marked,
      )

  pub back-SameProjects :
      (held : List (String × String))
      → lookup p.project_id l.documents ≡ some (StateDocument.readable p)
      → lookup (trash_root (paths_of p) ++ name ∷ []) l.workspaces ≡ none
      → lookup p.root l.workspaces ≡ some (Marker.marks (some p.project_id))
      → lookup name l.trash ≡ none
      → SameProjects l (back held)
  back-SameProjects held own free marked fresh =
      let destination = trash_root (paths_of p) ++ name ∷ [] in
      let marker = Marker.marks (some p.project_id) in
      let emptied = without p.root l.workspaces in
      let E : TrashDirectory = record { metadata = none; manifest = none } in
      (
        λ j. ground (
          arith,
          lookup-insert p.project_id j (StateDocument.readable p)
              (without p.project_id l.documents),
          lookup-without p.project_id j l.documents,
          same_iff j p.project_id,
        ),
        λ w. ground (
          arith,
          lookup-insert p.root w marker (without destination (insert destination marker emptied)),
          lookup-without destination w (insert destination marker emptied),
          lookup-insert destination w marker emptied,
          lookup-without p.root w l.workspaces,
          same_iff w p.root,
          same_iff w destination,
        ),
        λ n. ground (
          arith,
          lookup-without name n (insert name directory (insert name E l.trash)),
          lookup-insert name n directory (insert name E l.trash),
          lookup-insert name n E l.trash,
          same_iff n name,
        ),
      )

  pub restore-after :
      (normcase : FilePath → FilePath) (moves : Moves) (held : List (String × String))
      → checked_id p.project_id ≡ ok p.project_id
      → contains (p.project_id, "delete") held ≡ false
      → contains (p.project_id, "run") held ≡ false
      → is_isolated p.workspace_kind ≡ true
      → moves.workspace ≡ true
      → moves.metadata ≡ true
      → moves.cleanup ≡ true
      → lookup (trash_root (paths_of p) ++ name ∷ []) l.workspaces ≡ none
      → lookup p.root l.workspaces ≡ some (Marker.marks (some p.project_id))
      → lookup name l.trash ≡ none
      → filter (is_entry_of p.project_id) (trash_entries l.trash) ≡ []
      → let locks = (p.project_id, "run") ∷ (p.project_id, "delete") ∷ held in
        restore normcase moves p.project_id (after held) ≡ (
          load normcase p.project_id (back locks),
          drop_lock p.project_id "delete" (drop_lock p.project_id "run" (back locks)),
        )
  unfolding restore
  restore-after normcase moves held valid free₁ free₂ isolated works works' works'' free marked
        fresh alone =
      let id = p.project_id in
      let body = restore_locked normcase moves id in
      let held₁ = (id, "delete") ∷ held in
      ap
        (λ c.
          and_then c
            (λ stem.
              with_lock stem "delete" (with_lock stem "run" (restore_locked normcase moves stem)))
            (after held))
        valid
      ∙ with_lock-free id "delete" (with_lock id "run" body) (after held) free₁
      ∙ ap (λ (r, l'). (r, drop_lock id "delete" l'))
          (with_lock-free id "run" body (after held₁) (ground (arith, free₂))
            ∙ ap (λ (r, l'). (r, drop_lock id "run" l'))
                (restore_locked-after normcase moves ((id, "run") ∷ held₁) isolated works works'
                  works'' free marked fresh alone))
