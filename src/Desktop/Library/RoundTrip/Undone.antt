-- ===== src/Desktop/Library/RoundTrip/Undone.antt =====
-- `restore` of apps/desktop/project_store.py after `delete`: the project is back.
use gaussian_os.Prelude.{
  String, true, false, ◌≡◌, refl, sym, ap, ◌∙◌, subst, some, [], ◌∷◌, string_eq, list_eq, pair_eq,
  option_eq, ok, lookup, without, contains, filter,
}
use gaussian_os.Desktop.Paths.{FilePath, is_isolated}
use gaussian_os.Desktop.Project.{Project}
use gaussian_os.Desktop.Library.{StateDocument, Library, drop_lock, load}
use gaussian_os.Desktop.Library.Trash.{Moves, DeletedProject, delete}
use gaussian_os.Desktop.Library.Trash.Moved.{SameProjects}
use gaussian_os.Desktop.Library.Restore.{trash_entries, is_entry_of, restore}
use gaussian_os.Desktop.Library.RoundTrip.Entries.{without-insert, without-without}
use gaussian_os.Desktop.Library.RoundTrip.Deleted.{delete-Deleted}
use gaussian_os.Desktop.Library.RoundTrip.Restored.{
  load-checked_id, load_same, after, back, back-SameProjects, restore-after,
}

library_eta :
    (l m : Library)
    → l.documents ≡ m.documents
    → l.trash ≡ m.trash
    → l.workspaces ≡ m.workspaces
    → l.held ≡ m.held
    → l ≡ m
library_eta l m p q r s = cc

-- After a `delete` of a project with an isolated workspace has returned, when no other entry of the
-- trash was of the project, a `restore` that finds the locks of the project free and whose moves and
-- clean-up work
-- returns the project as it was, and every document, workspace and document in the trash is where it
-- was before the `delete`.
pub delete-restore :
    (normcase : FilePath → FilePath) (p : Project) (moves moves' : Moves) (name deleted_at : String)
    (l l' : Library) (d : DeletedProject)
    → is_isolated p.workspace_kind ≡ true
    → lookup p.project_id l.documents ≡ some (StateDocument.readable p)
    → filter (is_entry_of p.project_id) (trash_entries l.trash) ≡ []
    → delete normcase moves p.project_id name deleted_at l ≡ (ok d, l')
    → contains (p.project_id, "delete") l'.held ≡ false
    → contains (p.project_id, "run") l'.held ≡ false
    → moves'.workspace ≡ true
    → moves'.metadata ≡ true
    → moves'.cleanup ≡ true
    → let (r, l'') = restore normcase moves' p.project_id l' in (r ≡ ok p) × SameProjects l l''
delete-restore normcase p moves moves' name deleted_at l l' d isolated own alone deleted free₁ free₂
      works works' works'' =
    let (f₁, f₂, fresh, free, marked, loaded, documents, trash, workspaces) =
      delete-Deleted normcase p isolated moves p.project_id name deleted_at l l' d own deleted in
    let locks = (p.project_id, "run") ∷ (p.project_id, "delete") ∷ l'.held in
    let came_back = back p name deleted_at l locks in
    let same = back-SameProjects p name deleted_at l locks own free marked fresh in
    let restored : restore normcase moves' p.project_id l' ≡ (
      load normcase p.project_id came_back,
      drop_lock p.project_id "delete" (drop_lock p.project_id "run" came_back),
    ) =
      ap (restore normcase moves' p.project_id)
        (library_eta l' (after p name deleted_at l l'.held) documents trash workspaces refl)
      ∙ restore-after p name deleted_at l normcase moves' l'.held
          (load-checked_id normcase p.project_id l p loaded) free₁ free₂ isolated works works'
          works'' free marked fresh alone in
    let reloaded : load normcase p.project_id came_back ≡ ok p =
      load_same normcase p.project_id l came_back p isolated loaded (same.0 p.project_id ∙ own) (
        without-insert p.project_id (StateDocument.readable p) (without p.project_id l.documents)
        ∙ without-without p.project_id l.documents) in
    subst (λ (r, l''). (r ≡ ok p) × SameProjects l l'') (sym restored) (reloaded, same)
