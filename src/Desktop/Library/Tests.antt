-- ===== src/Desktop/Library/Tests.antt =====
-- A small library of apps/desktop/project_store.py, and what its operations do with it.
use gaussian_os.Prelude.{
  ℕ, ◌<◌, String, true, false, ◌≡◌, ◌≢◌, refl, none, some, List, [], ◌∷◌, ◌⊎◌, ok, err, string_eq,
  list_eq, pair_eq, ltb, if◌then◌else◌, lookup, without, arith, ◌≤◌, ◌+◌,
}
use gaussian_os.Desktop.Paths.{FilePath, Marker, is_isolated}
use gaussian_os.Desktop.Durable.{WriteError, Replace, Volume, working, File, write_json}
use gaussian_os.Desktop.Durable.Outcome.{IsAtomic, write_json-IsAtomic, write_json-tolerates}
use gaussian_os.Desktop.Project.{Project}
use gaussian_os.Desktop.Project.Classes.{OwnsRoot}
use gaussian_os.Desktop.Library.{
  StoreError, StateDocument, Library, load, raw_projects, trashed_legacy_roots,
}
use gaussian_os.Desktop.Library.Update.{rename, ensure_writable}
use gaussian_os.Desktop.Library.Outcome.{Outcome}
use gaussian_os.Desktop.Library.Renamed.{rename-load, ensure_writable-OwnsRoot}
use gaussian_os.Desktop.Library.Trash.{Moves, deleted_project, delete}
use gaussian_os.Desktop.Library.Trash.Moved.{SameProjects}
use gaussian_os.Desktop.Library.Restore.{restore}
use gaussian_os.Desktop.Library.RoundTrip.Undone.{delete-restore}

abbrev pub same_path : FilePath → FilePath
same_path path = path

abbrev pub workspace_of : String → FilePath
workspace_of id = "lab" ∷ ".gaussianos" ∷ "projects" ∷ id ∷ []

abbrev pub project : String → Project
project id = record {
  project_id = id;
  name = "Statue";
  root = workspace_of id;
  input_path = some "statue.mp4";
  input_kind = some "video";
  profile = "balanced";
  run_id = none;
  status = "ready";
  current_stage = none;
  sampling = [];
  stages = [];
  warnings = [];
  created_at = "10:00";
  updated_at = "10:00";
  library_root = some ("lab" ∷ []);
  workspace_kind = "isolated";
  archived = false;
  archived_at = none;
}

-- An older project, whose workspace is a directory of the user's.
abbrev older : Project
older = record (project "old") { root = "old" ∷ []; library_root = none; workspace_kind = "legacy" }

abbrev pub two_projects : Library
two_projects = record {
  documents =
      ("p1", StateDocument.readable (project "p1")) ∷ ("old", StateDocument.readable older) ∷ [];
  trash = [];
  workspaces = (workspace_of "p1", Marker.marks (some "p1")) ∷ ("old" ∷ [], Marker.no_marker) ∷ [];
  held = [];
}

abbrev all_work : Moves
all_work = record {
  manifest = working;
  metadata = true;
  workspace = true;
  rollback = true;
  cleanup = true;
}

-- The workspace cannot be moved.
abbrev workspace_stuck : Moves
workspace_stuck = record all_work { workspace = false }

deleted_one : delete same_path workspace_stuck "p1" "p1-t" "11:00" two_projects ≡ (
  err (StoreError.delete_failed "project"),
  record two_projects {
    documents =
        ("old", StateDocument.readable older) ∷ ("p1", StateDocument.readable (project "p1")) ∷ [];
  },
)
unfolding delete
deleted_one = refl

abbrev trashed_workspace : FilePath
trashed_workspace = "lab" ∷ ".gaussianos" ∷ ".trash" ∷ "p1-t" ∷ []

abbrev without_one : Library
without_one = record {
  documents = ("old", StateDocument.readable older) ∷ [];
  trash =
      (
        "p1-t",
        record {
          metadata = some (StateDocument.readable (project "p1"));
          manifest = some (record {
            deleted_at = "11:00";
            workspace_path = some trashed_workspace;
            legacy_workspace_preserved = false;
          });
        },
      )
      ∷ [];
  workspaces = ("old" ∷ [], Marker.no_marker) ∷ (trashed_workspace, Marker.marks (some "p1")) ∷ [];
  held = [];
}

delete_one :
    delete same_path all_work "p1" "p1-t" "11:00" two_projects
    ≡ (ok (deleted_project "p1" "p1-t" (some trashed_workspace)), without_one)
unfolding delete
delete_one = refl

delete-restore_example :
    let (r, l) = restore same_path all_work "p1" without_one in
    (r ≡ ok (project "p1")) × SameProjects two_projects l
unfolding restore
delete-restore_example =
    delete-restore same_path (project "p1") all_work all_work "p1-t" "11:00" two_projects
      without_one (deleted_project "p1" "p1-t" (some trashed_workspace)) refl refl refl delete_one
      refl refl refl refl refl

rename-load_example :
    (p : Project) × (load same_path "p1" two_projects ≡ ok p)
    × (◌≢◌ {A = String} "Bust" "")
    × (p.status ≢ "running")
    × (record (project "p1") { name = "Bust"; updated_at = "12:00" }
        ≡ record p { name = "Bust"; updated_at = "12:00" })
unfolding rename load
rename-load_example =
    rename-load same_path working "12:00" "p1" "Bust" two_projects
      (record (project "p1") { name = "Bust"; updated_at = "12:00" }) refl

ensure_writable-OwnsRoot_example :
    (p : Project) × (others : List Project) × (lookup "old" two_projects.documents
      ≡ some (StateDocument.readable p))
    × (raw_projects (without "old" two_projects.documents) ≡ ok others)
    × ((is_isolated p.workspace_kind ≡ true)
        ⊎ OwnsRoot same_path (trashed_legacy_roots same_path two_projects.trash) (p ∷ others) p)
unfolding ensure_writable raw_projects trashed_legacy_roots
ensure_writable-OwnsRoot_example =
    ensure_writable-OwnsRoot same_path "old" two_projects
      (record {
        project_id = "old";
        library_root = [];
        workspace = "old" ∷ [];
        workspace_kind = "legacy";
      })
      refl

-- A reader holds the document during the first two attempts.
abbrev busy_twice : ℕ → Replace
busy_twice attempt = if ltb attempt 3 then Replace.violation else Replace.replaced

abbrev busy_volume : Volume
busy_volume = record { writes_temporary = true; replace = busy_twice; unlinks = true }

abbrev old_text : File String
old_text = record { document = some "old"; has_temporary = false; slept = 0 }

write_json-IsAtomic_example :
    let (r, f) = write_json busy_volume "new" old_text in
    IsAtomic "new" old_text.document r f.document
    × (f.has_temporary ≡ true → (busy_volume.unlinks ≡ false) × (r ≡ err WriteError.os_error))
    × (f.slept ≤ old_text.slept + 1550)
write_json-IsAtomic_example = write_json-IsAtomic busy_volume "new" old_text

busy_before : (i : ℕ) → i < 2 → busy_twice (i + 1) ≡ Replace.violation
busy_before i h = ground arith

write_json-tolerates_example :
    write_json busy_volume "new" old_text
    ≡ (ok tt, record { document = some "new"; has_temporary = false; slept = 150 })
write_json-tolerates_example =
    write_json-tolerates 2 busy_volume "new" old_text refl (omega arith) busy_before refl
