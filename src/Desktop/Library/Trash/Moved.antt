-- ===== src/Desktop/Library/Trash/Moved.antt =====
-- The moves of `delete` of apps/desktop/project_store.py take the whole project to the trash, or
-- leave it.
use gaussian_os.Prelude.{
  String, Bool, true, false, not, ◌≡◌, ◌≢◌, refl, ap, ◌∙◌, Option, none, some, List, [], ◌∷◌, ◌==◌,
  string_eq, list_eq, pair_eq, Result, ok, err, if◌then◌else◌, lookup, without, contains, filter,
  same_iff, eq_self, arith, ◌⊎◌, ◌++◌, lookup-insert, lookup-without, lookup-insert_ne,
}
use gaussian_os.Desktop.Paths.{FilePath, Marker, ProjectPaths, is_isolated, trash_root}
use gaussian_os.Desktop.Project.{Project}
use gaussian_os.Desktop.Library.{
  StoreError, StateDocument, Manifest, TrashDirectory, Library, drop_lock,
}
use gaussian_os.Desktop.Library.Outcome.{filter-released}
use gaussian_os.Desktop.Library.Trash.{
  Moves, DeletedProject, make_directory, remove_directory, move_to_trash, put_back,
  write_trash_manifest, not_deleted, manifest_of, trash_metadata, take_back, trash_workspace,
  trash_both, except,
}

abbrev pub metadata_in : Option TrashDirectory → Option StateDocument
metadata_in none = none
metadata_in (some directory) = directory.metadata

-- The document in a directory of the trash.
abbrev pub trashed : String → Library → Option StateDocument
trashed name l = metadata_in (lookup name l.trash)

-- The same documents, live or in the trash, and the same workspaces.
abbrev pub SameProjects : Library → Library → Type 0
SameProjects l l' =
    ((j : String) → lookup j l'.documents ≡ lookup j l.documents)
    × ((w : FilePath) → lookup w l'.workspaces ≡ lookup w l.workspaces)
    × ((n : String) → trashed n l' ≡ trashed n l)

-- The document has gone from the store to the directory of that name, and no other one has moved.
abbrev pub DocumentMoved : String → String → Library → Library → Type 0
DocumentMoved id name l l' =
    ((j : String) → lookup j l'.documents ≡ (if j == id then none else lookup j l.documents))
    × ((n : String) → trashed n l' ≡ (if n == name then lookup id l.documents else trashed n l))

-- What stands at w once the workspace at the source has moved to a destination, if there is one.
abbrev pub placed : FilePath → Option FilePath → FilePath → List (FilePath × Marker) → Option Marker
placed source none w workspaces = lookup w workspaces
placed source (some destination) w workspaces =
    if w == destination
    then lookup source workspaces
    else if w == source
    then none
    else lookup w workspaces

abbrev pub WorkspaceMoved : FilePath → Option FilePath → Library → Library → Type 0
WorkspaceMoved source destination l l' =
    (w : FilePath) → lookup w l'.workspaces ≡ placed source destination w l.workspaces

-- Which workspace moves, and where to, if any does.
abbrev pub Place : Type 1
Place = FilePath → Option FilePath → Type 0

-- The workspace of the project moves to the trash of its library, under this name, if it is isolated;
-- else none does.
abbrev pub PlaceOf : Project → ProjectPaths → String → Place
PlaceOf p found name source destination =
    ((is_isolated p.workspace_kind ≡ true)
      × (source ≡ found.workspace)
      × (destination ≡ some (trash_root found ++ name ∷ [])))
    ⊎ ((is_isolated p.workspace_kind ≡ false) × (destination ≡ none))

abbrev pub Whole :
    Place → String → String → Library → Result StoreError DeletedProject → Library → Type 0
Whole place id name l (ok d) l' =
    DocumentMoved id name l l'
    × ((source : FilePath) × place source d.workspace_path
        × WorkspaceMoved source d.workspace_path l l')
Whole place id name l (err e) l' = SameProjects l l'

abbrev pub WholeAt :
    Place → String → String → Library → Result StoreError DeletedProject × Library → Type 0
WholeAt place id name l (r, l') = Whole place id name l r l' × (l'.held ≡ l.held)

pub untouched : (l : Library) → SameProjects l l
untouched l = (λ j. refl, λ w. refl, λ n. refl)

-- A directory that is new or without a document may come and go.
make-remove :
    (name : String) (l l' : Library)
    → lookup name l.trash ≡ none
    → ((n : String) → n ≢ name → lookup n l'.trash ≡ lookup n l.trash)
    → (n : String) → trashed n (remove_directory name l') ≡ trashed n l
make-remove name l l' fresh same n =
    ground (arith, lookup-without name n l'.trash, same_iff n name, same n)

pub held-released :
    (key operation : String) (l l' : Library)
    → contains (key, operation) l.held ≡ false
    → l'.held ≡ (key, operation) ∷ l.held
    → (drop_lock key operation l').held ≡ l.held
held-released key operation l l' free h =
    ap (filter (λ k. not (k == (key, operation)))) h ∙ filter-released (key, operation) l.held free

put_back_lem :
    (id : String) (o : Option StateDocument) (l : Library)
    → lookup id l.documents ≡ none
    → ((j : String)
        → lookup j (Library.documents (put_back id o l))
          ≡ (if j == id then o else lookup j l.documents))
      × ((put_back id o l).trash ≡ l.trash)
      × ((put_back id o l).workspaces ≡ l.workspaces)
      × ((put_back id o l).held ≡ l.held)
put_back_lem id none l gone = (λ j. ground (arith, same_iff j id), refl, refl, refl)
put_back_lem id (some d) l gone = (λ j. lookup-insert id j d l.documents, refl, refl, refl)

pub except-either {κ μ} :
    {A : Type κ} (P : A → Type μ) (r : Result {0, 0} StoreError Unit) (handler next : A)
    → P handler
    → P next
    → P (except r handler next)
except-either P (ok u) handler next h k = k
except-either P (err e) handler next h k = h

pub if-either {κ μ} :
    {A : Type κ} (P : A → Type μ) (b : Bool) (x y : A)
    → (b ≡ true → P x)
    → (b ≡ false → P y)
    → P (if b then x else y)
if-either P true x y h k = h refl
if-either P false x y h k = k refl

module _ (place : Place) (id name : String) (l : Library) (fresh : lookup name l.trash ≡ none) where
  not_deleted-Whole :
      (what : String) → WholeAt place id name l (not_deleted what name (make_directory name l))
  not_deleted-Whole what = (
    (
      λ j. refl,
      λ w. refl,
      make-remove name l (make_directory name l) fresh
          (λ n ne. lookup-insert_ne name n _ l.trash ne),
    ),
    refl,
  )

  moved-Whole :
      (manifest : Manifest)
      → DocumentMoved id name l
          (move_to_trash id name (lookup id l.documents) manifest (make_directory name l))
  moved-Whole manifest = (
    λ j. lookup-without id j l.documents,
    λ n. ground (
      arith,
      lookup-insert name n (record { metadata = lookup id l.documents; manifest = some manifest })
          (Library.trash (make_directory name l)),
      lookup-insert name n (record { metadata = none; manifest = none }) l.trash,
    ),
  )

  pub trash_metadata-Whole :
      (moves : Moves) (deleted_at : String)
      → place [] none
      → WholeAt place id name l (trash_metadata moves id name deleted_at (make_directory name l))
  unfolding trash_metadata
  trash_metadata-Whole moves deleted_at stays_there =
      let manifest = manifest_of deleted_at none in
      except-either (WholeAt place id name l) (write_trash_manifest moves.manifest manifest) _ _
        (not_deleted-Whole "legacy metadata")
        (if-either (WholeAt place id name l) moves.metadata _ _
          (λ moved. ((moved-Whole manifest, ([], stays_there, λ w. refl)), refl))
          (λ stays. not_deleted-Whole "legacy metadata"))

  take_back-Whole :
      (moves : Moves) (manifest : Manifest)
      → moves.rollback ≡ true
      → WholeAt place id name l (
          take_back moves id name
            (lookup id l.documents)
            (move_to_trash id name (lookup id l.documents) manifest (make_directory name l)))
  take_back-Whole moves manifest works =
      if-either (WholeAt place id name l) moves.rollback _ _
        (λ back.
          let moved =
            move_to_trash id name (lookup id l.documents) manifest (make_directory name l) in
          let (documents, trash, workspaces, held) =
            put_back_lem id (lookup id l.documents) moved
              (ground (arith, lookup-without id id l.documents, eq_self id)) in
          (
            (
              λ j. ground (arith, documents j, lookup-without id j l.documents, same_iff j id),
              λ w. ap (lookup w) workspaces,
              make-remove name l (put_back id (lookup id l.documents) moved) fresh (λ n ne.
                  ap (lookup n) trash
                  ∙ lookup-insert_ne name n _ _ ne
                  ∙ lookup-insert_ne name n _ l.trash ne),
            ),
            held,
          ))
        (λ fails. absurd (cc))

  trash_workspace-Whole :
      (moves : Moves) (manifest : Manifest) (workspace destination : FilePath) (o : Option Marker)
      → moves.rollback ≡ true
      → lookup workspace l.workspaces ≡ o
      → place workspace (some destination)
      → WholeAt place id name l (
          trash_workspace moves id name
            (lookup id l.documents)
            workspace
            destination
            o
            (move_to_trash id name (lookup id l.documents) manifest (make_directory name l)))
  trash_workspace-Whole moves manifest workspace destination none works stands there =
      take_back-Whole moves manifest works
  trash_workspace-Whole moves manifest workspace destination (some marker) works stands there =
      if-either (WholeAt place id name l) moves.workspace _ _
        (λ moved. (
          (
            moved-Whole manifest,
            (
              workspace,
              there,
              λ w. ground (
                arith,
                lookup-insert destination w marker (without workspace l.workspaces),
                lookup-without workspace w l.workspaces,
              ),
            ),
          ),
          refl,
        ))
        (λ stays. take_back-Whole moves manifest works)

  pub trash_both-Whole :
      (moves : Moves) (deleted_at : String) (workspace destination : FilePath)
      → moves.rollback ≡ true
      → place workspace (some destination)
      → WholeAt place id name l
          (trash_both moves id name deleted_at workspace destination (make_directory name l))
  unfolding trash_both
  trash_both-Whole moves deleted_at workspace destination works there =
      let manifest = manifest_of deleted_at (some destination) in
      except-either (WholeAt place id name l) (write_trash_manifest moves.manifest manifest) _ _
        (not_deleted-Whole "project")
        (if-either (WholeAt place id name l) moves.metadata _ _
          (λ moved.
            trash_workspace-Whole moves manifest workspace destination
              (lookup workspace l.workspaces) works refl there)
          (λ stays. not_deleted-Whole "project"))
