-- ===== src/Desktop/Project/Classes.antt =====
-- What `_classify` of apps/desktop/project_store.py leaves of a project.
use gaussian_os.Prelude.{
  true, false, ◌≡◌, ◌≢◌, List, [], ◌∷◌, ◌++◌, string_eq, list_eq, contains, filter, length, leb,
  arith, Bool-cases, inl, inr, String, eq_self,
}
use gaussian_os.Desktop.Paths.{FilePath, is_isolated}
use gaussian_os.Desktop.Project.{
  Project, warn, shares_root, root_key, is_shared, in_compatibility, classified, shared_warning,
  compatibility_warning,
}

contains-append : (w : String) (ws : List String) → contains w (ws ++ w ∷ []) ≡ true
contains-append w [] = ground (arith, eq_self w)
contains-append w (v ∷ ws) = ground (arith, contains-append w ws)

-- The project after the warning holds it.
warn-contains : (w : String) (p : Project) → contains w (Project.warnings (warn w p)) ≡ true
warn-contains w p = ground (arith, contains-append w p.warnings)

warn-workspace_kind :
    (w : String) (p : Project) → Project.workspace_kind (warn w p) ≡ p.workspace_kind
warn-workspace_kind w p = ground arith

in_compatibility-workspace_kind :
    (p : Project) → Project.workspace_kind (in_compatibility p) ≡ p.workspace_kind
in_compatibility-workspace_kind p = ground (arith, warn-workspace_kind compatibility_warning p)

-- The project is the only one outside the isolated workspaces with its root, and no project in the
-- trash has that root.
abbrev pub OwnsRoot : (FilePath → FilePath) → List FilePath → List Project → Project → Type 0
OwnsRoot normcase trashed projects p =
    (leb 2 (length (filter (shares_root normcase (root_key normcase p)) projects)) ≡ false)
    × (contains (root_key normcase p) trashed ≡ false)

pub classified-OwnsRoot :
    (normcase : FilePath → FilePath) (trashed : List FilePath) (projects : List Project)
    (p : Project)
    → Project.workspace_kind (classified normcase trashed projects p) ≢ "legacy_shared"
    → is_isolated p.workspace_kind ≡ false
    → OwnsRoot normcase trashed projects p
unfolding is_shared classified
classified-OwnsRoot normcase trashed projects p ne legacy =
    elim (Bool-cases (is_shared normcase trashed projects p)) [
      | inl shared ↦ absurd (
          ne (
            ground (
              arith,
              warn-workspace_kind shared_warning
                  (record (in_compatibility p) { workspace_kind = "legacy_shared" }),
            )))
      | inr alone ↦ ground arith
    ]
