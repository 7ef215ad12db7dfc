-- ===== src/Desktop/Library/RoundTrip/Checked.antt =====
-- What a `delete` of apps/desktop/project_store.py that returns has checked of an isolated project.
use gaussian_os.Prelude.{
  String, true, ◌≡◌, refl, sym, ◌∙◌, subst, Option, none, some, List, ◌∷◌, string_eq, list_eq,
  pair_eq, option_eq, Result, ok, err, lookup, same_iff, arith,
}
use gaussian_os.Desktop.Paths.{
  FilePath, Marker, ProjectPaths, is_isolated, IdentityError, safe_identity,
  validate_isolated_identity, check_marker,
}
use gaussian_os.Desktop.Project.{Project, from_project, classified, library_of}
use gaussian_os.Desktop.Library.{StateDocument, Library, ◌>>=◌, load, trashed_legacy_roots}
use gaussian_os.Desktop.Library.Update.{paths, marker_of, raised_identity, none_raised}
use gaussian_os.Desktop.Library.Renamed.{>>=-eq_ok, load-eq_ok}
use gaussian_os.Desktop.Library.Trash.Whole.{new_directory-eq_ok}
use gaussian_os.Desktop.Library.Trash.{not_running, new_directory, deletable}

abbrev pub paths_of : Project → ProjectPaths
paths_of p = record {
  project_id = p.project_id;
  library_root = library_of p;
  workspace = p.root;
  workspace_kind = p.workspace_kind;
}

from_project-eq_ok :
    (p : Project) (found : ProjectPaths) → from_project p ≡ ok found → found ≡ paths_of p
unfolding from_project safe_identity
from_project-eq_ok p found h = ground arith

pub classified_isolated :
    (normcase : FilePath → FilePath) (trashed : List FilePath) (projects : List Project)
    (p : Project)
    → is_isolated p.workspace_kind ≡ true
    → classified normcase trashed projects p ≡ p
unfolding classified
classified_isolated normcase trashed projects p isolated = ground arith

check_marker-eq_none :
    (id : String) (o : Option Marker)
    → check_marker id (marker_of o) ≡ none
    → o ≡ some (Marker.marks (some id))
check_marker-eq_none id none h = absurd (cc)
check_marker-eq_none id (some Marker.no_marker) h = absurd (cc)
check_marker-eq_none id (some (Marker.marks o)) h = ground (arith, same_iff o (some id))

validate-eq_none :
    (normcase : FilePath → FilePath) (o : Option Marker) (found : ProjectPaths)
    → is_isolated found.workspace_kind ≡ true
    → validate_isolated_identity normcase (marker_of o) found ≡ none
    → o ≡ some (Marker.marks (some found.project_id))
unfolding validate_isolated_identity
validate-eq_none normcase o found isolated h =
    ground (arith, check_marker-eq_none found.project_id o)

none_raised-eq_ok :
    {A : Type 0} (a b : A) (o : Option IdentityError)
    → none_raised a o ≡ ok b
    → (o ≡ none) × (b ≡ a)
none_raised-eq_ok a b none h = (refl, cc)
none_raised-eq_ok a b (some e) h = absurd (cc)

raised_identity-eq_ok :
    {A : Type 0} (r : Result IdentityError A) (a : A) → raised_identity r ≡ ok a → r ≡ ok a
raised_identity-eq_ok (ok b) a h = cc
raised_identity-eq_ok (err e) a h = absurd (cc)

module _ (normcase : FilePath → FilePath) where
  pub paths-eq_ok :
      (p : Project) (l : Library) (found : ProjectPaths)
      → is_isolated p.workspace_kind ≡ true
      → paths normcase p l ≡ ok found
      → (found ≡ paths_of p)
        × (lookup p.root l.workspaces ≡ some (Marker.marks (some p.project_id)))
  unfolding paths
  paths-eq_ok p l found isolated h =
      let (f, from, valid) =
        >>=-eq_ok (raised_identity (from_project p))
          (λ f.
            none_raised f
              (validate_isolated_identity normcase (marker_of (lookup f.workspace l.workspaces)) f))
          found h in
      let same = from_project-eq_ok p f (raised_identity-eq_ok (from_project p) f from) in
      let (passed, result) =
        none_raised-eq_ok f found
          (validate_isolated_identity normcase (marker_of (lookup f.workspace l.workspaces)) f)
          valid in
      (
        result ∙ same,
        validate-eq_none normcase (lookup p.root l.workspaces) (paths_of p) isolated (
            subst
              (λ f.
                validate_isolated_identity normcase (marker_of (lookup f.workspace l.workspaces)) f
                ≡ none)
              same passed),
      )

not_running-eq_ok : (p q : Project) → not_running p ≡ ok q → q ≡ p
not_running-eq_ok p q h = ground arith

module _ (normcase : FilePath → FilePath) (p : Project)
    (isolated : is_isolated p.workspace_kind ≡ true) where
  pub load_isolated :
      (id : String) (l : Library) (q : Project)
      → lookup id l.documents ≡ some (StateDocument.readable p)
      → load normcase id l ≡ ok q
      → q ≡ p
  load_isolated id l q own loaded =
      let (raw, others, same, read, classes) = load-eq_ok normcase id l q loaded in
      let equal : raw ≡ p = cc in
      classes
      ∙ subst
          (λ raw.
            classified normcase (trashed_legacy_roots normcase l.trash) (raw ∷ others) raw ≡ p)
          (sym equal)
          (classified_isolated normcase (trashed_legacy_roots normcase l.trash) (p ∷ others) p
            isolated)

  pub deletable-eq_ok :
      (id name : String) (l : Library) (q : Project) (found : ProjectPaths)
      → lookup id l.documents ≡ some (StateDocument.readable p)
      → deletable normcase id name l ≡ ok (q, found)
      → (q ≡ p)
        × (found ≡ paths_of p)
        × (lookup p.root l.workspaces ≡ some (Marker.marks (some p.project_id)))
        × (lookup name l.trash ≡ none)
        × (load normcase id l ≡ ok p)
  unfolding deletable
  deletable-eq_ok id name l q found own h =
      let (current, loaded, idle) =
        >>=-eq_ok (load normcase id l)
          (λ current. not_running current >>= λ p.
            paths normcase p l >>= λ found. new_directory name l >>= λ made. ok (p, found))
          (q, found) h in
      let (r, running, pathed) =
        >>=-eq_ok (not_running current)
          (λ p. paths normcase p l >>= λ found. new_directory name l >>= λ made. ok (p, found))
          (q, found) idle in
      let (ps, checked, made) =
        >>=-eq_ok (paths normcase r l) (λ found. new_directory name l >>= λ made. ok (r, found))
          (q, found) pathed in
      let (u, new, same) = >>=-eq_ok (new_directory name l) (λ made. ok (r, ps)) (q, found) made in
      let current_p = load_isolated id l current own loaded in
      let r_p = not_running-eq_ok current r running ∙ current_p in
      let (ps_of, marked) =
        paths-eq_ok normcase p l ps isolated
          (subst (λ r. paths normcase r l ≡ ok ps) r_p checked) in
      (cc, cc, marked, new_directory-eq_ok name l new, cc)
