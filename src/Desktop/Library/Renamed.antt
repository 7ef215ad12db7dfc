-- ===== src/Desktop/Library/Renamed.antt =====
-- What `rename` and `set_archived` of apps/desktop/project_store.py return, and who may write.
use gaussian_os.Prelude.{
  String, Bool, true, ◌≡◌, ◌≢◌, refl, sym, ap, ◌∙◌, subst, Option, none, some, List, ◌∷◌, ◌==◌,
  string_eq, list_eq, pair_eq, Result, ok, err, if◌then◌else◌, lookup, without, same_iff,
  Bool-cases, inl, inr, ◌⊎◌, arith,
}
use gaussian_os.Desktop.Paths.{FilePath, ProjectPaths, is_isolated}
use gaussian_os.Desktop.Durable.{Volume}
use gaussian_os.Desktop.Project.{Project, classified, classify}
use gaussian_os.Desktop.Project.Classes.{OwnsRoot, classified-OwnsRoot}
use gaussian_os.Desktop.Library.{
  StoreError, StateDocument, Library, StoreAction, ◌>>=◌, and_then, with_lock, take_lock,
  checked_id, load, own_document, raw_projects, classified_among, trashed_legacy_roots, first_of,
}
use gaussian_os.Desktop.Library.Update.{
  returning, write_state, write_project, updated, update_project, assert_unique_workspace,
  with_lifecycle, rename, set_archived, required_name, renamed, archived_as, assert_idle,
  ensure_writable, paths, ensure_workspace,
}
use gaussian_os.Desktop.Library.Outcome.{checked_id-eq_ok}

pub >>=-eq_ok {ℓ κ μ} :
    {E : Type ℓ} {A : Type κ} {B : Type μ} (m : Result E A) (f : A → Result E B) (b : B)
    → (m >>= f) ≡ ok b
    → (a : A) × (m ≡ ok a) × (f a ≡ ok b)
>>=-eq_ok (ok a) f b h = (a, refl, h)
>>=-eq_ok (err e) f b h = absurd (cc)

>>=-assoc {ℓ κ μ ν} :
    {E : Type ℓ} {A : Type κ} {B : Type μ} {C : Type ν} (m : Result E A) (f : A → Result E B)
    (g : B → Result E C)
    → ((m >>= f) >>= g) ≡ (m >>= λ a. f a >>= g)
>>=-assoc (ok a) f g = refl
>>=-assoc (err e) f g = refl

>>=-assoc_pair {ℓ κ μ ν ξ} :
    {E : Type ℓ} {A : Type κ} {B : Type μ} {C : Type ν} {D : Type ξ} (m : Result E A)
    (f : A → Result E B) (g : A → B → Result E C) (h : C → Result E D)
    → ((m >>= λ a. f a >>= g a) >>= h) ≡ (m >>= λ a. f a >>= λ b. g a b >>= h)
>>=-assoc_pair (ok a) f g h = >>=-assoc (f a) (g a) h
>>=-assoc_pair (err e) f g h = refl

and_then-eq_ok {κ} :
    {A : Type κ} {B : Type 0} (check : Result StoreError A) (act : A → StoreAction B) (l : Library)
    (b : B)
    → (and_then check act l).0 ≡ ok b
    → (a : A) × (check ≡ ok a) × ((act a l).0 ≡ ok b)
and_then-eq_ok (ok a) act l b h = (a, refl, h)
and_then-eq_ok (err e) act l b h = absurd (cc)

with_lock-eq_ok :
    {A : Type 0} (id operation : String) (body : StoreAction A) (l : Library) (a : A)
    → (with_lock id operation body l).0 ≡ ok a
    → (body (take_lock id operation l)).0 ≡ ok a
unfolding with_lock
with_lock-eq_ok id operation body l a h = ground arith

returning-eq_ok : (p q : Project) (r : Result {0, 0} StoreError Unit) → returning p r ≡ ok q → q ≡ p
returning-eq_ok p q (ok u) h = cc
returning-eq_ok p q (err e) h = absurd (cc)

assert_idle-eq_ok :
    (operation : String) (p q : Project)
    → assert_idle operation p ≡ ok q
    → (p.status ≢ "running") × (q ≡ p)
assert_idle-eq_ok operation p q h = ground (arith, same_iff p.status "running")

renamed-eq_ok :
    (name : String) (p q : Project)
    → renamed name p ≡ ok q
    → (p.status ≢ "running") × (q ≡ record p { name = name })
renamed-eq_ok name p q h = ground (arith, same_iff p.status "running")

archived_as-eq_ok :
    (changed : String) (archived : Bool) (p q : Project)
    → archived_as changed archived p ≡ ok q
    → (p.status ≢ "running")
      × (q
          ≡ record p { archived = archived; archived_at = if archived then some changed else none })
archived_as-eq_ok changed archived p q h = ground (arith, same_iff p.status "running")

required_name-eq_ok :
    (name display_name : String)
    → required_name name ≡ ok display_name
    → (name ≢ "") × (display_name ≡ name)
required_name-eq_ok name display_name h = ground (arith, same_iff name "")

own_document-eq_ok :
    (id : String) (o : Option StateDocument) (p : Project)
    → own_document id o ≡ ok p
    → o ≡ some (StateDocument.readable p)
own_document-eq_ok id none p h = absurd (cc)
own_document-eq_ok id (some StateDocument.broken) p h = absurd (cc)
own_document-eq_ok id (some (StateDocument.readable q)) p h = cc

allowed_kind :
    (p : Project) (given : Result StoreError ProjectPaths) (found : ProjectPaths)
    → (if p.workspace_kind == "legacy_shared" then err StoreError.unsafe_workspace else given)
      ≡ ok found
    → p.workspace_kind ≢ "legacy_shared"
allowed_kind p given found h = ground (arith, same_iff p.workspace_kind "legacy_shared")

module _ (normcase : FilePath → FilePath) where
  write_project-eq_ok :
      (volume : Volume) (now id : String) (p q : Project) (l : Library)
      → (write_project normcase volume now id p l).0 ≡ ok q
      → q ≡ record p { updated_at = now }
  unfolding write_project
  write_project-eq_ok volume now id p q l h =
      let saved = record p { updated_at = now } in
      let (u, checked, written) =
        and_then-eq_ok (assert_unique_workspace normcase p l)
          (λ u before. let (r, l') = write_state volume id saved before in (returning saved r, l'))
          l q h in
      returning-eq_ok saved q (write_state volume id saved l).0 written

  pub load-eq_ok :
      (id : String) (l : Library) (q : Project)
      → load normcase id l ≡ ok q
      → (p : Project) × (others : List Project) × (lookup id l.documents
          ≡ some (StateDocument.readable p))
        × (raw_projects (without id l.documents) ≡ ok others)
        × (q ≡ classified normcase (trashed_legacy_roots normcase l.trash) (p ∷ others) p)
  unfolding load classified_among classify
  load-eq_ok id l q h =
      let (stem, checked, read) =
        >>=-eq_ok (checked_id id)
          (λ stem.
            own_document stem (lookup stem l.documents) >>= λ p. classified_among normcase stem p l)
          q h in
      let (p, own, among) =
        >>=-eq_ok (own_document stem (lookup stem l.documents))
          (λ p. classified_among normcase stem p l) q read in
      let (others, raw, result) =
        >>=-eq_ok (raw_projects (without stem l.documents))
          (λ others.
            ok
              (first_of p (classify normcase (trashed_legacy_roots normcase l.trash) (p ∷ others))))
          q among in
      let same = checked_id-eq_ok id stem checked in
      (
        p,
        others,
        subst (λ stem. lookup stem l.documents ≡ some (StateDocument.readable p)) same
            (own_document-eq_ok stem (lookup stem l.documents) p own),
        subst (λ stem. raw_projects (without stem l.documents) ≡ ok others) same raw,
        cc,
      )

  -- The read of `update_project` is that of `load`.
  updated-load :
      (id : String) (update : Project → Result StoreError Project) (l : Library)
      → updated normcase id update l ≡ (load normcase id l >>= update)
  unfolding updated load
  updated-load id update l = sym (
      >>=-assoc_pair (checked_id id) (λ stem. own_document stem (lookup stem l.documents))
        (λ stem p. classified_among normcase stem p l) update)

  pub update_project-eq_ok :
      (volume : Volume) (now id : String) (update : Project → Result StoreError Project)
      (l : Library) (q : Project)
      → (update_project normcase volume now id update l).0 ≡ ok q
      → (p : Project) × (changed : Project) × (load normcase id l ≡ ok p)
        × (update p ≡ ok changed)
        × (q ≡ record changed { updated_at = now })
  unfolding update_project updated classified_among load
  update_project-eq_ok volume now id update l q h =
      let held = take_lock id "state" l in
      let (changed, read, written) =
        and_then-eq_ok (updated normcase id update held) (write_project normcase volume now id) held
          q
          (with_lock-eq_ok id "state"
            (λ l'.
              and_then (updated normcase id update l') (write_project normcase volume now id) l')
            l q h) in
      let (p, loaded, update) =
        >>=-eq_ok (load normcase id held) update changed
          (sym (updated-load id update held) ∙ read) in
      (p, changed, loaded, update, write_project-eq_ok volume now id changed q held written)

  with_lifecycle-eq_ok :
      (id : String) (body : StoreAction Project) (l : Library) (q : Project)
      → (with_lifecycle id body l).0 ≡ ok q
      → (body (take_lock id "run" (take_lock id "lifecycle" l))).0 ≡ ok q
  unfolding with_lifecycle
  with_lifecycle-eq_ok id body l q h =
      let (stem, checked, locked) =
        and_then-eq_ok (checked_id id)
          (λ stem. with_lock stem "lifecycle" (with_lock stem "run" body)) l q h in
      let run = with_lock-eq_ok stem "lifecycle" (with_lock stem "run" body) l q locked in
      subst (λ stem. (body (take_lock stem "run" (take_lock stem "lifecycle" l))).0 ≡ ok q)
        (checked_id-eq_ok id stem checked)
        (with_lock-eq_ok stem "run" body (take_lock stem "lifecycle" l) q run)

  -- When `rename` returns a project, it is the one that `load` found before, which was not running,
  -- with the new name, which is not empty, and the time of the write: identity, paths, stages and
  -- every other field are those that it had.
  pub rename-load :
      (volume : Volume) (now id name : String) (l : Library) (q : Project)
      → (rename normcase volume now id name l).0 ≡ ok q
      → (p : Project) × (load normcase id l ≡ ok p)
        × (name ≢ "")
        × (p.status ≢ "running")
        × (q ≡ record p { name = name; updated_at = now })
  unfolding rename load classified_among
  rename-load volume now id name l q h =
      let (display_name, required, run) =
        and_then-eq_ok (required_name name)
          (λ display_name.
            with_lifecycle id (update_project normcase volume now id (renamed display_name)))
          l q h in
      let (p, changed, loaded, update, saved) =
        update_project-eq_ok volume now id (renamed display_name)
          (take_lock id "run" (take_lock id "lifecycle" l)) q
          (with_lifecycle-eq_ok id (update_project normcase volume now id (renamed display_name)) l
            q run) in
      let (idle, change) = renamed-eq_ok display_name p changed update in
      let (present, same) = required_name-eq_ok name display_name required in
      (p, loaded, present, idle, cc)

  -- When `set_archived` returns a project, it is the one that `load` found before, which was not
  -- running, archived or not as asked, at the time of the change or at none, and with the time of the
  -- write.
  pub set_archived-load :
      (volume : Volume) (changed now id : String) (archived : Bool) (l : Library) (q : Project)
      → (set_archived normcase volume changed now id archived l).0 ≡ ok q
      → (p : Project) × (load normcase id l ≡ ok p)
        × (p.status ≢ "running")
        × (q ≡ record p {
          archived = archived;
          archived_at = if archived then some changed else none;
          updated_at = now;
        })
  unfolding set_archived load classified_among
  set_archived-load volume changed now id archived l q h =
      let (p, after, loaded, update, saved) =
        update_project-eq_ok volume now id (archived_as changed archived)
          (take_lock id "run" (take_lock id "lifecycle" l)) q
          (with_lifecycle-eq_ok id
            (update_project normcase volume now id (archived_as changed archived)) l q h) in
      let (idle, change) = archived_as-eq_ok changed archived p after update in
      (p, loaded, idle, cc)

  -- `ensure_writable` gives the paths of a project only if the project has an isolated workspace, or if
  -- no other project outside the isolated workspaces, in the library or in the trash, has its root.
  pub ensure_writable-OwnsRoot :
      (id : String) (l : Library) (found : ProjectPaths)
      → (ensure_writable normcase id l).0 ≡ ok found
      → (p : Project) × (others : List Project) × (lookup id l.documents
          ≡ some (StateDocument.readable p))
        × (raw_projects (without id l.documents) ≡ ok others)
        × ((is_isolated p.workspace_kind ≡ true)
            ⊎ OwnsRoot normcase (trashed_legacy_roots normcase l.trash) (p ∷ others) p)
  unfolding ensure_writable
  ensure_writable-OwnsRoot id l found h =
      let (gave, writable, same) =
        and_then-eq_ok
          (load normcase id l >>= λ p.
            if p.workspace_kind == "legacy_shared"
            then err StoreError.unsafe_workspace
            else paths normcase p l)
          (λ found before. (ok found, ensure_workspace found.workspace before)) l found h in
      let (q, loaded, allowed) =
        >>=-eq_ok (load normcase id l)
          (λ p.
            if p.workspace_kind == "legacy_shared"
            then err StoreError.unsafe_workspace
            else paths normcase p l)
          gave writable in
      let (p, others, own, raw, classes) = load-eq_ok id l q loaded in
      let unshared = allowed_kind q (paths normcase q l) gave allowed in
      (
        p,
        others,
        own,
        raw,
        elim (Bool-cases (is_isolated p.workspace_kind)) [
          | inl isolated ↦ inl isolated
          | inr legacy ↦ inr (
              classified-OwnsRoot normcase (trashed_legacy_roots normcase l.trash) (p ∷ others) p
                (λ kind. unshared (ap Project.workspace_kind classes ∙ kind)) legacy)
        ],
      )
