-- ===== src/Desktop/Library/Outcome.antt =====
-- What the writes of apps/desktop/project_store.py leave of the documents and of the locks.
use gaussian_os.Prelude.{
  String, Bool, true, false, not, ◌≡◌, ◌≢◌, refl, sym, ap, subst, ◌∙◌, Option, none, some, List, [],
  ◌∷◌, ◌==◌, string_eq, list_eq, pair_eq, Result, ok, err, lookup, contains, filter, same_iff,
  eq_self, Bool-cases, inl, inr, arith, lookup-insert_ne, lookup-insert_self,
}
use gaussian_os.Desktop.Paths.{FilePath}
use gaussian_os.Desktop.Durable.{Volume, WriteError, File, write_json}
use gaussian_os.Desktop.Durable.Outcome.{IsAtomic, write_json-IsAtomic}
use gaussian_os.Desktop.Project.{Project}
use gaussian_os.Desktop.Library.{
  StoreError, StateDocument, Library, StoreAction, and_then, with_lock, take_lock, drop_lock,
  checked_id,
}
use gaussian_os.Desktop.Library.Update.{
  put_state, raised_write, returning, write_state, write_project, updated, update_project,
  assert_unique_workspace, with_lifecycle, set_archived, archived_as,
}

-- Everything but the documents is as before, and so is every document but that of the id.
abbrev pub KeepsOthers : String → Library → Library → Type 0
KeepsOthers id l l' =
    ((j : String) → j ≢ id → lookup j l'.documents ≡ lookup j l.documents)
    × (l'.trash ≡ l.trash)
    × (l'.workspaces ≡ l.workspaces)
    × (l'.held ≡ l.held)

-- The document of the id is the project after success, and as before after an error.
abbrev pub Writes : String → Result StoreError Project → Library → Library → Type 0
Writes id (ok q) l l' = lookup id l'.documents ≡ some (StateDocument.readable q)
Writes id (err e) l l' = lookup id l'.documents ≡ lookup id l.documents

put_state-KeepsOthers :
    (id : String) (o : Option StateDocument) (l : Library) → KeepsOthers id l (put_state id o l)
put_state-KeepsOthers id none l = (λ j ne. refl, refl, refl, refl)
put_state-KeepsOthers id (some d) l =
    (λ j ne. lookup-insert_ne id j d l.documents ne, refl, refl, refl)

put_state-same :
    (id : String) (o : Option StateDocument) (l : Library)
    → o ≡ lookup id l.documents
    → lookup id (Library.documents (put_state id o l)) ≡ lookup id l.documents
put_state-same id none l same = refl
put_state-same id (some d) l same = lookup-insert_self id d l.documents ∙ same

abbrev pub WritesDocument :
    String → Project → Result {0, 0} StoreError Unit → Library → Library → Type 0
WritesDocument id p (ok u) l l' = lookup id l'.documents ≡ some (StateDocument.readable p)
WritesDocument id p (err e) l l' = lookup id l'.documents ≡ lookup id l.documents

raised_write-WritesDocument :
    (id : String) (p : Project) (l : Library) (r : Result {0, 0} WriteError Unit)
    (o : Option StateDocument)
    → IsAtomic (StateDocument.readable p) (lookup id l.documents) r o
    → WritesDocument id p (raised_write r) l (put_state id o l)
raised_write-WritesDocument id p l (ok u) (some d) h = lookup-insert_self id d l.documents ∙ h
raised_write-WritesDocument id p l (ok u) none h = absurd (cc)
raised_write-WritesDocument id p l (err e) o h = put_state-same id o l h

write_state-WritesDocument :
    (volume : Volume) (id : String) (p : Project) (l : Library)
    → let (r, l') = write_state volume id p l in WritesDocument id p r l l' × KeepsOthers id l l'
unfolding write_state
write_state-WritesDocument volume id p l =
    let file : File StateDocument = record {
      document = lookup id l.documents;
      has_temporary = false;
      slept = 0;
    } in
    let call = write_json volume (StateDocument.readable p) file in
    (
      raised_write-WritesDocument id p l call.0 call.1.document
          (write_json-IsAtomic volume (StateDocument.readable p) file).0,
      put_state-KeepsOthers id call.1.document l,
    )

returning-Writes :
    (id : String) (p : Project) (r : Result {0, 0} StoreError Unit) (l l' : Library)
    → WritesDocument id p r l l'
    → Writes id (returning p r) l l'
returning-Writes id p (ok u) l l' h = h
returning-Writes id p (err e) l l' h = h

-- Where a call ends: the id's document and the rest of the library.
abbrev pub Outcome : String → Library → Result StoreError Project × Library → Type 0
Outcome id l (r, l') = Writes id r l l' × KeepsOthers id l l'

unchanged : (id : String) (l : Library) → KeepsOthers id l l
unchanged id l = (λ j ne. refl, refl, refl, refl)

and_then-Outcome {κ} :
    {A : Type κ} (id : String) (check : Result StoreError A) (act : A → StoreAction Project)
    (l : Library)
    → ((a : A) → check ≡ ok a → Outcome id l (act a l))
    → Outcome id l (and_then check act l)
and_then-Outcome id (ok a) act l h = h a refl
and_then-Outcome id (err e) act l h = (refl, unchanged id l)

filter-acquired :
    (key : String × String) (held : List (String × String))
    → contains key held ≡ false
    → filter (λ k. not (k == key)) held ≡ held
filter-acquired key [] free = refl
filter-acquired key (k ∷ held) free =
    ground (arith, same_iff k key, same_iff key k, filter-acquired key held)

pub filter-released :
    (key : String × String) (held : List (String × String))
    → contains key held ≡ false
    → filter (λ k. not (k == key)) (key ∷ held) ≡ held
filter-released key held free = ground (arith, eq_self key, filter-acquired key held free)

module _ {A : Type 0} (id operation : String) (body : StoreAction A) (l : Library) where
  pub with_lock-busy :
      contains (id, operation) l.held ≡ true
      → with_lock id operation body l ≡ (err (StoreError.lock_busy operation), l)
  unfolding with_lock
  with_lock-busy busy = ground arith

  pub with_lock-free :
      contains (id, operation) l.held ≡ false
      → with_lock id operation body l
        ≡ (let (r, l') = body (take_lock id operation l) in (r, drop_lock id operation l'))
  unfolding with_lock
  with_lock-free free = ground arith

released-Outcome :
    (id operation : String) (l : Library) (r : Result StoreError Project) (l' : Library)
    → contains (id, operation) l.held ≡ false
    → Outcome id (take_lock id operation l) (r, l')
    → Outcome id l (r, drop_lock id operation l')
released-Outcome id operation l (ok q) l' free h = (
  h.0,
  (
    h.1.0,
    h.1.1,
    h.1.2,
    ap (filter (λ k. not (k == (id, operation)))) h.1.3
        ∙ filter-released (id, operation) l.held free,
  ),
)
released-Outcome id operation l (err e) l' free h = (
  h.0,
  (
    h.1.0,
    h.1.1,
    h.1.2,
    ap (filter (λ k. not (k == (id, operation)))) h.1.3
        ∙ filter-released (id, operation) l.held free,
  ),
)

with_lock-Outcome :
    (id operation : String) (body : StoreAction Project) (l : Library)
    → (contains (id, operation) l.held ≡ false
        → Outcome id (take_lock id operation l) (body (take_lock id operation l)))
    → Outcome id l (with_lock id operation body l)
with_lock-Outcome id operation body l h = elim (Bool-cases (contains (id, operation) l.held)) [
  | inl busy ↦
      subst (Outcome id l) (sym (with_lock-busy id operation body l busy)) (refl, unchanged id l)
  | inr free ↦
      let (r, l') = body (take_lock id operation l) in
      subst (Outcome id l) (sym (with_lock-free id operation body l free)) (
        released-Outcome id operation l (body (take_lock id operation l)).0
          (body (take_lock id operation l)).1 free (h free))
]

pub checked_id-eq_ok : (id stem : String) → checked_id id ≡ ok stem → stem ≡ id
unfolding checked_id
checked_id-eq_ok id stem h = ground arith

with_lifecycle-Outcome :
    (id : String) (body : StoreAction Project) (l : Library)
    → ((l : Library) → Outcome id l (body l))
    → Outcome id l (with_lifecycle id body l)
unfolding with_lifecycle
with_lifecycle-Outcome id body l h =
    and_then-Outcome id (checked_id id)
      (λ stem. with_lock stem "lifecycle" (with_lock stem "run" body)) l
      (λ stem same.
        subst (λ stem. Outcome id l (with_lock stem "lifecycle" (with_lock stem "run" body) l))
          (sym (checked_id-eq_ok id stem same))
          (with_lock-Outcome id "lifecycle" (with_lock id "run" body) l (λ free.
            with_lock-Outcome id "run" body (take_lock id "lifecycle" l)
              (λ free'. h (take_lock id "run" (take_lock id "lifecycle" l))))))

module _ (normcase : FilePath → FilePath) where
  write_project-Outcome :
      (volume : Volume) (now id : String) (p : Project) (l : Library)
      → Outcome id l (write_project normcase volume now id p l)
  unfolding write_project
  write_project-Outcome volume now id p l =
      let saved = record p { updated_at = now } in
      let written = write_state-WritesDocument volume id saved l in
      and_then-Outcome id (assert_unique_workspace normcase p l)
        (λ u before. let (r, l') = write_state volume id saved before in (returning saved r, l')) l
        (λ u same. (
          returning-Writes id saved (write_state volume id saved l).0 l
              (write_state volume id saved l).1 written.0,
          written.1,
        ))

  pub update_project-Outcome :
      (volume : Volume) (now id : String) (update : Project → Result StoreError Project)
      (l : Library)
      → Outcome id l (update_project normcase volume now id update l)
  unfolding update_project
  update_project-Outcome volume now id update l =
      with_lock-Outcome id "state"
        (λ l'. and_then (updated normcase id update l') (write_project normcase volume now id) l') l
        (λ free.
          let held = take_lock id "state" l in
          and_then-Outcome id (updated normcase id update held)
            (write_project normcase volume now id) held
            (λ p same. write_project-Outcome volume now id p held))

  pub set_archived-Outcome :
      (volume : Volume) (changed now id : String) (archived : Bool) (l : Library)
      → Outcome id l (set_archived normcase volume changed now id archived l)
  unfolding set_archived
  set_archived-Outcome volume changed now id archived l =
      with_lifecycle-Outcome id
        (update_project normcase volume now id (archived_as changed archived)) l
        (update_project-Outcome volume now id (archived_as changed archived))
