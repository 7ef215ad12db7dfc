-- ===== src/Store/Outputs.antt =====
-- The outputs of an attempt while `commit` of packages/artifact_store/store.py works on them.
use gaussian_os.Prelude.{
  ◌+◌, String, ◌≡◌, ◌≢◌, refl, sym, ◌∙◌, ap, subst, Option, none, some, List, [], ◌∷◌, Result, ok,
  err, arith, ◌==◌, string_eq, list_eq, same_iff, Bool-cases, Option-cases, inl, inr, lookup,
  lookup-insert_self,
}
use gaussian_os.Contracts.Artifact.{ArtifactManifest}
use gaussian_os.Store.Tree.{
  Node, file, folder, symlink, special, Entries, bare, find, put, erase, find-put, find-erase_ne,
}
use gaussian_os.Store.World.{Exc, AttemptDir, Supply, pop, World, Document, Host, resume}
use gaussian_os.Store.Attempt.{
  AttemptHandle, key_of, temporary_name, write_and_replace, clean_up, atomic_write_json,
  artifact_output_name,
}
use gaussian_os.Store.Validate.{outputs_of}
use gaussian_os.Store.Commit.{set_outputs, write_into, write_named, write_manifest, write_manifests}

-- The files of an artifact's directory.
abbrev pub files_in : Node → Entries
files_in (folder es) = es
files_in _ = bare

-- Every file is as before, the manifest and the temporary files of its write excepted.
abbrev pub KeepsFiles : Host → Entries → Entries → Type 0
KeepsFiles h before after =
    (other : String)
    → other ≢ "artifact.manifest.json"
    → ((s : Supply) → other ≢ temporary_name h "artifact.manifest.json" s)
    → find other after ≡ find other before

find-put_ne :
    (a b : String) (node : Node) (es : Entries) → a ≢ b → find a (put b node es) ≡ find a es
find-put_ne a b node es ne = ground (arith, find-put a b node es, same_iff a b)

module _ (other temporary name : String) (apart : other ≢ temporary) (aside : other ≢ name) where
  write_and_replace-other :
      (bytes : List _) (es : Entries) (s : Supply)
      → find other (write_and_replace temporary name bytes es s).1 ≡ find other es
  unfolding write_and_replace
  write_and_replace-other bytes es s =
      let written = put temporary (file bytes) es in
      ground (
        arith,
        find-put_ne other temporary (file []) es apart,
        find-put_ne other temporary (file bytes) es apart,
        find-erase_ne other temporary written apart,
        find-put_ne other name (file bytes) (erase temporary written) aside,
      )

  clean_up-other :
      (r : Result {0, 0} Exc Unit) (es : Entries) (s : Supply)
      → find other (clean_up temporary (r, es, s)).1 ≡ find other es
  unfolding clean_up
  clean_up-other r es s = ground (arith, find-erase_ne other temporary es apart)

atomic_write_json-KeepsFiles :
    (h : Host) (d : Document) (es : Entries) (s : Supply)
    → KeepsFiles h es (atomic_write_json h "artifact.manifest.json" d es s).1
unfolding atomic_write_json
atomic_write_json-KeepsFiles h d es s other aside apart = elim (Bool-cases (pop s).0) [
  | inl fails ↦ rw fails refl
  | inr works ↦
      let temporary = temporary_name h "artifact.manifest.json" (pop s).1 in
      let drawn = record ((pop s).1) { drawn = ((pop s).1).drawn + 1 } in
      let step = write_and_replace temporary "artifact.manifest.json" (h.json d) es drawn in
      rw works (
        clean_up-other other temporary "artifact.manifest.json" (apart (pop s).1) aside step.0
          step.1 step.2
        ∙ write_and_replace-other other temporary "artifact.manifest.json" (apart (pop s).1) aside
            (h.json d) es drawn)
]

pub set_outputs-outputs :
    (a : AttemptHandle) (id : String) (node : Node) (es : Entries) (w : World)
    → find id (outputs_of a w) ≡ some node
    → outputs_of a (set_outputs a es w) ≡ es
unfolding find
set_outputs-outputs a id node es w h = elim (Option-cases (lookup (key_of a) w.attempts)) [
  | inl missing ↦
      let gone : some node ≡ none =
        sym h
        ∙ ap (λ (o : Option AttemptDir). find id (elim o [ none ↦ bare | some dir ↦ dir.outputs ]))
            missing in
      absurd (cc gone)
  | inr (dir, there) ↦
      ground (arith, there, lookup-insert_self (key_of a) (record dir { outputs = es }) w.attempts)
]

-- What is found in the directory after, was there before, with the same files.
abbrev pub KeepsOutputs : Host → Entries → Entries → Type 0
KeepsOutputs h before after =
    (id : String) (node : Node)
    → find id after ≡ some node
    → (old : Node) × (find id before ≡ some old) × KeepsFiles h (files_in old) (files_in node)

KeepsOutputs-refl : (h : Host) (es : Entries) → KeepsOutputs h es es
KeepsOutputs-refl h es id node found = (node, found, λ other aside apart. refl)

KeepsOutputs-trans :
    (h : Host) (es fs gs : Entries)
    → KeepsOutputs h es fs
    → KeepsOutputs h fs gs
    → KeepsOutputs h es gs
KeepsOutputs-trans h es fs gs one two id node found =
    let (middle, there, same) = two id node found in
    let (old, here, before) = one id middle there in
    (old, here, λ other aside apart. same other aside apart ∙ before other aside apart)

replaced-KeepsOutputs :
    (h : Host) (name : String) (old new : Entries) (es : Entries)
    → find name es ≡ some (folder old)
    → KeepsFiles h old new
    → KeepsOutputs h es (put name (folder new) es)
replaced-KeepsOutputs h name old new es there kept id node found = elim (Bool-cases (id == name)) [
  | inl same ↦
      let is_new : some (folder new) ≡ some node =
        sym (find-put id name (folder new) es ∙ rw same refl) ∙ found in
      (
        folder old,
        ground (arith, same, same_iff id name, there),
        subst (λ o. KeepsFiles h old (files_of o)) is_new kept,
      )
  | inr differs ↦ (
    node,
    sym (find-put id name (folder new) es ∙ rw differs refl) ∙ found,
    λ other aside apart. refl,
  )
]
  where
    files_of : Option Node → Entries
    files_of none = bare
    files_of (some n) = files_in n

write_folder-KeepsOutputs :
    (h : Host) (a : AttemptHandle) (d : Document) (name : String) (old : Entries) (w : World)
    → find name (outputs_of a w) ≡ some (folder old)
    → let (r, new, s) = atomic_write_json h "artifact.manifest.json" d old w.supply in
      KeepsOutputs h
        (outputs_of a w)
        (outputs_of a (set_outputs a (put name (folder new) (outputs_of a w)) w))
write_folder-KeepsOutputs h a d name old w there =
    let new = (atomic_write_json h "artifact.manifest.json" d old w.supply).1 in
    subst (KeepsOutputs h (outputs_of a w))
      (sym
        (set_outputs-outputs a name (folder old) (put name (folder new) (outputs_of a w)) w there))
      (replaced-KeepsOutputs h name old new (outputs_of a w) there
        (atomic_write_json-KeepsFiles h d old w.supply))

module _ (h : Host) (a : AttemptHandle) where
  write_into-KeepsOutputs :
      (m : ArtifactManifest) (name : String) (o : Option Node) (w : World)
      → find name (outputs_of a w) ≡ o
      → KeepsOutputs h (outputs_of a w) (outputs_of a (write_into h a m name o w).1)
  write_into-KeepsOutputs m name none w e = KeepsOutputs-refl h (outputs_of a w)
  write_into-KeepsOutputs m name (some (file bytes)) w e = KeepsOutputs-refl h (outputs_of a w)
  write_into-KeepsOutputs m name (some symlink) w e = KeepsOutputs-refl h (outputs_of a w)
  write_into-KeepsOutputs m name (some special) w e = KeepsOutputs-refl h (outputs_of a w)
  write_into-KeepsOutputs m name (some (folder es)) w e =
      write_folder-KeepsOutputs h a (Document.artifact m) name es w e

  write_named-KeepsOutputs :
      (m : ArtifactManifest) (r : Result Exc String) (w : World)
      → KeepsOutputs h (outputs_of a w) (outputs_of a (write_named h a m r w).1)
  write_named-KeepsOutputs m (err e) w = KeepsOutputs-refl h (outputs_of a w)
  write_named-KeepsOutputs m (ok name) w =
      write_into-KeepsOutputs m name (find name (outputs_of a w)) w refl

  write_manifest-KeepsOutputs :
      (m : ArtifactManifest) (w : World)
      → KeepsOutputs h (outputs_of a w) (outputs_of a (write_manifest h a m w).1)
  unfolding write_manifest
  write_manifest-KeepsOutputs m w =
      write_named-KeepsOutputs m (artifact_output_name m.artifact_id) w

  resume-KeepsOutputs :
      (r : Result {0, 0} Exc Unit) (ms : List ArtifactManifest) (w : World)
      → KeepsOutputs h (outputs_of a w) (outputs_of a (write_manifests h a ms w).1)
      → KeepsOutputs h (outputs_of a w) (outputs_of a (resume r (λ _. write_manifests h a ms) w).1)
  resume-KeepsOutputs (ok u) ms w kept = kept
  resume-KeepsOutputs (err e) ms w kept = KeepsOutputs-refl h (outputs_of a w)

  -- The manifests are written into the artifacts' directories, whose other files stay as they are.
  pub write_manifests-KeepsOutputs :
      (ms : List ArtifactManifest) (w : World)
      → KeepsOutputs h (outputs_of a w) (outputs_of a (write_manifests h a ms w).1)
  unfolding write_manifests
  write_manifests-KeepsOutputs [] w = KeepsOutputs-refl h (outputs_of a w)
  write_manifests-KeepsOutputs (m ∷ ms) w =
      let (r, w1) = write_manifest h a m w in
      KeepsOutputs-trans h (outputs_of a w) (outputs_of a w1) _ (write_manifest-KeepsOutputs m w)
        (resume-KeepsOutputs r ms w1 (write_manifests-KeepsOutputs ms w1))
