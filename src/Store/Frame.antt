-- ===== src/Store/Frame.antt =====
-- What the steps of packages/artifact_store/store.py that work on one attempt leave alone.
use gaussian_os.Prelude.{
  String, Bool, true, false, not, ◌≡◌, refl, Option, none, some, List, [], ◌∷◌, ◌∙◌, Result, ok,
  err, arith, is_empty, is_unique, ◌==◌, string_eq, list_eq, if◌then◌else◌,
}
use gaussian_os.Contracts.Artifact.{ArtifactFile, ArtifactManifest}
use gaussian_os.Contracts.Outcome.{artifact_ids}
use gaussian_os.Store.Tree.{Node, file, folder, symlink, special, Entries, find}
use gaussian_os.Store.World.{
  Exc, Supply, pop, Locks, World, Host, Action, ◌>>=◌, raise, attempt_io, resume,
}
use gaussian_os.Store.Attempt.{AttemptHandle, artifact_output_name}
use gaussian_os.Store.Validate.{
  check_files, check_tree, check_root, check_named, walk_entries, validate_artifact, validate_each,
  validate_artifacts, outputs_of, returned,
}
use gaussian_os.Store.Commit.{write_manifest, write_manifests}

-- However the action ends, what `view` shows of the world is as before.
pub record Keeps {A X : Type 0} (view : World → X) (m : Action A) : Type 0 where
  pub at : (w : World) → view (m w).1 ≡ view w

module _ {X : Type 0} (view : World → X) where
  resume-at :
      {A B : Type 0} (r : Result Exc A) (f : A → Action B) (w : World)
      → ((a : A) → Keeps view (f a))
      → view (resume r f w).1 ≡ view w
  resume-at (ok a) f w kf = (kf a).at w
  resume-at (err e) f w kf = refl

  pub Keeps-bind :
      {A B : Type 0} (m : Action A) (f : A → Action B)
      → Keeps view m
      → ((a : A) → Keeps view (f a))
      → Keeps view (m >>= f)
  Keeps-bind m f km kf = record { at = λ w. let (r, w') = m w in resume-at r f w' kf ∙ km.at w }

  pub Keeps-returned : {A : Type 0} (r : Result Exc A) → Keeps view (returned r)
  Keeps-returned r = record { at = λ w. refl }

  pub Keeps-if :
      {A : Type 0} (b : Bool) (m n : Action A)
      → Keeps view m
      → Keeps view n
      → Keeps view (if b then m else n)
  Keeps-if true m n km kn = km
  Keeps-if false m n km kn = kn

-- Validation only reads: it keeps every view that does not show the environment.
module _ {X : Type 0} (view : World → X)
    (blind : (w : World) (s : Supply) → view (record w { supply = s }) ≡ view w) where
  pub io-Keeps : Keeps view attempt_io
  io-Keeps = record { at = λ w. blind w (pop w.supply).1 }

  check_files-Keeps :
      (h : Host) (files : List ArtifactFile) (es : Entries) → Keeps view (check_files h files es)
  unfolding check_files
  check_files-Keeps h [] es = Keeps-returned view (ok tt)
  check_files-Keeps h (f ∷ files) es =
      Keeps-bind view _ _ io-Keeps
        λ _. Keeps-bind view _ _ (Keeps-returned view _) λ _. check_files-Keeps h files es

  check_tree-Keeps :
      (h : Host) (m : ArtifactManifest) (actual : Result Exc (List String)) (es : Entries)
      → Keeps view (check_tree h m actual es)
  check_tree-Keeps h m (err e) es = Keeps-returned view (err e)
  check_tree-Keeps h m (ok actual) es =
      Keeps-if view _ _ _ (check_files-Keeps h m.files es)
        (Keeps-returned view (err Exc.validation_error))

  check_root-Keeps :
      (h : Host) (m : ArtifactManifest) (o : Option Node) → Keeps view (check_root h m o)
  check_root-Keeps h m (some (folder es)) = check_tree-Keeps h m (walk_entries "" es) es
  check_root-Keeps h m (some (file bytes)) = Keeps-returned view (err Exc.validation_error)
  check_root-Keeps h m (some symlink) = Keeps-returned view (err Exc.validation_error)
  check_root-Keeps h m (some special) = Keeps-returned view (err Exc.validation_error)
  check_root-Keeps h m none = Keeps-returned view (err Exc.validation_error)

  check_named-Keeps :
      (h : Host) (a : AttemptHandle) (m : ArtifactManifest) (r : Result Exc String)
      → Keeps view (check_named h a m r)
  check_named-Keeps h a m (err e) = Keeps-returned view (err e)
  check_named-Keeps h a m (ok name) = record {
    at = λ w. (check_root-Keeps h m (find name (outputs_of a w))).at w;
  }

  refused : Keeps view (raise {A = Unit {0}} Exc.validation_error)
  refused = Keeps-returned view (err Exc.validation_error)

  pub validate_artifact-Keeps :
      (h : Host) (a : AttemptHandle) (m : ArtifactManifest) → Keeps view (validate_artifact h a m)
  unfolding validate_artifact
  validate_artifact-Keeps h a m =
      Keeps-if view (not (m.source_attempt_id == a.attempt_id)) _ _ refused (
        Keeps-if view (not (m.source_request_id == a.request_id)) _ _ refused
          (check_named-Keeps h a m (artifact_output_name m.artifact_id)))

  validate_each-Keeps :
      (h : Host) (a : AttemptHandle) (ms : List ArtifactManifest)
      → Keeps view (validate_each h a ms)
  unfolding validate_each
  validate_each-Keeps h a [] = Keeps-returned view (ok tt)
  validate_each-Keeps h a (m ∷ ms) =
      Keeps-bind view _ _ (validate_artifact-Keeps h a m) λ _. validate_each-Keeps h a ms

  pub validate_artifacts-Keeps :
      (h : Host) (a : AttemptHandle) (ms : List ArtifactManifest)
      → Keeps view (validate_artifacts h a ms)
  unfolding validate_artifacts
  validate_artifacts-Keeps h a ms =
      Keeps-if view (is_empty ms) _ _ refused
        (Keeps-if view (not (is_unique (artifact_ids ms))) _ _ refused (validate_each-Keeps h a ms))

abbrev pub shelf : World → Entries
shelf w = w.artifacts

abbrev pub locks : World → Locks
locks w = w.locks

write_manifest-shelf :
    (h : Host) (a : AttemptHandle) (m : ArtifactManifest) → Keeps shelf (write_manifest h a m)
unfolding write_manifest
write_manifest-shelf h a m = record { at = λ w. ground arith }

write_manifest-locks :
    (h : Host) (a : AttemptHandle) (m : ArtifactManifest) → Keeps locks (write_manifest h a m)
unfolding write_manifest
write_manifest-locks h a m = record { at = λ w. ground arith }

module _ {X : Type 0} (view : World → X) (h : Host) (a : AttemptHandle)
    (each_manifest : (m : ArtifactManifest) → Keeps view (write_manifest h a m)) where
  write_each-Keeps : (ms : List ArtifactManifest) → Keeps view (write_manifests h a ms)
  unfolding write_manifests
  write_each-Keeps [] = Keeps-returned view (ok tt)
  write_each-Keeps (m ∷ ms) = Keeps-bind view _ _ (each_manifest m) λ _. write_each-Keeps ms

pub write_manifests-shelf :
    (h : Host) (a : AttemptHandle) (ms : List ArtifactManifest)
    → Keeps shelf (write_manifests h a ms)
write_manifests-shelf h a = write_each-Keeps shelf h a (write_manifest-shelf h a)

pub write_manifests-locks :
    (h : Host) (a : AttemptHandle) (ms : List ArtifactManifest)
    → Keeps locks (write_manifests h a ms)
write_manifests-locks h a = write_each-Keeps locks h a (write_manifest-locks h a)
