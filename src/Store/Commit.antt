-- ===== src/Store/Commit.antt =====
-- `commit` and `_acquire_commit_locks` of packages/artifact_store/store.py.
use Prim.Native.String.{compare}
use text.Mathlib.Text.{is_le}
use gaussian_os.Prelude.{
  ℕ, zero, suc, ◌+◌, String, Bool, true, false, Option, none, some, List, [], ◌∷◌, map, ◌==◌,
  string_eq, list_eq, ℕ_eq, Result, ok, err, contains, is_some, lookup, insert, if◌then◌else◌,
}
use gaussian_os.Contracts.Artifact.{ArtifactManifest}
use gaussian_os.Contracts.Outcome.{artifact_ids}
use gaussian_os.Store.Tree.{Node, folder, Entries, find, put, erase}
use gaussian_os.Store.World.{Exc, pop, Locks, World, Document, Host, Action, ◌>>◌, pure}
use gaussian_os.Store.Attempt.{AttemptHandle, key_of, artifact_output_name, atomic_write_json}
use gaussian_os.Store.Validate.{outputs_of, validate_artifacts}

pub record CommitRecord : Type 0 where
  pub artifact_id : String
  pub manifest_sha256 : String

-- sorted(...) of texts: by their code points
abbrev pub text_leb : String → String → Bool
text_leb s t = is_le (compare s t)

unfoldable pub insert_sorted : String → List String → List String
insert_sorted s [] = s ∷ []
insert_sorted s (t ∷ ts) = if text_leb s t then s ∷ t ∷ ts else t ∷ insert_sorted s ts

unfoldable pub sorted : List String → List String
unfolding insert_sorted
sorted [] = []
sorted (s ∷ ss) = insert_sorted s (sorted ss)

abbrev pub drop_one : String → List String → List String
drop_one s [] = []
drop_one s (t ∷ ts) = if s == t then ts else t ∷ drop_one s ts

-- What a release, and all that follows it, gives by the head of the faults. `FileLock.release` closes the
-- stream and gives back the local lock also when it raises.
abbrev pub next_faults : List Bool → List Bool
next_faults [] = []
next_faults (f ∷ fs) = fs

abbrev pub next_fails : List Bool → Bool
next_fails [] = false
next_fails (f ∷ fs) = f

abbrev pub release_one : String → Locks → Locks
release_one id l = record { held = drop_one id l.held; unlock_faults = next_faults l.unlock_faults }

-- for lock in reversed(locks): lock.release(); an exception leaves the locks that are left
unfoldable pub release_each : List String → Locks → Result Exc (Unit {0}) × Locks
release_each [] l = (ok tt, l)
release_each (id ∷ ids) l =
    let rest = release_each ids (release_one id l) in
    if next_fails l.unlock_faults then (err Exc.os_error, release_one id l) else rest

-- An exception of the releases takes the place of how the call ended.
abbrev pub replaced_end {κ} : {A : Type κ} → Result {0, 0} Exc Unit → Result Exc A → Result Exc A
replaced_end (ok u) r = r
replaced_end (err e) r = err e

abbrev pub release_all : {A : Type 0} → List String → Result Exc A → World → Result Exc A × World
release_all ids r w =
    let (released, l) = release_each ids w.locks in
    (replaced_end released r, record w { locks = l })

-- The loop of `_acquire_commit_locks`. `acquired` has the latest first. Taking the lock of an id that
-- anybody holds, this call included, is refused at once: the timeout is zero.
unfoldable pub acquire_each : List String → List String → Action (List String)
unfolding release_each
acquire_each [] acquired w = (ok acquired, w)
acquire_each (id ∷ ids) acquired w =
    let (open_fails, s) = pop w.supply in
    let opened = record w { supply = s } in
    let rest =
      acquire_each ids (id ∷ acquired)
        (record opened { locks = record (w.locks) { held = id ∷ w.locks.held } }) in
    if open_fails
    then release_all acquired (err Exc.os_error) opened
    else if contains id w.locks.held
    then release_all acquired (err Exc.conflict_error) opened
    else rest

unfoldable pub acquire_commit_locks : List ArtifactManifest → Action (List String)
acquire_commit_locks ms = acquire_each (sorted (artifact_ids ms)) []

abbrev pub set_outputs : AttemptHandle → Entries → World → World
set_outputs a outputs w = elim (lookup (key_of a) w.attempts) [
  | none ↦ w
  | some dir ↦ record w {
    attempts = insert (key_of a) (record dir { outputs = outputs }) w.attempts;
  }
]

-- `atomic_write_json` of the manifest into the artifact's own directory, if that is what is there
abbrev pub write_into : Host → AttemptHandle → ArtifactManifest → String → Option Node → Action Unit
write_into h a m name (some (folder es)) w =
    let (r, es', s) =
      atomic_write_json h "artifact.manifest.json" (Document.artifact m) es w.supply in
    (r, record (set_outputs a (put name (folder es') (outputs_of a w)) w) { supply = s })
write_into h a m name _ w = (err Exc.os_error, w)

abbrev pub write_named : Host → AttemptHandle → ArtifactManifest → Result Exc String → Action Unit
write_named h a m (err e) w = (err e, w)
write_named h a m (ok name) w = write_into h a m name (find name (outputs_of a w)) w

unfoldable pub write_manifest : Host → AttemptHandle → ArtifactManifest → Action Unit
unfolding find put atomic_write_json artifact_output_name
write_manifest h a m = write_named h a m (artifact_output_name m.artifact_id)

unfoldable pub write_manifests : Host → AttemptHandle → List ArtifactManifest → Action Unit
write_manifests h a [] = pure tt
write_manifests h a (m ∷ ms) = do write_manifest h a m; write_manifests h a ms

-- os.replace(outputs/id, artifacts/id)
unfoldable pub move_out : AttemptHandle → String → Action Unit
unfolding find put erase
move_out a id w =
    let (fails, s) = pop w.supply in
    let w' = record w { supply = s } in
    elim (find id (outputs_of a w)) [
      | none ↦ (err Exc.os_error, w')
      | some node ↦ if fails then (err Exc.os_error, w') else (
        ok tt,
        record (set_outputs a (erase id (outputs_of a w)) w') {
          artifacts = put id node w.artifacts;
        },
      )
    ]

-- os.replace(artifacts/id, outputs/id), to undo it
unfoldable pub move_back : AttemptHandle → String → Action Unit
unfolding find put erase
move_back a id w =
    let (fails, s) = pop w.supply in
    let w' = record w { supply = s } in
    elim (find id w.artifacts) [
      | none ↦ (err Exc.os_error, w')
      | some node ↦ if fails then (err Exc.os_error, w') else (
        ok tt,
        record (set_outputs a (put id node (outputs_of a w)) w') {
          artifacts = erase id w.artifacts;
        },
      )
    ]

abbrev pub record_of : Host → ArtifactManifest → CommitRecord
record_of h m = record {
  artifact_id = m.artifact_id;
  manifest_sha256 = h.sha256 (h.json (Document.artifact m));
}

-- How the moves ended: the exception if one stopped them, and `committed`, the latest first.
abbrev pub Moved : Type 0
Moved = Option Exc × List ArtifactManifest × World

-- The second loop of the `try`.
unfoldable pub move_each :
    AttemptHandle → List ArtifactManifest → List ArtifactManifest → World → Moved
move_each a [] committed w = (none, committed, w)
move_each a (m ∷ ms) committed w =
    if is_some (find m.artifact_id w.artifacts)
    then (some Exc.conflict_error, committed, w)
    else let (r, w') = move_out a m.artifact_id w in
      elim r [ err e ↦ (some e, committed, w') | ok _ ↦ move_each a ms (m ∷ committed) w' ]

-- The loop of the `except`: the number of `rollback_errors`.
unfoldable pub roll_back : AttemptHandle → List ArtifactManifest → World → ℕ × World
roll_back a [] w = (0, w)
roll_back a (m ∷ committed) w =
    let (r, w1) = move_back a m.artifact_id w in
    let (errors, w2) = roll_back a committed w1 in
    (elim r [ ok _ ↦ errors | err _ ↦ errors + 1 ], w2)

-- isinstance(exc, ArtifactStoreError)
abbrev pub is_store_error : Exc → Bool
is_store_error Exc.value_error = false
is_store_error Exc.os_error = false
is_store_error _ = true

-- The end of the `except`.
abbrev pub reraised : Exc → ℕ → Exc
reraised e zero = if is_store_error e then e else Exc.commit_error 0
reraised e (suc n) = Exc.commit_error (suc n)

abbrev pub settle :
    Host → AttemptHandle → List ArtifactManifest → Moved → Result Exc (List CommitRecord) × World
settle h a ms (none, committed, w) = (ok (map (record_of h) ms), w)
settle h a ms (some e, committed, w) =
    let (errors, w') = roll_back a committed w in (err (reraised e errors), w')

-- The second half of the inner `try` of `commit`, after the manifests were written or not.
abbrev pub after_writes :
    Host
    → AttemptHandle
    → List ArtifactManifest
    → Result Exc (Unit {0})
    → World
    → Result Exc (List CommitRecord) × World
after_writes h a ms (err e) w = settle h a ms (some e, [], w)
after_writes h a ms (ok _) w = settle h a ms (move_each a ms [] w)

-- The inner `try` of `commit`.
unfoldable pub publish : Host → AttemptHandle → List ArtifactManifest → Action (List CommitRecord)
publish h a ms w = let (written, w1) = write_manifests h a ms w in after_writes h a ms written w1

unfoldable pub validate_and_publish :
    Host → AttemptHandle → List ArtifactManifest → Action (List CommitRecord)
validate_and_publish h a ms = do validate_artifacts h a ms; publish h a ms

-- The outer `try` of `commit`, with the release of the locks in its `finally`, which may raise
abbrev pub with_locks :
    Host
    → AttemptHandle
    → List ArtifactManifest
    → Result Exc (List String)
    → World
    → Result Exc (List CommitRecord) × World
with_locks h a ms (err e) w = (err e, w)
with_locks h a ms (ok ids) w = let (r, w') = validate_and_publish h a ms w in release_all ids r w'

unfoldable pub commit : Host → AttemptHandle → List ArtifactManifest → Action (List CommitRecord)
commit h a ms w = let (locks, w1) = acquire_commit_locks ms w in with_locks h a ms locks w1
