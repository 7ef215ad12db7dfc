-- ===== src/Store/Atomic.antt =====
-- `commit` of packages/artifact_store/store.py and the published artifacts, whatever the environment does
-- to its file operations.
use gaussian_os.Prelude.{
  ℕ, zero, suc, String, true, ◌≡◌, ◌⊎◌, refl, subst, ◌∙◌, ap, none, some, List, [], ◌∷◌, ◌++◌, map,
  Result, ok, err, arith, inl, inr, string_eq, All,
}
use gaussian_os.Contracts.Artifact.{ArtifactManifest}
use gaussian_os.Contracts.Outcome.{artifact_ids}
use gaussian_os.Store.Tree.{Node, Entries, bare, find, names}
use gaussian_os.Store.World.{Exc, Locks, Supply, World, Host, pop, resume}
use gaussian_os.Store.Attempt.{AttemptHandle}
use gaussian_os.Store.Validate.{outputs_of, validate_artifacts}
use gaussian_os.Store.Commit.{
  CommitRecord, Moved, record_of, sorted, move_each, roll_back, reraised, settle, after_writes,
  with_locks, write_manifests, publish, validate_and_publish, acquire_each, acquire_commit_locks,
  release_each, release_all, replaced_end, commit,
}
use gaussian_os.Store.Outputs.{files_in, KeepsFiles, KeepsOutputs, write_manifests-KeepsOutputs}
use gaussian_os.Store.Frame.{shelf, validate_artifacts-Keeps, write_manifests-shelf}
use gaussian_os.Store.Rollback.{
  Came, AllMoved, All-each_other, Stacked, move_each-Stacked, roll_back-Stacked, move_each_ok,
}
use gaussian_os.Store.Locks.{
  can_fail, taking, Balanced, Among-self, acquire_each-Balanced, inner-locks, release_each-raises,
}

-- The artifact was among the outputs of the attempt and not yet published; its directory is published
-- now, with every file as it was there, the manifest excepted.
abbrev pub Arrived : Host → Entries → Entries → Entries → ArtifactManifest → Type 0
Arrived h outputs before after m =
    (old : Node) × (node : Node) × (find m.artifact_id outputs ≡ some old)
    × (find m.artifact_id before ≡ none)
    × (find m.artifact_id after ≡ some node)
    × KeepsFiles h (files_in old) (files_in node)

-- Every artifact of `ms` has arrived on the shelf from the outputs, at its end and in order, and what
-- was there is still there.
pub record IsPublished (h : Host) (outputs : Entries) (ms : List ArtifactManifest)
    (before after : Entries) : Type 0 where
  pub added : names after ≡ names before ++ artifact_ids ms
  pub kept : (id : String) (node : Node) → find id before ≡ some node → find id after ≡ some node
  pub arrived : All (Arrived h outputs before after) ms

-- A call that left the shelf as it was, or whose error reports at least one failed step of the rollback.
abbrev pub NothingDone : Entries → Exc → Entries → Type 0
NothingDone before e after = (after ≡ before) ⊎ ((n : ℕ) × (e ≡ Exc.commit_error (suc n)))

-- What a call of `commit` leaves on the shelf, by how it ended, before its locks are released.
abbrev pub AllOrNothing :
    Host
    → Entries
    → List ArtifactManifest
    → Entries
    → Result Exc (List CommitRecord)
    → Entries
    → Type 0
AllOrNothing h outputs ms before (ok records) after =
    IsPublished h outputs ms before after × (records ≡ map (record_of h) ms)
AllOrNothing h outputs ms before (err e) after = NothingDone before e after

-- And after it: where a release raises, the call raises its OSError in place of what it would have
-- returned or raised.
abbrev pub Ended :
    Host
    → Entries
    → List ArtifactManifest
    → Entries
    → Locks
    → Result Exc (List CommitRecord) × World
    → Type 0
Ended h outputs ms before locks (r, w) =
    AllOrNothing h outputs ms before r w.artifacts
    ⊎ ((r ≡ err Exc.os_error)
        × (can_fail locks.unlock_faults ≡ true)
        × ((r' : Result Exc (List CommitRecord)) × AllOrNothing h outputs ms before r' w.artifacts))

-- `AllOrNothing` of a call's outcome.
abbrev Does :
    Host
    → Entries
    → List ArtifactManifest
    → Entries
    → Result Exc (List CommitRecord) × World
    → Type 0
Does h outputs ms before (r, w) = AllOrNothing h outputs ms before r w.artifacts

settle-AllOrNothing :
    (h : Host) (a : AttemptHandle) (outputs : Entries) (ms : List ArtifactManifest)
    (before : Entries) (moved : Moved)
    → (moved.0 ≡ none → IsPublished h outputs ms before (moved.2).artifacts)
    → Stacked before moved.1 (moved.2).artifacts
    → Does h outputs ms before (settle h a ms moved)
settle-AllOrNothing h a outputs ms before (none, committed, w) done stacked = (done refl, refl)
settle-AllOrNothing h a outputs ms before (some e, committed, w) done stacked =
    undo (roll_back a committed w).0 refl
  where
    undo :
        (n : ℕ)
        → (roll_back a committed w).0 ≡ n
        → Does h outputs ms before (settle h a ms (some e, committed, w))
    undo zero h0 = inl (roll_back-Stacked a before committed w stacked h0)
    undo (suc n) h0 = inr (n, ap (reraised e) h0)

-- What came to the shelf from the outputs, arrived from what they were before the manifests.
Arrived-earlier :
    (h : Host) (outputs written before after : Entries) (m : ArtifactManifest)
    → KeepsOutputs h outputs written
    → Came written before after m
    → Arrived h outputs before after m
Arrived-earlier h outputs written before after m keeps (node, found, new, shelved) =
    let (old, there, same) = keeps m.artifact_id node found in
    (old, node, there, new, shelved, same)

published :
    (h : Host) (outputs written before after : Entries) (ms : List ArtifactManifest)
    → KeepsOutputs h outputs written
    → AllMoved written before after ms
    → IsPublished h outputs ms before after
published h outputs written before after ms keeps moved = record {
  added = moved.added;
  kept = moved.kept;
  arrived =
      All-each_other ms (λ m. Arrived-earlier h outputs written before after m keeps) moved.came;
}

module _ (h : Host) (a : AttemptHandle) (outputs : Entries) (ms : List ArtifactManifest) where
  after_writes-AllOrNothing :
      (written : Result Exc (Unit {0})) (w : World)
      → KeepsOutputs h outputs (outputs_of a w)
      → Does h outputs ms w.artifacts (after_writes h a ms written w)
  after_writes-AllOrNothing (err e) w keeps =
      settle-AllOrNothing h a outputs ms w.artifacts (some e, [], w) (λ e. cc) refl
  after_writes-AllOrNothing (ok _) w keeps =
      settle-AllOrNothing h a outputs ms w.artifacts (move_each a ms [] w)
        (λ e.
          published h outputs (outputs_of a w) w.artifacts (move_each a ms [] w).2.artifacts ms
            keeps (move_each_ok a ms [] w e))
        (move_each-Stacked a w.artifacts ms [] w refl)

  publish-AllOrNothing :
      (w : World) → outputs_of a w ≡ outputs → Does h outputs ms w.artifacts (publish h a ms w)
  unfolding publish
  publish-AllOrNothing w same =
      let (written, w1) = write_manifests h a ms w in
      subst (λ before. Does h outputs ms before (after_writes h a ms written w1))
        ((write_manifests-shelf h a ms).at w)
        (after_writes-AllOrNothing written w1 (
          subst (λ es. KeepsOutputs h es (outputs_of a w1)) same
            (write_manifests-KeepsOutputs h a ms w)))

  resume-AllOrNothing :
      (r : Result Exc (Unit {0})) (w : World)
      → outputs_of a w ≡ outputs
      → Does h outputs ms w.artifacts (resume r (λ _. publish h a ms) w)
  resume-AllOrNothing (ok _) w same = publish-AllOrNothing w same
  resume-AllOrNothing (err e) w same = inl refl

  inner-AllOrNothing :
      (w : World)
      → outputs_of a w ≡ outputs
      → Does h outputs ms w.artifacts (validate_and_publish h a ms w)
  unfolding validate_and_publish
  inner-AllOrNothing w same =
      let (r, w1) = validate_artifacts h a ms w in
      subst (λ before. Does h outputs ms before (resume r (λ _. publish h a ms) w1))
        ((validate_artifacts-Keeps shelf (λ w s. refl) h a ms).at w)
        (resume-AllOrNothing r w1
          ((validate_artifacts-Keeps (outputs_of a) (λ w s. refl) h a ms).at w ∙ same))

  released :
      (before : Entries) (locks : Locks) (ids : List String) (r : Result Exc (List CommitRecord))
      (w : World)
      → w.locks ≡ taking ids locks
      → AllOrNothing h outputs ms before r w.artifacts
      → Ended h outputs ms before locks (release_all ids r w)
  released before locks ids r w taken p = by_release (release_each ids w.locks).0 refl
    where
      by_release :
          (given : Result {0, 0} Exc Unit)
          → (release_each ids w.locks).0 ≡ given
          → Ended h outputs ms before locks
              (replaced_end given r, record w { locks = (release_each ids w.locks).1 })
      by_release (ok u) e = inl p
      by_release (err x) e =
          let (raised, fault) = release_each-raises ids locks w x taken e in
          inr (ap err raised, fault, (r, p))

  with_locks-Ended :
      (before : Entries) (locks : Locks) (r : Result Exc (List String)) (w : World)
      → outputs_of a w ≡ outputs
      → w.artifacts ≡ before
      → Balanced (sorted (artifact_ids ms)) locks (r, w)
      → Ended h outputs ms before locks (with_locks h a ms r w)
  with_locks-Ended before locks (err e) w same shelf_same taken = inl (inl shelf_same)
  with_locks-Ended before locks (ok ids) w same shelf_same taken =
      let (r, w') = validate_and_publish h a ms w in
      released before locks ids r w' (inner-locks h a ms w ∙ taken.0)
        (subst (λ b. Does h outputs ms b (r, w')) shelf_same (inner-AllOrNothing w same))

Arrived-bare :
    (h : Host) (outputs before after : Entries) (m : ArtifactManifest)
    → Arrived h bare before after m
    → Arrived h outputs before after m
unfolding find
Arrived-bare h outputs before after m (old, node, there, new, shelved, same) = absurd (cc there)

AllOrNothing-bare :
    (h : Host) (outputs : Entries) (ms : List ArtifactManifest) (before : Entries)
    (r : Result Exc (List CommitRecord)) (after : Entries)
    → AllOrNothing h bare ms before r after
    → AllOrNothing h outputs ms before r after
AllOrNothing-bare h outputs ms before (ok records) after (published, same) = (
  record {
    added = published.added;
    kept = published.kept;
    arrived = All-each_other ms (Arrived-bare h outputs before after) published.arrived;
  },
  same,
)
AllOrNothing-bare h outputs ms before (err e) after p = p

-- Nothing arrives from an attempt without outputs, so what is said of it holds with any outputs.
pub Ended-bare :
    (h : Host) (outputs : Entries) (ms : List ArtifactManifest) (before : Entries) (locks : Locks)
    (out : Result Exc (List CommitRecord) × World)
    → Ended h bare ms before locks out
    → Ended h outputs ms before locks out
Ended-bare h outputs ms before locks (r, w) (inl done) =
    inl (AllOrNothing-bare h outputs ms before r w.artifacts done)
Ended-bare h outputs ms before locks (r, w) (inr (raised, fault, (r', inner))) =
    inr (raised, fault, (r', AllOrNothing-bare h outputs ms before r' w.artifacts inner))

-- The acquisition changes the environment and the locks only.
acquire_each-view :
    {X : Type 0} (view : World → X)
    → ((w : World) (s : Supply) (l : Locks) → view (record w { supply = s; locks = l }) ≡ view w)
    → (ids acquired : List String) (w : World) → view (acquire_each ids acquired w).1 ≡ view w
unfolding acquire_each
acquire_each-view view blind [] acquired w = refl
acquire_each-view view blind (id ∷ ids) acquired w =
    let s = (pop w.supply).1 in
    let locked = record w { supply = s; locks = record (w.locks) { held = id ∷ w.locks.held } } in
    ground (
      arith,
      blind w s (release_each acquired w.locks).1,
      blind w s locked.locks,
      acquire_each-view view blind ids (id ∷ acquired) locked,
    )

-- Whatever the attempt holds and whichever file operations fail: a commit that returns has put every
-- artifact on the shelf, under the manifests' ids and in their order, where none was before, each with
-- the files that it had among the outputs, the manifest excepted, has kept everything that was there,
-- and returns one record for each manifest; a commit that raises has left the shelf exactly as it was,
-- unless it raises a commit error that reports a failed rollback, or the release of a lock raises an
-- OSError, which takes the place of one of these ends.
pub commit-AllOrNothing :
    (h : Host) (a : AttemptHandle) (ms : List ArtifactManifest) (w : World)
    → Ended h (outputs_of a w) ms w.artifacts w.locks (commit h a ms w)
unfolding commit acquire_commit_locks
commit-AllOrNothing h a ms w =
    let (locks, w1) = acquire_commit_locks ms w in
    let ids = sorted (artifact_ids ms) in
    with_locks-Ended h a (outputs_of a w) ms w.artifacts w.locks locks w1
      (acquire_each-view (outputs_of a) (λ w s l. refl) ids [] w)
      (acquire_each-view shelf (λ w s l. refl) ids [] w)
      (acquire_each-Balanced ids ids [] w.locks w (refl, tt) (Among-self ids))
