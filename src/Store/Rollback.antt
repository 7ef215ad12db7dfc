-- ===== src/Store/Rollback.antt =====
-- The moves of `commit` and their rollback (packages/artifact_store/store.py).
use gaussian_os.Prelude.{
  string_eq, String, false, Result, ◌≡◌, ◌⊎◌, sym, subst, ◌∙◌, ap, none, some, List, [], ◌∷◌, ◌++◌,
  ok, err, arith, Bool-cases, Option-cases, inl, inr, refl, All, ◌≢◌, same_iff, eq_self,
}
use mathlib.Core.List.{append_assoc, append-nil}
use gaussian_os.Contracts.Artifact.{ArtifactManifest}
use gaussian_os.Contracts.Outcome.{artifact_ids}
use gaussian_os.Store.Tree.{
  Node, Entries, find, put, erase, names, erase-put, names-put_new, find-put, find-erase_ne,
}
use gaussian_os.Store.World.{Exc, World, pop}
use gaussian_os.Store.Attempt.{AttemptHandle}
use gaussian_os.Store.Validate.{outputs_of}
use gaussian_os.Store.Outputs.{set_outputs-outputs}
use gaussian_os.Store.Commit.{set_outputs, move_out, move_back, move_each, roll_back}

-- The shelf `now` is the shelf `base` with the committed directories added one after another, each
-- under a name that was free.
abbrev pub Stacked : Entries → List ArtifactManifest → Entries → Type 0
Stacked start [] now = now ≡ start
Stacked start (m ∷ committed) now =
    (before : Entries) × (node : Node) × Stacked start committed before
    × (find m.artifact_id before ≡ none)
    × (now ≡ put m.artifact_id node before)

ok_not_err : {A : Type 0} {a : A} {e : Exc} → ok a ≡ err e → ⊥
ok_not_err h = cc

some_not_none : {A : Type 0} {a : A} → some a ≡ none → ⊥
some_not_none h = cc

-- A move that works takes the node from the outputs to the shelf.
record IsMoved (a : AttemptHandle) (id : String) (w w' : World) : Type 0 where
  node : Node
  found : find id (outputs_of a w) ≡ some node
  shelved : w'.artifacts ≡ put id node w.artifacts
  erased : outputs_of a w' ≡ erase id (outputs_of a w)

move_out_works :
    (a : AttemptHandle) (id : String) (node : Node) (w : World)
    → find id (outputs_of a w) ≡ some node
    → (pop w.supply).0 ≡ false
    → move_out a id w ≡ (
      ok tt,
      record (set_outputs a (erase id (outputs_of a w)) (record w { supply = (pop w.supply).1 })) {
        artifacts = put id node w.artifacts;
      },
    )
unfolding move_out
move_out_works a id node w found works = ground (arith, found, works)

move_out_cases :
    (a : AttemptHandle) (id : String) (w : World)
    → ((e : Exc) × ((move_out a id w).0 ≡ err e) × (((move_out a id w).1).artifacts ≡ w.artifacts))
      ⊎ (((move_out a id w).0 ≡ ok tt) × IsMoved a id w (move_out a id w).1)
unfolding move_out
move_out_cases a id w = elim (Option-cases (find id (outputs_of a w))) [
  | inl missing ↦ inl (Exc.os_error, ground arith, ground arith)
  | inr (node, found) ↦ elim (Bool-cases (pop w.supply).0) [
    | inl fails ↦ inl (Exc.os_error, ground arith, ground arith)
    | inr works ↦ inr (
      ground arith,
      record {
        node = node;
        found = found;
        shelved = ground arith;
        erased =
            ap (λ (made : Result Exc (Unit {0}) × World). outputs_of a made.1)
              (move_out_works a id node w found works)
            ∙ set_outputs-outputs a id node (erase id (outputs_of a w))
                (record w { supply = (pop w.supply).1 }) found;
      },
    )
  ]
]

pub move_out-held :
    (a : AttemptHandle) (id : String) (w : World) → ((move_out a id w).1).locks ≡ w.locks
unfolding move_out
move_out-held a id w = ground arith

pub move_back-held :
    (a : AttemptHandle) (id : String) (w : World) → ((move_back a id w).1).locks ≡ w.locks
unfolding move_back
move_back-held a id w = ground arith

move_back_cases :
    (a : AttemptHandle) (id : String) (w : World)
    → ((e : Exc) × ((move_back a id w).0 ≡ err e))
      ⊎ (((move_back a id w).0 ≡ ok tt) × (((move_back a id w).1).artifacts ≡ erase id w.artifacts))
unfolding move_back
move_back_cases a id w = elim (Option-cases (find id w.artifacts)) [
  | inl missing ↦ inl (Exc.os_error, ground arith)
  | inr (node, found) ↦ elim (Bool-cases (pop w.supply).0) [
    | inl fails ↦ inl (Exc.os_error, ground arith)
    | inr works ↦ inr (ground arith, ground arith)
  ]
]

move_back_one-Stacked :
    (a : AttemptHandle) (m : ArtifactManifest) (start : Entries) (committed : List ArtifactManifest)
    (w : World)
    → Stacked start (m ∷ committed) w.artifacts
    → ((move_back a m.artifact_id w).0 ≡ ok tt)
    → Stacked start committed ((move_back a m.artifact_id w).1).artifacts
move_back_one-Stacked a m start committed w (before, node, below, free, now) moved =
    elim (move_back_cases a m.artifact_id w) [
      | inl (e, failed) ↦ absurd (ok_not_err (sym moved ∙ failed))
      | inr (_, erased) ↦
          subst (Stacked start committed)
            (sym (erased ∙ ap (erase m.artifact_id) now ∙ erase-put m.artifact_id node before free))
            below
    ]

roll_back_errors :
    (a : AttemptHandle) (m : ArtifactManifest) (committed : List ArtifactManifest) (w : World)
    → (roll_back a (m ∷ committed) w).0 ≡ 0
    → ((move_back a m.artifact_id w).0 ≡ ok tt)
      × ((roll_back a committed (move_back a m.artifact_id w).1).0 ≡ 0)
unfolding roll_back
roll_back_errors a m committed w h = ground arith

-- A rollback without errors gives back the shelf from which the moves started.
pub roll_back-Stacked :
    (a : AttemptHandle) (start : Entries) (committed : List ArtifactManifest) (w : World)
    → Stacked start committed w.artifacts
    → (roll_back a committed w).0 ≡ 0
    → ((roll_back a committed w).1).artifacts ≡ start
unfolding roll_back
roll_back-Stacked a start [] w stacked h = stacked
roll_back-Stacked a start (m ∷ committed) w stacked h =
    let parts = roll_back_errors a m committed w h in
    roll_back-Stacked a start committed (move_back a m.artifact_id w).1
      (move_back_one-Stacked a m start committed w stacked parts.0) parts.1

-- The moves stack the artifacts on the shelf, also when one of them fails.
pub move_each-Stacked :
    (a : AttemptHandle) (start : Entries) (ms committed : List ArtifactManifest) (w : World)
    → Stacked start committed w.artifacts
    → let (stop, committed', w') = move_each a ms committed w in
      Stacked start committed' w'.artifacts
unfolding move_each
move_each-Stacked a start [] committed w h = h
move_each-Stacked a start (m ∷ ms) committed w h =
    elim (Option-cases (find m.artifact_id w.artifacts)) [
      | inr (node, taken) ↦ rw taken h
      | inl free ↦ elim (move_out_cases a m.artifact_id w) [
        | inl (e, failed, same) ↦ rw (free, failed) (subst (Stacked start committed) (sym same) h)
        | inr (worked, moved) ↦
            rw (free, worked)
              (move_each-Stacked a start ms (m ∷ committed) (move_out a m.artifact_id w).1
                (w.artifacts, moved.node, h, free, moved.shelved))
      ]
    ]

find-put_other :
    (id new : String) (old node : Node) (es : Entries)
    → find id es ≡ some old
    → find new es ≡ none
    → find id (put new node es) ≡ some old
find-put_other id new old node es e free =
    ground (arith, find-put id new node es, string_eq.beq_iff id new)

-- The artifact was among the outputs and not on the shelf, and is on it now.
abbrev pub Came : Entries → Entries → Entries → ArtifactManifest → Type 0
Came outputs before after m =
    (node : Node) × (find m.artifact_id outputs ≡ some node)
    × (find m.artifact_id before ≡ none)
    × (find m.artifact_id after ≡ some node)

pub All-each_other :
    {P Q : ArtifactManifest → Type 0} (ms : List ArtifactManifest)
    → ((m : ArtifactManifest) → P m → Q m)
    → All P ms
    → All Q ms
All-each_other [] f h = tt
All-each_other (m ∷ ms) f h = (f m h.0, All-each_other ms f h.1)

-- What the later moves bring was there before the first one too.
Came-earlier :
    (a : AttemptHandle) (id : String) (w w' : World) (after : Entries) (m : ArtifactManifest)
    → IsMoved a id w w'
    → find id w.artifacts ≡ none
    → Came (outputs_of a w') w'.artifacts after m
    → Came (outputs_of a w) w.artifacts after m
Came-earlier a id w w' after m moved free (node, found, new, shelved) =
    let on_shelf =
      ap (find m.artifact_id) moved.shelved ∙ find-put m.artifact_id id moved.node w.artifacts in
    let apart : m.artifact_id ≢ id =
      λ same. ground (arith, on_shelf, new, same, same_iff m.artifact_id id) in
    (
      node,
      sym (
            ap (find m.artifact_id) moved.erased
            ∙ find-erase_ne m.artifact_id id (outputs_of a w) apart)
          ∙ found,
      ground (arith, on_shelf, new, apart, same_iff m.artifact_id id),
      shelved,
    )

-- Moves that all succeed put the artifacts at the end of the shelf, in their order and as they were in
-- the outputs, and leave what was there.
pub record AllMoved (outputs before after : Entries) (ms : List ArtifactManifest) : Type 0 where
  pub added : names after ≡ names before ++ artifact_ids ms
  pub kept : (id : String) (node : Node) → find id before ≡ some node → find id after ≡ some node
  pub came : All (Came outputs before after) ms

moved_first :
    (a : AttemptHandle) (m : ArtifactManifest) (ms : List ArtifactManifest) (w w' : World)
    (after : Entries)
    → IsMoved a m.artifact_id w w'
    → find m.artifact_id w.artifacts ≡ none
    → AllMoved (outputs_of a w') w'.artifacts after ms
    → AllMoved (outputs_of a w) w.artifacts after (m ∷ ms)
moved_first a m ms w w' after moved free rest =
    let id = m.artifact_id in
    record {
      added =
          rest.added
          ∙ ap (λ (ns : List String). ns ++ artifact_ids ms)
              (ap names moved.shelved ∙ names-put_new id moved.node w.artifacts free)
          ∙ append_assoc (names w.artifacts) (id ∷ []) (artifact_ids ms);
      kept = λ j old e.
          rest.kept j old
            (ap (find j) moved.shelved ∙ find-put_other j id old moved.node w.artifacts e free);
      came = (
        (
          moved.node,
          moved.found,
          free,
          rest.kept id moved.node (
              ap (find id) moved.shelved
              ∙ find-put id id moved.node w.artifacts
              ∙ rw (eq_self id) refl),
        ),
        All-each_other ms (λ n. Came-earlier a id w w' after n moved free) rest.came,
      );
    }

pub move_each_ok :
    (a : AttemptHandle) (ms committed : List ArtifactManifest) (w : World)
    → (move_each a ms committed w).0 ≡ none
    → let (stop, committed', w') = move_each a ms committed w in
      AllMoved (outputs_of a w) w.artifacts w'.artifacts ms
unfolding move_each
move_each_ok a [] committed w h = record {
  added = sym (append-nil _);
  kept = λ id node e. e;
  came = tt;
}
move_each_ok a (m ∷ ms) committed w h = elim (Option-cases (find m.artifact_id w.artifacts)) [
  | inr (node, taken) ↦ absurd (some_not_none (rw taken at h))
  | inl free ↦ elim (move_out_cases a m.artifact_id w) [
    | inl (e, failed, same) ↦ absurd (some_not_none (rw (free, failed) at h))
    | inr (worked, moved) ↦
        rw (free, worked)
          (moved_first a m ms w (move_out a m.artifact_id w).1 _ moved free (
            move_each_ok a ms (m ∷ committed) (move_out a m.artifact_id w).1
              (rw (free, worked) at h)))
  ]
]
