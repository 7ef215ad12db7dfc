-- ===== src/Store/Locks.antt =====
-- The commit locks of packages/artifact_store/store.py after a call, on every path.
use gaussian_os.Prelude.{
  All, String, ◌≡◌, refl, ◌∙◌, ap, none, some, List, [], ◌∷◌, ◌++◌, Result, ok, err, arith,
  Bool-cases, inl, inr, eq_self, Bool, true, false, ◌||◌, sym, subst, ◌⊎◌, string_eq, contains,
}
use gaussian_os.Contracts.Artifact.{ArtifactManifest}
use gaussian_os.Store.World.{Exc, Locks, World, Host, pop, resume}
use gaussian_os.Store.Attempt.{AttemptHandle}
use gaussian_os.Store.Validate.{validate_artifacts}
use gaussian_os.Store.Commit.{
  Moved, move_each, move_out, move_back, roll_back, settle, after_writes, write_manifests, publish,
  validate_and_publish, acquire_each, release_all, drop_one, release_each, release_one,
  replaced_end, next_faults, next_fails,
}
use gaussian_os.Store.Frame.{locks, validate_artifacts-Keeps, write_manifests-locks}
use gaussian_os.Store.Rollback.{move_out-held, move_back-held}

-- Does some release raise?
abbrev pub can_fail : List Bool → Bool
can_fail [] = false
can_fail (f ∷ fs) = f || can_fail fs

-- The locks of `before`, with those of these ids.
abbrev pub taking : List String → Locks → Locks
taking ids before = record before { held = ids ++ before.held }

-- Every one of the ids is among these.
abbrev pub Among : List String → List String → Type 0
Among own ids = All (λ (id : String). contains id own ≡ true) ids

-- The locks of these ids are taken, and no others.
abbrev pub HasTaken : List String → Locks → List String → Locks → Type 0
HasTaken own before ids l = (l ≡ taking ids before) × Among own ids

-- The locks after a call: those of before; or a release has raised, and so has the call, with an
-- OSError, and beside the locks of before only such of these ids are held.
abbrev pub LocksBack : {A : Type 0} → List String → Locks → Result Exc A × Locks → Type 0
LocksBack own before (r, l) =
    (l.held ≡ before.held)
    ⊎ ((r ≡ err Exc.os_error)
        × (can_fail before.unlock_faults ≡ true)
        × ((left : List String) × (l.held ≡ left ++ before.held) × Among own left))

later_fault : (faults : List Bool) → can_fail (next_faults faults) ≡ true → can_fail faults ≡ true
later_fault [] h = h
later_fault (f ∷ fs) h = ground (arith, h)

first_fault : (faults : List Bool) → next_fails faults ≡ true → can_fail faults ≡ true
first_fault [] h = absurd (cc h)
first_fault (f ∷ fs) h = ground (arith, h)

release_fault :
    (ids : List String) (l : Locks) (e : Exc)
    → (release_each ids l).0 ≡ err e
    → (e ≡ Exc.os_error) × (can_fail l.unlock_faults ≡ true)
unfolding release_each
release_fault [] l e h = absurd (cc h)
release_fault (id ∷ ids) l e h = elim (Bool-cases (next_fails l.unlock_faults)) [
  | inl fails ↦ (ground (arith, h, fails), first_fault l.unlock_faults fails)
  | inr works ↦
      let rest = release_fault ids (release_one id l) e (rw works at h) in
      (rest.0, later_fault l.unlock_faults rest.1)
]

release_each-LocksBack :
    (own ids others : List String) (l : Locks)
    → l.held ≡ ids ++ others
    → Among own ids
    → LocksBack own (record l { held = others }) (release_each ids l)
unfolding release_each
release_each-LocksBack own [] others l h among = inl h
release_each-LocksBack own (id ∷ ids) others l h among =
    let next = release_one id l in
    let dropped = ap (drop_one id) h ∙ ground (arith, eq_self id) in
    elim (Bool-cases (next_fails l.unlock_faults)) [
      | inl fails ↦
          rw fails (inr (refl, first_fault l.unlock_faults fails, (ids, dropped, among.1)))
      | inr works ↦ rw works (elim (release_each-LocksBack own ids others next dropped among.1) [
        | inl back ↦ inl back
        | inr (raised, fault, left) ↦ inr (raised, later_fault l.unlock_faults fault, left)
      ])
    ]

-- The releases raise only where one of them fails, and then an OSError.
pub release_each-raises :
    (ids : List String) (before : Locks) (w : World) (e : Exc)
    → w.locks ≡ taking ids before
    → (release_each ids w.locks).0 ≡ err e
    → (e ≡ Exc.os_error) × (can_fail before.unlock_faults ≡ true)
release_each-raises ids before w e taken raised =
    release_fault ids (taking ids before) e
      (ap (λ (l : Locks). (release_each ids l).0) (sym taken) ∙ raised)

replaced_end-LocksBack :
    {A : Type 0} (own : List String) (before : Locks) (r : Result Exc A)
    (released : Result {0, 0} Exc Unit) (l : Locks)
    → LocksBack own before (released, l)
    → LocksBack own before (replaced_end released r, l)
replaced_end-LocksBack own before r (ok u) l (inl back) = inl back
replaced_end-LocksBack own before r (ok u) l (inr (raised, fault, left)) = absurd (cc raised)
replaced_end-LocksBack own before r (err e) l (inl back) = inl back
replaced_end-LocksBack own before r (err e) l (inr (raised, fault, left)) =
    inr (cc raised, fault, left)

abbrev with_locks_of : {A : Type 0} → Result Exc A × World → Result Exc A × Locks
with_locks_of (r, w) = (r, w.locks)

release_all-LocksBack :
    {A : Type 0} (own ids : List String) (r : Result Exc A) (before : Locks) (w : World)
    → HasTaken own before ids w.locks
    → LocksBack own before (with_locks_of (release_all ids r w))
release_all-LocksBack own ids r before w (h, among) =
    subst
      (λ l. LocksBack own before (replaced_end (release_each ids l).0 r, (release_each ids l).1))
      (sym h)
      (replaced_end-LocksBack own before r (release_each ids (taking ids before)).0
        (release_each ids (taking ids before)).1
        (release_each-LocksBack own ids before.held (taking ids before) refl among))

-- The locks after the acquisition, by how it ended.
abbrev pub Balanced : List String → Locks → Result Exc (List String) × World → Type 0
Balanced own before (ok ids, w) = HasTaken own before ids w.locks
Balanced own before (err e, w) = LocksBack own before (with_locks_of {A = List String} (err e, w))

release_error-Balanced :
    (own : List String) (before : Locks) (ids : List String) (e : Exc) (w : World)
    → HasTaken own before ids w.locks
    → Balanced own before (release_all ids (err e) w)
release_error-Balanced own before ids e w h =
    ended (release_each ids w.locks).0 (release_all-LocksBack own ids (err e) before w h)
  where
    ended :
        (released : Result {0, 0} Exc Unit)
        → LocksBack {A = List String} own before
            (replaced_end released (err e), (release_each ids w.locks).1)
        → Balanced own before
            (replaced_end released (err e), record w { locks = (release_each ids w.locks).1 })
    ended (ok u) back = back
    ended (err x) back = back

pub acquire_each-Balanced :
    (own ids acquired : List String) (before : Locks) (w : World)
    → HasTaken own before acquired w.locks
    → Among own ids
    → Balanced own before (acquire_each ids acquired w)
unfolding acquire_each
acquire_each-Balanced own [] acquired before w h among = h
acquire_each-Balanced own (id ∷ ids) acquired before w h among =
    let opened = record w { supply = (pop w.supply).1 } in
    elim (Bool-cases (pop w.supply).0) [
      | inl fails ↦ rw fails (release_error-Balanced own before acquired Exc.os_error opened h)
      | inr works ↦ elim (Bool-cases (contains id w.locks.held)) [
        | inl taken ↦
            rw (works, taken)
              (release_error-Balanced own before acquired Exc.conflict_error opened h)
        | inr free ↦
            rw (works, free)
              (acquire_each-Balanced own ids (id ∷ acquired) before
                (record opened { locks = record (w.locks) { held = id ∷ w.locks.held } })
                (ap (λ (l : Locks). record l { held = id ∷ l.held }) h.0, (among.0, h.1)) among.1)
      ]
    ]

move_each-held :
    (a : AttemptHandle) (ms committed : List ArtifactManifest) (w : World)
    → ((move_each a ms committed w).2).locks ≡ w.locks
unfolding move_each
move_each-held a [] committed w = refl
move_each-held a (m ∷ ms) committed w = ground (
  arith,
  move_out-held a m.artifact_id w,
  move_each-held a ms (m ∷ committed) (move_out a m.artifact_id w).1,
)

roll_back-held :
    (a : AttemptHandle) (committed : List ArtifactManifest) (w : World)
    → ((roll_back a committed w).1).locks ≡ w.locks
unfolding roll_back
roll_back-held a [] w = refl
roll_back-held a (m ∷ committed) w =
    roll_back-held a committed (move_back a m.artifact_id w).1 ∙ move_back-held a m.artifact_id w

settle-held :
    (h : Host) (a : AttemptHandle) (ms : List ArtifactManifest) (moved : Moved)
    → ((settle h a ms moved).1).locks ≡ (moved.2).locks
settle-held h a ms (none, committed, w) = refl
settle-held h a ms (some e, committed, w) = roll_back-held a committed w

after_writes-held :
    (h : Host) (a : AttemptHandle) (ms : List ArtifactManifest) (r : Result Exc (Unit {0}))
    (w : World)
    → ((after_writes h a ms r w).1).locks ≡ w.locks
after_writes-held h a ms (err e) w = settle-held h a ms (some e, [], w)
after_writes-held h a ms (ok _) w =
    settle-held h a ms (move_each a ms [] w) ∙ move_each-held a ms [] w

publish-held :
    (h : Host) (a : AttemptHandle) (ms : List ArtifactManifest) (w : World)
    → ((publish h a ms w).1).locks ≡ w.locks
unfolding publish
publish-held h a ms w =
    let (written, w1) = write_manifests h a ms w in
    after_writes-held h a ms written w1 ∙ (write_manifests-locks h a ms).at w

resume-held :
    (h : Host) (a : AttemptHandle) (ms : List ArtifactManifest) (r : Result Exc (Unit {0}))
    (w : World)
    → ((resume r (λ _. publish h a ms) w).1).locks ≡ w.locks
resume-held h a ms (ok _) w = publish-held h a ms w
resume-held h a ms (err e) w = refl

pub inner-locks :
    (h : Host) (a : AttemptHandle) (ms : List ArtifactManifest) (w : World)
    → ((validate_and_publish h a ms w).1).locks ≡ w.locks
unfolding validate_and_publish
inner-locks h a ms w =
    let (r, w1) = validate_artifacts h a ms w in
    resume-held h a ms r w1 ∙ (validate_artifacts-Keeps locks (λ w s. refl) h a ms).at w

Among-cons :
    (own : List String) (id : String) (ids : List String) → Among own ids → Among (id ∷ own) ids
Among-cons own id [] among = tt
Among-cons own id (k ∷ ids) among = (ground (arith, among.0), Among-cons own id ids among.1)

pub Among-self : (ids : List String) → Among ids ids
Among-self [] = tt
Among-self (id ∷ ids) = (ground (arith, eq_self id), Among-cons ids id ids (Among-self ids))
