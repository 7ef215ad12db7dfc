-- ===== src/Runner/Wait/Ends.antt =====
-- The loop that waits for the worker (packages/pipeline/runner.py): when it ends, and why it stops.
use gaussian_os.Prelude.{
  ℕ, ◌+◌, ◌≤◌, ◌≡◌, ◌≢◌, Option, none, some, List, [], ◌∷◌, ◌++◌, arith, leb, ℤ, Result, ok, err,
  All, Option-cases, Bool-cases, inl, inr, true, false, refl,
}
use gaussian_os.Store.World.{Exc, World}
use gaussian_os.Runner.Wait.{
  Reading, Stop, Limits, waiting, requested, Write, wrote, Again, after_decision, round,
  wait_for_process, Process, Signal, terminate_process_tree, ended_with, kill_and_wait,
}

-- What the wait relies on: a process that is gone, and one that gets TerminateProcess or SIGKILL, has an
-- exit code, and so has one that does not survive the first signal.
pub record IsKillable (p : Process) : Type 0 where
  pub gone_ends : p.gone ≡ true → p.exit_code [] ≢ none
  pub first_ends :
      p.survives ≡ false
      → (p.exit_code (Signal.taskkill ∷ []) ≢ none) × (p.exit_code (Signal.sigterm ∷ []) ≢ none)
  pub kill_ends :
      (p.exit_code (Signal.taskkill ∷ Signal.kill ∷ []) ≢ none)
      × (p.exit_code (Signal.sigterm ∷ Signal.sigkill ∷ []) ≢ none)

terminate-ends : (p : Process) → IsKillable p → p.exit_code (terminate_process_tree p) ≢ none
unfolding terminate_process_tree
terminate-ends p h = elim (Bool-cases p.gone) [
  | inl gone ↦ rw gone (h.gone_ends gone)
  | inr here ↦ elim (Bool-cases p.windows) [
    | inl windows ↦ elim (Bool-cases p.survives) [
      | inl survives ↦ rw (here, windows, survives) (h.kill_ends).0
      | inr ends ↦ rw (here, windows, ends) (h.first_ends ends).0
    ]
    | inr posix ↦ elim (Bool-cases p.survives) [
      | inl survives ↦ rw (here, posix, survives) (h.kill_ends).1
      | inr ends ↦ rw (here, posix, ends) (h.first_ends ends).1
    ]
  ]
]

ended_with-ends : (stop : Stop) (code : Option ℤ) → code ≢ none → ended_with stop code ≢ waiting
ended_with-ends stop none h = absurd (h refl)
ended_with-ends stop (some code) h = λ e. cc e

late-leb : (m n : ℕ) → m ≤ n → leb m n ≡ true
late-leb m n h = ground (arith, h)

module _ (limits : Limits) (write : Write) (killable : IsKillable limits.process) where
  killed-ends : (stop : Stop) → kill_and_wait limits.process stop ≢ waiting
  unfolding kill_and_wait
  killed-ends stop = ended_with-ends stop _ (terminate-ends limits.process killable)

  -- A stop that was requested, if any, has a grace period that ends by `end`.
  EndsBy : ℕ → Option Stop → Type 0
  EndsBy end o = (stop : Stop) → o ≡ some stop → stop.grace_deadline ≤ end

  Ending : ℕ → Again → Type 0
  Ending end again = (o : Option Stop) (w : World) → EndsBy end o → (again o w).0 ≢ waiting

  Stopping : ℕ → Again → Type 0
  Stopping end again =
      (stop : Stop) (w : World) → stop.grace_deadline ≤ end → (again (some stop) w).0 ≢ waiting

  stopped_round :
      (r : Reading) (again : Again) (end : ℕ)
      → Stopping end again
      → (poll : Option ℤ) (stop : Stop) (w : World) → stop.grace_deadline ≤ end
      → (round limits write r again (some stop) poll w).0 ≢ waiting
  unfolding Stopping
  stopped_round r again end h (some code) stop w late = λ e. cc e
  stopped_round r again end h none stop w late = elim (Bool-cases (leb stop.grace_deadline r.now)) [
    | inl over ↦ rw over (killed-ends stop)
    | inr early ↦ rw early (h stop w late)
  ]

  last_round :
      (r : Reading) (again : Again) (poll : Option ℤ) (stop : Stop) (w : World)
      → stop.grace_deadline ≤ r.now
      → (round limits write r again (some stop) poll w).0 ≢ waiting
  last_round r again (some code) stop w late = λ e. cc e
  last_round r again none stop w late =
      rw (late-leb stop.grace_deadline r.now late) (killed-ends stop)

  middle-Stopping :
      (middle : List Reading) (last : Reading) (more : List Reading)
      → Stopping last.now (wait_for_process limits write (middle ++ last ∷ more))
  unfolding wait_for_process Stopping
  middle-Stopping [] last more stop w late =
      last_round last (wait_for_process limits write more) last.poll stop w late
  middle-Stopping (r ∷ middle) last more stop w late =
      stopped_round r (wait_for_process limits write (middle ++ last ∷ more)) last.now
        (middle-Stopping middle last more) r.poll stop w late

  request-EndsBy :
      (r : Reading) (end : ℕ) (stop : Stop)
      → requested limits r ≡ some stop
      → r.now + limits.grace ≤ end
      → stop.grace_deadline ≤ end
  unfolding requested
  request-EndsBy r end stop h late = ground arith

  -- A round in which a stop is requested.
  requesting_round :
      (r : Reading) (again : Again) (end : ℕ)
      → Stopping end again
      → (stop : Stop) (written : Result Exc (Unit {0}) × World) → stop.grace_deadline ≤ end
      → (after_decision limits r again (wrote stop written)).0 ≢ waiting
  unfolding Stopping
  requesting_round r again end h stop (err x, w) late = λ e. cc e
  requesting_round r again end h stop (ok _, w) late =
      elim (Bool-cases (leb stop.grace_deadline r.now)) [
        | inl over ↦ rw over (killed-ends stop)
        | inr early ↦ rw early (h stop w late)
      ]

  early_round :
      (r : Reading) (again : Again) (end : ℕ)
      → Stopping end again
      → ((w : World) → (again none w).0 ≢ waiting)
      → r.now + limits.grace ≤ end
      → (poll : Option ℤ) (w : World) → (round limits write r again none poll w).0 ≢ waiting
  early_round r again end h quiet late (some code) w = λ e. cc e
  early_round r again end h quiet late none w = elim (Option-cases (requested limits r)) [
    | inl e ↦ rw e (quiet w)
    | inr (stop, e) ↦ rw e (
        requesting_round r again end h stop (write stop.message w)
          (request-EndsBy r end stop e late))
  ]

  late_request : (r : Reading) → limits.deadline ≤ r.now → requested limits r ≢ none
  unfolding requested
  late_request r late h = ground arith

  late_round :
      (r : Reading) (again : Again) (end : ℕ)
      → Stopping end again
      → limits.deadline ≤ r.now
      → r.now + limits.grace ≤ end
      → (poll : Option ℤ) (w : World) → (round limits write r again none poll w).0 ≢ waiting
  late_round r again end h passed late (some code) w = λ e. cc e
  late_round r again end h passed late none w = elim (Option-cases (requested limits r)) [
    | inl e ↦ absurd (late_request r passed e)
    | inr (stop, e) ↦ rw e (
        requesting_round r again end h stop (write stop.message w)
          (request-EndsBy r end stop e late))
  ]

  early-Stopping :
      (early : List Reading) (late : Reading) (middle : List Reading) (last : Reading)
      (more : List Reading)
      → Stopping last.now (wait_for_process limits write (early ++ late ∷ middle ++ last ∷ more))
  unfolding wait_for_process Stopping
  early-Stopping [] late middle last more = middle-Stopping (late ∷ middle) last more
  early-Stopping (r ∷ early) late middle last more = λ stop w over.
      stopped_round r (wait_for_process limits write (early ++ late ∷ middle ++ last ∷ more))
        last.now (early-Stopping early late middle last more) r.poll stop w over

  -- The wait ends, whether the worker ends by itself or not, as long as a kill ends it: if one reading of the clock is past the deadline,
  -- none before it is later, and one after it is past it by the grace period, neither the loop nor the
  -- wait after the kill goes on.
  pub wait-ends :
      (early : List Reading) (late : Reading) (middle : List Reading) (last : Reading)
      (more : List Reading) (w : World)
      → All (λ (r : Reading). r.now ≤ late.now) early
      → limits.deadline ≤ late.now
      → late.now + limits.grace ≤ last.now
      → (wait_for_process limits write (early ++ late ∷ middle ++ last ∷ more) none w).0 ≢ waiting
  unfolding wait_for_process
  wait-ends [] late middle last more w ordered passed over =
      late_round late (wait_for_process limits write (middle ++ last ∷ more)) last.now
        (middle-Stopping middle last more) passed over late.poll w
  wait-ends (r ∷ early) late middle last more w (first, ordered) passed over =
      early_round r (wait_for_process limits write (early ++ late ∷ middle ++ last ∷ more)) last.now
        (early-Stopping early late middle last more)
        (λ w'. wait-ends early late middle last more w' ordered passed over)
        (omega (arith, first, over)) r.poll w
