-- ===== src/Runner/Wait/Cause.antt =====
-- Why the loop that waits for the worker stops it (packages/pipeline/runner.py).
use gaussian_os.Prelude.{
  ◌≡◌, ◌≢◌, refl, Option, none, some, List, [], ◌∷◌, leb, ℤ, Result, ok, err, Option-cases,
  Bool-cases, inl, inr, if◌then◌else◌, is_some,
}
use gaussian_os.Store.World.{Exc, World}
use gaussian_os.Runner.Wait.{
  Reading, Stop, Limits, Waited, exited, terminated, write_failed, waiting, requested, Write, wrote,
  Again, after_decision, round, wait_for_process, ended_with, kill_and_wait,
}

-- The first request of a stop, among the readings before the one that sees the process gone.
pub first_request : Limits → List Reading → Option Stop
first_request limits [] = none
first_request limits (r ∷ readings) =
    let later = first_request limits readings in
    if is_some r.poll
    then none
    else if is_some (requested limits r)
    then requested limits r
    else later

-- A wait that is over shows this stop.
abbrev pub ShowsStop : Option Stop → Waited → Type 0
ShowsStop o (exited code stop) = stop ≡ o
ShowsStop o (terminated code stop) = some stop ≡ o
ShowsStop o (write_failed x) = o ≢ none
ShowsStop o waiting = Unit

killed-ended : (stop : Stop) (code : Option ℤ) → ShowsStop (some stop) (ended_with stop code)
killed-ended stop none = tt
killed-ended stop (some code) = refl

module _ (limits : Limits) (write : Write) where
  killed-ShowsStop : (stop : Stop) → ShowsStop (some stop) (kill_and_wait limits.process stop)
  unfolding kill_and_wait
  killed-ShowsStop stop = killed-ended stop _

  Shows : Option Stop → Option Stop → Again → Type 0
  Shows asked shown again = (w : World) → ShowsStop shown (again asked w).0

  kept_round :
      (r : Reading) (again : Again) (stop : Stop)
      → Shows (some stop) (some stop) again
      → (poll : Option ℤ) (w : World)
      → ShowsStop (some stop) (round limits write r again (some stop) poll w).0
  unfolding Shows
  kept_round r again stop h (some code) w = refl
  kept_round r again stop h none w = elim (Bool-cases (leb stop.grace_deadline r.now)) [
    | inl over ↦ rw over (killed-ShowsStop stop)
    | inr early ↦ rw early (h w)
  ]

  kept_stop :
      (readings : List Reading) (stop : Stop)
      → Shows (some stop) (some stop) (wait_for_process limits write readings)
  unfolding wait_for_process Shows
  kept_stop [] stop w = tt
  kept_stop (r ∷ readings) stop w =
      kept_round r (wait_for_process limits write readings) stop (kept_stop readings stop) r.poll w

  wrote-Shows :
      (r : Reading) (again : Again) (stop : Stop)
      → Shows (some stop) (some stop) again
      → (written : Result Exc (Unit {0}) × World)
      → ShowsStop (some stop) (after_decision limits r again (wrote stop written)).0
  unfolding Shows
  wrote-Shows r again stop h (err x, w) = λ e. cc e
  wrote-Shows r again stop h (ok _, w) = elim (Bool-cases (leb stop.grace_deadline r.now)) [
    | inl over ↦ rw over (killed-ShowsStop stop)
    | inr early ↦ rw early (h w)
  ]

  first_round :
      (r : Reading) (readings : List Reading)
      → Shows none (first_request limits readings) (wait_for_process limits write readings)
      → (poll : Option ℤ) (w : World) → r.poll ≡ poll
      → ShowsStop
          (first_request limits (r ∷ readings))
          (round limits write r (wait_for_process limits write readings) none poll w).0
  unfolding Shows first_request requested
  first_round r readings h (some code) w p = rw p refl
  first_round r readings h none w p = elim (Option-cases (requested limits r)) [
    | inl e ↦ rw (p, e) (h w)
    | inr (stop, e) ↦
        rw (p, e)
          (wrote-Shows r (wait_for_process limits write readings) stop (kept_stop readings stop)
            (write stop.message w))
  ]

  -- However the wait ends, it names the first stop that the token or the deadline asked for before the
  -- process was seen to be gone, and none if there was no such request: a later request does not
  -- replace it. The wait fails to write the cancellation file only if there was one.
  pub wait-first_request :
      (readings : List Reading) (w : World)
      → ShowsStop (first_request limits readings) (wait_for_process limits write readings none w).0
  unfolding wait_for_process Shows
  wait-first_request [] w = tt
  wait-first_request (r ∷ readings) w =
      first_round r readings (wait-first_request readings) r.poll w refl
