-- ===== src/Runner/Wait.antt =====
-- `_wait_for_process` of packages/pipeline/runner.py. Each round of the loop reads the process, the
-- clock and the token once; the readings are a list, and a run of the loop uses up a part of it.
pub mod Ends
pub mod Cause
use gaussian_os.Prelude.{
  refl, ℕ, ◌+◌, String, Bool, true, false, ◌&&◌, ◌≡◌, Option, none, some, List, [], ◌∷◌, leb,
  is_none, if◌then◌else◌, ℤ, Result, ok, err,
}
use gaussian_os.Contracts.Kinds.{ErrorCode}
use gaussian_os.Store.World.{Exc, World}

-- process.poll(), time.monotonic() in microseconds, and the token's reason if it is cancelled.
pub record Reading : Type 0 where
  pub poll : Option ℤ
  pub now : ℕ
  pub cancelled : Option String

-- A stop that was requested: why, what it says, and when the grace period ends.
pub record Stop : Type 0 where
  pub code : ErrorCode
  pub message : String
  pub grace_deadline : ℕ

-- `waiting`: the readings are used up and the loop still runs, or `process.wait()` does not return after
-- the kill. `write_failed`: the cancellation file
-- could not be written, and the process was left running.
pub data Waited : Type 0 where
  exited : ℤ → Option Stop → Waited
  terminated : ℤ → Stop → Waited
  write_failed : Exc → Waited
  waiting : Waited

-- What `_terminate_process_tree` sends: taskkill and TerminateProcess on Windows, else SIGTERM and SIGKILL.
pub data Signal : Type 0 where
  taskkill kill sigterm sigkill : Signal

-- The process once it has to go: whether a poll shows that it is gone already, whether it survives the
-- first signal (the poll after taskkill gives None, or SIGTERM finds no group or the wait of a second is
-- over before the process is), and what `process.wait()` gives after these signals, `none` if it does
-- not return.
pub record Process : Type 0 where
  pub windows : Bool
  pub gone : Bool
  pub survives : Bool
  pub exit_code : List Signal → Option ℤ

-- `_terminate_process_tree`
unfoldable pub terminate_process_tree : Process → List Signal
terminate_process_tree p =
    if p.gone
    then []
    else if p.windows
    then Signal.taskkill ∷ (if p.survives then Signal.kill ∷ [] else [])
    else Signal.sigterm ∷ (if p.survives then Signal.sigkill ∷ [] else [])

-- What the wait is given: its times, and the process that it may have to kill.
pub record Limits : Type 0 where
  pub process : Process
  pub deadline : ℕ
  pub grace : ℕ
  pub timeout_message : String

-- The two branches that request a stop.
unfoldable pub requested : Limits → Reading → Option Stop
requested limits r = elim r.cancelled [
  | some reason ↦ some (record {
    code = ErrorCode.cancelled;
    message = reason;
    grace_deadline = r.now + limits.grace;
  })
  | none ↦
      if leb limits.deadline r.now
      then some (record {
        code = ErrorCode.timeout;
        message = limits.timeout_message;
        grace_deadline = r.now + limits.grace;
      })
      else none
]

-- Writing the cancellation file with its reason, a step on the world that may raise.
abbrev pub Write : Type 0
Write = String → World → Result Exc (Unit {0}) × World

-- Before the test on the grace period: is a stop requested in this round?
abbrev pub Decision : Type 0
Decision = Result Exc (Option Stop) × World

abbrev pub wrote : Stop → Result Exc (Unit {0}) × World → Decision
wrote stop (ok _, w) = (ok (some stop), w)
wrote stop (err e, w) = (err e, w)

abbrev pub notify : Write → Option Stop → World → Decision
notify write none w = (ok none, w)
notify write (some stop) w = wrote stop (write stop.message w)

abbrev pub decide_stop : Limits → Write → Reading → Option Stop → World → Decision
decide_stop limits write r (some stop) w = (ok (some stop), w)
decide_stop limits write r none w = notify write (requested limits r) w

-- What is left of the loop after this round.
abbrev pub Again : Type 0
Again = Option Stop → World → Waited × World

-- self._terminate_process_tree(process); return process.wait(), ...
abbrev pub ended_with : Stop → Option ℤ → Waited
ended_with stop none = waiting
ended_with stop (some code) = terminated code stop

unfoldable pub kill_and_wait : Process → Stop → Waited
unfolding terminate_process_tree
kill_and_wait p stop = ended_with stop (p.exit_code (terminate_process_tree p))

-- The end of a round: `terminate_process_tree` and `wait` once the grace period is over, else the
-- next round.
abbrev pub after_decision : Limits → Reading → Again → Decision → Waited × World
after_decision limits r again (err e, w) = (write_failed e, w)
after_decision limits r again (ok none, w) = again none w
after_decision limits r again (ok (some stop), w) =
    if leb stop.grace_deadline r.now
    then (kill_and_wait limits.process stop, w)
    else again (some stop) w

abbrev pub round :
    Limits → Write → Reading → Again → Option Stop → Option ℤ → World → Waited × World
round limits write r again stop (some code) w = (exited code stop, w)
round limits write r again stop none w =
    after_decision limits r again (decide_stop limits write r stop w)

unfoldable pub wait_for_process :
    Limits → Write → List Reading → Option Stop → World → Waited × World
unfolding kill_and_wait
wait_for_process limits write [] stop w = (waiting, w)
wait_for_process limits write (r ∷ readings) stop w =
    round limits write r (wait_for_process limits write readings) stop r.poll w
