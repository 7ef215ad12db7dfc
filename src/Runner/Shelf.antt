-- ===== src/Runner/Shelf.antt =====
-- The steps of a run of packages/pipeline/runner.py that publish nothing.
use gaussian_os.Prelude.{
  String, not, ◌||◌, ◌≡◌, refl, ◌∙◌, Option, none, some, List, [], ◌∷◌, Result, ok, err, arith, ℤ,
  list_eq, string_eq,
}
use gaussian_os.Contracts.Json.{Dict}
use gaussian_os.Contracts.Outcome.{StageResult}
use gaussian_os.Store.Tree.{Entries}
use gaussian_os.Store.World.{Exc, Key, Locks, World, Document, Host, attempt_io}
use gaussian_os.Store.Attempt.{
  AttemptHandle, key_of, is_unsafe_name, make_attempt_dir, write_document, begin_attempt,
  start_attempt, new_handle, archive, refuse_existing, is_terminal, finish_attempt, draw,
}
use gaussian_os.Store.Commit.{set_outputs}
use gaussian_os.Store.Frame.{Keeps, Keeps-bind, Keeps-returned, Keeps-if, io-Keeps}
use gaussian_os.Runner.Wait.{
  Reading, Stop, Limits, Write, Decision, decide_stop, notify, wrote, requested, wait_for_process,
  Again, after_decision, round,
}
use gaussian_os.Runner.Meeting.{Runner}
use gaussian_os.Runner.Finish.{finish_failure, then_finish}

-- What is published, and the commit locks.
abbrev pub shelf : World → Entries × Locks
shelf w = (w.artifacts, w.locks)

pub write_document-shelf :
    (h : Host) (key : Key) (name : String) (d : Document)
    → Keeps shelf (write_document h key name d)
unfolding write_document
write_document-shelf h key name d = record { at = λ w. ground arith }

make_attempt_dir-shelf : (key : Key) → Keeps shelf (make_attempt_dir key)
unfolding make_attempt_dir
make_attempt_dir-shelf key = record { at = λ w. ground arith }

start_attempt-shelf : (h : Host) (a : AttemptHandle) → Keeps shelf (start_attempt h a)
unfolding start_attempt
start_attempt-shelf h a = Keeps-bind shelf attempt_io _ (io-Keeps shelf (λ w s. refl)) λ _.
    Keeps-bind shelf (make_attempt_dir (key_of a)) _ (make_attempt_dir-shelf (key_of a)) λ _.
      Keeps-bind shelf _ _
        (write_document-shelf h (key_of a) "attempt.json"
          (Document.attempt_started (key_of a) a.request_id))
        λ _. Keeps-returned shelf (ok a)

pub begin_attempt-shelf :
    (h : Host) (run_id stage_id request_id : String)
    → Keeps shelf (begin_attempt h run_id stage_id request_id)
unfolding begin_attempt
begin_attempt-shelf h run_id stage_id request_id =
    Keeps-if shelf (is_unsafe_name run_id || is_unsafe_name stage_id) _ _
      (Keeps-returned shelf (err Exc.value_error))
      (Keeps-bind shelf (draw h) _ (record { at = λ w. refl })
        λ unique. start_attempt-shelf h (new_handle run_id stage_id request_id unique))

archive-shelf : (key : Key) (state : String) → Keeps shelf (archive key state)
unfolding archive
archive-shelf key state = record { at = λ w. ground arith }

pub finish_attempt-shelf :
    (h : Host) (a : AttemptHandle) (state : String) (details : Dict)
    → Keeps shelf (finish_attempt h a state details)
unfolding finish_attempt
finish_attempt-shelf h a state details =
    Keeps-if shelf (not (is_terminal state)) _ _ (Keeps-returned shelf (err Exc.value_error)) (
      Keeps-bind shelf _ _
        (write_document-shelf h (key_of a) "attempt.final.json"
          (Document.attempt_final (key_of a) state details))
        λ _. Keeps-bind shelf _ _ (io-Keeps shelf (λ w s. refl)) λ _.
          Keeps-bind shelf (refuse_existing (key_of a) state) _ (record { at = λ w. refl })
            λ _.
              Keeps-bind shelf _ _ (io-Keeps shelf (λ w s. refl))
                λ _. archive-shelf (key_of a) state)

then_finish-shelf :
    (s : Runner) (a : AttemptHandle) (result : StageResult) (code : Option ℤ)
    (r : Result Exc (Unit {0})) (w : World)
    → shelf (then_finish s a result code r w).1 ≡ shelf w
then_finish-shelf s a result code (err e) w = refl
then_finish-shelf s a result code (ok _) w = (finish_attempt-shelf s.host a _ _).at w

pub finish_failure-shelf :
    (s : Runner) (a : AttemptHandle) (result : StageResult) (code : Option ℤ) (w : World)
    → shelf (finish_failure s a result code w).1 ≡ shelf w
unfolding finish_failure
finish_failure-shelf s a result code w =
    then_finish-shelf s a result code _ _ ∙ (write_document-shelf s.host (key_of a) _ _).at w

pub set_outputs-shelf :
    (a : AttemptHandle) (es : Entries) (w : World) → shelf (set_outputs a es w) ≡ shelf w
set_outputs-shelf a es w = ground arith

module _ (limits : Limits) (write : Write)
    (kept : (reason : String) → Keeps shelf (write reason)) where
  wrote-shelf :
      (stop : Stop) (r : Result Exc (Unit {0})) (w : World) → shelf (wrote stop (r, w)).1 ≡ shelf w
  wrote-shelf stop (ok _) w = refl
  wrote-shelf stop (err e) w = refl

  notify-shelf : (o : Option Stop) (w : World) → shelf (notify write o w).1 ≡ shelf w
  notify-shelf none w = refl
  notify-shelf (some stop) w = wrote-shelf stop _ _ ∙ (kept stop.message).at w

  decide_stop-shelf :
      (r : Reading) (o : Option Stop) (w : World)
      → shelf (decide_stop limits write r o w).1 ≡ shelf w
  decide_stop-shelf r none w = notify-shelf (requested limits r) w
  decide_stop-shelf r (some stop) w = refl

  Unchanging : Again → Type 0
  Unchanging again = (o : Option Stop) (w : World) → shelf (again o w).1 ≡ shelf w

  after_decision-shelf :
      (r : Reading) (again : Again)
      → Unchanging again
      → (d : Decision) → shelf (after_decision limits r again d).1 ≡ shelf d.1
  unfolding Unchanging
  after_decision-shelf r again h (err e, w) = refl
  after_decision-shelf r again h (ok none, w) = h none w
  after_decision-shelf r again h (ok (some stop), w) = ground (arith, h (some stop) w)

  round-shelf :
      (r : Reading) (again : Again)
      → Unchanging again
      → (o : Option Stop) (poll : Option ℤ) (w : World)
      → shelf (round limits write r again o poll w).1 ≡ shelf w
  round-shelf r again h o (some code) w = refl
  round-shelf r again h o none w =
      after_decision-shelf r again h (decide_stop limits write r o w) ∙ decide_stop-shelf r o w

  pub wait_for_process-shelf :
      (readings : List Reading) (o : Option Stop) (w : World)
      → shelf (wait_for_process limits write readings o w).1 ≡ shelf w
  unfolding wait_for_process Unchanging
  wait_for_process-shelf [] o w = refl
  wait_for_process-shelf (r ∷ readings) o w =
      round-shelf r (wait_for_process limits write readings) (wait_for_process-shelf readings) o
        r.poll w
