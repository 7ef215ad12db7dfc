-- ===== src/Desktop/Pipeline.antt =====
-- The state machine of `PipelineController` of apps/desktop/pipeline.py: how a run moves its project
-- through the stages, and how it writes every move to the project's document.
pub mod Tests
pub mod Bodies
pub mod Execution
pub mod Active
pub mod Order
pub mod Returns
pub mod Rest
pub mod Recovery
pub mod Quiet
pub mod Durable
pub mod Owner
pub mod Control
pub mod Held
use gaussian_os.Prelude.{
  ℕ, suc, String, Bool, true, false, not, ◌&&◌, ◌||◌, ◌≡◌, Option, none, some, List, [], ◌∷◌, ◌++◌,
  ◌==◌, ◌!=◌, string_eq, list_eq, option_eq, Result, ok, err, if◌then◌else◌, lookup, insert,
  contains,
}
use gaussian_os.Contracts.Json.{Dict}
use gaussian_os.Desktop.Paths.{FilePath}
use gaussian_os.Desktop.Durable.{Volume}
use gaussian_os.Desktop.Project.{Project, StageState, new_stage}
use gaussian_os.Desktop.Library.{StoreError, Library}
use gaussian_os.Desktop.Library.Update.{update_project}

abbrev pub stage_names : List String
stage_names = "ingest" ∷ "colmap" ∷ "fallback" ∷ "train" ∷ "validate" ∷ "export" ∷ []

abbrev pub terminal_stage_states : List String
terminal_stage_states = "succeeded" ∷ "skipped" ∷ "fallback_required" ∷ []

-- What a run may raise: InterruptedError, or what a write of the document raises; RuntimeError and the
-- other exceptions of its own are among the latter.
pub data RunError : Type 0 where
  interrupted : RunError
  raised : StoreError → RunError

-- What is not the program's own during a run: `os.path.normcase`, the volume and the clock at each
-- write, whether the token is cancelled at each look, and the text of an exception.
pub record Setting : Type 0 where
  pub normcase : FilePath → FilePath
  pub volume : ℕ → Volume
  pub time : ℕ → String
  pub is_cancelled : ℕ → Bool
  pub describe : RunError → String

-- The project of the run in memory, the store, and how many writes and looks have been made.
pub record Run : Type 0 where
  pub project : Project
  pub library : Library
  pub writes : ℕ
  pub looks : ℕ

abbrev pub Step : Type 0 → Type 0
Step A = Run → Result RunError A × Run

abbrev pub continued : {A B : Type 0} → Result RunError A → (A → Step B) → Step B
continued (ok a) f r = f a r
continued (err e) f r = (err e, r)

infixl 5 ◌>>=◌ ◌>>◌
unfoldable pub ◌>>=◌ : {A B : Type 0} → Step A → (A → Step B) → Step B
◌>>=◌ m f r = let (result, r') = m r in continued result f r'

abbrev pub ◌>>◌ : {A B : Type 0} → Step A → Step B → Step B
m >> k = m >>= λ _. k

abbrev pub pure : {A : Type 0} → A → Step A
pure a r = (ok a, r)

abbrev pub raise : {A : Type 0} → RunError → Step A
raise e r = (err e, r)

-- A change of the project in memory.
abbrev pub change : (Project → Project) → Step Unit
change f r = (ok tt, record r { project = f r.project })

-- not project.run_id
abbrev pub has_text : Option String → Bool
has_text none = false
has_text (some s) = s != ""

-- project.stages.get(name, StageState()), made at a time
abbrev pub stage_or : String → Option StageState → StageState
stage_or now none = new_stage now
stage_or now (some state) = state

abbrev pub put_stage : String → StageState → Project → Project
put_stage name state p = record p { stages = insert name state p.stages }

-- `replace` of `_persist`
unfoldable pub replaced_by : Bool → Project → Project → Result StoreError Project
replaced_by allow_begin snapshot current =
    let same_run = current.run_id == snapshot.run_id in
    if not allow_begin && not same_run
    then err (StoreError.runtime_error "stale run")
    else if allow_begin && (current.status == "running" && not same_run)
    then err (StoreError.runtime_error "another run")
    else if not (current.project_id == snapshot.project_id && current.root == snapshot.root)
    then err (StoreError.runtime_error "identity changed")
    else ok snapshot

abbrev pub written : Result StoreError Project → Result {0, 0} RunError Unit
written (ok p) = ok tt
written (err e) = err (RunError.raised e)

-- `_raise_if_cancelled`
abbrev pub raise_if_cancelled : Setting → Step Unit
raise_if_cancelled s r =
    let r' = record r { looks = suc r.looks } in
    if s.is_cancelled r.looks then (err RunError.interrupted, r') else (ok tt, r')

-- `_persist`
unfoldable pub persist : Setting → Bool → Step Unit
unfolding replaced_by update_project
persist s allow_begin r =
    let (result, l) =
      update_project s.normcase (s.volume r.writes) (s.time r.writes) r.project.project_id
        (replaced_by allow_begin r.project) r.library in
    (written result, record r { library = l; writes = suc r.writes })

-- The active stage that keeps another one from starting.
abbrev pub is_active : Option StageState → Bool
is_active none = false
is_active (some state) = state.status == "running"

abbrev pub is_blocked : String → Project → Bool
is_blocked name p = elim p.current_stage [
  | none ↦ false
  | some current ↦
      not (current == "") && (is_active (lookup current p.stages) && not (current == name))
]

-- The stage that `_stage` starts.
abbrev pub started : String → String → Project → Project
started now name p =
    let state = stage_or now (lookup name p.stages) in
    record (put_stage name (record state { status = "running"; error = none }) p) {
      current_stage = some name;
    }

-- `_stage`
unfoldable pub start_stage : Setting → String → Step Unit
unfolding persist
start_stage s name r =
    if not (r.project.status == "running" && has_text r.project.run_id)
    then (err (RunError.raised (StoreError.runtime_error "no active run")), r)
    else if is_blocked name r.project
    then (err (RunError.raised (StoreError.runtime_error "another stage")), r)
    else (change (started (s.time r.writes) name) >> persist s false) r

-- state.artifact_paths, state.metrics = paths, metrics
abbrev pub recorded : String → String → List FilePath → Dict → Project → Project
recorded now name paths metrics p =
    let state = stage_or now (lookup name p.stages) in
    put_stage name (record state { artifact_paths = paths; metrics = metrics }) p

abbrev pub ended : String → String → String → Option String → Project → Project
ended now name status error p =
    let state = stage_or now (lookup name p.stages) in
    put_stage name (record state { status = status; error = error; updated_at = now }) p

-- The error that a stage has.
abbrev pub error_of : Option StageState → Option String
error_of none = none
error_of (some state) = state.error

-- `_complete`
unfoldable pub complete_stage : Setting → String → Step Unit
unfolding persist
complete_stage s name r =
    if not (r.project.current_stage == some name && is_active (lookup name r.project.stages))
    then (err (RunError.raised (StoreError.runtime_error "late completion")), r)
    else let now = s.time r.writes in
      (change (λ p. ended now name "succeeded" (error_of (lookup name p.stages)) p)
          >> persist s false)
        r

-- `_skip`, with the metrics that hold the reason
unfoldable pub skip_stage : Setting → String → Dict → Step Unit
unfolding persist
skip_stage s name reason r =
    let now = s.time r.writes in
    (change (λ p.
          let state = stage_or now (lookup name p.stages) in
          put_stage name
            (record state { status = "skipped"; error = none; metrics = reason; updated_at = now })
            p)
        >> persist s false)
      r

-- `_terminate_active_stage`, at a time
unfoldable pub terminate_active_stage : String → String → String → Project → Project
terminate_active_stage now status error p = elim p.current_stage [
  | none ↦ p
  | some current ↦
      if not (current == "") && is_active (lookup current p.stages)
      then ended now current status (some error) p
      else p
]

-- `_normalize_success`: no stage of STAGES is in a state that is not terminal.
unfoldable pub is_complete : String → List String → Project → Bool
is_complete now [] p = true
is_complete now (name ∷ names) p =
    contains (StageState.status (stage_or now (lookup name p.stages))) terminal_stage_states
    && is_complete now names p

unfoldable pub normalize_success : Setting → Step Unit
unfolding is_complete
normalize_success s r =
    if is_complete (s.time r.writes) stage_names r.project
    then (ok tt, r)
    else (err (RunError.raised (StoreError.runtime_error "not terminal")), r)
