-- ===== src/Desktop/Pipeline/Active.antt =====
-- The stage that runs and the current stage, at every moment of a run of apps/desktop/pipeline.py.
use gaussian_os.Prelude.{
  String, Bool, true, false, not, ◌&&◌, ◌≡◌, refl, sym, ap, subst, Option, none, some, List, ◌==◌,
  string_eq, option_eq, Result, if◌then◌else◌, lookup, lookup-insert, contains, same_iff, arith,
  Bool-cases, inl, inr,
}
use gaussian_os.Contracts.Json.{Dict}
use gaussian_os.Desktop.Paths.{FilePath}
use gaussian_os.Desktop.Project.{Project, StageState}
use gaussian_os.Desktop.Pipeline.{
  RunError, Setting, Run, Step, ◌>>=◌, stage_or, put_stage, raise_if_cancelled, persist,
  start_stage, complete_stage, skip_stage, is_active, is_blocked, started, stage_names, has_text,
}
use gaussian_os.Desktop.Pipeline.Bodies.{record_stage, require_fallback}
use gaussian_os.Desktop.Pipeline.Order.{Preserved}

-- A stage that runs is the current one, and one of STAGES.
abbrev pub Active : Project → Type 0
Active p =
    (name : String)
    → is_active (lookup name p.stages) ≡ true
    → (p.current_stage ≡ some name) × (contains name stage_names ≡ true)

abbrev pub Safe : {A : Type 0} → Step A → Type 0
Safe m = (r : Run) → Active r.project → Active (m r).1.project

pub persist-Safe : (s : Setting) (allow : Bool) → Safe (persist s allow)
unfolding persist
persist-Safe s allow r active = active

-- The tests of a branch hold where it is taken.
pub if-Active :
    {A : Type 0} (b : Bool) (x y : Result RunError A × Run)
    → (b ≡ true → Active x.1.project)
    → (b ≡ false → Active y.1.project)
    → Active (if b then x else y).1.project
if-Active true x y h k = h refl
if-Active false x y h k = k refl

pub raise_if_cancelled-Safe : (s : Setting) → Safe (raise_if_cancelled s)
raise_if_cancelled-Safe s r active =
    if-Active (s.is_cancelled r.looks) _ _ (λ yes. active) (λ no. active)

put_stage-Active :
    (name : String) (state : StageState) (p : Project)
    → (is_active (some state) ≡ true → is_active (lookup name p.stages) ≡ true)
    → Active p
    → Active (put_stage name state p)
put_stage-Active name state p like active n running =
    active n (ground (arith, lookup-insert name n state p.stages, same_iff n name, like, running))

stage_or-is_active :
    (now : String) (o : Option StageState)
    → is_active (some (stage_or now o)) ≡ true
    → is_active o ≡ true
stage_or-is_active now none h = absurd (cc)
stage_or-is_active now (some state) h = h

pub known-is_not_empty : (n : String) → contains n stage_names ≡ true → (n == "") ≡ false
known-is_not_empty n known = elim (Bool-cases (n == "")) [
  | inl empty ↦
      absurd (cc (subst (λ n. contains n stage_names ≡ true) ((same_iff n "").0 empty) known))
  | inr present ↦ present
]

blocked_by :
    (name n : String) (p : Project)
    → p.current_stage ≡ some n
    → is_active (lookup n p.stages) ≡ true
    → contains n stage_names ≡ true
    → (n == name) ≡ false
    → is_blocked name p ≡ true
blocked_by name n p current running known other =
    ground (arith, current, known-is_not_empty n known)

started-Active :
    (now name : String) (p : Project)
    → contains name stage_names ≡ true
    → is_blocked name p ≡ false
    → Active p
    → Active (started now name p)
started-Active now name p known free active n running = elim (Bool-cases (n == name)) [
  | inl same ↦
      let equal = (same_iff n name).0 same in
      (ap some (sym equal), subst (λ n. contains n stage_names ≡ true) (sym equal) known)
  | inr other ↦
      let before : is_active (lookup n p.stages) ≡ true = ground (
        arith,
        lookup-insert name n
            (record (stage_or now (lookup name p.stages)) { status = "running"; error = none })
            p.stages,
      ) in
      let (current, known_n) = active n before in
      absurd (ground (arith, blocked_by name n p current before known_n other))
]

pub start_stage-Safe :
    (s : Setting) (name : String) → contains name stage_names ≡ true → Safe (start_stage s name)
unfolding start_stage ◌>>=◌
start_stage-Safe s name known r active =
    if-Active (not (r.project.status == "running" && has_text r.project.run_id)) _ _
      (λ idle. active)
      (λ runs.
        if-Active (is_blocked name r.project) _ _ (λ blocked. active)
          (λ free. started-Active (s.time r.writes) name r.project known free active))

pub record_stage-Safe :
    (s : Setting) (name : String) (paths : List FilePath) (metrics : Dict)
    → Safe (record_stage s name paths metrics)
record_stage-Safe s name paths metrics r active =
    let state = stage_or (s.time r.writes) (lookup name r.project.stages) in
    put_stage-Active name (record state { artifact_paths = paths; metrics = metrics }) r.project
      (stage_or-is_active (s.time r.writes) (lookup name r.project.stages)) active

-- A stage that is put into a state other than running.
resting-Active :
    (name : String) (state : StageState) (p : Project)
    → is_active (some state) ≡ false
    → Active p
    → Active (put_stage name state p)
resting-Active name state p rests =
    put_stage-Active name state p (λ runs. absurd (ground (arith, runs, rests)))

pub complete_stage-Safe : (s : Setting) (name : String) → Safe (complete_stage s name)
unfolding complete_stage ◌>>=◌
complete_stage-Safe s name r active =
    if-Active
      (not (r.project.current_stage == some name && is_active (lookup name r.project.stages))) _ _
      (λ late. active) (λ on_time. resting-Active name _ r.project refl active)

pub skip_stage-Safe :
    (s : Setting) (name : String) (reason : Dict) → Safe (skip_stage s name reason)
unfolding skip_stage ◌>>=◌
skip_stage-Safe s name reason r active = resting-Active name _ r.project refl active

pub require_fallback-Safe : (s : Setting) (message : String) → Safe (require_fallback s message)
require_fallback-Safe s message r active = resting-Active "colmap" _ r.project refl active

-- What a run keeps of its project.
abbrev pub KeepsActive : Run → Run → Type 0
KeepsActive r r' = Active r.project → Active r'.project

pub Active-Preserved : Preserved KeepsActive
Active-Preserved = record {
  stays = λ r active. active;
  follows = λ a b c h k active. k (h active);
  looking = raise_if_cancelled-Safe;
  writing = persist-Safe;
  starting = start_stage-Safe;
  completing = complete_stage-Safe;
  skipping = skip_stage-Safe;
  recording = record_stage-Safe;
  falling_back = require_fallback-Safe;
  sampling = λ sampling r active. active;
  warning = λ warnings r active. active;
  succeeding = λ r active. active;
}
