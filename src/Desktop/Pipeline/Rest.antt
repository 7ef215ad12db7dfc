-- ===== src/Desktop/Pipeline/Rest.antt =====
-- A stage that ends comes to rest: `_terminate_active_stage` and `_normalize_success` of
-- apps/desktop/pipeline.py leave no stage running.
use gaussian_os.Prelude.{
  String, Bool, true, false, ◌≡◌, refl, sym, ◌∙◌, subst, Option, none, some, List, [], ◌∷◌, ◌==◌,
  string_eq, option_eq, Result, ok, err, if◌then◌else◌, lookup, lookup-insert, contains, same_iff,
  arith, Bool-cases, inl, inr,
}
use gaussian_os.Desktop.Project.{Project, StageState}
use gaussian_os.Desktop.Library.{StoreError}
use gaussian_os.Desktop.Pipeline.{
  RunError, Setting, Run, Step, ◌>>=◌, ◌>>◌, change, continued, stage_or, is_active, stage_names,
  terminal_stage_states, normalize_success, is_complete, terminate_active_stage,
}
use gaussian_os.Desktop.Pipeline.Bodies.{Work}
use gaussian_os.Desktop.Pipeline.Execution.{execute_stages, marked}
use gaussian_os.Desktop.Pipeline.Active.{Active, known-is_not_empty}

abbrev pub NoneRunning : Project → Type 0
NoneRunning p = (name : String) → is_active (lookup name p.stages) ≡ false

-- No stage runs that the given hypothesis excludes.
none_running :
    (p : Project)
    → ((name : String) → is_active (lookup name p.stages) ≡ true → false ≡ true)
    → NoneRunning p
none_running p h name = elim (Bool-cases (is_active (lookup name p.stages))) [
  | inl runs ↦ absurd (cc (h name runs))
  | inr rests ↦ rests
]

pub NoneRunning-Active : (p : Project) → NoneRunning p → Active p
NoneRunning-Active p quiet name runs = absurd (cc (sym (quiet name) ∙ runs))

terminate-excludes :
    (now status error : String) (p : Project) (n : String) (o : Option String)
    → (status == "running") ≡ false
    → p.current_stage ≡ o
    → Active p
    → is_active (lookup n (Project.stages (terminate_active_stage now status error p))) ≡ true
    → false ≡ true
unfolding terminate_active_stage
terminate-excludes now status error p n none rests current active runs =
    let (now_current, known) = active n (ground (arith, current, runs)) in ground (arith, current)
terminate-excludes now status error p n (some c) rests current active runs =
    let state = stage_or now (lookup c p.stages) in
    ground (
      arith,
      current,
      lookup-insert c n (record state { status = status; error = some error; updated_at = now })
          p.stages,
      same_iff n c,
      active n,
      known-is_not_empty n,
      rests,
    )

pub terminate-NoneRunning :
    (now status error : String) (p : Project)
    → (status == "running") ≡ false
    → Active p
    → NoneRunning (terminate_active_stage now status error p)
terminate-NoneRunning now status error p rests active =
    none_running (terminate_active_stage now status error p)
      (λ n runs. terminate-excludes now status error p n p.current_stage rests refl active runs)

pub marked-NoneRunning :
    (now error : String) (p : Project) → Active p → NoneRunning (marked now error p)
marked-NoneRunning now error p active = terminate-NoneRunning now "failed" error p refl active

terminal-rests :
    (now : String) (o : Option StageState)
    → contains (StageState.status (stage_or now o)) terminal_stage_states ≡ true
    → is_active o ≡ false
terminal-rests now none h = refl
terminal-rests now (some state) h = elim (Bool-cases (state.status == "running")) [
  | inl runs ↦ absurd (
      cc (
        subst (λ status. contains status terminal_stage_states ≡ true)
          ((same_iff state.status "running").0 runs) h))
  | inr rests ↦ rests
]

is_complete-rests :
    (now name : String) (names : List String) (p : Project)
    → is_complete now names p ≡ true
    → contains name names ≡ true
    → is_active (lookup name p.stages) ≡ false
unfolding is_complete
is_complete-rests now name [] p complete known = absurd (cc known)
is_complete-rests now name (n ∷ names) p complete known = ground (
  arith,
  same_iff name n,
  terminal-rests now (lookup n p.stages),
  is_complete-rests now name names p,
)

pub is_complete-NoneRunning :
    (now : String) (p : Project) → Active p → is_complete now stage_names p ≡ true → NoneRunning p
is_complete-NoneRunning now p active complete =
    none_running p
      (λ n runs. sym (is_complete-rests now n stage_names p complete (active n runs).1) ∙ runs)

-- Where a step returns, its project has the property.
abbrev pub Ends : (Project → Type 0) → Step Unit → Type 0
Ends P m = (r : Run) → (m r).0 ≡ ok tt → P (m r).1.project

continued-Ends :
    {A : Type 0} (P : Project → Type 0) (result : Result RunError A) (f : A → Step Unit) (r : Run)
    → ((a : A) → Ends P (f a))
    → (continued result f r).0 ≡ ok tt
    → P (continued result f r).1.project
continued-Ends P (ok a) f r h returns = h a r returns
continued-Ends P (err e) f r h returns = absurd (cc returns)

>>=-Ends :
    {A : Type 0} (P : Project → Type 0) (m : Step A) (f : A → Step Unit)
    → ((a : A) → Ends P (f a))
    → Ends P (m >>= f)
unfolding ◌>>=◌
>>=-Ends P m f h r returns = continued-Ends P (m r).0 f (m r).1 h returns

-- Every stage of STAGES is in a terminal state.
abbrev pub Complete : Project → Type 0
Complete p = (now : String) × (is_complete now stage_names p ≡ true)

chosen :
    (b : Bool) (e : RunError) (f : Project → Project) (r : Run)
    → let m : Result RunError (Unit {0}) × Run = if b then (ok tt, r) else (err e, r) in
      (continued m.0 (λ u. change f) m.1).0 ≡ ok tt
      → (b ≡ true) × ((continued m.0 (λ u. change f) m.1).1.project ≡ f r.project)
chosen true e f r h = (refl, refl)
chosen false e f r h = absurd (cc h)

normalized-Complete :
    (s : Setting)
    → Ends Complete (normalize_success s >> change (λ p. record p { status = "succeeded" }))
unfolding normalize_success ◌>>=◌
normalized-Complete s r returns =
    let (complete, same) =
      chosen (is_complete (s.time r.writes) stage_names r.project)
        (RunError.raised (StoreError.runtime_error "not terminal"))
        (λ p. record p { status = "succeeded" }) r returns in
    subst Complete (sym same) (s.time r.writes, complete)

pub execute_stages-Complete : (s : Setting) (work : Work) → Ends Complete (execute_stages s work)
unfolding execute_stages
execute_stages-Complete s work = >>=-Ends Complete _ _ (λ a. >>=-Ends Complete _ _ (λ images.
    >>=-Ends Complete _ _ (λ b. >>=-Ends Complete _ _ (λ reconstruction. >>=-Ends Complete _ _ (λ c.
      >>=-Ends Complete _ _ (λ input. >>=-Ends Complete _ _ (λ d. >>=-Ends Complete _ _ (λ training.
        >>=-Ends Complete _ _ (λ e.
          >>=-Ends Complete _ _ (λ f. >>=-Ends Complete _ _ (λ g. normalized-Complete s)))))))))))
