-- ===== src/Desktop/Pipeline/Control/Balance.antt =====
-- `run` of apps/desktop/pipeline.py gives back its lock and its place among the running projects.
use gaussian_os.Prelude.{
  String, Bool, true, false, not, ◌≡◌, refl, ap, ◌∙◌, List, [], ◌∷◌, ◌==◌, string_eq, pair_eq,
  Result, ok, err, if◌then◌else◌, contains, filter, same_iff, eq_self, arith, list_eq,
}
use gaussian_os.Desktop.Paths.{ProjectPaths, FilePath}
use gaussian_os.Desktop.Project.{Project}
use gaussian_os.Desktop.Library.{StoreError, Library, load, take_lock, and_then}
use gaussian_os.Desktop.Library.Update.{ensure_writable, ensure_workspace}
use gaussian_os.Desktop.Library.Outcome.{filter-released}
use gaussian_os.Desktop.Pipeline.{RunError, Setting, Run}
use gaussian_os.Desktop.Pipeline.Bodies.{Work}
use gaussian_os.Desktop.Pipeline.Execution.{RunEnd, returned, escaped, stuck}
use gaussian_os.Desktop.Pipeline.Held.{KeepsHeld, run_loaded-held, handle_outcome-held}
use gaussian_os.Desktop.Pipeline.Control.{
  Control, admitted, checked_free, checked_input, run_loaded_again, leave_lock, leave_running,
  run_under_lock, enter, enter_writable, run_project,
}

-- Unless the finally clause was left early, the locks and the running projects are those of before.
abbrev pub Balanced : Control → RunEnd × Control → Type 0
Balanced c (stuck e, c') = Unit
Balanced c (returned, c') = (c'.library.held ≡ c.library.held) × (c'.running ≡ c.running)
Balanced c (escaped e, c') = (c'.library.held ≡ c.library.held) × (c'.running ≡ c.running)

abbrev pub Unlocked : Library → RunEnd × Library → Type 0
Unlocked l (stuck e, l') = Unit
Unlocked l (returned, l') = l'.held ≡ l.held
Unlocked l (escaped e, l') = l'.held ≡ l.held

leave_lock-Unlocked :
    (end : RunEnd) (id : String) (l l' : Library)
    → contains (id, "run") l.held ≡ false
    → l'.held ≡ (id, "run") ∷ l.held
    → Unlocked l (end, leave_lock end id l')
leave_lock-Unlocked (stuck e) id l l' free held = tt
leave_lock-Unlocked returned id l l' free held =
    ap (filter (λ k. not (k == (id, "run")))) held ∙ filter-released (id, "run") l.held free
leave_lock-Unlocked (escaped e) id l l' free held =
    ap (filter (λ k. not (k == (id, "run")))) held ∙ filter-released (id, "run") l.held free

run_loaded_again-held :
    (s : Setting) (work : Work) (run_id : String) (r : Run) (given : Result StoreError Project)
    → KeepsHeld r (run_loaded_again s work run_id r given).1
run_loaded_again-held s work run_id r (ok p) =
    run_loaded-held s work run_id (record r { project = p })
run_loaded_again-held s work run_id r (err e) =
    handle_outcome-held s false (err (RunError.raised e)) r

if-Unlocked :
    (l : Library) (b : Bool) (x y : RunEnd × Library)
    → (b ≡ true → Unlocked l x)
    → (b ≡ false → Unlocked l y)
    → Unlocked l (if b then x else y)
if-Unlocked l true x y h k = h refl
if-Unlocked l false x y h k = k refl

run_under_lock-Unlocked :
    (s : Setting) (work : Work) (run_id id : String) (p : Project) (l : Library)
    → Unlocked l (run_under_lock s work run_id id p l)
unfolding run_under_lock
run_under_lock-Unlocked s work run_id id p l =
    let held = take_lock id "run" l in
    let r : Run = record { project = p; library = held; writes = 0; looks = 0 } in
    let call = run_loaded_again s work run_id r (load s.normcase id held) in
    if-Unlocked l (contains (id, "run") l.held) _ _ (λ busy. refl)
      (λ free.
        leave_lock-Unlocked call.0 id l call.1.library free
          (run_loaded_again-held s work run_id r (load s.normcase id held)))

filter-others :
    (id : String) (running : List String)
    → contains id running ≡ false
    → filter (λ other. not (other == id)) running ≡ running
filter-others id [] free = refl
filter-others id (other ∷ running) free =
    ground (arith, same_iff other id, same_iff id other, filter-others id running)

leave-Balanced :
    (c : Control) (id : String) (end : RunEnd) (l' : Library)
    → contains id c.running ≡ false
    → Unlocked c.library (end, l')
    → Balanced c (end, record { library = l'; running = leave_running end id (id ∷ c.running) })
leave-Balanced c id (stuck e) l' free held = tt
leave-Balanced c id returned l' free held =
    (held, ground (arith, eq_self id, filter-others id c.running free))
leave-Balanced c id (escaped e) l' free held =
    (held, ground (arith, eq_self id, filter-others id c.running free))

checked_free-eq_ok :
    (id : String) (running : List String) (given : Result StoreError Project) (p : Project)
    → checked_free id running given ≡ ok p
    → contains id running ≡ false
checked_free-eq_ok id running (err e) p h = absurd (cc h)
checked_free-eq_ok id running (ok q) p h = ground (arith, h)

enter-Balanced :
    (s : Setting) (work : Work) (run_id id : String) (c : Control)
    (given : Result StoreError Project)
    → ((p : Project) → given ≡ ok p → contains id c.running ≡ false)
    → Balanced c (enter s work run_id id c.running c.library given)
enter-Balanced s work run_id id c (err e) free = (refl, refl)
enter-Balanced s work run_id id c (ok p) free =
    let call = run_under_lock s work run_id id p c.library in
    leave-Balanced c id call.0 call.1 (free p refl)
      (run_under_lock-Unlocked s work run_id id p c.library)

enter_writable-Balanced :
    (s : Setting) (work : Work) (run_id id : String) (c : Control)
    (given : Result StoreError ProjectPaths)
    → Balanced c (enter_writable s work run_id id c.running c.library given)
unfolding admitted
enter_writable-Balanced s work run_id id c (err e) = (refl, refl)
enter_writable-Balanced s work run_id id c (ok found) =
    enter-Balanced s work run_id id c (admitted s id c.running c.library)
      (λ p. checked_free-eq_ok id c.running (checked_input (load s.normcase id c.library)) p)

and_then-held :
    {A B : Type 0} (given : Result StoreError A) (f : A → B) (w : A → Library → Library)
    (l : Library)
    → ((a : A) → Library.held (w a l) ≡ l.held)
    → Library.held (and_then given (λ a before. (ok (f a), w a before)) l).1 ≡ l.held
and_then-held (ok a) f w l h = h a
and_then-held (err e) f w l h = refl

ensure_workspace-held :
    (workspace : FilePath) (l : Library) → Library.held (ensure_workspace workspace l) ≡ l.held
ensure_workspace-held workspace l = ground arith

ensure_writable-held :
    (normcase : FilePath → FilePath) (id : String) (l : Library)
    → Library.held (ensure_writable normcase id l).1 ≡ l.held
unfolding ensure_writable
ensure_writable-held normcase id l =
    and_then-held _ (λ found. found) (λ found. ensure_workspace found.workspace) l
      (λ found. ensure_workspace-held found.workspace l)

-- Balance from a library with the same locks.
widen_balance :
    (c : Control) (l : Library) (end : RunEnd) (c' : Control)
    → l.held ≡ c.library.held
    → Balanced (record { library = l; running = c.running }) (end, c')
    → Balanced c (end, c')
widen_balance c l (stuck e) c' same h = tt
widen_balance c l returned c' same h = (h.0 ∙ same, h.1)
widen_balance c l (escaped e) c' same h = (h.0 ∙ same, h.1)

-- Whatever a call of `run` meets, unless an exception leaves its finally clause early, the locks that
-- are held and the projects that run after it are those of before.
pub run_project-Balanced :
    (s : Setting) (work : Work) (run_id id : String) (c : Control)
    → Balanced c (run_project s work run_id id c)
unfolding run_project
run_project-Balanced s work run_id id c =
    let (found, l) = ensure_writable s.normcase id c.library in
    let call = enter_writable s work run_id id c.running l found in
    widen_balance c l call.0 call.1 (ensure_writable-held s.normcase id c.library)
      (enter_writable-Balanced s work run_id id (record { library = l; running = c.running }) found)
