-- ===== src/Desktop/Pipeline/Recovery/Settled.antt =====
-- What `recover_interrupted_projects` of apps/desktop/pipeline.py gives back.
use gaussian_os.Prelude.{
  ℕ, suc, All, String, Bool, true, false, not, ◌≡◌, refl, sym, ap, ◌∙◌, subst, Option, none, some,
  List, [], ◌∷◌, ◌==◌, string_eq, pair_eq, Result, ok, err, if◌then◌else◌, contains, filter, arith,
  Bool-cases, inl, inr, lookup,
}
use gaussian_os.Desktop.Paths.{FilePath}
use gaussian_os.Desktop.Durable.{Volume}
use gaussian_os.Desktop.Project.{Project}
use gaussian_os.Desktop.Library.{
  StoreError, Library, StoreAction, ◌>>=◌, and_then, with_lock, take_lock, checked_id, own_document,
  classified_among, all_projects,
}
use gaussian_os.Desktop.Library.Update.{
  update_project, updated, write_project, write_state, returning, assert_unique_workspace,
}
use gaussian_os.Desktop.Library.Outcome.{
  update_project-Outcome, filter-released, with_lock-busy, with_lock-free,
}
use gaussian_os.Desktop.Pipeline.Recovery.{
  interrupted, appended, after_snapshot, update_interrupted, recover_checked, recover_snapshot,
  recover_each, recover_listed, recover_interrupted_projects,
}

-- What holds of a result, where there is one.
abbrev Gives : {A : Type 0} → (A → Type 0) → Result StoreError A → Type 0
Gives P (ok a) = P a
Gives P (err e) = Unit

abbrev NotRunning : Project → Type 0
NotRunning p = (p.status == "running") ≡ false

>>=-Gives :
    {A : Type 0} (P : Project → Type 0) (r : Result StoreError A)
    (f : A → Result StoreError Project)
    → ((a : A) → Gives P (f a))
    → Gives P (r >>= f)
>>=-Gives P (ok a) f h = h a
>>=-Gives P (err e) f h = tt

and_then-Gives {κ} :
    {A : Type κ} (P : Project → Type 0) (r : Result StoreError A) (f : A → StoreAction Project)
    (l : Library)
    → ((a : A) → r ≡ ok a → Gives P (f a l).0)
    → Gives P (and_then r f l).0
and_then-Gives P (ok a) f l h = h a refl
and_then-Gives P (err e) f l h = tt

with_lock-Gives :
    (P : Project → Type 0) (id operation : String) (body : StoreAction Project) (l : Library)
    → Gives P (body (take_lock id operation l)).0
    → Gives P (with_lock id operation body l).0
with_lock-Gives P id operation body l h = elim (Bool-cases (contains (id, operation) l.held)) [
  | inl busy ↦ subst (λ call. Gives P call.0) (sym (with_lock-busy id operation body l busy)) tt
  | inr free ↦ subst (λ call. Gives P call.0) (sym (with_lock-free id operation body l free)) h
]

returning-Gives :
    (P : Project → Type 0) (p : Project) (r : Result {0, 0} StoreError Unit)
    → P p
    → Gives P (returning p r)
returning-Gives P p (ok u) h = h
returning-Gives P p (err e) h = tt

interrupted-NotRunning : (p : Project) → Gives NotRunning (interrupted p)
interrupted-NotRunning p = elim (Bool-cases (p.status == "running")) [
  | inl runs ↦ ground (arith, runs)
  | inr rests ↦ ground (arith, rests)
]

given :
    (P : Project → Type 0) (r : Result StoreError Project) (p : Project)
    → Gives P r
    → r ≡ ok p
    → P p
given P r p h same = subst (Gives P) same h

-- The locks of before, and projects that do not run.
abbrev pub Settles : Library → Result StoreError (List Project) × Library → Type 0
Settles l (r, l') = (l'.held ≡ l.held) × Gives (All NotRunning) r

module _ (normcase : FilePath → FilePath) where
  updated-NotRunning :
      (id : String) (l : Library) → Gives NotRunning (updated normcase id interrupted l)
  unfolding updated
  updated-NotRunning id l = >>=-Gives NotRunning (checked_id id) _ (λ stem.
      >>=-Gives NotRunning (own_document stem (lookup stem l.documents)) _
        (λ p. >>=-Gives NotRunning (classified_among normcase stem p l) _ interrupted-NotRunning))

  write_project-NotRunning :
      (volume : Volume) (now id : String) (p : Project) (l : Library)
      → NotRunning p
      → Gives NotRunning (write_project normcase volume now id p l).0
  unfolding write_project
  write_project-NotRunning volume now id p l rests =
      let saved = record p { updated_at = now } in
      and_then-Gives NotRunning (assert_unique_workspace normcase p l) _ l
        (λ u same. returning-Gives NotRunning saved (write_state volume id saved l).0 rests)

  update_project-NotRunning :
      (volume : Volume) (now id : String) (l : Library)
      → Gives NotRunning (update_project normcase volume now id interrupted l).0
  unfolding update_project
  update_project-NotRunning volume now id l =
      let held = take_lock id "state" l in
      with_lock-Gives NotRunning id "state"
        (λ l'.
          and_then (updated normcase id interrupted l') (write_project normcase volume now id) l')
        l
        (and_then-Gives NotRunning (updated normcase id interrupted held)
          (write_project normcase volume now id) held
          (λ p same. write_project-NotRunning volume now id p held (
            given NotRunning (updated normcase id interrupted held) p (updated-NotRunning id held)
              same)))

-- The locks of before, and a project that does not run, if there is one.
abbrev pub SettlesOne : Library → Result StoreError (Option Project) × Library → Type 0
SettlesOne l (r, l') = (l'.held ≡ l.held) × Gives (λ o. (p : Project) → o ≡ some p → NotRunning p) r

appended-Gives :
    (r : Result StoreError Project)
    → Gives NotRunning r
    → Gives (λ o. (p : Project) → o ≡ some p → NotRunning p) (appended r)
appended-Gives (ok q) rests = λ p same. ground (arith, rests, same)
appended-Gives (err e) rests = tt

after_snapshot-Settles :
    (l : Library) (r : Result StoreError (Option Project)) (l' : Library)
    (rest : Result StoreError (List Project) × Library)
    → SettlesOne l (r, l')
    → Settles l' rest
    → Settles l (after_snapshot r l' rest)
after_snapshot-Settles l (err e) l' rest one h = (one.0, tt)
after_snapshot-Settles l (ok none) l' rest one h = (h.0 ∙ one.0, h.1)
after_snapshot-Settles l (ok (some p)) l' (ok ps, l'') one h = (h.0 ∙ one.0, (one.1 p refl, h.1))
after_snapshot-Settles l (ok (some p)) l' (err e, l'') one h = (h.0 ∙ one.0, tt)

module _ (normcase : FilePath → FilePath) (volume : ℕ → Volume) (time : ℕ → String) where
  update_interrupted-Settles :
      (n : ℕ) (id : String) (l : Library)
      → contains (id, "run") l.held ≡ false
      → SettlesOne l (update_interrupted normcase volume time n id l)
  unfolding update_interrupted
  update_interrupted-Settles n id l free =
      let held = take_lock id "run" l in
      let call = update_project normcase (volume n) (time n) id interrupted held in
      let kept = update_project-Outcome normcase (volume n) (time n) id interrupted held in
      (
        ap (filter (λ k. not (k == (id, "run")))) kept.1.3
            ∙ filter-released (id, "run") l.held free,
        appended-Gives call.0 (update_project-NotRunning normcase (volume n) (time n) id held),
      )

  idle-SettlesOne : (l : Library) → SettlesOne l (ok none, l)
  idle-SettlesOne l = (refl, λ p same. absurd (cc same))

  choice :
      (b : Bool) (l : Library) (call : Result StoreError (Option Project) × Library)
      → SettlesOne l call
      → SettlesOne l (if b then call else (ok none, l))
  choice true l call h = h
  choice false l call h = idle-SettlesOne l

  recover_checked-Settles :
      (n : ℕ) (checked : Result StoreError String) (l : Library)
      → SettlesOne l (recover_checked normcase volume time n checked l)
  recover_checked-Settles n (err e) l = idle-SettlesOne l
  recover_checked-Settles n (ok id) l = elim (Bool-cases (contains (id, "run") l.held)) [
    | inl busy ↦
        subst
          (λ b.
            SettlesOne l
              (if b then (ok none, l) else update_interrupted normcase volume time n id l))
          (sym busy) (idle-SettlesOne l)
    | inr free ↦
        subst
          (λ b.
            SettlesOne l
              (if b then (ok none, l) else update_interrupted normcase volume time n id l))
          (sym free) (update_interrupted-Settles n id l free)
  ]

  recover_snapshot-Settles :
      (n : ℕ) (p : Project) (l : Library)
      → SettlesOne l (recover_snapshot normcase volume time n p l)
  unfolding recover_snapshot
  recover_snapshot-Settles n p l =
      choice (p.status == "running") l
        (recover_checked normcase volume time n (checked_id p.project_id) l)
        (recover_checked-Settles n (checked_id p.project_id) l)

  recover_each-Settles :
      (n : ℕ) (ps : List Project) (l : Library)
      → Settles l (recover_each normcase volume time n ps l)
  unfolding recover_each
  recover_each-Settles n [] l = (refl, tt)
  recover_each-Settles n (p ∷ ps) l =
      let call = recover_snapshot normcase volume time n p l in
      after_snapshot-Settles l call.0 call.1 (recover_each normcase volume time (suc n) ps call.1)
        (recover_snapshot-Settles n p l) (recover_each-Settles (suc n) ps call.1)

  recover_listed-Settles :
      (r : Result StoreError (List Project)) (l : Library)
      → Settles l (recover_listed normcase volume time r l)
  recover_listed-Settles (ok ps) l = recover_each-Settles 0 ps l
  recover_listed-Settles (err e) l = (refl, tt)

  -- Whatever the volume meets, the recovery after a restart gives back every lock it took, also when it
  -- raises, and no project that it returns is running.
  pub recover_interrupted_projects-Settles :
      (l : Library) → Settles l (recover_interrupted_projects normcase volume time l)
  unfolding recover_interrupted_projects
  recover_interrupted_projects-Settles l = recover_listed-Settles (all_projects normcase l) l
