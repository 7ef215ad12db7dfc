-- ===== src/Desktop/Session/Cancelled.antt =====
-- Cancelled runs of apps/desktop/project_session.py stay silent, and what a required run means.
use gaussian_os.Prelude.{
  String, Bool, true, false, not, ◌≡◌, ◌≢◌, ◌↔◌, refl, Option, none, some, List, [], ◌∷◌, ◌==◌,
  string_eq, ℕ_eq, option_eq, pair_eq, lookup, contains, filter, arith, Bool-cases, inl, inr, All,
  eq_self, same_iff, sym, ap,
}
use gaussian_os.Desktop.Session.{
  ProjectSession, add, cancel_active, cancel_run, Field, Payload, is_text, is_stage, accepts_run,
  accepts, Op, apply, apply_all,
}

-- The calls that lift the cancellation of a run: it begins anew, or its project is removed.
abbrev pub revives : String × String → Op → Bool
revives identity (Op.beginning p r) = identity == (p, r)
revives identity (Op.removing p) = identity.0 == p
revives identity _ = false

abbrev pub IsCancelled : String × String → ProjectSession → Type 0
IsCancelled identity s = contains identity s.cancelled_runs ≡ true

contains-filter :
    (identity : String × String) (keep : String × String → Bool) (xs : List (String × String))
    → contains identity xs ≡ true
    → keep identity ≡ true
    → contains identity (filter keep xs) ≡ true
contains-filter identity keep [] h k = h
contains-filter identity keep (x ∷ xs) h k = elim (Bool-cases (identity == x)) [
  | inl same ↦ ground (arith, (same_iff identity x).0 same)
  | inr differ ↦ ground (arith, contains-filter identity keep xs)
]

contains-add_self :
    (identity : String × String) (xs : List (String × String))
    → contains identity (add identity xs) ≡ true
contains-add_self identity xs = ground (arith, eq_self identity)

contains-add :
    (identity new : String × String) (xs : List (String × String))
    → contains identity xs ≡ true
    → contains identity (add new xs) ≡ true
contains-add identity new xs h = ground arith

cancel_active-IsCancelled :
    (identity : String × String) (p : String) (o : Option String) (s : ProjectSession)
    → IsCancelled identity s
    → IsCancelled identity (cancel_active p o s)
cancel_active-IsCancelled identity p none s h = h
cancel_active-IsCancelled identity p (some r) s h =
    ground (arith, contains-add identity (p, r) s.cancelled_runs h)

apply-IsCancelled :
    (identity : String × String) (op : Op) (s : ProjectSession)
    → revives identity op ≡ false
    → IsCancelled identity s
    → IsCancelled identity (apply op s)
apply-IsCancelled identity (Op.switching p) s quiet h = h
apply-IsCancelled identity (Op.beginning p r) s quiet h =
    contains-filter identity (λ other. not ((p, r) == other)) s.cancelled_runs h
      (elim (Bool-cases ((p, r) == identity)) [
        | inl same ↦ cc ((same_iff identity (p, r)).1 (sym ((same_iff (p, r) identity).0 same)))
        | inr differ ↦ ap not differ
      ])
apply-IsCancelled identity (Op.cancelling p) s quiet h =
    cancel_active-IsCancelled identity p (lookup p s.active_runs) s h
apply-IsCancelled identity (Op.finishing p r) s quiet h = ground arith
apply-IsCancelled identity (Op.removing p) s quiet h = ground (
  arith,
  contains-filter identity (λ (other : String × String). not (other.0 == p)) s.cancelled_runs h,
)

apply_all-IsCancelled :
    (identity : String × String) (ops : List Op) (s : ProjectSession)
    → All (λ op. revives identity op ≡ false) ops
    → IsCancelled identity s
    → IsCancelled identity (apply_all ops s)
unfolding apply_all
apply_all-IsCancelled identity [] s quiet h = h
apply_all-IsCancelled identity (op ∷ ops) s (quiet, later) h =
    apply_all-IsCancelled identity ops (apply op s) later (apply-IsCancelled identity op s quiet h)

cancelled_refused :
    (p r : String) (payload : Payload) (require_run : Bool) (s : ProjectSession)
    → payload.project_id ≡ Field.text p
    → payload.run_id ≡ Field.text r
    → IsCancelled (p, r) s
    → accepts payload require_run s ≡ false
cancelled_refused p r payload require_run s named run h =
    ground (arith, string_eq.beq_iff p s.project_id)

-- After `cancel_run` of a project whose active run has a name that is not empty, no payload of that
-- run is accepted, whatever calls follow, until the run begins anew or the project is removed.
pub cancel_run-accepts :
    (p r : String) (s : ProjectSession) (ops : List Op) (payload : Payload) (require_run : Bool)
    → lookup p s.active_runs ≡ some r
    → r ≢ ""
    → All (λ op. revives (p, r) op ≡ false) ops
    → payload.project_id ≡ Field.text p
    → payload.run_id ≡ Field.text r
    → accepts payload require_run (apply_all ops (cancel_run p s)) ≡ false
cancel_run-accepts p r s ops payload require_run active named quiet same_project same_run =
    cancelled_refused p r payload require_run (apply_all ops (cancel_run p s)) same_project same_run
      (apply_all-IsCancelled (p, r) ops (cancel_run p s) quiet
        (ground (arith, string_eq.beq_iff r "", contains-add_self (p, r) s.cancelled_runs)))

-- What a payload has that a session accepts when a run is required.
pub record IsOfRun (payload : Payload) (s : ProjectSession) : Type 0 where
  pub project : payload.project_id ≡ Field.text s.project_id
  pub generation : payload.generation ≡ some s.generation
  pub stage : (name : String) × (payload.stage ≡ Field.text name) × (name ≢ "")
  pub run :
      (r : String) × (payload.run_id ≡ Field.text r)
      × (lookup s.project_id s.active_runs ≡ some r)
      × (contains (s.project_id, r) s.cancelled_runs ≡ false)

text_of : (f : Field) (s : String) → is_text f s ≡ true → f ≡ Field.text s
text_of (Field.text t) s h = ground (arith, string_eq.beq_iff t s)
text_of Field.missing s h = ground arith
text_of Field.other s h = ground arith

stage_of : (f : Field) → is_stage f ≡ true → (name : String) × (f ≡ Field.text name) × (name ≢ "")
stage_of (Field.text t) h = (t, refl, ground (arith, string_eq.beq_iff t ""))
stage_of Field.missing h = ground arith
stage_of Field.other h = ground arith

run_of :
    (s : ProjectSession) (f : Field)
    → accepts_run s true f ≡ true
    → (r : String) × (f ≡ Field.text r)
      × (lookup s.project_id s.active_runs ≡ some r)
      × (contains (s.project_id, r) s.cancelled_runs ≡ false)
run_of s (Field.text r) h = (
  r,
  refl,
  (same_iff (lookup s.project_id s.active_runs) (some r)).0 (ground arith),
  ground arith,
)
run_of s Field.missing h = ground arith
run_of s Field.other h = ground arith

is_text_self : (s : String) → is_text (Field.text s) s ≡ true
is_text_self s = eq_self s

required_sound :
    (payload : Payload) (s : ProjectSession) → accepts payload true s ≡ true → IsOfRun payload s
required_sound payload s h = record {
  project = text_of payload.project_id s.project_id (ground arith);
  generation = ground (arith, option_eq.beq_iff payload.generation (some s.generation));
  stage = stage_of payload.stage (ground arith);
  run = run_of s payload.run_id (ground arith);
}

required_complete :
    (payload : Payload) (s : ProjectSession) → IsOfRun payload s → accepts payload true s ≡ true
required_complete payload s h =
    let (name, stage, named) = h.stage in
    let (r, run, active, clear) = h.run in
    rw (h.project, h.generation, stage, run)
      (ground (
        arith,
        eq_self s.project_id,
        eq_self s.generation,
        string_eq.beq_iff name "",
        (same_iff (lookup s.project_id s.active_runs) (some r)).1 active,
      ))

-- When a run is required, a session accepts exactly the payloads of its own project and generation
-- that name a stage and the project's active run, if that run is not cancelled.
pub accepts_iff :
    (payload : Payload) (s : ProjectSession) → (accepts payload true s ≡ true) ↔ IsOfRun payload s
accepts_iff payload s = (required_sound payload s, required_complete payload s)
