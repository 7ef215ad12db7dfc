-- ===== src/Desktop/Session/Identity.antt =====
-- What the identities of apps/desktop/project_session.py keep out: results of another generation of
-- the session, and results of a cancelled run.
use gaussian_os.Prelude.{
  ◌≤◌, String, Bool, true, false, ◌≡◌, refl, Option, none, some, List, [], ◌∷◌, string_eq, ℕ_eq,
  option_eq, pair_eq, lookup, arith, Bool-cases, inl, inr,
}
use gaussian_os.Desktop.Session.{
  ProjectSession, switch, cancel_active, Payload, accepts, Op, apply, apply_all,
}

cancel_active-generation :
    (p : String) (o : Option String) (s : ProjectSession)
    → (cancel_active p o s).generation ≡ s.generation
cancel_active-generation p none s = refl
cancel_active-generation p (some r) s = ground arith

apply-generation : (op : Op) (s : ProjectSession) → s.generation ≤ (apply op s).generation
apply-generation (Op.switching p) s = omega arith
apply-generation (Op.beginning p r) s = omega arith
apply-generation (Op.cancelling p) s =
    ground (arith, cancel_active-generation p (lookup p s.active_runs) s)
apply-generation (Op.finishing p r) s = ground arith
apply-generation (Op.removing p) s = ground arith

apply_all-generation :
    (ops : List Op) (s : ProjectSession) → s.generation ≤ (apply_all ops s).generation
unfolding apply_all
apply_all-generation [] s = omega arith
apply_all-generation (op ∷ ops) s =
    omega (arith, apply-generation op s, apply_all-generation ops (apply op s))

accepted_generation :
    (payload : Payload) (require_run : Bool) (s : ProjectSession)
    → accepts payload require_run s ≡ true
    → payload.generation ≡ some s.generation
accepted_generation payload require_run s h =
    ground (arith, option_eq.beq_iff payload.generation (some s.generation))

-- A payload that a session accepts is refused for good after the session switches the project, also
-- if it switches to the same project: whatever calls follow, and whether a run is required or not.
pub accepts-switch :
    (payload : Payload) (before after : Bool) (s : ProjectSession) (project_id : String)
    (ops : List Op)
    → accepts payload before s ≡ true
    → accepts payload after (apply_all ops (switch project_id s)) ≡ false
accepts-switch payload before after s project_id ops h =
    elim (Bool-cases (accepts payload after (apply_all ops (switch project_id s)))) [
      | inl again ↦ ground (
        arith,
        accepted_generation payload before s h,
        accepted_generation payload after (apply_all ops (switch project_id s)) again,
        apply_all-generation ops (switch project_id s),
      )
      | inr refused ↦ refused
    ]
