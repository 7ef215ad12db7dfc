-- ===== src/Desktop/Session.antt =====
-- `ProjectSession` and `AsyncIdentity` of apps/desktop/project_session.py. The UI thread owns the
-- session, so its life is a sequence of calls.
pub mod Identity
pub mod Cancelled
use gaussian_os.Prelude.{
  ℕ, ◌+◌, String, Bool, true, false, not, ◌&&◌, ◌||◌, ◌≡◌, Option, none, some, List, [], ◌∷◌, ◌==◌,
  string_eq, ℕ_eq, option_eq, pair_eq, lookup, insert, remove, contains, filter, if◌then◌else◌,
}
use gaussian_os.Contracts.Json.{Dict}

-- `cancelled_runs` is a set: the list of its elements, in no order that counts.
pub record ProjectSession : Type 0 where
  pub project_id : String
  pub generation : ℕ
  pub viewer_project_id : Option String
  pub viewer_run_id : Option String
  pub timeline : List Dict
  pub active_camera : Option ℕ
  pub viewer_selection : Option String
  pub active_runs : List (String × String)
  pub cancelled_runs : List (String × String)

abbrev pub new_session : ProjectSession
new_session = record {
  project_id = "";
  generation = 0;
  viewer_project_id = none;
  viewer_run_id = none;
  timeline = [];
  active_camera = none;
  viewer_selection = none;
  active_runs = [];
  cancelled_runs = [];
}

-- `switch`, which also returns the generation of the session that it leaves.
abbrev pub switch : String → ProjectSession → ProjectSession
switch project_id s = record s {
  project_id = project_id;
  generation = s.generation + 1;
  viewer_project_id = none;
  viewer_run_id = none;
  timeline = [];
  active_camera = none;
  viewer_selection = none;
}

-- set.discard
abbrev pub discard : String × String → List (String × String) → List (String × String)
discard identity identities = filter (λ other. not (identity == other)) identities

-- set.add
abbrev pub add : String × String → List (String × String) → List (String × String)
add identity identities = if contains identity identities then identities else identity ∷ identities

abbrev pub begin_run : String → String → ProjectSession → ProjectSession
begin_run project_id run_id s = record s {
  active_runs = insert project_id run_id s.active_runs;
  cancelled_runs = discard (project_id, run_id) s.cancelled_runs;
}

-- if run_id: an absent or an empty run is not cancelled.
abbrev pub cancel_active : String → Option String → ProjectSession → ProjectSession
cancel_active project_id none s = s
cancel_active project_id (some run_id) s =
    if run_id == ""
    then s
    else record s { cancelled_runs = add (project_id, run_id) s.cancelled_runs }

abbrev pub cancel_run : String → ProjectSession → ProjectSession
cancel_run project_id s = cancel_active project_id (lookup project_id s.active_runs) s

abbrev pub finish_run : String → String → ProjectSession → ProjectSession
finish_run project_id run_id s =
    if lookup project_id s.active_runs == some run_id
    then record s { active_runs = remove project_id s.active_runs }
    else s

abbrev pub forget : String → ProjectSession → ProjectSession
forget project_id s = record s {
  active_runs = remove project_id s.active_runs;
  cancelled_runs =
      filter (λ (identity : String × String). not (identity.0 == project_id)) s.cancelled_runs;
}

-- `remove_project`: whether the project was the current one, and the session.
abbrev pub remove_project : String → ProjectSession → Bool × ProjectSession
remove_project project_id s =
    let forgotten = forget project_id s in
    if s.project_id == project_id then (true, switch "" forgotten) else (false, forgotten)

-- A value of a payload, as the tests of `accepts` tell them apart: missing or None, a text, or
-- anything else.
pub data Field : Type 0 where
  missing : Field
  text : String → Field
  other : Field

-- A payload's four values; `generation` is the natural number that the value equals, if any.
pub record Payload : Type 0 where
  pub project_id : Field
  pub generation : Option ℕ
  pub run_id : Field
  pub stage : Field

-- AsyncIdentity(...).payload()
abbrev pub payload_of : String → Option String → ℕ → String → Payload
payload_of project_id run_id generation stage = record {
  project_id = Field.text project_id;
  generation = some generation;
  run_id = elim run_id [ none ↦ Field.missing | some run ↦ Field.text run ];
  stage = Field.text stage;
}

abbrev pub is_text : Field → String → Bool
is_text (Field.text t) s = t == s
is_text _ s = false

-- isinstance(stage, str) and stage
abbrev pub is_stage : Field → Bool
is_stage (Field.text t) = not (t == "")
is_stage _ = false

-- The rest of `accepts`, once project, generation and stage fit.
abbrev pub accepts_run : ProjectSession → Bool → Field → Bool
accepts_run s require_run Field.missing = not require_run
accepts_run s require_run Field.other = false
accepts_run s require_run (Field.text run_id) =
    if contains (s.project_id, run_id) s.cancelled_runs
    then false
    else if require_run
    then lookup s.project_id s.active_runs == some run_id
    else true

abbrev pub accepts : Payload → Bool → ProjectSession → Bool
accepts payload require_run s =
    if not (is_text payload.project_id s.project_id)
      || not (payload.generation == some s.generation)
      || not (is_stage payload.stage)
    then false
    else accepts_run s require_run payload.run_id

-- A call of one of the methods that change the session.
pub data Op : Type 0 where
  switching : String → Op
  beginning : String → String → Op
  cancelling : String → Op
  finishing : String → String → Op
  removing : String → Op

abbrev pub apply : Op → ProjectSession → ProjectSession
apply (Op.switching p) s = switch p s
apply (Op.beginning p r) s = begin_run p r s
apply (Op.cancelling p) s = cancel_run p s
apply (Op.finishing p r) s = finish_run p r s
apply (Op.removing p) s = (remove_project p s).1

unfoldable pub apply_all : List Op → ProjectSession → ProjectSession
apply_all [] s = s
apply_all (op ∷ ops) s = apply_all ops (apply op s)
