-- ===== src/Desktop/Tests.antt =====
-- The session of apps/desktop/project_session.py over a short life.
use gaussian_os.Prelude.{String, true, false, ◌≡◌, ◌↔◌, refl, some, [], ◌∷◌, string_eq, same_iff}
use gaussian_os.Desktop.Session.{
  ProjectSession, new_session, switch, begin_run, cancel_run, Payload, payload_of, accepts, Op,
  apply_all,
}
use gaussian_os.Desktop.Session.Identity.{accepts-switch}
use gaussian_os.Desktop.Session.Cancelled.{IsOfRun, cancel_run-accepts, accepts_iff}

abbrev running : ProjectSession
running = begin_run "lab" "run-1" (switch "lab" new_session)

abbrev training : Payload
training = payload_of "lab" (some "run-1") 1 "training"

accepted_now : accepts training true running ≡ true
accepted_now = refl

accepts-switch_example :
    accepts training true
      (apply_all (Op.switching "lab" ∷ Op.beginning "lab" "run-1" ∷ []) (switch "other" running))
    ≡ false
accepts-switch_example =
    accepts-switch training true true running "other"
      (Op.switching "lab" ∷ Op.beginning "lab" "run-1" ∷ []) refl

cancel_run-accepts_example :
    accepts training false (
      apply_all
        (Op.finishing "lab" "run-1" ∷ Op.beginning "lab" "run-2" ∷ [])
        (cancel_run "lab" running))
    ≡ false
cancel_run-accepts_example =
    cancel_run-accepts "lab" "run-1" running
      (Op.finishing "lab" "run-1" ∷ Op.beginning "lab" "run-2" ∷ []) training false refl
      (λ h. cc ((same_iff {A = String} "run-1" "").1 h)) (refl, (refl, tt)) refl refl

accepts_iff_example : (accepts training true running ≡ true) ↔ IsOfRun training running
accepts_iff_example = accepts_iff training running
