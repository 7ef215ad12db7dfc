-- ===== src/Store/World.antt =====
-- What packages/artifact_store/store.py reads and writes: the directories below the store's root,
-- the locks on artifact ids, and an environment that may fail any file operation.
use gaussian_os.Prelude.{refl, ℕ, String, Bool, true, false, ◌≡◌, List, [], ◌∷◌, Result, ok, err}
use gaussian_os.Contracts.Artifact.{ArtifactManifest}
use gaussian_os.Contracts.Json.{Dict}
use gaussian_os.Contracts.Request.{StageRequest}
use gaussian_os.Contracts.Outcome.{StageResult}
use gaussian_os.Store.Tree.{Entries}

-- What the methods raise. A commit error carries the number of its rollback errors.
pub data Exc : Type 0 where
  value_error os_error validation_error conflict_error store_error : Exc
  commit_error : ℕ → Exc

-- One attempt's directory: its files, and `outputs`.
pub record AttemptDir : Type 0 where
  pub files : Entries
  pub outputs : Entries

-- `true` at the head of `faults` makes the next file operation raise OSError and change nothing; past
-- the end of the list all succeed. `drawn` counts the calls of uuid4.
pub record Supply : Type 0 where
  pub faults : List Bool
  pub drawn : ℕ

abbrev pub pop : Supply → Bool × Supply
pop s = pop_from s.faults s
  where
    pop_from : List Bool → Supply → Bool × Supply
    pop_from [] s = (false, s)
    pop_from (f ∷ fs) s = (f, record s { faults = fs })

-- The three names below a directory of attempts: run, stage, attempt.
abbrev pub Key : Type 0
Key = List String

-- The locks on artifact ids that are held, by anybody, and the releases: `true` at the head of
-- `unlock_faults` makes the next one raise OSError.
pub record Locks : Type 0 where
  pub held : List String
  pub unlock_faults : List Bool

pub record World : Type 0 where
  pub attempts : List (Key × AttemptDir)
  pub completed : List (Key × AttemptDir)
  pub failed : List (Key × AttemptDir)
  pub artifacts : Entries
  pub locks : Locks
  pub supply : Supply

pub data Document : Type 0 where
  artifact : ArtifactManifest → Document
  attempt_started : Key → String → Document
  attempt_final : Key → String → Dict → Document
  request : StageRequest → Document
  host_result : StageResult → Document
  cancellation : String → Document

-- The standard library's part: digests, canonical JSON bytes, random names.
pub record Host : Type 0 where
  pub sha256 : List ℕ → String
  pub json : Document → List ℕ
  pub uuid : ℕ → String

-- A method: what it returns or raises, and the world afterwards.
abbrev pub Action : Type 0 → Type 0
Action A = World → Result Exc A × World

abbrev pub resume : {A B : Type 0} → Result Exc A → (A → Action B) → Action B
resume (ok a) f w = f a w
resume (err e) f w = (err e, w)

infixl 5 ◌>>=◌ ◌>>◌
abbrev pub ◌>>=◌ : {A B : Type 0} → Action A → (A → Action B) → Action B
◌>>=◌ m f w = let (r, w') = m w in resume r f w'

abbrev pub ◌>>◌ : {A B : Type 0} → Action A → Action B → Action B
m >> k = m >>= λ _. k

abbrev pub pure : {A : Type 0} → A → Action A
pure a w = (ok a, w)

abbrev pub raise : {A : Type 0} → Exc → Action A
raise e w = (err e, w)

-- A file operation that may fail.
abbrev pub attempt_io : Action Unit
attempt_io w =
    let (failed_now, s) = pop w.supply in
    (elim failed_now [ true ↦ err os_error | false ↦ ok tt ], record w { supply = s })

resume_ok :
    {A B : Type 0} (r : Result Exc A) (f : A → Action B) (w : World) {b : B}
    → (resume r f w).0 ≡ ok b
    → (a : A) × (r ≡ ok a) × ((f a w).0 ≡ ok b)
resume_ok (ok a) f w h = (a, refl, h)
resume_ok (err e) f w h = absurd (err_not_ok h)
  where
    err_not_ok : {C : Type 0} {e : Exc} {c : C} → err e ≡ ok c → ⊥
    err_not_ok h = cc

-- A block that returns: its first action returned, and so did the rest.
pub bind_ok :
    {A B : Type 0} (m : Action A) (f : A → Action B) (w : World) {b : B}
    → ((m >>= f) w).0 ≡ ok b
    → (a : A) × ((m w).0 ≡ ok a) × ((f a (m w).1).0 ≡ ok b)
bind_ok m f w h = resume_ok (m w).0 f (m w).1 h
