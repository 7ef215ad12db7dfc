-- ===== src/Store/Sound.antt =====
-- What `validate_artifacts` of packages/artifact_store/store.py has established when it returns.
use gaussian_os.Prelude.{
  ℕ, String, true, ◌≡◌, ◌≢◌, refl, subst, Option, none, some, List, [], ◌∷◌, Result, ok, err, arith,
  All, Bool-cases, &&-left, &&-right, inl, inr, string_eq, ℕ_eq, list_eq, contains, is_unique,
  IsDistinct, length, ◌==◌, is_unique-IsDistinct, split_slash,
}
use gaussian_os.Contracts.Artifact.{ArtifactFile, ArtifactManifest, file_paths}
use gaussian_os.Contracts.Outcome.{artifact_ids}
use gaussian_os.Store.Tree.{Node, file, folder, symlink, special, Entries, find}
use gaussian_os.Store.World.{Exc, World, Host, attempt_io, bind_ok}
use gaussian_os.Store.Attempt.{AttemptHandle, artifact_output_name, artifact_output_name_ok}
use gaussian_os.Store.Frame.{validate_artifact-Keeps}
use gaussian_os.Store.Validate.{
  check_bytes, check_files, check_tree, check_root, check_named, walk_entries, validate_artifact,
  validate_each, validate_artifacts, outputs_of, descend, returned, same_set, is_subset,
}

-- The file is in the tree, at its declared path, with the declared size and digest.
abbrev pub IsVerified : Host → Entries → ArtifactFile → Type 0
IsVerified h es declared =
    (bytes : List ℕ) × (descend (split_slash declared.relative_path) es ≡ some (file bytes))
    × (length bytes ≡ declared.size_bytes)
    × (h.sha256 bytes ≡ declared.sha256)

-- The directory of the artifact holds the declared files, verified, and no other file.
pub record IsSound (h : Host) (m : ArtifactManifest) (es : Entries) : Type 0 where
  pub actual : List String
  pub walked : walk_entries "" es ≡ ok actual
  pub none_missing : All (λ path. contains path actual ≡ true) (file_paths m)
  pub none_undeclared : All (λ path. contains path (file_paths m) ≡ true) actual
  pub verified : All (IsVerified h es) m.files

check_bytes_ok :
    (h : Host) (declared : ArtifactFile) (o : Option Node)
    → check_bytes h declared o ≡ ok tt
    → (bytes : List ℕ) × (o ≡ some (file bytes))
      × (length bytes ≡ declared.size_bytes)
      × (h.sha256 bytes ≡ declared.sha256)
check_bytes_ok h declared (some (file bytes)) e = (
  bytes,
  refl,
  ground (arith, string_eq.beq_iff (h.sha256 bytes) declared.sha256),
  ground (arith, string_eq.beq_iff (h.sha256 bytes) declared.sha256),
)
check_bytes_ok h declared (some (folder es)) e = ground arith
check_bytes_ok h declared (some symlink) e = ground arith
check_bytes_ok h declared (some special) e = ground arith
check_bytes_ok h declared none e = ground arith

err_not_ok : {A : Type 0} {a : A} {e : Exc} → err e ≡ ok a → ⊥
err_not_ok h = cc

check_files_ok :
    (h : Host) (files : List ArtifactFile) (es : Entries) (w : World)
    → (check_files h files es w).0 ≡ ok tt
    → All (IsVerified h es) files
unfolding check_files
check_files_ok h [] es w e = tt
check_files_ok h (declared ∷ files) es w e =
    let opened = bind_ok attempt_io _ w e in
    let checked =
      bind_ok (returned (check_bytes h declared (descend (split_slash declared.relative_path) es)))
        _ (attempt_io w).1 opened.2 in
    (
      check_bytes_ok h declared (descend (split_slash declared.relative_path) es) checked.1,
      check_files_ok h files es (attempt_io w).1 checked.2,
    )

is_subset-All : (xs ys : List String) → is_subset xs ys ≡ true → All (λ x. contains x ys ≡ true) xs
is_subset-All [] ys h = tt
is_subset-All (x ∷ xs) ys h = (ground arith, is_subset-All xs ys (ground arith))

check_tree_ok :
    (h : Host) (m : ArtifactManifest) (actual : Result Exc (List String)) (es : Entries) (w : World)
    → walk_entries "" es ≡ actual
    → (check_tree h m actual es w).0 ≡ ok tt
    → IsSound h m es
check_tree_ok h m (err e) es w p q = ground arith
check_tree_ok h m (ok actual) es w p q = elim (Bool-cases (same_set actual (file_paths m))) [
  | inl same ↦ record {
    actual = actual;
    walked = p;
    none_missing =
        is_subset-All (file_paths m) actual (&&-right (is_subset actual (file_paths m)) _ same);
    none_undeclared =
        is_subset-All actual (file_paths m) (&&-left (is_subset actual (file_paths m)) _ same);
    verified = check_files_ok h m.files es w (rw same at q);
  }
  | inr differ ↦ absurd (err_not_ok (rw differ at q))
]

check_root_ok :
    (h : Host) (m : ArtifactManifest) (o : Option Node) (w : World)
    → (check_root h m o w).0 ≡ ok tt
    → (es : Entries) × (o ≡ some (folder es)) × IsSound h m es
check_root_ok h m (some (folder es)) w q =
    (es, refl, check_tree_ok h m (walk_entries "" es) es w refl q)
check_root_ok h m (some (file bytes)) w q = ground arith
check_root_ok h m (some symlink) w q = ground arith
check_root_ok h m (some special) w q = ground arith
check_root_ok h m none w q = ground arith

-- The attempt's output directory of the artifact is there, verified, and made by this attempt.
pub record IsReady (h : Host) (a : AttemptHandle) (outputs : Entries) (m : ArtifactManifest)
    : Type 0 where
  pub own_attempt : m.source_attempt_id ≡ a.attempt_id
  pub own_request : m.source_request_id ≡ a.request_id
  pub tree : Entries
  pub found : find m.artifact_id outputs ≡ some (folder tree)
  pub sound : IsSound h m tree

check_named_ok :
    (h : Host) (a : AttemptHandle) (m : ArtifactManifest) (r : Result Exc String) (w : World)
    → (check_named h a m r w).0 ≡ ok tt
    → (name : String) × (r ≡ ok name)
      × (es : Entries) × (find name (outputs_of a w) ≡ some (folder es))
      × IsSound h m es
check_named_ok h a m (err e) w q = absurd (err_not_ok q)
check_named_ok h a m (ok name) w q =
    let (es, found, sound) = check_root_ok h m (find name (outputs_of a w)) w q in
    (name, refl, es, found, sound)

validate_artifact_ok :
    (h : Host) (a : AttemptHandle) (m : ArtifactManifest) (w : World)
    → (validate_artifact h a m w).0 ≡ ok tt
    → IsReady h a (outputs_of a w) m
unfolding validate_artifact
validate_artifact_ok h a m w q = elim (Bool-cases (m.source_attempt_id == a.attempt_id)) [
  | inr other ↦ absurd (err_not_ok (rw other at q))
  | inl attempt ↦ elim (Bool-cases (m.source_request_id == a.request_id)) [
    | inr other ↦ absurd (err_not_ok (rw (attempt, other) at q))
    | inl request ↦
        let (name, named, tree, found, sound) =
          check_named_ok h a m (artifact_output_name m.artifact_id) w
            (rw (attempt, request) at q) in
        record {
          own_attempt = (string_eq.beq_iff m.source_attempt_id a.attempt_id).0 attempt;
          own_request = (string_eq.beq_iff m.source_request_id a.request_id).0 request;
          tree = tree;
          found =
              subst (λ n. find n (outputs_of a w) ≡ some (folder tree))
                (artifact_output_name_ok m.artifact_id name named) found;
          sound = sound;
        }
  ]
]

validate_each_ok :
    (h : Host) (a : AttemptHandle) (ms : List ArtifactManifest) (w : World)
    → (validate_each h a ms w).0 ≡ ok tt
    → All (IsReady h a (outputs_of a w)) ms
unfolding validate_each
validate_each_ok h a [] w q = tt
validate_each_ok h a (m ∷ ms) w q =
    let parts = bind_ok (validate_artifact h a m) (λ _. validate_each h a ms) w q in
    let later = validate_each_ok h a ms (validate_artifact h a m w).1 parts.2 in
    (
      validate_artifact_ok h a m w parts.1,
      subst (λ outputs. All (IsReady h a outputs) ms)
          ((validate_artifact-Keeps (outputs_of a) (λ w s. refl) h a m).at w) later,
    )

-- If `validate_artifacts` returns, there is at least one manifest, no two name the same artifact, and
-- for each of them the attempt and the request are its own and its output directory holds every
-- declared file, with the declared size and digest, and no other file.
pub validate_artifacts_ok :
    (h : Host) (a : AttemptHandle) (ms : List ArtifactManifest) (w : World)
    → (validate_artifacts h a ms w).0 ≡ ok tt
    → (ms ≢ []) × IsDistinct (artifact_ids ms) × All (IsReady h a (outputs_of a w)) ms
unfolding validate_artifacts
validate_artifacts_ok h a [] w q = absurd (err_not_ok q)
validate_artifacts_ok h a (m ∷ ms) w q = elim (Bool-cases (is_unique (artifact_ids (m ∷ ms)))) [
  | inl unique ↦ (
    λ e. cc e,
    is_unique-IsDistinct (artifact_ids (m ∷ ms)) unique,
    validate_each_ok h a (m ∷ ms) w (rw unique at q),
  )
  | inr repeated ↦ absurd (err_not_ok (rw repeated at q))
]
