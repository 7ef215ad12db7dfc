-- ===== src/Store/Validate.antt =====
-- `validate_artifacts` and `_validate_artifact` of packages/artifact_store/store.py.
use Prim.Native.String.{◌++◌ as text_append}
use gaussian_os.Prelude.{
  list_eq, String, Bool, not, ◌&&◌, Option, none, some, List, [], ◌∷◌, ◌++◌, ◌==◌, string_eq, ℕ_eq,
  Result, ok, err, all, contains, is_empty, is_unique, length, lookup, split_slash, if◌then◌else◌,
}
use gaussian_os.Contracts.Artifact.{ArtifactFile, ArtifactManifest, file_paths}
use gaussian_os.Contracts.Outcome.{artifact_ids}
use gaussian_os.Store.Tree.{Node, file, folder, symlink, special, Entries, bare, entry, find}
use gaussian_os.Store.World.{Exc, World, Host, Action, ◌>>◌, pure, raise, attempt_io}
use gaussian_os.Store.Attempt.{AttemptHandle, key_of, artifact_output_name}

-- What the walk over `artifact_root.rglob("*")` finds: the paths of the regular files, or the
-- ValidationError for a link or another kind of entry. A path is written with slashes.
abbrev pub both : Result Exc (List String) → Result Exc (List String) → Result Exc (List String)
both (ok xs) (ok ys) = ok (xs ++ ys)
both (ok xs) (err e) = err e
both (err e) ys = err e

abbrev pub join_path : String → String → String
join_path prefix name = if prefix == "" then name else text_append prefix (text_append "/" name)

unfoldable mutual
  pub walk_entries : String → Entries → Result Exc (List String)
  walk_entries prefix bare = ok []
  walk_entries prefix (entry name node es) =
      both (walk_node (join_path prefix name) node) (walk_entries prefix es)

  pub walk_node : String → Node → Result Exc (List String)
  walk_node path (file bytes) = ok (path ∷ [])
  walk_node path (folder es) = walk_entries path es
  walk_node path symlink = err Exc.validation_error
  walk_node path special = err Exc.validation_error

-- artifact_root.joinpath(*parts), where no part of the tree is a link
unfoldable pub descend : List String → Entries → Option Node
unfolding find
descend [] es = some (folder es)
descend (part ∷ []) es = find part es
descend (part ∷ next ∷ parts) es = elim (find part es) [
  | some (folder inner) ↦ descend (next ∷ parts) inner
  | _ ↦ none
]

-- actual_paths == expected_paths, as sets
abbrev pub is_subset : List String → List String → Bool
is_subset xs ys = all (λ x. contains x ys) xs

abbrev pub same_set : List String → List String → Bool
same_set xs ys = is_subset xs ys && is_subset ys xs

-- The size and the digest of one declared file.
abbrev pub check_bytes : Host → ArtifactFile → Option Node → Result Exc (Unit {0})
check_bytes h declared (some (file bytes)) =
    if not (length bytes == declared.size_bytes)
    then err Exc.validation_error
    else if not (h.sha256 bytes == declared.sha256)
    then err Exc.validation_error
    else ok tt
check_bytes h declared _ = err Exc.validation_error

abbrev pub returned : {A : Type 0} → Result Exc A → Action A
returned r w = (r, w)

-- The loop over the declared files; reading a file may fail.
unfoldable pub check_files : Host → List ArtifactFile → Entries → Action Unit
check_files h [] es = pure tt
check_files h (declared ∷ files) es = do
  attempt_io
  returned (check_bytes h declared (descend (split_slash declared.relative_path) es))
  check_files h files es

abbrev pub outputs_of : AttemptHandle → World → Entries
outputs_of a w = elim (lookup (key_of a) w.attempts) [ none ↦ bare | some dir ↦ dir.outputs ]

abbrev pub check_tree : Host → ArtifactManifest → Result Exc (List String) → Entries → Action Unit
check_tree h m (err e) es = raise e
check_tree h m (ok actual) es =
    if same_set actual (file_paths m) then check_files h m.files es else raise Exc.validation_error

abbrev pub check_root : Host → ArtifactManifest → Option Node → Action Unit
check_root h m (some (folder es)) = check_tree h m (walk_entries "" es) es
check_root h m _ = raise Exc.validation_error

abbrev pub check_named : Host → AttemptHandle → ArtifactManifest → Result Exc String → Action Unit
check_named h a m (err e) w = (err e, w)
check_named h a m (ok name) w = check_root h m (find name (outputs_of a w)) w

-- `_validate_artifact`
unfoldable pub validate_artifact : Host → AttemptHandle → ArtifactManifest → Action Unit
validate_artifact h a m =
    if not (m.source_attempt_id == a.attempt_id)
    then raise Exc.validation_error
    else if not (m.source_request_id == a.request_id)
    then raise Exc.validation_error
    else check_named h a m (artifact_output_name m.artifact_id)

unfoldable pub validate_each : Host → AttemptHandle → List ArtifactManifest → Action Unit
validate_each h a [] = pure tt
validate_each h a (m ∷ ms) = do validate_artifact h a m; validate_each h a ms

-- `validate_artifacts`
unfoldable pub validate_artifacts : Host → AttemptHandle → List ArtifactManifest → Action Unit
validate_artifacts h a ms =
    if is_empty ms
    then raise Exc.validation_error
    else if not (is_unique (artifact_ids ms))
    then raise Exc.validation_error
    else validate_each h a ms
