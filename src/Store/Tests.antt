-- ===== src/Store/Tests.antt =====
-- The store of packages/artifact_store/store.py on an attempt with one artifact.
use gaussian_os.Prelude.{
  String, Bool, ◌≡◌, ◌≢◌, refl, List, [], ◌∷◌, ok, string_eq, list_eq, ℕ_eq, ◌==◌, if◌then◌else◌,
  All, IsDistinct, split_slash, same_iff,
}
use gaussian_os.Contracts.Outcome.{artifact_ids}
use gaussian_os.Contracts.Tests.{cloud, digest_text}
use gaussian_os.Store.Tree.{file, folder, Entries, bare, entry, find, put, erase, names}
use gaussian_os.Store.World.{World, Document, Host}
use gaussian_os.Store.Attempt.{
  AttemptHandle, key_of, is_unsafe_name, artifact_output_name, atomic_write_json, write_and_replace,
  clean_up, temporary_name,
}
use gaussian_os.Store.Attempt.Write.{Replaced, atomic_write_json-Replaced}
use gaussian_os.Store.Validate.{
  validate_artifacts, validate_each, validate_artifact, outputs_of, walk_entries, check_files,
  descend,
}
use gaussian_os.Store.Commit.{
  commit, acquire_commit_locks, acquire_each, release_each, sorted, insert_sorted, write_manifest,
  write_manifests, publish, validate_and_publish, move_each, move_out,
}
use gaussian_os.Store.Atomic.{Ended, commit-AllOrNothing}
use gaussian_os.Store.Sound.{IsReady, validate_artifacts_ok}

abbrev pub host : Host
host = record {
  sha256 = λ bytes. if bytes == 112 ∷ 108 ∷ [] then digest_text else "other";
  json = λ document. 123 ∷ 125 ∷ [];
  uuid = λ n. if n == 0 then "u0" else "u1";
}

abbrev pub handle : AttemptHandle
handle = record {
  attempt_id = "attempt-u0";
  run_id = "run-1";
  stage_id = "train";
  request_id = "request-1";
}

abbrev pub cloud_outputs : Entries
cloud_outputs = entry "points" (folder (entry "points.ply" (file (112 ∷ 108 ∷ [])) bare)) bare

abbrev pub world_with : List Bool → World
world_with faults = record {
  attempts = (key_of handle, record { files = bare; outputs = cloud_outputs }) ∷ [];
  completed = [];
  failed = [];
  artifacts = entry "frames" (folder bare) bare;
  locks = record { held = "elsewhere" ∷ []; unlock_faults = [] };
  supply = record { faults = faults; drawn = 1 };
}

abbrev pub calm : World
calm = world_with []

commit-AllOrNothing_example :
    Ended host
      (outputs_of handle calm)
      (cloud ∷ [])
      calm.artifacts
      calm.locks
      (commit host handle (cloud ∷ []) calm)
commit-AllOrNothing_example = commit-AllOrNothing host handle (cloud ∷ []) calm

-- A quiet environment publishes the artifact.
published :
    ((commit host handle (cloud ∷ []) calm).0
      ≡ ok (record { artifact_id = "points"; manifest_sha256 = "other" } ∷ []))
    × (names ((commit host handle (cloud ∷ []) calm).1).artifacts ≡ "frames" ∷ "points" ∷ [])
unfolding commit acquire_commit_locks acquire_each release_each sorted insert_sorted write_manifest
    write_manifests publish validate_and_publish move_each move_out validate_artifacts validate_each
    validate_artifact walk_entries check_files descend split_slash find put erase names
    is_unsafe_name artifact_output_name atomic_write_json write_and_replace clean_up temporary_name
published = (refl, refl)

validate_artifacts_ok_example :
    ((cloud ∷ []) ≢ [])
    × IsDistinct (artifact_ids (cloud ∷ []))
    × All (IsReady host handle (outputs_of handle calm)) (cloud ∷ [])
unfolding validate_artifacts validate_each validate_artifact walk_entries check_files descend
    split_slash find is_unsafe_name artifact_output_name
validate_artifacts_ok_example = validate_artifacts_ok host handle (cloud ∷ []) calm refl

atomic_write_json-Replaced_example :
    Replaced ".cancel.json.u1.tmp" "cancel.json"
      (file (123 ∷ 125 ∷ []))
      bare
      (atomic_write_json host "cancel.json" (Document.cancellation "stop") bare calm.supply)
unfolding temporary_name
atomic_write_json-Replaced_example =
    atomic_write_json-Replaced host "cancel.json" (Document.cancellation "stop") bare calm.supply
      (λ h. cc ((same_iff {A = String} ".cancel.json.u1.tmp" "cancel.json").1 h))
