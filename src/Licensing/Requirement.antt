-- ===== src/Licensing/Requirement.antt =====
-- The constraints that a host has for one plugin, against what a manifest must satisfy to meet them
-- (packages/licensing/policy.py).
use gaussian_os.Prelude.{
  String, Bool, true, ◌||◌, ◌≡◌, ◌≢◌, refl, Option, none, some, List, [], ◌∷◌, ◌==◌, string_eq,
  option_eq, is_empty, is_none, contains, collect, collect-AllNil, AllNil-collect, arith, All,
  each-All, All-each, Option-cases, inl, inr, unless_nil,
}
use gaussian_os.Contracts.Kinds.{profile_eq}
use gaussian_os.Contracts.Manifest.{PluginManifest, CheckpointAsset, DependencyLock}
use gaussian_os.Licensing.Policy.{PluginRequirement}
use gaussian_os.Licensing.Evaluate.{
  requirement_reports, judge_license, judge_hash, judge_commit, is_listed_commit, find_asset,
  find_dependency,
}

-- The asset under `id` exists and has the license, or the hash, that the profile pins.
abbrev pub HasLicense : PluginManifest → String × String → Type 0
HasLicense m (id, required) =
    (a : CheckpointAsset) × (find_asset m id ≡ some a) × (a.license ≡ required)

abbrev pub HasHash : PluginManifest → String × String → Type 0
HasHash m (id, required) =
    (a : CheckpointAsset) × (find_asset m id ≡ some a) × (a.sha256 ≡ required)

abbrev pub HasCommit : PluginManifest → String × String → Type 0
HasCommit m (id, required) =
    (d : DependencyLock) × (find_dependency m id ≡ some d) × (d.upstream_commit ≡ required)

-- The host's own constraints for one plugin.
pub record Meets (m : PluginManifest) (r : PluginRequirement) : Type 0 where
  pub version : r.allowed_versions ≢ [] → contains m.plugin_version r.allowed_versions ≡ true
  pub commit :
      r.allowed_upstream_commits ≢ []
      → (c : String) × (m.upstream_commit ≡ some c) × (contains c r.allowed_upstream_commits ≡ true)
  pub license : (l : String) → r.required_code_license ≡ some l → m.code_license ≡ l
  pub licenses : All (HasLicense m) r.required_checkpoint_licenses
  pub hashes : All (HasHash m) r.required_checkpoint_sha256
  pub commits : All (HasCommit m) r.required_dependency_commits

license_sound :
    (m : PluginManifest) (item : String × String)
    → judge_license item.0 item.1 (find_asset m item.0) ≡ []
    → HasLicense m item
license_sound m (id, required) h = elim (Option-cases (find_asset m id)) [
  | inl e ↦ ground arith
  | inr (a, e) ↦ (a, e, ground (arith, string_eq.beq_iff a.license required))
]

hash_sound :
    (m : PluginManifest) (item : String × String)
    → judge_hash item.0 item.1 (find_asset m item.0) ≡ []
    → HasHash m item
hash_sound m (id, required) h = elim (Option-cases (find_asset m id)) [
  | inl e ↦ ground arith
  | inr (a, e) ↦ (a, e, ground (arith, string_eq.beq_iff a.sha256 required))
]

commit_sound :
    (m : PluginManifest) (item : String × String)
    → judge_commit item.0 item.1 (find_dependency m item.0) ≡ []
    → HasCommit m item
commit_sound m (id, required) h = elim (Option-cases (find_dependency m id)) [
  | inl e ↦ ground arith
  | inr (d, e) ↦ (d, e, ground (arith, string_eq.beq_iff d.upstream_commit required))
]

license_complete :
    (m : PluginManifest) (item : String × String)
    → HasLicense m item
    → judge_license item.0 item.1 (find_asset m item.0) ≡ []
license_complete m (id, required) (a, e, same) =
    ground (arith, string_eq.beq_iff a.license required)

hash_complete :
    (m : PluginManifest) (item : String × String)
    → HasHash m item
    → judge_hash item.0 item.1 (find_asset m item.0) ≡ []
hash_complete m (id, required) (a, e, same) = ground (arith, string_eq.beq_iff a.sha256 required)

commit_complete :
    (m : PluginManifest) (item : String × String)
    → HasCommit m item
    → judge_commit item.0 item.1 (find_dependency m item.0) ≡ []
commit_complete m (id, required) (d, e, same) =
    ground (arith, string_eq.beq_iff d.upstream_commit required)

listed_commit :
    (o : Option String) (commits : List String)
    → is_listed_commit o commits ≡ true
    → (c : String) × (o ≡ some c) × (contains c commits ≡ true)
listed_commit none commits h = ground arith
listed_commit (some c) commits h = (c, refl, h)

pub requirement_sound :
    (m : PluginManifest) (r : PluginRequirement)
    → collect (requirement_reports m r) ≡ []
    → Meets m r
unfolding requirement_reports
requirement_sound m r h =
    let p = collect-AllNil (requirement_reports m r) h in
    record {
      version = λ ne. ground arith;
      commit = λ ne. listed_commit m.upstream_commit r.allowed_upstream_commits (ground arith);
      license = λ l e. ground (arith, string_eq.beq_iff m.code_license l);
      licenses =
          each-All (HasLicense m) _ (license_sound m) r.required_checkpoint_licenses (ground arith);
      hashes = each-All (HasHash m) _ (hash_sound m) r.required_checkpoint_sha256 (ground arith);
      commits =
          each-All (HasCommit m) _ (commit_sound m) r.required_dependency_commits (ground arith);
    }

nonempty : (xs : List String) (b : Bool) → (xs ≢ [] → b ≡ true) → (is_empty xs || b) ≡ true
nonempty [] b h = refl
nonempty (x ∷ xs) b h = h (λ e. cc e)

license_test :
    (o : Option String) (license : String)
    → ((l : String) → o ≡ some l → license ≡ l)
    → (is_none o || some license == o) ≡ true
license_test none license h = refl
license_test (some l) license h = ground (arith, string_eq.beq_iff license l, h l refl)

listed :
    (m : PluginManifest) (commits : List String)
    → ((c : String) × (m.upstream_commit ≡ some c) × (contains c commits ≡ true))
    → is_listed_commit m.upstream_commit commits ≡ true
listed m commits (c, e, h) = rw e h

pub requirement_complete :
    (m : PluginManifest) (r : PluginRequirement)
    → Meets m r
    → collect (requirement_reports m r) ≡ []
unfolding requirement_reports
requirement_complete m r h = AllNil-collect (requirement_reports m r) (
  unless_nil _ _ (nonempty r.allowed_versions _ h.version),
  (
    unless_nil _ _ (
        nonempty r.allowed_upstream_commits _
          (λ ne. listed m r.allowed_upstream_commits (h.commit ne))),
    (
      unless_nil _ _ (license_test r.required_code_license m.code_license h.license),
      (
        All-each (HasLicense m) _ (license_complete m) r.required_checkpoint_licenses h.licenses,
        (
          All-each (HasHash m) _ (hash_complete m) r.required_checkpoint_sha256 h.hashes,
          (
            All-each (HasCommit m) _ (commit_complete m) r.required_dependency_commits h.commits,
            tt,
          ),
        ),
      ),
    ),
  ),
)
