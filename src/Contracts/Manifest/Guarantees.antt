-- ===== src/Contracts/Manifest/Guarantees.antt =====
-- What a `PluginManifest` that validates guarantees (packages/plugin_sdk/contracts.py).
use gaussian_os.Prelude.{
  String, true, false, ◌≡◌, refl, Option, none, some, [], arith, collect, collect-AllNil, contains,
  is_unique, IsDistinct, is_unique-IsDistinct, string_eq, is_none,
}
use gaussian_os.Contracts.Kinds.{
  ExecutionProfile, PluginDistribution, profile_eq, kind_eq, version_eq,
}
use gaussian_os.Contracts.Patterns.{is_commit, is_identifier, is_exact_version}
use gaussian_os.Contracts.Violations.{then_rule-eq_nil}
use gaussian_os.Contracts.Manifest.{
  PluginManifest, manifest_violations, manifest_fields, manifest_rule, asset_ids, dependency_ids,
  check_commit, is_third_party,
}

pub record IsGuaranteed (m : PluginManifest) : Type 0 where
  pub identifier : is_identifier m.plugin_id ≡ true
  pub version : is_exact_version m.plugin_version ≡ true
  pub kinds : IsDistinct m.stage_kinds
  pub assets : IsDistinct (asset_ids m)
  pub dependencies : IsDistinct (dependency_ids m)
  pub pinned :
      m.distribution ≡ PluginDistribution.third_party
      → (c : String) × (m.upstream_commit ≡ some c) × (is_commit c ≡ true)
  pub research :
      m.research_only ≡ true
      → (contains ExecutionProfile.production m.supported_profiles ≡ false)
        × (contains ExecutionProfile.research m.supported_profiles ≡ true)

-- The rule over the whole model, taken apart.
record IsOrderly (m : PluginManifest) : Type 0 where
  kinds : is_unique m.stage_kinds ≡ true
  assets : is_unique (asset_ids m) ≡ true
  dependencies : is_unique (dependency_ids m) ≡ true
  provenance : is_third_party m.distribution ≡ true → is_none m.upstream_commit ≡ false
  research :
      m.research_only ≡ true
      → (contains ExecutionProfile.production m.supported_profiles ≡ false)
        × (contains ExecutionProfile.research m.supported_profiles ≡ true)

rule-IsOrderly : (m : PluginManifest) → manifest_rule m ≡ none → IsOrderly m
unfolding manifest_rule
rule-IsOrderly m h = ground arith

commit_known :
    (o : Option String)
    → is_none o ≡ false
    → check_commit o ≡ []
    → (c : String) × (o ≡ some c) × (is_commit c ≡ true)
commit_known none h c = ground arith
commit_known (some c) h p = (c, refl, ground arith)

-- A manifest that validates has a stable identifier and an exact version, repeats no stage kind, no
-- asset and no dependency; a third-party one pins a full commit; a research-only one supports the
-- research profile and not the production profile.
pub manifest_guarantees : (m : PluginManifest) → manifest_violations m ≡ [] → IsGuaranteed m
unfolding manifest_violations manifest_fields
manifest_guarantees m h =
    let p = then_rule-eq_nil (collect (manifest_fields m)) (manifest_rule m) h in
    let fields = collect-AllNil (manifest_fields m) p.0 in
    let orderly = rule-IsOrderly m p.1 in
    record {
      identifier = ground arith;
      version = ground arith;
      kinds = is_unique-IsDistinct m.stage_kinds orderly.kinds;
      assets = is_unique-IsDistinct (asset_ids m) orderly.assets;
      dependencies = is_unique-IsDistinct (dependency_ids m) orderly.dependencies;
      pinned = λ third.
          commit_known m.upstream_commit (orderly.provenance (ground arith)) (ground arith);
      research = orderly.research;
    }
