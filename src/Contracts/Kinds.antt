-- ===== src/Contracts/Kinds.antt =====
-- The enumerations of packages/plugin_sdk/contracts.py, and the values that pydantic or the standard
-- library makes: a contract version, a time stamp.
use gaussian_os.Prelude.{ℕ, Bool, ◌≡◌, refl, Eq, by_index, arith}

-- `Literal["1.0.0"]`: a field of this type has one value.
pub data ContractVersion : Type 0 where
  v1_0_0 : ContractVersion

pub data ExecutionProfile : Type 0 where
  production research : ExecutionProfile

pub data PluginDistribution : Type 0 where
  builtin third_party : PluginDistribution

pub data StageKind : Type 0 where
  ingest frame_qc legacy_import reconstruction training preview export compatibility probe :
      StageKind

pub data StageStatus : Type 0 where
  succeeded failed cancelled : StageStatus

pub data ErrorCode : Type 0 where
  invalid_request policy_denied timeout cancelled worker_crashed cuda_oom : ErrorCode
  dependency_missing invalid_result output_validation_failed : ErrorCode
  artifact_commit_failed internal_error : ErrorCode

abbrev pub version_index : ContractVersion → ℕ
version_index ContractVersion.v1_0_0 = 0

abbrev pub profile_index : ExecutionProfile → ℕ
profile_index ExecutionProfile.production = 0
profile_index ExecutionProfile.research = 1

abbrev pub kind_index : StageKind → ℕ
kind_index StageKind.ingest = 0
kind_index StageKind.frame_qc = 1
kind_index StageKind.legacy_import = 2
kind_index StageKind.reconstruction = 3
kind_index StageKind.training = 4
kind_index StageKind.preview = 5
kind_index StageKind.export = 6
kind_index StageKind.compatibility = 7
kind_index StageKind.probe = 8

pub version_index-injective : (a b : ContractVersion) → version_index a ≡ version_index b → a ≡ b
version_index-injective ContractVersion.v1_0_0 ContractVersion.v1_0_0 h = refl

pub profile_index-injective : (a b : ExecutionProfile) → profile_index a ≡ profile_index b → a ≡ b
profile_index-injective a b h = ground arith

pub kind_index-injective : (a b : StageKind) → kind_index a ≡ kind_index b → a ≡ b
kind_index-injective a b h = ground arith

instance abbrev pub version_eq : Eq ContractVersion
version_eq = by_index version_index version_index-injective

instance abbrev pub profile_eq : Eq ExecutionProfile
profile_eq = by_index profile_index profile_index-injective

instance abbrev pub kind_eq : Eq StageKind
kind_eq = by_index kind_index kind_index-injective

-- A `datetime`: microseconds, of UTC if the value has a time zone.
pub record DateTime : Type 0 where
  pub micros : ℕ
  pub has_timezone : Bool
