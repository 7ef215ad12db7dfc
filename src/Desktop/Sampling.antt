-- ===== src/Desktop/Sampling.antt =====
-- The plan of a frame selection in apps/desktop/sampling.py: a checked configuration, the frames that are
-- left after trimming, and how many of them are asked for. Results of floating-point arithmetic are a
-- parameter.
pub mod Bounds
pub mod Tests
use Prim.Native.Nat.{max}
use gaussian_os.Prelude.{
  ℕ, suc, ◌+◌, ◌-◌, ◌*◌, ◌/◌, min, String, Bool, true, false, not, ◌&&◌, ◌||◌, ◌≡◌, Option, none,
  some, List, [], ◌∷◌, ◌==◌, string_eq, ltb, leb, ℤ, pos, negsuc, is_zero, Result, ok, err,
  if◌then◌else◌,
}

pub data SamplingMode : Type 0 where
  auto target_count interval all_frames : SamplingMode

pub data Profile : Type 0 where
  preview balanced quality : Profile

-- The integers of a configuration as they are given, whether its interval is positive, its mode and
-- its profile, which the other two checks have accepted.
pub record RawConfig : Type 0 where
  pub mode : SamplingMode
  pub requested_frame_count : Option ℤ
  pub is_positive_interval : Bool
  pub profile : Profile
  pub in_frame : ℤ
  pub out_frame : Option ℤ

pub record SamplingConfig : Type 0 where
  pub mode : SamplingMode
  pub requested_frame_count : Option ℤ
  pub profile : Profile
  pub in_frame : ℕ
  pub out_frame : Option ℕ

pub data SamplingError : Type 0 where
  invalid_config outside_source exceeds_source not_positive : SamplingError

abbrev pub checked_out : SamplingConfig → Option ℤ → Result SamplingError SamplingConfig
checked_out c none = ok c
checked_out c (some (negsuc n)) = err SamplingError.invalid_config
checked_out c (some (pos end)) =
    if ltb end c.in_frame
    then err SamplingError.invalid_config
    else ok (record c { out_frame = some end })

abbrev pub checked_in : RawConfig → ℤ → Result SamplingError SamplingConfig
checked_in raw (negsuc n) = err SamplingError.invalid_config
checked_in raw (pos start) =
    checked_out
      (record {
        mode = raw.mode;
        requested_frame_count = raw.requested_frame_count;
        profile = raw.profile;
        in_frame = start;
        out_frame = none;
      })
      raw.out_frame

-- `__post_init__` of SamplingConfig, on its interval and its frames
unfoldable pub new_config : RawConfig → Result SamplingError SamplingConfig
new_config raw =
    if not raw.is_positive_interval
    then err SamplingError.invalid_config
    else checked_in raw raw.in_frame

-- What the floating-point arithmetic gives: int(round(total * ratio)) of a profile,
-- int(ceil(available / max(step, 1.0))) for the interval of the configuration, and
-- int(ceil(requested * 2.5)).
pub record Rounding : Type 0 where
  pub share : Profile → ℕ → ℕ
  pub interval_frames : SamplingConfig → ℕ → ℕ
  pub candidate_share : ℕ → ℕ

-- PROFILE_MINIMUMS
abbrev pub profile_minimum : Profile → ℕ
profile_minimum Profile.preview = 12
profile_minimum Profile.balanced = 24
profile_minimum Profile.quality = 36

-- PROFILE_MAXIMUMS
abbrev pub profile_maximum : Profile → ℕ
profile_maximum Profile.preview = 60
profile_maximum Profile.balanced = 120
profile_maximum Profile.quality = 240

-- `default_auto_count`
unfoldable pub default_auto_count : Rounding → ℕ → Profile → ℕ
default_auto_count f total profile =
    min (min total (profile_maximum profile))
      (max (profile_minimum profile) (f.share profile total))

-- The inclusive first and last frame, and how many frames there are.
pub record FrameRange : Type 0 where
  pub start : ℕ
  pub end : ℕ
  pub available : ℕ

abbrev pub end_of : ℕ → Option ℕ → ℕ
end_of total none = total - 1
end_of total (some end) = end

-- `frame_range`; `total_frames - 1` of no frames is never used, since the first test refuses it
unfoldable pub frame_range : ℕ → SamplingConfig → Result SamplingError FrameRange
frame_range total c =
    let end = end_of total c.out_frame in
    if leb total c.in_frame || leb total end
    then err SamplingError.outside_source
    else ok (record { start = c.in_frame; end = end; available = end - c.in_frame + 1 })

-- config.requested_frame_count or default
abbrev pub count_or : ℕ → Option ℤ → ℤ
count_or default none = pos default
count_or default (some n) = if is_zero n then pos default else n

-- `requested_count`, on the available frames
unfoldable pub requested_count : Rounding → SamplingConfig → ℕ → ℤ
unfolding default_auto_count
requested_count f c available = elim c.mode [
  | SamplingMode.all_frames ↦ pos available
  | SamplingMode.target_count ↦
      count_or (default_auto_count f available c.profile) c.requested_frame_count
  | SamplingMode.interval ↦ pos (max 1 (f.interval_frames c available))
  | SamplingMode.auto ↦ pos (default_auto_count f available c.profile)
]

abbrev pub is_target : SamplingMode → Bool
is_target SamplingMode.target_count = true
is_target _ = false

abbrev pub is_all : SamplingMode → Bool
is_all SamplingMode.all_frames = true
is_all _ = false

-- The tests of `validate_config` on a requested count, which is natural when they pass.
abbrev pub checked_count : SamplingMode → ℕ → ℤ → Result SamplingError ℕ
checked_count mode available (pos n) =
    if ltb available n
    then err SamplingError.exceeds_source
    else if is_target mode && ltb n 1
    then err SamplingError.not_positive
    else ok n
checked_count mode available (negsuc n) = err SamplingError.not_positive

-- The integers of `estimate_sampling`.
pub record Estimate : Type 0 where
  pub candidates : ℕ
  pub selected : ℕ
  pub range : FrameRange

abbrev pub candidate_count : Rounding → SamplingMode → ℕ → ℕ → ℕ
candidate_count f mode available requested =
    if is_all mode then available else min available (max requested (f.candidate_share requested))

abbrev pub estimate_of :
    Rounding → SamplingConfig → FrameRange → Result SamplingError ℕ → Result SamplingError Estimate
estimate_of f c range (ok n) = ok (record {
  candidates = candidate_count f c.mode range.available n;
  selected = n;
  range = range;
})
estimate_of f c range (err e) = err e

abbrev pub estimate_in :
    Rounding → SamplingConfig → Result SamplingError FrameRange → Result SamplingError Estimate
estimate_in f c (ok range) =
    estimate_of f c range
      (checked_count c.mode range.available (requested_count f c range.available))
estimate_in f c (err e) = err e

-- `estimate_sampling`, with `validate_config`
unfoldable pub estimate_sampling : Rounding → ℕ → SamplingConfig → Result SamplingError Estimate
unfolding frame_range requested_count
estimate_sampling f total c = estimate_in f c (frame_range total c)

abbrev pub plan_of :
    Rounding → ℕ → Result SamplingError SamplingConfig → Result SamplingError Estimate
plan_of f total (ok c) = estimate_sampling f total c
plan_of f total (err e) = err e

-- A configuration that is made and estimated.
unfoldable pub plan_sampling : Rounding → ℕ → RawConfig → Result SamplingError Estimate
unfolding new_config estimate_sampling
plan_sampling f total raw = plan_of f total (new_config raw)
