-- ===== src/Desktop/Sampling/Tests.antt =====
-- Plans of apps/desktop/sampling.py for a source of 300 frames.
use gaussian_os.Prelude.{true, ◌≡◌, refl, none, some, pos, negsuc, ok, err}
use gaussian_os.Desktop.Sampling.{
  SamplingMode, Profile, RawConfig, SamplingError, Rounding, Estimate, plan_sampling,
}
use gaussian_os.Desktop.Sampling.Bounds.{IsWithin, plan_sampling-IsWithin}

-- A rounding that serves the tests.
abbrev rounding : Rounding
rounding = record {
  share = λ profile total. 60;
  interval_frames = λ c available. 7;
  candidate_share = λ n. 150;
}

-- An automatic plan of the frames 100 to 219.
abbrev trimmed : RawConfig
trimmed = record {
  mode = SamplingMode.auto;
  requested_frame_count = none;
  is_positive_interval = true;
  profile = Profile.balanced;
  in_frame = pos 100;
  out_frame = some (pos 219);
}

abbrev plan : Estimate
plan = record {
  candidates = 120;
  selected = 60;
  range = record { start = 100; end = 219; available = 120 };
}

planned : plan_sampling rounding 300 trimmed ≡ ok plan
unfolding plan_sampling
planned = refl

outside : plan_sampling rounding 200 trimmed ≡ err SamplingError.outside_source
unfolding plan_sampling
outside = refl

reversed :
    plan_sampling rounding 300 (record trimmed { out_frame = some (pos 99) })
    ≡ err SamplingError.invalid_config
unfolding plan_sampling
reversed = refl

negative_target :
    plan_sampling rounding 300
      (record trimmed { mode = SamplingMode.target_count; requested_frame_count = some (negsuc 4) })
    ≡ err SamplingError.not_positive
unfolding plan_sampling
negative_target = refl

plan_sampling-IsWithin_example : IsWithin 300 plan
plan_sampling-IsWithin_example = plan_sampling-IsWithin rounding 300 trimmed plan planned
