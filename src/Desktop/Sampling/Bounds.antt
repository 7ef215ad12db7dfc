-- ===== src/Desktop/Sampling/Bounds.antt =====
-- The bounds of a plan of apps/desktop/sampling.py.
use gaussian_os.Prelude.{
  ℕ, ◌+◌, ◌≤◌, ◌<◌, false, ◌≡◌, refl, Option, none, some, ℤ, pos, negsuc, Result, ok, err, arith,
  subst,
}
use gaussian_os.Desktop.Sampling.{
  SamplingMode, Profile, RawConfig, SamplingConfig, SamplingError, checked_out, checked_in,
  new_config, Rounding, default_auto_count, FrameRange, end_of, frame_range, requested_count,
  is_target, checked_count, Estimate, candidate_count, estimate_of, estimate_in, estimate_sampling,
  plan_of, plan_sampling,
}

-- The last frame of a configuration, if it has one, does not come before the first.
abbrev pub IsOrdered : SamplingConfig → Type 0
IsOrdered c = (end : ℕ) → c.out_frame ≡ some end → c.in_frame ≤ end

-- A plan selects some of its candidates, which are among the frames that are left of the source.
abbrev pub IsWithin : ℕ → Estimate → Type 0
IsWithin total e =
    (1 ≤ e.selected)
    × (e.selected ≤ e.candidates)
    × (e.candidates ≤ e.range.available)
    × (e.range.start + e.range.available ≡ e.range.end + 1)
    × (e.range.end < total)

checked_out-IsOrdered :
    (c c' : SamplingConfig) (o : Option ℤ)
    → c.out_frame ≡ none
    → checked_out c o ≡ ok c'
    → IsOrdered c'
checked_out-IsOrdered c c' none untrimmed h end same = absurd (ground (arith, untrimmed, same, h))
checked_out-IsOrdered c c' (some (negsuc n)) untrimmed h end same = absurd (cc)
checked_out-IsOrdered c c' (some (pos e)) untrimmed h end same = ground (arith, h, same)

checked_in-IsOrdered :
    (raw : RawConfig) (z : ℤ) (c : SamplingConfig) → checked_in raw z ≡ ok c → IsOrdered c
checked_in-IsOrdered raw (negsuc n) c h = absurd (cc)
checked_in-IsOrdered raw (pos start) c h =
    checked_out-IsOrdered
      (record {
        mode = raw.mode;
        requested_frame_count = raw.requested_frame_count;
        profile = raw.profile;
        in_frame = start;
        out_frame = none;
      })
      c raw.out_frame refl h

new_config-IsOrdered : (raw : RawConfig) (c : SamplingConfig) → new_config raw ≡ ok c → IsOrdered c
unfolding new_config
new_config-IsOrdered raw c h = checked_in-IsOrdered raw raw.in_frame c (ground arith)

abbrev pub IsRange : ℕ → FrameRange → Type 0
IsRange total range =
    (1 ≤ range.available) × (range.start + range.available ≡ range.end + 1) × (range.end < total)

end_of-le :
    (total : ℕ) (c : SamplingConfig) (o : Option ℕ)
    → c.out_frame ≡ o
    → IsOrdered c
    → c.in_frame < total
    → c.in_frame ≤ end_of total o
end_of-le total c none same ordered below = omega arith
end_of-le total c (some end) same ordered below = ordered end same

frame_range-IsRange :
    (total : ℕ) (c : SamplingConfig) (range : FrameRange)
    → IsOrdered c
    → frame_range total c ≡ ok range
    → IsRange total range
unfolding frame_range
frame_range-IsRange total c range ordered h =
    ground (arith, end_of-le total c c.out_frame refl ordered)

default_auto_count_ge :
    (f : Rounding) (available : ℕ) (profile : Profile)
    → 1 ≤ available
    → 1 ≤ default_auto_count f available profile
unfolding default_auto_count
default_auto_count_ge f available Profile.preview some_left = omega arith
default_auto_count_ge f available Profile.balanced some_left = omega arith
default_auto_count_ge f available Profile.quality some_left = omega arith

-- A count that is natural and positive where the mode is not the target count.
abbrev pub IsCount : SamplingMode → ℤ → Type 0
IsCount mode z = (n : ℕ) → z ≡ pos n → is_target mode ≡ false → 1 ≤ n

requested_count-IsCount :
    (f : Rounding) (c : SamplingConfig) (mode : SamplingMode) (available : ℕ)
    → c.mode ≡ mode
    → 1 ≤ available
    → IsCount mode (requested_count f c available)
unfolding requested_count
requested_count-IsCount f c SamplingMode.all_frames available same some_left n h plain =
    ground (arith, same, h)
requested_count-IsCount f c SamplingMode.target_count available same some_left n h plain =
    absurd (cc)
requested_count-IsCount f c SamplingMode.interval available same some_left n h plain =
    ground (arith, same, h)
requested_count-IsCount f c SamplingMode.auto available same some_left n h plain =
    ground (arith, same, h, default_auto_count_ge f available c.profile some_left)

checked_count_lem :
    (mode : SamplingMode) (available n : ℕ) (z : ℤ)
    → IsCount mode z
    → checked_count mode available z ≡ ok n
    → (1 ≤ n) × (n ≤ available)
checked_count_lem mode available n (negsuc m) count h = absurd (cc)
checked_count_lem mode available n (pos m) count h = ground (arith, count m refl, h)

candidate_count_lem :
    (f : Rounding) (mode : SamplingMode) (available n : ℕ)
    → n ≤ available
    → (n ≤ candidate_count f mode available n) × (candidate_count f mode available n ≤ available)
candidate_count_lem f SamplingMode.all_frames available n le = (le, omega arith)
candidate_count_lem f SamplingMode.target_count available n le = (omega arith, omega arith)
candidate_count_lem f SamplingMode.interval available n le = (omega arith, omega arith)
candidate_count_lem f SamplingMode.auto available n le = (omega arith, omega arith)

estimate_of-IsWithin :
    (f : Rounding) (total : ℕ) (c : SamplingConfig) (range : FrameRange)
    (r : Result SamplingError ℕ) (e : Estimate)
    → IsRange total range
    → ((n : ℕ) → r ≡ ok n → (1 ≤ n) × (n ≤ range.available))
    → estimate_of f c range r ≡ ok e
    → IsWithin total e
estimate_of-IsWithin f total c range (err e') e inside counted h = absurd (cc)
estimate_of-IsWithin f total c range (ok n) e inside counted h =
    let (least, most) = counted n refl in
    let (from, to) = candidate_count_lem f c.mode range.available n most in
    let made : Estimate = record {
      candidates = candidate_count f c.mode range.available n;
      selected = n;
      range = range;
    } in
    let same : made ≡ e = cc in subst (IsWithin total) same (least, from, to, inside.1, inside.2)

estimate_in-IsWithin :
    (f : Rounding) (total : ℕ) (c : SamplingConfig) (r : Result SamplingError FrameRange)
    (e : Estimate)
    → ((range : FrameRange) → r ≡ ok range → IsRange total range)
    → estimate_in f c r ≡ ok e
    → IsWithin total e
estimate_in-IsWithin f total c (err e') e inside h = absurd (cc)
estimate_in-IsWithin f total c (ok range) e inside h =
    estimate_of-IsWithin f total c range
      (checked_count c.mode range.available (requested_count f c range.available)) e
      (inside range refl)
      (λ n.
        checked_count_lem c.mode range.available n (requested_count f c range.available)
          (requested_count-IsCount f c c.mode range.available refl (inside range refl).0))
      h

plan_of-IsWithin :
    (f : Rounding) (total : ℕ) (r : Result SamplingError SamplingConfig) (e : Estimate)
    → ((c : SamplingConfig) → r ≡ ok c → IsOrdered c)
    → plan_of f total r ≡ ok e
    → IsWithin total e
unfolding estimate_sampling
plan_of-IsWithin f total (err e') e ordered h = absurd (cc)
plan_of-IsWithin f total (ok c) e ordered h =
    estimate_in-IsWithin f total c (frame_range total c) e
      (λ range. frame_range-IsRange total c range (ordered c refl)) h

-- However the floating-point arithmetic rounds, a plan that is made selects at least one frame, no more
-- than its candidates, and these are no more than the frames of a range that lies within the source.
pub plan_sampling-IsWithin :
    (f : Rounding) (total : ℕ) (raw : RawConfig) (e : Estimate)
    → plan_sampling f total raw ≡ ok e
    → IsWithin total e
unfolding plan_sampling
plan_sampling-IsWithin f total raw e h =
    plan_of-IsWithin f total (new_config raw) e (new_config-IsOrdered raw) h
