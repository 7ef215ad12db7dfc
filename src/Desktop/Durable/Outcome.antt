-- ===== src/Desktop/Durable/Outcome.antt =====
-- How `_write_json` of apps/desktop/project_store.py can end.
use gaussian_os.Prelude.{
  ℕ, zero, suc, ◌+◌, ◌≤◌, ◌<◌, true, false, ◌≡◌, Option, some, List, [], ◌∷◌, Result, ok, err,
  arith, length, take,
}
use gaussian_os.Desktop.Durable.{
  Replace, Volume, WriteError, File, replace_loop, write_beside, write_json, replace_backoff,
}

-- The sum of the delays.
abbrev pub total : List ℕ → ℕ
total [] = 0
total (delay ∷ delays) = delay + total delays

module _ {Doc : Type 0} where
  -- From before to after: the document is the payload after success, and unchanged after an error.
  abbrev pub IsAtomic : Doc → Option Doc → Result {0, 0} WriteError Unit → Option Doc → Type 0
  IsAtomic payload before (ok u) after = after ≡ some payload
  IsAtomic payload before (err e) after = after ≡ before

  replace_loop-IsAtomic :
      (replace : ℕ → Replace) (payload : Doc) (delays : List ℕ) (attempt : ℕ) (f : File Doc)
      → let (r, f') = replace_loop replace payload delays attempt f in
        IsAtomic payload f.document r f'.document × (f'.slept ≤ f.slept + total delays)
  unfolding replace_loop
  replace_loop-IsAtomic replace payload [] attempt f = ground arith
  replace_loop-IsAtomic replace payload (delay ∷ delays) attempt f =
      let slept = record f { slept = f.slept + delay } in
      ground (arith, replace_loop-IsAtomic replace payload delays (suc attempt) slept)

  -- Whatever the volume does, `_write_json` ends with the document replaced by the payload if it
  -- returns and as it was before if it raises, with a temporary file left beside it
  -- only if it cannot be removed, which is raised, and after it has slept for at most 1550 milliseconds.
  pub write_json-IsAtomic :
      (volume : Volume) (payload : Doc) (f : File Doc)
      → let (r, f') = write_json volume payload f in
        IsAtomic payload f.document r f'.document
        × (f'.has_temporary ≡ true → (volume.unlinks ≡ false) × (r ≡ err WriteError.os_error))
        × (f'.slept ≤ f.slept + 1550)
  unfolding write_json write_beside
  write_json-IsAtomic volume payload f =
      let loop =
        replace_loop-IsAtomic volume.replace payload replace_backoff 1
          (record f { has_temporary = true }) in
      ground (arith, loop)

  replace_loop-tolerates :
      (n : ℕ) (replace : ℕ → Replace) (payload : Doc) (delays : List ℕ) (attempt : ℕ) (f : File Doc)
      → n ≤ length delays
      → ((i : ℕ) → i < n → replace (i + attempt) ≡ Replace.violation)
      → replace (n + attempt) ≡ Replace.replaced
      → replace_loop replace payload delays attempt f ≡ (
        ok tt,
        record {
          document = some payload;
          has_temporary = false;
          slept = f.slept + total (take n delays);
        },
      )
  unfolding replace_loop
  replace_loop-tolerates zero replace payload [] attempt f short busy free = ground arith
  replace_loop-tolerates zero replace payload (delay ∷ delays) attempt f short busy free =
      ground arith
  replace_loop-tolerates (suc n) replace payload [] attempt f short busy free = absurd (omega arith)
  replace_loop-tolerates (suc n) replace payload (delay ∷ delays) attempt f short busy free =
      let rest =
        replace_loop-tolerates n replace payload delays (suc attempt)
          (record f { slept = f.slept + delay }) (omega arith)
          (λ i below. grind (arith, busy (suc i) (omega arith))) (grind (arith, free)) in
      ground (arith, busy 0 (omega arith), rest)

  -- When the temporary file can be written, and n of the first attempts to replace the document, five
  -- at most, meet a sharing violation before one works, `_write_json` returns with the payload as the
  -- document, after it has slept for exactly the first n delays.
  pub write_json-tolerates :
      (n : ℕ) (volume : Volume) (payload : Doc) (f : File Doc)
      → volume.writes_temporary ≡ true
      → n ≤ 5
      → ((i : ℕ) → i < n → volume.replace (i + 1) ≡ Replace.violation)
      → volume.replace (n + 1) ≡ Replace.replaced
      → write_json volume payload f ≡ (
        ok tt,
        record {
          document = some payload;
          has_temporary = false;
          slept = f.slept + total (take n replace_backoff);
        },
      )
  unfolding write_json write_beside
  write_json-tolerates n volume payload f written short busy free =
      let loop =
        replace_loop-tolerates n volume.replace payload replace_backoff 1
          (record f { has_temporary = true }) short busy free in
      ground (arith, loop)
