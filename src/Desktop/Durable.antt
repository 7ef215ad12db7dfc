-- ===== src/Desktop/Durable.antt =====
-- `_write_json` of apps/desktop/project_store.py: a document is written to a temporary file beside it,
-- which then replaces it; a sharing violation of Windows is met by a bounded number of new attempts.
pub mod Outcome
use gaussian_os.Prelude.{
  ℕ, suc, ◌+◌, Bool, true, false, Option, none, some, List, [], ◌∷◌, Result, ok, err, if◌then◌else◌,
}

-- How one `os.replace` ends: it works, `_is_sharing_violation` holds of its error, or does not.
pub data Replace : Type 0 where
  replaced violation failure : Replace

-- What the volume does during one call: whether the temporary file can be written, how the
-- attempts to replace the document end, and whether a temporary file that is left can be removed.
pub record Volume : Type 0 where
  pub writes_temporary : Bool
  pub replace : ℕ → Replace
  pub unlinks : Bool

abbrev pub working : Volume
working = record { writes_temporary = true; replace = λ n. Replace.replaced; unlinks = true }

-- REPLACE_BACKOFF_SECONDS, in milliseconds
abbrev pub replace_backoff : List ℕ
replace_backoff = 50 ∷ 100 ∷ 200 ∷ 400 ∷ 800 ∷ []

-- `os_error`: what the writing of the temporary file or its removal raised. `not_saved n`: the ProjectStoreError
-- "could not atomically save project state after n replace attempts".
pub data WriteError : Type 0 where
  os_error : WriteError
  not_saved : ℕ → WriteError

-- The document at the path, whether the temporary file stands beside it, and the milliseconds slept.
pub record File (Doc : Type 0) : Type 0 where
  pub document : Option Doc
  pub has_temporary : Bool
  pub slept : ℕ

module _ {Doc : Type 0} where
  -- os.replace(temporary, path)
  abbrev pub moved_over : Doc → File Doc → File Doc
  moved_over payload f = record f { document = some payload; has_temporary = false }

  -- time.sleep(delay)
  abbrev pub sleep : ℕ → File Doc → File Doc
  sleep delay f = record f { slept = f.slept + delay }

  -- temporary.unlink(missing_ok=True), in the `finally` of a body that has ended: its own exception
  -- takes the place of that end.
  abbrev pub unlink_temporary :
      Bool → Result {0, 0} WriteError Unit → File Doc → Result {0, 0} WriteError Unit × File Doc
  unlink_temporary unlinks r f =
      if f.has_temporary
      then if unlinks then (r, record f { has_temporary = false }) else (err WriteError.os_error, f)
      else (r, f)

  -- The loop over `(*REPLACE_BACKOFF_SECONDS, None)`, whose delays are left; attempts count from 1.
  unfoldable pub replace_loop :
      (ℕ → Replace) → Doc → List ℕ → ℕ → File Doc → Result {0, 0} WriteError Unit × File Doc
  replace_loop replace payload [] attempt f = elim (replace attempt) [
    | Replace.replaced ↦ (ok tt, moved_over payload f)
    | Replace.violation ↦ (err (WriteError.not_saved attempt), f)
    | Replace.failure ↦ (err (WriteError.not_saved attempt), f)
  ]
  replace_loop replace payload (delay ∷ delays) attempt f = elim (replace attempt) [
    | Replace.replaced ↦ (ok tt, moved_over payload f)
    | Replace.violation ↦ replace_loop replace payload delays (suc attempt) (sleep delay f)
    | Replace.failure ↦ (err (WriteError.not_saved attempt), f)
  ]

  -- The body of `try`
  unfoldable pub write_beside : Volume → Doc → File Doc → Result {0, 0} WriteError Unit × File Doc
  unfolding replace_loop
  write_beside volume payload f =
      if volume.writes_temporary
      then replace_loop volume.replace payload replace_backoff 1 (record f { has_temporary = true })
      else (err WriteError.os_error, record f { has_temporary = true })

  -- `_write_json`
  unfoldable pub write_json : Volume → Doc → File Doc → Result {0, 0} WriteError Unit × File Doc
  unfolding write_beside
  write_json volume payload f =
      let (r, f') = write_beside volume payload f in unlink_temporary volume.unlinks r f'
