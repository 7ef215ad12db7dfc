-- ===== src/FileLock/Balance.antt =====
-- What packages/file_lock.py holds after `acquire` and `release`.
use gaussian_os.Prelude.{ℕ, ◌+◌, Bool, true, false, ◌≡◌, none, some, ℕ_eq, ok, err}
use gaussian_os.FileLock.{LockState, FileLock, new_lock, Contention, Ended, release}

abbrev pub free : ℕ → ℕ → LockState
free local streams = record { local = local; streams = streams; locked = false }

-- A lock that was acquired holds both locks, and its release gives them back, even if it raises. One
-- that was not acquired holds what it held before: nothing.
abbrev pub Balanced : ℕ → ℕ → ℕ → Ended → Type 0
Balanced timeout local streams (some (ok _), l, s) =
    (s.locked ≡ true)
    × (s.local ≡ local + 1)
    × ((unlocks : Bool)
        → ((release unlocks l s).1 ≡ new_lock timeout)
          × ((release unlocks l s).2 ≡ free local streams))
Balanced timeout local streams (some (err e), l, s) =
    (l ≡ new_lock timeout) × (s ≡ free local streams)
Balanced timeout local streams (none, l, s) = Unit

module _ (c : Contention) (timeout local streams : ℕ) (unlocking : c.unlocks ≡ true) where
  held : FileLock
  held = record { timeout = timeout; stream = false; local_acquired = true }

  inside : LockState
  inside = record { local = local + 1; streams = streams + 1; locked = false }
