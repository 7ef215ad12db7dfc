-- ===== src/FileLock.antt =====
-- `FileLock` of packages/file_lock.py. The parts that a lock has in the process and in the operating
-- system are counted in a state; what the calls of both give back is data. The owner's details in the
-- lock file are for diagnosis only and are left out.
pub mod Balance
pub mod Ends
pub mod Tests
use gaussian_os.Prelude.{
  ℕ, ◌+◌, ◌-◌, Bool, true, false, not, ◌&&◌, ◌||◌, ◌≡◌, Option, none, some, List, [], ◌∷◌, ◌==◌,
  ℕ_eq, leb, Result, ok, err, if◌then◌else◌,
}

-- How often this thread holds the local lock of the path, how many streams of the lock file are open
-- in it, and whether one of them holds the operating system's lock.
pub record LockState : Type 0 where
  pub local : ℕ
  pub streams : ℕ
  pub locked : Bool

-- `_stream` is told apart from None only. The timeout is in microseconds.
pub record FileLock : Type 0 where
  pub timeout : ℕ
  pub stream : Bool
  pub local_acquired : Bool

pub data LockExc : Type 0 where
  lock_error os_error : LockExc

-- `__init__`; a negative timeout, which it refuses, is no natural number
abbrev pub new_lock : ℕ → FileLock
new_lock timeout = record { timeout = timeout; stream = false; local_acquired = false }

-- How far the file gets opened: not at all, opened but not prepared, or fully.
pub data Opening : Type 0 where
  no_stream broken_stream opened : Opening

-- `_try_os_lock`: True, False, or another exception.
pub data Try : Type 0 where
  taken busy broken : Try

-- What one call of `acquire` meets: the clock, the tries of the local lock and of the operating
-- system's, each with the clock after it, and whether writing the details and unlocking work.
pub record Contention : Type 0 where
  pub start : ℕ
  pub local_tries : List (Bool × ℕ)
  pub opening : Opening
  pub tries : List (Try × ℕ)
  pub recorded : Bool
  pub unlocks : Bool

-- How a call ends, `none` while it still waits, and the lock and the state afterwards.
abbrev pub Ended : Type 0
Ended = Option (Result LockExc (Unit {0})) × FileLock × LockState

-- if self._local_acquired: self._local.release()
abbrev pub release_local : FileLock → LockState → FileLock × LockState
release_local l s =
    if l.local_acquired
    then (record l { local_acquired = false }, record s { local = s.local - 1 })
    else (l, s)

abbrev pub close_stream : LockState → LockState
close_stream s = record s { streams = s.streams - 1; locked = false }

abbrev pub ended : Option (Result LockExc (Unit {0})) → FileLock × LockState → Ended
ended o (l, s) = (o, l, s)

-- The handler at the end of `acquire`. If unlocking fails, the local lock is kept.
unfoldable pub abandon : Bool → LockExc → Bool → FileLock → LockState → Ended
abandon unlocks e os_locked l s =
    if os_locked && not unlocks
    then (some (err LockExc.os_error), l, close_stream s)
    else ended (some (err e)) (release_local l (close_stream s))

-- The owner's details are written under the lock.
unfoldable pub record_owner : Contention → FileLock → LockState → Ended
unfolding abandon
record_owner c l s =
    if c.recorded
    then (some (ok tt), record l { stream = true }, record s { locked = true })
    else abandon c.unlocks LockExc.os_error true l (record s { locked = true })

-- self.timeout == 0 or time.monotonic() >= deadline
abbrev pub gives_up : ℕ → ℕ → ℕ → Bool
gives_up timeout deadline now = timeout == 0 || leb deadline now

-- The loop over `_try_os_lock`.
unfoldable pub try_each : Contention → ℕ → List (Try × ℕ) → FileLock → LockState → Ended
unfolding record_owner abandon
try_each c deadline [] l s = (none, l, s)
try_each c deadline ((taken, now) ∷ tries) l s = record_owner c l s
try_each c deadline ((broken, now) ∷ tries) l s = abandon c.unlocks LockExc.os_error false l s
try_each c deadline ((busy, now) ∷ tries) l s =
    let later = try_each c deadline tries l s in
    if gives_up l.timeout deadline now
    then ended (some (err LockExc.lock_error)) (release_local l (close_stream s))
    else later

abbrev pub with_stream : LockState → LockState
with_stream s = record s { streams = s.streams + 1 }

unfoldable pub open_stream : Contention → ℕ → Opening → FileLock → LockState → Ended
unfolding try_each abandon
open_stream c deadline no_stream l s = ended (some (err LockExc.os_error)) (release_local l s)
open_stream c deadline broken_stream l s =
    abandon c.unlocks LockExc.os_error false l (with_stream s)
open_stream c deadline opened l s = try_each c deadline c.tries l (with_stream s)

-- The loop over the local lock.
unfoldable pub try_local : Contention → ℕ → List (Bool × ℕ) → FileLock → LockState → Ended
unfolding open_stream
try_local c deadline [] l s = (none, l, s)
try_local c deadline ((true, now) ∷ tries) l s =
    open_stream c deadline c.opening (record l { local_acquired = true })
      (record s { local = s.local + 1 })
try_local c deadline ((false, now) ∷ tries) l s =
    let later = try_local c deadline tries l s in
    if gives_up l.timeout deadline now then (some (err LockExc.lock_error), l, s) else later

unfoldable pub acquire : Contention → FileLock → LockState → Ended
unfolding try_local
acquire c l s = try_local c (c.start + l.timeout) c.local_tries l s

abbrev pub Released : Type 0
Released = Result LockExc (Unit {0}) × FileLock × LockState

abbrev pub released : Result LockExc (Unit {0}) → FileLock × LockState → Released
released r (l, s) = (r, l, s)

-- `release`; the argument says whether unlocking works
unfoldable pub release : Bool → FileLock → LockState → Released
release unlocks l s =
    if l.stream
    then released (if unlocks then ok tt else err LockExc.os_error)
        (release_local (record l { stream = false }) (close_stream s))
    else released (ok tt) (release_local l s)
