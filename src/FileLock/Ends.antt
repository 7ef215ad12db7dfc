-- ===== src/FileLock/Ends.antt =====
-- The bounded waiting of packages/file_lock.py.
use gaussian_os.Prelude.{
  ℕ, ◌+◌, Bool, true, false, not, ◌&&◌, ◌≡◌, ◌≢◌, none, some, List, [], ◌∷◌, ℕ_eq, leb, any, Result,
  err, arith, Bool-cases, inl, inr,
}
use gaussian_os.FileLock.{
  LockState, FileLock, LockExc, Opening, no_stream, broken_stream, opened, Try, taken, busy, broken,
  Contention, ended, release_local, close_stream, abandon, record_owner, gives_up, try_each,
  with_stream, open_stream, try_local, acquire,
}

-- One of the tries has seen the deadline.
abbrev pub is_late {ℓ} : {A : Type ℓ} → ℕ → List (A × ℕ) → Bool
is_late deadline tries = any (λ t. leb deadline t.1) tries

ended-some :
    (r : Result LockExc (Unit {0})) (p : FileLock × LockState) → (ended (some r) p).0 ≢ none
ended-some r (l, s) h = cc h

abandon-some :
    (unlocks : Bool) (e : LockExc) (os_locked : Bool) (l : FileLock) (s : LockState)
    → (abandon unlocks e os_locked l s).0 ≢ none
unfolding abandon
abandon-some unlocks e os_locked l s = elim (Bool-cases (os_locked && not unlocks)) [
  | inl stuck ↦ rw stuck (λ h. cc h)
  | inr frees ↦ rw frees (ended-some (err e) (release_local l (close_stream s)))
]

record_owner-some : (c : Contention) (l : FileLock) (s : LockState) → (record_owner c l s).0 ≢ none
unfolding record_owner
record_owner-some c l s = elim (Bool-cases c.recorded) [
  | inl written ↦ rw written (λ h. cc h)
  | inr failed ↦
      rw failed (abandon-some c.unlocks LockExc.os_error true l (record s { locked = true }))
]

module _ (c : Contention) (deadline : ℕ) where
  try_each-ends :
      (tries : List (Try × ℕ)) (l : FileLock) (s : LockState)
      → is_late deadline tries ≡ true
      → (try_each c deadline tries l s).0 ≢ none
  unfolding try_each
  try_each-ends [] l s late = λ h. ground arith
  try_each-ends ((taken, now) ∷ tries) l s late = record_owner-some c l s
  try_each-ends ((broken, now) ∷ tries) l s late = abandon-some c.unlocks LockExc.os_error false l s
  try_each-ends ((busy, now) ∷ tries) l s late =
      elim (Bool-cases (gives_up l.timeout deadline now)) [
        | inl over ↦
            rw over (ended-some (err LockExc.lock_error) (release_local l (close_stream s)))
        | inr early ↦ rw early (try_each-ends tries l s (ground arith))
      ]

  open_stream-ends :
      (o : Opening) (l : FileLock) (s : LockState)
      → is_late deadline c.tries ≡ true
      → (open_stream c deadline o l s).0 ≢ none
  unfolding open_stream
  open_stream-ends no_stream l s late = ended-some (err LockExc.os_error) (release_local l s)
  open_stream-ends broken_stream l s late =
      abandon-some c.unlocks LockExc.os_error false l (with_stream s)
  open_stream-ends opened l s late = try_each-ends c.tries l (with_stream s) late

  try_local-ends :
      (tries : List (Bool × ℕ)) (l : FileLock) (s : LockState)
      → is_late deadline tries ≡ true
      → is_late deadline c.tries ≡ true
      → (try_local c deadline tries l s).0 ≢ none
  unfolding try_local
  try_local-ends [] l s late later = λ h. ground arith
  try_local-ends ((true, now) ∷ tries) l s late later =
      open_stream-ends c.opening (record l { local_acquired = true })
        (record s { local = s.local + 1 }) later
  try_local-ends ((false, now) ∷ tries) l s late later =
      elim (Bool-cases (gives_up l.timeout deadline now)) [
        | inl over ↦ rw over (λ h. cc h)
        | inr early ↦ rw early (try_local-ends tries l s (ground arith) later)
      ]

-- `acquire` ends, whoever holds the locks: it does not wait on once a try of the local lock and a try
-- of the operating system's lock have seen the clock at the deadline.
pub acquire-ends :
    (c : Contention) (l : FileLock) (s : LockState)
    → is_late (c.start + l.timeout) c.local_tries ≡ true
    → is_late (c.start + l.timeout) c.tries ≡ true
    → (acquire c l s).0 ≢ none
unfolding acquire
acquire-ends c l s late later = try_local-ends c (c.start + l.timeout) c.local_tries l s late later
