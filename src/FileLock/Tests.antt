-- ===== src/FileLock/Tests.antt =====
-- A lock of packages/file_lock.py that another process holds for a while.
use gaussian_os.Prelude.{◌≢◌, none, true, false, refl, [], ◌∷◌}
use gaussian_os.FileLock.{Contention, Opening, Try, new_lock, acquire}
use gaussian_os.FileLock.Ends.{acquire-ends}
use gaussian_os.FileLock.Balance.{free}

abbrev contention : Contention
contention = record {
  start = 0;
  local_tries = (false, 1) ∷ (true, 2) ∷ [];
  opening = Opening.opened;
  tries = (Try.busy, 3) ∷ (Try.taken, 4) ∷ [];
  recorded = true;
  unlocks = true;
}

acquire-ends_example :
    (acquire
      (record contention {
        tries = (Try.busy, 3) ∷ (Try.busy, 12) ∷ [];
        local_tries = (true, 10) ∷ [];
      })
      (new_lock 10)
      (free 0 0)).0
    ≢ none
acquire-ends_example =
    acquire-ends
      (record contention {
        tries = (Try.busy, 3) ∷ (Try.busy, 12) ∷ [];
        local_tries = (true, 10) ∷ [];
      })
      (new_lock 10) (free 0 0) refl refl
