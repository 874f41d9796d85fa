-- ===== src/Cache/Tests.antt =====
-- Concrete caches of three frames, and the laws of lib/sql/cache.h at them.
use relvec_db.Common.{ℕ, ◌≡◌, ◌≢◌, refl, some, arith, ◌==◌, if◌then◌else◌}
use relvec_db.Common.Int.{pos}
use relvec_db.Common.Outcome.{ok}
use relvec_db.Cache.{ClockCache, PageId, put, find}
use relvec_db.Cache.Put.{Taken, put-unlocked, find-put}

abbrev page : ℕ → PageId
page n = (pos 5, pos n)

-- Frame 1 is not locked.
abbrev one_free : ClockCache
one_free = record {
  capacity = 3;
  clock = λ i. if i == 1 then 0 else 1;
  keys = λ i. page i;
  cur_iter = 2;
}

abbrev all_locked : ClockCache
all_locked = record { capacity = 3; clock = λ i. 1; keys = λ i. page i; cur_iter = 2 }

put-unlocked_example :
    (i : ℕ) × (d : ClockCache) × (put (page 9) one_free ≡ ok (i, d))
    × (one_free.clock i ≢ 1)
    × Taken one_free i (page 9) d
put-unlocked_example =
    put-unlocked (page 9) one_free (omega arith) 1 (omega arith) (λ e. absurd (omega arith))

find-put_example :
    (i : ℕ) × (d : ClockCache) × (put (page 9) one_free ≡ ok (i, d))
    × (find (page 9) d ≡ some i)
    × Taken one_free i (page 9) d
unfolding find
find-put_example = find-put (page 9) one_free (omega arith) refl
