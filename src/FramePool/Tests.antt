-- ===== src/FramePool/Tests.antt =====
-- Concrete pools of two frames, and the laws of lib/sql/bufferpool.cpp at them.
use relvec_db.Common.{ℕ, ◌≡◌, ◌≢◌, refl, some, arith}
use relvec_db.Common.Int.{pos}
use relvec_db.Common.Outcome.{ok, fail}
use relvec_db.Cache.{PageId, new_cache, find}
use relvec_db.FramePool.{FramePool, new_pool, acquire_frame}
use relvec_db.FramePool.Kept.{acquire_frame-kept}

abbrev page : PageId
page = (pos 3, pos 0)

abbrev empty_pool : FramePool
empty_pool = new_pool 2 (λ k j. 5)

abbrev loaded_pool : FramePool
loaded_pool = elim (acquire_frame page empty_pool) [ ok r ↦ r.1 | fail e ↦ empty_pool ]

-- A pool of one frame, which has a page that was written to.
abbrev written_pool : FramePool
written_pool = record (new_pool 1 (λ k j. 5)) {
  frames =
      λ i. record { page_data = λ j. 9; file = some (pos 3); page_index = pos 0; ref_count = 0 };
  cache = record (new_cache 1) { keys = λ i. page };
}

abbrev next_page : PageId
next_page = (pos 3, pos 1)

acquire_frame-kept_example :
    (i : ℕ) × (pool : FramePool) × (acquire_frame next_page loaded_pool ≡ ok (i, pool))
    × (i ≢ 0)
    × (pool.frames 0 ≡ loaded_pool.frames 0)
unfolding new_pool acquire_frame find
acquire_frame-kept_example =
    acquire_frame-kept page next_page empty_pool loaded_pool 0 1 (omega arith) refl refl refl
      (omega arith) (λ e. absurd (omega (arith, e)))
