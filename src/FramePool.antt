-- ===== src/FramePool.antt =====
-- lib/sql/bufferpool.cpp, `FramePool`: the frames of memory over the pages of the files.
-- The pages of the files are a map from a descriptor and a page index to bytes, which `readPage`
-- reads and `writePage` writes. A frame without a file has none.
pub mod Acquire
pub mod Kept
mod Tests
use relvec_db.Common.{ℕ, ◌+◌, ◌-◌, ◌%◌, ◌^◌, Bool, Option, none, some, ◌==◌, ◌&&◌, if◌then◌else◌}
use relvec_db.Common.Int.{ℤ, pos, eqb_ℤ}
use relvec_db.Common.Outcome.{Outcome, ok, fail, assertion, out_of_range, ◌>>=◌, ◌>>◌, guard}
use relvec_db.Cache.{ClockCache, PageId, page_id_eq, new_cache, find, put, lock, unlock}
use relvec_db.TablePage.{Frame}

-- `FramePool::Frame`
pub record PoolFrame : Type 0 where
  pub page_data : Frame
  pub file : Option ℤ
  pub page_index : ℤ
  pub ref_count : ℕ

-- The pool, with the files and the `Statistics`.
pub record FramePool : Type 0 where
  pub frames : ℕ → PoolFrame
  pub cache : ClockCache
  pub disk : PageId → Frame
  pub page_read : ℕ
  pub page_written : ℕ
  pub page_accessed : ℕ

-- The constructor, for so many frames.
unfoldable pub new_pool : ℕ → (PageId → Frame) → FramePool
unfolding new_cache
new_pool n disk = record {
  frames = λ i. record { page_data = λ j. 0; file = none; page_index = pos 0; ref_count = 0 };
  cache = new_cache n;
  disk = disk;
  page_read = 0;
  page_written = 0;
  page_accessed = 0;
}

-- `dumpFrame`
abbrev pub write_page : PageId → Frame → FramePool → FramePool
write_page key d pool = record pool {
  disk = λ k. if page_id_eq k key then d else pool.disk k;
  page_written = pool.page_written + 1;
}

unfoldable pub dump_frame : PoolFrame → FramePool → FramePool
dump_frame frame pool = elim frame.file [
  | none ↦ pool
  | some fd ↦ write_page (fd, frame.page_index) frame.page_data pool
]

abbrev pub set_frame : ℕ → PoolFrame → FramePool → FramePool
set_frame i frame pool = record pool { frames = λ j. if j == i then frame else pool.frames j }

-- The branch of `acquireFrame` for a page that is in the cache.
unfoldable pub check_frame : PageId → ℕ → FramePool → Outcome (ℕ × FramePool)
check_frame key i pool = do
  guard (eqb_ℤ (pool.frames i).page_index key.1) assertion
  fd ← elim (pool.frames i).file [ none ↦ fail out_of_range | some fd ↦ ok fd ]
  guard (eqb_ℤ fd key.0) assertion
  ok (i, pool)

-- The branch for a page that is not: a frame is taken, what it held is written back, and the page is
-- read. The reference count of the frame stays.
unfoldable pub load_frame : PageId → FramePool → Outcome (ℕ × FramePool)
unfolding put dump_frame
load_frame key pool = do
  (i, c) ← put key pool.cache
  let dumped = dump_frame (pool.frames i) pool
  let frame : PoolFrame = record {
    page_data = dumped.disk key;
    file = some key.0;
    page_index = key.1;
    ref_count = (pool.frames i).ref_count;
  }
  ok (i, record (set_frame i frame dumped) { cache = c; page_read = pool.page_read + 1 })

-- The end of `acquireFrame`: one more reference, and the first one locks the page.
unfoldable pub reference : PageId → ℕ → FramePool → FramePool
unfolding lock
reference key i pool =
    let count = (pool.frames i).ref_count + 1 in
    record (set_frame i (record (pool.frames i) { ref_count = count }) pool) {
      cache = if count == 1 then lock key pool.cache else pool.cache;
      page_accessed = pool.page_accessed + 1;
    }

-- `acquireFrame`, which `BufferPool::getPage` calls.
unfoldable pub acquire_frame : PageId → FramePool → Outcome (ℕ × FramePool)
unfolding find check_frame load_frame reference
acquire_frame key pool = do
  (i, pool') ← elim (find key pool.cache) [
    | none ↦ load_frame key pool
    | some i ↦ check_frame key i pool
  ]
  ok (i, reference key i pool')

-- `releaseFrame`, which the destructor of `Frame` calls. The count is a `size_t`.
unfoldable pub release_frame : ℕ → FramePool → Outcome FramePool
unfolding unlock
release_frame i pool =
    let count = ((pool.frames i).ref_count + (2 ^ 64 - 1)) % 2 ^ 64 in
    let released = set_frame i (record (pool.frames i) { ref_count = count }) pool in
    let unlocked = (do
      fd ← elim (pool.frames i).file [ none ↦ fail out_of_range | some fd ↦ ok fd ]
      ok (record released { cache = unlock (fd, (pool.frames i).page_index) pool.cache })) in
    if count == 0 then unlocked else ok released
