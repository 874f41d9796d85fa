-- ===== src/FramePool/Acquire.antt =====
-- lib/sql/bufferpool.cpp, `acquireFrame`: which bytes the caller gets.
use relvec_db.Common.{none, some, Bool, false}
use relvec_db.Cache.{PageId, page_id_eq}
use relvec_db.FramePool.{PoolFrame, FramePool}

-- The frame has the page: it belongs to that file and page index.
abbrev pub has_page : PoolFrame → PageId → Bool
has_page frame k = elim frame.file [ none ↦ false | some fd ↦ page_id_eq k (fd, frame.page_index) ]
