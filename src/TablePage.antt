-- ===== src/TablePage.antt =====
-- The pages of a table, as the bytes of a frame: what lib/sql/fixed.cpp and lib/sql/flexible.cpp
-- share. A frame is the map from an offset to the byte there; only offsets below `page_size` lie
-- within it, and an access past it is a fault.
pub mod Bytes
pub mod Fixed
pub mod Flexible
mod Tests
use relvec_db.Common.{ℕ, ◌+◌, ◌-◌, ◌≤◌, Bool, List, ltb, leb, ◌&&◌, if◌then◌else◌, length, get_or}
use relvec_db.Common.Ranges.{range}
use relvec_db.Common.Outcome.{Outcome, ok, out_of_range, ◌>>=◌, ◌>>◌, guard}

-- `PageSize`
abbrev pub page_size : ℕ
page_size = 4096

abbrev pub Frame : Type 0
Frame = ℕ → ℕ

-- The frame with bytes written from an offset on.
unfoldable pub write_bytes : ℕ → List ℕ → Frame → Frame
write_bytes off bytes d j =
    if leb off j && ltb j (off + length bytes) then get_or bytes (j - off) 0 else d j

-- A read of the byte at an offset.
unfoldable pub byte_at : Frame → ℕ → Outcome ℕ
byte_at d off = do guard (ltb off page_size) out_of_range; ok (d off)

-- The bytes from an offset on, to the end of the page.
unfoldable pub bytes_from : Frame → ℕ → List ℕ
unfolding range
bytes_from d off = range d off (page_size - off)

-- A write of bytes from an offset on, which has to stay within the page.
unfoldable pub write : ℕ → List ℕ → Frame → Outcome Frame
unfolding write_bytes
write off bytes d = do
  guard (leb (off + length bytes) page_size) out_of_range
  ok (write_bytes off bytes d)
