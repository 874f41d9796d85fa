-- ===== src/Cache.antt =====
-- lib/sql/cache.h, `ClockCache`: which frame of the buffer pool holds which page.
-- `Clock_` and `Keys_` are maps from a frame index; only indexes below `capacity` are used. The
-- keys of a new cache are pairs of zeros.
pub mod Sweep
pub mod Put
mod Tests
use relvec_db.Common.{
  ℕ, zero, suc, ◌+◌, ◌%◌, Bool, Option, none, some, ltb, ◌==◌, ◌&&◌, if◌then◌else◌,
}
use relvec_db.Common.Int.{ℤ, pos, eqb_ℤ}
use relvec_db.Common.Outcome.{Outcome, ok, fail, out_of_range, no_fuel, ◌>>=◌, ◌>>◌, guard}

-- `PageId`: a file descriptor and a page index.
abbrev pub PageId : Type 0
PageId = ℤ × ℤ

abbrev pub page_id_eq : PageId → PageId → Bool
page_id_eq a b = eqb_ℤ a.0 b.0 && eqb_ℤ a.1 b.1

pub record ClockCache : Type 0 where
  pub capacity : ℕ
  pub clock : ℕ → ℕ
  pub keys : ℕ → PageId
  pub cur_iter : ℕ

-- The constructor, for so many frames.
unfoldable pub new_cache : ℕ → ClockCache
new_cache n = record { capacity = n; clock = λ i. 0; keys = λ i. (pos 0, pos 0); cur_iter = 0 }

-- The loop of `find`, with `n` indexes left from `i` on. The source's {0, 0} is `none`.
unfoldable pub find_from : ℕ → ℕ → PageId → ClockCache → Option ℕ
find_from zero i key c = none
find_from (suc n) i key c =
    let rest = find_from n (i + 1) key c in if page_id_eq (c.keys i) key then some i else rest

-- `find`
unfoldable pub find : PageId → ClockCache → Option ℕ
unfolding find_from
find key c = find_from c.capacity 0 key c

-- One round of the loop of `put`: the bit is cleared, and the hand moves on.
abbrev pub pass : ClockCache → ClockCache
pass c = record c {
  clock = λ i. if i == c.cur_iter then 0 else c.clock i;
  cur_iter = (c.cur_iter + 1) % c.capacity;
}

-- `while (Clock_[cur_iter] == 1)`
unfoldable pub sweep : ℕ → ClockCache → Outcome ClockCache
sweep zero c = fail no_fuel
sweep (suc fuel) c =
    let rest = sweep fuel (pass c) in if c.clock c.cur_iter == 1 then rest else ok c

-- `put`: the index of the frame that the key takes. The clock has as many bits as the capacity, so
-- the loop always runs; it takes as many rounds as that at most.
unfoldable pub put : PageId → ClockCache → Outcome (ℕ × ClockCache)
unfolding sweep
put key c = do
  guard (ltb 0 c.capacity) out_of_range
  d ← sweep (suc c.capacity) c
  let i = d.cur_iter
  ok (
    i,
    record d {
      clock = λ j. if j == i then 1 else d.clock j;
      keys = λ j. if j == i then key else d.keys j;
      cur_iter = (i + 1) % d.capacity;
    },
  )

-- `lock` and `unlock`: the bit of each index that holds the key.
unfoldable pub lock : PageId → ClockCache → ClockCache
lock key c = record c {
  clock = λ i. if ltb i c.capacity && page_id_eq (c.keys i) key then 1 else c.clock i;
}

unfoldable pub unlock : PageId → ClockCache → ClockCache
unlock key c = record c {
  clock = λ i. if ltb i c.capacity && page_id_eq (c.keys i) key then 0 else c.clock i;
}
