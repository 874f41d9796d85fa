-- ===== src/Cache/Sweep.antt =====
-- lib/sql/cache.h: the search of `put` for a frame without a lock.
use native.Mathlib.Decide.{ℕ_discrete}
use native.Mathlib.Nat.{mod-eq_of_lt, mod_self}
use relvec_db.Common.{
  ℕ, zero, suc, ◌+◌, ◌-◌, ◌%◌, ◌<◌, ◌≤◌, ◌≡◌, ◌≢◌, refl, true, false, arith, leb, ◌==◌,
  if◌then◌else◌,
}
use relvec_db.Common.Outcome.{ok}
use relvec_db.Cache.{ClockCache, pass, sweep}

-- The rounds that the hand takes from `i` to `j`.
abbrev pub rounds : ℕ → ℕ → ℕ → ℕ
rounds n i j = if leb i j then j - i else j + n - i

pub next : (n i : ℕ) → i < n → (i + 1) % n ≡ (if i + 1 == n then 0 else i + 1)
next n i h = elim (ℕ_discrete (i + 1) n) [
  | yes e ↦ let here : n == n ≡ true = ground arith in rw e (rw (mod_self n, here) refl)
  | no e ↦
      let off : i + 1 == n ≡ false = ground arith in
      rw (mod-eq_of_lt {n = i + 1} {m = n} (omega arith), off) refl
]

-- What the search leaves: the hand at a frame whose bit was clear, no further than `d` rounds, and
-- the keys as they were.
pub record IsSwept (c : ClockCache) (d : ℕ) (r : ClockCache) : Type 0 where
  pub inside : r.cur_iter < c.capacity
  pub capacity_eq : r.capacity ≡ c.capacity
  pub keys_eq : r.keys ≡ c.keys
  pub near : rounds c.capacity c.cur_iter r.cur_iter ≤ d
  pub clear : c.clock r.cur_iter ≢ 1

-- A frame whose bit is clear bounds the search.
pub sweep_lem :
    (fuel j : ℕ) (c : ClockCache)
    → c.cur_iter < c.capacity
    → j < c.capacity
    → c.clock j ≢ 1
    → rounds c.capacity c.cur_iter j < fuel
    → (r : ClockCache) × (sweep fuel c ≡ ok r) × IsSwept c (rounds c.capacity c.cur_iter j) r
unfolding sweep
sweep_lem zero j c h hj clear f = absurd (omega arith)
sweep_lem (suc fuel) j c h hj clear f = elim (ℕ_discrete (c.clock c.cur_iter) 1) [
  | no ne ↦ (
    c,
    ground (arith, ne),
    record { inside = h; capacity_eq = refl; keys_eq = refl; near = ground arith; clear = ne },
  )
  | yes one ↦
      let apart : c.cur_iter ≢ j = (λ e. clear (cc (e, one))) in
      let hand = next c.capacity c.cur_iter h in
      let closer : rounds c.capacity ((c.cur_iter + 1) % c.capacity) j + 1
          ≡ rounds c.capacity c.cur_iter j =
        ground (arith, hand, apart) in
      let (r, e, s) =
        sweep_lem fuel j (pass c) (ground (arith, hand)) hj (ground (arith, clear, apart))
          (omega (arith, closer, f)) in
      let set : c.clock c.cur_iter == 1 ≡ true = ground arith in
      let far : r.cur_iter ≢ c.cur_iter = (λ q. absurd (ground (arith, hand, s.near, closer, q))) in
      (
        r,
        rw set e,
        record {
          inside = s.inside;
          capacity_eq = s.capacity_eq;
          keys_eq = s.keys_eq;
          near = ground (arith, hand, s.near, closer, far, s.inside);
          clear = λ q. s.clear (ground (arith, far, q));
        },
      )
]
