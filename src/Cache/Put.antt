-- ===== src/Cache/Put.antt =====
-- lib/sql/cache.h, `put`: which frame a page takes.
use native.Mathlib.Decide.{ℕ_discrete}
use relvec_db.Common.{
  ℕ, zero, suc, ◌+◌, ◌%◌, ◌<◌, ◌≤◌, ◌≡◌, ◌≢◌, refl, sym, ap, ◌∙◌, true, none, some, arith, ◌==◌,
  if◌then◌else◌, Bool-cases, inl, inr, lt→ltb,
}
use relvec_db.Common.Int.{eqb_ℤ_refl}
use relvec_db.Common.Outcome.{ok}
use relvec_db.Cache.{ClockCache, PageId, page_id_eq, pass, sweep, put, find_from, find}
use relvec_db.Cache.Sweep.{rounds, next, IsSwept, sweep_lem}

-- The cache after frame `i` is taken for the key.
abbrev pub Taken : ClockCache → ℕ → PageId → ClockCache → Type 0
Taken c i key d =
    (i < c.capacity)
    × (d.capacity ≡ c.capacity)
    × (d.cur_iter < c.capacity)
    × (d.clock i ≡ 1)
    × ((k : ℕ) → d.keys k ≡ (if k == i then key else c.keys k))

module _ (key : PageId) (c : ClockCache) (h : c.cur_iter < c.capacity) where
  put_of_sweep :
      (b : ClockCache) (m : ℕ) (r : ClockCache)
      → sweep (suc c.capacity) c ≡ ok r
      → b.capacity ≡ c.capacity
      → b.keys ≡ c.keys
      → IsSwept b m r
      → (d : ClockCache) × (put key c ≡ ok (r.cur_iter, d)) × Taken c r.cur_iter key d
  unfolding put
  put_of_sweep b m r e ec ek s =
      let some_frame = lt→ltb 0 c.capacity (omega arith) in
      (
        record r {
          clock = λ j. if j == r.cur_iter then 1 else r.clock j;
          keys = λ j. if j == r.cur_iter then key else r.keys j;
          cur_iter = (r.cur_iter + 1) % r.capacity;
        },
        rw some_frame (rw e refl),
        (
          omega (arith, s.inside, ec),
          s.capacity_eq ∙ ec,
          ground (
            arith,
            next r.capacity r.cur_iter (omega (arith, s.inside, s.capacity_eq)),
            s.capacity_eq,
            ec,
            s.inside,
          ),
          ground arith,
          λ k. rw (s.keys_eq, ek) refl,
        ),
      )

  -- Where the bit of some frame is not set, `put` returns, and it takes a frame whose bit was not
  -- set.
  pub put-unlocked :
      (j : ℕ)
      → j < c.capacity
      → c.clock j ≢ 1
      → (i : ℕ) × (d : ClockCache) × (put key c ≡ ok (i, d)) × (c.clock i ≢ 1) × Taken c i key d
  put-unlocked j hj clear =
      let (r, e, s) = sweep_lem (suc c.capacity) j c h hj clear (ground arith) in
      let (d, ep, t) = put_of_sweep c _ r e refl refl s in (r.cur_iter, d, ep, s.clear, t)

  -- The search from a locked frame comes back to it at the latest.
  put_after_pass :
      c.clock c.cur_iter ≡ 1
      → (r : ClockCache) × (d : ClockCache) × IsSwept
          (pass c)
          (rounds c.capacity (pass c).cur_iter c.cur_iter)
          r
        × (put key c ≡ ok (r.cur_iter, d))
        × Taken c r.cur_iter key d
  unfolding sweep
  put_after_pass one =
      let hand = next c.capacity c.cur_iter h in
      let (r, e, s) =
        sweep_lem c.capacity c.cur_iter (pass c) (ground (arith, hand)) h (ground arith)
          (ground (arith, hand)) in
      let set : c.clock c.cur_iter == 1 ≡ true = ground (arith, one) in
      let (d, ep, t) = put_of_sweep (pass c) _ r (rw set e) refl refl s in (r, d, s, ep, t)

  -- Where the bit of every frame is set, `put` returns as well, and it takes the frame at the
  -- hand, although that frame is locked.
  pub put-locked :
      ((k : ℕ) → k < c.capacity → c.clock k ≡ 1)
      → (d : ClockCache) × (put key c ≡ ok (c.cur_iter, d)) × Taken c c.cur_iter key d
  put-locked all =
      let (r, d, s, ep, t) = put_after_pass (all c.cur_iter h) in
      let at_hand : r.cur_iter ≡ c.cur_iter = ground (arith, s.clear, all r.cur_iter s.inside) in
      (d, ep ∙ ap (λ i. ok (i, d)) at_hand, at_hand_taken r.cur_iter d at_hand t)
    where
      at_hand_taken :
          (i : ℕ) (d : ClockCache) → i ≡ c.cur_iter → Taken c i key d → Taken c c.cur_iter key d
      at_hand_taken i d e t = rw (sym e) t

  put_total : (i : ℕ) × (d : ClockCache) × (put key c ≡ ok (i, d)) × Taken c i key d
  put_total = elim (ℕ_discrete (c.clock c.cur_iter) 1) [
    | yes one ↦ let (r, d, s, ep, t) = put_after_pass one in (r.cur_iter, d, ep, t)
    | no ne ↦ let (i, d, ep, u, t) = put-unlocked c.cur_iter h ne in (i, d, ep, t)
  ]

-- The first index of a key that was nowhere, once it is put at `i`.
find_from-Taken :
    (n a i : ℕ) (key : PageId) (c d : ClockCache)
    → find_from n a key c ≡ none
    → a ≤ i
    → i < a + n
    → ((k : ℕ) → d.keys k ≡ (if k == i then key else c.keys k))
    → find_from n a key d ≡ some i
unfolding find_from
find_from-Taken zero a i key c d e l h u = absurd (omega arith)
find_from-Taken (suc n) a i key c d e l h u = elim (Bool-cases (page_id_eq (c.keys a) key)) [
  | inl q ↦ absurd (ground (arith, q, e))
  | inr q ↦ elim (ℕ_discrete a i) [
    | yes k ↦
        let here : d.keys a ≡ key = u a ∙ ground (arith, k) in
        let same : page_id_eq key key ≡ true = ground (arith, eqb_ℤ_refl key.0, eqb_ℤ_refl key.1) in
        rw here (rw same (ap some k))
    | no k ↦
        let there : d.keys a ≡ c.keys a = u a ∙ ground (arith, k) in
        let rest : find_from n (a + 1) key c ≡ none = ground (arith, q, e) in
        rw there (rw q (find_from-Taken n (a + 1) i key c d rest (omega arith) (omega arith) u))
  ]
]

-- On a cache whose hand is below its capacity, `put` returns an index below the capacity, so its
-- loop ends. A page that was not in the cache is then found at that index, where the bit is set,
-- the hand is below the capacity again, and the other indexes keep their pages.
pub find-put :
    (key : PageId) (c : ClockCache)
    → c.cur_iter < c.capacity
    → find key c ≡ none
    → (i : ℕ) × (d : ClockCache) × (put key c ≡ ok (i, d)) × (find key d ≡ some i) × Taken c i key d
unfolding find
find-put key c h e =
    let (i, d, ep, t) = put_total key c h in
    let (inside, cap, hand, bit, keys) = t in
    let found =
      find_from-Taken c.capacity 0 i key c d e (omega arith) (omega (arith, inside)) keys in
    (i, d, ep, ap (λ n. find_from n 0 key d) cap ∙ found, t)
