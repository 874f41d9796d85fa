-- ===== src/FramePool/Kept.antt =====
-- lib/sql/bufferpool.cpp, `acquireFrame`: a frame with a reference is not taken for another page.
use relvec_db.Common.{
  ℕ, zero, suc, ◌+◌, ◌<◌, ◌≡◌, ◌≢◌, ◌⊎◌, refl, ap, sym, ◌∙◌, true, false, none, some, arith, ◌==◌,
  Bool-cases, Option-cases, inl, inr,
}
use relvec_db.Common.Int.{eqb_ℤ}
use relvec_db.Common.Outcome.{Outcome, ok, fail, guard, assertion, out_of_range, >>=-eq-ok}
use relvec_db.Cache.{ClockCache, PageId, page_id_eq, find_from, find, put, lock}
use relvec_db.Cache.Put.{find-put, put-unlocked}
use relvec_db.FramePool.{
  PoolFrame, FramePool, dump_frame, acquire_frame, load_frame, check_frame, reference, set_frame,
}

-- What a search finds lies within the cache and has the key.
find_from-some :
    (n a : ℕ) (key : PageId) (c : ClockCache) (i : ℕ)
    → find_from n a key c ≡ some i
    → (i < a + n) × (page_id_eq (c.keys i) key ≡ true)
unfolding find_from
find_from-some zero a key c i e = cc
find_from-some (suc n) a key c i e = elim (Bool-cases (page_id_eq (c.keys a) key)) [
  | inl hit ↦ let same : a ≡ i = ground (arith, e, hit) in (omega (arith, same), rw (sym same) hit)
  | inr miss ↦
      let rest : find_from n (a + 1) key c ≡ some i = ground (arith, e, miss) in
      let (l, k) = find_from-some n (a + 1) key c i rest in (omega (arith, l), k)
]

-- The bit of a frame is set, and the hand lies within the cache.
record IsLocked (i : ℕ) (c : ClockCache) : Type 0 where
  within : i < c.capacity
  bit : c.clock i ≡ 1
  hand : c.cur_iter < c.capacity

reference-IsLocked :
    (key : PageId) (i : ℕ) (pool : FramePool)
    → i < pool.cache.capacity
    → pool.cache.cur_iter < pool.cache.capacity
    → (pool.cache.clock i ≡ 1)
      ⊎ (((pool.frames i).ref_count ≡ 0) × (page_id_eq (pool.cache.keys i) key ≡ true))
    → IsLocked i (reference key i pool).cache
unfolding reference lock
reference-IsLocked key i pool h hand b = record {
  within = ground (arith, h);
  bit = ground (arith, h, b);
  hand = ground (arith, hand);
}

-- The pool after a page was loaded into a frame.
abbrev loaded : PageId → ℕ → ClockCache → FramePool → FramePool
loaded key i c pool =
    let dumped = dump_frame (pool.frames i) pool in
    let frame : PoolFrame = record {
      page_data = dumped.disk key;
      file = some key.0;
      page_index = key.1;
      ref_count = (pool.frames i).ref_count;
    } in
    record (set_frame i frame dumped) { cache = c; page_read = pool.page_read + 1 }

acquire_frame-put :
    (key : PageId) (pool : FramePool) (i : ℕ) (c : ClockCache)
    → find key pool.cache ≡ none
    → put key pool.cache ≡ ok (i, c)
    → acquire_frame key pool ≡ ok (i, reference key i (loaded key i c pool))
unfolding acquire_frame
acquire_frame-put key pool i c e ep = rw (e, acquire_frame) (rw (ep, load_frame) refl)

ok_pair :
    {i j : ℕ} {p q : FramePool}
    → ◌≡◌ {A = Outcome (ℕ × FramePool)} (ok (i, p)) (ok (j, q))
    → (i ≡ j) × (p ≡ q)
ok_pair e = (cc e, cc e)

-- A frame that is found is the one that the cache names, and the pool stays.
check_frame-eq-ok :
    (key : PageId) (i j : ℕ) (pool pool' : FramePool)
    → check_frame key i pool ≡ ok (j, pool')
    → (i ≡ j) × (pool ≡ pool')
unfolding check_frame
check_frame-eq-ok key i j pool pool' e =
    let (_, _, e₁) = >>=-eq-ok (guard (eqb_ℤ (pool.frames i).page_index key.1) assertion) _ e in
    let (fd, _, e₂) =
      >>=-eq-ok (elim (pool.frames i).file [ none ↦ fail out_of_range | some fd ↦ ok fd ]) _ e₁ in
    let (_, _, e₃) = >>=-eq-ok (guard (eqb_ℤ fd key.0) assertion) _ e₂ in ok_pair e₃

acquire_frame-found :
    (key : PageId) (pool pool' : FramePool) (i j : ℕ)
    → find key pool.cache ≡ some j
    → acquire_frame key pool ≡ ok (i, pool')
    → (j ≡ i) × (pool' ≡ reference key i pool)
unfolding acquire_frame
acquire_frame-found key pool pool' i j e done =
    let ((k, p), ec, er) = >>=-eq-ok (check_frame key j pool) _ (rw e at done) in
    let (a, b) = check_frame-eq-ok key j k pool p ec in
    let (at, after) = ok_pair er in
    (
      a ∙ at,
      sym after
          ∙ ap (λ n. reference key n p) (sym a)
          ∙ ap (reference key j) (sym b)
          ∙ ap (λ n. reference key n pool) (a ∙ at),
    )

-- A page that was acquired at a frame without references is locked.
acquire_frame-IsLocked :
    (key : PageId) (pool pool' : FramePool) (i : ℕ)
    → pool.cache.cur_iter < pool.cache.capacity
    → (pool.frames i).ref_count ≡ 0
    → acquire_frame key pool ≡ ok (i, pool')
    → IsLocked i pool'.cache
unfolding find
acquire_frame-IsLocked key pool pool' i hand unused done =
    elim (Option-cases (find key pool.cache)) [
      | inl absent ↦
          let (j, c, ep, _, t) = find-put key pool.cache hand absent in
          let (inside, cap, hand', bit, keys) = t in
          let (same, after) = ok_pair (sym (acquire_frame-put key pool j c absent ep) ∙ done) in
          rw (sym after, sym same)
            (reference-IsLocked key j (loaded key j c pool) (omega (arith, inside, cap))
              (omega (arith, hand', cap)) (inl bit))
      | inr (j, found) ↦
          let (same, after) = acquire_frame-found key pool pool' i j found done in
          let (inside, key_eq) = find_from-some pool.cache.capacity 0 key pool.cache j found in
          let key_at : page_id_eq (pool.cache.keys i) key ≡ true =
            ap (λ n. page_id_eq (pool.cache.keys n) key) (sym same) ∙ key_eq in
          rw after (
            reference-IsLocked key i pool (omega (arith, inside, same)) hand (inr (unused, key_at)))
    ]

-- A dump leaves the frames.
dump_frame-frames :
    (frame : PoolFrame) (pool : FramePool) → (dump_frame frame pool).frames ≡ pool.frames
unfolding dump_frame
dump_frame-frames frame pool = elim (Option-cases frame.file) [
  | inl absent ↦ rw absent refl
  | inr (fd, there) ↦ rw there refl
]

-- Where the hand of the cache is below its capacity, and a page is acquired at a frame that had no
-- references, acquiring a second page that is not in the cache, while the bit of some frame is not
-- set, returns another frame, and the frame of the first page is unchanged, its bytes and its
-- references.
pub acquire_frame-kept :
    (key key' : PageId) (pool pool' : FramePool) (i j : ℕ)
    → pool.cache.cur_iter < pool.cache.capacity
    → (pool.frames i).ref_count ≡ 0
    → acquire_frame key pool ≡ ok (i, pool')
    → find key' pool'.cache ≡ none
    → j < pool'.cache.capacity
    → pool'.cache.clock j ≢ 1
    → (i' : ℕ) × (pool'' : FramePool) × (acquire_frame key' pool' ≡ ok (i', pool''))
      × (i' ≢ i)
      × (pool''.frames i ≡ pool'.frames i)
unfolding reference
acquire_frame-kept key key' pool pool' i j hand unused done absent inside clear =
    let locked = acquire_frame-IsLocked key pool pool' i hand unused done in
    let (i', d, ep, unlocked, t) = put-unlocked key' pool'.cache locked.hand j inside clear in
    let ne : i' ≢ i = λ e. unlocked (ap pool'.cache.clock e ∙ locked.bit) in
    let other : i == i' ≡ false = ground (arith, ne) in
    (
      i',
      reference key' i' (loaded key' i' d pool'),
      acquire_frame-put key' pool' i' d absent ep,
      ne,
      rw other (ap (λ f. f i) (dump_frame-frames (pool'.frames i') pool')),
    )
