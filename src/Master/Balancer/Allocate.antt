-- ===== src/Master/Balancer/Allocate.antt =====
-- master/balancer.cpp, the loop of `InsertTable`: the bytes that it hands out.
use relvec_db.Common.{
  ℕ, ◌+◌, ◌-◌, ◌<◌, ◌≤◌, ◌≡◌, ◌≢◌, refl, Bool, true, false, List, [], ◌∷◌, leb, ◌==◌, arith, All,
  Bool-cases, ◌⊎◌, inl, inr,
}
use mathlib.Core.Path.{ap₂}
use relvec_db.Common.Outcome.{ok, fail, runtime_error}
use relvec_db.Master.Storage.{Text}
use relvec_db.Master.Balancer.{Chunk, Position, text_lt, chunk_lt, position_lt, insert, allocate}

-- The bytes of the entries of chunks that pass a test.
abbrev pub share : Bool → ℕ → ℕ
share false n = 0
share true n = n

unfoldable pub bytes_of : (Chunk → Bool) → List Position → ℕ
bytes_of test [] = 0
bytes_of test (p ∷ ps) = share (test p.chunk) p.free + bytes_of test ps

abbrev pub all_chunks : Chunk → Bool
all_chunks c = true

-- No two entries are of the same chunk.
unfoldable pub Distinct : List Position → Type 0
Distinct [] = Unit {0}
Distinct (p ∷ ps) = All (λ q. p.chunk ≢ q.chunk) ps × Distinct ps

text_lt-total : (s t : Text) → text_lt s t ≡ false → text_lt t s ≡ false → s ≡ t
unfolding text_lt
text_lt-total [] [] e e' = refl
text_lt-total [] (d ∷ t) e e' = cc
text_lt-total (c ∷ s) [] e e' = cc
text_lt-total (c ∷ s) (d ∷ t) e e' =
    let same : c ≡ d = ground (arith, e, e') in
    let rest : text_lt s t ≡ false = ground (arith, e, same) in
    let rest' : text_lt t s ≡ false = ground (arith, e', same) in
    ap₂ ◌∷◌ same (text_lt-total s t rest rest')

chunk_lt-total : (c d : Chunk) → chunk_lt c d ≡ false → chunk_lt d c ≡ false → c ≡ d
unfolding chunk_lt
chunk_lt-total (s, i) (t, j) e e' =
    let l : text_lt s t ≡ false = ground (arith, e) in
    let l' : text_lt t s ≡ false = ground (arith, e') in
    let n : i ≡ j = ground (arith, e, e', l, l') in ap₂ (λ a b. (a, b)) (text_lt-total s t l l') n

-- Entries of different chunks are in order.
position_lt-total :
    (p q : Position) → position_lt p q ≡ false → position_lt q p ≡ false → p.chunk ≡ q.chunk
unfolding position_lt
position_lt-total p q e e' =
    let same : p.free ≡ q.free = ground (arith, e, e') in
    let l : chunk_lt p.chunk q.chunk ≡ false = ground (arith, e, same) in
    let l' : chunk_lt q.chunk p.chunk ≡ false = ground (arith, e', same) in
    chunk_lt-total p.chunk q.chunk l l'

bytes_of-insert :
    (test : Chunk → Bool) (p : Position) (qs : List Position)
    → All (λ q. p.chunk ≢ q.chunk) qs
    → bytes_of test (insert p qs) ≡ share (test p.chunk) p.free + bytes_of test qs
unfolding bytes_of insert
bytes_of-insert test p [] h = refl
bytes_of-insert test p (q ∷ qs) (h, hs) = elim (Bool-cases (position_lt q p)) [
  | inl above ↦ rw above refl
  | inr e ↦ elim (Bool-cases (position_lt p q)) [
    | inl below ↦ rw (e, below) (omega (arith, bytes_of-insert test p qs hs))
    | inr e' ↦ absurd (h (position_lt-total p q e' e))
  ]
]

share_split : (b : Bool) (m n : ℕ) → m ≤ n → share b m + share b (n - m) ≡ share b n
share_split false m n h = refl
share_split true m n h = omega (arith, h)

-- What an allocation comes to.
abbrev pub Handed : List Position → ℕ → Type 0
Handed ps size =
    (part : List Position) × (left : List Position) × (allocate ps size ≡ ok (part, left))
    × (bytes_of all_chunks part ≡ size)
    × ((test : Chunk → Bool) → bytes_of test part + bytes_of test left ≡ bytes_of test ps)

-- For free positions of which no two are of the same chunk, the loop of `InsertTable` throws where
-- fewer bytes are free than the table takes. Otherwise it returns a partition of exactly the bytes
-- of the table, and whichever chunks are chosen, what it takes from them and what it leaves free
-- of them add up to what was free of them.
pub allocate_lem :
    (ps : List Position) (size : ℕ)
    → Distinct ps
    → (size ≤ bytes_of all_chunks ps × Handed ps size)
      ⊎ (bytes_of all_chunks ps < size × (allocate ps size ≡ fail runtime_error))
unfolding allocate bytes_of Distinct
allocate_lem [] size d = elim (Bool-cases (size == 0)) [
  | inl e ↦ inl (ground (arith, e), ([], [], rw e refl, ground (arith, e), λ test. refl))
  | inr e ↦ inr (ground (arith, e), rw e refl)
]
allocate_lem (p ∷ ps) size (d, ds) = elim (Bool-cases (size == 0)) [
  | inl e ↦ inl (ground (arith, e), ([], p ∷ ps, rw e refl, ground (arith, e), λ test. omega arith))
  | inr e ↦ elim (Bool-cases (leb p.free size)) [
    | inl l ↦ elim (allocate_lem ps (size - p.free) ds) [
      | inl (h, (part, left, a, s, k)) ↦ inl (
        ground (arith, l, h),
        (p ∷ part, left, rw (e, l, a) refl, ground (arith, l, s), λ test. omega (arith, k test)),
      )
      | inr (h, a) ↦ inr (ground (arith, l, h), rw (e, l, a) refl)
    ]
    | inr l ↦
        let less : size ≤ p.free = ground (arith, l) in
        inl (
          omega (arith, less),
          (
            record { free = size; chunk = p.chunk } ∷ [],
            insert (record { free = p.free - size; chunk = p.chunk }) ps,
            rw (e, l) refl,
            omega arith,
            λ test. omega (
              arith,
              bytes_of-insert test (record { free = p.free - size; chunk = p.chunk }) ps d,
              share_split (test p.chunk) size p.free less,
            ),
          ),
        )
  ]
]
