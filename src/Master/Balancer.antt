-- ===== src/Master/Balancer.antt =====
-- master/balancer.cpp: which chunks the bytes of a table go to. A `std::set` is the list of its entries
-- from the last on, an `int` is not below 0. The lock and what is printed are left out, and so are the
-- free positions that a call that throws leaves: none.
pub mod Allocate
use relvec_db.Common.{
  ℕ, zero, suc, ◌+◌, ◌-◌, Bool, true, false, ◌&&◌, ◌||◌, not, List, [], ◌∷◌, ◌++◌, ltb, leb, ◌==◌,
  if◌then◌else◌,
}
use relvec_db.Common.Decimal.{to_string}
use relvec_db.Common.Outcome.{Outcome, ok, fail, runtime_error, ◌>>=◌}
use relvec_db.Row.{bytes_eq}
use relvec_db.Master.Storage.{Text, KvStorage, set}

-- `ChunkInfo`
abbrev pub Chunk : Type 0
Chunk = Text × ℕ

-- `free` bytes of a chunk: an entry of `freePositions_`, or of a partition.
pub record Position : Type 0 where
  pub free : ℕ
  pub chunk : Chunk

unfoldable pub text_lt : Text → Text → Bool
text_lt [] [] = false
text_lt [] (d ∷ t) = true
text_lt (c ∷ s) [] = false
text_lt (c ∷ s) (d ∷ t) = let rest = text_lt s t in ltb c d || c == d && rest

-- `operator<` of the pairs.
unfoldable pub chunk_lt : Chunk → Chunk → Bool
unfolding text_lt
chunk_lt c d = text_lt c.0 d.0 || not (text_lt d.0 c.0) && ltb c.1 d.1

unfoldable pub position_lt : Position → Position → Bool
unfolding chunk_lt
position_lt p q = ltb p.free q.free || p.free == q.free && chunk_lt p.chunk q.chunk

-- `insert` of the set.
unfoldable pub insert : Position → List Position → List Position
unfolding position_lt
insert p [] = p ∷ []
insert p (q ∷ qs) =
    let rest = insert p qs in
    if position_lt q p then p ∷ q ∷ qs else if position_lt p q then q ∷ rest else q ∷ qs

-- The loop of `InsertTable`: the partition of the bytes, and the free positions that are left.
unfoldable pub allocate : List Position → ℕ → Outcome (List Position × List Position)
unfolding insert
allocate [] size = if size == 0 then ok ([], []) else fail runtime_error
allocate (p ∷ ps) size =
    let rest = allocate ps (size - p.free) in
    if size == 0
    then ok ([], p ∷ ps)
    else if leb p.free size
    then (rest >>= λ r. ok (p ∷ r.0, r.1))
    else ok (
      record { free = size; chunk = p.chunk } ∷ [],
      insert (record { free = p.free - size; chunk = p.chunk }) ps,
    )

-- `SerializeValue`
unfoldable pub serialize_value : List Position → Text
serialize_value [] = []
serialize_value (p ∷ ps) =
    p.chunk.0
    ++ (b',' ∷ to_string p.chunk.1)
    ++ (b':' ∷ to_string p.free)
    ++ (b';' ∷ serialize_value ps)

pub record Balancer : Type 0 where
  pub storage : KvStorage
  pub free_positions : List Position

-- `InsertTable`
unfoldable pub insert_table : Text → ℕ → Balancer → Outcome Balancer
unfolding allocate serialize_value
insert_table table size b = do
  r ← allocate b.free_positions size
  storage ← set table (serialize_value r.0) b.storage
  ok (record { storage = storage; free_positions = r.1 })
