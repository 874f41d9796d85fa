-- ===== src/BTree/Node.antt =====
-- lib/sql/btree_page.h: the slots that leaf and internal pages of the index share.
-- A page holds its size and an array of slots of a key and a value. Slot `i` lies within the page
-- exactly for `i < max_keys`, where `max_keys` is `calculateMaxKeysSize`; an access past it is a
-- fault. A slot's key is the row that `Marshal` reads back from its bytes.
pub mod Keys
pub mod Entries
pub mod Search
pub mod Order
use relvec_db.Common.{
  ℕ, zero, suc, ◌+◌, ◌-◌, ◌%◌, ◌^◌, Bool, List, ltb, leb, length, ◌==◌, if◌then◌else◌,
}
use relvec_db.Comparator.{less, equal, greater, compare_rows}
use relvec_db.Common.Outcome.{Outcome, ok, fail, runtime_error, out_of_range, ◌>>=◌, ◌>>◌, guard}
use relvec_db.Row.{Row, Schema}
use relvec_db.Marshal.{get_fixed_row_space, serialize_row, deserialize_row}

pub record Entry (V : Type 0) : Type 0 where
  pub key : Row
  pub value : V

pub record Node (V : Type 0) : Type 0 where
  pub key_schema : Schema
  pub max_keys : ℕ
  pub size : ℕ
  pub slots : ℕ → Entry V

-- The row that a slot gives back after `serializeRow` wrote a key to it. Bytes past the key's part of
-- the slot, which are those of a value or of the next slot, are a fault.
unfoldable pub stored_key : Schema → Row → Outcome Row
unfolding get_fixed_row_space serialize_row deserialize_row
stored_key schema key = do
  bytes ← serialize_row schema key
  key_size ← get_fixed_row_space schema
  guard (leb (length bytes) key_size) out_of_range
  deserialize_row schema bytes

module _ {V : Type 0} where
  -- The array with slot `i` written.
  abbrev pub update : (ℕ → Entry V) → ℕ → Entry V → ℕ → Entry V
  update f i e j = if j == i then e else f j

  -- `getKey`
  unfoldable pub get_key : Node V → ℕ → Outcome Row
  get_key p i = do guard (ltb i p.max_keys) out_of_range; ok ((p.slots i).key)

  -- `getValue`
  unfoldable pub get_value : Node V → ℕ → Outcome V
  get_value p i = do guard (ltb i p.max_keys) out_of_range; ok ((p.slots i).value)

  -- `setKey` of a key that `getKey` has read from a page of the same schema, as the loops that move slots
  -- call it. Such a key fits the schema, so it is written and read back as it is (Node/Keys).
  unfoldable pub put_key : ℕ → Row → Node V → Outcome (Node V)
  put_key i k p = do
    guard (ltb i p.max_keys) out_of_range
    ok (record p { slots = update p.slots i (record { key = k; value = (p.slots i).value }) })

  -- `setKey`
  unfoldable pub set_key : ℕ → Row → Node V → Outcome (Node V)
  unfolding stored_key put_key
  set_key i k p = do
    guard (ltb i p.max_keys) out_of_range
    k' ← stored_key p.key_schema k
    put_key i k' p

  -- `setValue`
  unfoldable pub set_value : ℕ → V → Node V → Outcome (Node V)
  set_value i v p = do
    guard (ltb i p.max_keys) out_of_range
    ok (record p { slots = update p.slots i (record { key = (p.slots i).key; value = v }) })

  -- `increaseSize`: the size is a `uint32_t`, and `increaseSize(-1)` adds 2 ^ 32 - 1.
  unfoldable pub increase_size : ℕ → Node V → Node V
  increase_size n p = record p { size = (p.size + n) % 2 ^ 32 }

  -- `setKey(i, p.getKey(j)); setValue(i, p.getValue(j));`
  unfoldable pub copy_slot : ℕ → ℕ → Node V → Outcome (Node V)
  unfolding get_key get_value put_key set_value
  copy_slot i j p = do k ← get_key p j; p' ← put_key i k p; v ← get_value p' j; set_value i v p'

  -- `for (i = index + n; i > index; --i)` of `insertEntry`: slots move up by one.
  unfoldable pub shift_up : ℕ → ℕ → Node V → Outcome (Node V)
  unfolding copy_slot
  shift_up zero index p = ok p
  shift_up (suc n) index p = do p' ← copy_slot (index + suc n) (index + n) p; shift_up n index p'

  -- `for (i = index; n rounds; ++i)` of `remove`: slot `i + 1` moves down to `i`.
  unfoldable pub shift_down : ℕ → ℕ → Node V → Outcome (Node V)
  unfolding copy_slot
  shift_down zero i p = ok p
  shift_down (suc n) i p = do p' ← copy_slot i (i + 1) p; shift_down n (i + 1) p'

  -- `insertEntry` behind its guard: the size grows, the slots from `index` on move up, and the new
  -- entry is written.
  unfoldable pub insert_at : ℕ → Row → V → Node V → Outcome (Node V)
  unfolding increase_size shift_up set_value set_key
  insert_at index key value p = do
    let grown = increase_size 1 p
    moved ← shift_up (grown.size - 1 - index) index grown
    valued ← set_value index value moved
    set_key index key valued

  -- `for (i = n - 1; i >= 0; --i)` of `split`: slot `i` moves to `i + m`.
  unfoldable pub move_up : ℕ → ℕ → Node V → Outcome (Node V)
  unfolding copy_slot
  move_up zero m p = ok p
  move_up (suc n) m p = do p' ← copy_slot (n + m) n p; move_up n m p'

  -- Slots `i`, `i + 1`, … of `src`, `n` of them, to `j`, `j + 1`, … of `dst`.
  unfoldable pub copy_slots : ℕ → ℕ → ℕ → Node V → Node V → Outcome (Node V)
  unfolding get_key get_value put_key set_value
  copy_slots zero i j src dst = ok dst
  copy_slots (suc n) i j src dst = do
    k ← get_key src i
    dst' ← put_key j k dst
    v ← get_value src i
    dst'' ← set_value j v dst'
    copy_slots n (i + 1) (j + 1) src dst''

  -- The loop of `lowerBound`, with `n` slots left from `i` on. It ends at `getSize()`.
  unfoldable pub lower_bound_from : ℕ → ℕ → Row → Node V → Outcome ℕ
  unfolding get_key
  lower_bound_from zero i key p = ok p.size
  lower_bound_from (suc n) i key p = do
    k ← get_key p i
    c ← compare_rows k key
    let rest = lower_bound_from n (i + 1) key p
    elim c [ equal ↦ ok i | less ↦ rest | greater ↦ ok i ]

  -- The loop of `checkCorrectness`: slots `i` and `i + 1` in order, for `n` values of `i`.
  unfoldable pub check_from : ℕ → ℕ → Node V → Outcome (Unit {0})
  unfolding get_key
  check_from zero i p = ok tt
  check_from (suc n) i p = do
    k ← get_key p i
    k' ← get_key p (i + 1)
    c ← compare_rows k k'
    let rest = check_from n (i + 1) p
    elim c [ less ↦ rest | equal ↦ fail runtime_error | greater ↦ fail runtime_error ]
