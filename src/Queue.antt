-- ===== src/Queue.antt =====
-- sw/itc-common/inc/itcLockFreeQueue.h: the compile-time helpers of `LockFreeQueue`, and its
-- operations as one thread runs them with no other thread between their atomic accesses. The
-- interleaved accesses of many threads are in Queue/Threads.antt.
pub mod Remap
pub mod Slots
pub mod Fifo
pub mod Window
pub mod Refine
pub mod Ends
pub mod Rounding
pub mod Threads
pub mod Single
use itc_platform.Common.{
  ℕ, zero, suc, ◌+◌, ◌-◌, ◌*◌, ◌/◌, ◌%◌, ◌^◌, Bool, true, false, Option, none, some, ltb, leb, ◌==◌,
  if◌then◌else◌, not, bit_and, bit_or, bit_xor, ℤ, pos, signed32, ltb_ℤ, leb_ℤ, pos_part, dec_lt,
  ℕ_discrete,
}
use itc_platform.Common.Family.{update}

-- `x >> k` and `x << k` on a uint32_t.
abbrev pub shr : ℕ → ℕ → ℕ
shr x k = x / 2 ^ k

abbrev pub shl32 : ℕ → ℕ → ℕ
shl32 x k = x * 2 ^ k % 2 ^ 32

-- `a - b` and `a + 1` on a uint32_t.
abbrev pub sub32 : ℕ → ℕ → ℕ
sub32 a b = (a + 2 ^ 32 - b) % 2 ^ 32

abbrev pub succ32 : ℕ → ℕ
succ32 a = (a + 1) % 2 ^ 32

-- `GetCacheLineIndexBits`.
unfoldable pub cache_line_index_bits : ℕ → ℕ
cache_line_index_bits n =
    if n == 256
    then 8
    else if n == 128
    then 7
    else if n == 64
    then 6
    else if n == 32
    then 5
    else if n == 16
    then 4
    else if n == 8
    then 3
    else if n == 4
    then 2
    else if n == 2
    then 1
    else 0

-- `GetIndexShuffleBits`; `minimize` is MINIMIZE_CONTENTION_VALUE.
unfoldable pub index_shuffle_bits : Bool → ℕ → ℕ → ℕ
index_shuffle_bits false size per_line = 0
index_shuffle_bits true size per_line =
    let bits = cache_line_index_bits per_line in if ltb size (2 ^ (bits * 2)) then 0 else bits

-- `remapIndex`, the case BITS = 0 included.
unfoldable pub remap_index : ℕ → ℕ → ℕ
remap_index zero index = index
remap_index (suc b) index =
    let mix = bit_and (bit_xor index (shr index (suc b))) (2 ^ suc b - 1) in
    bit_xor (bit_xor index mix) (shl32 mix (suc b))

-- `roundUpToPowerOf2(uint32_t)`: `decrement`, five `orEqual`s, `increment`.
abbrev or_equal : ℕ → ℕ → ℕ
or_equal x u = bit_or x (shr x u)

unfoldable pub round_up_to_power_of_2 : ℕ → ℕ
round_up_to_power_of_2 a =
    succ32 (or_equal (or_equal (or_equal (or_equal (or_equal (sub32 a 1) 1) 2) 4) 8) 16)

-- `roundUpToPowerOf2(uint64_t)`, with a sixth `orEqual`.
unfoldable pub round_up_to_power_of_2_wide : ℕ → ℕ
round_up_to_power_of_2_wide a =
    let low = (a + 2 ^ 64 - 1) % 2 ^ 64 in
    let half = or_equal (or_equal (or_equal (or_equal (or_equal low 1) 2) 4) 8) 16 in
    (or_equal half 32 + 1) % 2 ^ 64

-- The template parameters, with `m_size` and `SHUFFLE_BITS` computed from them. Of `T` only the
-- values matter: an element is a number, and `nil` is NIL.
pub record Config : Type 0 where
  pub size : ℕ
  pub bits : ℕ
  pub nil : ℕ

unfoldable pub config : ℕ → ℕ → ℕ → Bool → Config
config size nil per_line minimize =
    let m_size = if minimize then round_up_to_power_of_2 size else size in
    record { size = m_size; bits = index_shuffle_bits minimize m_size per_line; nil = nil }

-- `m_head`, `m_tail` and `m_queue`.
pub record Queue : Type 0 where
  pub head : ℕ
  pub tail : ℕ
  pub cells : ℕ → ℕ

-- The constructor stores NIL in every cell.
unfoldable pub empty_queue : Config → Queue
empty_queue c = record { head = 0; tail = 0; cells = λ _. c.nil }

module _ (c : Config) where
  -- The cell of `map<SHUFFLE_BITS>(m_queue, index % m_size)`.
  unfoldable pub slot : ℕ → ℕ
  slot index = remap_index c.bits (index % c.size)

  -- `doPush` waits until the cell is NIL: `none` is a wait that no other thread ends.
  unfoldable pub do_push : ℕ → ℕ → (ℕ → ℕ) → Option (ℕ → ℕ)
  do_push element head cells =
      if cells (slot head) == c.nil then some (update cells (slot head) element) else none

  -- `doPop` waits until the cell is not NIL, and leaves NIL there.
  unfoldable pub do_pop : ℕ → (ℕ → ℕ) → Option (ℕ × (ℕ → ℕ))
  do_pop tail cells =
      if cells (slot tail) == c.nil
      then none
      else some (cells (slot tail), update cells (slot tail) c.nil)

  unfoldable pub try_push : ℕ → Queue → Option (Bool × Queue)
  try_push element q =
      if leb_ℤ (signed32 c.size) (signed32 (sub32 q.head q.tail))
      then some (false, q)
      else elim (do_push element q.head q.cells) [
        | none ↦ none
        | some cells ↦ some (true, record q { head = succ32 q.head; cells = cells })
      ]

  -- The option of the pair is what goes out through `element`; on failure it is left alone.
  unfoldable pub try_pop : Queue → Option (Option ℕ × Queue)
  try_pop q =
      if leb_ℤ (signed32 (sub32 q.head q.tail)) (pos 0)
      then some (none, q)
      else elim (do_pop q.tail q.cells) [
        | none ↦ none
        | some (element, cells) ↦
            some (some element, record q { tail = succ32 q.tail; cells = cells })
      ]

  unfoldable pub push : ℕ → Queue → Option Queue
  push element q = elim (do_push element q.head q.cells) [
    | none ↦ none
    | some cells ↦ some (record q { head = succ32 q.head; cells = cells })
  ]

  unfoldable pub pop : Queue → Option (ℕ × Queue)
  pop q = elim (do_pop q.tail q.cells) [
    | none ↦ none
    | some (element, cells) ↦ some (element, record q { tail = succ32 q.tail; cells = cells })
  ]

  -- `std::max(static_cast<int32_t>(head - tail), 0)`.
  unfoldable pub size : Queue → ℕ
  size q = pos_part (signed32 (sub32 q.head q.tail))

  unfoldable pub empty : Queue → Bool
  empty q = size q == 0

  -- The int32_t is compared with a uint32_t, and so taken for one again.
  unfoldable pub full : Queue → Bool
  full q = leb (c.size % 2 ^ 32) (size q)

  -- `static_cast<int32_t>(m_size)`, handed out as a uint32_t again.
  unfoldable pub capacity : ℕ
  capacity = c.size % 2 ^ 32

-- `LockFreeQueueBase::swap` exchanges the counters, and not the cells.
unfoldable pub swap : Queue → Queue → Queue × Queue
swap q other = (
  record q { head = other.head; tail = other.tail },
  record other { head = q.head; tail = q.tail },
)

-- `LockFreeQueueBase::operator=`.
unfoldable pub assign_counters : Queue → Queue → Queue
assign_counters q other = record q { head = other.head; tail = other.tail }
