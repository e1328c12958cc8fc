-- ===== src/Memory/Pool.antt =====
-- `MemoryPool` of sw/itc-common/inc/itcMemoryManager.h: three queues of free slots that stand in the
-- memory they manage. `deallocate` is void but returns values, which the model keeps.
pub mod Layout
pub mod Stocked
pub mod Handing
pub mod Making
pub mod Outside
use itc_platform.Common.{
  ℕ, zero, suc, ◌+◌, ◌-◌, ◌*◌, ◌%◌, ◌^◌, true, Option, none, some, List, [], ◌∷◌, ltb, leb, ◌==◌,
  ◌||◌, if◌then◌else◌, bit_and,
}
use itc_platform.Common.Outcome.{Outcome, done, waits, fault, ◌>>=◌}
use itc_platform.Queue
use itc_platform.Queue.{Config, Queue, config, empty_queue}

-- `ROUND_UP_TO_64_BYTES` on a size_t.
abbrev pub round_up_to_64_bytes : ℕ → ℕ
round_up_to_64_bytes x = bit_and ((x + 63) % 2 ^ 64) (2 ^ 64 - 1 - 63)

abbrev pub memory_pool_64_slot_size : ℕ
memory_pool_64_slot_size = 64

abbrev pub memory_pool_256_slot_size : ℕ
memory_pool_256_slot_size = 256

abbrev pub memory_pool_512_slot_size : ℕ
memory_pool_512_slot_size = 512

abbrev pub memory_pool_64_slots : ℕ
memory_pool_64_slots = 51

abbrev pub memory_pool_256_slots : ℕ
memory_pool_256_slots = 16

abbrev pub memory_pool_512_slots : ℕ
memory_pool_512_slots = 16

abbrev pub memory_pool_64_metadata_size : ℕ
memory_pool_64_metadata_size = round_up_to_64_bytes (4 * memory_pool_64_slots + 128) % 2 ^ 32

abbrev pub memory_pool_256_metadata_size : ℕ
memory_pool_256_metadata_size = (4 * memory_pool_256_slots + 128) % 2 ^ 32

abbrev pub memory_pool_512_metadata_size : ℕ
memory_pool_512_metadata_size = (4 * memory_pool_512_slots + 128) % 2 ^ 32

abbrev pub memory_pool_unlimited_metadata_size : ℕ
memory_pool_unlimited_metadata_size = round_up_to_64_bytes 4 % 2 ^ 32

abbrev pub memory_pool_metadata_size : ℕ
memory_pool_metadata_size =
    memory_pool_64_metadata_size + memory_pool_256_metadata_size + memory_pool_512_metadata_size
    + memory_pool_unlimited_metadata_size

abbrev pub memory_pool_64_total_size : ℕ
memory_pool_64_total_size = memory_pool_64_slots * memory_pool_64_slot_size

abbrev pub memory_pool_256_total_size : ℕ
memory_pool_256_total_size = memory_pool_256_slots * memory_pool_256_slot_size

abbrev pub memory_pool_512_total_size : ℕ
memory_pool_512_total_size = memory_pool_512_slots * memory_pool_512_slot_size

abbrev pub memory_pool_total_size : ℕ
memory_pool_total_size =
    memory_pool_metadata_size + memory_pool_64_total_size + memory_pool_256_total_size
    + memory_pool_512_total_size

abbrev pub memory_pool_64_start_offset : ℕ
memory_pool_64_start_offset = memory_pool_metadata_size

abbrev pub memory_pool_256_start_offset : ℕ
memory_pool_256_start_offset = memory_pool_64_start_offset + memory_pool_64_total_size

abbrev pub memory_pool_512_start_offset : ℕ
memory_pool_512_start_offset = memory_pool_256_start_offset + memory_pool_256_total_size

-- `MemoryPool64Queue`, `MemoryPool256Queue` and `MemoryPool512Queue`: NIL is -1 as an int32_t, of which
-- 16 stand in a cache line.
pub pool_64_config : Config
unfolding config
pool_64_config = config memory_pool_64_slots (2 ^ 32 - 1) 16 true

pub pool_256_config : Config
unfolding config
pool_256_config = config memory_pool_256_slots (2 ^ 32 - 1) 16 true

pub pool_512_config : Config
unfolding config
pool_512_config = config memory_pool_512_slots (2 ^ 32 - 1) 16 true

-- `sizeof` a queue: a cache line for each counter, and the cells.
abbrev pub queue_bytes : Config → ℕ
queue_bytes c = 128 + 4 * c.size

-- The queues with the addresses where they stand, and the lock of the unlimited pool.
pub record Queues : Type 0 where
  pub pool_64 : Queue
  pub pool_256_at : ℕ
  pub pool_256 : Queue
  pub pool_512_at : ℕ
  pub pool_512 : Queue
  pub pool_unlimited : ℕ

-- The pointers to the queues are set together: `none` is where they are nullptr. Nothing sets `m_mode`.
pub record MemoryPool : Type 0 where
  pub mode : ℕ
  pub base_addr : ℕ
  pub queues : Option Queues

-- The pushes of the initialisation, from the slot `i` on.
unfoldable pub push_slots : Config → (start slot_size rounds i : ℕ) → Queue → Outcome Queue
push_slots c start slot_size zero i q = done q
push_slots c start slot_size (suc rounds) i q =
    elim (Queue.push c ((start + i * slot_size) % 2 ^ 32) q) [
      | none ↦ waits
      | some q' ↦ push_slots c start slot_size rounds (i + 1) q'
    ]

-- The constructor; `mode` is what stands in the memory of `m_mode`. A pointer to a queue moves by whole queues, so that the next queue stands at a
-- multiple of its size; what is put past the `size` bytes of the memory is a fault.
unfoldable pub memory_pool : (mode base_addr size : ℕ) → Outcome MemoryPool
memory_pool mode base_addr size =
    let at_256 = memory_pool_64_metadata_size * queue_bytes pool_64_config in
    let at_512 = at_256 + memory_pool_256_metadata_size * queue_bytes pool_256_config in
    let at_unlimited = at_512 + memory_pool_unlimited_metadata_size * queue_bytes pool_512_config in
    if ltb size memory_pool_total_size
    then done (record { mode = mode; base_addr = base_addr; queues = none })
    else if ltb size (at_unlimited + 4)
    then fault
    else (do
      pool_64 ←
          push_slots pool_64_config memory_pool_64_start_offset memory_pool_64_slot_size
            memory_pool_64_slots 0 (empty_queue pool_64_config)
      pool_256 ←
          push_slots pool_256_config memory_pool_256_start_offset memory_pool_256_slot_size
            memory_pool_256_slots 0 (empty_queue pool_256_config)
      pool_512 ←
          push_slots pool_512_config memory_pool_512_start_offset memory_pool_512_slot_size
            memory_pool_512_slots 0 (empty_queue pool_512_config)
      done (record {
        mode = mode;
        base_addr = base_addr;
        queues = some (record {
          pool_64 = pool_64;
          pool_256_at = base_addr + at_256;
          pool_256 = pool_256;
          pool_512_at = base_addr + at_512;
          pool_512 = pool_512;
          pool_unlimited = base_addr + at_unlimited;
        });
      }))

-- A slot popped from a queue, with the address that is made of it.
unfoldable pub pop_slot : Config → (base_addr start slot_size : ℕ) → Queue → Outcome (ℕ × Queue)
pop_slot c base_addr start slot_size q = elim (Queue.pop c q) [
  | none ↦ waits
  | some (index, q') ↦ done (base_addr + start + index * slot_size % 2 ^ 32, q')
]

-- `allocate` once the queues are there.
unfoldable pub allocate_slot : (base_addr size : ℕ) → Queues → Outcome (ℕ × Queues)
allocate_slot base_addr size qs =
    if leb size memory_pool_64_slot_size
    then (do
      (addr, q) ←
          pop_slot pool_64_config base_addr memory_pool_64_start_offset memory_pool_64_slot_size
            qs.pool_64
      done (addr, record qs { pool_64 = q }))
    else if leb size memory_pool_256_slot_size
    then (do
      (addr, q) ←
          pop_slot pool_256_config base_addr memory_pool_256_start_offset memory_pool_256_slot_size
            qs.pool_256
      done (addr, record qs { pool_256 = q }))
    else if leb size memory_pool_512_slot_size
    then (do
      (addr, q) ←
          pop_slot pool_512_config base_addr memory_pool_512_start_offset memory_pool_512_slot_size
            qs.pool_512
      done (addr, record qs { pool_512 = q }))
    else done (0, qs)

-- `MemoryPool::allocate`. A size above all the slots reads none of the queues.
unfoldable pub allocate : ℕ → MemoryPool → Outcome (ℕ × MemoryPool)
allocate size pool = elim pool.queues [
  | none ↦ if leb size memory_pool_512_slot_size then fault else done (0, pool)
  | some qs ↦ do
    (addr, qs') ← allocate_slot pool.base_addr size qs
    done (addr, record pool { queues = some qs' })
]

-- `MemoryPool::deallocate`. In the modes of shared memory its branches are those of `allocate`.
unfoldable pub deallocate : (new_bytes : ℕ → ℕ) → ℕ → MemoryPool → Outcome (ℕ × MemoryPool)
deallocate new_bytes size pool =
    if pool.mode == 0
    then done (new_bytes size, pool)
    else if (pool.mode == 1) || (pool.mode == 2) || (pool.mode == 3)
    then allocate size pool
    else done (0, pool)
