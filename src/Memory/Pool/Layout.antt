-- ===== src/Memory/Pool/Layout.antt =====
-- Where the queues and the slots of `MemoryPool` (sw/itc-common/inc/itcMemoryManager.h) are meant to
-- stand in its four pages.
use itc_platform.Common.{ℕ, ◌+◌, ◌-◌, ◌*◌, ◌^◌, ◌≤◌, ◌<◌, ◌≡◌, refl, arith}
use itc_platform.Queue.{round_up_to_power_of_2, index_shuffle_bits, cache_line_index_bits}
use itc_platform.Queue.Slots.{IsConfig}
use itc_platform.Queue.Rounding.Valid.{config-IsConfig}
use itc_platform.Memory.Pool.{
  pool_64_config, pool_256_config, pool_512_config, queue_bytes, memory_pool_64_metadata_size,
  memory_pool_256_metadata_size, memory_pool_512_metadata_size, memory_pool_metadata_size,
  memory_pool_64_start_offset, memory_pool_256_start_offset, memory_pool_512_start_offset,
  memory_pool_64_slots, memory_pool_256_slots, memory_pool_512_slots, memory_pool_64_slot_size,
  memory_pool_256_slot_size, memory_pool_512_slot_size, memory_pool_total_size,
}

-- 51 slots are kept in a queue of 64 cells.
pub pool_64_config_lem : pool_64_config ≡ record { size = 64; bits = 0; nil = 2 ^ 32 - 1 }
unfolding pool_64_config round_up_to_power_of_2 index_shuffle_bits cache_line_index_bits
pool_64_config_lem = refl

pub pool_256_config_lem : pool_256_config ≡ record { size = 16; bits = 0; nil = 2 ^ 32 - 1 }
unfolding pool_256_config round_up_to_power_of_2 index_shuffle_bits cache_line_index_bits
pool_256_config_lem = refl

pub pool_512_config_lem : pool_512_config ≡ record { size = 16; bits = 0; nil = 2 ^ 32 - 1 }
unfolding pool_512_config round_up_to_power_of_2 index_shuffle_bits cache_line_index_bits
pool_512_config_lem = refl

pub pool_64_config-IsConfig : IsConfig pool_64_config
unfolding pool_64_config
pool_64_config-IsConfig = (config-IsConfig 51 (2 ^ 32 - 1) 16 (omega arith) (omega arith)).0

pub pool_256_config-IsConfig : IsConfig pool_256_config
unfolding pool_256_config
pool_256_config-IsConfig = (config-IsConfig 16 (2 ^ 32 - 1) 16 (omega arith) (omega arith)).0

pub pool_512_config-IsConfig : IsConfig pool_512_config
unfolding pool_512_config
pool_512_config-IsConfig = (config-IsConfig 16 (2 ^ 32 - 1) 16 (omega arith) (omega arith)).0

-- The metadata has room for each queue, rounded up as it is, and the slots follow it without a gap: those
-- of 64 bytes end where those of 256 begin, and the last one of 512 ends with the fourth page.
pub layout_fits :
    (queue_bytes pool_64_config ≤ memory_pool_64_metadata_size)
    × (queue_bytes pool_256_config ≤ memory_pool_256_metadata_size)
    × (queue_bytes pool_512_config ≤ memory_pool_512_metadata_size)
    × (memory_pool_metadata_size ≤ memory_pool_64_start_offset)
    × ((i : ℕ)
        → i < memory_pool_64_slots
        → memory_pool_64_start_offset + i * memory_pool_64_slot_size + memory_pool_64_slot_size
          ≤ memory_pool_256_start_offset)
    × ((i : ℕ)
        → i < memory_pool_256_slots
        → memory_pool_256_start_offset + i * memory_pool_256_slot_size + memory_pool_256_slot_size
          ≤ memory_pool_512_start_offset)
    × ((i : ℕ)
        → i < memory_pool_512_slots
        → memory_pool_512_start_offset + i * memory_pool_512_slot_size + memory_pool_512_slot_size
          ≤ memory_pool_total_size)
    × (memory_pool_total_size ≡ 4 * 4096)
unfolding pool_64_config pool_256_config pool_512_config round_up_to_power_of_2
layout_fits = (
  omega arith,
  omega arith,
  omega arith,
  omega arith,
  λ i h. omega arith,
  λ i h. omega arith,
  λ i h. omega arith,
  refl,
)
