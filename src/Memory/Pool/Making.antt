-- ===== src/Memory/Pool/Making.antt =====
-- What the constructor of `MemoryPool` (sw/itc-common/inc/itcMemoryManager.h) makes of its memory.
use itc_platform.Common.{ℕ, ◌+◌, ◌-◌, ◌*◌, ◌^◌, ◌≤◌, ◌<◌, ◌≡◌, ap, ◌∙◌, arith, some, none}
use itc_platform.Common.Outcome.{done, fault}
use itc_platform.Queue.{Config, Queue, empty_queue}
use itc_platform.Queue.Slots.{IsConfig}
use itc_platform.Queue.Window.{empty_queue-IsQueue}
use itc_platform.Memory.Pool.{
  Queues, push_slots, memory_pool, pool_64_config, pool_256_config, pool_512_config,
}
use itc_platform.Memory.Pool.Layout.{
  pool_64_config_lem, pool_256_config_lem, pool_512_config_lem, pool_64_config-IsConfig,
  pool_256_config-IsConfig, pool_512_config-IsConfig,
}
use itc_platform.Memory.Pool.Stocked.{offsets, push_slots_lem}
use itc_platform.Memory.Pool.Handing.{HasLeft, IsStock}

fresh-HasLeft :
    (c : Config) (start slot_size slots : ℕ)
    → IsConfig c
    → slots ≤ c.size
    → ((k : ℕ) → k < slots → start + k * slot_size < 2 ^ 32 - 1)
    → c.nil ≡ 2 ^ 32 - 1
    → (q : Queue) × (push_slots c start slot_size slots 0 (empty_queue c) ≡ done q)
      × HasLeft c start slot_size slots 0 q
unfolding empty_queue
fresh-HasLeft c start slot_size slots v room fits nil =
    let (q, run, all, h) =
      push_slots_lem v start slot_size slots slots 0 (empty_queue c) (empty_queue-IsQueue v)
        (omega (arith, room)) (omega arith) (λ k lt. omega (arith, fits k lt, nil))
        (omega (arith, nil)) in
    (
      q,
      run,
      record {
        queue = h;
        rest =
            all ∙ ap (λ n. offsets start slot_size n 0) {x = slots} {y = slots - 0} (omega arith);
        bounded = omega arith;
      },
    )

abbrev placed : ℕ → Queue → Queue → Queue → Queues
placed base q64 q256 q512 = record {
  pool_64 = q64;
  pool_256_at = base + 384 * 384;
  pool_256 = q256;
  pool_512_at = base + (384 * 384 + 192 * 192);
  pool_512 = q512;
  pool_unlimited = base + (384 * 384 + 192 * 192 + 64 * 192);
}

-- A pool of less than four pages gets no queues. From there to 196611 bytes the constructor writes
-- behind its memory, a fault. From 196612 bytes on it ends, and its three queues hold all their slots,
-- in the order of their offsets.
pub memory_pool_lem :
    (mode base size : ℕ)
    → (size < 4 * 4096
        → memory_pool mode base size
          ≡ done (record { mode = mode; base_addr = base; queues = none }))
      × (4 * 4096 ≤ size → size < 196612 → memory_pool mode base size ≡ fault)
      × (196612 ≤ size
          → (qs : Queues) × (memory_pool mode base size
              ≡ done (record { mode = mode; base_addr = base; queues = some qs }))
            × IsStock (record { given_64 = 0; given_256 = 0; given_512 = 0 }) qs)
unfolding memory_pool
memory_pool_lem mode base size =
    let size_64 : pool_64_config.size ≡ 64 = ap (λ (c : Config). c.size) pool_64_config_lem in
    let size_256 : pool_256_config.size ≡ 16 = ap (λ (c : Config). c.size) pool_256_config_lem in
    let size_512 : pool_512_config.size ≡ 16 = ap (λ (c : Config). c.size) pool_512_config_lem in
    let (q64, run64, left64) =
      fresh-HasLeft pool_64_config 832 64 51 pool_64_config-IsConfig (omega (arith, size_64))
        (λ k lt. omega arith) (ap (λ (c : Config). c.nil) pool_64_config_lem) in
    let (q256, run256, left256) =
      fresh-HasLeft pool_256_config 4096 256 16 pool_256_config-IsConfig (omega (arith, size_256))
        (λ k lt. omega arith) (ap (λ (c : Config). c.nil) pool_256_config_lem) in
    let (q512, run512, left512) =
      fresh-HasLeft pool_512_config 8192 512 16 pool_512_config-IsConfig (omega (arith, size_512))
        (λ k lt. omega arith) (ap (λ (c : Config). c.nil) pool_512_config_lem) in
    (
      λ small. ground arith,
      λ large short. ground arith,
      λ enough. (
        placed base q64 q256 q512,
        ground arith,
        record { left_64 = left64; left_256 = left256; left_512 = left512 },
      ),
    )
