-- ===== src/Examples/SharedMemories.antt =====
-- Shared memory and the pool of slots (sw/itc-common/inc/itcMemoryManager.h) in one process.
use itc_platform.Common.{
  ◌+◌, ◌-◌, ◌*◌, ◌^◌, ◌≤◌, ◌<◌, ◌≡◌, ◌≢◌, refl, arith, ◌⊎◌, true, false, [], ◌∷◌, length, pos,
  negsuc, some, none, ℕ, List,
}
use itc_platform.Common.Outcome.{done, fault}
use itc_platform.Memory.{map_failed, MemoryCalls, Holding, take_out}
use itc_platform.Memory.Shared.{
  sysv_shared_memory, destroy_sysv, thread_shared_memory, destroy_thread,
}
use itc_platform.Memory.Shared.Destroying.{
  destroy_sysv-sysv_shared_memory, thread_shared_memory_lem,
}
use itc_platform.Memory.Pool.{MemoryPool, Queues, memory_pool}
use itc_platform.Memory.Pool.Making.{memory_pool_lem}
use itc_platform.Memory.Pool.Handing.{IsStock}
use itc_platform.Memory.Pool.Outside.{allocate_all, All, Apart, memory_pool-allocate}

-- An object of the name is there already, and a descriptor that is negative is refused.
abbrev taken_name : MemoryCalls
taken_name = record {
  new_bytes = λ size. 0x5000;
  mmap_private = λ pages. 2 ^ 64 - 1;
  mmap_shared = λ pages fd offset. 0x9000;
  shm_create = λ name. (negsuc 0, true);
  shm_open = λ name. pos 6;
  fchmod = λ fd. fd;
  ftruncate = λ fd pages. pos 0;
  ftok = λ name id. pos 77;
  shmget_create = λ key pages. (pos 0, false);
  shmget = λ key pages. pos 4;
  shmat = λ id. 0xa000;
}

abbrev nothing : Holding
nothing = record {
  blocks = [];
  mappings = [];
  fds = [];
  objects = [];
  segments = [];
  attached = [];
}

destroy_sysv-sysv_shared_memory_example :
    let (m, made) = sysv_shared_memory taken_name (47 ∷ []) (pos 1) 5000 nothing in
    ((m.shm_id ≢ pos 0) × (destroy_sysv m made ≡ nothing))
    ⊎ ((m.shm_id ≡ pos 0) × (destroy_sysv m made ≡ record nothing { segments = pos 0 ∷ [] }))
unfolding take_out
destroy_sysv-sysv_shared_memory_example =
    destroy_sysv-sysv_shared_memory taken_name (47 ∷ []) (pos 1) 5000 nothing
      (λ id e. absurd (omega (arith, e))) refl

thread_shared_memory_example :
    let (m, made) = thread_shared_memory taken_name 5000 nothing in
    (m.base_ptr ≡ map_failed) × (made ≡ nothing) × (destroy_thread m made ≡ nothing)
unfolding take_out
thread_shared_memory_example = thread_shared_memory_lem taken_name 5000 nothing refl refl

memory_pool_example :
    (200000 < 4 * 4096
      → memory_pool 7 0x10000 200000
        ≡ done (record { mode = 7; base_addr = 0x10000; queues = none }))
    × (4 * 4096 ≤ 200000 → 200000 < 196612 → memory_pool 7 0x10000 200000 ≡ fault)
    × (196612 ≤ 200000
        → (qs : Queues) × (memory_pool 7 0x10000 200000
            ≡ done (record { mode = 7; base_addr = 0x10000; queues = some qs }))
          × IsStock (record { given_64 = 0; given_256 = 0; given_512 = 0 }) qs)
memory_pool_example = memory_pool_lem 7 0x10000 200000

memory_pool-allocate_example :
    (pool : MemoryPool) × (addrs : List ℕ) × (memory_pool 7 0x10000 200000 ≡ done pool)
    × (allocate_all (64 ∷ 65 ∷ 500 ∷ 1 ∷ []) pool ≡ done addrs)
    × (length addrs ≡ 4)
    × Apart addrs
    × All (λ addr. 0x10000 + 4 * 4096 ≤ addr) addrs
memory_pool-allocate_example =
    memory_pool-allocate 7 0x10000 200000 (64 ∷ 65 ∷ 500 ∷ 1 ∷ []) (omega arith)
      (omega arith, (omega arith, (omega arith, (omega arith, tt)))) (omega arith)
