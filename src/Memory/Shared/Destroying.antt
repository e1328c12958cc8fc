-- ===== src/Memory/Shared/Destroying.antt =====
-- What the classes of shared memory of sw/itc-common/inc/itcMemoryManager.h leave behind once they are
-- destroyed.
use itc_platform.Common.{ℕ, ◌≡◌, ◌≢◌, arith, ◌⊎◌, ◌∷◌, ◌==◌, ◌&&◌, ℤ, pos, eqb_ℤ}
use itc_platform.Memory.{
  map_failed, hold_mapping, hold_attached, ShmName, MemoryCalls, Holding, take_out, unmap,
  round_up_to_page_sizes,
}
use itc_platform.Memory.Held.{take_out-first, eqb_ℤ_refl}
use itc_platform.Memory.Shared.{
  sysv_shared_memory, destroy_sysv, thread_shared_memory, destroy_thread,
}

-- A `SYSVSharedMemory` that has been made and destroyed leaves what the process holds as it was, also
-- where a call of its constructor failed, but for one case: a segment with the id 0 stays. `shmat` never
-- answers nullptr, and nothing is attached at the address of its failure.
pub destroy_sysv-sysv_shared_memory :
    (calls : MemoryCalls) (name : ShmName) (proj_id : ℤ) (size : ℕ) (h : Holding)
    → ((id : ℤ) → calls.shmat id ≢ 0)
    → take_out (λ addr. map_failed == addr) h.attached ≡ h.attached
    → let (m, made) = sysv_shared_memory calls name proj_id size h in
      ((m.shm_id ≢ pos 0) × (destroy_sysv m made ≡ h))
      ⊎ ((m.shm_id ≡ pos 0) × (destroy_sysv m made ≡ record h { segments = pos 0 ∷ h.segments }))
unfolding sysv_shared_memory destroy_sysv hold_attached
destroy_sysv-sysv_shared_memory calls name proj_id size h mapped free =
    let pages = round_up_to_page_sizes size in
    let id = (calls.shmget_create (calls.ftok name proj_id) pages).0 in
    ground (
      arith,
      mapped id,
      free,
      take_out-first (eqb_ℤ id) id h.segments (eqb_ℤ_refl id),
      take_out-first (λ addr. calls.shmat id == addr) (calls.shmat id) h.attached (ground arith),
    )

-- A `ThreadSharedMemory` never has memory, whatever its size: `mmap` refuses the length 0. Its pointer
-- is the address of the failure, and it leaves what is held as it was.
pub thread_shared_memory_lem :
    (calls : MemoryCalls) (size : ℕ) (h : Holding)
    → calls.mmap_private 0 ≡ map_failed
    → take_out (λ m. let (addr, k) = m in (map_failed == addr) && (0 == k)) h.mappings ≡ h.mappings
    → let (m, made) = thread_shared_memory calls size h in
      (m.base_ptr ≡ map_failed) × (made ≡ h) × (destroy_thread m made ≡ h)
unfolding thread_shared_memory destroy_thread hold_mapping unmap
thread_shared_memory_lem calls size h refused free = ground (arith, refused, free)
