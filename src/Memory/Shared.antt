-- ===== src/Memory/Shared.antt =====
-- `SYSVSharedMemory`, `POSIXSharedMemory` and `ThreadSharedMemory` of
-- sw/itc-common/inc/itcMemoryManager.h: their constructors, destructors and `get`. The `append` of the
-- first has no body, the other two have none at all.
pub mod Destroying
use itc_platform.Common.{
  ℕ, ◌-◌, ◌^◌, Bool, false, List, ◌∷◌, ◌==◌, ◌&&◌, ◌||◌, if◌then◌else◌, not, ℤ, pos, negsuc, ltb_ℤ,
  eqb_ℤ,
}
use itc_platform.Memory.{
  hold_mapping, hold_attached, shmdt, ShmName, MemoryCalls, Holding, take_out, close, shm_unlink,
  munmap, unmap, round_up_to_page_sizes,
}

-- The fields of the class with those of `SharedMemoryIf`.
pub record SysvSharedMemory : Type 0 where
  pub size : ℕ
  pub base_ptr : ℕ
  pub shm_id : ℤ

pub record PosixSharedMemory : Type 0 where
  pub size : ℕ
  pub base_ptr : ℕ
  pub shm_name : ShmName
  pub shm_id : ℤ

-- The class has fields of its own with the names of those of `SharedMemoryIf`, which hide them: these
-- are its own, of which only the pointer is ever set, and `hidden_size` is the hidden one.
pub record ThreadSharedMemory : Type 0 where
  pub hidden_size : ℕ
  pub base_ptr : ℕ
  pub size : ℕ

unfoldable pub sysv_shared_memory :
    MemoryCalls → ShmName → ℤ → ℕ → Holding → SysvSharedMemory × Holding
sysv_shared_memory calls name proj_id size h =
    let pages = round_up_to_page_sizes size in
    let key = calls.ftok name proj_id in
    let (id, is_there) = calls.shmget_create key pages in
    if ltb_ℤ key (pos 0)
    then (record { size = pages; base_ptr = 0; shm_id = negsuc 0 }, h)
    else if ltb_ℤ id (pos 0)
    then (record { size = pages; base_ptr = 0; shm_id = id }, h)
    else let base = calls.shmat id in
      (
        record { size = pages; base_ptr = base; shm_id = id },
        hold_attached base (record h { segments = id ∷ h.segments }),
      )

unfoldable pub destroy_sysv : SysvSharedMemory → Holding → Holding
destroy_sysv m h =
    let detached = if m.base_ptr == 0 then h else shmdt m.base_ptr h in
    if ltb_ℤ (pos 0) m.shm_id
    then record detached { segments = take_out (eqb_ℤ m.shm_id) detached.segments }
    else detached

-- The descriptor is kept in a local variable `shmId`, and the field stays -1.
abbrev pub posix_without : ShmName → ℕ → PosixSharedMemory
posix_without name pages = record { size = pages; base_ptr = 0; shm_name = name; shm_id = negsuc 0 }

unfoldable pub posix_shared_memory :
    MemoryCalls → ShmName → ℕ → Holding → PosixSharedMemory × Holding
posix_shared_memory calls name size h =
    let pages = round_up_to_page_sizes size in
    let (fd, is_there) = calls.shm_create name in
    let opened =
      if ltb_ℤ fd (pos 0) then h else record h { fds = fd ∷ h.fds; objects = name ∷ h.objects } in
    if ltb_ℤ fd (pos 0) && not is_there
    then (posix_without name pages, h)
    else if ltb_ℤ (calls.fchmod fd) (pos 0)
    then (posix_without name pages, shm_unlink name (close fd opened))
    else if ltb_ℤ (calls.ftruncate fd pages) (pos 0)
    then (posix_without name pages, shm_unlink name (close fd opened))
    else let base = calls.mmap_shared pages fd 0 in
      (record (posix_without name pages) { base_ptr = base }, hold_mapping base pages opened)

unfoldable pub destroy_posix : PosixSharedMemory → Holding → Holding
destroy_posix m h =
    let unmapped = unmap m.base_ptr m.size h in
    shm_unlink m.shm_name (if ltb_ℤ (pos 0) m.shm_id then close m.shm_id unmapped else unmapped)

-- The size that `mmap` is given is the hidden field's.
unfoldable pub thread_shared_memory : MemoryCalls → ℕ → Holding → ThreadSharedMemory × Holding
thread_shared_memory calls size h =
    let own_size : ℕ = 0 in
    let base = calls.mmap_private own_size in
    (
      record { hidden_size = round_up_to_page_sizes size; base_ptr = base; size = own_size },
      hold_mapping base own_size h,
    )

unfoldable pub destroy_thread : ThreadSharedMemory → Holding → Holding
destroy_thread m h = unmap m.base_ptr m.size h
