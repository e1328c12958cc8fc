-- ===== src/Memory.antt =====
-- sw/itc-common/inc/itcMemoryManager.h: `MemoryAllocator`, with what the process holds of the system.
-- The answers of the system calls come in as a record.
pub mod Held
pub mod Paging
pub mod Pool
pub mod Shared
use itc_platform.Common.{
  ℕ, zero, suc, ◌+◌, ◌-◌, ◌%◌, ◌^◌, Bool, true, false, List, [], ◌∷◌, ◌==◌, ◌&&◌, ◌||◌,
  if◌then◌else◌, not, bit_and, ℤ, pos, negsuc, ltb_ℤ, eqb_ℤ,
}

-- `ROUND_UP_TO_PAGE_SIZES` on a uint32_t.
unfoldable pub round_up_to_page_sizes : ℕ → ℕ
round_up_to_page_sizes x = bit_and ((x + 4095) % 2 ^ 32) (2 ^ 32 - 1 - 4095)

-- A std::string, as its bytes.
abbrev pub ShmName : Type 0
ShmName = List ℕ

unfoldable pub same_shm_name : ShmName → ShmName → Bool
same_shm_name [] [] = true
same_shm_name (a ∷ name) (b ∷ other) = (a == b) && same_shm_name name other
same_shm_name _ _ = false

-- `Mode3Attributes` and `Mode4Attributes`.
pub record PosixAttributes : Type 0 where
  pub base_addr : ℕ
  pub size : ℕ
  pub appended_base_address : ℕ
  pub appended_size : ℕ
  pub shm_id : ℤ
  pub is_owner : Bool
  pub shm_name : ShmName

pub record SysvAttributes : Type 0 where
  pub base_addr : ℕ
  pub size : ℕ
  pub shm_id : ℤ
  pub proj_id : ℤ
  pub is_owner : Bool
  pub shm_name : ShmName

abbrev pub reset_posix : PosixAttributes
reset_posix = record {
  base_addr = 0;
  size = 0;
  appended_base_address = 0;
  appended_size = 0;
  shm_id = negsuc 0;
  is_owner = false;
  shm_name = [];
}

abbrev pub reset_sysv : SysvAttributes
reset_sysv = record {
  base_addr = 0;
  size = 0;
  shm_id = negsuc 0;
  proj_id = negsuc 0;
  is_owner = false;
  shm_name = [];
}

-- `MemoryAllocatorParams`: the mode, with the member of the union that it stands for. `mode_other` is a
-- mode that the code does not know.
pub data Params : Type 0 where
  mode_1 : (base_addr : ℕ) → Params
  mode_2 : (base_addr size : ℕ) → Params
  mode_3 : PosixAttributes → Params
  mode_4 : SysvAttributes → Params
  mode_other : Params

-- Both calls that create something say whether the error was EEXIST.
pub record MemoryCalls : Type 0 where
  pub new_bytes : ℕ → ℕ
  pub mmap_private : ℕ → ℕ
  pub mmap_shared : ℕ → ℤ → ℕ → ℕ
  pub shm_create : ShmName → ℤ × Bool
  pub shm_open : ShmName → ℤ
  pub fchmod : ℤ → ℤ
  pub ftruncate : ℤ → ℕ → ℤ
  pub ftok : ShmName → ℤ → ℤ
  pub shmget_create : ℤ → ℕ → ℤ × Bool
  pub shmget : ℤ → ℕ → ℤ
  pub shmat : ℤ → ℕ

-- What the process holds: blocks of `new`, mappings with their sizes, descriptors, the shared objects
-- and segments that it has made, and the segments that are attached.
pub record Holding : Type 0 where
  pub blocks : List ℕ
  pub mappings : List (ℕ × ℕ)
  pub fds : List ℤ
  pub objects : List ShmName
  pub segments : List ℤ
  pub attached : List ℕ

-- What a call that gives something back takes out of a list.
unfoldable pub take_out : {A : Type 0} → (A → Bool) → List A → List A
take_out is_it [] = []
take_out is_it (x ∷ xs) = let rest = take_out is_it xs in if is_it x then xs else x ∷ rest

abbrev pub close : ℤ → Holding → Holding
close fd h = record h { fds = take_out (eqb_ℤ fd) h.fds }

abbrev pub shm_unlink : ShmName → Holding → Holding
shm_unlink name h = record h { objects = take_out (same_shm_name name) h.objects }

-- `MAP_FAILED`, and `(void *)-1` of `shmat`.
abbrev pub map_failed : ℕ
map_failed = 2 ^ 64 - 1

-- A call that maps adds nothing to what is held when it fails.
unfoldable pub hold_mapping : (addr size : ℕ) → Holding → Holding
hold_mapping addr size h =
    if addr == map_failed then h else record h { mappings = (addr, size) ∷ h.mappings }

unfoldable pub hold_attached : ℕ → Holding → Holding
hold_attached addr h = if addr == map_failed then h else record h { attached = addr ∷ h.attached }

-- Both refuse the address of a failure, which lies on no page: EINVAL.
abbrev pub munmap : ℕ → ℕ → Holding → Holding
munmap addr size h = if addr == map_failed then h else record h {
  mappings = take_out (λ m. let (a, n) = m in (addr == a) && (size == n)) h.mappings;
}

abbrev pub shmdt : ℕ → Holding → Holding
shmdt base h =
    if base == map_failed
    then h
    else record h { attached = take_out (λ addr. base == addr) h.attached }

-- What a failed call on the shared object leaves: its owner closes and unlinks it, others do not.
unfoldable pub give_up : ℤ → Bool → ShmName → Holding → Holding
give_up fd is_owner name h = if is_owner then shm_unlink name (close fd h) else h

-- `allocate` in mode 3, once the object is open. What `mmap` answers is not tested.
unfoldable pub map_object :
    MemoryCalls → ℕ → ℤ → Bool → PosixAttributes → Holding → ℕ × PosixAttributes × Holding
map_object calls size fd is_owner a h =
    let pages = round_up_to_page_sizes size in
    if ltb_ℤ (calls.fchmod fd) (pos 0) || ltb_ℤ (calls.ftruncate fd pages) (pos 0)
    then (0, a, give_up fd is_owner a.shm_name h)
    else let base = calls.mmap_shared pages fd 0 in
      (
        base,
        record a { base_addr = base; size = pages; shm_id = fd; is_owner = is_owner },
        hold_mapping base pages h,
      )

unfoldable pub allocate_posix :
    MemoryCalls → ℕ → PosixAttributes → Holding → ℕ × PosixAttributes × Holding
allocate_posix calls size a h =
    let (fd, is_there) = calls.shm_create a.shm_name in
    if not (ltb_ℤ fd (pos 0))
    then map_object calls size fd true a
        (record h { fds = fd ∷ h.fds; objects = a.shm_name ∷ h.objects })
    else if not is_there
    then (0, a, h)
    else let other = calls.shm_open a.shm_name in
      if ltb_ℤ other (pos 0)
      then (0, a, h)
      else map_object calls size other false a (record h { fds = other ∷ h.fds })

unfoldable pub attach_segment :
    MemoryCalls → ℕ → ℤ → Bool → SysvAttributes → Holding → ℕ × SysvAttributes × Holding
attach_segment calls size id is_owner a h =
    let base = calls.shmat id in
    (
      base,
      record a {
        base_addr = base;
        size = round_up_to_page_sizes size;
        shm_id = id;
        is_owner = is_owner;
      },
      hold_attached base h,
    )

unfoldable pub allocate_sysv :
    MemoryCalls → ℕ → SysvAttributes → Holding → ℕ × SysvAttributes × Holding
allocate_sysv calls size a h =
    let key = calls.ftok a.shm_name a.proj_id in
    let (id, is_there) = calls.shmget_create key (round_up_to_page_sizes size) in
    if ltb_ℤ key (pos 0)
    then (0, a, h)
    else if not (ltb_ℤ id (pos 0))
    then attach_segment calls size id true a (record h { segments = id ∷ h.segments })
    else if not is_there
    then (0, a, h)
    else let other = calls.shmget key (round_up_to_page_sizes size) in
      if ltb_ℤ other (pos 0) then (0, a, h) else attach_segment calls size other false a h

-- `MemoryAllocator::allocate`.
unfoldable pub allocate : MemoryCalls → ℕ → Params → Holding → ℕ × Params × Holding
allocate calls size (mode_1 base) h =
    let block = calls.new_bytes size in
    (block, mode_1 block, record h { blocks = block ∷ h.blocks })
allocate calls size (mode_2 base old) h =
    let pages = round_up_to_page_sizes size in
    let mapped = calls.mmap_private pages in
    (mapped, mode_2 mapped pages, hold_mapping mapped pages h)
allocate calls size (mode_3 a) h =
    let (base, a', h') = allocate_posix calls size a h in (base, mode_3 a', h')
allocate calls size (mode_4 a) h =
    let (base, a', h') = allocate_sysv calls size a h in (base, mode_4 a', h')
allocate calls size mode_other h = (0, mode_other, h)

-- `MemoryAllocator::append`. After the mapping in mode 3 the code falls through to the last `return`.
unfoldable pub append : MemoryCalls → ℕ → Params → Holding → ℕ × Params × Holding
append calls size (mode_3 a) h =
    let pages = round_up_to_page_sizes size in
    if not (a.appended_base_address == 0)
    then (0, mode_3 a, h)
    else if ltb_ℤ (calls.ftruncate a.shm_id ((a.size + pages) % 2 ^ 32)) (pos 0)
    then (0, mode_3 a, give_up a.shm_id a.is_owner a.shm_name h)
    else let base = calls.mmap_shared pages a.shm_id a.size in
      (
        0,
        mode_3 (record a { appended_base_address = base; appended_size = pages }),
        hold_mapping base pages h,
      )
append calls size mode_other h = (0, mode_other, h)
append calls size params h = allocate calls size params h

-- A mapping that is there is unmapped.
unfoldable pub unmap : ℕ → ℕ → Holding → Holding
unmap addr size h = if addr == 0 then h else munmap addr size h

unfoldable pub deallocate_posix : PosixAttributes → Holding → Params × Holding
deallocate_posix a h =
    if not a.is_owner
    then (mode_3 a, h)
    else let unmapped =
        unmap a.appended_base_address a.appended_size (unmap a.base_addr a.size h) in
      let closed = if ltb_ℤ (pos 0) a.shm_id then close a.shm_id unmapped else unmapped in
      (mode_3 reset_posix, shm_unlink a.shm_name closed)

unfoldable pub deallocate_sysv : SysvAttributes → Holding → Params × Holding
deallocate_sysv a h =
    if not a.is_owner
    then (mode_4 a, h)
    else let detached = if a.base_addr == 0 then h else shmdt a.base_addr h in
      let removed =
        if ltb_ℤ (pos 0) a.shm_id
        then record detached { segments = take_out (eqb_ℤ a.shm_id) detached.segments }
        else detached in
      (mode_4 reset_sysv, removed)

-- `MemoryAllocator::deallocate`.
unfoldable pub deallocate : Params → Holding → Params × Holding
deallocate (mode_1 base) h =
    if base == 0
    then (mode_1 base, h)
    else (mode_1 0, record h { blocks = take_out (λ addr. base == addr) h.blocks })
deallocate (mode_2 base size) h =
    if base == 0 then (mode_2 base size, h) else (mode_2 0 0, munmap base size h)
deallocate (mode_3 a) h = deallocate_posix a h
deallocate (mode_4 a) h = deallocate_sysv a h
deallocate mode_other h = (mode_other, h)
