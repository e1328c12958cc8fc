-- ===== src/Examples/Memories.antt =====
-- Allocations of one process (sw/itc-common/inc/itcMemoryManager.h).
use itc_platform.Common.{◌≡◌, ◌≢◌, refl, arith, true, false, [], ◌∷◌, pos, negsuc}
use itc_platform.Memory.{
  MemoryCalls, Holding, mode_3, PosixAttributes, reset_posix, allocate, deallocate, allocate_posix,
  map_object, give_up,
}
use itc_platform.Memory.Held.{Owns, deallocate-allocate}

abbrev all_well : MemoryCalls
all_well = record {
  new_bytes = λ size. 0x5000;
  mmap_private = λ pages. 0x7000;
  mmap_shared = λ pages fd offset. 0x9000;
  shm_create = λ name. (pos 5, false);
  shm_open = λ name. pos 6;
  fchmod = λ fd. pos 0;
  ftruncate = λ fd pages. pos 0;
  ftok = λ name id. pos 77;
  shmget_create = λ key pages. (pos 3, false);
  shmget = λ key pages. pos 4;
  shmat = λ id. 0xa000;
}

-- The object is another process's, which does not let this one change its mode.
abbrev not_ours : MemoryCalls
not_ours = record all_well { shm_create = λ name. (negsuc 0, true); fchmod = λ fd. negsuc 0 }

abbrev held : Holding
held = record {
  blocks = [];
  mappings = (0x4000, 4096) ∷ [];
  fds = pos 3 ∷ [];
  objects = [];
  segments = [];
  attached = [];
}

abbrev pool_object : PosixAttributes
pool_object = record reset_posix { shm_name = 47 ∷ 112 ∷ [] }

got_memory : (allocate all_well 5000 (mode_3 pool_object) held).0 ≢ 0
unfolding allocate allocate_posix map_object
got_memory e = omega arith

is_ours : Owns (allocate all_well 5000 (mode_3 pool_object) held).1
unfolding allocate allocate_posix map_object
is_ours = (refl, refl)

deallocate-allocate_example :
    (deallocate
      (allocate all_well 5000 (mode_3 pool_object) held).1
      (allocate all_well 5000 (mode_3 pool_object) held).2).1
    ≡ held
deallocate-allocate_example =
    deallocate-allocate all_well 5000 (mode_3 pool_object) held refl got_memory is_ours

left_open :
    allocate_posix not_ours 5000 pool_object held
    ≡ (0, pool_object, record held { fds = pos 6 ∷ pos 3 ∷ [] })
unfolding allocate_posix map_object give_up
left_open = refl
