-- ===== src/Memory/Held.antt =====
-- What the allocations of sw/itc-common/inc/itcMemoryManager.h leave behind.
use itc_platform.Common.{
  ℕ, ◌≡◌, ◌≢◌, refl, sym, ap, ◌∙◌, arith, ◌⊎◌, Bool, true, List, [], ◌∷◌, ◌==◌, ◌&&◌, ℤ, pos, ltb_ℤ,
  eqb_ℤ,
}
use itc_platform.Memory.{
  hold_mapping, hold_attached, ShmName, same_shm_name, PosixAttributes, SysvAttributes, Params,
  mode_1, mode_2, mode_3, mode_4, mode_other, MemoryCalls, Holding, take_out, give_up, map_object,
  allocate_posix, attach_segment, allocate_sysv, allocate, unmap, deallocate_posix, deallocate_sysv,
  deallocate, round_up_to_page_sizes,
}

pub take_out-first :
    {A : Type 0} (is_it : A → Bool) (x : A) (xs : List A)
    → is_it x ≡ true
    → take_out is_it (x ∷ xs) ≡ xs
unfolding take_out
take_out-first is_it x xs e = rw e refl

pub same_shm_name_refl : (name : ShmName) → same_shm_name name name ≡ true
unfolding same_shm_name
same_shm_name_refl [] = refl
same_shm_name_refl (a ∷ name) = ground (arith, same_shm_name_refl name)

pub eqb_ℤ_refl : (a : ℤ) → eqb_ℤ a a ≡ true
eqb_ℤ_refl a = ground arith

-- The memory is this process's own: what it has made, with a descriptor or an id that is not 0.
abbrev pub Owns : Params → Type 0
Owns (mode_3 a) = (a.is_owner ≡ true) × (ltb_ℤ (pos 0) a.shm_id ≡ true)
Owns (mode_4 a) = (a.is_owner ≡ true) × (ltb_ℤ (pos 0) a.shm_id ≡ true)
Owns _ = Unit

abbrev pub NothingAppended : Params → Type 0
NothingAppended (mode_3 a) = a.appended_base_address ≡ 0
NothingAppended _ = Unit

-- The system's view of an object that is made and mapped.
abbrev with_object : ℤ → ShmName → ℕ → ℕ → Holding → Holding
with_object fd name base size h =
    hold_mapping base size (record h { fds = fd ∷ h.fds; objects = name ∷ h.objects })

posix-made :
    (calls : MemoryCalls) (size base : ℕ) (a a' : PosixAttributes) (h h' : Holding)
    → allocate_posix calls size a h ≡ (base, a', h')
    → base ≢ 0
    → a'.is_owner ≡ true
    → (h' ≡ with_object a'.shm_id a'.shm_name a'.base_addr a'.size h)
      × (a'.appended_base_address ≡ a.appended_base_address)
      × (a'.base_addr ≡ base)
unfolding allocate_posix map_object hold_mapping
posix-made calls size base a a' h h' e ne own = ground arith

posix-undone :
    (a : PosixAttributes) (h : Holding)
    → a.is_owner ≡ true
    → ltb_ℤ (pos 0) a.shm_id ≡ true
    → a.appended_base_address ≡ 0
    → a.base_addr ≢ 0
    → (deallocate_posix a (with_object a.shm_id a.shm_name a.base_addr a.size h)).1 ≡ h
unfolding deallocate_posix unmap hold_mapping
posix-undone a h own fd bare ne = ground (
  arith,
  take_out-first (eqb_ℤ a.shm_id) a.shm_id h.fds (eqb_ℤ_refl a.shm_id),
  take_out-first (same_shm_name a.shm_name) a.shm_name h.objects (same_shm_name_refl a.shm_name),
  take_out-first (λ m. let (addr, n) = m in (a.base_addr == addr) && (a.size == n))
      (a.base_addr, a.size) h.mappings (ground arith),
)

sysv-back :
    (calls : MemoryCalls) (size base : ℕ) (a a' : SysvAttributes) (h h' : Holding)
    → allocate_sysv calls size a h ≡ (base, a', h')
    → base ≢ 0
    → a'.is_owner ≡ true
    → ltb_ℤ (pos 0) a'.shm_id ≡ true
    → (deallocate_sysv a' h').1 ≡ h
unfolding allocate_sysv attach_segment deallocate_sysv hold_attached
sysv-back calls size base a a' h h' e ne own fd =
    let made : h' ≡ hold_attached a'.base_addr (record h { segments = a'.shm_id ∷ h.segments }) =
      ground arith in
    let at : a'.base_addr ≡ base = ground arith in
    ground (
      arith,
      made,
      at,
      take_out-first (eqb_ℤ a'.shm_id) a'.shm_id h.segments (eqb_ℤ_refl a'.shm_id),
      take_out-first (λ addr. a'.base_addr == addr) a'.base_addr h.attached (ground arith),
    )

-- Memory that a process has made and got is given back as a whole by `deallocate`, in every mode: what
-- the process holds of the system is as before the allocation. In the modes 3 and 4 that is what the
-- owner does, whose descriptor or id is not 0, and with nothing appended before.
pub deallocate-allocate :
    (calls : MemoryCalls) (size : ℕ) (p : Params) (h : Holding)
    → NothingAppended p
    → (allocate calls size p h).0 ≢ 0
    → Owns (allocate calls size p h).1
    → (deallocate (allocate calls size p h).1 (allocate calls size p h).2).1 ≡ h
unfolding allocate deallocate hold_mapping
deallocate-allocate calls size (mode_1 base) h bare ne own = ground (
  arith,
  take_out-first (λ addr. calls.new_bytes size == addr) (calls.new_bytes size) h.blocks
      (ground arith),
)
deallocate-allocate calls size (mode_2 base old) h bare ne own =
    let pages = round_up_to_page_sizes size in
    ground (
      arith,
      take_out-first (λ m. let (addr, n) = m in (calls.mmap_private pages == addr) && (pages == n))
          (calls.mmap_private pages, pages) h.mappings (ground arith),
    )
deallocate-allocate calls size (mode_3 a) h bare ne (own, fd) =
    let (made, none, at) = posix-made calls size _ a _ h _ refl ne own in
    ap (λ x. (deallocate_posix (allocate_posix calls size a h).1 x).1) made
    ∙ posix-undone (allocate_posix calls size a h).1 h own fd (none ∙ bare) (λ z. ne (sym at ∙ z))
deallocate-allocate calls size (mode_4 a) h bare ne (own, fd) =
    sysv-back calls size _ a _ h _ refl ne own fd
deallocate-allocate calls size mode_other h bare ne own = absurd (ne refl)

-- A shared object that cannot be had leaves nothing behind but, where another process had made it, the
-- descriptor that was opened: that stays open. The system never maps at nullptr.
allocate_posix_fails :
    (calls : MemoryCalls) (size : ℕ) (a a' : PosixAttributes) (h h' : Holding)
    → ((pages offset : ℕ) (fd : ℤ) → calls.mmap_shared pages fd offset ≢ 0)
    → allocate_posix calls size a h ≡ (0, a', h')
    → (a' ≡ a)
      × ((h' ≡ h)
          ⊎ (((calls.shm_create a.shm_name).1 ≡ true)
              × (h' ≡ record h { fds = calls.shm_open a.shm_name ∷ h.fds })))
unfolding allocate_posix map_object give_up hold_mapping
allocate_posix_fails calls size a a' h h' mapped e =
    let (fd, is_there) = calls.shm_create a.shm_name in
    ground (
      arith,
      mapped (round_up_to_page_sizes size) 0 (calls.shm_create a.shm_name).0,
      mapped (round_up_to_page_sizes size) 0 (calls.shm_open a.shm_name),
      take_out-first (eqb_ℤ fd) fd h.fds (eqb_ℤ_refl fd),
      take_out-first (same_shm_name a.shm_name) a.shm_name h.objects
          (same_shm_name_refl a.shm_name),
    )
