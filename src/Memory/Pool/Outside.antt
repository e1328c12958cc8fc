-- ===== src/Memory/Pool/Outside.antt =====
-- A run of allocations from a pool (sw/itc-common/inc/itcMemoryManager.h) that has just been made.
use itc_platform.Common.{
  ℕ, suc, ◌+◌, ◌*◌, ◌≤◌, ◌<◌, ◌≡◌, refl, arith, ◌⊎◌, inl, inr, List, [], ◌∷◌, length, some, false,
  ap,
}
use itc_platform.Common.Outcome.{Outcome, done, ◌>>=◌}
use itc_platform.Memory.Pool.{Queues, MemoryPool, memory_pool, allocate}
use itc_platform.Memory.Pool.Making.{memory_pool_lem}
use itc_platform.Memory.Pool.Handing.{
  Given, IsStock, next_address, hand, exhausted, allocate_slot_lem,
}

-- Allocations one after another, with the addresses that they answer.
pub allocate_all : List ℕ → MemoryPool → Outcome (List ℕ)
allocate_all [] pool = done []
allocate_all (size ∷ sizes) pool = do
  (addr, pool') ← allocate size pool
  addrs ← allocate_all sizes pool'
  done (addr ∷ addrs)

abbrev pub All : (ℕ → Type 0) → List ℕ → Type 0
All P [] = Unit
All P (x ∷ xs) = P x × All P xs

-- Addresses that are at least as far apart as the largest slot.
abbrev pub Apart : List ℕ → Type 0
Apart [] = Unit
Apart (x ∷ xs) = All (λ y. (x + 512 ≤ y) ⊎ (y + 512 ≤ x)) xs × Apart xs

All-map : (P Q : ℕ → Type 0) → ((x : ℕ) → P x → Q x) → (xs : List ℕ) → All P xs → All Q xs
All-map P Q f [] h = tt
All-map P Q f (x ∷ xs) h = (f x h.0, All-map P Q f xs h.1)

-- The addresses that a pool can still hand out.
abbrev Ahead : ℕ → Given → ℕ → Type 0
Ahead base g addr =
    ((addr < base + 1000000) × (base + 54080 + g.given_64 * 4096 ≤ addr))
    ⊎ ((base + 1000000 ≤ addr)
        × (addr < base + 4000000)
        × (base + 1052672 + g.given_256 * 65536 ≤ addr))
    ⊎ ((base + 4000000 ≤ addr) × (base + 4202496 + g.given_512 * 262144 ≤ addr))

next_address-Ahead :
    (base size : ℕ) (g : Given) (qs : Queues)
    → IsStock g qs
    → exhausted size g ≡ false
    → Ahead base g (next_address base size g)
next_address-Ahead base size g qs h more =
    ground (arith, h.left_64.bounded, h.left_256.bounded, h.left_512.bounded)

later-Ahead :
    (base size : ℕ) (g : Given) (addr : ℕ) → Ahead base (hand size g) addr → Ahead base g addr
later-Ahead base size g addr h = ground arith

later-Apart :
    (base size : ℕ) (g : Given) (qs : Queues) (addr : ℕ)
    → IsStock g qs
    → exhausted size g ≡ false
    → Ahead base (hand size g) addr
    → (next_address base size g + 512 ≤ addr) ⊎ (addr + 512 ≤ next_address base size g)
later-Apart base size g qs addr h more a =
    ground (arith, h.left_64.bounded, h.left_256.bounded, h.left_512.bounded)

-- Enough slots of each size for the allocations to come.
abbrev Fits : ℕ → Given → Type 0
Fits rounds g =
    (g.given_64 + rounds ≤ 51) × (g.given_256 + rounds ≤ 16) × (g.given_512 + rounds ≤ 16)

Fits-hand :
    (rounds size : ℕ) (g : Given)
    → Fits (suc rounds) g
    → (exhausted size g ≡ false) × Fits rounds (hand size g)
Fits-hand rounds size g h = ground arith

allocate_all_lem :
    (mode base : ℕ) (sizes : List ℕ) (g : Given) (qs : Queues)
    → IsStock g qs
    → All (λ size. size ≤ 512) sizes
    → Fits (length sizes) g
    → (addrs : List ℕ) × (allocate_all sizes
          (record { mode = mode; base_addr = base; queues = some qs })
        ≡ done addrs)
      × (length addrs ≡ length sizes)
      × All (Ahead base g) addrs
      × Apart addrs
unfolding allocate_all allocate
allocate_all_lem mode base [] g qs h small fits = ([], refl, refl, tt, tt)
allocate_all_lem mode base (size ∷ sizes) g qs h small fits =
    let (more, fits') = Fits-hand (length sizes) size g fits in
    elim (allocate_slot_lem base size g qs h small.0) [
      | inl (none_left, stuck) ↦ absurd (ground (arith, none_left, more))
      | inr (_, (qs', run, h')) ↦
          let (addrs, ran, all, ahead, apart) =
            allocate_all_lem mode base sizes (hand size g) qs' h' small.1 fits' in
          (
            next_address base size g ∷ addrs,
            ground (arith, run, ran),
            ap suc all,
            (
              next_address-Ahead base size g qs h more,
              All-map _ _ (later-Ahead base size g) addrs ahead,
            ),
            (All-map _ _ (λ addr. later-Apart base size g qs addr h more) addrs ahead, apart),
          )
    ]

-- A pool that is given enough memory for its constructor to end hands out, for the first 16
-- allocations of up to 512 bytes, as many addresses, which lie a slot or more apart. But each of them
-- lies behind the four pages that the pool is made for.
pub memory_pool-allocate :
    (mode base size : ℕ) (sizes : List ℕ)
    → 196612 ≤ size
    → All (λ size. size ≤ 512) sizes
    → length sizes ≤ 16
    → (pool : MemoryPool) × (addrs : List ℕ) × (memory_pool mode base size ≡ done pool)
      × (allocate_all sizes pool ≡ done addrs)
      × (length addrs ≡ length sizes)
      × Apart addrs
      × All (λ addr. base + 4 * 4096 ≤ addr) addrs
memory_pool-allocate mode base size sizes large small few =
    let (qs, made, h) = (memory_pool_lem mode base size).2 large in
    let (addrs, ran, all, ahead, apart) =
      allocate_all_lem mode base sizes _ qs h small (omega arith, omega arith, omega arith) in
    (_, addrs, made, ran, all, apart, All-map _ _ (λ addr a. ground arith) addrs ahead)
