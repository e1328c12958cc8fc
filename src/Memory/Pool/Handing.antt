-- ===== src/Memory/Pool/Handing.antt =====
-- The slots that `MemoryPool::allocate` (sw/itc-common/inc/itcMemoryManager.h) hands out.
use itc_platform.Common.{
  ℕ, suc, ◌+◌, ◌-◌, ◌*◌, ◌^◌, ◌≤◌, ◌<◌, ◌≡◌, sym, ap, ◌∙◌, arith, ◌⊎◌, inl, inr, ◌∷◌, length,
  get_or, drop, Bool, true, false, leb, ◌==◌, if◌then◌else◌, dec_lt,
}
use itc_platform.Common.Outcome.{done, waits}
use itc_platform.Queue.{Config, Queue}
use itc_platform.Queue.Slots.{IsConfig}
use itc_platform.Queue.Window.{IsQueue, contents}
use itc_platform.Queue.Refine.{pop-refines}
use itc_platform.Memory.Pool.{
  Queues, pop_slot, allocate_slot, pool_64_config, pool_256_config, pool_512_config,
}
use itc_platform.Memory.Pool.Layout.{
  pool_64_config-IsConfig, pool_256_config-IsConfig, pool_512_config-IsConfig,
}
use itc_platform.Memory.Pool.Stocked.{offsets}

-- A queue of slots of which the first `given` have been handed out.
pub record HasLeft (c : Config) (start slot_size slots given : ℕ) (q : Queue) : Type 0 where
  pub queue : IsQueue c q
  pub rest : contents c q ≡ offsets start slot_size (slots - given) given
  pub bounded : given ≤ slots

module _ {c : Config} (v : IsConfig c) (base start slot_size slots : ℕ) where
  -- The next slot is handed out, under the address that `allocate` makes of its value; with none left
  -- the call waits.
  pop_slot_lem :
      (given : ℕ) (q : Queue)
      → HasLeft c start slot_size slots given q
      → ((k : ℕ) → k < slots → (start + k * slot_size) * slot_size < 2 ^ 32)
      → ((given ≡ slots) × (pop_slot c base start slot_size q ≡ waits))
        ⊎ ((q' : Queue) × (pop_slot c base start slot_size q
              ≡ done (base + start + (start + given * slot_size) * slot_size, q'))
            × HasLeft c start slot_size slots (suc given) q')
  unfolding pop_slot
  pop_slot_lem given q h fits = elim (dec_lt given slots) [
    | no all ↦
        let e : given ≡ slots = omega (arith, h.bounded) in
        let none_left : slots - given ≡ 0 = omega arith in
        elim (pop-refines v q h.queue) [
          | inl (empty, stuck) ↦ inl (e, ground (arith, stuck))
          | inr (x, q', run, front, h') ↦ absurd (
              omega (
                arith,
                ap length (sym front ∙ h.rest),
                ap (λ n. length (offsets start slot_size n given)) none_left,
              ))
        ]
    | yes more ↦
        let one : slots - given ≡ suc (slots - suc given) = omega arith in
        let first : contents c q
            ≡ (start + given * slot_size)
              ∷ offsets start slot_size (slots - suc given) (given + 1) =
          h.rest ∙ ap (λ n. offsets start slot_size n given) one in
        elim (pop-refines v q h.queue) [
          | inl (empty, stuck) ↦ absurd (omega (arith, ap length (sym empty ∙ first)))
          | inr (x, q', run, front, h') ↦
              let both : x ∷ contents c q'
                  ≡ (start + given * slot_size)
                    ∷ offsets start slot_size (slots - suc given) (given + 1) =
                sym front ∙ first in
              let this : x ≡ start + given * slot_size = ap (λ xs. get_or xs 0 0) both in
              inr (
                q',
                ground (arith, run, this, fits given more),
                record {
                  queue = h';
                  rest =
                      ap (drop 1) both
                      ∙ ap (offsets start slot_size (slots - suc given)) {x = given + 1}
                          {y = suc given} (omega arith);
                  bounded = omega arith;
                },
              )
        ]
  ]

-- How many slots of each size have been handed out.
pub record Given : Type 0 where
  pub given_64 : ℕ
  pub given_256 : ℕ
  pub given_512 : ℕ

pub record IsStock (g : Given) (qs : Queues) : Type 0 where
  pub left_64 : HasLeft pool_64_config 832 64 51 g.given_64 qs.pool_64
  pub left_256 : HasLeft pool_256_config 4096 256 16 g.given_256 qs.pool_256
  pub left_512 : HasLeft pool_512_config 8192 512 16 g.given_512 qs.pool_512

-- The address that the next allocation of `size` bytes answers, and what is handed out then.
abbrev pub next_address : ℕ → ℕ → Given → ℕ
next_address base size g =
    if leb size 64
    then base + 832 + (832 + g.given_64 * 64) * 64
    else if leb size 256
    then base + 4096 + (4096 + g.given_256 * 256) * 256
    else base + 8192 + (8192 + g.given_512 * 512) * 512

abbrev pub hand : ℕ → Given → Given
hand size g =
    if leb size 64
    then record g { given_64 = suc g.given_64 }
    else if leb size 256
    then record g { given_256 = suc g.given_256 }
    else record g { given_512 = suc g.given_512 }

-- No slot of the size is left.
abbrev pub exhausted : ℕ → Given → Bool
exhausted size g =
    if leb size 64
    then g.given_64 == 51
    else if leb size 256
    then g.given_256 == 16
    else g.given_512 == 16

pub allocate_slot_lem :
    (base size : ℕ) (g : Given) (qs : Queues)
    → IsStock g qs
    → size ≤ 512
    → ((exhausted size g ≡ true) × (allocate_slot base size qs ≡ waits))
      ⊎ ((exhausted size g ≡ false)
          × ((qs' : Queues) × (allocate_slot base size qs ≡ done (next_address base size g, qs'))
              × IsStock (hand size g) qs'))
unfolding allocate_slot
allocate_slot_lem base size g qs h top = elim (dec_lt 64 size) [
  | no small ↦
      elim (pop_slot_lem pool_64_config-IsConfig base 832 64 51 g.given_64 qs.pool_64 h.left_64
        (λ k lt. omega arith)) [
          | inl (all, stuck) ↦ inl (ground arith, ground arith)
          | inr (q', run, left) ↦
              let handed : hand size g ≡ record g { given_64 = suc g.given_64 } = ground arith in
              inr (
                ground (arith, left.bounded),
                (
                  record qs { pool_64 = q' },
                  ground arith,
                  rw handed
                      (record { left_64 = left; left_256 = h.left_256; left_512 = h.left_512 }),
                ),
              )
        ]
  | yes over ↦ elim (dec_lt 256 size) [
    | no small ↦
        elim (pop_slot_lem pool_256_config-IsConfig base 4096 256 16 g.given_256 qs.pool_256
          h.left_256 (λ k lt. omega arith)) [
            | inl (all, stuck) ↦ inl (ground arith, ground arith)
            | inr (q', run, left) ↦
                let handed : hand size g ≡ record g { given_256 = suc g.given_256 } =
                  ground arith in
                inr (
                  ground (arith, left.bounded),
                  (
                    record qs { pool_256 = q' },
                    ground arith,
                    rw handed
                        (record { left_256 = left; left_64 = h.left_64; left_512 = h.left_512 }),
                  ),
                )
          ]
    | yes over' ↦
        elim (pop_slot_lem pool_512_config-IsConfig base 8192 512 16 g.given_512 qs.pool_512
          h.left_512 (λ k lt. omega arith)) [
            | inl (all, stuck) ↦ inl (ground arith, ground arith)
            | inr (q', run, left) ↦
                let handed : hand size g ≡ record g { given_512 = suc g.given_512 } =
                  ground arith in
                inr (
                  ground (arith, left.bounded),
                  (
                    record qs { pool_512 = q' },
                    ground arith,
                    rw handed
                        (record { left_512 = left; left_64 = h.left_64; left_256 = h.left_256 }),
                  ),
                )
          ]
  ]
]
