-- ===== src/Memory/Pool/Stocked.antt =====
-- What the constructor of `MemoryPool` (sw/itc-common/inc/itcMemoryManager.h) puts into the queues.
use mathlib.Core.List.{append_assoc, append-nil}
use itc_platform.Common.{
  ℕ, zero, suc, ◌+◌, ◌*◌, ◌%◌, ◌^◌, ◌≤◌, ◌<◌, ◌≡◌, refl, sym, ap, ◌∙◌, arith, inl, inr, List, [],
  ◌∷◌, ◌++◌, length, length-append,
}
use itc_platform.Common.Outcome.{done}
use itc_platform.Queue.{Config, Queue}
use itc_platform.Queue.Slots.{IsConfig}
use itc_platform.Queue.Window.{IsQueue, contents, count, length-window}
use itc_platform.Queue.Refine.{push-refines}
use itc_platform.Memory.Pool.{push_slots}

-- The values of `rounds` slots from the slot `i` on.
abbrev pub offsets : (start slot_size rounds i : ℕ) → List ℕ
offsets start slot_size zero i = []
offsets start slot_size (suc rounds) i =
    (start + i * slot_size) ∷ offsets start slot_size rounds (i + 1)

module _ {c : Config} (v : IsConfig c) (start slot_size slots : ℕ) where
  -- A queue with room for the slots takes all of their values, in order, and none of the pushes waits.
  pub push_slots_lem :
      (rounds i : ℕ) (q : Queue)
      → IsQueue c q
      → count q + rounds ≤ c.size
      → i + rounds ≤ slots
      → ((k : ℕ) → k < slots → start + k * slot_size < c.nil)
      → c.nil < 2 ^ 32
      → (q' : Queue) × (push_slots c start slot_size rounds i q ≡ done q')
        × (contents c q' ≡ contents c q ++ offsets start slot_size rounds i)
        × IsQueue c q'
  unfolding push_slots
  push_slots_lem zero i q h room few fits nil = (q, refl, sym (append-nil _), h)
  push_slots_lem (suc rounds) i q h room few fits nil =
      let small : start + i * slot_size < c.nil = fits i (omega arith) in
      let e : (start + i * slot_size) % 2 ^ 32 ≡ start + i * slot_size = omega arith in
      elim (push-refines v q (start + i * slot_size) h (λ z. absurd (omega (arith, z)))) [
        | inl (full, stuck) ↦ absurd (omega arith)
        | inr (q₁, run, more, h₁) ↦
            let longer : count q₁ ≡ count q + 1 = omega (
              arith,
              ap length more,
              length-append (contents c q) ((start + i * slot_size) ∷ []),
              length-window c q.cells q.tail (count q),
              length-window c q₁.cells q₁.tail (count q₁),
            ) in
            let (q', ran, all, h') =
              push_slots_lem rounds (i + 1) q₁ h₁ (omega arith) (omega arith) fits nil in
            (
              q',
              ground (arith, e, run, ran),
              all
                  ∙ ap (λ xs. xs ++ offsets start slot_size rounds (i + 1)) more
                  ∙ append_assoc (contents c q) ((start + i * slot_size) ∷ [])
                      (offsets start slot_size rounds (i + 1)),
              h',
            )
      ]
