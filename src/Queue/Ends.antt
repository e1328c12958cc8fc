-- ===== src/Queue/Ends.antt =====
-- One store at the head and one load at the tail of a queue of sw/itc-common/inc/itcLockFreeQueue.h.
use mathlib.Core.Path.{subst}
use itc_platform.Common.{ℕ, ◌≡◌, ◌≢◌, arith, inl, inr, [], ◌∷◌, ◌++◌}
use itc_platform.Common.Family.{update}
use itc_platform.Queue.{Config, Queue, slot, succ32, do_push, do_pop, push, pop}
use itc_platform.Queue.Slots.{IsConfig}
use itc_platform.Queue.Window.{contents, IsQueue}
use itc_platform.Queue.Refine.{push-refines, pop-refines}

-- The queue after a store of `x` in the cell at the head, and after the cell at the tail is cleared.
abbrev pub stored_at_head : Config → Queue → ℕ → Queue
stored_at_head c q x = record q { head = succ32 q.head; cells = update q.cells (slot c q.head) x }

abbrev pub cleared_at_tail : Config → Queue → Queue
cleared_at_tail c q = record q {
  tail = succ32 q.tail;
  cells = update q.cells (slot c q.tail) c.nil;
}

module _ {c : Config} (v : IsConfig c) where
  pub contents-stored_at_head :
      (q : Queue) (x : ℕ)
      → IsQueue c q
      → x ≢ c.nil
      → q.cells (slot c q.head) ≡ c.nil
      → (contents c (stored_at_head c q x) ≡ contents c q ++ (x ∷ []))
        × IsQueue c (stored_at_head c q x)
  unfolding push do_push
  contents-stored_at_head q x i ne free = elim (push-refines v q x i ne) [
    | inl (_, stuck) ↦ absurd (ground (arith, stuck))
    | inr (q', ran, added, valid) ↦
        let same : q' ≡ stored_at_head c q x = ground arith in
        subst (λ z. (contents c z ≡ contents c q ++ (x ∷ [])) × IsQueue c z) same (added, valid)
  ]

  pub contents-cleared_at_tail :
      (q : Queue) (x : ℕ)
      → IsQueue c q
      → x ≢ c.nil
      → q.cells (slot c q.tail) ≡ x
      → (contents c q ≡ x ∷ contents c (cleared_at_tail c q)) × IsQueue c (cleared_at_tail c q)
  unfolding pop do_pop
  contents-cleared_at_tail q x i ne filled = elim (pop-refines v q i) [
    | inl (_, stuck) ↦ absurd (ground (arith, stuck))
    | inr (y, q', ran, taken, valid) ↦
        let same : q' ≡ cleared_at_tail c q = ground arith in
        let first : y ≡ x = ground arith in
        subst (λ z. (contents c q ≡ x ∷ contents c z) × IsQueue c z) same
          (subst (λ w. contents c q ≡ w ∷ contents c q') first taken, valid)
  ]
