-- ===== src/Container/Release.antt =====
-- The destructor of sw/itc-common/inc/itcConcurrentContainer.h.
use itc_platform.Common.{
  ℕ, zero, suc, ◌+◌, ◌<◌, ◌≡◌, refl, ap, arith, inl, inr, true, false, some, List, [], ◌∷◌, length,
}
use itc_platform.Queue
use itc_platform.Queue.{Queue, Config}
use itc_platform.Queue.Slots.{IsConfig}
use itc_platform.Queue.Window.{contents, IsQueue}
use itc_platform.Queue.Refine.{pop-refines, size-length}
use itc_platform.Container.{Container, drop_free, destroy}
use itc_platform.Container.Pool.{IsContainer}

module _ {cfg : Config} (v : IsConfig cfg) where
  empty-nil : (q : Queue) → IsQueue cfg q → contents cfg q ≡ [] → Queue.empty cfg q ≡ true
  unfolding Queue.empty
  empty-nil q i e = ground (arith, size-length v q i, ap length e)

  empty-cons :
      (q : Queue) (x : ℕ) (xs : List ℕ)
      → IsQueue cfg q
      → contents cfg q ≡ x ∷ xs
      → Queue.empty cfg q ≡ false
  unfolding Queue.empty
  empty-cons q x xs i e = ground (arith, size-length v q i, ap length e)

  drop_free_lem :
      (fuel : ℕ) (q : Queue)
      → IsQueue cfg q
      → length (contents cfg q) < fuel
      → (q' : Queue) × (drop_free cfg fuel q ≡ some q') × (contents cfg q' ≡ [])
  unfolding drop_free
  drop_free_lem zero q i short = absurd (omega arith)
  drop_free_lem (suc fuel) q i short = elim (pop-refines v q i) [
    | inl (nothing, _) ↦ (q, ground (arith, empty-nil q i nothing), nothing)
    | inr (x, q', run, taken, i') ↦
        let (q2, rest, left) = drop_free_lem fuel q' i' (omega (arith, ap length taken)) in
        (q2, ground (arith, empty-cons q x _ i taken, run, rest), left)
  ]

  -- The destructor of a container that is in order ends, and leaves no free entry and no name: the rounds
  -- of its loop are one more than the entries of the array at most.
  pub destroy_lem :
      {T : Type 0} (null : cfg.nil ≡ 0) (capacity : ℕ) (c : Container T)
      → IsContainer v null capacity c
      → (c' : Container T) × (destroy cfg (capacity + 1) c ≡ some c')
        × (contents cfg c'.inactive ≡ [])
        × (c'.active ≡ [])
  unfolding destroy
  destroy_lem null capacity c i =
      let (q', run, left) =
        drop_free_lem (capacity + 1) c.inactive i.queue_valid (omega (arith, i.within)) in
      (record c { inactive = q'; active = [] }, ground (arith, run), left, refl)
