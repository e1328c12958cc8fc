-- ===== src/Queue/Threads/Drained.antt =====
-- A queue shared by threads (sw/itc-common/inc/itcLockFreeQueue.h) when none of them is in it and it
-- looks empty.
use itc_platform.Common.{
  ℕ, zero, suc, ◌<◌, ◌≤◌, ◌≡◌, arith, List, [], ◌∷◌, length, ◌==◌, if◌then◌else◌, ◌≤ℤ◌, signed32,
  pos,
}
use itc_platform.Common.Bags.{weigh, SameItems, bag_of, bag_of-eq}
use itc_platform.Common.Family.{total, entry-le-total, total-eq-zero}
use itc_platform.Queue.{Config, sub32}
use itc_platform.Queue.Slots.{IsConfig}
use itc_platform.Queue.Threads.{idle, System, Reach}
use itc_platform.Queue.Threads.Conserve.{Reach-Inv, unit_weight, carried, quiet_size}

total-le-bound :
    (w : ℕ → ℕ) (bound : ℕ) (entries : ℕ → ℕ) → ((x : ℕ) → w x ≤ 1) → total w bound entries ≤ bound
unfolding total
total-le-bound w zero entries small = omega arith
total-le-bound w (suc bound) entries small =
    omega (arith, small (entries bound), total-le-bound w bound entries small)

module _ (c : Config) where
  -- The weight without that of NIL.
  abbrev real_weight : (ℕ → ℕ) → ℕ → ℕ
  real_weight w x = if x == c.nil then 0 else w x

  unit_weight-le : (xs : List ℕ) → weigh (unit_weight c) xs ≤ length xs
  unit_weight-le [] = omega arith
  unit_weight-le (x ∷ xs) = ground (arith, unit_weight-le xs)

  -- A list without NIL weighs the same.
  weigh-real :
      (w : ℕ → ℕ) (xs : List ℕ)
      → weigh (unit_weight c) xs ≡ length xs
      → weigh (real_weight w) xs ≡ weigh w xs
  weigh-real w [] e = omega arith
  weigh-real w (x ∷ xs) e = ground (arith, unit_weight-le xs, weigh-real w xs)

module _ {c : Config} (v : IsConfig c) {n : ℕ} {s : System} (r : Reach c n s)
    (quiet : (i : ℕ) → i < n → s.pc i ≡ idle)
    (looks_empty : signed32 (sub32 s.head s.tail) ≤ℤ pos 0) where
  nothing_stored : total (unit_weight c) c.size s.cells ≡ 0
  nothing_stored = ground (
    arith,
    v.small,
    looks_empty,
    quiet_size v r quiet,
    total-le-bound (unit_weight c) c.size s.cells (λ x. ground arith),
  )

  drained-SameItems : SameItems s.accepted s.popped
  drained-SameItems w = omega (
    arith,
    weigh-real c w s.accepted accepted_real,
    weigh-real c w s.popped popped_real,
    conserved (real_weight c w) (ground arith),
    total-eq-zero (carried (real_weight c w)) n s.pc (λ i lt. ground (arith, quiet i lt)),
    total-eq-zero (real_weight c w) c.size s.cells (λ i lt.
        ground (arith, nothing_stored, entry-le-total (unit_weight c) c.size s.cells i lt)),
  )
    where
      open (Reach-Inv v r) use {conserved, accepted_real, popped_real}

  -- As bags, what was accepted and what was handed out are the same.
  pub drained : bag_of s.accepted ≡ bag_of s.popped
  drained = bag_of-eq drained-SameItems
