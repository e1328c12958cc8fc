-- ===== src/Container/Threads/Supply.antt =====
-- Whether a thread can wait for ever for a free entry of a container
-- (sw/itc-common/inc/itcConcurrentContainer.h).
use itc_platform.Common.{ℕ, zero, suc, ◌+◌, ◌≤◌, ◌≡◌, refl, ap, arith, List, [], ◌∷◌, length}
use itc_platform.Common.Bags.{weigh}
use itc_platform.Common.Family.{total}
use itc_platform.Queue.{Config}
use itc_platform.Queue.Slots.{IsConfig}
use itc_platform.Queue.Threads.Conserve.{waits}
use itc_platform.Queue.Threads.Settle.{Settles, room-Settles}
use itc_platform.Container.Threads.{
  FreeEntries, Move, build_next, build_end, get, give, inside, by, Reach, start, later,
}
use itc_platform.Container.Threads.Owners.{pending, weigh_begun, Owned, Reach-Owned}

abbrev pub one : ℕ → ℕ
one x = 1

weigh-one : (xs : List ℕ) → weigh one xs ≡ length xs
weigh-one [] = refl
weigh-one (x ∷ xs) = omega (arith, weigh-one xs)

weigh_begun-one : (begun : ℕ) → weigh_begun one begun ≡ begun
unfolding weigh_begun
weigh_begun-one zero = refl
weigh_begun-one (suc k) = omega (arith, weigh_begun-one k)

module _ {c : Config} {capacity : ℕ} where
  Move-begun :
      {s : FreeEntries} (i : ℕ) {t : FreeEntries}
      → Move c capacity s i t
      → s.begun ≤ capacity
      → t.begun ≤ capacity
  Move-begun i (build_next b z e f) le = omega arith
  Move-begun i (build_end b z e f) le = le
  Move-begun i (get b e) le = le
  Move-begun i (give before after entry b e h real) le = le
  Move-begun i (inside busy mv) le = le

  Reach-begun : {n : ℕ} {s : FreeEntries} → Reach c capacity n s → s.begun ≤ capacity
  Reach-begun start = omega arith
  Reach-begun (later r (by i lt mv)) = Move-begun i mv (Reach-begun r)

-- As long as the threads that wait for an entry, the entries that are held and those that are about to be
-- given back are together at most as many as the entries that the constructor has come to, every
-- operation that holds an index can be brought to its end by the threads that hold one: each that waits
-- for an entry gets one. A thread gives back entries that it holds only. The queue has room for all the entries, is in a valid configuration, and its
-- NIL is nullptr.
pub entries_suffice :
    {c : Config} {capacity n : ℕ} {s : FreeEntries}
    → IsConfig c
    → c.nil ≡ 0
    → capacity ≤ c.size
    → Reach c capacity n s
    → total waits n s.queue.pc + total length n s.held + total (pending one) n s.queue.pc ≤ s.begun
    → Settles c n s.queue
entries_suffice {c = c} {n = n} {s = s} v nil room r enough =
    room-Settles v o.queue (omega (arith, balance)) (omega (arith, balance, Reach-begun r))
  where
    o : Owned c n s
    o = Reach-Owned nil r

    balance :
        length s.queue.accepted + total length n s.held + total (pending one) n s.queue.pc
        ≡ length s.queue.popped + s.begun
    balance = omega (
      arith,
      o.counts one,
      weigh-one s.queue.accepted,
      weigh-one s.queue.popped,
      weigh_begun-one s.begun,
      ap (λ w. total w n s.held) {x = weigh one} {y = length} (λ j xs. weigh-one xs j),
    )
