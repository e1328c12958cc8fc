-- ===== src/Container/Threads/Owners.antt =====
-- Who has the entries of a container that threads share
-- (sw/itc-common/inc/itcConcurrentContainer.h).
use itc_platform.Common.{
  ℕ, zero, suc, ◌+◌, ◌<◌, ◌≤◌, ◌≡◌, ◌≢◌, refl, ap, sym, arith, List, [], ◌∷◌, ◌++◌, leb,
  if◌then◌else◌,
}
use mathlib.Core.Path.{subst}
use itc_platform.Common.Bags.{weigh}
use itc_platform.Common.Family.{
  update, update_self, total, total-update, total-change, total-eq-zero,
}
use itc_platform.Container.{at}
use itc_platform.Queue.{Config, slot}
use itc_platform.Queue.Slots.{IsConfig}
use itc_platform.Queue.Threads
use itc_platform.Queue.Threads.{
  Pc, idle, push_test, push_cas, storing, pop_test, pop_cas, taking, System, push_add, push_load,
  push_full, push_room, push_win, push_lose, store, store_wait, pop_add, pop_load, pop_empty,
  pop_more, pop_win, pop_lose, take, take_wait,
}
use itc_platform.Queue.Threads.Others.{Move-others}
use itc_platform.Queue.Threads.Conserve.{times, carried, elements_conserved}
use itc_platform.Container.Threads.{
  FreeEntries, gains, Move, build_next, build_end, get, give, inside, by, Reach, start, later,
}

-- The weight of an entry that a thread has still to be granted an index for.
abbrev pub pending : (ℕ → ℕ) → Pc → ℕ
pending w (push_test x h) = w x
pending w (push_cas x h) = w x
pending w _ = 0

weigh-append : (w : ℕ → ℕ) (xs ys : List ℕ) → weigh w (xs ++ ys) ≡ weigh w xs + weigh w ys
weigh-append w [] ys = omega arith
weigh-append w (x ∷ xs) ys = omega (arith, weigh-append w xs ys)

-- What goes into the queue, out of it and to the thread while the thread goes from one place to another.
abbrev Weighs : Config → (ℕ → ℕ) → System → (accepted popped : List ℕ) → Pc → Pc → Type 0
Weighs c w q accepted popped before after =
    weigh w accepted + weigh w (gains c q.cells before after) + pending w after + weigh w q.popped
    ≡ weigh w popped + weigh w q.accepted + pending w before

at_places :
    (P : Pc → Pc → Type 0) (pc : ℕ → Pc) (i : ℕ) {before : Pc} (after : Pc)
    → pc i ≡ before
    → P before after
    → P (pc i) (update pc i after i)
at_places P pc i after e h =
    subst (P (pc i)) (sym (update_self pc i after)) (subst (λ p. P p after) (sym e) h)

Move-Weighs :
    {c : Config} {q : System} (i : ℕ) {q' : System} (w : ℕ → ℕ)
    → q.pc i ≢ idle
    → Threads.Move c q i q'
    → Weighs c w q q'.accepted q'.popped (q.pc i) (q'.pc i)
Move-Weighs i w busy (push_add x e r) = absurd (busy e)
Move-Weighs i w busy (push_load x e r) = absurd (busy e)
Move-Weighs i w busy (pop_add e) = absurd (busy e)
Move-Weighs i w busy (pop_load e) = absurd (busy e)
Move-Weighs {c = c} {q = q} i w busy (push_full e f) =
    at_places (Weighs c w q q.accepted q.popped) q.pc i idle e (omega arith)
Move-Weighs {c = c} {q = q} i w busy (push_room {x} {h} e f) =
    at_places (Weighs c w q q.accepted q.popped) q.pc i (push_cas x h) e (omega arith)
Move-Weighs {c = c} {q = q} i w busy (push_win {x} {h} e f) =
    at_places (Weighs c w q (x ∷ q.accepted) q.popped) q.pc i (storing x h) e (omega arith)
Move-Weighs {c = c} {q = q} i w busy (push_lose {x} e) =
    at_places (Weighs c w q q.accepted q.popped) q.pc i (push_test x q.head) e (omega arith)
Move-Weighs {c = c} {q = q} i w busy (store e f) =
    at_places (Weighs c w q q.accepted q.popped) q.pc i idle e (omega arith)
Move-Weighs {c = c} {q = q} i w busy (store_wait e) = rw e (omega arith)
Move-Weighs {c = c} {q = q} i w busy (pop_empty e f) =
    at_places (Weighs c w q q.accepted q.popped) q.pc i idle e (omega arith)
Move-Weighs {c = c} {q = q} i w busy (pop_more {t} e f) =
    at_places (Weighs c w q q.accepted q.popped) q.pc i (pop_cas t) e (omega arith)
Move-Weighs {c = c} {q = q} i w busy (pop_win {t} e f) =
    at_places (Weighs c w q q.accepted q.popped) q.pc i (taking t) e (omega arith)
Move-Weighs {c = c} {q = q} i w busy (pop_lose e) =
    at_places (Weighs c w q q.accepted q.popped) q.pc i (pop_test q.tail) e (omega arith)
Move-Weighs {c = c} {q = q} i w busy (take {t} e f) =
    at_places (Weighs c w q q.accepted (q.cells (slot c t) ∷ q.popped)) q.pc i idle e (omega arith)
Move-Weighs {c = c} {q = q} i w busy (take_wait e f) = rw e (omega arith)

-- The weight of the entries that the constructor's loop has come to.
unfoldable pub weigh_begun : (ℕ → ℕ) → ℕ → ℕ
weigh_begun w zero = 0
weigh_begun w (suc k) = w (suc k) + weigh_begun w k

pub record Owned (c : Config) (n : ℕ) (s : FreeEntries) : Type 0 where
  pub queue : Threads.Reach c n s.queue
  pub counts :
      (w : ℕ → ℕ)
      → weigh w s.queue.accepted + total (weigh w) n s.held + total (pending w) n s.queue.pc
        ≡ weigh w s.queue.popped + weigh_begun w s.begun

module _ {c : Config} (nil : c.nil ≡ 0) {capacity n : ℕ} where
  Move-queue :
      {s : FreeEntries} (i : ℕ) {t : FreeEntries}
      → i < n
      → Move c capacity s i t
      → Threads.Reach c n s.queue
      → Threads.Reach c n t.queue
  unfolding at
  Move-queue i lt (build_next b z e f) r =
      Threads.later r (Threads.by i lt (push_load _ e (λ same. omega arith)))
  Move-queue i lt (build_end b z e f) r = r
  Move-queue i lt (get b e) r = Threads.later r (Threads.by i lt (pop_add e))
  Move-queue i lt (give before after entry b e h real) r =
      Threads.later r (Threads.by i lt (push_load entry e real))
  Move-queue i lt (inside busy mv) r = Threads.later r (Threads.by i lt mv)

  Move-counts :
      {s : FreeEntries} (i : ℕ) {t : FreeEntries}
      → i < n
      → Move c capacity s i t
      → Owned c n s
      → (w : ℕ → ℕ)
      → weigh w t.queue.accepted + total (weigh w) n t.held + total (pending w) n t.queue.pc
        ≡ weigh w t.queue.popped + weigh_begun w t.begun
  unfolding at weigh_begun
  Move-counts {s} i lt (build_next b z e f) o w = ground (
    arith,
    o.counts w,
    ap (pending w) e,
    total-update (pending w) n s.queue.pc i (push_test (at s.begun) s.queue.head) lt,
  )
  Move-counts i lt (build_end b z e f) o w = o.counts w
  Move-counts {s} i lt (get b e) o w = omega (
    arith,
    o.counts w,
    ap (pending w) e,
    total-update (pending w) n s.queue.pc i (taking s.queue.tail) lt,
  )
  Move-counts {s} i lt (give before after given b e h real) o w = omega (
    arith,
    o.counts w,
    ap (pending w) e,
    total-update (pending w) n s.queue.pc i (push_test given s.queue.head) lt,
    total-update (weigh w) n s.held i (before ++ after) lt,
    ap (weigh w) h,
    weigh-append w before after,
    weigh-append w before (given ∷ after),
  )
  Move-counts {s} i lt (inside {q} busy mv) o w = omega (
    arith,
    o.counts w,
    Move-Weighs i w busy mv,
    total-change (pending w) n s.queue.pc q.pc i lt (Move-others i mv),
    total-update (weigh w) n s.held i (gains c s.queue.cells (s.queue.pc i) (q.pc i) ++ s.held i)
        lt,
    weigh-append w (gains c s.queue.cells (s.queue.pc i) (q.pc i)) (s.held i),
  )

  pub Reach-Owned : {s : FreeEntries} → Reach c capacity n s → Owned c n s
  unfolding weigh_begun
  Reach-Owned start = record {
    queue = Threads.start;
    counts = λ w. ground (
      arith,
      total-eq-zero (weigh w) n (λ _. []) (λ _ _. refl),
      total-eq-zero (pending w) n (λ _. idle) (λ _ _. refl),
    );
  }
  Reach-Owned (later r (by i lt mv)) = record {
    queue = Move-queue i lt mv (Reach-Owned r).queue;
    counts = Move-counts i lt mv (Reach-Owned r);
  }

weigh_begun-times :
    (entry : ℕ)
    → 0 < entry
    → (begun : ℕ) → weigh_begun (times entry) begun ≡ (if leb entry begun then 1 else 0)
unfolding weigh_begun
weigh_begun-times entry pos zero = ground arith
weigh_begun-times entry pos (suc k) = ground (arith, weigh_begun-times entry pos k)

-- However the threads interleave, each entry that the constructor has come to is in one place: a
-- thread holds it, or is about to push it, or has still to store it, or it stands in a cell of the
-- queue. So no two threads hold the same entry, and none that is held is free. A thread gives back
-- entries that it holds only. The queue is in a valid
-- configuration whose NIL is nullptr.
pub one_owner :
    {c : Config} {capacity n : ℕ} {s : FreeEntries}
    → IsConfig c
    → c.nil ≡ 0
    → Reach c capacity n s
    → (entry : ℕ) → 0 < entry
    → entry ≤ s.begun
    → total (weigh (times entry)) n s.held
        + total (pending (times entry)) n s.queue.pc
        + total (carried (times entry)) n s.queue.pc
        + total (times entry) c.size s.queue.cells
      ≡ 1
one_owner {c} {s = s} v nil r entry pos begun = ground (
  arith,
  weigh_begun-times entry pos s.begun,
  (Reach-Owned nil r).counts (times entry),
  elements_conserved v (Reach-Owned nil r).queue entry (λ e. omega arith),
)
