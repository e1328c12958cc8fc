-- ===== src/Mailbox/Drain.antt =====
-- The loop over the messages that are left when a mailbox is deactivated (`setState`,
-- sw/itc-common/src/itcMailbox.cc).
use mathlib.Core.Option
use itc_platform.Common.{
  ℕ, zero, suc, ◌^◌, ◌<◌, ◌≡◌, refl, sym, ap, ◌∙◌, arith, Bool, true, false, Option, none, some,
  List, [], ◌∷◌, length,
}
use itc_platform.Queue
use itc_platform.Queue.{Queue, Config}
use itc_platform.Queue.Slots.{IsConfig}
use itc_platform.Queue.Window.{
  count, contents, IsQueue, length-window, try_pop-empty, empty_queue-IsQueue,
}
use itc_platform.Queue.Refine.{try_pop-refines, size-length}
use itc_platform.Queue.Fifo
use itc_platform.Message.{Heap, deallocate}
use itc_platform.Mailbox.{rx_config, drain}

pub rx_config-eq : rx_config ≡ record { size = 1024; bits = 3; nil = 0 }
unfolding rx_config Queue.round_up_to_power_of_2 Queue.index_shuffle_bits
    Queue.cache_line_index_bits
rx_config-eq = refl

pub rx_config-IsConfig : IsConfig rx_config
rx_config-IsConfig = rw rx_config-eq (record {
  size_pos = omega arith;
  small = omega arith;
  divides = ∣ (2 ^ 22, λ i. 2 ^ 32) ∣₁;
  bits_small = omega arith;
  blocks = 16;
  in_blocks = refl;
})

-- Every message of a list is handed to `deallocate`, the first one first.
unfoldable pub deallocate_all : List ℕ → Heap → Option Heap
deallocate_all [] h = some h
deallocate_all (msg ∷ msgs) h = elim (deallocate msg h) [
  | none ↦ none
  | some (done, h') ↦ deallocate_all msgs h'
]

-- What the loop leaves behind: an empty queue, and the heap after all deallocations. A fault of
-- `deallocate` is a fault of the loop.
pub record Drained (msgs : List ℕ) (h : Heap) (out : Option (Queue × Heap)) : Type 0 where
  pub left : Queue
  pub left_empty : contents rx_config left ≡ []
  pub left_valid : IsQueue rx_config left
  pub result : out ≡ Option.map (λ h'. (left, h')) (deallocate_all msgs h)

abbrev Ends : ℕ → Type 0
Ends fuel =
    (q : Queue) (h : Heap)
    → IsQueue rx_config q
    → length (contents rx_config q) < fuel
    → Drained (contents rx_config q) h (drain fuel q h)

empty-nil :
    (q : Queue) → IsQueue rx_config q → contents rx_config q ≡ [] → Queue.empty rx_config q ≡ true
unfolding Queue.empty
empty-nil q i e = ground (arith, size-length rx_config-IsConfig q i, ap length e)

empty-cons :
    (q : Queue) (x : ℕ) (xs : List ℕ)
    → IsQueue rx_config q
    → contents rx_config q ≡ x ∷ xs
    → Queue.empty rx_config q ≡ false
unfolding Queue.empty
empty-cons q x xs i e = ground (arith, size-length rx_config-IsConfig q i, ap length e)

-- What a non-blocking pop does, by what the queue holds.
pub try_pop-nil :
    (q : Queue)
    → IsQueue rx_config q
    → contents rx_config q ≡ []
    → Queue.try_pop rx_config q ≡ some (none, q)
try_pop-nil q i e =
    try_pop-empty rx_config-IsConfig i
      (sym (length-window rx_config q.cells q.tail (count q)) ∙ ap length e)

pub try_pop-cons :
    (q : Queue) (x : ℕ) (xs : List ℕ)
    → IsQueue rx_config q
    → contents rx_config q ≡ x ∷ xs
    → (q' : Queue) × (Queue.try_pop rx_config q ≡ some (some x, q'))
      × (contents rx_config q' ≡ xs)
      × IsQueue rx_config q'
unfolding Fifo.try_pop
try_pop-cons q x xs i e =
    let (out, q', run, answer, i') = try_pop-refines rx_config-IsConfig q i in
    let answer' : ◌≡◌ {A = Option ℕ × List ℕ} (some x, xs) (out, contents rx_config q') =
      rw e at answer in
    (q', ground (arith, run, answer'), ground (arith, answer'), i')

none_left : contents rx_config (Queue.empty_queue rx_config) ≡ []
unfolding Queue.empty_queue
none_left = refl

module _ (fuel : ℕ) (rest : Ends fuel) (q : Queue) (h : Heap) (i : IsQueue rx_config q) where
  drain-nil : contents rx_config q ≡ [] → Drained [] h (drain (suc fuel) q h)
  unfolding drain deallocate_all
  drain-nil e = record {
    left = q;
    left_empty = e;
    left_valid = i;
    result = ground (arith, empty-nil q i e);
  }

  drain-cons :
      (x : ℕ) (xs : List ℕ)
      → contents rx_config q ≡ x ∷ xs
      → length xs < fuel
      → Drained (x ∷ xs) h (drain (suc fuel) q h)
  unfolding drain deallocate_all
  drain-cons x xs e short =
      let (q', run, left, i') = try_pop-cons q x xs i e in go q' run left i' (deallocate x h) refl
    where
      go :
          (q' : Queue)
          → Queue.try_pop rx_config q ≡ some (some x, q')
          → contents rx_config q' ≡ xs
          → IsQueue rx_config q'
          → (o : Option (Bool × Heap)) → deallocate x h ≡ o
          → Drained (x ∷ xs) h (drain (suc fuel) q h)
      go q' run left i' none d = record {
        left = Queue.empty_queue rx_config;
        left_empty = none_left;
        left_valid = empty_queue-IsQueue rx_config-IsConfig;
        result = ground (arith, empty-cons q x xs i e, run, d);
      }
      go q' run left i' (some (done, h')) d =
          let r : Drained (contents rx_config q') h' (drain fuel q' h') =
            rest q' h' i' (omega (arith, ap length left)) in
          record {
            left = r.left;
            left_empty = r.left_empty;
            left_valid = r.left_valid;
            result = ground (arith, empty-cons q x xs i e, run, d, r.result, left);
          }

  drain-split :
      (xs : List ℕ)
      → contents rx_config q ≡ xs
      → length xs < suc fuel
      → Drained xs h (drain (suc fuel) q h)
  drain-split [] e short = drain-nil e
  drain-split (x ∷ xs) e short = drain-cons x xs e (omega arith)

-- With more fuel than messages the loop of `setState` ends: it deallocates every message that was
-- in the queue, the oldest first, and leaves the queue empty.
pub drain_lem :
    (fuel : ℕ) (q : Queue) (h : Heap)
    → IsQueue rx_config q
    → length (contents rx_config q) < fuel
    → Drained (contents rx_config q) h (drain fuel q h)
drain_lem zero q h i short = absurd (omega arith)
drain_lem (suc fuel) q h i short =
    drain-split fuel (drain_lem fuel) q h i (contents rx_config q) refl short
