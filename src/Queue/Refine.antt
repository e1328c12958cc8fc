-- ===== src/Queue/Refine.antt =====
-- The operations of sw/itc-common/inc/itcLockFreeQueue.h, called one at a time, against the bounded
-- FIFO of Queue/Fifo.antt.
use mathlib.Core.Option
use itc_platform.Common.{
  ℕ, ◌<◌, ◌≡◌, ◌≢◌, refl, sym, ap, ◌∙◌, arith, ◌⊎◌, inl, inr, Bool, true, false, Option, none, some,
  List, [], ◌∷◌, ◌++◌, length, dec_lt,
}
use itc_platform.Queue
use itc_platform.Queue.{Config, Queue, slot, try_push, try_pop, push, pop}
use itc_platform.Queue.Slots.{IsConfig}
use itc_platform.Queue.Window.{
  count, contents, IsQueue, length-window, window-update, window-suc, at_head, after_push,
  count-after_push, after_push-IsQueue, try_push-full, try_push-room, after_pop, count-after_pop,
  after_pop-IsQueue, behind, try_pop-empty, try_pop-some, push-room, push-full, pop-some, pop-empty,
}
use itc_platform.Queue.Fifo
use itc_platform.Queue.Fifo.{Call, put, get, Answer, pushed, popped}

module _ {c : Config} (v : IsConfig c) where
  -- `tryPush` answers as the bounded FIFO of the contents does, waits for nobody, and leaves a
  -- queue that holds the FIFO's new contents: the element is added at the end, or the queue is full
  -- and nothing changes.
  pub try_push-refines :
      (q : Queue) (x : ℕ)
      → IsQueue c q
      → x ≢ c.nil
      → (done : Bool) × (q' : Queue) × (try_push c x q ≡ some (done, q'))
        × (Fifo.try_push c.size x (contents c q) ≡ (done, contents c q'))
        × IsQueue c q'
  unfolding Fifo.try_push
  try_push-refines q x i ne = elim (dec_lt (count q) c.size) [
    | yes room ↦ (
      true,
      after_push v i x,
      try_push-room v i x room,
      ground (
        arith,
        length-window c q.cells q.tail (count q),
        count-after_push v i x room,
        window-update v q.cells x q.tail (count q) q.head i.tail_fits room
            (sym (at_head v i _ refl)),
      ),
      after_push-IsQueue v i x ne room,
    )
    | no full ↦
        let e : count q ≡ c.size = omega (arith, i.bounded) in
        (
          false,
          q,
          try_push-full v i x e,
          ground (arith, length-window c q.cells q.tail (count q)),
          i,
        )
  ]

  -- `tryPop` answers as the FIFO of the contents does, waits for nobody, and leaves a queue that
  -- holds the rest: the oldest element is handed out, or the queue is empty and nothing changes.
  pub try_pop-refines :
      (q : Queue)
      → IsQueue c q
      → (out : Option ℕ) × (q' : Queue) × (try_pop c q ≡ some (out, q'))
        × (Fifo.try_pop (contents c q) ≡ (out, contents c q'))
        × IsQueue c q'
  unfolding Fifo.try_pop
  try_pop-refines q i = elim (dec_lt 0 (count q)) [
    | yes more ↦ (
      some (q.cells (slot c q.tail)),
      after_pop v i,
      try_pop-some v i more,
      rw (window-suc v q (count q) (omega arith), count-after_pop v i more)
          (ap (λ xs. (some (q.cells (slot c q.tail)), xs)) (sym (behind v i more))),
      after_pop-IsQueue v i more,
    )
    | no none_left ↦
        let e : count q ≡ 0 = omega arith in (none, q, try_pop-empty v i e, rw e refl, i)
  ]

  -- The calls that a caller makes one after another, each with its answer; `none` is a call that
  -- waits for ever.
  pub run : Queue → List Call → Option (List Answer)
  run q [] = some []
  run q (put x ∷ calls) = elim (try_push c x q) [
    | none ↦ none
    | some (done, q') ↦ Option.map (λ answers. pushed done ∷ answers) (run q' calls)
  ]
  run q (get ∷ calls) = elim (try_pop c q) [
    | none ↦ none
    | some (out, q') ↦ Option.map (λ answers. popped out ∷ answers) (run q' calls)
  ]

  abbrev pub NoNil : List Call → Type 0
  NoNil [] = Unit
  NoNil (put x ∷ calls) = (x ≢ c.nil) × NoNil calls
  NoNil (get ∷ calls) = NoNil calls

  -- No sequence of `tryPush` and `tryPop` calls that pushes no NIL tells a well-formed queue of a
  -- valid configuration from the bounded FIFO of its contents, and none of them waits.
  pub run_refines :
      (calls : List Call) (q : Queue)
      → IsQueue c q
      → NoNil calls
      → run q calls ≡ some (Fifo.run c.size (contents c q) calls)
  unfolding run Fifo.run
  run_refines [] q i ok = refl
  run_refines (put x ∷ calls) q i ok =
      let (done, q', e, f, i') = try_push-refines q x i ok.0 in
      ground (arith, e, f, run_refines calls q' i' ok.1)
  run_refines (get ∷ calls) q i ok =
      let (out, q', e, f, i') = try_pop-refines q i in
      ground (arith, e, f, run_refines calls q' i' ok)

  -- `push`, with no bound test of its own, adds at the end of the contents while there is room, and
  -- waits when the queue is full.
  pub push-refines :
      (q : Queue) (x : ℕ)
      → IsQueue c q
      → x ≢ c.nil
      → ((count q ≡ c.size) × (push c x q ≡ none))
        ⊎ ((q' : Queue) × (push c x q ≡ some q')
            × (contents c q' ≡ contents c q ++ (x ∷ []))
            × IsQueue c q')
  push-refines q x i ne = elim (dec_lt (count q) c.size) [
    | yes room ↦ inr (
      after_push v i x,
      push-room v i x room,
      ground (
        arith,
        count-after_push v i x room,
        window-update v q.cells x q.tail (count q) q.head i.tail_fits room
            (sym (at_head v i _ refl)),
      ),
      after_push-IsQueue v i x ne room,
    )
    | no full ↦ let e : count q ≡ c.size = omega (arith, i.bounded) in inl (e, push-full v i x e)
  ]

  -- `pop` hands out the oldest element, and waits when the queue is empty.
  pub pop-refines :
      (q : Queue)
      → IsQueue c q
      → ((contents c q ≡ []) × (pop c q ≡ none))
        ⊎ ((x : ℕ) × (q' : Queue) × (pop c q ≡ some (x, q'))
            × (contents c q ≡ x ∷ contents c q')
            × IsQueue c q')
  pop-refines q i = elim (dec_lt 0 (count q)) [
    | yes more ↦ inr (
      q.cells (slot c q.tail),
      after_pop v i,
      pop-some v i more,
      window-suc v q (count q) (omega arith)
          ∙ rw (count-after_pop v i more)
              (ap (λ xs. q.cells (slot c q.tail) ∷ xs) (sym (behind v i more))),
      after_pop-IsQueue v i more,
    )
    | no none_left ↦ let e : count q ≡ 0 = omega arith in inl (rw e refl, pop-empty v i e)
  ]

  -- `size` is the length of the contents.
  pub size-length : (q : Queue) → IsQueue c q → Queue.size c q ≡ length (contents c q)
  unfolding Queue.size
  size-length q i = ground (arith, v.small, i.bounded, length-window c q.cells q.tail (count q))

  -- With room left, `tryPush` accepts.
  pub try_push-append :
      (q : Queue) (x : ℕ)
      → IsQueue c q
      → x ≢ c.nil
      → length (contents c q) < c.size
      → (q' : Queue) × (try_push c x q ≡ some (true, q'))
        × (contents c q' ≡ contents c q ++ (x ∷ []))
        × IsQueue c q'
  unfolding Fifo.try_push
  try_push-append q x i ne room =
      let (done, q', run, answer, i') = try_push-refines q x i ne in
      (q', ground (arith, run, answer), ground (arith, answer), i')
