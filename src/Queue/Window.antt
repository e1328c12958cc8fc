-- ===== src/Queue/Window.antt =====
-- The elements between the tail and the head of a queue of sw/itc-common/inc/itcLockFreeQueue.h, and
-- what one operation does to them.
use itc_platform.Common.{
  ℕ, zero, suc, ◌+◌, ◌-◌, ◌%◌, ◌^◌, ◌≤◌, ◌<◌, ◌≡◌, ◌≢◌, refl, sym, ap, ap₂, ◌∙◌, arith, true, false,
  none, some, List, [], ◌∷◌, ◌++◌, length, dec_lt, ℕ_discrete,
}
use itc_platform.Common.Family.{update}
use itc_platform.Queue.{
  Config, Queue, slot, sub32, succ32, do_push, do_pop, try_push, try_pop, push, pop, empty_queue,
}
use itc_platform.Queue.Slots.{IsConfig, slot_unique, slot-round}

module _ (c : Config) (cells : ℕ → ℕ) where
  -- The elements of `n` consecutive indices from `t` on.
  abbrev pub window : ℕ → ℕ → List ℕ
  window t zero = []
  window t (suc n) = cells (slot c t) ∷ window (succ32 t) n

  pub length-window : (t n : ℕ) → length (window t n) ≡ n
  length-window t zero = refl
  length-window t (suc n) = ap suc (length-window (succ32 t) n)

abbrev pub count : Queue → ℕ
count q = sub32 q.head q.tail

abbrev pub contents : Config → Queue → List ℕ
contents c q = window c q.cells q.tail (count q)

-- Between two calls: the cells of the indices from tail to head are taken, the others are NIL.
pub record IsQueue (c : Config) (q : Queue) : Type 0 where
  pub head_fits : q.head < 2 ^ 32
  pub tail_fits : q.tail < 2 ^ 32
  pub bounded : count q ≤ c.size
  pub taken : (d : ℕ) → d < count q → q.cells (slot c ((q.tail + d) % 2 ^ 32)) ≢ c.nil
  pub free : (d : ℕ) → count q ≤ d → d < c.size → q.cells (slot c ((q.tail + d) % 2 ^ 32)) ≡ c.nil

module _ {c : Config} (v : IsConfig c) where
  pub empty_queue-IsQueue : IsQueue c (empty_queue c)
  unfolding empty_queue
  empty_queue-IsQueue = record {
    head_fits = omega arith;
    tail_fits = omega arith;
    bounded = omega arith;
    taken = λ d h. absurd (omega arith);
    free = λ d h k. refl;
  }

  -- An index and one that stands `d` after it, `d` below the size, do not share a cell.
  pub slot-ne : (t d : ℕ) → t < 2 ^ 32 → 0 < d → d < c.size → slot c ((t + d) % 2 ^ 32) ≢ slot c t
  slot-ne t d ht pos hd e =
      let same : slot c ((t + d) % 2 ^ 32) ≡ slot c ((t + 0) % 2 ^ 32) =
        e ∙ ap (slot c) {x = t} {y = (t + 0) % 2 ^ 32} (omega arith) in
      absurd (omega (arith, slot_unique v t d 0 hd (omega arith) same))

  -- Writing one index past a window extends it by that element.
  pub window-update :
      (cells : ℕ → ℕ) (x t n i : ℕ)
      → t < 2 ^ 32
      → n < c.size
      → i ≡ (t + n) % 2 ^ 32
      → window c (update cells (slot c i) x) t (suc n) ≡ window c cells t n ++ (x ∷ [])
  window-update cells x t zero i ht hn e = let same : i ≡ t = omega arith in rw same (ground arith)
  window-update cells x t (suc n) i ht hn e =
      ap₂ ◌∷◌ (ground (arith, slot-ne t (suc n)))
        (window-update cells x (succ32 t) n i (omega arith) (omega arith) (omega arith))

  -- Writing at an index changes no window that stands `k` after it and ends before it comes round.
  pub window-update_ne :
      (cells : ℕ → ℕ) (x t k n : ℕ)
      → t < 2 ^ 32
      → 0 < k
      → k + n ≤ c.size
      → window c (update cells (slot c t) x) ((t + k) % 2 ^ 32) n
        ≡ window c cells ((t + k) % 2 ^ 32) n
  window-update_ne cells x t k zero ht hk hn = refl
  window-update_ne cells x t k (suc n) ht hk hn =
      let e : succ32 ((t + k) % 2 ^ 32) ≡ (t + suc k) % 2 ^ 32 = omega arith in
      ap₂ ◌∷◌ (ground (arith, slot-ne t k))
        (rw e (window-update_ne cells x t (suc k) n ht (omega arith) (omega arith)))

  pub window-suc :
      (q : Queue) (n : ℕ)
      → n ≢ 0
      → window c q.cells q.tail n
        ≡ q.cells (slot c q.tail) ∷ window c q.cells (succ32 q.tail) (n - 1)
  window-suc q zero h = absurd (h refl)
  window-suc q (suc n) h = ap (λ k. window c q.cells q.tail (suc k)) (omega arith)

  module _ {q : Queue} (i : IsQueue c q) where
    pub at_head : (d : ℕ) → d ≡ count q → (q.tail + d) % 2 ^ 32 ≡ q.head
    at_head d h = omega (arith, i.head_fits, i.tail_fits)

    -- The queue after a push of `x` that the bound allows.
    abbrev pub after_push : ℕ → Queue
    after_push x = record q { head = succ32 q.head; cells = update q.cells (slot c q.head) x }

    pub count-after_push : (x : ℕ) → count q < c.size → count (after_push x) ≡ count q + 1
    count-after_push x h = omega (arith, i.head_fits, i.tail_fits, v.small)

    pub head-ne :
        (d : ℕ)
        → d ≢ count q
        → d < c.size
        → count q < c.size
        → slot c q.head ≢ slot c ((q.tail + d) % 2 ^ 32)
    head-ne d ne hd h e =
        ne (sym (slot_unique v q.tail (count q) d h hd (ap (slot c) (at_head (count q) refl) ∙ e)))

    pub after_push-IsQueue : (x : ℕ) → x ≢ c.nil → count q < c.size → IsQueue c (after_push x)
    after_push-IsQueue x ne h = record {
      head_fits = omega arith;
      tail_fits = i.tail_fits;
      bounded = omega (arith, count-after_push x h);
      taken = λ d hd. elim (ℕ_discrete d (count q)) [
        | yes e ↦ ground (arith, at_head d e)
        | no e ↦ ground (arith, count-after_push x h, head-ne d e, i.taken d)
      ];
      free = λ d h1 h2. ground (arith, count-after_push x h, head-ne d, i.free d);
    }

    pub try_push-full : (x : ℕ) → count q ≡ c.size → try_push c x q ≡ some (false, q)
    unfolding try_push
    try_push-full x h = ground (arith, v.small)

    pub try_push-room : (x : ℕ) → count q < c.size → try_push c x q ≡ some (true, after_push x)
    unfolding try_push do_push
    try_push-room x h =
        ground (arith, v.small, at_head (count q) refl, i.free (count q) (omega arith) h)

    -- The queue after a pop from one that is not empty.
    abbrev pub after_pop : Queue
    after_pop = record q { tail = succ32 q.tail; cells = update q.cells (slot c q.tail) c.nil }

    pub count-after_pop : 0 < count q → count after_pop ≡ count q - 1
    count-after_pop h = omega (arith, i.head_fits, i.tail_fits, v.small, i.bounded)

    pub at_tail : (q.tail + 0) % 2 ^ 32 ≡ q.tail
    at_tail = omega (arith, i.tail_fits)

    pub next_index : (d : ℕ) → (succ32 q.tail + d) % 2 ^ 32 ≡ (q.tail + suc d) % 2 ^ 32
    next_index d = omega arith

    pub after_pop-IsQueue : 0 < count q → IsQueue c after_pop
    after_pop-IsQueue h = record {
      head_fits = i.head_fits;
      tail_fits = omega arith;
      bounded = omega (arith, count-after_pop h, i.bounded);
      taken = λ d hd.
          rw (next_index d)
            (ground (arith, count-after_pop h, i.bounded, slot-ne q.tail (suc d), i.taken (suc d)));
      free = λ d h1 h2. rw (next_index d) (elim (dec_lt (suc d) c.size) [
        | yes p ↦ ground (arith, count-after_pop h, slot-ne q.tail (suc d), i.free (suc d))
        | no p ↦ let e : suc d ≡ c.size = omega arith in rw e (ground (arith, slot-round v q.tail))
      ]);
    }

    -- The cell that is emptied is not among those that are left.
    pub behind :
        0 < count q
        → window c (after_pop).cells (succ32 q.tail) (count q - 1)
          ≡ window c q.cells (succ32 q.tail) (count q - 1)
    behind h =
        window-update_ne q.cells c.nil q.tail 1 (count q - 1) i.tail_fits (omega arith)
          (omega (arith, i.bounded))

    pub try_pop-empty : count q ≡ 0 → try_pop c q ≡ some (none, q)
    unfolding try_pop
    try_pop-empty h = ground arith

    pub try_pop-some : 0 < count q → try_pop c q ≡ some (some (q.cells (slot c q.tail)), after_pop)
    unfolding try_pop do_pop
    try_pop-some h = ground (arith, v.small, i.bounded, at_tail, i.taken 0 h)

  module _ {q : Queue} (i : IsQueue c q) where
    pub push-room : (x : ℕ) → count q < c.size → push c x q ≡ some (after_push i x)
    unfolding push do_push
    push-room x h = ground (arith, at_head i (count q) refl, i.free (count q) (omega arith) h)

    pub push-full : (x : ℕ) → count q ≡ c.size → push c x q ≡ none
    unfolding push do_push
    push-full x h =
        let e : q.head ≡ (q.tail + c.size) % 2 ^ 32 = sym (at_head i c.size (sym h)) in
        ground (
          arith,
          v.size_pos,
          ap (slot c) e,
          slot-round v q.tail,
          at_tail i,
          i.taken 0 (omega (arith, v.size_pos)),
        )

    pub pop-some : 0 < count q → pop c q ≡ some (q.cells (slot c q.tail), after_pop i)
    unfolding pop do_pop
    pop-some h = ground (arith, at_tail i, i.taken 0 h)

    pub pop-empty : count q ≡ 0 → pop c q ≡ none
    unfolding pop do_pop
    pop-empty h = ground (arith, at_tail i, i.free 0 (omega arith) v.size_pos)
