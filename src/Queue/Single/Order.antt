-- ===== src/Queue/Single/Order.antt =====
-- In which order the consumer of a single-producer queue gets its elements
-- (sw/itc-common/inc/itcLockFreeQueue.h).
use mathlib.Core.Path.{subst}
use mathlib.Core.List.{append_assoc}
use itc_platform.Common.{ℕ, ◌≤◌, ◌≡◌, ◌≢◌, refl, sym, ap, ap₂, ◌∙◌, arith, [], ◌∷◌, ◌++◌}
use itc_platform.Common.Family.{update, update_ne}
use itc_platform.Queue.{Config, Queue, slot, succ32, empty_queue}
use itc_platform.Queue.Slots.{IsConfig}
use itc_platform.Queue.Window.{contents, IsQueue, empty_queue-IsQueue, count}
use itc_platform.Queue.Ends.{
  stored_at_head, cleared_at_tail, contents-stored_at_head, contents-cleared_at_tail,
}
use itc_platform.Queue.Single.{
  Producer, no_push, testing_push, advancing_push, waiting_push, writing, Consumer, no_pop,
  testing_pop, advancing_pop, waiting_pop, clearing, Single, fresh, Access, try_push_load,
  push_load, push_refused, push_room, push_advance, push_free, push_wait, push_store, try_pop_load,
  pop_load, pop_refused, pop_more, pop_advance, pop_found, pop_wait, pop_clear, Run, begin, then,
}

-- The index that the next store goes to, and the one that the next element is taken from.
abbrev pub next_store : Producer → ℕ → ℕ
next_store (waiting_push x h) head = h
next_store (writing x h) head = h
next_store _ head = head

abbrev pub next_take : Consumer → ℕ → ℕ
next_take (waiting_pop t) tail = t
next_take (clearing t x) tail = t
next_take _ tail = tail

-- The queue of the elements that have been stored and not taken.
abbrev pub between : Single → Queue
between s = record {
  head = next_store s.producer s.head;
  tail = next_take s.consumer s.tail;
  cells = s.cells;
}

-- What the locals of the producer and of the consumer are worth, given the counter and the cells.
abbrev pub KnowsHead : Config → ℕ → (ℕ → ℕ) → Producer → Type 0
KnowsHead c head cells no_push = Unit
KnowsHead c head cells (testing_push x h) = (h ≡ head) × (x ≢ c.nil)
KnowsHead c head cells (advancing_push x h) = (h ≡ head) × (x ≢ c.nil)
KnowsHead c head cells (waiting_push x h) = (head ≡ succ32 h) × (x ≢ c.nil)
KnowsHead c head cells (writing x h) = (head ≡ succ32 h) × (x ≢ c.nil) × (cells (slot c h) ≡ c.nil)

abbrev pub KnowsTail : Config → ℕ → (ℕ → ℕ) → Consumer → Type 0
KnowsTail c tail cells no_pop = Unit
KnowsTail c tail cells (testing_pop t) = t ≡ tail
KnowsTail c tail cells (advancing_pop t) = t ≡ tail
KnowsTail c tail cells (waiting_pop t) = tail ≡ succ32 t
KnowsTail c tail cells (clearing t x) = (tail ≡ succ32 t) × (x ≢ c.nil) × (cells (slot c t) ≡ x)

pub record Ordered (c : Config) (s : Single) : Type 0 where
  pub valid : IsQueue c (between s)
  pub in_order : s.stored ≡ s.taken ++ contents c (between s)
  pub knows_head : KnowsHead c s.head s.cells s.producer
  pub knows_tail : KnowsTail c s.tail s.cells s.consumer

module _ {c : Config} (v : IsConfig c) where
  fresh-Ordered : Ordered c (fresh c)
  unfolding empty_queue
  fresh-Ordered = record {
    valid = empty_queue-IsQueue v;
    in_order = refl;
    knows_head = tt;
    knows_tail = tt;
  }

  -- An access that leaves the queue between the two as it is.
  kept :
      {s t : Single}
      → between t ≡ between s
      → t.stored ≡ s.stored
      → t.taken ≡ s.taken
      → Ordered c s
      → KnowsHead c t.head t.cells t.producer
      → KnowsTail c t.tail t.cells t.consumer
      → Ordered c t
  kept {s} {t} same stored taken o head tail = record {
    valid = subst (IsQueue c) (sym same) o.valid;
    in_order = stored ∙ o.in_order ∙ ap₂ (λ xs q. xs ++ contents c q) (sym taken) (sym same);
    knows_head = head;
    knows_tail = tail;
  }

  module _ {s : Single} (o : Ordered c s) where
    head_at : {p : Producer} → s.producer ≡ p → KnowsHead c s.head s.cells p
    head_at e = subst (KnowsHead c s.head s.cells) e o.knows_head

    tail_at : {p : Consumer} → s.consumer ≡ p → KnowsTail c s.tail s.cells p
    tail_at e = subst (KnowsTail c s.tail s.cells) e o.knows_tail

  -- A store in a cell that is NIL keeps what the consumer knows, and NIL in any cell what the producer
  -- knows.
  tail_kept :
      (p : Consumer) (tail i y : ℕ) (cells : ℕ → ℕ)
      → cells i ≡ c.nil
      → KnowsTail c tail cells p
      → KnowsTail c tail (update cells i y) p
  tail_kept no_pop tail i y cells free k = tt
  tail_kept (testing_pop t) tail i y cells free k = k
  tail_kept (advancing_pop t) tail i y cells free k = k
  tail_kept (waiting_pop t) tail i y cells free k = k
  tail_kept (clearing t x) tail i y cells free (next, ne, found) =
      (next, ne, update_ne cells i y (slot c t) (λ e. absurd (ground (arith, e))) ∙ found)

  head_kept :
      (p : Producer) (head i : ℕ) (cells : ℕ → ℕ)
      → KnowsHead c head cells p
      → KnowsHead c head (update cells i c.nil) p
  head_kept no_push head i cells k = tt
  head_kept (testing_push x h) head i cells k = k
  head_kept (advancing_push x h) head i cells k = k
  head_kept (waiting_push x h) head i cells k = k
  head_kept (writing x h) head i cells (next, ne, free) = (next, ne, ground arith)

  store-Ordered :
      {s : Single} {x h : ℕ}
      → s.producer ≡ writing x h
      → Ordered c s
      → Ordered c (record s {
        cells = update s.cells (slot c h) x;
        producer = no_push;
        stored = s.stored ++ (x ∷ []);
      })
  store-Ordered {s} {x} {h} e o =
      let (next, ne, free) = head_at o e in
      let at : (between s).head ≡ h = ap (λ p. next_store p s.head) e in
      let (added, valid) = contents-stored_at_head v (between s) x o.valid ne (rw at free) in
      let same : stored_at_head c (between s) x
          ≡ record (between s) { head = s.head; cells = update s.cells (slot c h) x } =
        ground (arith, at, next) in
      record {
        valid = subst (IsQueue c) same valid;
        in_order =
            ap (λ xs. xs ++ (x ∷ [])) o.in_order
            ∙ append_assoc s.taken (contents c (between s)) (x ∷ [])
            ∙ ap (λ xs. s.taken ++ xs) (sym added ∙ ap (contents c) same);
        knows_head = tt;
        knows_tail = tail_kept s.consumer s.tail (slot c h) x s.cells free o.knows_tail;
      }

  clear-Ordered :
      {s : Single} {t x : ℕ}
      → s.consumer ≡ clearing t x
      → Ordered c s
      → Ordered c (record s {
        cells = update s.cells (slot c t) c.nil;
        consumer = no_pop;
        taken = s.taken ++ (x ∷ []);
      })
  clear-Ordered {s} {t} {x} e o =
      let (next, ne, found) = tail_at o e in
      let at : (between s).tail ≡ t = ap (λ p. next_take p s.tail) e in
      let (oldest, valid) = contents-cleared_at_tail v (between s) x o.valid ne (rw at found) in
      let same : cleared_at_tail c (between s)
          ≡ record (between s) { tail = s.tail; cells = update s.cells (slot c t) c.nil } =
        ground (arith, at, next) in
      record {
        valid = subst (IsQueue c) same valid;
        in_order =
            o.in_order
            ∙ ap (λ xs. s.taken ++ xs) (oldest ∙ ap (λ q. x ∷ contents c q) same)
            ∙ sym (append_assoc s.taken (x ∷ []) _);
        knows_head = head_kept s.producer s.head (slot c t) s.cells o.knows_head;
        knows_tail = tt;
      }

  Access-Ordered : {s t : Single} → Access c s t → Ordered c s → Ordered c t
  Access-Ordered (try_push_load x e ne) o = kept (ground arith) refl refl o (refl, ne) o.knows_tail
  Access-Ordered (push_load x e ne) o = kept (ground arith) refl refl o (refl, ne) o.knows_tail
  Access-Ordered (push_refused e g) o = kept (ground arith) refl refl o tt o.knows_tail
  Access-Ordered (push_room e g) o = kept (ground arith) refl refl o (head_at o e) o.knows_tail
  Access-Ordered (push_advance e) o =
      let (at, ne) = head_at o e in kept (ground (arith, at)) refl refl o (refl, ne) o.knows_tail
  Access-Ordered (push_free e free) o =
      let (next, ne) = head_at o e in kept (ground arith) refl refl o (next, ne, free) o.knows_tail
  Access-Ordered (push_wait e g) o = o
  Access-Ordered {s} (push_store {x} {h} e) o = store-Ordered e o
  Access-Ordered (try_pop_load e) o = kept (ground arith) refl refl o o.knows_head refl
  Access-Ordered (pop_load e) o = kept (ground arith) refl refl o o.knows_head refl
  Access-Ordered (pop_refused e g) o = kept (ground arith) refl refl o o.knows_head tt
  Access-Ordered (pop_more e g) o = kept (ground arith) refl refl o o.knows_head (tail_at o e)
  Access-Ordered (pop_advance e) o =
      let at = tail_at o e in kept (ground (arith, at)) refl refl o o.knows_head refl
  Access-Ordered (pop_found e found ne) o =
      let next = tail_at o e in kept (ground arith) refl refl o o.knows_head (next, ne, found)
  Access-Ordered (pop_wait e g) o = o
  Access-Ordered {s} (pop_clear {t} {x} e) o = clear-Ordered e o

  pub Run-Ordered : {s : Single} → Run c s → Ordered c s
  Run-Ordered begin = fresh-Ordered
  Run-Ordered (then r a) = Access-Ordered a (Run-Ordered r)

  -- In a valid configuration, however the accesses of one producer and one consumer interleave from an
  -- empty queue on, the elements that have been stored are, in their order, those that have been handed
  -- out and then those that stand in the queue, of which there are at most as many as it has cells.
  pub single_fifo :
      {s : Single}
      → Run c s
      → (s.stored ≡ s.taken ++ contents c (between s)) × (count (between s) ≤ c.size)
  single_fifo r = let o = Run-Ordered r in (o.in_order, o.valid.bounded)
