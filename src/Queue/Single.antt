-- ===== src/Queue/Single.antt =====
-- sw/itc-common/inc/itcLockFreeQueue.h in its single-producer, single-consumer mode (IS_SPSC = 1): one
-- thread that pushes and one that pops, one atomic access at a time, interleaved in any order. The
-- accesses are taken as sequentially consistent.
pub mod Order
use itc_platform.Common.{ℕ, ◌≡◌, ◌≢◌, List, [], ◌∷◌, ◌++◌, ℤ, pos, signed32, ◌≤ℤ◌}
use itc_platform.Common.Family.{update}
use itc_platform.Queue.{Config, slot, sub32, succ32}

-- Where the producer stands: it has loaded the head for `tryPush` and has yet to test its bound; it is
-- about to store the next head; it waits in `doPushAtomic` until the cell of index `h` is NIL; it has
-- seen NIL there and is about to store the element.
pub data Producer : Type 0 where
  no_push : Producer
  testing_push advancing_push waiting_push writing : (x h : ℕ) → Producer

-- The consumer likewise; `clearing` has loaded the element `x` and is about to store NIL.
pub data Consumer : Type 0 where
  no_pop : Consumer
  testing_pop advancing_pop waiting_pop : (t : ℕ) → Consumer
  clearing : (t x : ℕ) → Consumer

-- The shared counters and cells. `stored` lists the elements that the producer has stored and `taken`
-- those that `doPopAtomic` has returned, the oldest first: the history, which no thread reads.
pub record Single : Type 0 where
  pub head : ℕ
  pub tail : ℕ
  pub cells : ℕ → ℕ
  pub producer : Producer
  pub consumer : Consumer
  pub stored : List ℕ
  pub taken : List ℕ

abbrev pub fresh : Config → Single
fresh c = record {
  head = 0;
  tail = 0;
  cells = λ _. c.nil;
  producer = no_push;
  consumer = no_pop;
  stored = [];
  taken = [];
}

pub data Access (c : Config) (s : Single) : Single → Type 0 where
  -- `tryPush` and `push` load the head
  try_push_load :
      (x : ℕ)
      → s.producer ≡ no_push
      → x ≢ c.nil
      → Access c s (record s { producer = testing_push x s.head })
  push_load :
      (x : ℕ)
      → s.producer ≡ no_push
      → x ≢ c.nil
      → Access c s (record s { producer = advancing_push x s.head })
  push_refused :
      {x h : ℕ}
      → s.producer ≡ testing_push x h
      → signed32 c.size ≤ℤ signed32 (sub32 h s.tail)
      → Access c s (record s { producer = no_push })
  push_room :
      {x h : ℕ}
      → s.producer ≡ testing_push x h
      → ¬ (signed32 c.size ≤ℤ signed32 (sub32 h s.tail))
      → Access c s (record s { producer = advancing_push x h })
  push_advance :
      {x h : ℕ}
      → s.producer ≡ advancing_push x h
      → Access c s (record s { head = succ32 h; producer = waiting_push x h })
  -- `doPushAtomic`: the load that finds NIL, one that does not, and the store
  push_free :
      {x h : ℕ}
      → s.producer ≡ waiting_push x h
      → s.cells (slot c h) ≡ c.nil
      → Access c s (record s { producer = writing x h })
  push_wait : {x h : ℕ} → s.producer ≡ waiting_push x h → s.cells (slot c h) ≢ c.nil → Access c s s
  push_store :
      {x h : ℕ}
      → s.producer ≡ writing x h
      → Access c s (record s {
        cells = update s.cells (slot c h) x;
        producer = no_push;
        stored = s.stored ++ (x ∷ []);
      })
  -- `tryPop` and `pop` load the tail
  try_pop_load : s.consumer ≡ no_pop → Access c s (record s { consumer = testing_pop s.tail })
  pop_load : s.consumer ≡ no_pop → Access c s (record s { consumer = advancing_pop s.tail })
  pop_refused :
      {t : ℕ}
      → s.consumer ≡ testing_pop t
      → signed32 (sub32 s.head t) ≤ℤ pos 0
      → Access c s (record s { consumer = no_pop })
  pop_more :
      {t : ℕ}
      → s.consumer ≡ testing_pop t
      → ¬ (signed32 (sub32 s.head t) ≤ℤ pos 0)
      → Access c s (record s { consumer = advancing_pop t })
  pop_advance :
      {t : ℕ}
      → s.consumer ≡ advancing_pop t
      → Access c s (record s { tail = succ32 t; consumer = waiting_pop t })
  -- `doPopAtomic`: the load that finds an element, one that does not, and the store of NIL
  pop_found :
      {t x : ℕ}
      → s.consumer ≡ waiting_pop t
      → s.cells (slot c t) ≡ x
      → x ≢ c.nil
      → Access c s (record s { consumer = clearing t x })
  pop_wait : {t : ℕ} → s.consumer ≡ waiting_pop t → s.cells (slot c t) ≡ c.nil → Access c s s
  pop_clear :
      {t x : ℕ}
      → s.consumer ≡ clearing t x
      → Access c s (record s {
        cells = update s.cells (slot c t) c.nil;
        consumer = no_pop;
        taken = s.taken ++ (x ∷ []);
      })

pub data Run (c : Config) : Single → Type 0 where
  begin : Run c (fresh c)
  then : {s t : Single} → Run c s → Access c s t → Run c t
