-- ===== src/Queue/Threads.antt =====
-- sw/itc-common/inc/itcLockFreeQueue.h in its default mode (IS_SPSC = 0): `n` threads that push and
-- pop, one atomic access at a time, interleaved in any order. The accesses are taken as sequentially
-- consistent.
pub mod Conserve
pub mod Drained
pub mod Others
pub mod Visits
pub mod Balance
pub mod Progress
pub mod Settle
use itc_platform.Common.{ℕ, suc, ◌<◌, ◌≡◌, ◌≢◌, List, [], ◌∷◌, ℤ, pos, signed32, ◌≤ℤ◌}
use itc_platform.Common.Family.{update}
use itc_platform.Queue.{Config, slot, sub32, succ32}

-- Where a thread stands, with the locals that are live there.
pub data Pc : Type 0 where
  idle : Pc
  -- `tryPush`, before its bound is tested, and before its compare-exchange of the head
  push_test : (x h : ℕ) → Pc
  push_cas : (x h : ℕ) → Pc
  -- `doPushAtomic` at the cell of index `h`
  storing : (x h : ℕ) → Pc
  -- `tryPop`, before its test, and before its compare-exchange of the tail
  pop_test : (t : ℕ) → Pc
  pop_cas : (t : ℕ) → Pc
  -- `doPopAtomic` at the cell of index `t`
  taking : (t : ℕ) → Pc

-- The shared counters and cells. `accepted` lists the elements whose index has been granted, and
-- `popped` those handed out: the history, which no thread reads.
pub record System : Type 0 where
  pub head : ℕ
  pub tail : ℕ
  pub cells : ℕ → ℕ
  pub pc : ℕ → Pc
  pub accepted : List ℕ
  pub popped : List ℕ

abbrev pub init : Config → System
init c = record {
  head = 0;
  tail = 0;
  cells = λ _. c.nil;
  pc = λ _. idle;
  accepted = [];
  popped = [];
}

-- The access that a thread makes where it stands. A weak compare-exchange may fail at any time.
pub data Move (c : Config) (s : System) (i : ℕ) : System → Type 0 where
  -- `push`: the fetch_add
  push_add :
      (x : ℕ)
      → s.pc i ≡ idle
      → x ≢ c.nil
      → Move c s i (record s {
        head = succ32 s.head;
        pc = update s.pc i (storing x s.head);
        accepted = x ∷ s.accepted;
      })
  push_load :
      (x : ℕ)
      → s.pc i ≡ idle
      → x ≢ c.nil
      → Move c s i (record s { pc = update s.pc i (push_test x s.head) })
  push_full :
      {x h : ℕ}
      → s.pc i ≡ push_test x h
      → signed32 c.size ≤ℤ signed32 (sub32 h s.tail)
      → Move c s i (record s { pc = update s.pc i idle })
  push_room :
      {x h : ℕ}
      → s.pc i ≡ push_test x h
      → ¬ (signed32 c.size ≤ℤ signed32 (sub32 h s.tail))
      → Move c s i (record s { pc = update s.pc i (push_cas x h) })
  push_win :
      {x h : ℕ}
      → s.pc i ≡ push_cas x h
      → s.head ≡ h
      → Move c s i (record s {
        head = succ32 h;
        pc = update s.pc i (storing x h);
        accepted = x ∷ s.accepted;
      })
  push_lose :
      {x h : ℕ}
      → s.pc i ≡ push_cas x h
      → Move c s i (record s { pc = update s.pc i (push_test x s.head) })
  store :
      {x h : ℕ}
      → s.pc i ≡ storing x h
      → s.cells (slot c h) ≡ c.nil
      → Move c s i (record s { cells = update s.cells (slot c h) x; pc = update s.pc i idle })
  store_wait : {x h : ℕ} → s.pc i ≡ storing x h → Move c s i s
  -- `pop`: the fetch_add
  pop_add :
      s.pc i ≡ idle
      → Move c s i (record s { tail = succ32 s.tail; pc = update s.pc i (taking s.tail) })
  pop_load : s.pc i ≡ idle → Move c s i (record s { pc = update s.pc i (pop_test s.tail) })
  pop_empty :
      {t : ℕ}
      → s.pc i ≡ pop_test t
      → signed32 (sub32 s.head t) ≤ℤ pos 0
      → Move c s i (record s { pc = update s.pc i idle })
  pop_more :
      {t : ℕ}
      → s.pc i ≡ pop_test t
      → ¬ (signed32 (sub32 s.head t) ≤ℤ pos 0)
      → Move c s i (record s { pc = update s.pc i (pop_cas t) })
  pop_win :
      {t : ℕ}
      → s.pc i ≡ pop_cas t
      → s.tail ≡ t
      → Move c s i (record s { tail = succ32 t; pc = update s.pc i (taking t) })
  pop_lose :
      {t : ℕ} → s.pc i ≡ pop_cas t → Move c s i (record s { pc = update s.pc i (pop_test s.tail) })
  -- the exchange, on a cell that is filled
  take :
      {t : ℕ}
      → s.pc i ≡ taking t
      → s.cells (slot c t) ≢ c.nil
      → Move c s i (record s {
        cells = update s.cells (slot c t) c.nil;
        pc = update s.pc i idle;
        popped = s.cells (slot c t) ∷ s.popped;
      })
  -- the exchange, on a cell that is NIL and stays so
  take_wait : {t : ℕ} → s.pc i ≡ taking t → s.cells (slot c t) ≡ c.nil → Move c s i s

-- An index from `n` on names no thread: it never moves.
pub data Step (c : Config) (n : ℕ) (s : System) : System → Type 0 where
  by : {t : System} (i : ℕ) → i < n → Move c s i t → Step c n s t

pub data Reach (c : Config) (n : ℕ) : System → Type 0 where
  start : Reach c n (init c)
  later : {s t : System} → Reach c n s → Step c n s t → Reach c n t
