-- ===== src/Container/Threads.antt =====
-- The free entries of a container (sw/itc-common/inc/itcConcurrentContainer.h) under the threads of a
-- process: the constructor, `tryPopFromQueue` and `tryPushIntoQueue`, one atomic access to the queue at
-- a time. A thread is in one of them where it is inside the queue. The contents of
-- the entries, which the queue does not look at, and the map from names are left out.
pub mod Owners
pub mod Supply
use itc_platform.Common.{ℕ, suc, ◌<◌, ◌≡◌, ◌≢◌, Bool, true, false, List, [], ◌∷◌, ◌++◌}
use itc_platform.Common.Family.{update}
use itc_platform.Container.{at}
use itc_platform.Queue.{Config, slot, succ32}
use itc_platform.Queue.Threads
use itc_platform.Queue.Threads.{Pc, idle, push_test, taking, System}

-- The queue of free entries with the places of the threads in it, and the constructor: how many
-- entries its loop has come to, and whether it has ended. `held` are the entries that each thread has
-- got and not given back, which no thread reads.
pub record FreeEntries : Type 0 where
  pub queue : System
  pub begun : ℕ
  pub is_built : Bool
  pub held : ℕ → List ℕ

abbrev pub unbuilt : Config → FreeEntries
unbuilt c = record { queue = Threads.init c; begun = 0; is_built = false; held = λ _. [] }

-- The queue when a thread enters it: `tryPush` loads the head, and `pop` takes an index.
abbrev pub begin_try_push : System → ℕ → ℕ → System
begin_try_push q i entry = record q { pc = update q.pc i (push_test entry q.head) }

abbrev pub begin_pop : System → ℕ → System
begin_pop q i = record q { tail = succ32 q.tail; pc = update q.pc i (taking q.tail) }

-- What an operation hands to its caller when it ends: `pop` the entry of the cell, and a `tryPush` that
-- answers false leaves the caller with the entry, the constructor too, which does not look at the
-- answer.
abbrev pub gains : Config → (ℕ → ℕ) → Pc → Pc → List ℕ
gains c cells (taking t) idle = cells (slot c t) ∷ []
gains c cells (push_test entry h) idle = entry ∷ []
gains c cells _ _ = []

-- Thread 0 runs the constructor for `capacity` entries. `tryPushIntoQueue` takes any
-- pointer: that a thread gives back only an entry that it holds is assumed of its callers.
pub data Move (c : Config) (capacity : ℕ) (s : FreeEntries) (i : ℕ) : FreeEntries → Type 0 where
  build_next :
      s.is_built ≡ false
      → i ≡ 0
      → s.queue.pc i ≡ idle
      → s.begun < capacity
      → Move c capacity s i
          (record s { queue = begin_try_push s.queue i (at s.begun); begun = suc s.begun })
  build_end :
      s.is_built ≡ false
      → i ≡ 0
      → s.queue.pc i ≡ idle
      → s.begun ≡ capacity
      → Move c capacity s i (record s { is_built = true })
  get :
      s.is_built ≡ true
      → s.queue.pc i ≡ idle
      → Move c capacity s i (record s { queue = begin_pop s.queue i })
  give :
      (before after : List ℕ) (entry : ℕ)
      → s.is_built ≡ true
      → s.queue.pc i ≡ idle
      → s.held i ≡ before ++ entry ∷ after
      → entry ≢ c.nil
      → Move c capacity s i (record s {
        queue = begin_try_push s.queue i entry;
        held = update s.held i (before ++ after);
      })
  -- an access inside an operation of the queue
  inside :
      {q : System}
      → s.queue.pc i ≢ idle
      → Threads.Move c s.queue i q
      → Move c capacity s i (record s {
        queue = q;
        held = update s.held i (gains c s.queue.cells (s.queue.pc i) (q.pc i) ++ s.held i);
      })

pub data Step (c : Config) (capacity n : ℕ) (s : FreeEntries) : FreeEntries → Type 0 where
  by : {t : FreeEntries} (i : ℕ) → i < n → Move c capacity s i t → Step c capacity n s t

pub data Reach (c : Config) (capacity n : ℕ) : FreeEntries → Type 0 where
  start : Reach c capacity n (unbuilt c)
  later : {s t : FreeEntries} → Reach c capacity n s → Step c capacity n s t → Reach c capacity n t
