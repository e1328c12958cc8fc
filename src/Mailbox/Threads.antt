-- ===== src/Mailbox/Threads.antt =====
-- A mailbox (sw/itc-common/src/itcMailbox.cc) under the threads of a process: senders and a receiver,
-- and an owner that opens and shuts it, one atomic access at a time. The two loads of `empty` are taken as one
-- step, and so are the loads of `m_isActive` with the test of its value. The id and the flags, which no
-- other thread reads, are left out.
pub mod Shut
use itc_platform.Common.{ℕ, ◌<◌, ◌≡◌, ◌≢◌, Bool, true, false, ◌∷◌, pos, signed32, ◌≤ℤ◌}
use itc_platform.Common.Family.{update}
use itc_platform.Queue.{Config, sub32, succ32}
use itc_platform.Queue.Threads
use itc_platform.Queue.Threads.{Pc, idle, storing, pop_test, taking, System}

-- What a thread does with the mailbox. `sending` is after the load of `m_isActive`, before the push.
pub data Role : Type 0 where
  outside : Role
  sending : (msg : ℕ) → Role
  pushing : Role
  receiving : Role
  closing : Role

-- `m_isActive`, the queue with the places of the threads in it, and what the threads do.
pub record Shared : Type 0 where
  pub is_active : Bool
  pub queue : System
  pub role : ℕ → Role

-- The constructor leaves the mailbox shut.
abbrev pub fresh : Config → Shared
fresh c = record { is_active = false; queue = Threads.init c; role = λ _. outside }

-- The queue when a thread enters it: `push` and `pop` take an index, `tryPop` loads the tail.
abbrev pub enter_push : System → ℕ → ℕ → System
enter_push q i msg = record q {
  head = succ32 q.head;
  pc = update q.pc i (storing msg q.head);
  accepted = msg ∷ q.accepted;
}

abbrev pub enter_pop : System → ℕ → System
enter_pop q i = record q { tail = succ32 q.tail; pc = update q.pc i (taking q.tail) }

abbrev pub enter_try_pop : System → ℕ → System
enter_try_pop q i = record q { pc = update q.pc i (pop_test q.tail) }

-- `m_rxMsgQueue->empty()`.
abbrev pub IsEmpty : System → Type 0
IsEmpty q = signed32 (sub32 q.head q.tail) ≤ℤ pos 0

pub data Move (c : Config) (s : Shared) (i : ℕ) : Shared → Type 0 where
  -- `push` and `pop` at a mailbox that is shut
  refused : s.role i ≡ outside → s.is_active ≡ false → Move c s i s
  -- `push`
  push_active :
      (msg : ℕ)
      → s.role i ≡ outside
      → s.is_active ≡ true
      → msg ≢ c.nil
      → Move c s i (record s { role = update s.role i (sending msg) })
  push_enter :
      {msg : ℕ}
      → s.role i ≡ sending msg
      → msg ≢ c.nil
      → Move c s i (record s { queue = enter_push s.queue i msg; role = update s.role i pushing })
  push_return :
      s.role i ≡ pushing
      → s.queue.pc i ≡ idle
      → Move c s i (record s { role = update s.role i outside })
  -- `pop`, blocking and not
  pop_active :
      s.role i ≡ outside
      → s.is_active ≡ true
      → Move c s i (record s { queue = enter_pop s.queue i; role = update s.role i receiving })
  try_pop_active :
      s.role i ≡ outside
      → s.is_active ≡ true
      → Move c s i (record s { queue = enter_try_pop s.queue i; role = update s.role i receiving })
  pop_return :
      s.role i ≡ receiving
      → s.queue.pc i ≡ idle
      → Move c s i (record s { role = update s.role i outside })
  -- `setState`: the compare-exchange, which changes nothing when the state is the new one
  activate : s.role i ≡ outside → s.is_active ≡ false → Move c s i (record s { is_active = true })
  unchanged : s.role i ≡ outside → Move c s i s
  deactivate :
      s.role i ≡ outside
      → s.is_active ≡ true
      → Move c s i (record s { is_active = false; role = update s.role i closing })
  -- the loop of `setState`
  drain_more :
      s.role i ≡ closing
      → s.queue.pc i ≡ idle
      → ¬ (IsEmpty s.queue)
      → Move c s i (record s { queue = enter_try_pop s.queue i })
  drain_end :
      s.role i ≡ closing
      → s.queue.pc i ≡ idle
      → IsEmpty s.queue
      → Move c s i (record s { role = update s.role i outside })
  -- an access inside an operation of the queue
  inside :
      {q : System}
      → s.role i ≢ outside
      → s.queue.pc i ≢ idle
      → Threads.Move c s.queue i q
      → Move c s i (record s { queue = q })

pub data Step (c : Config) (n : ℕ) (s : Shared) : Shared → Type 0 where
  by : {t : Shared} (i : ℕ) → i < n → Move c s i t → Step c n s t

pub data Reach (c : Config) (n : ℕ) : Shared → Type 0 where
  start : Reach c n (fresh c)
  later : {s t : Shared} → Reach c n s → Step c n s t → Reach c n t
