-- ===== src/ThreadPool.antt =====
-- sw/itc-common/inc/itcThreadPool.h: workers that share a queue of tasks. What a thread does while it
-- holds the mutex is one step, and so is each notification, which the code sends without the mutex. A
-- task is a number; that it ends is a step of its worker.
pub mod Serving
pub mod Ending
use itc_platform.Common.{ℕ, suc, ◌+◌, ◌<◌, ◌≡◌, ◌≢◌, Bool, true, false, List, [], ◌∷◌, ◌++◌}
use itc_platform.Common.Family.{update}

-- Where a worker stands: before it tests the predicate of the wait, in the wait, in a task, or returned.
pub data Worker : Type 0 where
  testing sleeping returned : Worker
  running : ℕ → Worker

-- `ThreadPool`. `notices` counts the calls of `enqueue` that have yet to call `notify_one`,
-- `broadcasts` those of `terminate` that have yet to call `notify_all`; `is_notified` says that one
-- has. `accepted` and `started` list the tasks, the oldest first: the history, which no thread reads.
pub record ThreadPool : Type 0 where
  pub tasks : List ℕ
  pub is_terminated : Bool
  pub workers : ℕ → Worker
  pub notices : ℕ
  pub broadcasts : ℕ
  pub is_notified : Bool
  pub accepted : List ℕ
  pub started : List ℕ

abbrev pub new_pool : ThreadPool
new_pool = record {
  tasks = [];
  is_terminated = false;
  workers = λ _. testing;
  notices = 0;
  broadcasts = 0;
  is_notified = false;
  accepted = [];
  started = [];
}

abbrev pub woken : Worker → Worker
woken sleeping = testing
woken w = w

pub data Step (count : ℕ) (s : ThreadPool) : ThreadPool → Type 0 where
  enqueue :
      (task : ℕ)
      → s.is_terminated ≡ false
      → Step count s (record s {
        tasks = s.tasks ++ (task ∷ []);
        accepted = s.accepted ++ (task ∷ []);
        notices = suc s.notices;
      })
  enqueue_refused : s.is_terminated ≡ true → Step count s s
  -- `notify_one`, which wakes some worker that sleeps
  notify_one :
      (i notices : ℕ)
      → s.notices ≡ suc notices
      → i < count
      → s.workers i ≡ sleeping
      → Step count s (record s { notices = notices; workers = update s.workers i testing })
  notify_nobody :
      (notices : ℕ)
      → s.notices ≡ suc notices
      → ((i : ℕ) → i < count → s.workers i ≢ sleeping)
      → Step count s (record s { notices = notices })
  terminate : Step count s (record s { is_terminated = true; broadcasts = suc s.broadcasts })
  notify_all :
      (broadcasts : ℕ)
      → s.broadcasts ≡ suc broadcasts
      → Step count s (record s {
        broadcasts = broadcasts;
        is_notified = true;
        workers = λ i. woken (s.workers i);
      })
  -- a wait may end without a notification
  wake_up :
      (i : ℕ)
      → i < count
      → s.workers i ≡ sleeping
      → Step count s (record s { workers = update s.workers i testing })
  -- the worker `i`: it waits, it returns, it takes the first task, it has run it
  sleep :
      (i : ℕ)
      → i < count
      → s.workers i ≡ testing
      → s.is_terminated ≡ false
      → s.tasks ≡ []
      → Step count s (record s { workers = update s.workers i sleeping })
  return :
      (i : ℕ)
      → i < count
      → s.workers i ≡ testing
      → s.is_terminated ≡ true
      → s.tasks ≡ []
      → Step count s (record s { workers = update s.workers i returned })
  take :
      (i task : ℕ) (rest : List ℕ)
      → i < count
      → s.workers i ≡ testing
      → s.tasks ≡ task ∷ rest
      → Step count s (record s {
        tasks = rest;
        workers = update s.workers i (running task);
        started = s.started ++ (task ∷ []);
      })
  finish :
      (i task : ℕ)
      → i < count
      → s.workers i ≡ running task
      → Step count s (record s { workers = update s.workers i testing })

pub data Reach (count : ℕ) : ThreadPool → Type 0 where
  created : Reach count new_pool
  later : {s t : ThreadPool} → Reach count s → Step count s t → Reach count t
