-- ===== src/ThreadManager.antt =====
-- sw/itc-common/src/itcThreadManager.cc and sw/itc-common/if/itcThreadManagerIf.h: the threads of the
-- platform, with the mutexes that their start locks. The answers of the pthread calls come in as a
-- record, one for each thread of the list.
pub mod Scheduling
pub mod Starting
pub mod Adding
use itc_platform.Common.{
  ℕ, zero, suc, ◌+◌, ◌<◌, Bool, true, false, Option, none, some, List, [], ◌∷◌, ◌++◌, length, ◌==◌,
  ◌||◌, if◌then◌else◌, not, ℤ, pos, negsuc, ltb_ℤ, eqb_ℤ,
}
use itc_platform.Common.Family.{update}
use itc_platform.Common.Outcome.{Outcome, done, waits, fault}

-- `ThreadManagerIfReturnCode`.
pub data ManagerCode : Type 0 where
  manager_undefined manager_ok syscall_error invalid_arguments initialisation_timeout : ManagerCode

-- `Thread`. The sync object is a weak pointer: `none` when its owner is gone.
pub record Thread : Type 0 where
  pub tid : ℕ
  pub task : ℕ
  pub sync_obj : Option ℕ
  pub is_running : Bool
  pub use_highest_priority : Bool

-- `SCHED_OTHER` and the answers of the pthread calls for one thread.
abbrev pub sched_other : ℕ
sched_other = 0

pub record PthreadCalls : Type 0 where
  pub attr_init : ℤ
  pub attr_set_sched_policy : ℕ → ℤ
  pub attr_set_sched_param : ℤ → ℤ
  pub attr_set_inherit_sched : ℤ
  pub create : ℕ → ℤ × ℕ
  pub cond_timed_wait : ℕ → ℤ
  pub cancel : ℕ → ℤ
  pub join : ℕ → ℤ

pub record SchedCalls : Type 0 where
  pub priority_max : ℕ → ℤ
  pub priority_min : ℕ → ℤ

-- `ThreadManager`: the vector with its capacity, the parameters, and the mutexes that are held.
-- `cancelled` lists the threads that a destructor or a move has cancelled and joined.
pub record Manager : Type 0 where
  pub threads : List Thread
  pub capacity : ℕ
  pub policy : ℕ
  pub self_limit_prio : ℤ
  pub priority : ℤ
  pub list_locked : Bool
  pub sync_locked : ℕ → Bool
  pub cancelled : List ℕ

abbrev pub failed : ℤ → Bool
failed ret = not (eqb_ℤ ret (pos 0))

-- The constructor, with `reserve(8)`.
abbrev pub new_manager : Manager
new_manager = record {
  threads = [];
  capacity = 8;
  policy = sched_other;
  self_limit_prio = pos 0;
  priority = pos 0;
  list_locked = false;
  sync_locked = λ _. false;
  cancelled = [];
}

unfoldable pub check_scheduling_params : SchedCalls → ℕ → ℤ → ℤ → ManagerCode
check_scheduling_params calls policy self_limit_prio priority =
    let max_prio = calls.priority_max policy in
    let min_prio = calls.priority_min policy in
    if ltb_ℤ priority min_prio
      || ltb_ℤ max_prio priority
      || ltb_ℤ self_limit_prio min_prio
      || ltb_ℤ max_prio self_limit_prio
    then invalid_arguments
    else manager_ok

unfoldable pub set_thread_attributes : SchedCalls → ℕ → ℤ → ℤ → Manager → ManagerCode × Manager
set_thread_attributes calls policy self_limit_prio priority m =
    if policy == sched_other
    then (
      manager_ok,
      record m {
        policy = sched_other;
        self_limit_prio = calls.priority_max sched_other;
        priority = calls.priority_min sched_other;
      },
    )
    else elim (check_scheduling_params calls policy self_limit_prio priority) [
      | manager_ok ↦ (
        manager_ok,
        record m {
          policy = policy;
          self_limit_prio = self_limit_prio;
          priority = if ltb_ℤ self_limit_prio priority then self_limit_prio else priority;
        },
      )
      | code ↦ (code, m)
    ]

-- `Thread::reset`, with the threads that it cancels and joins. It leaves `tid`.
unfoldable pub reset_thread : Thread → List ℕ × Thread
reset_thread thr = (
  if thr.tid == 0 then [] else thr.tid ∷ [],
  record thr { task = 0; sync_obj = none; is_running = false; use_highest_priority = false },
)

-- The move constructor: the new thread, what is left of the other, and the threads that are cancelled.
unfoldable pub move_thread : Thread → Thread × Thread × List ℕ
move_thread other =
    let (tids, left) = reset_thread (record other { sync_obj = none }) in (other, left, tids)

-- The destructor.
unfoldable pub destroy_thread : Thread → List ℕ
destroy_thread thr = (reset_thread thr).0

-- A vector that grows moves each element and destroys what is left of it.
unfoldable pub move_all : List Thread → List Thread × List ℕ
move_all [] = ([], [])
move_all (thr ∷ threads) =
    let (new, left, tids) = move_thread thr in
    let (news, rest) = move_all threads in (new ∷ news, tids ++ (destroy_thread left ++ rest))

unfoldable pub destroy_all : List Thread → List ℕ
destroy_all [] = []
destroy_all (thr ∷ threads) = destroy_thread thr ++ destroy_all threads

-- `addThread`. `grow` is the capacity that the vector takes when it is full.
unfoldable pub add_thread : (ℕ → ℕ) → ℕ → ℕ → Bool → Manager → Outcome (ManagerCode × Manager)
add_thread grow task sync_obj use_highest_priority m =
    let thr : Thread = record {
      tid = 0;
      task = task;
      sync_obj = some sync_obj;
      is_running = false;
      use_highest_priority = use_highest_priority;
    } in
    if m.list_locked
    then waits
    else if length m.threads == m.capacity
    then (let (threads, tids) = move_all m.threads in
        done (
          manager_ok,
          record m {
            threads = threads ++ (thr ∷ []);
            capacity = grow m.capacity;
            cancelled = m.cancelled ++ tids;
          },
        ))
    else done (manager_ok, record m { threads = m.threads ++ (thr ∷ []) })

-- The code, and the number of the thread that was created.
unfoldable pub configure_and_start_thread : PthreadCalls → ℕ → ℕ → ℤ → ManagerCode × Option ℕ
configure_and_start_thread calls task policy priority =
    if failed calls.attr_init
    then (syscall_error, none)
    else if failed (calls.attr_set_sched_policy policy)
    then (syscall_error, none)
    else if failed (calls.attr_set_sched_param priority)
    then (syscall_error, none)
    else if failed calls.attr_set_inherit_sched
    then (syscall_error, none)
    else let (ret, tid) = calls.create task in
      if failed ret then (syscall_error, none) else (manager_ok, some tid)

abbrev pub Locks : Type 0
Locks = ℕ → Bool

-- What is left of the list, with the threads before it put back in front.
abbrev pub behind :
    Thread
    → Outcome (ManagerCode × List Thread × Locks)
    → Outcome (ManagerCode × List Thread × Locks)
behind thr (done (code, threads, locks)) = done (code, thr ∷ threads, locks)
behind thr waits = waits
behind thr fault = fault

-- The loop of `startAllThreads` from the thread at `i` on. A mutex that is held is waited for, and
-- nobody lets it go.
unfoldable pub start_from :
    (ℕ → PthreadCalls)
    → Manager
    → ℕ
    → List Thread
    → Locks
    → Outcome (ManagerCode × List Thread × Locks)
start_from calls m i [] locks = done (manager_ok, [], locks)
start_from calls m i (thr ∷ threads) locks =
    let rest = start_from calls m (suc i) threads locks in
    if thr.is_running then behind thr rest else elim thr.sync_obj [
      | none ↦ done (syscall_error, thr ∷ threads, locks)
      | some obj ↦
          if locks obj
          then waits
          else let (code, created) =
              configure_and_start_thread (calls i) thr.task m.policy
                (if thr.use_highest_priority then m.self_limit_prio else m.priority) in
            elim created [
              | none ↦ done (code, thr ∷ threads, update locks obj true)
              | some tid ↦
                  if failed ((calls i).cond_timed_wait obj)
                  then done (initialisation_timeout, record thr { tid = tid } ∷ threads, locks)
                  else behind (record thr { tid = tid; is_running = true }) rest
            ]
    ]

-- `startAllThreads`.
unfoldable pub start_all_threads : (ℕ → PthreadCalls) → Manager → Outcome (ManagerCode × Manager)
start_all_threads calls m =
    if m.list_locked then waits else elim (start_from calls m 0 m.threads m.sync_locked) [
      | waits ↦ waits
      | fault ↦ fault
      | done (code, threads, locks) ↦
          done (code, record m { threads = threads; sync_locked = locks })
    ]

-- The loop of `terminateAllThreads`.
unfoldable pub terminate_from : (ℕ → PthreadCalls) → ℕ → List Thread → ManagerCode × List Thread
terminate_from calls i [] = (manager_ok, [])
terminate_from calls i (thr ∷ threads) =
    let (code, rest) = terminate_from calls (suc i) threads in
    if not thr.is_running
    then (code, thr ∷ rest)
    else if failed ((calls i).cancel thr.tid) || failed ((calls i).join thr.tid)
    then (syscall_error, thr ∷ threads)
    else (code, record thr { is_running = false } ∷ rest)

unfoldable pub terminate_all_threads :
    (ℕ → PthreadCalls) → Manager → Outcome (ManagerCode × Manager)
terminate_all_threads calls m =
    if m.list_locked
    then waits
    else let (code, threads) = terminate_from calls 0 m.threads in
      done (code, record m { threads = threads })

-- `reset`: the threads are destroyed, which resets each of them.
unfoldable pub reset : Manager → Outcome Manager
reset m =
    if m.list_locked
    then waits
    else done (record m {
      threads = [];
      policy = sched_other;
      self_limit_prio = pos 0;
      priority = pos 0;
      cancelled = m.cancelled ++ destroy_all m.threads;
    })
