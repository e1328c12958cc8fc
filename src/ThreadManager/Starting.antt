-- ===== src/ThreadManager/Starting.antt =====
-- What starting and terminating the threads of sw/itc-common/src/itcThreadManager.cc leaves behind.
use mathlib.Core.List.{map}
use itc_platform.Common.{
  ℕ, suc, ◌≡◌, ◌≢◌, refl, arith, Bool, true, false, Option, none, some, List, [], ◌∷◌, ◌&&◌, not, ℤ,
  Bool-cases, Option-cases, inl, inr, if◌then◌else◌,
}
use itc_platform.Common.Family.{update}
use itc_platform.Common.Outcome.{Outcome, done}
use itc_platform.ThreadManager.{
  Thread, Manager, ManagerCode, manager_ok, syscall_error, initialisation_timeout, PthreadCalls,
  Locks, configure_and_start_thread, start_from, start_all_threads, terminate_from,
  terminate_all_threads, failed,
}

abbrev pub all_running : List Thread → Bool
all_running [] = true
all_running (thr ∷ threads) = thr.is_running && all_running threads

abbrev pub all_stopped : List Thread → Bool
all_stopped [] = true
all_stopped (thr ∷ threads) = not thr.is_running && all_stopped threads

abbrev pub tasks : List Thread → List ℕ
tasks = map (λ thr. thr.task)

-- A start that creates no thread does not answer OK.
not_created :
    (calls : PthreadCalls) (task policy : ℕ) (priority : ℤ) (code : ManagerCode)
    → configure_and_start_thread calls task policy priority ≡ (code, none)
    → code ≢ manager_ok
unfolding configure_and_start_thread
not_created calls task policy priority code e ok = ground arith

-- How the loop of `startAllThreads` ends.
abbrev pub Started : List Thread → Locks → Outcome (ManagerCode × List Thread × Locks) → Type 0
Started threads locks out =
    (code : ManagerCode) × (threads' : List Thread) × (locks' : Locks) × (out
      ≡ done (code, threads', locks'))
    × (tasks threads' ≡ tasks threads)
    × (code ≡ manager_ok → (all_running threads' ≡ true) × (locks' ≡ locks))

module _ (calls : ℕ → PthreadCalls) (m : Manager) where
  start_from-Started :
      (i : ℕ) (threads : List Thread) (locks : Locks)
      → ((obj : ℕ) → locks obj ≡ false)
      → Started threads locks (start_from calls m i threads locks)
  unfolding start_from
  start_from-Started i [] locks free = (manager_ok, [], locks, refl, refl, λ ok. (refl, refl))
  start_from-Started i (thr ∷ threads) locks free =
      let (code, threads', locks', run, same, good) =
        start_from-Started (suc i) threads locks free in
      elim (Bool-cases thr.is_running) [
        | inl on ↦ (
          code,
          thr ∷ threads',
          locks',
          ground arith,
          ground arith,
          λ ok. ground (arith, good ok),
        )
        | inr off ↦ elim (Option-cases thr.sync_obj) [
          | inl gone ↦
              (syscall_error, thr ∷ threads, locks, ground arith, refl, λ ok. absurd (ground arith))
          | inr (obj, owner) ↦
              let prio : ℤ = if thr.use_highest_priority then m.self_limit_prio else m.priority in
              let answer : ManagerCode × Option ℕ =
                configure_and_start_thread (calls i) thr.task m.policy prio in
              elim (Option-cases answer.1) [
                | inl nothing ↦ (
                  answer.0,
                  thr ∷ threads,
                  update locks obj true,
                  ground (arith, free obj),
                  refl,
                  λ ok.
                      absurd
                        (not_created (calls i) thr.task m.policy prio answer.0 (ground arith) ok),
                )
                | inr (tid, created) ↦ elim (Bool-cases (failed ((calls i).cond_timed_wait obj))) [
                  | inl late ↦ (
                    initialisation_timeout,
                    record thr { tid = tid } ∷ threads,
                    locks,
                    ground (arith, free obj),
                    refl,
                    λ ok. absurd (ground arith),
                  )
                  | inr in_time ↦ (
                    code,
                    record thr { tid = tid; is_running = true } ∷ threads',
                    locks',
                    ground (arith, free obj),
                    ground arith,
                    λ ok. ground (arith, good ok),
                  )
                ]
              ]
        ]
      ]

-- A start where no mutex is held ends; the threads keep their tasks and their order, and when it
-- answers OK every thread runs and every mutex has been released.
pub start_all_threads_lem :
    (calls : ℕ → PthreadCalls) (m : Manager)
    → m.list_locked ≡ false
    → ((obj : ℕ) → m.sync_locked obj ≡ false)
    → (code : ManagerCode) × (m' : Manager) × (start_all_threads calls m ≡ done (code, m'))
      × (tasks m'.threads ≡ tasks m.threads)
      × (code ≡ manager_ok → (all_running m'.threads ≡ true) × (m'.sync_locked ≡ m.sync_locked))
unfolding start_all_threads
start_all_threads_lem calls m open_list free =
    let (code, threads, locks, run, same, good) =
      start_from-Started calls m 0 m.threads m.sync_locked free in
    (code, record m { threads = threads; sync_locked = locks }, ground arith, same, good)

-- The threads from the number `i` to before `j` run already, or are created and report in time.
pub data Starts (calls : ℕ → PthreadCalls) (m : Manager)
    : ℕ → List Thread → List Thread → ℕ → Type 0 where
  no_more : {i : ℕ} → Starts calls m i [] [] i
  runs :
      {i j : ℕ} {thr : Thread} {threads threads' : List Thread}
      → thr.is_running ≡ true
      → Starts calls m (suc i) threads threads' j
      → Starts calls m i (thr ∷ threads) (thr ∷ threads') j
  starts :
      {i j : ℕ} {thr : Thread} {threads threads' : List Thread} {code : ManagerCode} (obj tid : ℕ)
      → thr.is_running ≡ false
      → thr.sync_obj ≡ some obj
      → m.sync_locked obj ≡ false
      → configure_and_start_thread
          (calls i)
          thr.task
          m.policy
          (if thr.use_highest_priority then m.self_limit_prio else m.priority)
        ≡ (code, some tid)
      → failed ((calls i).cond_timed_wait obj) ≡ false
      → Starts calls m (suc i) threads threads' j
      → Starts calls m i (thr ∷ threads) (record thr { tid = tid; is_running = true } ∷ threads') j

terminate_from_lem :
    (calls : ℕ → PthreadCalls) (i : ℕ) (threads : List Thread)
    → let (code, threads') = terminate_from calls i threads in
      (tasks threads' ≡ tasks threads) × (code ≡ manager_ok → all_stopped threads' ≡ true)
unfolding terminate_from
terminate_from_lem calls i [] = (refl, λ ok. refl)
terminate_from_lem calls i (thr ∷ threads) =
    let (same, good) = terminate_from_lem calls (suc i) threads in ground (arith, same, good)

-- Termination, while the list is not locked, ends; the threads keep their tasks and their order, and when it answers OK no
-- thread runs.
pub terminate_all_threads_lem :
    (calls : ℕ → PthreadCalls) (m : Manager)
    → m.list_locked ≡ false
    → (code : ManagerCode) × (m' : Manager) × (terminate_all_threads calls m ≡ done (code, m'))
      × (tasks m'.threads ≡ tasks m.threads)
      × (code ≡ manager_ok → all_stopped m'.threads ≡ true)
unfolding terminate_all_threads
terminate_all_threads_lem calls m open_list =
    let (same, good) = terminate_from_lem calls 0 m.threads in
    let (code, threads) = terminate_from calls 0 m.threads in
    (code, record m { threads = threads }, ground arith, same, good)
