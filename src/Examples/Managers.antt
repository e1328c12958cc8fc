-- ===== src/Examples/Managers.antt =====
-- Managers with one thread (sw/itc-common/src/itcThreadManager.cc).
use itc_platform.Common.{
  ℕ, length, zero, suc, ◌+◌, ◌*◌, ◌≡◌, ◌≢◌, refl, arith, ◌⊎◌, true, false, [], ◌∷◌, pos,
}
use itc_platform.Common.Bags.{weigh}
use itc_platform.Queue.Threads.Conserve.{times}
use itc_platform.Common.Outcome.{done}
use itc_platform.ThreadManager.{
  Thread, Manager, ManagerCode, manager_ok, invalid_arguments, PthreadCalls, SchedCalls,
  new_manager, sched_other, set_thread_attributes, add_thread, start_all_threads,
}
use itc_platform.ThreadManager.Scheduling.{IsScheduled, InBounds, set_thread_attributes-IsScheduled}
use itc_platform.ThreadManager.Starting.{all_running, tasks, start_all_threads_lem}
use itc_platform.ThreadManager.Adding.{added, bearers, add_thread_lem}

-- Priorities from 1 to 99, but 0 for SCHED_OTHER.
abbrev bounds : SchedCalls
bounds = record {
  priority_max = λ policy. elim policy [ zero ↦ pos 0 | suc _ ↦ pos 99 ];
  priority_min = λ policy. elim policy [ zero ↦ pos 0 | suc _ ↦ pos 1 ];
}

set_thread_attributes_example :
    ((m' : Manager) × (set_thread_attributes bounds 2 (pos 40) (pos 50) new_manager
        ≡ (manager_ok, m'))
      × (m'.policy ≡ 2)
      × IsScheduled bounds m'
      × ((2 ≡ sched_other) ⊎ InBounds bounds 2 (pos 40) (pos 50)))
    ⊎ ((set_thread_attributes bounds 2 (pos 40) (pos 50) new_manager
          ≡ (invalid_arguments, new_manager))
        × (2 ≢ sched_other)
        × ¬ (InBounds bounds 2 (pos 40) (pos 50)))
set_thread_attributes_example =
    set_thread_attributes-IsScheduled bounds 2 (pos 40) (pos 50) new_manager (omega arith)

-- A thread that has not been started, and one that runs.
abbrev fresh : Thread
fresh = added 11 3 true

abbrev second : Thread
second = added 12 4 false

abbrev started : Thread
started = record fresh { tid = 77; is_running = true }

abbrev pub one_fresh : Manager
one_fresh = record new_manager { threads = fresh ∷ [] }

abbrev one_started : Manager
one_started = record new_manager { threads = started ∷ []; capacity = 1 }

abbrev pub willing : PthreadCalls
willing = record {
  attr_init = pos 0;
  attr_set_sched_policy = λ policy. pos 0;
  attr_set_sched_param = λ priority. pos 0;
  attr_set_inherit_sched = pos 0;
  create = λ task. (pos 0, 77);
  cond_timed_wait = λ obj. pos 0;
  cancel = λ tid. pos 0;
  join = λ tid. pos 0;
}

abbrev unwilling : PthreadCalls
unwilling = record willing { create = λ task. (pos 11, 0) }

start_all_threads_example :
    (code : ManagerCode) × (m' : Manager) × (start_all_threads (λ i. willing) one_fresh
      ≡ done (code, m'))
    × (tasks m'.threads ≡ 11 ∷ [])
    × (code ≡ manager_ok
        → (all_running m'.threads ≡ true) × (m'.sync_locked ≡ one_fresh.sync_locked))
start_all_threads_example = start_all_threads_lem (λ i. willing) one_fresh refl (λ obj. refl)

-- The second thread of the list cannot be created, after the first has been started.
abbrev two_fresh : Manager
two_fresh = record new_manager { threads = fresh ∷ second ∷ [] }

abbrev answers : ℕ → PthreadCalls
answers zero = willing
answers (suc i) = unwilling

add_thread_example :
    (m' : Manager) × (add_thread (λ n. n + n) 12 4 false one_started ≡ done (manager_ok, m'))
    × (m'.threads ≡ started ∷ added 12 4 false ∷ [])
    × (((length one_started.threads ≢ 1) × (m'.cancelled ≡ []))
        ⊎ ((length one_started.threads ≡ 1)
            × ((tid : ℕ)
                → tid ≢ 0
                → weigh (times tid) m'.cancelled ≡ 0 + 2 * bearers tid (started ∷ []))))
add_thread_example = add_thread_lem (λ n. n + n) 12 4 false one_started refl
