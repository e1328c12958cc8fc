-- ===== src/Examples/Pools.antt =====
-- A pool of one worker (sw/itc-common/inc/itcThreadPool.h) that gets one task and is terminated.
use itc_platform.Common.{ℕ, ◌+◌, ◌≤◌, ◌<◌, ◌≡◌, ◌≢◌, refl, arith, ◌⊎◌, [], ◌∷◌, ◌++◌, true}
use itc_platform.Common.Family.{total}
use itc_platform.ThreadPool.{
  ThreadPool, new_pool, testing, returned, Step, enqueue, terminate, notify_all, Reach, created,
  later,
}
use itc_platform.ThreadPool.Serving.{awake, pool_serves}
use itc_platform.ThreadPool.Ending.{steps_left, terminate_ends, OwnStep}

abbrev one_task : ThreadPool
one_task = record new_pool { tasks = 7 ∷ []; accepted = 7 ∷ []; notices = 1 }

one_task-Reach : Reach 1 one_task
one_task-Reach = later created (enqueue 7 refl)

pool_serves_example :
    (one_task.accepted ≡ one_task.started ++ one_task.tasks)
    × (one_task.tasks ≢ [] → 0 < 1 + total awake 1 (λ _. testing))
pool_serves_example = pool_serves (omega arith) one_task-Reach

abbrev terminated : ThreadPool
terminated = record one_task { is_terminated = true; is_notified = true }

terminated-Reach : Reach 1 terminated
terminated-Reach = later (later one_task-Reach terminate) (notify_all 0 refl)

terminate_ends_example :
    ((t : ThreadPool) → Step 1 terminated t → steps_left 1 t ≤ steps_left 1 terminated)
    × ((i : ℕ)
        → i < 1
        → ((terminated.workers i ≡ returned) × (terminated.accepted ≡ terminated.started))
          ⊎ OwnStep 1 terminated i)
terminate_ends_example = terminate_ends (omega arith) terminated-Reach refl
