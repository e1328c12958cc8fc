-- ===== src/ThreadPool/Serving.antt =====
-- Which tasks the workers of sw/itc-common/inc/itcThreadPool.h get to, and when they end.
use mathlib.Core.List.{append_assoc}
use itc_platform.Common.{
  ℕ, suc, ◌+◌, ◌≤◌, ◌<◌, ◌≡◌, ◌≢◌, refl, sym, ap, ◌∙◌, arith, Bool, true, false, List, [], ◌∷◌,
  ◌++◌,
}
use itc_platform.Common.Family.{
  update, update_self, update-all, total, total-update, entry-le-total, total-le,
}
use itc_platform.ThreadPool.{
  Worker, testing, sleeping, returned, running, ThreadPool, new_pool, woken, Step, enqueue,
  enqueue_refused, notify_one, notify_nobody, terminate, notify_all, wake_up, sleep, return, take,
  finish, Reach, created, later,
}

-- A worker that will look at the queue again.
abbrev pub awake : Worker → ℕ
awake testing = 1
awake (running task) = 1
awake _ = 0

awake_worker : (w : Worker) → w ≢ sleeping → w ≢ returned → awake w ≡ 1
awake_worker testing s r = refl
awake_worker (running task) s r = refl
awake_worker sleeping s r = absurd (s refl)
awake_worker returned s r = absurd (r refl)

-- A worker that has returned has seen the flag and an empty queue.
abbrev pub Ended : Bool → List ℕ → Worker → Type 0
Ended flag tasks w = w ≡ returned → (flag ≡ true) × (tasks ≡ [])

pub record IsServed (count : ℕ) (s : ThreadPool) : Type 0 where
  pub in_order : s.accepted ≡ s.started ++ s.tasks
  pub served : s.tasks ≢ [] → 0 < s.notices + total awake count s.workers
  pub flagged : 0 < s.broadcasts → s.is_terminated ≡ true
  pub told : s.is_notified ≡ true → s.is_terminated ≡ true
  pub roused : s.is_notified ≡ true → (i : ℕ) → s.workers i ≢ sleeping
  pub ended : (i : ℕ) → Ended s.is_terminated s.tasks (s.workers i)

woken-awake : (w : Worker) → awake w ≤ awake (woken w)
woken-awake testing = omega arith
woken-awake (running task) = omega arith
woken-awake sleeping = omega arith
woken-awake returned = omega arith

woken-ne-sleeping : (w : Worker) → woken w ≢ sleeping
woken-ne-sleeping testing e = cc
woken-ne-sleeping (running task) e = cc
woken-ne-sleeping sleeping e = cc
woken-ne-sleeping returned e = cc

woken-returned : (w : Worker) → woken w ≡ returned → w ≡ returned
woken-returned testing e = e
woken-returned (running task) e = e
woken-returned sleeping e = absurd (cc)
woken-returned returned e = e

module _ {count : ℕ} (some_worker : 0 < count) where
  new_pool-IsServed : IsServed count new_pool
  new_pool-IsServed = record {
    in_order = refl;
    served = λ e. absurd (e refl);
    flagged = λ e. absurd (omega arith);
    told = λ e. cc;
    roused = λ e. absurd (cc);
    ended = λ i e. absurd (cc);
  }

  enqueue-IsServed :
      {s : ThreadPool} (task : ℕ)
      → s.is_terminated ≡ false
      → IsServed count s
      → IsServed count (record s {
        tasks = s.tasks ++ (task ∷ []);
        accepted = s.accepted ++ (task ∷ []);
        notices = suc s.notices;
      })
  enqueue-IsServed {s} task runs v = record {
    in_order = ap (λ xs. xs ++ (task ∷ [])) v.in_order ∙ append_assoc s.started s.tasks (task ∷ []);
    served = λ more. omega arith;
    flagged = v.flagged;
    told = v.told;
    roused = v.roused;
    ended = λ i e. absurd (ground (arith, v.ended i e));
  }

  -- A worker that moves, where nothing else but the number of notices changes.
  move-IsServed :
      {s : ThreadPool} (i notices : ℕ) (w : Worker)
      → i < count
      → (s.tasks ≢ [] → s.notices + awake (s.workers i) ≤ notices + awake w)
      → (s.is_notified ≡ true → w ≢ sleeping)
      → Ended s.is_terminated s.tasks w
      → IsServed count s
      → IsServed count (record s { notices = notices; workers = update s.workers i w })
  move-IsServed {s} i notices w within more up done v = record {
    in_order = v.in_order;
    served =
        λ ne. omega (arith, v.served ne, more ne, total-update awake count s.workers i w within);
    flagged = v.flagged;
    told = v.told;
    roused = λ e. update-all (λ x. x ≢ sleeping) s.workers i w (up e) (v.roused e);
    ended = update-all (Ended s.is_terminated s.tasks) s.workers i w done v.ended;
  }

  -- With no worker asleep, a task that waits will be seen.
  notify_nobody-IsServed :
      {s : ThreadPool} (notices : ℕ)
      → ((i : ℕ) → i < count → s.workers i ≢ sleeping)
      → IsServed count s
      → IsServed count (record s { notices = notices })
  notify_nobody-IsServed {s} notices none_asleep v = record {
    in_order = v.in_order;
    served = λ ne. omega (
      arith,
      entry-le-total awake count s.workers 0 some_worker,
      awake_worker (s.workers 0) (none_asleep 0 some_worker) (λ e. ne (v.ended 0 e).1),
    );
    flagged = v.flagged;
    told = v.told;
    roused = v.roused;
    ended = v.ended;
  }

  take-IsServed :
      {s : ThreadPool} (i task : ℕ) (rest : List ℕ)
      → i < count
      → s.workers i ≡ testing
      → s.tasks ≡ task ∷ rest
      → IsServed count s
      → IsServed count (record s {
        tasks = rest;
        workers = update s.workers i (running task);
        started = s.started ++ (task ∷ []);
      })
  take-IsServed {s} i task rest within e first v = record {
    in_order =
        v.in_order
        ∙ ap (λ xs. s.started ++ xs) first
        ∙ sym (append_assoc s.started (task ∷ []) rest);
    served = λ ne. omega (
      arith,
      entry-le-total awake count (update s.workers i (running task)) i within,
      ap awake (update_self s.workers i (running task)),
    );
    flagged = v.flagged;
    told = v.told;
    roused = λ t. update-all (λ x. x ≢ sleeping) s.workers i (running task) (λ x. cc) (v.roused t);
    ended =
        update-all (Ended s.is_terminated rest) s.workers i (running task) (λ x. absurd (cc))
          (λ j x. absurd (ground (arith, v.ended j x)));
  }

  Step-IsServed : {s t : ThreadPool} → Step count s t → IsServed count s → IsServed count t
  Step-IsServed (enqueue task e) v = enqueue-IsServed task e v
  Step-IsServed (enqueue_refused e) v = v
  Step-IsServed {s} (notify_one i notices e within asleep) v =
      move-IsServed i notices testing within (λ ne. ground (arith, asleep)) (λ t x. cc)
        (λ x. absurd (cc)) v
  Step-IsServed (notify_nobody notices e none_asleep) v =
      notify_nobody-IsServed notices none_asleep v
  Step-IsServed terminate v = record {
    in_order = v.in_order;
    served = v.served;
    flagged = λ e. refl;
    told = λ e. refl;
    roused = v.roused;
    ended = λ i e. (refl, (v.ended i e).1);
  }
  Step-IsServed {s} (notify_all broadcasts e) v =
      let flag : s.is_terminated ≡ true = v.flagged (omega arith) in
      record {
        in_order = v.in_order;
        served = λ ne. omega (
          arith,
          v.served ne,
          total-le awake count s.workers (λ i. woken (s.workers i))
              (λ i. woken-awake (s.workers i)),
        );
        flagged = λ x. flag;
        told = λ x. flag;
        roused = λ x i. woken-ne-sleeping (s.workers i);
        ended = λ i x. v.ended i (woken-returned (s.workers i) x);
      }
  Step-IsServed {s} (wake_up i within asleep) v =
      move-IsServed i s.notices testing within (λ ne. ground (arith, asleep)) (λ t x. cc)
        (λ x. absurd (cc)) v
  Step-IsServed {s} (sleep i within e runs nothing) v =
      move-IsServed i s.notices sleeping within (λ ne. absurd (ne nothing))
        (λ t x. absurd (ground (arith, v.told t))) (λ x. absurd (cc)) v
  Step-IsServed {s} (return i within e over nothing) v =
      move-IsServed i s.notices returned within (λ ne. absurd (ne nothing)) (λ t x. cc)
        (λ x. (over, nothing)) v
  Step-IsServed (take i task rest within e first) v = take-IsServed i task rest within e first v
  Step-IsServed {s} (finish i task within e) v =
      move-IsServed i s.notices testing within (λ ne. ground (arith, e)) (λ t x. cc)
        (λ x. absurd (cc)) v

  pub Reach-IsServed : {s : ThreadPool} → Reach count s → IsServed count s
  Reach-IsServed created = new_pool-IsServed
  Reach-IsServed (later r step) = Step-IsServed step (Reach-IsServed r)

  -- However the threads interleave, the tasks that were accepted are started in their order, each once,
  -- by a pool that has a worker: they are those that have been started and then those that wait. While
  -- one waits, a worker is awake or a notification is still to come.
  pub pool_serves :
      {s : ThreadPool}
      → Reach count s
      → (s.accepted ≡ s.started ++ s.tasks)
        × (s.tasks ≢ [] → 0 < s.notices + total awake count s.workers)
  pool_serves r = let v = Reach-IsServed r in (v.in_order, v.served)
