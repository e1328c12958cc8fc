-- ===== src/ThreadPool/Ending.antt =====
-- How the workers of sw/itc-common/inc/itcThreadPool.h come to their end after `terminate`.
use mathlib.Core.List.{append-nil}
use itc_platform.Common.{
  ℕ, ◌+◌, ◌*◌, ◌≤◌, ◌<◌, ◌≡◌, ◌≢◌, refl, ap, sym, ◌∙◌, arith, true, List, [], ◌∷◌, ◌++◌, ◌⊎◌, inl,
  inr, length,
}
use itc_platform.Common.Family.{update, update_self, update_ne, total, total-update, total-le}
use itc_platform.ThreadPool.{
  Worker, testing, sleeping, returned, running, ThreadPool, woken, Step, enqueue, enqueue_refused,
  notify_one, notify_nobody, terminate, notify_all, wake_up, sleep, return, take, finish, Reach,
}
use itc_platform.ThreadPool.Serving.{IsServed, Reach-IsServed}

abbrev pub to_go : Worker → ℕ
to_go testing = 1
to_go (running task) = 2
to_go _ = 0

-- The steps that the workers have left.
abbrev pub steps_left : ℕ → ThreadPool → ℕ
steps_left count s = 2 * length s.tasks + total to_go count s.workers

woken-to_go : (w : Worker) → w ≢ sleeping → to_go (woken w) ≤ to_go w
woken-to_go testing e = omega arith
woken-to_go (running task) e = omega arith
woken-to_go sleeping e = absurd (e refl)
woken-to_go returned e = omega arith

-- A step of the worker `i`: it leaves fewer steps, goes on to another place, and moves no other worker.
abbrev pub OwnStep : ℕ → ThreadPool → ℕ → Type 0
OwnStep count s i =
    (t : ThreadPool) × (Step count s t)
    × (steps_left count t < steps_left count s)
    × (t.workers i ≢ s.workers i)
    × ((j : ℕ) → i ≢ j → t.workers j ≡ s.workers j)

-- A worker that goes to another place.
goes_to :
    (workers : ℕ → Worker) (i : ℕ) (before after : Worker)
    → workers i ≡ before
    → after ≢ before
    → (update workers i after i ≢ workers i)
      × ((j : ℕ) → i ≢ j → update workers i after j ≡ workers j)
goes_to workers i before after e ne =
    ((λ same. ne (sym (update_self workers i after) ∙ same ∙ e)), update_ne workers i after)

module _ {count : ℕ} {s : ThreadPool} (v : IsServed count s) (over : s.is_notified ≡ true) where
  -- Once the workers have been told, no step makes more work.
  steps_left-Step : {t : ThreadPool} → Step count s t → steps_left count t ≤ steps_left count s
  steps_left-Step (enqueue task runs) = absurd (ground (arith, v.told over))
  steps_left-Step (enqueue_refused e) = omega arith
  steps_left-Step (notify_one i notices e within asleep) = absurd (v.roused over i asleep)
  steps_left-Step (notify_nobody notices e none_asleep) = omega arith
  steps_left-Step terminate = omega arith
  steps_left-Step (notify_all broadcasts e) = omega (
    arith,
    total-le to_go count (λ i. woken (s.workers i)) s.workers
        (λ i. woken-to_go (s.workers i) (v.roused over i)),
  )
  steps_left-Step (wake_up i within asleep) = absurd (v.roused over i asleep)
  steps_left-Step (sleep i within e runs nothing) = absurd (ground (arith, v.told over))
  steps_left-Step (return i within e flag nothing) =
      omega (arith, total-update to_go count s.workers i returned within, ap to_go e)
  steps_left-Step (take i task rest within e first) = omega (
    arith,
    total-update to_go count s.workers i (running task) within,
    ap to_go e,
    ap length first,
  )
  steps_left-Step (finish i task within e) =
      omega (arith, total-update to_go count s.workers i testing within, ap to_go e)

  -- A worker that has not returned has a step that leaves fewer.
  goes_on : (i : ℕ) → i < count → (s.workers i ≡ returned) ⊎ OwnStep count s i
  goes_on i within = go (s.workers i) (s.tasks) refl refl
    where
      go :
          (w : Worker) (tasks : List ℕ)
          → s.workers i ≡ w
          → s.tasks ≡ tasks
          → (s.workers i ≡ returned) ⊎ OwnStep count s i
      go returned tasks e first = inl e
      go sleeping tasks e first = absurd (v.roused over i e)
      go (running task) tasks e first = inr (
        record s { workers = update s.workers i testing },
        finish i task within e,
        omega (arith, total-update to_go count s.workers i testing within, ap to_go e),
        (goes_to s.workers i (running task) testing e (λ same. absurd (cc))).0,
        (goes_to s.workers i (running task) testing e (λ same. absurd (cc))).1,
      )
      go testing [] e first = inr (
        record s { workers = update s.workers i returned },
        return i within e (v.told over) first,
        omega (arith, total-update to_go count s.workers i returned within, ap to_go e),
        (goes_to s.workers i testing returned e (λ same. absurd (cc))).0,
        (goes_to s.workers i testing returned e (λ same. absurd (cc))).1,
      )
      go testing (task ∷ rest) e first = inr (
        record s {
          tasks = rest;
          workers = update s.workers i (running task);
          started = s.started ++ (task ∷ []);
        },
        take i task rest within e first,
        omega (
          arith,
          total-update to_go count s.workers i (running task) within,
          ap to_go e,
          ap length first,
        ),
        (goes_to s.workers i testing (running task) e (λ same. absurd (cc))).0,
        (goes_to s.workers i testing (running task) e (λ same. absurd (cc))).1,
      )

-- After the notification of `terminate`, the workers of a pool that has any come to their end: no step
-- of any thread makes more work for them, each that has not returned has a step of its own, which moves
-- that worker and no other and leaves less work, and once one has returned every accepted task has been
-- started.
pub terminate_ends :
    {count : ℕ} {s : ThreadPool}
    → 0 < count
    → Reach count s
    → s.is_notified ≡ true
    → ((t : ThreadPool) → Step count s t → steps_left count t ≤ steps_left count s)
      × ((i : ℕ)
          → i < count
          → ((s.workers i ≡ returned) × (s.accepted ≡ s.started)) ⊎ OwnStep count s i)
terminate_ends {count} {s} some_worker r over =
    let v = Reach-IsServed some_worker r in
    (
      (λ t step. steps_left-Step v over step),
      λ i within. elim (goes_on v over i within) [
        | inl e ↦
            inl (e, v.in_order ∙ ap (λ xs. s.started ++ xs) (v.ended i e).1 ∙ append-nil s.started)
        | inr more ↦ inr more
      ],
    )
