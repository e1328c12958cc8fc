-- ===== src/ThreadManager/Adding.antt =====
-- What adding threads to the vector of sw/itc-common/src/itcThreadManager.cc does to the threads that
-- it holds already.
use mathlib.Core.List.{append_assoc, append-nil}
use itc_platform.Common.{
  ℕ, ◌+◌, ◌*◌, ◌⊎◌, inl, inr, refl, ap₂, ◌≤◌, ◌≡◌, ◌≢◌, sym, ap, ◌∙◌, arith, Bool, false, some,
  List, [], ◌∷◌, ◌++◌, length, length-append, ℕ_discrete,
}
use itc_platform.Common.Bags.{weigh}
use itc_platform.Queue.Threads.Conserve.{times}
use itc_platform.Common.Outcome.{Outcome, done, ◌>>=◌}
use itc_platform.ThreadManager.{
  Thread, Manager, manager_ok, add_thread, move_thread, destroy_thread, move_all, reset_thread,
}

-- The thread that the call adds.
abbrev pub added : ℕ → ℕ → Bool → Thread
added task obj highest = record {
  tid = 0;
  task = task;
  sync_obj = some obj;
  is_running = false;
  use_highest_priority = highest;
}

-- One call of `addThread` after another, each with a task and a sync object.
abbrev pub add_threads : (ℕ → ℕ) → List (ℕ × ℕ) → Manager → Outcome Manager
add_threads grow [] m = done m
add_threads grow (one ∷ more) m = do
  (code, m') ← add_thread grow one.0 one.1 false m
  add_threads grow more m'

abbrev pub all_added : List (ℕ × ℕ) → List Thread
all_added [] = []
all_added (one ∷ more) = added one.0 one.1 false ∷ all_added more

add_thread-room :
    (grow : ℕ → ℕ) (task obj : ℕ) (m : Manager)
    → m.list_locked ≡ false
    → length m.threads + 1 ≤ m.capacity
    → add_thread grow task obj false m
      ≡ done (manager_ok, record m { threads = m.threads ++ (added task obj false ∷ []) })
unfolding add_thread
add_thread-room grow task obj m open_list room =
    let ne : length m.threads ≢ m.capacity = λ e. absurd (omega arith) in ground arith

-- While the vector has room for them, threads are added one behind the other, and no thread is
-- cancelled.
pub add_threads_room :
    (grow : ℕ → ℕ) (ones : List (ℕ × ℕ)) (m : Manager)
    → m.list_locked ≡ false
    → length m.threads + length ones ≤ m.capacity
    → add_threads grow ones m ≡ done (record m { threads = m.threads ++ all_added ones })
add_threads_room grow [] m open_list room =
    ap (λ threads. done (record m { threads = threads })) (sym (append-nil m.threads))
add_threads_room grow (one ∷ more) m open_list room =
    let new : List Thread = added one.0 one.1 false ∷ [] in
    let longer : length (m.threads ++ new) ≡ length m.threads + 1 = length-append m.threads new in
    rw (add_thread-room grow one.0 one.1 m open_list (omega arith)) (
      add_threads_room grow more (record m { threads = m.threads ++ new }) open_list (omega arith)
      ∙ ap (λ threads. done (record m { threads = threads }))
          (append_assoc m.threads new (all_added more)))

-- The threads that bear a number.
abbrev pub bearers : ℕ → List Thread → ℕ
bearers tid [] = 0
bearers tid (thr ∷ threads) = times tid thr.tid + bearers tid threads

weigh-append : (w : ℕ → ℕ) (xs ys : List ℕ) → weigh w (xs ++ ys) ≡ weigh w xs + weigh w ys
weigh-append w [] ys = omega arith
weigh-append w (x ∷ xs) ys = omega (arith, weigh-append w xs ys)

-- What a destructor cancels.
destroy_thread-weighs :
    (tid : ℕ) (thr : Thread) → tid ≢ 0 → weigh (times tid) (destroy_thread thr) ≡ times tid thr.tid
unfolding destroy_thread reset_thread
destroy_thread-weighs tid thr ne = ground arith

-- A move leaves the other thread with its number, so that the move cancels it and the destructor again.
move_thread_lem :
    (tid : ℕ) (thr : Thread)
    → tid ≢ 0
    → let (new, left, tids) = move_thread thr in
      (new ≡ thr)
      × (weigh (times tid) tids + weigh (times tid) (destroy_thread left) ≡ 2 * times tid thr.tid)
unfolding move_thread reset_thread destroy_thread
move_thread_lem tid thr ne = (refl, ground arith)

pub move_all_lem :
    (tid : ℕ) (threads : List Thread)
    → tid ≢ 0
    → let (news, tids) = move_all threads in
      (news ≡ threads) × (weigh (times tid) tids ≡ 2 * bearers tid threads)
unfolding move_all
move_all_lem tid [] ne = (refl, refl)
move_all_lem tid (thr ∷ threads) ne =
    let (new, left, tids) = move_thread thr in
    let (news, rest) = move_all threads in
    let (same, weighs) = move_all_lem tid threads ne in
    let (kept, twice) = move_thread_lem tid thr ne in
    (
      ap₂ (λ x xs. x ∷ xs) kept same,
      omega (
        arith,
        weighs,
        twice,
        weigh-append (times tid) tids (destroy_thread left ++ rest),
        weigh-append (times tid) (destroy_thread left) rest,
      ),
    )

-- A thread that is added stands behind the others, which stay as they were, still marked as running if
-- they ran. While the vector has room nothing is cancelled. When it is full, every thread of the list
-- that was created is cancelled and joined twice: once by the move to the larger vector, and once by the
-- destructor of what is left. The list is not locked.
pub add_thread_lem :
    (grow : ℕ → ℕ) (task obj : ℕ) (highest : Bool) (m : Manager)
    → m.list_locked ≡ false
    → (m' : Manager) × (add_thread grow task obj highest m ≡ done (manager_ok, m'))
      × (m'.threads ≡ m.threads ++ (added task obj highest ∷ []))
      × (((length m.threads ≢ m.capacity) × (m'.cancelled ≡ m.cancelled))
          ⊎ ((length m.threads ≡ m.capacity)
              × ((tid : ℕ)
                  → tid ≢ 0
                  → weigh (times tid) m'.cancelled
                    ≡ weigh (times tid) m.cancelled + 2 * bearers tid m.threads)))
unfolding add_thread
add_thread_lem grow task obj highest m open_list = elim (ℕ_discrete (length m.threads) m.capacity) [
  | yes full ↦
      let (threads, tids) = move_all m.threads in
      (
        record m {
          threads = threads ++ (added task obj highest ∷ []);
          capacity = grow m.capacity;
          cancelled = m.cancelled ++ tids;
        },
        ground arith,
        ap (λ xs. xs ++ (added task obj highest ∷ [])) (move_all_lem 1 m.threads (omega arith)).0,
        inr (
          full,
          λ tid ne.
              omega
                (arith, weigh-append (times tid) m.cancelled tids, move_all_lem tid m.threads ne),
        ),
      )
  | no room ↦ (
    record m { threads = m.threads ++ (added task obj highest ∷ []) },
    ground arith,
    refl,
    inl (room, refl),
  )
]
