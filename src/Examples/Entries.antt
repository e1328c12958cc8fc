-- ===== src/Examples/Entries.antt =====
-- A container of one entry (sw/itc-common/inc/itcConcurrentContainer.h): thread 0 builds it, and thread 1
-- gets the entry.
use itc_platform.Common.{ℕ, length, ◌+◌, ◌≡◌, refl, ℕ_discrete, arith, [], ◌∷◌, ◌++◌, true}
use itc_platform.Common.Bags.{weigh}
use itc_platform.Common.Family.{update, total}
use itc_platform.Queue.{slot, remap_index}
use itc_platform.Queue.Threads.{System, idle, push_cas, storing, push_room, push_win, store, take}
use itc_platform.Queue.Threads.Conserve.{times, carried, waits}
use itc_platform.Container.{at}
use itc_platform.Container.Threads.{
  FreeEntries, unbuilt, begin_try_push, begin_pop, gains, build_next, build_end, get, inside, by,
  Reach, start, later,
}
use itc_platform.Container.Threads.Owners.{pending, one_owner}
use itc_platform.Container.Threads.Supply.{one, entries_suffice}
use itc_platform.Queue.Threads.Settle.{Settles}
use itc_platform.Examples.Queues.{two, two-IsConfig}

-- The thread makes an access that leads to the queue `q`.
abbrev acts : FreeEntries → ℕ → System → FreeEntries
acts s i q = record s {
  queue = q;
  held = update s.held i (gains two s.queue.cells (s.queue.pc i) (q.pc i) ++ s.held i);
}

abbrev begins : FreeEntries
begins = record (unbuilt two) { queue = begin_try_push (unbuilt two).queue 0 1; begun = 1 }

abbrev tests : FreeEntries
tests = acts begins 0 (record (begins.queue) { pc = update begins.queue.pc 0 (push_cas 1 0) })

abbrev wins : FreeEntries
wins = acts tests 0 (record (tests.queue) {
  head = 1;
  pc = update tests.queue.pc 0 (storing 1 0);
  accepted = 1 ∷ [];
})

abbrev stores : FreeEntries
stores =
    acts wins 0 (record (wins.queue) {
      cells = update wins.queue.cells 0 1;
      pc = update wins.queue.pc 0 idle;
    })

abbrev gets : FreeEntries
gets = record stores { is_built = true; queue = begin_pop stores.queue 1 }

abbrev takes : FreeEntries
takes = acts gets 1 (record (gets.queue) {
  cells = update gets.queue.cells 0 0;
  pc = update gets.queue.pc 1 idle;
  popped = 1 ∷ [];
})

wins-Reach : Reach two 1 2 wins
unfolding at ℕ_discrete
wins-Reach =
    later
      (later (later start (by 0 (omega arith) (build_next refl refl refl (omega arith)))) (
        by 0 (omega arith)
          (inside {q = tests.queue} (λ e. cc) (push_room refl (λ e. absurd (omega arith))))))
      (by 0 (omega arith) (inside {q = wins.queue} (λ e. cc) (push_win refl refl)))

gets-Reach : Reach two 1 2 gets
unfolding slot remap_index ℕ_discrete
gets-Reach =
    later
      (later
        (later wins-Reach (
          by 0 (omega arith)
            (inside {q = stores.queue} (λ e. cc) (store {x = 1} {h = 0} refl refl))))
        (by 0 (omega arith) (build_end refl refl refl refl)))
      (by 1 (omega arith) (get refl refl))

takes-Reach : Reach two 1 2 takes
unfolding slot remap_index ℕ_discrete
takes-Reach = later gets-Reach (
    by 1 (omega arith)
      (inside {q = takes.queue} (λ e. cc) (take {t = 0} refl (λ e. absurd (omega arith)))))

one_owner_example :
    total (weigh (times 1)) 2 takes.held
      + total (pending (times 1)) 2 takes.queue.pc
      + total (carried (times 1)) 2 takes.queue.pc
      + total (times 1) 2 takes.queue.cells
    ≡ 1
one_owner_example = one_owner two-IsConfig refl takes-Reach 1 (omega arith) (omega arith)

wanted :
    total waits 2 gets.queue.pc + total length 2 gets.held + total (pending one) 2 gets.queue.pc ≡ 1
unfolding ℕ_discrete total
wanted = refl

entries_suffice_example : Settles two 2 gets.queue
entries_suffice_example =
    entries_suffice {s = gets} two-IsConfig refl (omega arith) gets-Reach (omega (arith, wanted))
