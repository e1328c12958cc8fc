-- ===== src/Examples/Waits.antt =====
-- A thread that pushes and one that pops at a queue of two elements
-- (sw/itc-common/inc/itcLockFreeQueue.h), each with an index.
use itc_platform.Common.{◌≡◌, refl, ℕ_discrete, arith, [], ◌∷◌}
use itc_platform.Common.Family.{update, total}
use itc_platform.Queue.Threads.{
  System, idle, storing, taking, push_add, pop_add, by, Reach, start, later,
}
use itc_platform.Queue.Threads.Balance.{pops}
use itc_platform.Queue.Threads.Progress.{CanEnd, both_wait-CanEnd}
use itc_platform.Queue.Threads.Settle.{Settles, room-Settles}
use itc_platform.Examples.Queues.{two, two-IsConfig}

abbrev pushing : System
pushing = record {
  head = 1;
  tail = 0;
  cells = λ _. 0;
  pc = update (λ _. idle) 0 (storing 7 0);
  accepted = 7 ∷ [];
  popped = [];
}

abbrev meeting : System
meeting = record pushing { tail = 1; pc = update pushing.pc 1 (taking 0) }

meeting-Reach : Reach two 2 meeting
unfolding ℕ_discrete
meeting-Reach =
    later (later start (by 0 (omega arith) (push_add 7 refl (λ e. absurd (omega arith)))))
      (by 1 (omega arith) (pop_add refl))

both_wait-CanEnd_example : CanEnd two 2 meeting
unfolding ℕ_discrete
both_wait-CanEnd_example =
    both_wait-CanEnd two-IsConfig meeting-Reach {i = 0} {j = 1} {x = 7} {h = 0} {t = 0}
      (omega arith) refl (omega arith) refl

one_pops : pops 2 meeting ≡ 1
unfolding ℕ_discrete total
one_pops = refl

room-Settles_example : Settles two 2 meeting
room-Settles_example =
    room-Settles two-IsConfig {s = meeting} meeting-Reach (omega (arith, one_pops))
      (omega (arith, one_pops))
