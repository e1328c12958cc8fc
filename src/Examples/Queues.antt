-- ===== src/Examples/Queues.antt =====
-- Queues of two elements (sw/itc-common/inc/itcLockFreeQueue.h), used by one thread and by two.
use itc_platform.Common.{
  true, ℕ, ◌+◌, ◌^◌, ◌≤◌, ◌≡◌, refl, arith, ℕ_discrete, some, List, [], ◌∷◌, ◌++◌,
}
use itc_platform.Common.Family.{update, total}
use itc_platform.Queue.{config, round_up_to_power_of_2, Config, slot, remap_index, empty_queue}
use itc_platform.Queue.Slots.{IsConfig}
use itc_platform.Queue.Window.{count, contents, empty_queue-IsQueue}
use itc_platform.Queue.Fifo
use itc_platform.Queue.Rounding.{round_up_to_power_of_2_lem}
use itc_platform.Queue.Rounding.Valid.{config-IsConfig}
use itc_platform.Queue.Fifo.{Call, put, get, Answer, pushed, popped}
use itc_platform.Queue.Refine.{run, run_refines}
use itc_platform.Queue.Threads.{System, idle, storing, push_add, store, by, Reach, start, later}
use itc_platform.Queue.Threads.Conserve.{elements_conserved, times, carried}
use itc_platform.Common.Bags.{weigh}
use itc_platform.Queue.Single.{
  Single, fresh, push_load, push_advance, push_free, push_store, Run, begin, then,
}
use itc_platform.Queue.Single.Order.{between, single_fifo}

abbrev pub two : Config
two = record { size = 2; bits = 0; nil = 0 }

pub two-IsConfig : IsConfig two
two-IsConfig = record {
  size_pos = omega arith;
  small = omega arith;
  divides = ∣ (2 ^ 31, λ i. 2 ^ 32) ∣₁;
  bits_small = omega arith;
  blocks = 2;
  in_blocks = refl;
}

-- Thread 0 has been granted an index for the element 7, and then has stored it.
abbrev granted : System
granted = record {
  head = 1;
  tail = 0;
  cells = λ _. 0;
  pc = update (λ _. idle) 0 (storing 7 0);
  accepted = 7 ∷ [];
  popped = [];
}

abbrev stored : System
stored = record {
  head = 1;
  tail = 0;
  cells = update (λ _. 0) 0 7;
  pc = update (update (λ _. idle) 0 (storing 7 0)) 0 idle;
  accepted = 7 ∷ [];
  popped = [];
}

granted-Reach : Reach two 2 granted
granted-Reach = later start (by 0 (omega arith) (push_add 7 refl (λ e. absurd (omega arith))))

stored-Reach : Reach two 2 stored
unfolding slot remap_index ℕ_discrete
stored-Reach = later granted-Reach (by 0 (omega arith) (store {x = 7} {h = 0} refl refl))

elements_conserved_example :
    weigh (times 7) stored.accepted
    ≡ weigh (times 7) stored.popped
      + total (times 7) 2 stored.cells
      + total (carried (times 7)) 2 stored.pc
elements_conserved_example =
    elements_conserved two-IsConfig stored-Reach 7 (λ e. absurd (omega arith))

abbrev calls : List Call
calls = put 5 ∷ put 6 ∷ put 7 ∷ get ∷ []

run_refines_example :
    run two-IsConfig (empty_queue two) calls
    ≡ some (Fifo.run 2 (contents two (empty_queue two)) calls)
run_refines_example =
    run_refines two-IsConfig calls (empty_queue two) (empty_queue-IsQueue two-IsConfig) (
      (λ e. absurd (omega arith)),
      ((λ e. absurd (omega arith)), ((λ e. absurd (omega arith)), tt)),
    )

-- A single producer stores the element 7.
abbrev stored_single : Single
stored_single = record (fresh two) { head = 1; cells = update (λ _. 0) 0 7; stored = 7 ∷ [] }

stored_single-Run : Run two stored_single
unfolding slot remap_index ℕ_discrete
stored_single-Run =
    then
      (then
        (then (then begin (push_load 7 refl (λ e. absurd (omega arith))))
          (push_advance {x = 7} {h = 0} refl))
        (push_free {x = 7} {h = 0} refl refl))
      (push_store {x = 7} {h = 0} refl)

single_fifo_example :
    (7 ∷ [] ≡ [] ++ contents two (between stored_single)) × (count (between stored_single) ≤ 2)
single_fifo_example = single_fifo two-IsConfig stored_single-Run

round_up_to_power_of_2_example :
    (k : ℕ) × (k ≤ 31)
    × (round_up_to_power_of_2 1000 ≡ 2 ^ k)
    × (1000 ≤ 2 ^ k)
    × ((i : ℕ) → 1000 ≤ 2 ^ i → 2 ^ k ≤ 2 ^ i)
round_up_to_power_of_2_example = round_up_to_power_of_2_lem 1000 (omega arith) (omega arith)

config-IsConfig_example :
    IsConfig (config 1000 0 8 true)
    × (1000 ≤ (config 1000 0 8 true).size)
    × ((i : ℕ) → 1000 ≤ 2 ^ i → (config 1000 0 8 true).size ≤ 2 ^ i)
config-IsConfig_example = config-IsConfig 1000 0 8 (omega arith) (omega arith)
