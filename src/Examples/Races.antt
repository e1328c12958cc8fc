-- ===== src/Examples/Races.antt =====
-- An owner, thread 0, and a sender, thread 1, at one mailbox (sw/itc-common/src/itcMailbox.cc).
use itc_platform.Common.{ℕ, zero, suc, ◌<◌, ◌≡◌, ◌≢◌, refl, arith, true, false, [], ◌∷◌, ℕ_discrete}
use itc_platform.Common.Family.{update}
use itc_platform.Common.Bags.{bag_of}
use itc_platform.Queue.{slot, remap_index}
use itc_platform.Queue.Threads.{idle, pop_cas, taking, store, pop_more, pop_win, take}
use itc_platform.Mailbox.Threads.{
  Shared, outside, sending, pushing, closing, fresh, enter_push, enter_try_pop, activate,
  push_active, push_enter, push_return, deactivate, drain_more, drain_end, inside, by, Reach, start,
  later,
}
use itc_platform.Mailbox.Threads.Shut.{shut_leaves_none}
use itc_platform.Examples.Queues.{two, two-IsConfig}

-- The owner opens the mailbox, and the sender finds it active.
abbrev opened : Shared
opened = record (fresh two) { is_active = true }

abbrev sends : Shared
sends = record opened { role = update opened.role 1 (sending 7) }

sends-Reach : Reach two 2 sends
sends-Reach =
    later (later start (by 0 (omega arith) (activate refl refl)))
      (by 1 (omega arith) (push_active 7 refl refl (λ e. absurd (omega arith))))

-- The message is stored before the owner shuts the mailbox, and is drained.
abbrev entered : Shared
entered = record sends { queue = enter_push sends.queue 1 7; role = update sends.role 1 pushing }

abbrev stored : Shared
stored = record entered {
  queue = record (entered.queue) {
    cells = update entered.queue.cells 0 7;
    pc = update entered.queue.pc 1 idle;
  };
}

abbrev returned : Shared
returned = record stored { role = update stored.role 1 outside }

abbrev shuts : Shared
shuts = record returned { is_active = false; role = update returned.role 0 closing }

returned-Reach : Reach two 2 returned
unfolding slot remap_index ℕ_discrete
returned-Reach =
    later
      (later (later sends-Reach (by 1 (omega arith) (push_enter refl (λ e. absurd (omega arith)))))
        (by 1 (omega arith)
          (inside {q = stored.queue} (λ e. cc) (λ e. cc) (store {x = 7} {h = 0} refl refl))))
      (by 1 (omega arith) (push_return refl refl))

abbrev tries : Shared
tries = record shuts { queue = enter_try_pop shuts.queue 0 }

abbrev chooses : Shared
chooses = record tries { queue = record (tries.queue) { pc = update tries.queue.pc 0 (pop_cas 0) } }

abbrev wins : Shared
wins = record chooses {
  queue = record (chooses.queue) { tail = 1; pc = update chooses.queue.pc 0 (taking 0) };
}

abbrev drained : Shared
drained = record wins {
  queue = record (wins.queue) {
    cells = update wins.queue.cells 0 0;
    pc = update wins.queue.pc 0 idle;
    popped = 7 ∷ [];
  };
}

chooses-Reach : Reach two 2 chooses
unfolding ℕ_discrete
chooses-Reach =
    later
      (later (later returned-Reach (by 0 (omega arith) (deactivate refl refl)))
        (by 0 (omega arith) (drain_more refl refl (λ e. absurd (omega arith)))))
      (by 0 (omega arith) (
        inside {q = chooses.queue} (λ e. cc) (λ e. cc) (pop_more refl (λ e. absurd (omega arith)))))

drained-Reach : Reach two 2 drained
unfolding slot remap_index ℕ_discrete
drained-Reach =
    later
      (later chooses-Reach
        (by 0 (omega arith) (inside {q = wins.queue} (λ e. cc) (λ e. cc) (pop_win refl refl))))
      (by 0 (omega arith) (
        inside {q = drained.queue} (λ e. cc) (λ e. cc)
          (take {t = 0} refl (λ e. absurd (omega arith)))))

only_two : (j : ℕ) → j < 2 → 0 ≢ j → drained.role j ≡ outside
unfolding ℕ_discrete
only_two zero lt ne = absurd (ne refl)
only_two (suc zero) lt ne = refl
only_two (suc (suc j)) lt ne = absurd (omega arith)

shut_leaves_none_example : bag_of drained.queue.accepted ≡ bag_of drained.queue.popped
unfolding ℕ_discrete
shut_leaves_none_example =
    shut_leaves_none two-IsConfig 0 drained-Reach refl refl (omega arith) only_two

-- The owner shuts the mailbox between the sender's load of `m_isActive` and its push: the message is
-- accepted, and stays in a mailbox that is shut, where no thread is any more.
abbrev shut_first : Shared
shut_first = record sends {
  is_active = false;
  role = update (update sends.role 0 closing) 0 outside;
}

abbrev late : Shared
late = record shut_first {
  queue = enter_push shut_first.queue 1 7;
  role = update shut_first.role 1 pushing;
}

abbrev stranded : Shared
stranded = record late {
  queue = record (late.queue) {
    cells = update late.queue.cells 0 7;
    pc = update late.queue.pc 1 idle;
  };
  role = update late.role 1 outside;
}

late-Reach : Reach two 2 late
unfolding ℕ_discrete
late-Reach =
    later
      (later (later sends-Reach (by 0 (omega arith) (deactivate refl refl)))
        (by 0 (omega arith) (drain_end refl refl (omega arith))))
      (by 1 (omega arith) (push_enter refl (λ e. absurd (omega arith))))

stranded-Reach : Reach two 2 stranded
unfolding slot remap_index ℕ_discrete
stranded-Reach =
    later
      (later late-Reach (
        by 1 (omega arith)
          (inside {q = stranded.queue} (λ e. cc) (λ e. cc) (store {x = 7} {h = 0} refl refl))))
      (by 1 (omega arith) (push_return refl refl))

stranded_lem :
    (stranded.is_active ≡ false)
    × (stranded.role 0 ≡ outside)
    × (stranded.role 1 ≡ outside)
    × (stranded.queue.accepted ≡ 7 ∷ [])
    × (stranded.queue.popped ≡ [])
unfolding ℕ_discrete
stranded_lem = (refl, refl, refl, refl, refl)
