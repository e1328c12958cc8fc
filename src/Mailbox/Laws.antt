-- ===== src/Mailbox/Laws.antt =====
-- What a mailbox of sw/itc-common/src/itcMailbox.cc promises its owner and its senders.
use mathlib.Core.Option
use itc_platform.Common.{
  Bool-cases, ℕ_discrete, sym, ℕ, ◌<◌, ◌≡◌, ◌≢◌, refl, ap, ◌∙◌, arith, ◌⊎◌, inl, inr, true, false,
  none, some, List, [], ◌∷◌, ◌++◌, length, bit_and,
}
use itc_platform.Queue
use itc_platform.Queue.{Queue}
use itc_platform.Queue.Window.{count, contents, IsQueue, length-window, empty_queue-IsQueue}
use itc_platform.Queue.Refine.{push-refines, pop-refines}
use itc_platform.Message.{Heap, itc_mailbox_id_default}
use itc_platform.Mailbox.{
  Mailbox, rx_config, new_mailbox, push, pop, drain, drain_fuel, set_state, itc_flag_default,
}
use itc_platform.Mailbox.Drain.{
  rx_config-IsConfig, Drained, drain_lem, try_pop-nil, try_pop-cons, deallocate_all, rx_config-eq,
}

-- The messages that wait in a mailbox, the oldest first.
abbrev pub waiting : Mailbox → List ℕ
waiting mbox = contents rx_config mbox.queue

-- The queue is well formed, and a mailbox that is not active holds no message.
pub record IsMailbox (mbox : Mailbox) : Type 0 where
  pub queue_valid : IsQueue rx_config mbox.queue
  pub idle_empty : mbox.is_active ≡ false → waiting mbox ≡ []

pub new_mailbox-IsMailbox : (flags : ℕ) → IsMailbox (new_mailbox flags)
unfolding new_mailbox Queue.empty_queue
new_mailbox-IsMailbox flags = record {
  queue_valid = empty_queue-IsQueue rx_config-IsConfig;
  idle_empty = λ e. refl;
}

not_nil : (msg : ℕ) → msg ≢ 0 → msg ≢ rx_config.nil
not_nil msg ne = rw rx_config-eq ne

pub few : (mbox : Mailbox) → IsMailbox mbox → length (waiting mbox) < drain_fuel
few mbox m = omega (
  arith,
  m.queue_valid.bounded,
  length-window rx_config mbox.queue.cells mbox.queue.tail (count mbox.queue),
  rx_size,
)
  where
    rx_size : rx_config.size ≡ 1024
    rx_size = ap (λ c. c.size) rx_config-eq

-- A push to a mailbox that is not active is refused and changes nothing. To an active one it adds
-- the message behind those that wait, and keeps the mailbox well formed; it waits only at a mailbox
-- that holds 1024 messages.
pub push_lem :
    (mbox : Mailbox) (msg : ℕ)
    → IsMailbox mbox
    → msg ≢ 0
    → ((mbox.is_active ≡ false) × (push msg mbox ≡ some (false, mbox)))
      ⊎ ((length (waiting mbox) ≡ 1024) × (push msg mbox ≡ none))
      ⊎ ((mbox' : Mailbox) × (push msg mbox ≡ some (true, mbox'))
          × (waiting mbox' ≡ waiting mbox ++ (msg ∷ []))
          × IsMailbox mbox')
unfolding push
push_lem mbox msg m ne = elim (Bool-cases mbox.is_active) [
  | inr off ↦ inl (off, ground arith)
  | inl on ↦ elim (push-refines rx_config-IsConfig mbox.queue msg m.queue_valid (not_nil msg ne)) [
    | inl (full, waits) ↦ inr (
        inl (
          length-window rx_config mbox.queue.cells mbox.queue.tail (count mbox.queue)
              ∙ full
              ∙ ap (λ c. c.size) rx_config-eq,
          ground arith,
        ))
    | inr (q', run, added, valid) ↦ inr (
        inr (
          record mbox { queue = q' },
          ground arith,
          added,
          record { queue_valid = valid; idle_empty = λ off. cc },
        ))
  ]
]

-- A non-blocking receive never waits: it answers with the oldest message, or with nullptr when the
-- mailbox is empty or not active, and keeps the mailbox well formed.
pub pop_non_blocking :
    (mbox : Mailbox) (mode : ℕ)
    → IsMailbox mbox
    → bit_and mode 1 ≢ 0
    → ((waiting mbox ≡ []) × (pop mode mbox ≡ some (0, mbox)))
      ⊎ ((msg : ℕ) × (mbox' : Mailbox) × (pop mode mbox ≡ some (msg, mbox'))
          × (waiting mbox ≡ msg ∷ waiting mbox')
          × IsMailbox mbox')
unfolding pop
pop_non_blocking mbox mode m set = elim (Bool-cases mbox.is_active) [
  | inr off ↦ inl (m.idle_empty off, ground arith)
  | inl on ↦ split on (waiting mbox) refl
]
  where
    split :
        mbox.is_active ≡ true
        → (msgs : List ℕ) → waiting mbox ≡ msgs
        → ((waiting mbox ≡ []) × (pop mode mbox ≡ some (0, mbox)))
          ⊎ ((msg : ℕ) × (mbox' : Mailbox) × (pop mode mbox ≡ some (msg, mbox'))
              × (waiting mbox ≡ msg ∷ waiting mbox')
              × IsMailbox mbox')
    split on [] e =
        let run : Queue.try_pop rx_config mbox.queue ≡ some (none, mbox.queue) =
          try_pop-nil mbox.queue m.queue_valid e in
        inl (e, ground arith)
    split on (msg ∷ msgs) e =
        let (q', run, left, valid) = try_pop-cons mbox.queue msg msgs m.queue_valid e in
        inr (
          msg,
          record mbox { queue = q' },
          ground (arith, run),
          ground (arith, e, left),
          record { queue_valid = valid; idle_empty = λ off. cc },
        )

-- A blocking receive on an active mailbox hands out the oldest message, and waits at an empty one.
pub pop_blocking :
    (mbox : Mailbox) (mode : ℕ)
    → IsMailbox mbox
    → mbox.is_active ≡ true
    → bit_and mode 1 ≡ 0
    → ((waiting mbox ≡ []) × (pop mode mbox ≡ none))
      ⊎ ((msg : ℕ) × (mbox' : Mailbox) × (pop mode mbox ≡ some (msg, mbox'))
          × (waiting mbox ≡ msg ∷ waiting mbox')
          × IsMailbox mbox')
unfolding pop
pop_blocking mbox mode m on clear = elim (pop-refines rx_config-IsConfig mbox.queue m.queue_valid) [
  | inl (nothing, waits) ↦ inl (nothing, ground arith)
  | inr (msg, q', run, taken, valid) ↦ inr (
    msg,
    record mbox { queue = q' },
    ground arith,
    taken,
    record { queue_valid = valid; idle_empty = λ off. cc },
  )
]

-- Deactivation of an active mailbox ends. Unless a deallocation faults, it has handed every waiting
-- message to `deallocate`, the oldest first, and leaves an empty mailbox with the default id and
-- flags that is not active.
pub deactivate_lem :
    (mbox : Mailbox) (h : Heap)
    → IsMailbox mbox
    → mbox.is_active ≡ true
    → (mbox' : Mailbox) × (waiting mbox' ≡ [])
      × (mbox'.is_active ≡ false)
      × (mbox'.mailbox_id ≡ itc_mailbox_id_default)
      × (mbox'.flags ≡ 0)
      × IsMailbox mbox'
      × (set_state false mbox h ≡ Option.map (λ h'. (mbox', h')) (deallocate_all (waiting mbox) h))
unfolding set_state
deactivate_lem mbox h m on = (
  record {
    mailbox_id = itc_mailbox_id_default;
    flags = itc_flag_default;
    queue = d.left;
    is_active = false;
  },
  d.left_empty,
  refl,
  refl,
  refl,
  record { queue_valid = d.left_valid; idle_empty = λ off. d.left_empty },
  ground (arith, d.result),
)
  where
    d : Drained (waiting mbox) h (drain drain_fuel mbox.queue h)
    d = drain_lem drain_fuel mbox.queue h m.queue_valid (few mbox m)

pub cons-ne-nil : {x : ℕ} {xs : List ℕ} → x ∷ xs ≢ []
cons-ne-nil e = cc

-- In either mode a receive hands out the first message that waits.
pub pop-waiting :
    (mbox : Mailbox) (mode msg : ℕ) (msgs : List ℕ)
    → IsMailbox mbox
    → waiting mbox ≡ msg ∷ msgs
    → (mbox' : Mailbox) × (pop mode mbox ≡ some (msg, mbox'))
      × (waiting mbox' ≡ msgs)
      × IsMailbox mbox'
pop-waiting mbox mode msg msgs m e = elim (Bool-cases mbox.is_active) [
  | inr off ↦ absurd (cons-ne-nil (sym e ∙ m.idle_empty off))
  | inl on ↦ elim (ℕ_discrete (bit_and mode 1) 0) [
    | no set ↦ elim (pop_non_blocking mbox mode m set) [
      | inl (nothing, _) ↦ absurd (cons-ne-nil (sym e ∙ nothing))
      | inr (x, mbox', run, taken, valid) ↦
          (mbox', ground (arith, run, taken, e), ground (arith, taken, e), valid)
    ]
    | yes clear ↦ elim (pop_blocking mbox mode m on clear) [
      | inl (nothing, _) ↦ absurd (cons-ne-nil (sym e ∙ nothing))
      | inr (x, mbox', run, taken, valid) ↦
          (mbox', ground (arith, run, taken, e), ground (arith, taken, e), valid)
    ]
  ]
]
