-- ===== src/Mailbox.antt =====
-- sw/itc-common/inc/itcMailbox.h and sw/itc-common/src/itcMailbox.cc: a mailbox with its receive
-- queue, whose elements are addresses of messages.
pub mod Drain
pub mod Laws
pub mod Inbox
pub mod Threads
use itc_platform.Common.{
  ℕ, zero, suc, ◌+◌, Bool, true, false, Option, none, some, ◌==◌, if◌then◌else◌, not, bit_and, ◌&&◌,
}
use itc_platform.Queue
use itc_platform.Queue.{Queue, Config, config, empty_queue}
use itc_platform.Message.{Heap, deallocate, itc_mailbox_id_default}

abbrev pub itc_flag_default : ℕ
itc_flag_default = 0

abbrev pub itc_mode_receive_non_blocking : ℕ
itc_mode_receive_non_blocking = 1

abbrev pub itc_mailbox_rx_message_queue_size : ℕ
itc_mailbox_rx_message_queue_size = 1024

-- `m_rxMsgQueue`: eight pointers to a cache line, NIL is nullptr.
pub rx_config : Config
unfolding config
rx_config = config itc_mailbox_rx_message_queue_size 0 8 true

pub record Mailbox : Type 0 where
  pub mailbox_id : ℕ
  pub flags : ℕ
  pub queue : Queue
  pub is_active : Bool

-- The constructor.
unfoldable pub new_mailbox : ℕ → Mailbox
new_mailbox flags = record {
  mailbox_id = itc_mailbox_id_default;
  flags = flags;
  queue = empty_queue rx_config;
  is_active = false;
}

-- The copy constructor: the copy has a queue of its own, and is not active.
pub copy_mailbox : Mailbox → Mailbox
copy_mailbox other = record {
  mailbox_id = other.mailbox_id;
  flags = other.flags;
  queue = empty_queue rx_config;
  is_active = false;
}

-- The copy assignment: the messages that waited are gone with the old queue, and are not deallocated.
pub assign_mailbox : Mailbox → Mailbox → Mailbox
assign_mailbox mbox other = record mbox {
  mailbox_id = other.mailbox_id;
  flags = other.flags;
  queue = empty_queue rx_config;
}

-- `operator==`.
pub eq_mailbox : Mailbox → Mailbox → Bool
eq_mailbox a b = (a.mailbox_id == b.mailbox_id) && (a.flags == b.flags)

-- `operator!=`.
pub ne_mailbox : Mailbox → Mailbox → Bool
ne_mailbox a b = not (eq_mailbox a b)

-- `none` in the results below is a wait that no other thread ends.
unfoldable pub push : ℕ → Mailbox → Option (Bool × Mailbox)
push msg mbox =
    if not mbox.is_active then some (false, mbox) else elim (Queue.push rx_config msg mbox.queue) [
      | none ↦ none
      | some queue ↦ some (true, record mbox { queue = queue })
    ]

-- The message, or nullptr.
unfoldable pub pop : ℕ → Mailbox → Option (ℕ × Mailbox)
pop mode mbox =
    if not mbox.is_active
    then some (0, mbox)
    else if not (bit_and mode itc_mode_receive_non_blocking == 0)
    then elim (Queue.try_pop rx_config mbox.queue) [
      | none ↦ none
      | some (none, queue) ↦ some (0, record mbox { queue = queue })
      | some (some msg, queue) ↦ some (msg, record mbox { queue = queue })
    ]
    else elim (Queue.pop rx_config mbox.queue) [
      | none ↦ none
      | some (msg, queue) ↦ some (msg, record mbox { queue = queue })
    ]

-- The loop of `setState` over the messages that are left: `none` is a wait, a fault of
-- `deallocate`, or the end of the fuel.
pub drain : ℕ → Queue → Heap → Option (Queue × Heap)
drain zero q h = none
drain (suc fuel) q h = elim (Queue.empty rx_config q) [
  | true ↦ some (q, h)
  | false ↦ elim (Queue.try_pop rx_config q) [
    | none ↦ none
    | some (none, q') ↦ drain fuel q' h
    | some (some msg, q') ↦ elim (deallocate msg h) [
      | none ↦ none
      | some (done, h') ↦ drain fuel q' h'
    ]
  ]
]

-- More rounds than the queue can hold elements.
abbrev pub drain_fuel : ℕ
drain_fuel = itc_mailbox_rx_message_queue_size + 1

pub set_state : Bool → Mailbox → Heap → Option (Mailbox × Heap)
set_state true mbox h = some (record mbox { is_active = true }, h)
set_state false mbox h =
    if not mbox.is_active then some (mbox, h) else elim (drain drain_fuel mbox.queue h) [
      | none ↦ none
      | some (queue, h') ↦ some (
        record {
          mailbox_id = itc_mailbox_id_default;
          flags = itc_flag_default;
          queue = queue;
          is_active = false;
        },
        h',
      )
    ]

-- The move constructor. The state is not moved: the new mailbox is not active, with the messages in its
-- queue; the old one has no queue any more.
pub move_mailbox : Mailbox → Mailbox
move_mailbox other = record {
  mailbox_id = other.mailbox_id;
  flags = other.flags;
  queue = other.queue;
  is_active = false;
}

-- The move assignment from another mailbox, and from itself (`same`). The assigned mailbox is deactivated
-- before, which deallocates the messages that wait there.
pub move_assign : Bool → Mailbox → Mailbox → Heap → Option (Mailbox × Heap)
move_assign true mbox other h = some (mbox, h)
move_assign false mbox other h = elim (set_state false mbox h) [
  | none ↦ none
  | some (stopped, h') ↦ some (
    record stopped { mailbox_id = other.mailbox_id; flags = other.flags; queue = other.queue },
    h',
  )
]

-- The destructor.
pub destroy : Mailbox → Heap → Option (Mailbox × Heap)
destroy mbox h = set_state false mbox h
