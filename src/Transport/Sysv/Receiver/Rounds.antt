-- ===== src/Transport/Sysv/Receiver/Rounds.antt =====
-- What the receiving thread of sw/itc-common/src/itcTransportSysvMsgQueue.cc does with its buffer and
-- with a message of the queue.
use itc_platform.Common.{ℕ, ◌+◌, ◌-◌, ◌/◌, ◌^◌, ◌≤◌, ◌<◌, ◌≡◌, ◌≢◌, arith, true, List, ◌∷◌, length}
use itc_platform.Common.Outcome.{done, fault, ◌>>=◌}
use itc_platform.Message.{Message}
use itc_platform.Message.Bytes.{HasWords}
use itc_platform.Message.Laws.{IsWhole}
use itc_platform.Transport.Local.{Region}
use itc_platform.Transport.Sysv.{tx_frame}
use itc_platform.Transport.Sysv.Forward.{rx_accepts, parse_and_forward_message}
use itc_platform.Transport.Sysv.Forward.Arrive.{length-tx_frame}
use itc_platform.Transport.Sysv.Receiver.{
  Endpoint, EndpointCalls, get_max_message_size, allocate_buffer, empty_queue, open_queue, RxEvent,
  arrived, rx_loop,
}

allocate_buffer-fault :
    (calls : EndpointCalls) (s : Endpoint)
    → 2 ^ 63 ≤ s.max_msg_size
    → allocate_buffer calls s ≡ fault
unfolding allocate_buffer get_max_message_size
allocate_buffer-fault calls s h = ground arith

-- While the maximal message size is still the value that the constructor gave it, the limits of the
-- system are not asked for, and the thread never gets as far as its loop: it returns, or the allocation
-- of its buffer faults.
pub open_queue_fails :
    (calls : EndpointCalls) (s s' : Endpoint)
    → s.max_msg_size ≡ 2 ^ 64 - 1
    → (get_max_message_size calls s ≡ (2 ^ 64 - 1, s)) × (open_queue calls s ≢ done (true, s'))
unfolding get_max_message_size open_queue empty_queue
open_queue_fails calls s s' size = (
  ground arith,
  λ e. absurd (
      ground (
        arith,
        allocate_buffer-fault calls
            (record s {
              mbox_id = calls.create_mailbox;
              msg_queue_id = calls.msgget (calls.ftok (s.region_id / 2 ^ 20));
            })
            (omega arith),
        allocate_buffer-fault calls
            (record s {
              mbox_id = calls.create_mailbox;
              msg_queue_id = calls.msgget_again (calls.ftok (s.region_id / 2 ^ 20));
            })
            (omega arith),
      )),
)

-- The loop drops every whole message of at most twelve bytes that arrives, though it is well
-- formed; a longer one, below the limit of 32 bits, goes to the mailboxes, and the loop goes on
-- from what they have become.
pub rx_loop_round :
    (junk : ℕ → ℕ) (m : Message) (events : List RxEvent) (r : Region)
    → IsWhole m
    → HasWords m
    → m.size + 17 < 2 ^ 32
    → (m.size ≤ 12 → rx_loop junk (arrived (tx_frame m) ∷ events) r ≡ rx_loop junk events r)
      × (12 < m.size
          → rx_loop junk (arrived (tx_frame m) ∷ events) r ≡ (
              parse_and_forward_message junk (tx_frame m) (length (tx_frame m)) r >>= λ answer.
              rx_loop junk events answer.1))
unfolding rx_loop rx_accepts
rx_loop_round junk m events r whole words small = (
  λ short. ground (arith, length-tx_frame m whole words small),
  λ long. ground (arith, length-tx_frame m whole words small),
)
