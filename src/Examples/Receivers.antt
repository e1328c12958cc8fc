-- ===== src/Examples/Receivers.antt =====
-- The receiving thread of sw/itc-common/src/itcTransportSysvMsgQueue.cc, as it is constructed, and with
-- a short message in its queue.
use itc_platform.Common.{◌-◌, ◌^◌, ◌≤◌, ◌<◌, ◌≡◌, ◌≢◌, refl, arith, true, [], ◌∷◌, length, pos}
use itc_platform.Common.Outcome.{done, ◌>>=◌}
use itc_platform.FileSystem.{fs_ok}
use itc_platform.Mailbox.{new_mailbox}
use itc_platform.Transport.Local.{Region}
use itc_platform.Transport.Sysv.{tx_frame}
use itc_platform.Transport.Sysv.Forward.{parse_and_forward_message}
use itc_platform.Transport.Sysv.Receiver.{
  EndpointCalls, new_endpoint, get_max_message_size, open_queue, arrived, stop, rx_loop,
}
use itc_platform.Transport.Sysv.Receiver.Rounds.{open_queue_fails, rx_loop_round}
use itc_platform.Examples.Mailboxes.{hello, hello-IsWhole, hello-HasWords, hello_heap}

abbrev pub calls : EndpointCalls
calls = record {
  create_path = fs_ok;
  getpid = pos 1234;
  key_create = pos 0;
  key_delete = pos 0;
  prctl = pos 0;
  create_mailbox = 0x00500001;
  set_specific = pos 0;
  ftok = λ project. pos project;
  msgget = λ key. pos 6;
  msgget_again = λ key. pos 7;
  stat = λ queue. (pos 0, 0);
  remove = λ queue. pos 0;
  info = (pos 0, pos 8192, pos 16384);
}

abbrev region : Region
region = record { heap = hello_heap; mailboxes = λ _. new_mailbox 0 }

open_queue_fails_example :
    (get_max_message_size calls new_endpoint ≡ (2 ^ 64 - 1, new_endpoint))
    × (open_queue calls new_endpoint ≢ done (true, new_endpoint))
open_queue_fails_example = open_queue_fails calls new_endpoint new_endpoint refl

rx_loop_round_example :
    (6 ≤ 12
      → rx_loop (λ i. i) (arrived (tx_frame hello) ∷ stop ∷ []) region
        ≡ rx_loop (λ i. i) (stop ∷ []) region)
    × (12 < 6
        → rx_loop (λ i. i) (arrived (tx_frame hello) ∷ stop ∷ []) region ≡ (
            parse_and_forward_message (λ i. i) (tx_frame hello) (length (tx_frame hello)) region
            >>= λ answer. rx_loop (λ i. i) (stop ∷ []) answer.1))
rx_loop_round_example =
    rx_loop_round (λ i. i) hello (stop ∷ []) region hello-IsWhole hello-HasWords (omega arith)
