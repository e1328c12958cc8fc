-- ===== src/Examples/Transports.antt =====
-- Messages within a region and between regions (sw/itc-common/src/itcTransportLocal.cc,
-- sw/itc-common/src/itcTransportSysvMsgQueue.cc).
use itc_platform.Common.{
  ℕ, zero, suc, ◌<◌, ◌≡◌, ◌≢◌, refl, arith, true, some, [], ◌∷◌, ◌++◌, length, ℤ, pos,
}
use itc_platform.Common.Outcome.{done}
use itc_platform.Queue
use itc_platform.Message.{free}
use itc_platform.Mailbox.Laws.{waiting}
use itc_platform.Container.{at}
use itc_platform.Transport.Local
use itc_platform.Transport.Local.{Region, itc_ok}
use itc_platform.Transport.Local.Deliver.{IsRegion, send-receive}
use itc_platform.Transport.Sysv
use itc_platform.Transport.Sysv.{
  Calls, Contacts, sent, refused, einval, eintr, no_contact, tx_frame, project_of,
}
use itc_platform.Transport.Sysv.Retry.{send_delivers, send_took}
use itc_platform.Transport.Sysv.Forward.{parse_and_forward_message}
use itc_platform.Transport.Sysv.Forward.Arrive.{forward_arrives}
use itc_platform.Examples.Mailboxes.{
  hello, hello-IsWhole, hello-HasWords, hello_heap, ready, ready-IsMailbox,
}

-- Every mailbox of the region is active.
abbrev pub region : Region
region = record { heap = hello_heap; mailboxes = λ _. ready }

pub region-IsRegion : IsRegion region
region-IsRegion i = ready-IsMailbox

pub nothing_waits : waiting ready ≡ []
unfolding Queue.empty_queue
nothing_waits = refl

few_wait : length (waiting ready) < 1024
few_wait = rw nothing_waits (omega arith)

-- The first attempt finds the queue gone, the second is served.
abbrev gone : Calls
gone = record {
  ftok = λ p. pos p;
  msgget = λ key. (pos 4, eintr);
  msgsnd = λ queue frame. refused einval;
}

abbrev served : Calls
served = record gone { msgsnd = λ queue frame. sent }

abbrev pub attempts : ℕ → Calls
attempts zero = gone
attempts (suc k) = served

abbrev pub contacts : Contacts
contacts = λ _. no_contact

send_delivers_example :
    (contacts' : Contacts) × (Sysv.send attempts 3 true 1 contacts hello_heap
      ≡ done (itc_ok, contacts', free hello_heap 1))
send_delivers_example =
    send_delivers attempts 3 1 1 hello contacts hello_heap (omega arith) refl hello-IsWhole
      (omega arith) (omega arith) (omega arith) (omega arith) (omega arith) (λ queue. refl)

delivered :
    (contacts' : Contacts) × (Sysv.send attempts 3 true 1 contacts hello_heap
      ≡ done (itc_ok, contacts', free hello_heap 1))
delivered =
    send_delivers attempts 3 1 1 hello contacts hello_heap (omega arith) refl hello-IsWhole
      (omega arith) (omega arith) (omega arith) (omega arith) (omega arith) (λ queue. refl)

send_took_example :
    (0 < project_of hello.receiver)
    × (project_of hello.receiver < 255)
    × ((j : ℕ) × (queue : ℤ) × (j < 3) × ((attempts j).msgsnd queue (tx_frame hello) ≡ sent))
send_took_example =
    send_took attempts 3 1 true hello contacts delivered.0 hello_heap (free hello_heap 1) refl
      delivered.1

forward_arrives_example :
    (r' : Region) × (parse_and_forward_message
        (λ i. i)
        (tx_frame hello)
        (length (tx_frame hello))
        region
      ≡ done (true, r'))
    × (waiting (r'.mailboxes 5) ≡ waiting ready ++ (2 ∷ []))
    × (r'.heap.cell 2 ≡ some hello)
    × IsRegion r'
forward_arrives_example =
    forward_arrives hello hello-IsWhole hello-HasWords (omega arith) (λ i. i) region (omega arith)
      (omega arith) region-IsRegion (omega arith) refl few_wait

send-receive_example :
    (r' r'' : Region) × (Local.send 1 region ≡ done (itc_ok, r'))
    × (Local.receive 6 2 r' ≡ done (1, r''))
    × (waiting (r''.mailboxes 5) ≡ [])
    × ((j : ℕ) → 5 ≢ j → r''.mailboxes j ≡ region.mailboxes j)
    × IsRegion r''
unfolding at
send-receive_example =
    send-receive 1 hello region refl 2 (λ e. absurd (omega arith)) region-IsRegion (omega arith)
      refl nothing_waits
