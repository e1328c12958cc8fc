-- ===== src/Examples/Mailboxes.antt =====
-- Messages in memory and mailboxes of a region (sw/itc-common/inc/itcAdminMessage.h,
-- sw/itc-common/src/itcMailbox.cc).

use itc_platform.Common.{
  ◌≡◌, ◌≢◌, refl, arith, true, false, none, some, [], ◌∷◌, List, ◌==◌, if◌then◌else◌,
}
use itc_platform.Message.{Message, Heap, allocate, deallocate, may_deallocate, free}
use itc_platform.Message.Bytes.{HasWords}
use itc_platform.Message.Laws.{IsWhole, allocate-deallocate}
use itc_platform.Queue.Window.{empty_queue-IsQueue}
use itc_platform.Queue
use itc_platform.Mailbox.{Mailbox, rx_config}
use itc_platform.Mailbox.Drain.{rx_config-IsConfig, deallocate_all}
use itc_platform.Mailbox.Inbox.{
  Call, Answer, put, get, activate, deactivate, pushed, popped, changed, step, take_oldest,
  run_inbox, run_mailbox,
}
use itc_platform.Mailbox.Inbox.Refine.{view, AllNoNull, run_mailbox_refines}
use itc_platform.Mailbox.Laws.{IsMailbox}

-- A message of six bytes to unit 5 of region 3, with its endpoint.
abbrev pub hello : Message
hello = record {
  sender = 0x00200007;
  receiver = 0x00300005;
  flags = 0;
  size = 6;
  body = 1 ∷ 0 ∷ 0 ∷ 0 ∷ 72 ∷ 105 ∷ 0xaa ∷ [];
}

pub hello-IsWhole : IsWhole hello
hello-IsWhole = record { queued = refl; ended = refl; fits = omega arith; room = refl }

pub hello-HasWords : HasWords hello
hello-HasWords = record {
  sender_fits = omega arith;
  receiver_fits = omega arith;
  flags_fit = omega arith;
  size_fits = omega arith;
}

abbrev pub hello_heap : Heap
hello_heap = record { next = 2; cell = λ p. if p == 1 then some hello else none }

allocate-deallocate_example :
    let (p, h') = allocate (λ i. i) 9 8 hello_heap in
    (p ≢ 0) × (deallocate p h' ≡ some (true, free h' p)) × (deallocate p (free h' p) ≡ none)
allocate-deallocate_example =
    allocate-deallocate (λ i. i) 9 8 hello_heap (omega arith) (omega arith) (omega arith)

-- An active mailbox where nothing waits.
abbrev pub ready : Mailbox
ready = record { mailbox_id = 5; flags = 0; queue = Queue.empty_queue rx_config; is_active = true }

pub ready-IsMailbox : IsMailbox ready
unfolding Queue.empty_queue
ready-IsMailbox = record {
  queue_valid = empty_queue-IsQueue rx_config-IsConfig;
  idle_empty = λ e. refl;
}

-- A message is taken, another one is freed with the mailbox, and the third one is refused.
abbrev one_life : List Call
one_life = put 7 ∷ get 1 ∷ get 1 ∷ put 1 ∷ deactivate ∷ put 8 ∷ get 0 ∷ activate ∷ []

abbrev seen : List Answer
seen =
    pushed true
    ∷ popped 7
    ∷ popped 0
    ∷ pushed true
    ∷ changed
    ∷ pushed false
    ∷ popped 0
    ∷ changed
    ∷ []

no_null : AllNoNull one_life
no_null = (
  (λ e. absurd (omega arith)),
  (tt, (tt, ((λ e. absurd (omega arith)), (tt, ((λ e. absurd (omega arith)), (tt, (tt, tt))))))),
)

run_mailbox_refines_example :
    run_mailbox one_life ready hello_heap ≡ run_inbox one_life (view ready) hello_heap
run_mailbox_refines_example = run_mailbox_refines one_life ready hello_heap ready-IsMailbox no_null

lived : run_inbox one_life (view ready) hello_heap ≡ some (seen, free hello_heap 1)
unfolding run_inbox step take_oldest Queue.empty_queue deallocate_all deallocate may_deallocate
lived = refl
