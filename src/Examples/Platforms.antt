-- ===== src/Examples/Platforms.antt =====
-- The platform of one process (sw/itc-api/src/itcPlatform.cc) with a container of mailboxes that is a
-- list of names and ids.
use itc_platform.Common.{
  ℕ, zero, suc, ◌≡◌, ◌≢◌, refl, Bool, true, false, Option, none, some, List, [], ◌∷◌, ◌++◌, length,
  ltb, ◌==◌, ◌&&◌, if◌then◌else◌, bit_and, ℤ, pos,
}
use itc_platform.Common.Family.{update}
use itc_platform.Common.Outcome.{done}
use itc_platform.Message.{itc_mailbox_id_default}
use itc_platform.Mailbox.{new_mailbox}
use itc_platform.ThreadManager
use itc_platform.ThreadManager.Starting.{all_running, tasks}
use itc_platform.Transport.Local.{itc_ok, itc_failed}
use itc_platform.Transport.Sysv
use itc_platform.Transport.Sysv.{Calls, Contacts, no_contact}
use itc_platform.Transport.Sysv.Receiver.{new_endpoint}
use itc_platform.Transport.Socket
use itc_platform.Transport.Socket.{new_socket}
use itc_platform.Platform.{Name, MailboxList, Platform, send, receive}
use itc_platform.Platform.Mailboxes.{create_mailbox}
use itc_platform.Platform.Session.{
  PlatformCalls, answers, initialise, set_up, check_and_start_itc_server, start_daemon, find_region,
  add_rx_thread, initialise_transports, start_threads, itc_flag_i_am_itc_server,
}
use itc_platform.Platform.Starting.{initialise_ok}
use itc_platform.Platform.Lifetime.{no_call, another, initialise_step, never_ready}
use itc_platform.Examples.Transports.{region, attempts, contacts}
use itc_platform.Examples.Systems.{finding, connecting}
use itc_platform.Examples.Managers.{one_fresh, willing}
use itc_platform.Examples.Receivers

abbrev pub Boxes : Type 0
Boxes = List (Name × ℕ)

abbrev name_of : ℕ → Boxes → Name
name_of index [] = []
name_of zero ((name, id) ∷ boxes) = name
name_of (suc index) ((name, id) ∷ boxes) = name_of index boxes

abbrev id_of : ℕ → Boxes → ℕ
id_of index [] = itc_mailbox_id_default
id_of zero ((name, id) ∷ boxes) = id
id_of (suc index) ((name, id) ∷ boxes) = id_of index boxes

abbrev renumber : ℕ → ℕ → Boxes → Boxes
renumber index new [] = []
renumber zero new ((name, id) ∷ boxes) = (name, new) ∷ boxes
renumber (suc index) new ((name, id) ∷ boxes) = (name, id) ∷ renumber index new boxes

abbrev same_name : Name → Name → Bool
same_name [] [] = true
same_name (a ∷ name) (b ∷ other) = (a == b) && same_name name other
same_name _ _ = false

abbrev id_named : Name → Boxes → Option ℕ
id_named name [] = none
id_named name ((other, id) ∷ boxes) =
    let rest = id_named name boxes in if same_name name other then some id else rest

abbrev pub boxes_list : MailboxList Boxes
boxes_list = record {
  emplace = λ name flags boxes queues. (
    some (length boxes),
    boxes ++ ((name, itc_mailbox_id_default) ∷ []),
    update queues (length boxes) (new_mailbox flags),
  );
  remove = λ index boxes queues. (boxes, update queues index (new_mailbox 0));
  clear = λ boxes queues. ([], λ _. new_mailbox 0);
  has_value = λ index boxes. ltb index (length boxes);
  set_id = renumber;
  id_at = id_of;
  name_at = name_of;
  fd_at = λ index boxes. pos 3;
  find_id = id_named;
  size = length;
}

abbrev two_boxes : Boxes
two_boxes = ((97 ∷ []), 0x00300000) ∷ ((98 ∷ []), 0x00300001) ∷ []

abbrev pub up_platform : Platform Boxes
up_platform = record {
  is_initialised = true;
  region_id = 0x00300000;
  itc_server_mbox_id = 0x00100001;
  my_mailbox = some 1;
  mboxes = two_boxes;
  region = region;
  contacts = contacts;
  endpoint = record new_endpoint { is_initialised = true };
  socket = new_socket;
  manager = one_fresh;
}

abbrev down_platform : Platform Boxes
down_platform = record up_platform { is_initialised = false; my_mailbox = none }

abbrev pub junk : ℕ → ℕ
junk i = i

-- The calls of a process that starts the server and finds it.
abbrev lucky : PlatformCalls
lucky = record {
  server_exists = false;
  daemon = record { fork = pos 99; setsid = pos 99; fork_again = pos 0; execvp_fails = true };
  search_calls = finding;
  socket_calls = connecting;
  endpoint_calls = Receivers.calls;
  thread_calls = λ i. willing;
  grow = λ n. 16;
  rx_task = 21;
  rx_sync_obj = 8;
  key_create = pos 0;
  key_delete = pos 0;
}

abbrev unlucky : PlatformCalls
unlucky = record lucky { server_exists = true }

abbrev begun_platform : Platform Boxes
begun_platform = record down_platform { endpoint = new_endpoint }

begun :
    (p' : Platform Boxes) × (initialise boxes_list lucky 2 0 begun_platform
      ≡ done (answers (itc_ok, p')))
unfolding initialise check_and_start_itc_server start_daemon set_up find_region
    initialise_transports add_rx_thread start_threads Socket.locate_itc_server Socket.take_reply
    Socket.closed Socket.initialise Socket.connect_socket Socket.receive_ack
    Sysv.Receiver.initialise ThreadManager.add_thread ThreadManager.start_all_threads
    ThreadManager.start_from ThreadManager.configure_and_start_thread
begun = (_, refl)

initialise_ok_example :
    (lucky.server_exists ≡ false)
    × (all_running begun.0.manager.threads ≡ true)
    × (tasks begun.0.manager.threads ≡ tasks one_fresh.threads ++ (21 ∷ []))
    × (bit_and 0 itc_flag_i_am_itc_server ≢ 0 → new_socket.is_itc_server_running ≡ true)
initialise_ok_example =
    initialise_ok boxes_list lucky 2 0 begun_platform begun.0 refl refl (λ obj. refl) begun.1

refused :
    initialise boxes_list unlucky 2 0 down_platform ≡ done (answers (itc_failed, down_platform))
unfolding initialise check_and_start_itc_server
refused = refl

never_ready_example :
    ((msg id world : ℕ)
      → send boxes_list junk attempts 3 msg id world down_platform
        ≡ done (itc_failed, down_platform))
    × ((mode : ℕ) → receive boxes_list junk attempts 3 mode down_platform ≡ done (0, down_platform))
    × ((set_specific : ℤ) (name : Name) (flags : ℕ)
        → create_mailbox boxes_list junk attempts 3 set_specific name flags down_platform
          ≡ done (itc_mailbox_id_default, down_platform))
never_ready_example =
    never_ready boxes_list junk refl
      (another no_call (initialise_step unlucky 2 0 itc_failed refused)) attempts 3
