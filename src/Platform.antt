-- ===== src/Platform.antt =====
-- sw/itc-api/src/itcPlatform.cc: the interface that the threads of a process call, here as one thread
-- calls it. The container of mailboxes that this file uses has operations that
-- sw/itc-common/inc/itcConcurrentContainer.h does not have; they are a parameter.
pub mod Requests
pub mod Mailboxes
pub mod Locating
pub mod Session
pub mod Routing
pub mod Conversation
pub mod Forwarding
pub mod Lifetime
pub mod Asking
pub mod Owning
pub mod Starting
use itc_platform.Common.{
  ℕ, zero, suc, ◌+◌, ◌-◌, ◌%◌, ◌^◌, Bool, true, false, Option, none, some, List, [], ◌∷◌, ◌++◌,
  ◌==◌, ◌&&◌, ltb, if◌then◌else◌, not, bit_and, ℤ, negsuc, length, take, drop,
}
use itc_platform.Common.Outcome.{Outcome, done, waits, fault, ◌>>=◌}
use itc_platform.Message
use itc_platform.Message.{Message, Heap, store, allocate, write32}
use itc_platform.Message.Bytes.{encode}
use itc_platform.Mailbox.{Mailbox}
use itc_platform.Container.{at}
use itc_platform.ThreadManager.{Manager}
use itc_platform.Transport.Local
use itc_platform.Transport.Local.{ReturnCode, itc_ok, itc_failed, Region, load}
use itc_platform.Transport.Sysv
use itc_platform.Transport.Sysv.{Calls, Contacts, itc_mask_region_id, flat_size}
use itc_platform.Transport.Sysv.Receiver.{Endpoint}
use itc_platform.Transport.Socket.{Socket}

-- A std::string, as its bytes.
abbrev pub Name : Type 0
Name = List ℕ

-- The operations on the container of mailboxes, and the fields of a mailbox, that the platform uses.
-- A mailbox is named by its index; its queue is in the region, which the first three also change.
pub record MailboxList (L : Type 0) : Type 0 where
  pub emplace : Name → ℕ → L → (ℕ → Mailbox) → Option ℕ × L × (ℕ → Mailbox)
  pub remove : ℕ → L → (ℕ → Mailbox) → L × (ℕ → Mailbox)
  pub clear : L → (ℕ → Mailbox) → L × (ℕ → Mailbox)
  pub has_value : ℕ → L → Bool
  pub set_id : ℕ → ℕ → L → L
  pub id_at : ℕ → L → ℕ
  pub name_at : ℕ → L → Name
  pub fd_at : ℕ → L → ℤ
  pub find_id : Name → L → Option ℕ
  pub size : L → ℕ

-- `ItcPlatform` as one thread sees it, with the parts of the process that it works on. `my_mailbox` is
-- the thread's own mailbox, `none` for nullptr.
pub record Platform (L : Type 0) : Type 0 where
  pub is_initialised : Bool
  pub region_id : ℕ
  pub itc_server_mbox_id : ℕ
  pub my_mailbox : Option ℕ
  pub mboxes : L
  pub region : Region
  pub contacts : Contacts
  pub endpoint : Endpoint
  pub socket : Socket
  pub manager : Manager

-- `CONVERT_TO_USER_MESSAGE` and `CONVERT_TO_ADMIN_MESSAGE`, on 64-bit addresses.
abbrev pub to_user : ℕ → ℕ
to_user p = (p + 16) % 2 ^ 64

abbrev pub to_admin : ℕ → ℕ
to_admin p = (p + 2 ^ 64 - 16) % 2 ^ 64

unfoldable pub allocate_message : (ℕ → ℕ) → ℕ → ℕ → Heap → ℕ × Heap
allocate_message junk msgno size h = let (p, h') = allocate junk msgno size h in (to_user p, h')

unfoldable pub deallocate_message : ℕ → Heap → Outcome (ReturnCode × Heap)
deallocate_message msg h = elim (Message.deallocate (to_admin msg) h) [
  | none ↦ fault
  | some (true, h') ↦ done (itc_ok, h')
  | some (false, h') ↦ done (itc_failed, h')
]

unfoldable pub get_sender : ℕ → Heap → Outcome ℕ
get_sender msg h = do m ← load h (to_admin msg); done m.sender

unfoldable pub get_receiver : ℕ → Heap → Outcome ℕ
get_receiver msg h = do m ← load h (to_admin msg); done m.receiver

unfoldable pub get_msg_size : ℕ → Heap → Outcome ℕ
get_msg_size msg h = do m ← load h (to_admin msg); done m.size

-- A write of bytes into a message, counted from its number on.
abbrev pub splice : ℕ → List ℕ → List ℕ → List ℕ
splice offset bytes body = take offset body ++ (bytes ++ drop (offset + length bytes) body)

unfoldable pub write_field : ℕ → ℕ → List ℕ → Heap → Outcome Heap
write_field msg offset bytes h = do
  m ← load h (to_admin msg)
  done (store h (to_admin msg) (record m { body = splice offset bytes m.body }))

abbrev pub with_boxes : {L : Type 0} → Platform L → L × (ℕ → Mailbox) → Platform L
with_boxes p (mboxes, queues) = record p {
  mboxes = mboxes;
  region = record (p.region) { mailboxes = queues };
}

abbrev pub is_ok : ReturnCode → Bool
is_ok itc_ok = true
is_ok _ = false

abbrev pub with_heap : {L : Type 0} → Platform L → Heap → Platform L
with_heap p h = record p { region = record (p.region) { heap = h } }

abbrev pub itc_system_message_forward_message_to_itc_server_request : ℕ
itc_system_message_forward_message_to_itc_server_request = 0x16

module _ {L : Type 0} (list : MailboxList L) (junk : ℕ → ℕ) (net : ℕ → Calls) (fuel : ℕ) where
  -- The checks of `send`, and the ids that it writes: `none` where it answers ITC_FAILED.
  unfoldable pub address : ℕ → ℕ → ℕ → Platform L → Outcome (Option (Platform L))
  address msg mailbox_id world_id p =
      if not p.is_initialised then done none else elim p.my_mailbox [
        | none ↦ done none
        | some mine ↦
            if (mailbox_id == list.id_at mine p.mboxes) && (world_id == 0) then done none else (do
              m ← load p.region.heap (to_admin msg)
              done (
                  some (
                    with_heap p (
                      store p.region.heap (to_admin msg)
                        (record m { receiver = mailbox_id; sender = list.id_at mine p.mboxes })))))
      ]

  -- The transport that takes the message.
  unfoldable pub route : ℕ → ℕ → Platform L → Outcome (ReturnCode × Platform L)
  route msg mailbox_id p =
      if not (bit_and mailbox_id itc_mask_region_id == p.region_id)
      then (do
        (code, contacts, h) ←
            Sysv.send net fuel p.endpoint.is_initialised (to_admin msg) p.contacts p.region.heap
        done (code, with_heap (record p { contacts = contacts }) h))
      else (do
        (code, region) ← Local.send (to_admin msg) p.region
        done (code, record p { region = region }))

  -- `send` to a mailbox of this world.
  unfoldable pub send_in_world : ℕ → ℕ → Platform L → Outcome (ReturnCode × Platform L)
  send_in_world msg mailbox_id p = do
    addressed ← address msg mailbox_id 0 p
    elim addressed [ none ↦ done (itc_failed, p) | some p' ↦ route msg mailbox_id p' ]

  -- The message to the server with the bytes of another one. A copy past the memory of the message is
  -- a fault.
  unfoldable pub forward_request : ℕ → ℕ → Platform L → Outcome (ℕ × Platform L)
  forward_request msg world_id p = do
    m ← load p.region.heap (to_admin msg)
    let (req, h) =
        allocate_message junk itc_system_message_forward_message_to_itc_server_request
          (12 + flat_size m.size) p.region.heap
    h1 ← write_field req 4 (write32 world_id) h
    h2 ← write_field req 8 (write32 (flat_size m.size)) h1
    h3 ← write_field req 12 (take (flat_size m.size) (encode m)) h2
    if ltb (length (encode m)) (flat_size m.size) then fault else done (req, with_heap p h3)

  -- `forwardMessageToItcServer`: the message is deallocated whatever the answer is.
  unfoldable pub forward_message_to_itc_server :
      ℕ → ℕ → Platform L → Outcome (ReturnCode × Platform L)
  forward_message_to_itc_server msg world_id p = do
    (req, p1) ← forward_request msg world_id p
    (code, p2) ← send_in_world req p1.itc_server_mbox_id p1
    (freed, h) ← deallocate_message msg p2.region.heap
    done (code, with_heap p2 h)

  unfoldable pub send : ℕ → ℕ → ℕ → Platform L → Outcome (ReturnCode × Platform L)
  send msg mailbox_id world_id p = do
    addressed ← address msg mailbox_id world_id p
    elim addressed [
      | none ↦ done (itc_failed, p)
      | some p' ↦
          if not (world_id == 0)
          then forward_message_to_itc_server msg world_id p'
          else route msg mailbox_id p'
    ]

  -- `receive`: also nullptr is converted to the address of a user's message.
  unfoldable pub receive : ℕ → Platform L → Outcome (ℕ × Platform L)
  receive mode p = if not p.is_initialised then done (0, p) else elim p.my_mailbox [
    | none ↦ done (0, p)
    | some mine ↦ do
      (msg, region) ← Local.receive (at mine) mode p.region
      done (to_user msg, record p { region = region })
  ]

  unfoldable pub my_mailbox_fd : Platform L → ℤ
  my_mailbox_fd p = elim p.my_mailbox [ none ↦ negsuc 0 | some mine ↦ list.fd_at mine p.mboxes ]

  -- It answers with the name of the thread's own mailbox, whatever the id.
  unfoldable pub get_mailbox_name : ℕ → Platform L → Name
  get_mailbox_name mbox_id p = elim p.my_mailbox [
    | none ↦ []
    | some mine ↦ list.name_at mine p.mboxes
  ]
