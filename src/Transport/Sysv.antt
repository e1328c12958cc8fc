-- ===== src/Transport/Sysv.antt =====
-- sw/itc-common/src/itcTransportSysvMsgQueue.cc: messages to other regions over SYSV message queues.
-- The answers of the C library come in as a record, one for each attempt of a loop.
pub mod Retry
pub mod Freeing
pub mod Forward
pub mod Receiver
use itc_platform.Common.{
  ℕ, zero, suc, ◌+◌, ◌*◌, ◌/◌, ◌%◌, ◌^◌, Bool, true, false, Option, none, some, List, [], ◌∷◌, ◌++◌,
  ltb, leb, ◌==◌, ◌||◌, if◌then◌else◌, not, bit_and, ℤ, pos, negsuc, eqb_ℤ, length, take,
}
use itc_platform.Common.Family.{update}
use itc_platform.Common.Outcome.{Outcome, done, waits, fault}
use itc_platform.Message.{Message, Heap, deallocate, itc_mailbox_id_default, write32}
use itc_platform.Message.Bytes.{encode}
use itc_platform.Transport.Local.{ReturnCode, itc_ok, itc_failed}

abbrev pub itc_mask_region_id : ℕ
itc_mask_region_id = 0xfff00000

abbrev pub itc_region_id_shift : ℕ
itc_region_id_shift = 20

abbrev pub itc_max_supported_regions : ℕ
itc_max_supported_regions = 255

abbrev pub minus_one : ℤ
minus_one = negsuc 0

-- The values of errno that the code tests.
pub data Errno : Type 0 where
  eintr einval eidrm enoent other_error : Errno

pub data SendAnswer : Type 0 where
  sent : SendAnswer
  refused : Errno → SendAnswer

-- `ftok` for a project number, `msgget` for a key, `msgsnd` to a queue.
pub record Calls : Type 0 where
  pub ftok : ℕ → ℤ
  pub msgget : ℤ → ℤ × Errno
  pub msgsnd : ℤ → List ℕ → SendAnswer

-- `SysvMsgQueueContactInfo`.
pub record Contact : Type 0 where
  pub region_id : ℕ
  pub msg_queue_id : ℤ

abbrev pub no_contact : Contact
no_contact = record { region_id = itc_mailbox_id_default; msg_queue_id = minus_one }

abbrev pub Contacts : Type 0
Contacts = ℕ → Contact

-- `(mboxId & ITC_MASK_REGION_ID) >> ITC_REGION_ID_SHIFT`.
pub project_of : ℕ → ℕ
project_of mbox_id = bit_and mbox_id itc_mask_region_id / 2 ^ itc_region_id_shift

pub get_msg_queue_id : Calls → ℕ → ℤ
get_msg_queue_id calls mbox_id =
    let key = calls.ftok (project_of mbox_id) in
    if eqb_ℤ key minus_one
    then minus_one
    else let (queue_id, errno) = calls.msgget key in
      if eqb_ℤ queue_id minus_one
      then elim errno [ enoent ↦ minus_one | _ ↦ queue_id ]
      else queue_id

pub remove_contact_info_at_index : ℕ → Contacts → Contacts
remove_contact_info_at_index index contacts = update contacts index no_contact

pub add_contact_info_at_index : Calls → ℕ → ℕ → Contacts → Contacts
add_contact_info_at_index calls index mbox_id contacts =
    let queue_id = get_msg_queue_id calls mbox_id in
    if eqb_ℤ queue_id minus_one
    then contacts
    else update contacts index
        (record { region_id = bit_and mbox_id itc_mask_region_id; msg_queue_id = queue_id })

-- The loop around `msgsnd`, from attempt `k` on. `waits` is the end of the fuel.
pub send_loop : (ℕ → Calls) → ℕ → ℕ → List ℕ → ℕ → ℕ → Contacts → Outcome Contacts
send_loop calls project receiver frame zero k contacts = waits
send_loop calls project receiver frame (suc fuel) k contacts =
    let again = send_loop calls project receiver frame fuel (suc k) in
    let renewed =
      add_contact_info_at_index (calls k) project receiver
        (remove_contact_info_at_index project contacts) in
    let renew = if (renewed project).region_id == 0 then done renewed else again renewed in
    elim ((calls k).msgsnd (contacts project).msg_queue_id frame) [
      | sent ↦ done contacts
      | refused eintr ↦ again contacts
      | refused einval ↦ renew
      | refused eidrm ↦ renew
      | refused _ ↦ again contacts
    ]

-- The message type that stands before a message, as a `long`, and the bytes of the message.
abbrev pub tx_msgno : List ℕ
tx_msgno = write32 1 ++ write32 0

-- `ITC_ADMIN_MESSAGE_PREAMBLE_SIZE + size + ITC_ADMIN_MESSAGE_ENDPOINT_SIZE` on uint32_t.
abbrev pub flat_size : ℕ → ℕ
flat_size size = (16 + size + 1) % 2 ^ 32

pub tx_frame : Message → List ℕ
tx_frame m = tx_msgno ++ take (flat_size m.size) (encode m)

-- `send` after its checks: copy, loop, deallocate. A copy past the memory of the message is a fault;
-- so stands the exception of `new` for a length that is negative as an int32_t.
pub transmit :
    (ℕ → Calls) → ℕ → ℕ → Message → Contacts → Heap → Outcome (ReturnCode × Contacts × Heap)
transmit calls fuel msg m contacts h =
    if leb (2 ^ 31) (flat_size m.size) || ltb (length (encode m)) (flat_size m.size)
    then fault
    else elim (send_loop calls (project_of m.receiver) m.receiver (tx_frame m) fuel 0 contacts) [
      | waits ↦ waits
      | fault ↦ fault
      | done contacts' ↦ elim (deallocate msg h) [
        | none ↦ fault
        | some (true, h') ↦ done (itc_ok, contacts', h')
        | some (false, h') ↦ done (itc_failed, contacts', h')
      ]
    ]

unfoldable pub send :
    (ℕ → Calls) → ℕ → Bool → ℕ → Contacts → Heap → Outcome (ReturnCode × Contacts × Heap)
send calls fuel is_initialised msg contacts h =
    if not is_initialised then done (itc_failed, contacts, h) else elim (h.cell msg) [
      | none ↦ fault
      | some m ↦
          if (project_of m.receiver == 0) || leb itc_max_supported_regions (project_of m.receiver)
          then done (itc_failed, contacts, h)
          else transmit calls fuel msg m contacts h
    ]
