-- ===== src/Transport/Local.antt =====
-- sw/itc-common/src/itcTransportLocal.cc: messages between the mailboxes of one region.
pub mod Deliver
use itc_platform.Common.{
  ℕ, zero, suc, ◌+◌, ◌%◌, ◌^◌, Bool, true, false, Option, none, some, List, [], ◌∷◌, ltb,
  if◌then◌else◌, bit_and,
}
use itc_platform.Common.Family.{update}
use itc_platform.Common.Outcome.{Outcome, done, waits, fault, ◌>>=◌}
use itc_platform.Message.{Message, Heap}
use itc_platform.Mailbox
use itc_platform.Mailbox.{Mailbox}
use itc_platform.Container.{at, entry_at}

-- `ItcPlatformIfReturnCode`.
pub data ReturnCode : Type 0 where
  itc_undefined itc_ok itc_failed : ReturnCode

abbrev pub itc_mask_unit_id : ℕ
itc_mask_unit_id = 0xffff

abbrev pub itc_max_supported_mailboxes : ℕ
itc_max_supported_mailboxes = 1024

-- The messages in memory and the mailboxes of the region.
pub record Region : Type 0 where
  pub heap : Heap
  pub mailboxes : ℕ → Mailbox

-- A read or a write through a pointer to a message.
unfoldable pub load : Heap → ℕ → Outcome Message
load h p = elim (h.cell p) [ none ↦ fault | some m ↦ done m ]

-- `receiver->push(adminMsg)`, with the pointer that `at` computed.
unfoldable pub push_at : ℕ → ℕ → Region → Outcome (Bool × Region)
push_at entry msg r = elim (entry_at itc_max_supported_mailboxes entry) [
  | none ↦ fault
  | some i ↦ elim (Mailbox.push msg (r.mailboxes i)) [
    | none ↦ waits
    | some (pushed, mbox) ↦ done (pushed, record r { mailboxes = update r.mailboxes i mbox })
  ]
]

-- `ItcTransportLocal::send`. The pointer that `at` computes is never null, so its test always
-- passes, and the answer of `push` is not read.
unfoldable pub send : ℕ → Region → Outcome (ReturnCode × Region)
send msg r = do
  m ← load r.heap msg
  (pushed, r') ← push_at (at (bit_and m.receiver itc_mask_unit_id)) msg r
  done (itc_ok, r')

-- `ItcTransportLocal::receive`.
unfoldable pub receive : ℕ → ℕ → Region → Outcome (ℕ × Region)
receive entry mode r = elim (entry_at itc_max_supported_mailboxes entry) [
  | none ↦ fault
  | some i ↦ elim (Mailbox.pop mode (r.mailboxes i)) [
    | none ↦ waits
    | some (msg, mbox) ↦ done (msg, record r { mailboxes = update r.mailboxes i mbox })
  ]
]
