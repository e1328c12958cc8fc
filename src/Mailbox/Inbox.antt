-- ===== src/Mailbox/Inbox.antt =====
-- What `ItcMailbox` (sw/itc-common/inc/itcMailbox.h) promises one caller at a time: a bounded inbox that
-- is open or shut.
pub mod Refine
use itc_platform.Common.{
  ℕ, Bool, true, false, Option, none, some, List, [], ◌∷◌, ◌++◌, length, ◌==◌, not, if◌then◌else◌,
  bit_and,
}
use itc_platform.Message.{Heap, itc_mailbox_id_default}
use itc_platform.Mailbox
use itc_platform.Mailbox.{Mailbox}
use itc_platform.Mailbox.Drain.{deallocate_all}

pub record Inbox : Type 0 where
  pub mailbox_id : ℕ
  pub flags : ℕ
  pub is_active : Bool
  pub messages : List ℕ

-- What a caller asks, and what it sees of the answer.
pub data Call : Type 0 where
  put : (msg : ℕ) → Call
  get : (mode : ℕ) → Call
  activate deactivate : Call

pub data Answer : Type 0 where
  pushed : Bool → Answer
  popped : ℕ → Answer
  changed : Answer

-- The oldest message; on an empty inbox nullptr without blocking, and a wait with it.
unfoldable pub take_oldest : ℕ → List ℕ → Option (ℕ × List ℕ)
take_oldest mode [] = if bit_and mode 1 == 0 then none else some (0, [])
take_oldest mode (msg ∷ msgs) = some (msg, msgs)

-- `none` is a wait that no other thread ends, or an access outside live memory.
unfoldable pub step : Call → Inbox → Heap → Option (Answer × Inbox × Heap)
step (put msg) box h =
    if not box.is_active
    then some (pushed false, box, h)
    else if length box.messages == 1024
    then none
    else some (pushed true, record box { messages = box.messages ++ (msg ∷ []) }, h)
step (get mode) box h =
    if not box.is_active then some (popped 0, box, h) else elim (take_oldest mode box.messages) [
      | none ↦ none
      | some (msg, msgs) ↦ some (popped msg, record box { messages = msgs }, h)
    ]
step activate box h = some (changed, record box { is_active = true }, h)
step deactivate box h =
    if not box.is_active then some (changed, box, h) else elim (deallocate_all box.messages h) [
      | none ↦ none
      | some h' ↦ some (
        changed,
        record { mailbox_id = itc_mailbox_id_default; flags = 0; is_active = false; messages = [] },
        h',
      )
    ]

-- The same calls on a mailbox.
unfoldable pub call : Call → Mailbox → Heap → Option (Answer × Mailbox × Heap)
call (put msg) mbox h = elim (Mailbox.push msg mbox) [
  | none ↦ none
  | some (done, mbox') ↦ some (pushed done, mbox', h)
]
call (get mode) mbox h = elim (Mailbox.pop mode mbox) [
  | none ↦ none
  | some (msg, mbox') ↦ some (popped msg, mbox', h)
]
call activate mbox h = elim (Mailbox.set_state true mbox h) [
  | none ↦ none
  | some (mbox', h') ↦ some (changed, mbox', h')
]
call deactivate mbox h = elim (Mailbox.set_state false mbox h) [
  | none ↦ none
  | some (mbox', h') ↦ some (changed, mbox', h')
]

-- One call after another: the answers, and the heap in the end.
unfoldable pub run_inbox : List Call → Inbox → Heap → Option (List Answer × Heap)
run_inbox [] box h = some ([], h)
run_inbox (c ∷ calls) box h = elim (step c box h) [
  | none ↦ none
  | some (answer, box', h') ↦ elim (run_inbox calls box' h') [
    | none ↦ none
    | some (answers, left) ↦ some (answer ∷ answers, left)
  ]
]

unfoldable pub run_mailbox : List Call → Mailbox → Heap → Option (List Answer × Heap)
run_mailbox [] mbox h = some ([], h)
run_mailbox (c ∷ calls) mbox h = elim (call c mbox h) [
  | none ↦ none
  | some (answer, mbox', h') ↦ elim (run_mailbox calls mbox' h') [
    | none ↦ none
    | some (answers, left) ↦ some (answer ∷ answers, left)
  ]
]
