-- ===== src/Platform/Mailboxes.antt =====
-- sw/itc-api/src/itcPlatform.cc: the thread's own mailbox, and what the server is told of it.
use itc_platform.Common.{
  ℕ, Bool, true, false, none, some, ◌==◌, if◌then◌else◌, not, bit_and, bit_or, ℤ,
}
use itc_platform.Common.Outcome.{Outcome, done, fault, ◌>>=◌}
use itc_platform.Mailbox.{Mailbox}
use itc_platform.Message.{itc_mailbox_id_default}
use itc_platform.Transport.Local.{ReturnCode, itc_ok, itc_failed, itc_mask_unit_id}
use itc_platform.Transport.Sysv.{Calls, itc_mask_region_id}
use itc_platform.Transport.Sysv.Receiver.{is_zero}
use itc_platform.Platform.{
  Name, MailboxList, Platform, with_heap, with_boxes, is_ok, deallocate_message, send_in_world,
}
use itc_platform.Platform.Requests.{creation_request, deletion_request}

-- The test before the server is told; the code has an `or` with the mask of the region.
unfoldable pub is_server_region : {L : Type 0} → Platform L → Bool
is_server_region p = p.region_id == bit_or p.itc_server_mbox_id itc_mask_region_id

module _ {L : Type 0} (list : MailboxList L) (junk : ℕ → ℕ) (net : ℕ → Calls) (fuel : ℕ) where
  -- A request to the server, which is deallocated when it is not sent.
  unfoldable pub tell_server : ℕ → Platform L → Outcome (Bool × Platform L)
  tell_server req p = do
    (code, p1) ← send_in_world list junk net fuel req p.itc_server_mbox_id p
    if is_ok code
        then done (true, p1)
        else (do (freed, h) ← deallocate_message req p1.region.heap; done (false, with_heap p1 h))

  -- `createMailbox`, once the thread has its mailbox.
  unfoldable pub announce_creation : ℕ → Name → ℕ → Platform L → Outcome (ℕ × Platform L)
  announce_creation mine name flags p =
      if is_server_region p then done (list.id_at mine p.mboxes, p) else (do
        (req, h) ← creation_request junk (list.id_at mine p.mboxes) name flags p.region.heap
        (told, p1) ← tell_server req (with_heap p h)
        done (if told then list.id_at mine p1.mboxes else itc_mailbox_id_default, p1))

  -- The mailbox that was emplaced gets its id, and becomes the thread's own.
  unfoldable pub take_over : ℕ → L → (ℕ → Mailbox) → Platform L → Platform L
  take_over index mboxes queues p =
      let numbered =
        if list.has_value index mboxes
        then list.set_id index (bit_or p.region_id (bit_and index itc_mask_unit_id)) mboxes
        else mboxes in
      record (with_boxes p (numbered, queues)) { my_mailbox = some index }

  -- `createMailbox`, with what `pthread_setspecific` answers.
  unfoldable pub create_mailbox : ℤ → Name → ℕ → Platform L → Outcome (ℕ × Platform L)
  create_mailbox set_specific name flags p =
      if not p.is_initialised then done (itc_mailbox_id_default, p) else elim p.my_mailbox [
        | some mine ↦ done (list.id_at mine p.mboxes, p)
        | none ↦
            let (emplaced, mboxes, queues) = list.emplace name flags p.mboxes p.region.mailboxes in
            elim emplaced [
              | none ↦ done (itc_mailbox_id_default, with_boxes p (mboxes, queues))
              | some index ↦
                  let owner = take_over index mboxes queues p in
                  if not (is_zero set_specific)
                  then done (itc_mailbox_id_default, owner)
                  else announce_creation index name flags owner
            ]
      ]

  -- `deleteMailbox`, once the mailbox is off the list, from which its id is still read.
  unfoldable pub announce_deletion : ℕ → Name → Platform L → Outcome (ReturnCode × Platform L)
  announce_deletion mine name p =
      if is_server_region p then done (itc_ok, record p { my_mailbox = none }) else (do
        (req, h) ← deletion_request junk (list.id_at mine p.mboxes) name p.region.heap
        (told, p1) ← tell_server req (with_heap p h)
        done (if told then (itc_ok, record p1 { my_mailbox = none }) else (itc_failed, p1)))

  -- `deleteMailbox`. A thread without a mailbox reads through nullptr.
  unfoldable pub delete_mailbox : ℕ → Platform L → Outcome (ReturnCode × Platform L)
  delete_mailbox mbox_id p =
      if not p.is_initialised then done (itc_failed, p) else elim p.my_mailbox [
        | none ↦ fault
        | some mine ↦
            if not (mbox_id == list.id_at mine p.mboxes)
            then done (itc_failed, p)
            else announce_deletion mine (list.name_at mine p.mboxes) (
                with_boxes p
                  (list.remove (bit_and mbox_id itc_mask_unit_id) p.mboxes p.region.mailboxes))
      ]

  -- `destructMailboxAtThreadExit`, for the mailbox that the key of the thread holds.
  unfoldable pub destruct_mailbox_at_thread_exit : ℕ → Platform L → Outcome (Platform L)
  destruct_mailbox_at_thread_exit mine p =
      elim (list.find_id (list.name_at mine p.mboxes) p.mboxes) [
        | none ↦ done p
        | some found ↦ do (code, p1) ← delete_mailbox (list.id_at mine p.mboxes) p; done p1
      ]
