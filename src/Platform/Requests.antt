-- ===== src/Platform/Requests.antt =====
-- The messages that sw/itc-api/src/itcPlatform.cc writes to the server, with the layouts of
-- sw/itc-common/inc/itcSystemProto.h.
use itc_platform.Common.{
  ℕ, ◌+◌, Option, none, some, List, [], ◌∷◌, ◌==◌, if◌then◌else◌, bit_and, length,
}
use itc_platform.Common.Outcome.{Outcome, done, ◌>>=◌}
use itc_platform.Message.{Heap, write32}
use itc_platform.Platform.{Name, allocate_message, write_field}

abbrev pub itc_system_message_notify_mbox_creation_deletion_to_itc_server_request : ℕ
itc_system_message_notify_mbox_creation_deletion_to_itc_server_request = 0x11

abbrev pub itc_system_message_locate_mbox_sync_in_itc_server_request : ℕ
itc_system_message_locate_mbox_sync_in_itc_server_request = 0x13

abbrev pub itc_system_message_locate_mbox_async_in_itc_server_request : ℕ
itc_system_message_locate_mbox_async_in_itc_server_request = 0x14

-- The bytes that `strcpy` copies of `c_str()`: up to the first 0 and with it.
unfoldable pub c_string : Name → List ℕ
c_string [] = 0 ∷ []
c_string (char ∷ name) = let rest = c_string name in if char == 0 then 0 ∷ [] else char ∷ rest

-- The fields that both notifications set.
unfoldable pub notification : (ℕ → ℕ) → ℕ → ℕ → Name → Heap → Outcome (ℕ × Heap)
notification junk is_creation mbox_id name h =
    let (req, h0) =
      allocate_message junk itc_system_message_notify_mbox_creation_deletion_to_itc_server_request
        (16 + length name + 1) h in
    do
      h1 ← write_field req 4 (write32 is_creation) h0
      h2 ← write_field req 8 (write32 mbox_id) h1
      done (req, h2)

unfoldable pub creation_request : (ℕ → ℕ) → ℕ → Name → ℕ → Heap → Outcome (ℕ × Heap)
creation_request junk mbox_id name flags h = do
  (req, h1) ← notification junk 1 mbox_id name h
  h2 ← write_field req 12 (write32 (if bit_and flags 1 == 0 then 0 else 1)) h1
  h3 ← write_field req 16 (c_string name) h2
  done (req, h3)

-- The field `isExternalCommunicationNeeded` is left as it is found.
unfoldable pub deletion_request : (ℕ → ℕ) → ℕ → Name → Heap → Outcome (ℕ × Heap)
deletion_request junk mbox_id name h = do
  (req, h1) ← notification junk 2 mbox_id name h
  h2 ← write_field req 16 (c_string name) h1
  done (req, h2)

unfoldable pub sync_request : (ℕ → ℕ) → ℕ → Name → Heap → Outcome (ℕ × Heap)
sync_request junk locate_mode name h =
    let (req, h0) =
      allocate_message junk itc_system_message_locate_mbox_sync_in_itc_server_request
        (8 + length name + 1) h in
    do
      h1 ← write_field req 4 (write32 locate_mode) h0
      h2 ← write_field req 8 (c_string name) h1
      done (req, h2)

-- `replyImmediately` and `mailboxId` are set when the mailbox was found in the region.
unfoldable pub async_request : (ℕ → ℕ) → ℕ → Name → Option ℕ → Heap → Outcome (ℕ × Heap)
async_request junk locate_mode name found h =
    let (req, h0) =
      allocate_message junk itc_system_message_locate_mbox_async_in_itc_server_request
        (16 + length name + 1) h in
    do
      h1 ← write_field req 4 (write32 locate_mode) h0
      h2 ← write_field req 16 (c_string name) h1
      elim found [
        | none ↦ done (req, h2)
        | some mbox_id ↦ do
          h3 ← write_field req 8 (write32 1) h2
          h4 ← write_field req 12 (write32 mbox_id) h3
          done (req, h4)
      ]
