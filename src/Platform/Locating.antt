-- ===== src/Platform/Locating.antt =====
-- sw/itc-api/src/itcPlatform.cc: the search for a mailbox by its name, here and at the server.
use itc_platform.Common.{ℕ, Bool, none, some, List, ◌==◌, ◌&&◌, if◌then◌else◌, not, bit_and}
use itc_platform.Common.Outcome.{Outcome, done, fault, ◌>>=◌}
use itc_platform.Message.{itc_mailbox_id_default, read32}
use itc_platform.Transport.Local.{ReturnCode, itc_failed, load}
use itc_platform.Transport.Sysv.{Calls}
use itc_platform.Platform.{
  Name, MailboxList, Platform, to_admin, with_heap, is_ok, deallocate_message, send_in_world,
  receive,
}
use itc_platform.Platform.Requests.{sync_request, async_request}

abbrev pub itc_mode_locate_in_region : ℕ
itc_mode_locate_in_region = 0b10

abbrev pub itc_mode_locate_in_world : ℕ
itc_mode_locate_in_world = 0b100

abbrev pub itc_mode_locate_in_universe : ℕ
itc_mode_locate_in_universe = 0b1000

abbrev pub itc_mask_locate : ℕ
itc_mask_locate = 0x1110

abbrev pub itc_system_message_locate_mbox_in_itc_server_reply : ℕ
itc_system_message_locate_mbox_in_itc_server_reply = 0x15

-- `MailboxContactInfo`.
pub record MailboxContactInfo : Type 0 where
  pub mailbox_id : ℕ
  pub world_id : ℕ

abbrev pub no_info : MailboxContactInfo
no_info = record { mailbox_id = itc_mailbox_id_default; world_id = 0 }

-- Whether a bit of the mode is set.
abbrev pub has_mode : ℕ → ℕ → Bool
has_mode mode flag = not (bit_and mode flag == 0)

-- What the reply says. A reply that is too short is read past its end.
unfoldable pub read_located : List ℕ → Outcome MailboxContactInfo
read_located body = elim (read32 body) [
  | none ↦ fault
  | some (msgno, r1) ↦
      if not (msgno == itc_system_message_locate_mbox_in_itc_server_reply)
      then done no_info
      else elim (read32 r1) [
        | none ↦ fault
        | some (mailbox_id, r2) ↦ elim (read32 r2) [
          | none ↦ fault
          | some (world_id, rest) ↦ done (record { mailbox_id = mailbox_id; world_id = world_id })
        ]
      ]
]

-- `timeout_mask` is ITC_MASK_TIMEOUT, which no file of the repository defines.
module _ {L : Type 0} (list : MailboxList L) (junk : ℕ → ℕ) (net : ℕ → Calls)
    (fuel timeout_mask : ℕ) where
  -- A request to the server that is deallocated after it was sent.
  unfoldable pub ask_server : ℕ → Platform L → Outcome (ReturnCode × Platform L)
  ask_server req p = do
    (code, p1) ← send_in_world list junk net fuel req p.itc_server_mbox_id p
    (freed, h) ← deallocate_message req p1.region.heap
    done (code, with_heap p1 h)

  -- `locateMailboxSync`, from the call of `receive` on.
  unfoldable pub await_reply : ℕ → Platform L → Outcome (MailboxContactInfo × Platform L)
  await_reply mode p = do
    (rep, p1) ← receive list junk net fuel (bit_and mode timeout_mask) p
    if rep == 0 then done (no_info, p1) else (do
      m ← load p1.region.heap (to_admin rep)
      info ← read_located m.body
      done (info, p1))

  -- `locateMailboxSync` beyond the region.
  unfoldable pub locate_at_server :
      Name → ℕ → Platform L → Outcome (MailboxContactInfo × Platform L)
  locate_at_server name mode p =
      let locate_mode = bit_and mode itc_mask_locate in
      if not (has_mode locate_mode itc_mode_locate_in_world)
        && not (has_mode locate_mode itc_mode_locate_in_universe)
      then done (no_info, p)
      else (do
        (req, h) ← sync_request junk locate_mode name p.region.heap
        (code, p1) ← ask_server req (with_heap p h)
        if is_ok code then await_reply mode p1 else done (no_info, p1))

  -- `locateMailboxSync`.
  unfoldable pub locate_mailbox_sync :
      Name → ℕ → Platform L → Outcome (MailboxContactInfo × Platform L)
  locate_mailbox_sync name mode p =
      if not p.is_initialised then done (no_info, p) else elim p.my_mailbox [
        | none ↦ done (no_info, p)
        | some mine ↦
            if has_mode (bit_and mode itc_mask_locate) itc_mode_locate_in_region
            then elim (list.find_id name p.mboxes) [
              | some mailbox_id ↦ done (record { mailbox_id = mailbox_id; world_id = 0 }, p)
              | none ↦ locate_at_server name mode p
            ]
            else locate_at_server name mode p
      ]

  -- `locateMailboxAsync`.
  unfoldable pub locate_mailbox_async : Name → ℕ → Platform L → Outcome (ReturnCode × Platform L)
  locate_mailbox_async name mode p =
      if not p.is_initialised then done (itc_failed, p) else elim p.my_mailbox [
        | none ↦ done (itc_failed, p)
        | some mine ↦ do
          (req, h) ←
              async_request junk (bit_and mode itc_mask_locate) name (list.find_id name p.mboxes)
                p.region.heap
          ask_server req (with_heap p h)
      ]
