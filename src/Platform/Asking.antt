-- ===== src/Platform/Asking.antt =====
-- What becomes of the requests that sw/itc-api/src/itcPlatform.cc sends to the server when it looks
-- for a mailbox.
use itc_platform.Common.{
  Option-cases, inl, inr, ℕ, ◌+◌, ◌/◌, ◌%◌, ◌^◌, ◌<◌, ◌≡◌, ◌≢◌, sym, ap, ◌∙◌, arith, Option, none,
  some, bit_and, length,
}
use itc_platform.Common.Outcome.{done, fault, Outcome-cases}
use itc_platform.Message.{Heap}
use itc_platform.Message.Laws.{allocate_lem, deallocate-freed}
use itc_platform.Transport.Sysv.Freeing.{send-frees}
use itc_platform.Transport.Local.{ReturnCode, itc_ok, load}
use itc_platform.Transport.Sysv
use itc_platform.Transport.Sysv.{Calls, Contacts, transmit, itc_mask_region_id}
use itc_platform.Platform.{
  Name, MailboxList, Platform, to_user, to_admin, address, route, send_in_world, allocate_message,
  deallocate_message, with_heap,
}
use itc_platform.Platform.Requests.{
  async_request, itc_system_message_locate_mbox_async_in_itc_server_request,
}
use itc_platform.Platform.Routing.{to_admin-to_user}
use itc_platform.Platform.Locating.{
  itc_mask_locate, itc_mode_locate_in_region, itc_mode_locate_in_world, itc_mode_locate_in_universe,
  no_info, ask_server, locate_at_server, locate_mailbox_sync, locate_mailbox_async,
}
use itc_platform.Common.Bits.{bit_and_two_fields, bit_and-zero, zero-bit_and}

pub deallocate-gone :
    (a : ℕ) (h : Heap)
    → 0 < a
    → a < 2 ^ 63
    → h.cell a ≡ none
    → deallocate_message (to_user a) h ≡ fault
unfolding deallocate_message
deallocate-gone a h pos small gone =
    ground (arith, to_admin-to_user a small, deallocate-freed a h pos gone)

module _ {L : Type 0} (list : MailboxList L) (junk : ℕ → ℕ) (net : ℕ → Calls)
    (fuel timeout_mask : ℕ) where
  -- The transport to other regions takes a message only to free it.
  route-frees :
      (a mailbox_id : ℕ) (p p' : Platform L)
      → 0 < a
      → a < 2 ^ 63
      → bit_and mailbox_id itc_mask_region_id ≢ p.region_id
      → route list junk net fuel (to_user a) mailbox_id p ≡ done (itc_ok, p')
      → p'.region.heap.cell a ≡ none
  unfolding route
  route-frees a mailbox_id p p' pos small away e =
      elim (Outcome-cases (
        Sysv.send net fuel p.endpoint.is_initialised (to_admin (to_user a)) p.contacts
          p.region.heap)) [
            | inl ((code, contacts, h), run) ↦ ground (
              arith,
              run,
              to_admin-to_user a small,
              send-frees net fuel a p.endpoint.is_initialised p.contacts contacts p.region.heap h
                  pos,
            )
            | inr (inl stuck) ↦ absurd (ground (arith, stuck))
            | inr (inr broken) ↦ absurd (ground (arith, broken))
          ]

  address-region :
      (msg mailbox_id : ℕ) (p p' : Platform L)
      → address list junk net fuel msg mailbox_id 0 p ≡ done (some p')
      → p'.region_id ≡ p.region_id
  unfolding address load
  address-region msg mailbox_id p p' e = ground arith

  send_in_world-frees :
      (a mailbox_id : ℕ) (p p' : Platform L)
      → 0 < a
      → a < 2 ^ 63
      → bit_and mailbox_id itc_mask_region_id ≢ p.region_id
      → send_in_world list junk net fuel (to_user a) mailbox_id p ≡ done (itc_ok, p')
      → p'.region.heap.cell a ≡ none
  unfolding send_in_world
  send_in_world-frees a mailbox_id p p' pos small away e =
      elim (Outcome-cases (address list junk net fuel (to_user a) mailbox_id 0 p)) [
        | inl (none, run) ↦ absurd (ground (arith, run))
        | inl (some p1, run) ↦
            route-frees a mailbox_id p1 p' pos small
              (λ same. away (same ∙ address-region (to_user a) mailbox_id p p1 run))
              (ground (arith, run))
        | inr (inl stuck) ↦ absurd (ground (arith, stuck))
        | inr (inr broken) ↦ absurd (ground (arith, broken))
      ]

  -- The answer is that of the call of `send`.
  ask_server-code :
      (a : ℕ) (p p1 p' : Platform L) (code : ReturnCode)
      → send_in_world list junk net fuel (to_user a) p.itc_server_mbox_id p ≡ done (code, p1)
      → ask_server list junk net fuel timeout_mask (to_user a) p ≡ done (itc_ok, p')
      → (code ≡ itc_ok) × (deallocate_message (to_user a) p1.region.heap ≢ fault)
  unfolding ask_server
  ask_server-code a p p1 p' code run e =
      elim (Outcome-cases (deallocate_message (to_user a) p1.region.heap)) [
        | inl ((freed, h), back) ↦ (ground (arith, run, back), λ b. absurd (cc))
        | inr (inl stuck) ↦ absurd (ground (arith, run, stuck))
        | inr (inr broken) ↦ absurd (ground (arith, run, broken))
      ]

  ask_server-fails :
      (a : ℕ) (p p' : Platform L)
      → 0 < a
      → a < 2 ^ 63
      → bit_and p.itc_server_mbox_id itc_mask_region_id ≢ p.region_id
      → ask_server list junk net fuel timeout_mask (to_user a) p ≢ done (itc_ok, p')
  unfolding ask_server
  ask_server-fails a p p' pos small away e =
      elim (Outcome-cases (send_in_world list junk net fuel (to_user a) p.itc_server_mbox_id p)) [
        | inl ((code, p1), run) ↦
            let (ok, answered) = ask_server-code a p p1 p' code run e in
            answered (
              deallocate-gone a p1.region.heap pos small (
                send_in_world-frees a p.itc_server_mbox_id p p1 pos small away
                  (run ∙ ap (λ c. done (c, p1)) ok)))
        | inr (inl stuck) ↦ absurd (ground (arith, stuck))
        | inr (inr broken) ↦ absurd (ground (arith, broken))
      ]

  async_request-user :
      (locate_mode : ℕ) (name : Name) (found : Option ℕ) (h h' : Heap) (req : ℕ)
      → async_request junk locate_mode name found h ≡ done (req, h')
      → req ≡ to_user h.next
  unfolding async_request allocate_message
  async_request-user locate_mode name found h h' req e = ground (
    arith,
    allocate_lem junk itc_system_message_locate_mbox_async_in_itc_server_request
        (16 + length name + 1) h (omega arith),
  )

  -- The search for a mailbox at a server of another region never answers OK. The heap has addresses from 1
  -- to 2^63.
  locate_mailbox_async-fails :
      (name : Name) (mode : ℕ) (p p' : Platform L)
      → 0 < p.region.heap.next
      → p.region.heap.next < 2 ^ 63
      → bit_and p.itc_server_mbox_id itc_mask_region_id ≢ p.region_id
      → locate_mailbox_async list junk net fuel timeout_mask name mode p ≢ done (itc_ok, p')
  unfolding locate_mailbox_async
  locate_mailbox_async-fails name mode p p' pos small away e = elim (Option-cases p.my_mailbox) [
    | inl without ↦ absurd (ground (arith, without))
    | inr (mine, own) ↦
        elim (Outcome-cases (
          async_request junk (bit_and mode itc_mask_locate) name (list.find_id name p.mboxes)
            p.region.heap)) [
              | inl ((req, h), run) ↦
                  ask_server-fails p.region.heap.next (with_heap p h) p' pos small away (
                    ap (λ r. ask_server list junk net fuel timeout_mask r (with_heap p h))
                      (sym (async_request-user _ name _ p.region.heap h req run))
                    ∙ ground (arith, own, run))
              | inr (inl stuck) ↦ absurd (ground (arith, own, stuck))
              | inr (inr broken) ↦ absurd (ground (arith, own, broken))
            ]
  ]

-- The mask of the locate modes has none of their bits.
masked-mode : (mode flag : ℕ) → flag < 2 ^ 4 → bit_and (bit_and mode itc_mask_locate) flag ≡ 0
masked-mode mode flag low = ground (
  arith,
  bit_and_two_fields 4 (mode / 2 ^ 4) 0x111 (mode % 2 ^ 4) 0,
  bit_and-zero (mode % 2 ^ 4),
  bit_and_two_fields 4 (bit_and (mode / 2 ^ 4) 0x111) 0 0 flag,
  bit_and-zero (bit_and (mode / 2 ^ 4) 0x111),
  zero-bit_and flag,
)

-- `locateMailboxSync` finds nothing: for every name and every mode it answers the default contact,
-- looks neither in the region nor at the server, and changes nothing.
locate_mailbox_sync_lem :
    {L : Type 0} (list : MailboxList L) (junk : ℕ → ℕ) (net : ℕ → Calls)
    (fuel timeout_mask mode : ℕ) (name : Name) (p : Platform L)
    → locate_mailbox_sync list junk net fuel timeout_mask name mode p ≡ done (no_info, p)
unfolding locate_mailbox_sync locate_at_server
locate_mailbox_sync_lem list junk net fuel timeout_mask mode name p = ground (
  arith,
  masked-mode mode itc_mode_locate_in_region (omega arith),
  masked-mode mode itc_mode_locate_in_world (omega arith),
  masked-mode mode itc_mode_locate_in_universe (omega arith),
)
