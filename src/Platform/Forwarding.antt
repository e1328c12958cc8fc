-- ===== src/Platform/Forwarding.antt =====
-- What becomes of a message to another world, which sw/itc-api/src/itcPlatform.cc wraps into a request to
-- the server.
use itc_platform.Common.{
  Bool-cases, inl, inr, ℕ, ◌+◌, ◌^◌, ◌<◌, ◌≡◌, ◌≢◌, sym, ap, ◌∙◌, arith, none, true, some, bit_and,
  List, ◌==◌,
}
use itc_platform.Common.Family.{update_self}
use itc_platform.Common.Outcome.{done, fault, Outcome-cases}
use itc_platform.Message.{Message, Heap, store}
use itc_platform.Message.Laws.{IsWhole, allocate_lem, deallocate-whole}
use itc_platform.Transport.Local
use itc_platform.Transport.Local.{ReturnCode, itc_ok, load, push_at}
use itc_platform.Transport.Sysv
use itc_platform.Transport.Sysv.{Calls, Contacts, flat_size, itc_mask_region_id}
use itc_platform.Platform.{
  MailboxList, Platform, to_user, to_admin, address, route, send_in_world, allocate_message,
  deallocate_message, with_heap, write_field, forward_request, forward_message_to_itc_server, send,
  itc_system_message_forward_message_to_itc_server_request,
}
use itc_platform.Transport.Sysv.Freeing.{send-keeps}
use itc_platform.Platform.Routing.{to_admin-to_user, send-heap}
use itc_platform.Platform.Asking.{deallocate-gone}

write_field-keeps :
    (a b offset : ℕ) (bytes : List ℕ) (h h' : Heap)
    → a ≢ b
    → b < 2 ^ 63
    → write_field (to_user b) offset bytes h ≡ done h'
    → h'.cell a ≡ h.cell a
unfolding write_field load
write_field-keeps a b offset bytes h h' ne small e = ground (arith, to_admin-to_user b small)

module _ {L : Type 0} (list : MailboxList L) (junk : ℕ → ℕ) (net : ℕ → Calls) (fuel : ℕ) where
  route-keeps :
      (a b mailbox_id : ℕ) (p p' : Platform L) (code : ReturnCode)
      → a ≢ b
      → b < 2 ^ 63
      → route list junk net fuel (to_user b) mailbox_id p ≡ done (code, p')
      → p'.region.heap.cell a ≡ p.region.heap.cell a
  unfolding route
  route-keeps a b mailbox_id p p' code ne small e =
      let other : a ≢ to_admin (to_user b) = λ z. ne (z ∙ to_admin-to_user b small) in
      elim (Bool-cases (bit_and mailbox_id itc_mask_region_id == p.region_id)) [
        | inr away ↦
            elim (Outcome-cases (
              Sysv.send net fuel p.endpoint.is_initialised (to_admin (to_user b)) p.contacts
                p.region.heap)) [
                  | inl ((sysv_code, contacts, h), run) ↦ ground (
                    arith,
                    away,
                    run,
                    send-keeps net fuel a (to_admin (to_user b)) p.endpoint.is_initialised
                        p.contacts contacts p.region.heap h sysv_code other run,
                  )
                  | inr (inl stuck) ↦ absurd (ground (arith, away, stuck))
                  | inr (inr broken) ↦ absurd (ground (arith, away, broken))
                ]
        | inl here ↦ elim (Outcome-cases (Local.send (to_admin (to_user b)) p.region)) [
          | inl ((local_code, r), run) ↦ ground (
            arith,
            here,
            run,
            ap (λ (heap : Heap). heap.cell a)
                (send-heap (to_admin (to_user b)) p.region r local_code run),
          )
          | inr (inl stuck) ↦ absurd (ground (arith, here, stuck))
          | inr (inr broken) ↦ absurd (ground (arith, here, broken))
        ]
      ]

  address-keeps :
      (a b mailbox_id : ℕ) (p p' : Platform L)
      → a ≢ b
      → b < 2 ^ 63
      → address list junk net fuel (to_user b) mailbox_id 0 p ≡ done (some p')
      → p'.region.heap.cell a ≡ p.region.heap.cell a
  unfolding address load
  address-keeps a b mailbox_id p p' ne small e = ground (arith, to_admin-to_user b small)

  send_in_world-keeps :
      (a b mailbox_id : ℕ) (p p' : Platform L) (code : ReturnCode)
      → a ≢ b
      → b < 2 ^ 63
      → send_in_world list junk net fuel (to_user b) mailbox_id p ≡ done (code, p')
      → p'.region.heap.cell a ≡ p.region.heap.cell a
  unfolding send_in_world
  send_in_world-keeps a b mailbox_id p p' code ne small e =
      elim (Outcome-cases (address list junk net fuel (to_user b) mailbox_id 0 p)) [
        | inl (none, run) ↦ ground (arith, run)
        | inl (some p1, run) ↦
            route-keeps a b mailbox_id p1 p' code ne small (ground (arith, run))
            ∙ address-keeps a b mailbox_id p p1 ne small run
        | inr (inl stuck) ↦ absurd (ground (arith, stuck))
        | inr (inr broken) ↦ absurd (ground (arith, broken))
      ]

  forward_request-keeps :
      (a b world_id : ℕ) (p p' : Platform L) (req : ℕ)
      → a ≢ p.region.heap.next
      → p.region.heap.next < 2 ^ 63
      → forward_request list junk net fuel (to_user b) world_id p ≡ done (req, p')
      → (req ≡ to_user p.region.heap.next) × (p'.region.heap.cell a ≡ p.region.heap.cell a)
  unfolding forward_request allocate_message write_field load
  forward_request-keeps a b world_id p p' req ne small e =
      elim (Outcome-cases (load p.region.heap (to_admin (to_user b)))) [
        | inl (m, got) ↦
            let n = p.region.heap.next in
            let made =
              allocate_lem junk itc_system_message_forward_message_to_itc_server_request
                (12 + flat_size m.size) p.region.heap (omega arith) in
            ground (arith, got, made, to_admin-to_user n small)
        | inr (inl stuck) ↦ absurd (ground (arith, stuck))
        | inr (inr broken) ↦ absurd (ground (arith, broken))
      ]

  -- Once the request has been sent, or not, the message is deallocated.
  forward-frees :
      (a world_id : ℕ) (m : Message) (p p' : Platform L) (code : ReturnCode)
      → p.region.heap.cell a ≡ some m
      → IsWhole m
      → 0 < a
      → a < p.region.heap.next
      → p.region.heap.next < 2 ^ 63
      → forward_message_to_itc_server list junk net fuel (to_user a) world_id p ≡ done (code, p')
      → p'.region.heap.cell a ≡ none
  unfolding forward_message_to_itc_server deallocate_message
  forward-frees a world_id m p p' code live whole pos below small e =
      elim (Outcome-cases (forward_request list junk net fuel (to_user a) world_id p)) [
        | inl ((req, p1), run) ↦
            let (named, kept) =
              forward_request-keeps a a world_id p p1 req (λ z. absurd (omega arith)) small run in
            elim (Outcome-cases (send_in_world list junk net fuel req p1.itc_server_mbox_id p1)) [
              | inl ((answer, p2), run') ↦
                  let same : p2.region.heap.cell a ≡ some m =
                    send_in_world-keeps a p.region.heap.next p1.itc_server_mbox_id p1 p2 answer
                      (λ z. absurd (omega arith)) small
                      (ap (λ r. send_in_world list junk net fuel r p1.itc_server_mbox_id p1)
                          (sym named)
                        ∙ run')
                    ∙ kept
                    ∙ live in
                  ground (
                    arith,
                    run,
                    run',
                    to_admin-to_user a (omega arith),
                    deallocate-whole a m p2.region.heap pos same whole,
                  )
              | inr (inl stuck) ↦ absurd (ground (arith, run, stuck))
              | inr (inr broken) ↦ absurd (ground (arith, run, broken))
            ]
        | inr (inl stuck) ↦ absurd (ground (arith, stuck))
        | inr (inr broken) ↦ absurd (ground (arith, broken))
      ]

  -- A whole message that is sent to another world is freed, whatever `send` answers, so that the sender
  -- that is told ITC_FAILED does not own it any more: it lies below 2^63, as does the next address, which
  -- is free, and the sender is a thread with a mailbox on a platform that is initialised.
  send-frees_foreign :
      (a mailbox_id world_id mine : ℕ) (m : Message) (p p' : Platform L) (code : ReturnCode)
      → p.is_initialised ≡ true
      → p.my_mailbox ≡ some mine
      → p.region.heap.cell a ≡ some m
      → IsWhole m
      → 0 < a
      → a < p.region.heap.next
      → p.region.heap.next < 2 ^ 63
      → world_id ≢ 0
      → send list junk net fuel (to_user a) mailbox_id world_id p ≡ done (code, p')
      → (p'.region.heap.cell a ≡ none) × (deallocate_message (to_user a) p'.region.heap ≡ fault)
  unfolding send address load
  send-frees_foreign a mailbox_id world_id mine m p p' code up own live whole pos below small ne e =
      let sent : Message = record m { receiver = mailbox_id; sender = list.id_at mine p.mboxes } in
      let gone =
        forward-frees a world_id sent (with_heap p (store p.region.heap a sent)) p' code
          (update_self p.region.heap.cell a (some sent))
          (record {
            queued = whole.queued;
            ended = whole.ended;
            fits = whole.fits;
            room = whole.room;
          })
          pos below small (ground (arith, to_admin-to_user a (omega arith))) in
      (gone, deallocate-gone a p'.region.heap pos (omega arith) gone)
