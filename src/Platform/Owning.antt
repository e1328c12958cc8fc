-- ===== src/Platform/Owning.antt =====
-- The thread's own mailbox in sw/itc-api/src/itcPlatform.cc, from its creation on.
use itc_platform.Common.{
  ℕ, ◌≡◌, refl, ◌∙◌, arith, ◌⊎◌, inl, inr, Bool, true, none, some, ℤ, Option-cases, Bool-cases,
}
use itc_platform.Common.Outcome.{done, Outcome-cases}
use itc_platform.Mailbox.{Mailbox}
use itc_platform.Message.{itc_mailbox_id_default}
use itc_platform.Transport.Local.{ReturnCode, load}
use itc_platform.Transport.Sysv.{Calls}
use itc_platform.Transport.Sysv.Receiver.{is_zero}
use itc_platform.Platform.{
  Name, MailboxList, Platform, address, route, send_in_world, deallocate_message, with_heap,
}
use itc_platform.Platform.Requests.{creation_request}
use itc_platform.Platform.Mailboxes.{tell_server, announce_creation, create_mailbox, take_over}

-- What no message changes.
abbrev pub SameOwner : {L : Type 0} → Platform L → Platform L → Type 0
SameOwner p p' =
    (p'.is_initialised ≡ p.is_initialised) × (p'.my_mailbox ≡ p.my_mailbox) × (p'.mboxes ≡ p.mboxes)

module _ {L : Type 0} (list : MailboxList L) (junk : ℕ → ℕ) (net : ℕ → Calls) (fuel : ℕ) where
  address-SameOwner :
      (msg mailbox_id : ℕ) (p p' : Platform L)
      → address list junk net fuel msg mailbox_id 0 p ≡ done (some p')
      → SameOwner p p'
  unfolding address load
  address-SameOwner msg mailbox_id p p' e = ground arith

  route-SameOwner :
      (msg mailbox_id : ℕ) (p p' : Platform L) (code : ReturnCode)
      → route list junk net fuel msg mailbox_id p ≡ done (code, p')
      → SameOwner p p'
  unfolding route
  route-SameOwner msg mailbox_id p p' code e = ground arith

  send_in_world-SameOwner :
      (msg mailbox_id : ℕ) (p p' : Platform L) (code : ReturnCode)
      → send_in_world list junk net fuel msg mailbox_id p ≡ done (code, p')
      → SameOwner p p'
  unfolding send_in_world
  send_in_world-SameOwner msg mailbox_id p p' code e =
      elim (Outcome-cases (address list junk net fuel msg mailbox_id 0 p)) [
        | inl (none, run) ↦ ground (arith, run)
        | inl (some p1, run) ↦
            let (a, b, c) = address-SameOwner msg mailbox_id p p1 run in
            let (x, y, z) = route-SameOwner msg mailbox_id p1 p' code (ground (arith, run)) in
            (x ∙ a, y ∙ b, z ∙ c)
        | inr (inl stuck) ↦ absurd (ground (arith, stuck))
        | inr (inr broken) ↦ absurd (ground (arith, broken))
      ]

  tell_server-SameOwner :
      (req : ℕ) (p p' : Platform L) (told : Bool)
      → tell_server list junk net fuel req p ≡ done (told, p')
      → SameOwner p p'
  unfolding tell_server
  tell_server-SameOwner req p p' told e =
      elim (Outcome-cases (send_in_world list junk net fuel req p.itc_server_mbox_id p)) [
        | inl ((code, p1), run) ↦
            let (a, b, c) = send_in_world-SameOwner req p.itc_server_mbox_id p p1 code run in
            elim (Outcome-cases (deallocate_message req p1.region.heap)) [
              | inl ((freed, h), back) ↦ ground (arith, run, back, a, b, c)
              | inr (inl stuck) ↦ ground (arith, run, stuck, a, b, c)
              | inr (inr broken) ↦ ground (arith, run, broken, a, b, c)
            ]
        | inr (inl stuck) ↦ absurd (ground (arith, stuck))
        | inr (inr broken) ↦ absurd (ground (arith, broken))
      ]

  announce_creation-SameOwner :
      (mine flags id : ℕ) (name : Name) (p p' : Platform L)
      → announce_creation list junk net fuel mine name flags p ≡ done (id, p')
      → SameOwner p p' × ((id ≡ itc_mailbox_id_default) ⊎ (id ≡ list.id_at mine p'.mboxes))
  unfolding announce_creation
  announce_creation-SameOwner mine flags id name p p' e =
      elim (Outcome-cases
        (creation_request junk (list.id_at mine p.mboxes) name flags p.region.heap)) [
          | inl ((req, h), made) ↦
              elim (Outcome-cases (tell_server list junk net fuel req (with_heap p h))) [
                | inl ((told, p1), run) ↦
                    let (a, b, c) = tell_server-SameOwner req (with_heap p h) p1 told run in
                    ground (arith, made, run, a, b, c)
                | inr (inl stuck) ↦ ground (arith, made, stuck)
                | inr (inr broken) ↦ ground (arith, made, broken)
              ]
          | inr (inl stuck) ↦ ground (arith, stuck)
          | inr (inr broken) ↦ ground (arith, broken)
        ]

  take_over_lem :
      (index : ℕ) (mboxes : L) (queues : ℕ → Mailbox) (p : Platform L)
      → ((take_over list junk net fuel index mboxes queues p).is_initialised ≡ p.is_initialised)
        × ((take_over list junk net fuel index mboxes queues p).my_mailbox ≡ some index)
  unfolding take_over
  take_over_lem index mboxes queues p = (refl, refl)

  create_lem :
      (set_specific : ℤ) (name : Name) (flags id mine : ℕ) (p p' : Platform L)
      → p.is_initialised ≡ true
      → p.my_mailbox ≡ none
      → create_mailbox list junk net fuel set_specific name flags p ≡ done (id, p')
      → p'.my_mailbox ≡ some mine
      → (p'.is_initialised ≡ true)
        × ((id ≡ itc_mailbox_id_default) ⊎ (id ≡ list.id_at mine p'.mboxes))
  unfolding create_mailbox
  create_lem set_specific name flags id mine p p' up without e own =
      let (emplaced, mboxes, queues) = list.emplace name flags p.mboxes p.region.mailboxes in
      elim (Option-cases (list.emplace name flags p.mboxes p.region.mailboxes).0) [
        | inl full ↦ ground (arith, without, full)
        | inr (index, some_index) ↦ elim (Bool-cases (is_zero set_specific)) [
          | inr failed ↦
              ground (arith, without, some_index, failed, take_over_lem index mboxes queues p)
          | inl set ↦
              let owner = take_over list junk net fuel index mboxes queues p in
              let run : announce_creation list junk net fuel index name flags owner
                  ≡ done (id, p') =
                ground (arith, without, some_index, set) in
              let ((up', own', _), answer) =
                announce_creation-SameOwner index flags id name owner p' run in
              let (ready, mine_is) = take_over_lem index mboxes queues p in
              let same : mine ≡ index = ground (arith, own', mine_is) in
              (up' ∙ ready ∙ up, rw same answer)
        ]
      ]

  -- On an initialised platform, a thread that has a mailbox after `createMailbox` keeps it: the next
  -- `createMailbox`, for whatever name, answers its id and changes nothing, where the first call
  -- answered that id or the default one.
  create_again :
      (set_specific : ℤ) (name : Name) (flags id mine : ℕ) (p p' : Platform L)
      → p.is_initialised ≡ true
      → create_mailbox list junk net fuel set_specific name flags p ≡ done (id, p')
      → p'.my_mailbox ≡ some mine
      → ((id ≡ itc_mailbox_id_default) ⊎ (id ≡ list.id_at mine p'.mboxes))
        × ((later_specific : ℤ) (other : Name) (other_flags : ℕ)
            → create_mailbox list junk net fuel later_specific other other_flags p'
              ≡ done (list.id_at mine p'.mboxes, p'))
  unfolding create_mailbox
  create_again set_specific name flags id mine p p' up e own = elim (Option-cases p.my_mailbox) [
    | inr (old, had) ↦ (ground (arith, had), λ x y z. ground (arith, had))
    | inl without ↦
        let (kept, answer) = create_lem set_specific name flags id mine p p' up without e own in
        (answer, λ x y z. ground (arith, kept))
  ]
