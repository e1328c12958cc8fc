-- ===== src/Platform/Routing.antt =====
-- Where `send` of sw/itc-api/src/itcPlatform.cc hands a message to, and what `receive` gets.
use itc_platform.Common.{
  ℕ, ℤ, ◌+◌, ◌/◌, ◌%◌, ◌^◌, ◌<◌, ◌≡◌, ◌≢◌, refl, sym, ap, ◌∙◌, arith, inl, inr, true, none, some,
  [], bit_and,
}
use itc_platform.Common.Family.{update, update_self, update_same}
use itc_platform.Common.Outcome.{done}
use itc_platform.Message.{Message, store, free}
use itc_platform.Message.Laws.{IsWhole}
use itc_platform.Mailbox.{itc_mode_receive_non_blocking}
use itc_platform.Mailbox.Laws.{IsMailbox, waiting, pop_non_blocking, cons-ne-nil}
use itc_platform.Container.{at}
use itc_platform.Transport.Local
use itc_platform.Transport.Local.{
  Region, ReturnCode, itc_ok, load, push_at, itc_max_supported_mailboxes,
}
use itc_platform.Transport.Local.Deliver.{IsRegion, send-receive, entry_at-at}
use itc_platform.Transport.Sysv.{Calls, sent, tx_frame, itc_mask_region_id}
use itc_platform.Transport.Sysv.Retry.{send_delivers}
use itc_platform.Platform.{
  MailboxList, Platform, to_user, to_admin, with_heap, address, route, send, receive,
}

pub to_admin-to_user : (a : ℕ) → a < 2 ^ 63 → to_admin (to_user a) ≡ a
to_admin-to_user a h = omega arith

-- The same process, as the thread that owns a mailbox sees it.
abbrev pub as_owner : {L : Type 0} → ℕ → Platform L → Platform L
as_owner mine p = record p { my_mailbox = some mine }

-- Neither touches the messages.
pub send-heap :
    (msg : ℕ) (r r' : Region) (code : ReturnCode)
    → Local.send msg r ≡ done (code, r')
    → r'.heap ≡ r.heap
unfolding Local.send load push_at
send-heap msg r r' code e = ground arith

receive-heap :
    (entry mode : ℕ) (r r' : Region) (msg : ℕ)
    → Local.receive entry mode r ≡ done (msg, r')
    → r'.heap ≡ r.heap
unfolding Local.receive
receive-heap entry mode r r' msg e = ground arith

module _ {L : Type 0} (list : MailboxList L) (junk : ℕ → ℕ) (net : ℕ → Calls) (fuel : ℕ)
    (p : Platform L) (mine mailbox_id : ℕ) (up : p.is_initialised ≡ true)
    (own : p.my_mailbox ≡ some mine) (other : mailbox_id ≢ list.id_at mine p.mboxes) where
  module _ (a : ℕ) (m : Message) (small : a < 2 ^ 63) (live : p.region.heap.cell a ≡ some m) where
    -- The message with the ids that `send` writes.
    abbrev pub addressed : Message
    addressed = record m { receiver = mailbox_id; sender = list.id_at mine p.mboxes }

    abbrev pub written : Platform L
    written = with_heap p (store p.region.heap a addressed)

    pub address_lem : address list junk net fuel (to_user a) mailbox_id 0 p ≡ done (some written)
    unfolding address load
    address_lem = ground (arith, to_admin-to_user a small)

    send_routes :
        send list junk net fuel (to_user a) mailbox_id 0 p
        ≡ route list junk net fuel (to_user a) mailbox_id written
    unfolding send
    send_routes = rw address_lem refl

    -- The platform after a message has been sent and received.
    pub receive-send_frame :
        (mode : ℕ)
        → 0 < a
        → bit_and mailbox_id itc_mask_region_id ≡ p.region_id
        → IsRegion p.region
        → mailbox_id % 2 ^ 16 < 1024
        → (p.region.mailboxes (mailbox_id % 2 ^ 16)).is_active ≡ true
        → waiting (p.region.mailboxes (mailbox_id % 2 ^ 16)) ≡ []
        → (r' r'' : Region) × (send list junk net fuel (to_user a) mailbox_id 0 p
            ≡ done (itc_ok, record p { region = r' }))
          × (receive list junk net fuel mode
                (record p { region = r'; my_mailbox = some (mailbox_id % 2 ^ 16) })
              ≡ done
                  (to_user a, record p { region = r''; my_mailbox = some (mailbox_id % 2 ^ 16) }))
          × (r''.heap.cell a ≡ some addressed)
          × ((j : ℕ) → mailbox_id % 2 ^ 16 ≢ j → r''.mailboxes j ≡ p.region.mailboxes j)
          × IsRegion r''
    unfolding route receive
    receive-send_frame mode pos here ok within on nothing =
        let (r', r'', run, got, _, others, ok') =
          send-receive a addressed written.region
            (update_self p.region.heap.cell a (some addressed)) mode (λ e. absurd (omega arith)) ok
            within on nothing in
        (
          r',
          r'',
          send_routes ∙ ground (arith, to_admin-to_user a small, run),
          ground (arith, up, got),
          ap (λ h. h.cell a) (receive-heap (at (mailbox_id % 2 ^ 16)) mode r' r'' a got)
              ∙ ap (λ h. h.cell a) (send-heap a written.region r' itc_ok run)
              ∙ update_self p.region.heap.cell a (some addressed),
          others,
          ok',
        )

    -- A live message, at an address below 2^63, to a mailbox of this region that is active and where
    -- nothing waits is what the thread that owns that mailbox receives next, blocking or not, with the
    -- ids of both in it. The sender is a thread with a mailbox of its own that is another one, on a
    -- platform that is initialised; the mailboxes of the region are well formed.
    pub receive-send :
        (mode : ℕ)
        → 0 < a
        → bit_and mailbox_id itc_mask_region_id ≡ p.region_id
        → IsRegion p.region
        → mailbox_id % 2 ^ 16 < 1024
        → (p.region.mailboxes (mailbox_id % 2 ^ 16)).is_active ≡ true
        → waiting (p.region.mailboxes (mailbox_id % 2 ^ 16)) ≡ []
        → (p' p'' : Platform L) × (send list junk net fuel (to_user a) mailbox_id 0 p
            ≡ done (itc_ok, p'))
          × (receive list junk net fuel mode (as_owner (mailbox_id % 2 ^ 16) p')
              ≡ done (to_user a, p''))
          × (p''.region.heap.cell a ≡ some addressed)
    receive-send mode pos here ok within on nothing =
        let (r', r'', run, got, kept, _, _) =
          receive-send_frame mode pos here ok within on nothing in
        (record p { region = r' }, _, run, got, kept)

    -- A message to another region goes to its queue and is freed, and the call answers OK, once some
    -- attempt within the fuel finds every queue ready to take it: a live whole message of fewer than 2^31
    -- bytes, flattened, to a region from 1 to 254, with the transport initialised; the sender is a
    -- thread with a mailbox of its own on a platform that is initialised.
    send_abroad :
        (j : ℕ)
        → 0 < a
        → IsWhole m
        → m.size + 17 < 2 ^ 31
        → mailbox_id < 2 ^ 32
        → bit_and mailbox_id itc_mask_region_id ≢ p.region_id
        → 0 < mailbox_id / 2 ^ 20
        → mailbox_id / 2 ^ 20 < 255
        → p.endpoint.is_initialised ≡ true
        → j < fuel
        → ((queue : ℤ) → (net j).msgsnd queue (tx_frame addressed) ≡ sent)
        → (p' : Platform L) × (send list junk net fuel (to_user a) mailbox_id 0 p
            ≡ done (itc_ok, p'))
          × (p'.region.heap.cell a ≡ none)
          × (p'.region.mailboxes ≡ p.region.mailboxes)
    unfolding route
    send_abroad j pos whole short fits away lo hi ready within took =
        let (contacts, run) =
          send_delivers net fuel a j addressed p.contacts written.region.heap pos
            (update_self p.region.heap.cell a (some addressed))
            (record {
              queued = whole.queued;
              ended = whole.ended;
              fits = whole.fits;
              room = whole.room;
            })
            short fits lo hi within took in
        (
          with_heap (record p { contacts = contacts }) (free written.region.heap a),
          send_routes ∙ ground (arith, to_admin-to_user a small, run),
          update_self (update p.region.heap.cell a (some addressed)) a none,
          refl,
        )

-- A non-blocking receive at a mailbox where nothing waits does not answer nullptr: on an initialised
-- platform it answers the address 16, for a thread whose mailbox is one of the region's and well formed.
receive_nothing :
    {L : Type 0} (list : MailboxList L) (junk : ℕ → ℕ) (net : ℕ → Calls) (fuel mode mine : ℕ)
    (p : Platform L)
    → p.is_initialised ≡ true
    → p.my_mailbox ≡ some mine
    → mine < 1024
    → IsMailbox (p.region.mailboxes mine)
    → waiting (p.region.mailboxes mine) ≡ []
    → bit_and mode itc_mode_receive_non_blocking ≢ 0
    → (p' : Platform L) × (receive list junk net fuel mode p ≡ done (16, p'))
      × ((j : ℕ) → p'.region.mailboxes j ≡ p.region.mailboxes j)
unfolding receive Local.receive
receive_nothing list junk net fuel mode mine p up own within ok nothing set =
    elim (pop_non_blocking (p.region.mailboxes mine) mode ok set) [
      | inl (_, run) ↦ (
        record p {
          region = record (p.region) {
            mailboxes = update p.region.mailboxes mine (p.region.mailboxes mine);
          };
        },
        ground (arith, up, own, entry_at-at mine within, run),
        λ j. update_same p.region.mailboxes mine j,
      )
      | inr (msg, mbox', _, more, _) ↦ absurd (cons-ne-nil (sym more ∙ nothing))
    ]
