-- ===== src/Platform/Conversation.antt =====
-- Two threads of one process that answer each other through `send` and `receive` of
-- sw/itc-api/src/itcPlatform.cc.
use itc_platform.Common.{
  ℕ, ◌%◌, ◌^◌, ◌<◌, ◌≡◌, ◌≢◌, refl, sym, ap, ◌∙◌, arith, true, some, [], bit_and,
}
use itc_platform.Common.Outcome.{done}
use itc_platform.Message.{Message}
use itc_platform.Mailbox.{Mailbox}
use itc_platform.Mailbox.Laws.{waiting}
use itc_platform.Transport.Local.{Region, itc_ok, load}
use itc_platform.Transport.Local.Deliver.{IsRegion}
use itc_platform.Transport.Sysv.{Calls, itc_mask_region_id}
use itc_platform.Platform.{MailboxList, Platform, to_user, get_sender, send, receive}
use itc_platform.Platform.Routing.{as_owner, receive-send_frame, to_admin-to_user}

module _ {L : Type 0} (list : MailboxList L) (p : Platform L) where
  -- A mailbox of the region that its id names, active, and with nothing that waits.
  pub record IsReady (entry : ℕ) : Type 0 where
    pub named : list.id_at entry p.mboxes % 2 ^ 16 ≡ entry
    pub here : bit_and (list.id_at entry p.mboxes) itc_mask_region_id ≡ p.region_id
    pub within : entry < 1024
    pub active : (p.region.mailboxes entry).is_active ≡ true
    pub nothing : waiting (p.region.mailboxes entry) ≡ []

module _ {L : Type 0} (list : MailboxList L) (junk : ℕ → ℕ) (net : ℕ → Calls) (fuel : ℕ)
    (p : Platform L) where
  -- One message from the thread of `mine` to the thread of a mailbox that is ready.
  one_way :
      (a : ℕ) (m : Message) (mine other mode : ℕ)
      → p.is_initialised ≡ true
      → p.my_mailbox ≡ some mine
      → p.region.heap.cell a ≡ some m
      → 0 < a
      → a < 2 ^ 63
      → IsRegion p.region
      → IsReady list p other
      → list.id_at other p.mboxes ≢ list.id_at mine p.mboxes
      → (r' r'' : Region) × (send list junk net fuel (to_user a) (list.id_at other p.mboxes) 0 p
          ≡ done (itc_ok, record p { region = r' }))
        × (receive list junk net fuel mode (record p { region = r'; my_mailbox = some other })
            ≡ done (to_user a, record p { region = r''; my_mailbox = some other }))
        × (r''.heap.cell a
            ≡ some (record m {
              receiver = list.id_at other p.mboxes;
              sender = list.id_at mine p.mboxes;
            }))
        × ((j : ℕ) → other ≢ j → r''.mailboxes j ≡ p.region.mailboxes j)
        × IsRegion r''
  one_way a m mine other mode up own live pos small ok ready differ = simp ready.named at (
      receive-send_frame list junk net fuel p mine (list.id_at other p.mboxes) up own differ a m
        small live mode pos ready.here ok (rw ready.named ready.within)
        (rw ready.named ready.active) (rw ready.named ready.nothing))

module _ {L : Type 0} (list : MailboxList L) (junk : ℕ → ℕ) (net : ℕ → Calls) (fuel : ℕ)
    (p : Platform L) where
  -- A thread asks another thread of the process and gets the answer: the message that it sends is what
  -- the other one receives, the sender that the other one reads out of it is the id of the asking
  -- thread's mailbox, and the message sent back to that id is what the asking thread receives, with its
  -- contents unchanged. The platform is initialised, the message is live below 2^63, both mailboxes are
  -- ready, and they differ in their entries and in their ids.
  answer-request :
      (a : ℕ) (m : Message) (mine other mode mode' : ℕ)
      → p.is_initialised ≡ true
      → p.my_mailbox ≡ some mine
      → p.region.heap.cell a ≡ some m
      → 0 < a
      → a < 2 ^ 63
      → IsRegion p.region
      → IsReady list p mine
      → IsReady list p other
      → mine ≢ other
      → list.id_at mine p.mboxes ≢ list.id_at other p.mboxes
      → (p1 p2 p3 p4 : Platform L) × (send list junk net fuel
            (to_user a)
            (list.id_at other p.mboxes)
            0
            p
          ≡ done (itc_ok, p1))
        × (receive list junk net fuel mode (as_owner other p1) ≡ done (to_user a, p2))
        × (get_sender (to_user a) p2.region.heap ≡ done (list.id_at mine p.mboxes))
        × (send list junk net fuel (to_user a) (list.id_at mine p.mboxes) 0 p2 ≡ done (itc_ok, p3))
        × (receive list junk net fuel mode' (as_owner mine p3) ≡ done (to_user a, p4))
        × (p4.region.heap.cell a
            ≡ some (record m {
              receiver = list.id_at mine p.mboxes;
              sender = list.id_at other p.mboxes;
            }))
  unfolding get_sender load
  answer-request a m mine other mode mode' up own live pos small ok asks asked apart differ =
      let (r1, r2, sent, got, kept, others, ok') =
        one_way list junk net fuel p a m mine other mode up own live pos small ok asked
          (λ e. differ (sym e)) in
      let p2 : Platform L = record p { region = r2; my_mailbox = some other } in
      let same : r2.mailboxes mine ≡ p.region.mailboxes mine = others mine (λ e. apart (sym e)) in
      let asks' : IsReady list p2 mine = record {
        named = asks.named;
        here = asks.here;
        within = asks.within;
        active = ap (λ (b : Mailbox). b.is_active) same ∙ asks.active;
        nothing = ap waiting same ∙ asks.nothing;
      } in
      let (r3, r4, sent', got', kept', _, _) =
        one_way list junk net fuel p2 a _ other mine mode' up refl kept pos small ok' asks'
          differ in
      (
        record p { region = r1 },
        p2,
        record p2 { region = r3 },
        record p2 { region = r4; my_mailbox = some mine },
        sent,
        got,
        ground (arith, to_admin-to_user a small, kept),
        sent',
        got',
        kept',
      )
