-- ===== src/Transport/Local/Deliver.antt =====
-- When a message handed to sw/itc-common/src/itcTransportLocal.cc arrives, and when it is lost.
use itc_platform.Common.{
  ℕ, suc, ◌+◌, ◌%◌, ◌^◌, ◌≤◌, ◌<◌, ◌≡◌, ◌≢◌, refl, ap, ◌∙◌, arith, ◌⊎◌, inl, inr, true, false, none,
  some, [], ◌∷◌, ◌++◌, length, bit_and,
}
use itc_platform.Common.Bits.{bit_and_mask}
use itc_platform.Common.Family.{update, update_self, update_ne, update_same, update-all}
use itc_platform.Common.Outcome.{done, waits, fault}
use itc_platform.Message.{Message}
use itc_platform.Mailbox
use itc_platform.Mailbox.{Mailbox}
use itc_platform.Mailbox.Laws.{IsMailbox, waiting, push_lem, pop-waiting}
use itc_platform.Container.{at, entry_at}
use itc_platform.Transport.Local.{
  Region, itc_ok, load, push_at, send, receive, itc_max_supported_mailboxes,
}

-- Every mailbox of the region is well formed.
abbrev pub IsRegion : Region → Type 0
IsRegion r = (i : ℕ) → IsMailbox (r.mailboxes i)

pub entry_at-at : (i : ℕ) → i < 1024 → entry_at itc_max_supported_mailboxes (at i) ≡ some i
unfolding entry_at at
entry_at-at i h = let e : i + 1 ≡ suc i = omega arith in rw e (ground arith)

entry_at-beyond : (i : ℕ) → 1024 ≤ i → entry_at itc_max_supported_mailboxes (at i) ≡ none
unfolding entry_at at
entry_at-beyond i h = let e : i + 1 ≡ suc i = omega arith in rw e (ground arith)

module _ (msg : ℕ) (m : Message) (r : Region) (live : r.heap.cell msg ≡ some m) where
  -- The mailbox that a message is for: the low sixteen bits of its receiver.
  abbrev pub target : ℕ
  target = m.receiver % 2 ^ 16

  target_lem : bit_and m.receiver 0xffff ≡ target
  target_lem = bit_and_mask 16 m.receiver

  -- A message to an active mailbox of the region arrives behind those that wait there, no other
  -- mailbox changes, and the call answers OK. It waits only at a mailbox with 1024 messages.
  pub send_active :
      msg ≢ 0
      → IsRegion r
      → target < 1024
      → (r.mailboxes target).is_active ≡ true
      → ((length (waiting (r.mailboxes target)) ≡ 1024) × (send msg r ≡ waits))
        ⊎ ((r' : Region) × (send msg r ≡ done (itc_ok, r'))
            × (waiting (r'.mailboxes target) ≡ waiting (r.mailboxes target) ++ (msg ∷ []))
            × ((j : ℕ) → target ≢ j → r'.mailboxes j ≡ r.mailboxes j)
            × (r'.heap ≡ r.heap)
            × IsRegion r')
  unfolding send load push_at
  send_active ne ok within on = elim (push_lem (r.mailboxes target) msg (ok target) ne) [
    | inl (off, _) ↦ absurd (cc)
    | inr (inl (full, stuck)) ↦ inl (full, ground (arith, target_lem, entry_at-at target within))
    | inr (inr (mbox', run, added, valid)) ↦ inr (
      record r { mailboxes = update r.mailboxes target mbox' },
      ground (arith, target_lem, entry_at-at target within),
      ap waiting (update_self r.mailboxes target mbox') ∙ added,
      (λ j other. update_ne r.mailboxes target mbox' j other),
      refl,
      update-all IsMailbox r.mailboxes target mbox' valid ok,
    )
  ]

  -- A message to a mailbox of the region that is not active is dropped: nothing changes, and the
  -- call still answers OK.
  pub send_inactive :
      target < 1024
      → (r.mailboxes target).is_active ≡ false
      → (r' : Region) × (send msg r ≡ done (itc_ok, r'))
        × ((j : ℕ) → r'.mailboxes j ≡ r.mailboxes j)
        × (r'.heap ≡ r.heap)
  unfolding send load push_at Mailbox.push
  send_inactive within off = (
    record r { mailboxes = update r.mailboxes target (r.mailboxes target) },
    ground (arith, target_lem, entry_at-at target within),
    (λ j. update_same r.mailboxes target j),
    refl,
  )

  -- A unit number from 1024 on is not refused: the call writes outside the array of mailboxes.
  pub send_beyond : 1024 ≤ target → send msg r ≡ fault
  unfolding send load push_at
  send_beyond beyond = ground (arith, target_lem, entry_at-beyond target beyond)

  -- A live message that is sent to an active mailbox of the region where nothing waits is what its
  -- owner receives next, blocking or not; the mailbox is empty again, and no other mailbox has changed.
  -- The mailboxes of the region are well formed, and the message is not at nullptr.
  pub send-receive :
      (mode : ℕ)
      → msg ≢ 0
      → IsRegion r
      → target < 1024
      → (r.mailboxes target).is_active ≡ true
      → waiting (r.mailboxes target) ≡ []
      → (r' r'' : Region) × (send msg r ≡ done (itc_ok, r'))
        × (receive (at target) mode r' ≡ done (msg, r''))
        × (waiting (r''.mailboxes target) ≡ [])
        × ((j : ℕ) → target ≢ j → r''.mailboxes j ≡ r.mailboxes j)
        × IsRegion r''
  unfolding receive
  send-receive mode ne ok within on nothing = elim (send_active ne ok within on) [
    | inl (full, _) ↦ absurd (omega (arith, ap length nothing))
    | inr (r', sent, arrived, others, _, ok') ↦
        let only : waiting (r'.mailboxes target) ≡ msg ∷ [] =
          arrived ∙ ap (λ xs. xs ++ (msg ∷ [])) nothing in
        let (mbox', run, left, valid) =
          pop-waiting (r'.mailboxes target) mode msg [] (ok' target) only in
        (
          r',
          record r' { mailboxes = update r'.mailboxes target mbox' },
          sent,
          ground (arith, entry_at-at target within, run),
          ap waiting (update_self r'.mailboxes target mbox') ∙ left,
          (λ j ne. update_ne r'.mailboxes target mbox' j ne ∙ others j ne),
          update-all IsMailbox r'.mailboxes target mbox' valid ok',
        )
  ]
