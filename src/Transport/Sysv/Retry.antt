-- ===== src/Transport/Sysv/Retry.antt =====
-- The retries of `send` of sw/itc-common/src/itcTransportSysvMsgQueue.cc: when the loop ends, and what
-- its end means.
use itc_platform.Common.{
  ℕ, zero, suc, ◌+◌, ◌/◌, ◌%◌, ◌^◌, ◌≤◌, ◌<◌, ◌≡◌, ◌≢◌, refl, sym, ◌∙◌, arith, Bool, true, false,
  some, List, length, ◌⊎◌, inl, inr, ℕ_discrete, dec_lt, bit_and, ℤ,
}
use itc_platform.Common.Bits.{bit_and_two_fields, bit_and_mask, bit_and-zero}
use itc_platform.Common.Outcome.{Outcome, done, waits, fault}
use itc_platform.Message.{Message, Heap, free}
use itc_platform.Message.Bytes.{encode}
use itc_platform.Message.Laws.{IsWhole, deallocate-whole}
use itc_platform.Transport.Local.{itc_ok}
use itc_platform.Transport.Sysv.{
  Calls, Contacts, SendAnswer, sent, refused, eintr, einval, eidrm, enoent, other_error, project_of,
  remove_contact_info_at_index, add_contact_info_at_index, send_loop, transmit, send, tx_frame,
  itc_mask_region_id,
}

-- The project number is the upper twelve bits of the receiver.
pub project_of_lem : (mbox_id : ℕ) → mbox_id < 2 ^ 32 → project_of mbox_id ≡ mbox_id / 2 ^ 20
unfolding project_of
project_of_lem mbox_id h = ground (
  arith,
  bit_and_two_fields 20 (mbox_id / 2 ^ 20) 4095 (mbox_id % 2 ^ 20) 0,
  bit_and_mask 12 (mbox_id / 2 ^ 20),
  bit_and-zero (mbox_id % 2 ^ 20),
)

masked-region : (mbox_id : ℕ) → project_of mbox_id ≢ 0 → bit_and mbox_id itc_mask_region_id ≢ 0
unfolding project_of
masked-region mbox_id ne e = ne (rw e refl)

-- An attempt from `k` on, within the fuel, at which some queue takes the frame.
abbrev pub Took : (ℕ → Calls) → List ℕ → ℕ → ℕ → Type 0
Took calls frame k fuel =
    (j : ℕ) × (queue : ℤ) × (k ≤ j) × (j < k + fuel) × ((calls j).msgsnd queue frame ≡ sent)

module _ (calls : ℕ → Calls) (project receiver : ℕ) (frame : List ℕ) where
  -- The test for region 0, after a renewal, never holds for a project that is not 0.
  renewed-ne-zero :
      (k : ℕ) (contacts : Contacts)
      → project_of receiver ≢ 0
      → (add_contact_info_at_index
          (calls k)
          project
          receiver
          (remove_contact_info_at_index project contacts)
          project).region_id
        ≢ 0
  unfolding add_contact_info_at_index remove_contact_info_at_index
  renewed-ne-zero k contacts ne = ground (arith, masked-region receiver ne)

  abbrev loop : ℕ → ℕ → Contacts → Outcome Contacts
  loop = send_loop calls project receiver frame

  module _ (real : project_of receiver ≢ 0) where
    -- What one round does: it ends if the queue takes the frame, and goes on with some contacts if not.
    round :
        (fuel k : ℕ) (contacts : Contacts)
        → ((loop (suc fuel) k contacts ≡ done contacts)
            × ((calls k).msgsnd (contacts project).msg_queue_id frame ≡ sent))
          ⊎ ((contacts' : Contacts) × (loop (suc fuel) k contacts ≡ loop fuel (suc k) contacts')
              × ((calls k).msgsnd (contacts project).msg_queue_id frame ≢ sent))
    unfolding send_loop
    round fuel k contacts = go ((calls k).msgsnd (contacts project).msg_queue_id frame) refl
      where
        renewed : Contacts
        renewed =
            add_contact_info_at_index (calls k) project receiver
              (remove_contact_info_at_index project contacts)

        go :
            (a : SendAnswer)
            → (calls k).msgsnd (contacts project).msg_queue_id frame ≡ a
            → ((loop (suc fuel) k contacts ≡ done contacts)
                × ((calls k).msgsnd (contacts project).msg_queue_id frame ≡ sent))
              ⊎ ((contacts' : Contacts) × (loop (suc fuel) k contacts ≡ loop fuel (suc k) contacts')
                  × ((calls k).msgsnd (contacts project).msg_queue_id frame ≢ sent))
        go sent e = inl (ground arith, e)
        go (refused eintr) e = inr (contacts, ground arith, λ x. cc)
        go (refused einval) e =
            inr (renewed, ground (arith, renewed-ne-zero k contacts real), λ x. cc)
        go (refused eidrm) e =
            inr (renewed, ground (arith, renewed-ne-zero k contacts real), λ x. cc)
        go (refused enoent) e = inr (contacts, ground arith, λ x. cc)
        go (refused other_error) e = inr (contacts, ground arith, λ x. cc)

    -- The loop ends only after an attempt at which the queue took the frame.
    loop-Took :
        (fuel k : ℕ) (contacts contacts' : Contacts)
        → loop fuel k contacts ≡ done contacts'
        → Took calls frame k fuel
    unfolding send_loop
    loop-Took zero k contacts contacts' e = absurd (cc)
    loop-Took (suc fuel) k contacts contacts' e = elim (round fuel k contacts) [
      | inl (_, took) ↦ (k, _, omega arith, omega arith, took)
      | inr (next, same, _) ↦
          let (j, queue, lo, hi, took) = loop-Took fuel (suc k) next contacts' (sym same ∙ e) in
          (j, queue, omega arith, omega arith, took)
    ]

    -- It ends if within the fuel there is an attempt at which every queue takes the frame.
    loop_ends :
        (fuel k j : ℕ) (contacts : Contacts)
        → k ≤ j
        → j < k + fuel
        → ((queue : ℤ) → (calls j).msgsnd queue frame ≡ sent)
        → (contacts' : Contacts) × (loop fuel k contacts ≡ done contacts')
    unfolding send_loop
    loop_ends zero k j contacts lo hi took = absurd (omega arith)
    loop_ends (suc fuel) k j contacts lo hi took = elim (round fuel k contacts) [
      | inl (stop, _) ↦ (contacts, stop)
      | inr (next, same, not_yet) ↦ elim (ℕ_discrete k j) [
        | yes e ↦ absurd (not_yet (rw e (took _)))
        | no ne ↦
            let (contacts', stop) =
              loop_ends fuel (suc k) j next (omega arith) (omega arith) took in
            (contacts', same ∙ stop)
      ]
    ]

-- The length of the bytes of a whole message.
pub length-encode : (m : Message) → IsWhole m → length (encode m) ≡ m.size + 17
unfolding encode
length-encode m w = omega (arith, w.room)

transmit_by :
    (calls : ℕ → Calls) (fuel msg : ℕ) (m : Message) (contacts contacts' : Contacts) (h : Heap)
    → 0 < msg
    → h.cell msg ≡ some m
    → IsWhole m
    → m.size + 17 < 2 ^ 31
    → send_loop calls (project_of m.receiver) m.receiver (tx_frame m) fuel 0 contacts
      ≡ done contacts'
    → transmit calls fuel msg m contacts h ≡ done (itc_ok, contacts', free h msg)
unfolding transmit
transmit_by calls fuel msg m contacts contacts' h pos live w small e =
    ground (arith, length-encode m w, deallocate-whole msg m h pos live w)

-- Once the transport is initialised, a live whole message of fewer than 2^31 bytes, flattened, to a
-- region from 1 to 254 is sent and freed, and the call answers OK, if within the fuel there is an
-- attempt at which every queue takes its bytes.
pub send_delivers :
    (calls : ℕ → Calls) (fuel msg j : ℕ) (m : Message) (contacts : Contacts) (h : Heap)
    → 0 < msg
    → h.cell msg ≡ some m
    → IsWhole m
    → m.size + 17 < 2 ^ 31
    → m.receiver < 2 ^ 32
    → 0 < m.receiver / 2 ^ 20
    → m.receiver / 2 ^ 20 < 255
    → j < fuel
    → ((queue : ℤ) → (calls j).msgsnd queue (tx_frame m) ≡ sent)
    → (contacts' : Contacts) × (send calls fuel true msg contacts h
        ≡ done (itc_ok, contacts', free h msg))
unfolding send
send_delivers calls fuel msg j m contacts h pos live w small fits lo hi within took =
    let project : project_of m.receiver ≡ m.receiver / 2 ^ 20 = project_of_lem m.receiver fits in
    let (contacts', e) =
      loop_ends calls (project_of m.receiver) m.receiver (tx_frame m) (λ z. absurd (omega arith))
        fuel 0 j contacts (omega arith) (omega arith) took in
    (
      contacts',
      ground (arith, transmit_by calls fuel msg m contacts contacts' h pos live w small e),
    )

transmit-Took :
    (calls : ℕ → Calls) (fuel msg : ℕ) (m : Message) (contacts contacts' : Contacts) (h h' : Heap)
    → project_of m.receiver ≢ 0
    → transmit calls fuel msg m contacts h ≡ done (itc_ok, contacts', h')
    → Took calls (tx_frame m) 0 fuel
unfolding transmit
transmit-Took calls fuel msg m contacts contacts' h h' real e =
    go (send_loop calls (project_of m.receiver) m.receiver (tx_frame m) fuel 0 contacts) refl
  where
    go :
        (o : Outcome Contacts)
        → send_loop calls (project_of m.receiver) m.receiver (tx_frame m) fuel 0 contacts ≡ o
        → Took calls (tx_frame m) 0 fuel
    go (done c) l = loop-Took calls _ _ (tx_frame m) real fuel 0 contacts c l
    go waits l = absurd (ground arith)
    go fault l = absurd (ground arith)

-- For a live message the call answers OK only if the message is for a region from 1 to 254 and some
-- queue took its bytes at one of the attempts.
pub send_took :
    (calls : ℕ → Calls) (fuel msg : ℕ) (init : Bool) (m : Message) (contacts contacts' : Contacts)
    (h h' : Heap)
    → h.cell msg ≡ some m
    → send calls fuel init msg contacts h ≡ done (itc_ok, contacts', h')
    → (0 < project_of m.receiver)
      × (project_of m.receiver < 255)
      × ((j : ℕ) × (queue : ℤ) × (j < fuel) × ((calls j).msgsnd queue (tx_frame m) ≡ sent))
unfolding send
send_took calls fuel msg false m contacts contacts' h h' live e = absurd (ground arith)
send_took calls fuel msg true m contacts contacts' h h' live e =
    elim (ℕ_discrete (project_of m.receiver) 0) [
      | yes z ↦ absurd (ground (arith, live, z))
      | no nz ↦ elim (dec_lt (project_of m.receiver) 255) [
        | no big ↦ absurd (ground (arith, live, big))
        | yes small ↦
            let run : transmit calls fuel msg m contacts h ≡ done (itc_ok, contacts', h') =
              ground (arith, live) in
            let (j, queue, _, hi, took) =
              transmit-Took calls fuel msg m contacts contacts' h h' nz run in
            (omega arith, small, (j, queue, omega arith, took))
      ]
    ]
