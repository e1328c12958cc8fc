-- ===== src/Transport/Sysv/Freeing.antt =====
-- What `send` of sw/itc-common/src/itcTransportSysvMsgQueue.cc does to the messages in memory.
use itc_platform.Common.{
  ℕ, ◌<◌, ◌≡◌, ◌≢◌, arith, Bool, true, false, none, inl, inr, Option-cases, Bool-cases, leb, ◌==◌,
  ◌||◌,
}
use itc_platform.Common.Outcome.{done}
use itc_platform.Message.{Message, Heap, deallocate}
use itc_platform.Message.Laws.{deallocate-frees, deallocate-keeps}
use itc_platform.Transport.Local.{ReturnCode, itc_ok}
use itc_platform.Transport.Sysv.{
  Calls, Contacts, project_of, transmit, send, itc_max_supported_regions,
}

-- What `send` has taken, it has freed.
transmit-frees :
    (calls : ℕ → Calls) (fuel msg : ℕ) (m : Message) (contacts contacts' : Contacts) (h h' : Heap)
    → 0 < msg
    → transmit calls fuel msg m contacts h ≡ done (itc_ok, contacts', h')
    → h'.cell msg ≡ none
unfolding transmit
transmit-frees calls fuel msg m contacts contacts' h h' pos e =
    deallocate-frees msg h h' pos (ground arith)

pub send-frees :
    (calls : ℕ → Calls) (fuel msg : ℕ) (init : Bool) (contacts contacts' : Contacts) (h h' : Heap)
    → 0 < msg
    → send calls fuel init msg contacts h ≡ done (itc_ok, contacts', h')
    → h'.cell msg ≡ none
unfolding send
send-frees calls fuel msg init contacts contacts' h h' pos e = elim (Option-cases (h.cell msg)) [
  | inl gone ↦ absurd (ground arith)
  | inr (m, live) ↦ transmit-frees calls fuel msg m contacts contacts' h h' pos (ground arith)
]

-- No other message is touched, whatever the answer is.
transmit-keeps :
    (calls : ℕ → Calls) (fuel a msg : ℕ) (m : Message) (contacts contacts' : Contacts) (h h' : Heap)
    (code : ReturnCode)
    → a ≢ msg
    → transmit calls fuel msg m contacts h ≡ done (code, contacts', h')
    → h'.cell a ≡ h.cell a
unfolding transmit
transmit-keeps calls fuel a msg m contacts contacts' h h' code ne e =
    elim (Option-cases (deallocate msg h)) [
      | inl broken ↦ absurd (ground (arith, broken))
      | inr ((freed, h1), run) ↦ ground (arith, run, deallocate-keeps a msg h h1 freed ne run)
    ]

pub send-keeps :
    (calls : ℕ → Calls) (fuel a msg : ℕ) (init : Bool) (contacts contacts' : Contacts) (h h' : Heap)
    (code : ReturnCode)
    → a ≢ msg
    → send calls fuel init msg contacts h ≡ done (code, contacts', h')
    → h'.cell a ≡ h.cell a
unfolding send
send-keeps calls fuel a msg false contacts contacts' h h' code ne e = ground arith
send-keeps calls fuel a msg true contacts contacts' h h' code ne e =
    elim (Option-cases (h.cell msg)) [
      | inl gone ↦ absurd (ground arith)
      | inr (m, live) ↦
          elim (Bool-cases (
            (project_of m.receiver == 0)
            || leb itc_max_supported_regions (project_of m.receiver))) [
              | inl off ↦ ground (arith, live, off)
              | inr on ↦
                  transmit-keeps calls fuel a msg m contacts contacts' h h' code ne
                    (ground (arith, live, on))
            ]
    ]
