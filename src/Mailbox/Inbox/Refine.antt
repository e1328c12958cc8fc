-- ===== src/Mailbox/Inbox/Refine.antt =====
-- The operations of sw/itc-common/src/itcMailbox.cc, called one at a time, against the inbox of
-- Mailbox/Inbox.antt.
use itc_platform.Common.{
  ℕ, ◌≡◌, ◌≢◌, refl, ap, ◌∙◌, arith, ◌⊎◌, inl, inr, Bool, true, false, none, some, List, [], ◌∷◌,
  length, length-append, bit_and, Bool-cases, Option-cases, ℕ_discrete,
}
use itc_platform.Message.{Heap}
use itc_platform.Mailbox.{Mailbox, set_state, push, pop}
use itc_platform.Mailbox.Drain.{deallocate_all}
use itc_platform.Mailbox.Laws.{
  few, waiting, IsMailbox, push_lem, pop_non_blocking, pop_blocking, deactivate_lem,
}
use itc_platform.Mailbox.Inbox.{
  Inbox, Call, put, get, activate, deactivate, Answer, pushed, popped, changed, take_oldest, step,
  call, run_inbox, run_mailbox,
}

-- A mailbox with its queue seen as a list.
abbrev pub view : Mailbox → Inbox
view mbox = record {
  mailbox_id = mbox.mailbox_id;
  flags = mbox.flags;
  is_active = mbox.is_active;
  messages = waiting mbox;
}

-- No call pushes nullptr.
abbrev pub NoNull : Call → Type 0
NoNull (put msg) = msg ≢ 0
NoNull _ = Unit

abbrev pub AllNoNull : List Call → Type 0
AllNoNull [] = Unit
AllNoNull (c ∷ calls) = NoNull c × AllNoNull calls

-- Both calls wait, or both answer the same and leave the same behind.
abbrev Agree : Call → Mailbox → Heap → Type 0
Agree c mbox h =
    ((call c mbox h ≡ none) × (step c (view mbox) h ≡ none))
    ⊎ ((answer : Answer) × (mbox' : Mailbox) × (h' : Heap) × (call c mbox h
          ≡ some (answer, mbox', h'))
        × (step c (view mbox) h ≡ some (answer, view mbox', h'))
        × IsMailbox mbox')

abbrev SameFields : Mailbox → Mailbox → Type 0
SameFields mbox mbox' =
    (mbox'.mailbox_id ≡ mbox.mailbox_id)
    × (mbox'.flags ≡ mbox.flags)
    × (mbox'.is_active ≡ mbox.is_active)

push-SameFields :
    (msg : ℕ) (mbox mbox' : Mailbox) (done : Bool)
    → push msg mbox ≡ some (done, mbox')
    → SameFields mbox mbox'
unfolding push
push-SameFields msg mbox mbox' done e = ground arith

-- Only an active mailbox takes a message, or lets its sender wait.
push-active :
    (msg : ℕ) (mbox : Mailbox) → push msg mbox ≢ some (false, mbox) → mbox.is_active ≡ true
unfolding push
push-active msg mbox ne = ground arith

pop-SameFields :
    (mode msg : ℕ) (mbox mbox' : Mailbox)
    → pop mode mbox ≡ some (msg, mbox')
    → SameFields mbox mbox'
unfolding pop
pop-SameFields mode msg mbox mbox' e = ground arith

pop-off : (mode : ℕ) (mbox : Mailbox) → mbox.is_active ≡ false → pop mode mbox ≡ some (0, mbox)
unfolding pop
pop-off mode mbox off = ground arith

view-SameFields :
    (mbox mbox' : Mailbox) (msgs : List ℕ)
    → SameFields mbox mbox'
    → waiting mbox' ≡ msgs
    → view mbox' ≡ record (view mbox) { messages = msgs }
view-SameFields mbox mbox' msgs same e = ground (arith, same, e)

put_refines :
    (msg : ℕ) (mbox : Mailbox) (h : Heap) → IsMailbox mbox → msg ≢ 0 → Agree (put msg) mbox h
unfolding call step
put_refines msg mbox h m ne = elim (push_lem mbox msg m ne) [
  | inl (off, run) ↦ inr (pushed false, mbox, h, ground (arith, run), ground (arith, off), m)
  | inr (inl (full, run)) ↦
      let on : mbox.is_active ≡ true = push-active msg mbox (λ z. cc) in
      inl (ground (arith, run), ground (arith, on, full))
  | inr (inr (mbox', run, added, m')) ↦
      let on : mbox.is_active ≡ true = push-active msg mbox (λ z. cc) in
      let room : length (waiting mbox) ≢ 1024 = λ z.
        absurd
          (omega (arith, few mbox' m', ap length added, length-append (waiting mbox) (msg ∷ []))) in
      let seen = view-SameFields mbox mbox' _ (push-SameFields msg mbox mbox' true run) added in
      inr (pushed true, mbox', h, ground (arith, run), rw seen (ground (arith, on, room)), m')
]

-- A receive that hands out the oldest message.
get_some :
    (mode msg : ℕ) (mbox mbox' : Mailbox) (h : Heap)
    → mbox.is_active ≡ true
    → pop mode mbox ≡ some (msg, mbox')
    → waiting mbox ≡ msg ∷ waiting mbox'
    → IsMailbox mbox'
    → Agree (get mode) mbox h
unfolding call step take_oldest
get_some mode msg mbox mbox' h on run taken m' =
    let oldest : take_oldest mode (waiting mbox) ≡ some (msg, waiting mbox') =
      ap (take_oldest mode) taken in
    let seen = view-SameFields mbox mbox' _ (pop-SameFields mode msg mbox mbox' run) refl in
    inr (popped msg, mbox', h, ground (arith, run), rw seen (ground (arith, on, oldest)), m')

get_refines : (mode : ℕ) (mbox : Mailbox) (h : Heap) → IsMailbox mbox → Agree (get mode) mbox h
unfolding call step take_oldest
get_refines mode mbox h m = elim (Bool-cases mbox.is_active) [
  | inr off ↦ inr (popped 0, mbox, h, ground (arith, pop-off mode mbox off), ground (arith, off), m)
  | inl on ↦ elim (ℕ_discrete (bit_and mode 1) 0) [
    | no set ↦ elim (pop_non_blocking mbox mode m set) [
      | inl (nothing, run) ↦
          let oldest : take_oldest mode (waiting mbox) ≡ some (0, []) =
            ap (take_oldest mode) nothing ∙ ground (arith, set) in
          let seen = view-SameFields mbox mbox [] (refl, refl, refl) nothing in
          inr (popped 0, mbox, h, ground (arith, run), ground (arith, on, oldest, seen), m)
      | inr (x, mbox', run, taken, m') ↦ get_some mode x mbox mbox' h on run taken m'
    ]
    | yes clear ↦ elim (pop_blocking mbox mode m on clear) [
      | inl (nothing, run) ↦
          let oldest : take_oldest mode (waiting mbox) ≡ none =
            ap (take_oldest mode) nothing ∙ ground (arith, clear) in
          inl (ground (arith, run), ground (arith, on, oldest))
      | inr (x, mbox', run, taken, m') ↦ get_some mode x mbox mbox' h on run taken m'
    ]
  ]
]

set_state-off :
    (mbox : Mailbox) (h : Heap) → mbox.is_active ≡ false → set_state false mbox h ≡ some (mbox, h)
unfolding set_state
set_state-off mbox h off = ground arith

deactivate_refines : (mbox : Mailbox) (h : Heap) → IsMailbox mbox → Agree deactivate mbox h
unfolding call step
deactivate_refines mbox h m = elim (Bool-cases mbox.is_active) [
  | inr off ↦
      inr (changed, mbox, h, ground (arith, set_state-off mbox h off), ground (arith, off), m)
  | inl on ↦
      let (mbox', empty, off', id, flags, m', run) = deactivate_lem mbox h m on in
      elim (Option-cases (deallocate_all (waiting mbox) h)) [
        | inl broken ↦ inl (ground (arith, run, broken), ground (arith, on, broken))
        | inr (h', freed) ↦ inr (
          changed,
          mbox',
          h',
          ground (arith, run, freed),
          ground (arith, on, freed, empty, off', id, flags),
          m',
        )
      ]
]

call_refines : (c : Call) (mbox : Mailbox) (h : Heap) → IsMailbox mbox → NoNull c → Agree c mbox h
unfolding call step set_state
call_refines (put msg) mbox h m ne = put_refines msg mbox h m ne
call_refines (get mode) mbox h m ne = get_refines mode mbox h m
call_refines activate mbox h m ne = inr (
  changed,
  record mbox { is_active = true },
  h,
  refl,
  refl,
  record { queue_valid = m.queue_valid; idle_empty = λ off. cc },
)
call_refines deactivate mbox h m ne = deactivate_refines mbox h m

-- No sequence of calls that pushes no nullptr tells a well-formed mailbox from an inbox of at most 1024
-- messages with its id, its flags, its state and the messages that wait: both give the same answers,
-- nullptr from a mailbox that is shut or empty included, wait at the same calls, fault at the same
-- deallocations, and leave the same messages in memory.
pub run_mailbox_refines :
    (calls : List Call) (mbox : Mailbox) (h : Heap)
    → IsMailbox mbox
    → AllNoNull calls
    → run_mailbox calls mbox h ≡ run_inbox calls (view mbox) h
unfolding run_mailbox run_inbox
run_mailbox_refines [] mbox h m ok = refl
run_mailbox_refines (c ∷ calls) mbox h m ok = elim (call_refines c mbox h m ok.0) [
  | inl (stuck, stuck') ↦ ground (arith, stuck, stuck')
  | inr (answer, mbox', h', run, run', m') ↦
      ground (arith, run, run', run_mailbox_refines calls mbox' h' m' ok.1)
]
