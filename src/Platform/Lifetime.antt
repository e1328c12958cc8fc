-- ===== src/Platform/Lifetime.antt =====
-- What a process can do with sw/itc-api/src/itcPlatform.cc from the start on: its calls as a step
-- relation.
use itc_platform.Common.{ℕ, ◌≡◌, arith, inl, inr, Bool, false, ℤ}
use itc_platform.Common.Outcome.{done, Outcome-cases}
use itc_platform.Message.{itc_mailbox_id_default}
use itc_platform.ThreadManager
use itc_platform.Transport.Local.{ReturnCode, itc_failed}
use itc_platform.Transport.Sysv
use itc_platform.Transport.Sysv.{Calls}
use itc_platform.Transport.Socket
use itc_platform.Platform.{Name, MailboxList, Platform, address, send, receive}
use itc_platform.Platform.Mailboxes.{create_mailbox, delete_mailbox}
use itc_platform.Platform.Locating.{MailboxContactInfo, locate_mailbox_sync, locate_mailbox_async}
use itc_platform.Platform.Session.{
  PlatformCalls, answers, find_region, add_rx_thread, initialise_transports, start_threads, set_up,
  initialise, release,
}

module _ {L : Type 0} (list : MailboxList L) (junk : ℕ → ℕ) where
  -- One call, with whatever the system answers in it.
  pub data Step (p : Platform L) : Platform L → Type 0 where
    initialise_step :
        (calls : PlatformCalls) (fuel flags : ℕ) (code : ReturnCode) {p' : Platform L}
        → initialise list calls fuel flags p ≡ done (answers (code, p'))
        → Step p p'
    release_step :
        (calls : PlatformCalls) (fuel : ℕ) (code : ReturnCode) {p' : Platform L}
        → release list calls fuel p ≡ done (code, p')
        → Step p p'
    create_step :
        (net : ℕ → Calls) (fuel flags id : ℕ) (set_specific : ℤ) (name : Name) {p' : Platform L}
        → create_mailbox list junk net fuel set_specific name flags p ≡ done (id, p')
        → Step p p'
    delete_step :
        (net : ℕ → Calls) (fuel id : ℕ) (code : ReturnCode) {p' : Platform L}
        → delete_mailbox list junk net fuel id p ≡ done (code, p')
        → Step p p'
    send_step :
        (net : ℕ → Calls) (fuel msg id world : ℕ) (code : ReturnCode) {p' : Platform L}
        → send list junk net fuel msg id world p ≡ done (code, p')
        → Step p p'
    receive_step :
        (net : ℕ → Calls) (fuel mode msg : ℕ) {p' : Platform L}
        → receive list junk net fuel mode p ≡ done (msg, p')
        → Step p p'
    locate_sync_step :
        (net : ℕ → Calls) (fuel timeout_mask mode : ℕ) (name : Name) (info : MailboxContactInfo)
        {p' : Platform L}
        → locate_mailbox_sync list junk net fuel timeout_mask name mode p ≡ done (info, p')
        → Step p p'
    locate_async_step :
        (net : ℕ → Calls) (fuel timeout_mask mode : ℕ) (name : Name) (code : ReturnCode)
        {p' : Platform L}
        → locate_mailbox_async list junk net fuel timeout_mask name mode p ≡ done (code, p')
        → Step p p'

  pub data Calling (p : Platform L) : Platform L → Type 0 where
    no_call : Calling p p
    another : {q r : Platform L} → Calling p q → Step q r → Calling p r

  abbrev IsDown : Platform L → Type 0
  IsDown p = p.is_initialised ≡ false

  start_threads-IsDown :
      (calls : PlatformCalls) (fuel : ℕ) (p p' : Platform L) (code : ReturnCode)
      → IsDown p
      → start_threads list calls fuel p ≡ done (code, p')
      → IsDown p'
  unfolding start_threads
  start_threads-IsDown calls fuel p p' code down e =
      elim (Outcome-cases (ThreadManager.start_all_threads calls.thread_calls p.manager)) [
        | inl ((got, manager), run) ↦ ground (arith, run)
        | inr (inl stuck) ↦ absurd (ground (arith, stuck))
        | inr (inr broken) ↦ absurd (ground (arith, broken))
      ]

  add_rx_thread-IsDown :
      (calls : PlatformCalls) (fuel : ℕ) (p p' : Platform L) (ready got : Bool)
      → IsDown p
      → add_rx_thread list calls fuel ready p ≡ done (got, p')
      → IsDown p'
  unfolding add_rx_thread ThreadManager.add_thread
  add_rx_thread-IsDown calls fuel p p' ready got down e = ground arith

  initialise_transports-IsDown :
      (calls : PlatformCalls) (fuel : ℕ) (p p' : Platform L) (ready : Bool)
      → IsDown p
      → initialise_transports list calls fuel p ≡ done (ready, p')
      → IsDown p'
  unfolding initialise_transports
  initialise_transports-IsDown calls fuel p p' ready down e =
      elim (Outcome-cases (Socket.initialise calls.socket_calls fuel p.socket)) [
        | inl ((got, socket), run) ↦
            let (sysv_ready, endpoint) =
              Sysv.Receiver.initialise calls.endpoint_calls p.region_id p.endpoint in
            ground (
              arith,
              run,
              add_rx_thread-IsDown calls fuel (record p { socket = socket; endpoint = endpoint }) p'
                  got ready down,
            )
        | inr (inl stuck) ↦ absurd (ground (arith, stuck))
        | inr (inr broken) ↦ absurd (ground (arith, broken))
      ]

  find_region-IsDown :
      (calls : PlatformCalls) (fuel flags : ℕ) (p : Platform L)
      → IsDown p
      → IsDown ((find_region list calls fuel flags p).1)
  unfolding find_region
  find_region-IsDown calls fuel flags p down = ground arith

  set_up-IsDown :
      (calls : PlatformCalls) (fuel flags : ℕ) (p p' : Platform L) (code : ReturnCode)
      → IsDown p
      → set_up list calls fuel flags p ≡ done (code, p')
      → IsDown p'
  unfolding set_up
  set_up-IsDown calls fuel flags p p' code down e =
      let down1 = find_region-IsDown calls fuel flags p down in
      elim (Outcome-cases
        (initialise_transports list calls fuel (find_region list calls fuel flags p).1)) [
          | inl ((ready, p2), run) ↦
              let down2 = initialise_transports-IsDown calls fuel _ p2 ready down1 run in
              elim (Outcome-cases (start_threads list calls fuel p2)) [
                | inl ((got, p3), go) ↦
                    let down3 = start_threads-IsDown calls fuel p2 p3 got down2 go in
                    ground (arith, run, go, down1, down2, down3)
                | inr (inl stuck) ↦ ground (arith, run, stuck, down1, down2)
                | inr (inr broken) ↦ ground (arith, run, broken, down1, down2)
              ]
          | inr (inl stuck) ↦ ground (arith, stuck, down1)
          | inr (inr broken) ↦ ground (arith, broken, down1)
        ]

  initialise-IsDown :
      (calls : PlatformCalls) (fuel flags : ℕ) (p p' : Platform L) (code : ReturnCode)
      → IsDown p
      → initialise list calls fuel flags p ≡ done (answers (code, p'))
      → IsDown p'
  unfolding initialise
  initialise-IsDown calls fuel flags p p' code down e =
      elim (Outcome-cases (set_up list calls fuel flags p)) [
        | inl ((got, p1), run) ↦
            let down1 = set_up-IsDown calls fuel flags p p1 got down run in
            ground (arith, run, down1)
        | inr (inl stuck) ↦ ground (arith, stuck, down)
        | inr (inr broken) ↦ ground (arith, broken, down)
      ]

  Step-IsDown : {p q : Platform L} → Step p q → IsDown p → IsDown q
  unfolding release create_mailbox delete_mailbox send address receive locate_mailbox_sync
      locate_mailbox_async
  Step-IsDown (initialise_step calls fuel flags code e) down =
      initialise-IsDown calls fuel flags _ _ code down e
  Step-IsDown (release_step calls fuel code e) down = ground arith
  Step-IsDown (create_step net fuel flags id set_specific name e) down = ground arith
  Step-IsDown (delete_step net fuel id code e) down = ground arith
  Step-IsDown (send_step net fuel msg id world code e) down = ground arith
  Step-IsDown (receive_step net fuel mode msg e) down = ground arith
  Step-IsDown (locate_sync_step net fuel timeout_mask mode name info e) down = ground arith
  Step-IsDown (locate_async_step net fuel timeout_mask mode name code e) down = ground arith

  Calling-IsDown : {p q : Platform L} → Calling p q → IsDown p → IsDown q
  Calling-IsDown no_call down = down
  Calling-IsDown (another before step) down = Step-IsDown step (Calling-IsDown before down)

  -- A platform that starts as not initialised never gets ready: whatever calls were made, `initialise`
  -- among them, the next `send` answers ITC_FAILED, the next `receive` nullptr and the next
  -- `createMailbox` the default id, and nothing changes.
  pub never_ready :
      {p q : Platform L}
      → p.is_initialised ≡ false
      → Calling p q
      → (net : ℕ → Calls) (fuel : ℕ)
      → ((msg id world : ℕ) → send list junk net fuel msg id world q ≡ done (itc_failed, q))
        × ((mode : ℕ) → receive list junk net fuel mode q ≡ done (0, q))
        × ((set_specific : ℤ) (name : Name) (flags : ℕ)
            → create_mailbox list junk net fuel set_specific name flags q
              ≡ done (itc_mailbox_id_default, q))
  unfolding send address receive create_mailbox
  never_ready {q = q} start calling net fuel =
      let down = Calling-IsDown calling start in
      (
        (λ msg id world. ground (arith, down)),
        (λ mode. ground (arith, down)),
        (λ set_specific name flags. ground (arith, down)),
      )
