-- ===== src/Platform/Starting.antt =====
-- What it takes for `initialise` of sw/itc-api/src/itcPlatform.cc to answer ITC_OK.
use mathlib.Core.List.{map-append}
use itc_platform.Common.{
  Bool, [], ◌∷◌, ◌++◌, ℕ, ◌≡◌, ◌≢◌, sym, ap, ◌∙◌, arith, inl, inr, some, true, false, bit_and,
}
use itc_platform.Common.Outcome.{done, Outcome-cases}
use itc_platform.ThreadManager.Adding.{move_all_lem}
use itc_platform.ThreadManager
use itc_platform.ThreadManager.{Thread, Manager, manager_ok}
use itc_platform.ThreadManager.Starting.{start_all_threads_lem, all_running, tasks}
use itc_platform.Transport.Local.{itc_ok}
use itc_platform.Transport.Sysv
use itc_platform.Transport.Socket
use itc_platform.Platform.{MailboxList, Platform}
use itc_platform.Platform.Session.{
  PlatformCalls, answers, check_and_start_itc_server, find_region, add_rx_thread,
  initialise_transports, start_threads, set_up, initialise, itc_flag_i_am_itc_server,
}

module _ {L : Type 0} (list : MailboxList L) (calls : PlatformCalls) (fuel : ℕ) where
  start_threads-runs :
      (p p' : Platform L)
      → p.manager.list_locked ≡ false
      → ((obj : ℕ) → p.manager.sync_locked obj ≡ false)
      → start_threads list calls fuel p ≡ done (itc_ok, p')
      → (all_running p'.manager.threads ≡ true)
        × (tasks p'.manager.threads ≡ tasks p.manager.threads)
  unfolding start_threads
  start_threads-runs p p' open_list free e =
      let (code, m', run, held, good) =
        start_all_threads_lem calls.thread_calls p.manager open_list free in
      let ok : code ≡ manager_ok = ground (arith, run) in
      let same : p'.manager ≡ m' = ground (arith, run) in
      (
        ap (λ (m : Manager). all_running m.threads) same ∙ (good ok).0,
        ap (λ (m : Manager). tasks m.threads) same ∙ held,
      )

  -- What adding the receiving thread makes of the manager: no mutex is touched.
  abbrev Added : Manager → Manager → Type 0
  Added m m' =
      (m'.list_locked ≡ m.list_locked)
      × (m'.sync_locked ≡ m.sync_locked)
      × (tasks m'.threads ≡ tasks m.threads ++ (calls.rx_task ∷ []))

  add_rx_thread-Added :
      (ready got : Bool) (p p' : Platform L)
      → add_rx_thread list calls fuel ready p ≡ done (got, p')
      → Added p.manager p'.manager × (ready ≡ got)
  unfolding add_rx_thread ThreadManager.add_thread
  add_rx_thread-Added ready got p p' e =
      let thr : Thread = record {
        tid = 0;
        task = calls.rx_task;
        sync_obj = some calls.rx_sync_obj;
        is_running = false;
        use_highest_priority = false;
      } in
      let more : p'.manager.threads ≡ p.manager.threads ++ (thr ∷ []) =
        ground (arith, move_all_lem 1 p.manager.threads (omega arith)) in
      (
        (
          ground arith,
          ground arith,
          ap tasks more ∙ map-append (λ t. t.task) p.manager.threads (thr ∷ []),
        ),
        ground arith,
      )

  -- The set-up of the transports adds the receiving thread, and needs the socket of the server.
  initialise_transports_lem :
      (p p' : Platform L)
      → initialise_transports list calls fuel p ≡ done (true, p')
      → Added p.manager p'.manager × (p.socket.is_itc_server_running ≡ true)
  unfolding initialise_transports Socket.initialise
  initialise_transports_lem p p' e =
      elim (Outcome-cases (Socket.initialise calls.socket_calls fuel p.socket)) [
        | inl ((got, socket), run) ↦
            let (sysv_ready, endpoint) =
              Sysv.Receiver.initialise calls.endpoint_calls p.region_id p.endpoint in
            let (added, ready) =
              add_rx_thread-Added got true (record p { socket = socket; endpoint = endpoint }) p'
                (ground (arith, run)) in
            (added, ground (arith, run, ready))
        | inr (inl stuck) ↦ absurd (ground (arith, stuck))
        | inr (inr broken) ↦ absurd (ground (arith, broken))
      ]

  find_region-manager :
      (flags : ℕ) (p : Platform L) → (find_region list calls fuel flags p).1.manager ≡ p.manager
  unfolding find_region
  find_region-manager flags p = ground arith

  find_region-server :
      (flags : ℕ) (p : Platform L)
      → bit_and flags itc_flag_i_am_itc_server ≢ 0
      → (find_region list calls fuel flags p).1.socket ≡ p.socket
  unfolding find_region
  find_region-server flags p set = ground arith

  set_up_ok :
      (flags : ℕ) (p p' : Platform L)
      → p.is_initialised ≡ false
      → set_up list calls fuel flags p ≡ done (itc_ok, p')
      → (p2 : Platform L) × (initialise_transports list calls fuel
            (find_region list calls fuel flags p).1
          ≡ done (true, p2))
        × (start_threads list calls fuel p2 ≡ done (itc_ok, p'))
  unfolding set_up
  set_up_ok flags p p' down e =
      elim (Outcome-cases
        (initialise_transports list calls fuel (find_region list calls fuel flags p).1)) [
          | inl ((false, p2), run) ↦ absurd (ground (arith, run))
          | inl ((true, p2), run) ↦ (p2, run, ground (arith, run))
          | inr (inl stuck) ↦ absurd (ground (arith, stuck))
          | inr (inr broken) ↦ absurd (ground (arith, broken))
        ]

  initialise-set_up :
      (flags : ℕ) (p p' : Platform L)
      → initialise list calls fuel flags p ≡ done (answers (itc_ok, p'))
      → (calls.server_exists ≡ false) × (set_up list calls fuel flags p ≡ done (itc_ok, p'))
  unfolding initialise check_and_start_itc_server
  initialise-set_up flags p p' e = elim (Outcome-cases (set_up list calls fuel flags p)) [
    | inl ((code, p1), run) ↦ (ground (arith, run), run ∙ ground (arith, run))
    | inr (inl stuck) ↦ absurd (ground (arith, stuck))
    | inr (inr broken) ↦ absurd (ground (arith, broken))
  ]

  -- On a platform that is not initialised, where no mutex of the thread manager is held, `initialise`
  -- answers ITC_OK only if the socket of the server was not there before; then every thread runs, the
  -- one that receives from other regions behind those that were added before. With the flag of the
  -- server it does so only if the process has already found a server.
  pub initialise_ok :
      (flags : ℕ) (p p' : Platform L)
      → p.is_initialised ≡ false
      → p.manager.list_locked ≡ false
      → ((obj : ℕ) → p.manager.sync_locked obj ≡ false)
      → initialise list calls fuel flags p ≡ done (answers (itc_ok, p'))
      → (calls.server_exists ≡ false)
        × (all_running p'.manager.threads ≡ true)
        × (tasks p'.manager.threads ≡ tasks p.manager.threads ++ (calls.rx_task ∷ []))
        × (bit_and flags itc_flag_i_am_itc_server ≢ 0 → p.socket.is_itc_server_running ≡ true)
  initialise_ok flags p p' down open_list free e =
      let (unserved, ready) = initialise-set_up flags p p' e in
      let (p2, transports, threads) = set_up_ok flags p p' down ready in
      let ((open2, free2, more), running) = initialise_transports_lem _ p2 transports in
      let kept = find_region-manager flags p in
      let (all, same) =
        start_threads-runs p2 p' (open2 ∙ ap (λ (m : Manager). m.list_locked) kept ∙ open_list)
          (λ obj.
            ap (λ (f : ℕ → Bool). f obj) free2
            ∙ ap (λ (m : Manager). m.sync_locked obj) kept
            ∙ free obj)
          threads in
      (
        unserved,
        all,
        same ∙ more ∙ ap (λ (m : Manager). tasks m.threads ++ (calls.rx_task ∷ [])) kept,
        λ server.
            ap (λ (t : Socket.Socket). t.is_itc_server_running)
              (sym (find_region-server flags p server))
            ∙ running,
      )
