-- ===== src/Platform/Session.antt =====
-- sw/itc-api/src/itcPlatform.cc: the start of the server, and the set-up and release of the platform.
-- The answers of the calls come in as records.
use itc_platform.Common.{
  ℕ, ◌^◌, Bool, true, false, ltb, ◌==◌, ◌&&◌, ◌||◌, if◌then◌else◌, not, bit_and, bit_or, ℤ, pos,
  ltb_ℤ,
}
use itc_platform.Common.Outcome.{Outcome, done, ◌>>=◌}
use itc_platform.Message.{itc_mailbox_id_default}
use itc_platform.ThreadManager
use itc_platform.ThreadManager.{PthreadCalls, ManagerCode, manager_ok}
use itc_platform.Transport.Local.{ReturnCode, itc_ok, itc_failed}
use itc_platform.Transport.Sysv.{itc_region_id_shift}
use itc_platform.Transport.Sysv.Receiver
use itc_platform.Transport.Sysv.Receiver.{EndpointCalls, is_zero}
use itc_platform.Transport.Socket
use itc_platform.Transport.Socket.{SocketCalls, locate_itc_server}
use itc_platform.Platform.{MailboxList, Platform, with_boxes}

-- How a call ends in a process that may exit, or become another program.
pub data Ended (A : Type 0) : Type 0 where
  answers : A → Ended A
  exits : ℕ → Ended A
  becomes_daemon : Ended A

-- `fork` and `setsid`, `fork` and `execvp` in the child, seen by the process that the first `fork`
-- returns in. What `chdir` answers only goes to the log.
pub record DaemonCalls : Type 0 where
  pub fork : ℤ
  pub setsid : ℤ
  pub fork_again : ℤ
  pub execvp_fails : Bool

unfoldable pub start_daemon : DaemonCalls → Ended Bool
start_daemon calls =
    if ltb_ℤ calls.fork (pos 0)
    then answers false
    else if ltb_ℤ (pos 0) calls.fork
    then answers true
    else if ltb_ℤ calls.setsid (pos 0)
    then exits 1
    else if ltb_ℤ (pos 0) calls.fork_again
    then exits 0
    else if calls.execvp_fails
    then exits 1
    else becomes_daemon

-- `checkAndStartItcServer`, with what `exists` answers for the path of the server's socket.
unfoldable pub check_and_start_itc_server : Bool → DaemonCalls → Ended Bool
check_and_start_itc_server server_exists calls =
    if not server_exists then start_daemon calls else answers false

-- The calls, with the capacity that the vector of threads takes when it is full, and the task and the
-- sync object of the receiving thread.
pub record PlatformCalls : Type 0 where
  pub server_exists : Bool
  pub daemon : DaemonCalls
  pub search_calls : SocketCalls
  pub socket_calls : SocketCalls
  pub endpoint_calls : EndpointCalls
  pub thread_calls : ℕ → PthreadCalls
  pub grow : ℕ → ℕ
  pub rx_task : ℕ
  pub rx_sync_obj : ℕ
  pub key_create : ℤ
  pub key_delete : ℤ

abbrev pub itc_flag_i_am_itc_server : ℕ
itc_flag_i_am_itc_server = 1

abbrev pub itc_nr_internal_used_mailboxes : ℕ
itc_nr_internal_used_mailboxes = 1

abbrev pub manager_succeeded : ManagerCode → Bool
manager_succeeded manager_ok = true
manager_succeeded _ = false

module _ {L : Type 0} (list : MailboxList L) (calls : PlatformCalls) (fuel : ℕ) where
  -- The ids of the region and of the server: false when the server is not found.
  unfoldable pub find_region : ℕ → Platform L → Bool × Platform L
  find_region flags p =
      if not (bit_and flags itc_flag_i_am_itc_server == 0)
      then (
        true,
        record p {
          region_id = 2 ^ itc_region_id_shift;
          itc_server_mbox_id = bit_or (2 ^ itc_region_id_shift) 1;
        },
      )
      else let (results, socket) = locate_itc_server calls.search_calls p.socket in
        if (results.assigned_region_id == itc_mailbox_id_default)
          || (results.itc_server_mbox_id == itc_mailbox_id_default)
        then (false, record p { socket = socket })
        else (
          true,
          record p {
            socket = socket;
            region_id = results.assigned_region_id;
            itc_server_mbox_id = results.itc_server_mbox_id;
          },
        )

  -- The thread that receives from other regions is added to the manager, whose answer is not read.
  unfoldable pub add_rx_thread : Bool → Platform L → Outcome (Bool × Platform L)
  add_rx_thread ready p = do
    (code, manager) ←
        ThreadManager.add_thread calls.grow calls.rx_task calls.rx_sync_obj false p.manager
    done (ready, record p { manager = manager })

  -- The transports; that of the region always answers true.
  unfoldable pub initialise_transports : Platform L → Outcome (Bool × Platform L)
  initialise_transports p = do
    (socket_ready, socket) ← Socket.initialise calls.socket_calls fuel p.socket
    let (sysv_ready, endpoint) = Receiver.initialise calls.endpoint_calls p.region_id p.endpoint
    let p' = record p { socket = socket; endpoint = endpoint }
    if sysv_ready then add_rx_thread socket_ready p' else done (false, p')

  unfoldable pub start_threads : Platform L → Outcome (ReturnCode × Platform L)
  start_threads p = do
    (code, manager) ← ThreadManager.start_all_threads calls.thread_calls p.manager
    done (if manager_succeeded code then itc_ok else itc_failed, record p { manager = manager })

  -- `initialise` after the check of the server.
  unfoldable pub set_up : ℕ → Platform L → Outcome (ReturnCode × Platform L)
  set_up flags p =
      if p.is_initialised
      then done (itc_ok, p)
      else let (found, p1) = find_region flags p in
        if not found then done (itc_failed, p1) else (do
          (ready, p2) ← initialise_transports p1
          if ready && is_zero calls.key_create then start_threads p2 else done (itc_failed, p2))

  -- `initialise`, in whichever process it returns.
  unfoldable pub initialise : ℕ → Platform L → Outcome (Ended (ReturnCode × Platform L))
  initialise flags p = elim (check_and_start_itc_server calls.server_exists calls.daemon) [
    | exits status ↦ done (exits status)
    | becomes_daemon ↦ done becomes_daemon
    | answers false ↦ done (answers (itc_failed, p))
    | answers true ↦ do answer ← set_up flags p; done (answers answer)
  ]

  -- `release` after the threads have ended.
  unfoldable pub tear_down : Platform L → ReturnCode × Platform L
  tear_down p = (
    if is_zero calls.key_delete then itc_ok else itc_failed,
    record (with_boxes p (list.clear p.mboxes p.region.mailboxes)) {
      socket = Socket.release calls.socket_calls p.socket;
      endpoint = Receiver.release calls.endpoint_calls p.endpoint;
    },
  )

  unfoldable pub release : Platform L → Outcome (ReturnCode × Platform L)
  release p =
      if not p.is_initialised
      then done (itc_ok, p)
      else if ltb itc_nr_internal_used_mailboxes (list.size p.mboxes)
      then done (itc_failed, p)
      else (do
        (code, manager) ← ThreadManager.terminate_all_threads calls.thread_calls p.manager
        let stopped = record p { manager = manager }
        done (if manager_succeeded code then tear_down stopped else (itc_failed, stopped)))
