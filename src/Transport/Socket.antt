-- ===== src/Transport/Socket.antt =====
-- sw/itc-common/src/itcTransportLSocket.cc: the socket over which a region finds the server. The
-- answers of the calls of the C library and of the file system come in as a record.
pub mod Server
use itc_platform.Common.{
  ℕ, zero, suc, ◌+◌, ◌*◌, Bool, true, false, Option, none, some, List, [], ◌∷◌, ◌++◌, ltb, ◌==◌,
  ◌&&◌, if◌then◌else◌, not, length, ℤ, pos, negsuc, ltb_ℤ, eqb_ℤ,
}
use mathlib.Core.List.{filter}
use itc_platform.Common.Outcome.{Outcome, done, waits, fault}
use itc_platform.Message.{itc_mailbox_id_default, read32}
use itc_platform.Message.Bytes.{◌>>=◌}
use itc_platform.FileSystem.{FsCode, fs_ok}

-- What `recv` does: it hands out bytes, it is interrupted by a signal, or it fails.
pub data RecvAnswer : Type 0 where
  received : List ℕ → RecvAnswer
  interrupted recv_error : RecvAnswer

-- The calls, `recv` by the number of the attempt.
pub record SocketCalls : Type 0 where
  pub create_path : FsCode
  pub remove_path : FsCode
  pub socket : ℤ
  pub connect : ℤ → ℤ
  pub send_request : ℤ → ℤ
  pub recv : ℕ → RecvAnswer
  pub close : ℤ → ℤ

-- `ItcTransportLSocket`, and the descriptors of sockets that the process holds open.
pub record Socket : Type 0 where
  pub sock_fd : ℤ
  pub is_itc_server_running : Bool
  pub is_lsock_path_created : Bool
  pub open_fds : List ℤ

abbrev pub new_socket : Socket
new_socket = record {
  sock_fd = negsuc 0;
  is_itc_server_running = false;
  is_lsock_path_created = false;
  open_fds = [];
}

-- `LocatedResults`.
pub record LocatedResults : Type 0 where
  pub assigned_region_id : ℕ
  pub itc_server_mbox_id : ℕ

abbrev pub not_located : LocatedResults
not_located = record {
  assigned_region_id = itc_mailbox_id_default;
  itc_server_mbox_id = itc_mailbox_id_default;
}

abbrev pub fs_succeeded : FsCode → Bool
fs_succeeded fs_ok = true
fs_succeeded _ = false

-- Four bytes that `strcmp` finds equal to "ack".
abbrev pub is_ack : List ℕ → Bool
is_ack (a ∷ b ∷ c ∷ d ∷ []) = (a == 97) && (b == 99) && (c == 107) && (d == 0)
is_ack _ = false

-- The loop around `recv` from attempt `k` on: `none` is an error. `waits` is the end of the fuel.
unfoldable pub receive_ack : (ℕ → RecvAnswer) → ℕ → ℕ → Outcome (Option (List ℕ))
receive_ack recv zero k = waits
receive_ack recv (suc fuel) k =
    let again = receive_ack recv fuel (suc k) in
    elim (recv k) [
      | received bytes ↦ done (some bytes)
      | interrupted ↦ again
      | recv_error ↦ done none
    ]

-- `initialise` from the call of `socket` on.
unfoldable pub connect_socket : SocketCalls → ℕ → Socket → Outcome (Bool × Socket)
connect_socket calls fuel s =
    if ltb_ℤ calls.socket (pos 0)
    then done (false, s)
    else let opened : Socket = record s { open_fds = calls.socket ∷ s.open_fds } in
      if ltb_ℤ (calls.connect calls.socket) (pos 0)
      then done (false, opened)
      else elim (receive_ack calls.recv fuel 0) [
        | waits ↦ waits
        | fault ↦ fault
        | done none ↦ done (false, opened)
        | done (some bytes) ↦
            if is_ack bytes
            then done (true, record opened { sock_fd = calls.socket })
            else done (false, opened)
      ]

unfoldable pub initialise : SocketCalls → ℕ → Socket → Outcome (Bool × Socket)
initialise calls fuel s =
    if not s.is_itc_server_running
    then done (false, s)
    else if s.is_lsock_path_created
    then connect_socket calls fuel s
    else if fs_succeeded calls.create_path
    then connect_socket calls fuel (record s { is_lsock_path_created = true })
    else done (false, s)

-- A descriptor that is closed.
unfoldable pub closed : ℤ → List ℤ → List ℤ
closed fd [] = []
closed fd (other ∷ fds) = if eqb_ℤ fd other then closed fd fds else other ∷ closed fd fds

unfoldable pub release : SocketCalls → Socket → Socket
release calls s =
    if not s.is_itc_server_running
    then s
    else if ltb_ℤ (calls.close s.sock_fd) (pos 0)
    then s
    else let shut : Socket = record s {
      sock_fd = negsuc 0;
      open_fds = closed s.sock_fd s.open_fds;
    } in
      if fs_succeeded calls.remove_path
      then record shut { is_lsock_path_created = false; is_itc_server_running = false }
      else shut

-- The reply of the server: the message number and two mailbox ids.
abbrev pub read_reply : List ℕ → Option (ℕ × ℕ × ℕ)
read_reply bytes = do
  (msgno, r1) ← read32 bytes
  (assigned_region_id, r2) ← read32 r1
  (itc_server_mbox_id, r3) ← read32 r2
  some (msgno, assigned_region_id, itc_server_mbox_id)

abbrev pub itc_ethernet_message_locate_itc_server_reply : ℕ
itc_ethernet_message_locate_itc_server_reply = 0x102

-- What `locateItcServer` makes of a reply, once the socket is closed.
unfoldable pub take_reply : ℕ → ℕ → ℕ → Socket → LocatedResults × Socket
take_reply msgno assigned_region_id itc_server_mbox_id s =
    if (msgno == itc_ethernet_message_locate_itc_server_reply)
      && not (assigned_region_id == itc_mailbox_id_default)
    then (
      record { assigned_region_id = assigned_region_id; itc_server_mbox_id = itc_server_mbox_id },
      record s { is_itc_server_running = true },
    )
    else (not_located, s)

-- A reply of fewer than twelve bytes, or none, leaves the socket open.
unfoldable pub locate_itc_server : SocketCalls → Socket → LocatedResults × Socket
locate_itc_server calls s =
    if ltb_ℤ calls.socket (pos 0)
    then (not_located, s)
    else let opened : Socket = record s { open_fds = calls.socket ∷ s.open_fds } in
      if ltb_ℤ (calls.connect calls.socket) (pos 0)
      then (not_located, opened)
      else if ltb_ℤ (calls.send_request calls.socket) (pos 0)
      then (not_located, opened)
      else elim (calls.recv 0) [
        | interrupted ↦ (not_located, opened)
        | recv_error ↦ (not_located, opened)
        | received bytes ↦ elim (read_reply bytes) [
          | none ↦ (not_located, opened)
          | some reply ↦
              let (msgno, assigned_region_id, itc_server_mbox_id) = reply in
              take_reply msgno assigned_region_id itc_server_mbox_id
                (record opened { open_fds = closed calls.socket opened.open_fds })
        ]
      ]
