-- ===== src/Transport/Socket/Server.antt =====
-- A session with the server over the socket of sw/itc-common/src/itcTransportLSocket.cc.
use itc_platform.Common.{
  ℕ, zero, suc, ◌+◌, ◌-◌, ◌^◌, ◌≤◌, ◌<◌, ◌≡◌, refl, arith, Bool, true, false, none, some, List, [],
  ◌∷◌, ◌++◌, ltb_ℤ, eqb_ℤ, ◌||◌, ◌≢◌, ◌⊎◌, inl, inr, Bool-cases, sym, ap, ◌∙◌, ℤ, pos,
}
use itc_platform.Common.Outcome.{Outcome-cases, done}
use itc_platform.Message.{write32}
use itc_platform.FileSystem.{fs_ok}
use itc_platform.Transport.Socket.{
  Socket, SocketCalls, RecvAnswer, received, interrupted, recv_error, LocatedResults, new_socket,
  is_ack, receive_ack, connect_socket, initialise, release, closed, locate_itc_server, take_reply,
  read_reply, itc_ethernet_message_locate_itc_server_reply,
}

-- Some attempt within the fuel receives the acknowledgement.
abbrev pub Acked : SocketCalls → ℕ → Type 0
Acked calls fuel =
    (j : ℕ) × (bytes : List ℕ) × (j < fuel)
    × (calls.recv j ≡ received bytes)
    × (is_ack bytes ≡ true)

receive_ack_lem :
    (recv : ℕ → RecvAnswer) (fuel k : ℕ) (bytes : List ℕ)
    → receive_ack recv fuel k ≡ done (some bytes)
    → (j : ℕ) × (k ≤ j) × (j < k + fuel) × (recv j ≡ received bytes)
unfolding receive_ack
receive_ack_lem recv zero k bytes e = absurd (ground arith)
receive_ack_lem recv (suc fuel) k bytes e =
    go (receive_ack_lem recv fuel (suc k) bytes) (recv k) refl
  where
    go :
        (receive_ack recv fuel (suc k) ≡ done (some bytes)
          → (j : ℕ) × (suc k ≤ j) × (j < suc k + fuel) × (recv j ≡ received bytes))
        → (answer : RecvAnswer) → recv k ≡ answer
        → (j : ℕ) × (k ≤ j) × (j < k + suc fuel) × (recv j ≡ received bytes)
    go further (received got) a = (k, omega arith, omega arith, ground arith)
    go further interrupted a =
        let (j, lo, hi, found) = further (ground arith) in (j, omega arith, omega arith, found)
    go further recv_error a = absurd (ground arith)

-- The descriptor is among those that are open.
abbrev pub is_open : ℤ → List ℤ → Bool
is_open fd [] = false
is_open fd (other ∷ fds) = eqb_ℤ fd other || is_open fd fds

-- One `release` after another, each with what the system answers then.
abbrev pub releases : List SocketCalls → Socket → Socket
releases [] s = s
releases (calls ∷ more) s = releases more (release calls s)

is_open-closed :
    (fd other : ℤ) (fds : List ℤ)
    → fd ≢ other
    → is_open fd fds ≡ true
    → is_open fd (closed other fds) ≡ true
unfolding closed
is_open-closed fd other [] ne held = held
is_open-closed fd other (first ∷ fds) ne held = elim (Bool-cases (is_open fd fds)) [
  | inl deeper ↦ ground (arith, is_open-closed fd other fds ne deeper)
  | inr here ↦ ground (arith, here)
]

-- A release closes the descriptor that is kept and no other.
release-is_open :
    (calls : SocketCalls) (fd : ℤ) (s : Socket)
    → ltb_ℤ fd (pos 0) ≡ false
    → s.sock_fd ≢ fd
    → is_open fd s.open_fds ≡ true
    → ((release calls s).sock_fd ≢ fd) × (is_open fd (release calls s).open_fds ≡ true)
unfolding release
release-is_open calls fd s valid ne held =
    let still : is_open fd (closed s.sock_fd s.open_fds) ≡ true =
      is_open-closed fd s.sock_fd s.open_fds (λ e. ne (sym e)) held in
    (ground (arith, still), ground (arith, still))

releases-is_open :
    (later : List SocketCalls) (fd : ℤ) (s : Socket)
    → ltb_ℤ fd (pos 0) ≡ false
    → s.sock_fd ≢ fd
    → is_open fd s.open_fds ≡ true
    → is_open fd (releases later s).open_fds ≡ true
releases-is_open [] fd s valid ne held = held
releases-is_open (calls ∷ later) fd s valid ne held =
    let (ne', held') = release-is_open calls fd s valid ne held in
    releases-is_open later fd (release calls s) valid ne' held'

module _ (calls : SocketCalls) (fuel : ℕ) (s : Socket) where
  connect_socket_keeps :
      (s' : Socket) (answer : Bool)
      → ltb_ℤ calls.socket (pos 0) ≡ false
      → connect_socket calls fuel s ≡ done (answer, s')
      → ((answer ≡ true) × (s'.sock_fd ≡ calls.socket) × Acked calls fuel)
        ⊎ ((answer ≡ false) × (s'.sock_fd ≡ s.sock_fd) × (s'.open_fds ≡ calls.socket ∷ s.open_fds))
  unfolding connect_socket
  connect_socket_keeps s' answer valid e = elim (Outcome-cases (receive_ack calls.recv fuel 0)) [
    | inl (none, run) ↦ inr (ground (arith, run))
    | inl (some bytes, run) ↦
        let (j, _, hi, found) = receive_ack_lem calls.recv fuel 0 bytes run in
        elim (Bool-cases answer) [
          | inl yes_ ↦
              inl (yes_, ground (arith, run), (j, bytes, omega arith, found, ground (arith, run)))
          | inr no_ ↦ inr (ground (arith, run))
        ]
    | inr (inl stuck) ↦ inr (ground (arith, stuck))
    | inr (inr broken) ↦ inr (ground (arith, broken))
  ]

  -- The set-up of the socket answers true only if the acknowledgement came, and then it keeps the
  -- descriptor. When it answers false after the socket was opened, the descriptor is not kept and stays
  -- open, whatever calls of `release` follow and whatever the system answers in them. The descriptor
  -- that was kept before is another one.
  pub connect_socket_lem :
      (s' : Socket) (answer : Bool)
      → ltb_ℤ calls.socket (pos 0) ≡ false
      → s.sock_fd ≢ calls.socket
      → connect_socket calls fuel s ≡ done (answer, s')
      → ((answer ≡ true) × (s'.sock_fd ≡ calls.socket) × Acked calls fuel)
        ⊎ ((answer ≡ false)
            × (s'.sock_fd ≡ s.sock_fd)
            × ((later : List SocketCalls)
                → is_open calls.socket (releases later s').open_fds ≡ true))
  connect_socket_lem s' answer valid other e = elim (connect_socket_keeps s' answer valid e) [
    | inl well ↦ inl well
    | inr (no_, same, opened) ↦ inr (
      no_,
      same,
      λ later.
          releases-is_open later calls.socket s' valid (λ z. other (sym same ∙ z))
            (ap (is_open calls.socket) opened ∙ ground arith),
    )
  ]

-- The bytes of the server's reply.
abbrev pub reply_bytes : LocatedResults → List ℕ
reply_bytes r =
    write32 itc_ethernet_message_locate_itc_server_reply
    ++ (write32 r.assigned_region_id ++ write32 r.itc_server_mbox_id)

closed_self : (fd : ℤ) (fds : List ℤ) → closed fd (fd ∷ fds) ≡ closed fd fds
unfolding closed
closed_self fd fds = ground arith

read_reply_bytes :
    (r : LocatedResults)
    → r.assigned_region_id < 2 ^ 32
    → r.itc_server_mbox_id < 2 ^ 32
    → read_reply (reply_bytes r)
      ≡ some
          (itc_ethernet_message_locate_itc_server_reply, r.assigned_region_id, r.itc_server_mbox_id)
read_reply_bytes r fits_region fits_server = ground arith

-- When the calls of the search succeed, a server that replies with a region is found with the ids
-- of its reply, and the descriptor of the search is closed.
pub locate_itc_server_lem :
    (calls : SocketCalls) (s : Socket) (r : LocatedResults)
    → ltb_ℤ calls.socket (pos 0) ≡ false
    → ltb_ℤ (calls.connect calls.socket) (pos 0) ≡ false
    → ltb_ℤ (calls.send_request calls.socket) (pos 0) ≡ false
    → calls.recv 0 ≡ received (reply_bytes r)
    → r.assigned_region_id < 2 ^ 32 - 1
    → r.itc_server_mbox_id < 2 ^ 32
    → locate_itc_server calls s
      ≡ (r, record s { is_itc_server_running = true; open_fds = closed calls.socket s.open_fds })
unfolding locate_itc_server take_reply
locate_itc_server_lem calls s r a b c e fits_region fits_server =
    ground
      (arith, read_reply_bytes r (omega arith) fits_server, closed_self calls.socket s.open_fds)

-- The calls of a process succeed: the socket is opened, connected, written to, closed, and the paths
-- are made and removed.
pub record Succeeds (calls : SocketCalls) : Type 0 where
  pub opened : ltb_ℤ calls.socket (pos 0) ≡ false
  pub connected : ltb_ℤ (calls.connect calls.socket) (pos 0) ≡ false
  pub requested : ltb_ℤ (calls.send_request calls.socket) (pos 0) ≡ false
  pub shut : (fd : ℤ) → ltb_ℤ (calls.close fd) (pos 0) ≡ false
  pub made : calls.create_path ≡ fs_ok
  pub removed : calls.remove_path ≡ fs_ok

-- A session whose calls succeed, with a server that replies with a region and acknowledges the
-- connection at once: the server is found, the set-up answers true, and after the release everything
-- is as before the session, with no descriptor open.
pub release-initialise-locate :
    (find connect : SocketCalls) (fuel : ℕ) (r : LocatedResults)
    → Succeeds find
    → Succeeds connect
    → find.recv 0 ≡ received (reply_bytes r)
    → connect.recv 0 ≡ received (97 ∷ 99 ∷ 107 ∷ 0 ∷ [])
    → r.assigned_region_id < 2 ^ 32 - 1
    → r.itc_server_mbox_id < 2 ^ 32
    → (s1 s2 : Socket) × (locate_itc_server find new_socket ≡ (r, s1))
      × (initialise connect (suc fuel) s1 ≡ done (true, s2))
      × (release connect s2 ≡ new_socket)
unfolding initialise connect_socket receive_ack release closed
release-initialise-locate find connect fuel r f c reply ack fits_region fits_server = (
  record new_socket { is_itc_server_running = true },
  record new_socket {
    is_itc_server_running = true;
    is_lsock_path_created = true;
    sock_fd = connect.socket;
    open_fds = connect.socket ∷ [];
  },
  ground (
    arith,
    locate_itc_server_lem find new_socket r f.opened f.connected f.requested reply fits_region
        fits_server,
  ),
  ground (arith, c.opened, c.connected, c.made),
  ground (arith, c.shut connect.socket, c.removed),
)
