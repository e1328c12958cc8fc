-- ===== src/Examples/Systems.antt =====
-- A file system (sw/itc-common/src/itcFileSystem.cc) and the server (sw/itc-common/src/itcTransportLSocket.cc).
use itc_platform.Common.{
  List, ◌⊎◌, true, false, ℕ, ◌+◌, ◌≤◌, ◌<◌, ◌≡◌, ◌≢◌, refl, arith, [], ◌∷◌, length, not, leb, pos,
  negsuc, if◌then◌else◌,
}
use itc_platform.Common.Outcome.{done}
use itc_platform.FileSystem.{
  Filesystem, FilePath, answers, regular_file, fs_ok, create_path, parent_path,
}
use itc_platform.FileSystem.Creating.{IsDocumented, create_path-missing}
use itc_platform.Transport
use itc_platform.Transport.Socket.{
  Socket, SocketCalls, LocatedResults, received, interrupted, recv_error, new_socket,
  connect_socket, initialise, release, closed, locate_itc_server,
}
use itc_platform.Transport.Socket.Server.{
  Acked, is_open, releases, Succeeds, reply_bytes, connect_socket_lem, release-initialise-locate,
}

-- A file system with one branch: a path exists when it is no longer than the branch.
abbrev branch : Filesystem ℕ
branch = record {
  fs_exists = λ path depth. answers (leb (length path) depth);
  is_directory = λ path depth. answers (leb (length path) depth);
  is_regular_file = λ path depth. answers false;
  create_directories =
      λ path depth. answers (false, if leb (length path) depth then depth else length path);
  open_for_write = λ path depth. (leb (length path) depth, depth);
  permissions = λ path depth. answers (not (leb (length path) depth), depth);
  remove = λ path depth. answers depth;
  remove_all = λ path depth. answers depth;
  access = λ path depth. if leb (length path) depth then 0 else 1;
}

length-parent_path : (path : FilePath) → length (parent_path path) + 1 ≤ length path + 1
length-parent_path [] = omega arith
length-parent_path (name ∷ []) = omega arith
length-parent_path (name ∷ next ∷ rest) = omega (arith, length-parent_path (next ∷ rest))

shorter : (path : FilePath) → 0 < length path → length (parent_path path) < length path
shorter [] h = h
shorter (name ∷ []) h = omega arith
shorter (name ∷ next ∷ rest) h = omega (arith, shorter (next ∷ rest) (omega arith))

branch-IsDocumented : IsDocumented branch
branch-IsDocumented = record {
  no_file = λ path s missing. refl;
  no_mode = λ path s missing. ground arith;
  still_missing = λ path s s' err plain missing e. ground (arith, shorter path);
  mode_makes_nothing = λ path other s s' err missing e. ground arith;
}

abbrev queue_file : FilePath
queue_file = "/" ∷ "tmp" ∷ "itc" ∷ "sysvmsq" ∷ "sysvmq-file" ∷ []

create_path-missing_example : (create_path branch regular_file 2 queue_file 2).0 ≢ fs_ok
create_path-missing_example =
    create_path-missing branch-IsDocumented 2 queue_file 2 refl refl (omega arith)

abbrev server : LocatedResults
server = record { assigned_region_id = 0x00500000; itc_server_mbox_id = 0x00100001 }

abbrev pub finding : SocketCalls
finding = record {
  create_path = fs_ok;
  remove_path = fs_ok;
  socket = pos 4;
  connect = λ fd. pos 0;
  send_request = λ fd. pos 8;
  recv = λ k. received (reply_bytes server);
  close = λ fd. pos 0;
}

abbrev pub connecting : SocketCalls
connecting = record finding { recv = λ k. received (97 ∷ 99 ∷ 107 ∷ 0 ∷ []) }

finding-Succeeds : Succeeds finding
finding-Succeeds = record {
  opened = refl;
  connected = refl;
  requested = refl;
  shut = λ fd. refl;
  made = refl;
  removed = refl;
}

connecting-Succeeds : Succeeds connecting
connecting-Succeeds = record {
  opened = refl;
  connected = refl;
  requested = refl;
  shut = λ fd. refl;
  made = refl;
  removed = refl;
}

abbrev connected_socket : Socket
connected_socket = record new_socket { sock_fd = pos 4; open_fds = pos 4 ∷ [] }

-- The server does not acknowledge.
abbrev unanswered : SocketCalls
unanswered = record connecting { recv = λ k. recv_error }

abbrev left_open : Socket
left_open = record new_socket { open_fds = pos 4 ∷ [] }

connects : connect_socket unanswered 3 new_socket ≡ done (false, left_open)
unfolding connect_socket Transport.Socket.receive_ack
connects = refl

connect_socket_example :
    ((false ≡ true) × (left_open.sock_fd ≡ pos 4) × Acked unanswered 3)
    ⊎ ((false ≡ false)
        × (left_open.sock_fd ≡ negsuc 0)
        × ((later : List SocketCalls) → is_open (pos 4) (releases later left_open).open_fds ≡ true))
connect_socket_example =
    connect_socket_lem unanswered 3 new_socket left_open false refl (λ e. absurd (ground arith))
      connects

release-initialise-locate_example :
    (s1 s2 : Socket) × (locate_itc_server finding new_socket ≡ (server, s1))
    × (initialise connecting 1 s1 ≡ done (true, s2))
    × (release connecting s2 ≡ new_socket)
release-initialise-locate_example =
    release-initialise-locate finding connecting 0 server finding-Succeeds connecting-Succeeds refl
      refl (omega arith) (omega arith)
