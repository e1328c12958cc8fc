-- ===== src/Transport/Sysv/Receiver.antt =====
-- The state of `ItcTransportSysvMsgQueue` (sw/itc-common/src/itcTransportSysvMsgQueue.cc) with its
-- set-up and release, and the thread that receives from the queue of the region.
pub mod Rounds
use itc_platform.Common.{
  ℕ, zero, suc, ◌+◌, ◌-◌, ◌/◌, ◌^◌, ◌<◌, Bool, true, false, List, [], ◌∷◌, length, ltb, leb, ◌==◌,
  if◌then◌else◌, not, ℤ, pos, negsuc, eqb_ℤ, leb_ℤ, pos_part,
}
use itc_platform.Common.Outcome.{Outcome, done, waits, fault, ◌>>=◌}
use itc_platform.Message.{itc_mailbox_id_default}
use itc_platform.FileSystem.{FsCode, fs_ok}
use itc_platform.Transport.Local.{Region}
use itc_platform.Transport.Sysv.{minus_one, itc_region_id_shift}
use itc_platform.Transport.Sysv.Forward.{rx_accepts, parse_and_forward_message}
use itc_platform.Transport.Socket.{fs_succeeded}

pub record Endpoint : Type 0 where
  pub region_id : ℕ
  pub mbox_id : ℕ
  pub msg_queue_id : ℤ
  pub pid : ℤ
  pub thread_added : Bool
  pub is_initialised : Bool
  pub is_rx_thread_terminated : Bool
  pub max_msg_size : ℕ

-- `m_maxMsgSize` starts at the largest size_t.
abbrev pub new_endpoint : Endpoint
new_endpoint = record {
  region_id = itc_mailbox_id_default;
  mbox_id = itc_mailbox_id_default;
  msg_queue_id = minus_one;
  pid = minus_one;
  thread_added = false;
  is_initialised = false;
  is_rx_thread_terminated = false;
  max_msg_size = 2 ^ 64 - 1;
}

-- The answers of the calls: `stat` with the number of messages in the queue, `info` with its two
-- limits, `msgget` the first and the second time.
pub record EndpointCalls : Type 0 where
  pub create_path : FsCode
  pub getpid : ℤ
  pub key_create : ℤ
  pub key_delete : ℤ
  pub prctl : ℤ
  pub create_mailbox : ℕ
  pub set_specific : ℤ
  pub ftok : ℕ → ℤ
  pub msgget : ℤ → ℤ
  pub msgget_again : ℤ → ℤ
  pub stat : ℤ → ℤ × ℕ
  pub remove : ℤ → ℤ
  pub info : ℤ × ℤ × ℤ

abbrev pub is_zero : ℤ → Bool
is_zero ret = eqb_ℤ ret (pos 0)

unfoldable pub initialise : EndpointCalls → ℕ → Endpoint → Bool × Endpoint
initialise calls region_id s =
    if s.is_initialised
    then (false, s)
    else if not (fs_succeeded calls.create_path)
    then (false, s)
    else let s1 : Endpoint = record s { pid = calls.getpid; region_id = region_id } in
      if not (is_zero calls.key_create)
      then (false, s1)
      else (true, record s1 { thread_added = true; is_initialised = true })

unfoldable pub release : EndpointCalls → Endpoint → Endpoint
release calls s =
    if not s.is_initialised
    then s
    else if not (is_zero calls.key_delete)
    then s
    else record s { is_rx_thread_terminated = true; is_initialised = false }

unfoldable pub get_max_message_size : EndpointCalls → Endpoint → ℕ × Endpoint
get_max_message_size calls s =
    if ltb 0 s.max_msg_size
    then (s.max_msg_size, s)
    else let (ret, msgmax, msgmnb) = calls.info in
      if eqb_ℤ ret minus_one
      then (0, s)
      else let least = pos_part (if leb_ℤ msgmax msgmnb then msgmax else msgmnb) in
        (least, record s { max_msg_size = least })

unfoldable pub destruct_rx_thread : Endpoint → Endpoint
destruct_rx_thread s = if eqb_ℤ s.msg_queue_id minus_one then s else record s {
  is_rx_thread_terminated = true;
  is_initialised = false;
  msg_queue_id = minus_one;
}

-- `new uint8_t[m_maxMsgSize]`: more than half of the address space is refused with an exception that
-- nobody catches, here a fault.
unfoldable pub allocate_buffer : EndpointCalls → Endpoint → Outcome (Bool × Endpoint)
allocate_buffer calls s =
    let (size, s') = get_max_message_size calls s in
    if leb (2 ^ 63) s'.max_msg_size then fault else done (true, s')

-- A queue that holds messages is removed and made again.
unfoldable pub empty_queue : EndpointCalls → ℤ → Endpoint → Outcome (Bool × Endpoint)
empty_queue calls key s =
    let (ret, messages) = calls.stat s.msg_queue_id in
    if eqb_ℤ ret minus_one
    then done (false, s)
    else if messages == 0
    then allocate_buffer calls s
    else if eqb_ℤ (calls.remove s.msg_queue_id) minus_one
    then done (false, s)
    else let s' : Endpoint = record s { msg_queue_id = calls.msgget_again key } in
      if eqb_ℤ s'.msg_queue_id minus_one then done (false, s') else allocate_buffer calls s'

-- `sysvMsgQueueRxThread` before its loop: the answer is false where the thread returns.
unfoldable pub open_queue : EndpointCalls → Endpoint → Outcome (Bool × Endpoint)
open_queue calls s =
    if eqb_ℤ calls.prctl minus_one
    then done (false, s)
    else let s1 : Endpoint = record s { mbox_id = calls.create_mailbox } in
      let key = calls.ftok (s.region_id / 2 ^ itc_region_id_shift) in
      if not (is_zero calls.set_specific)
      then done (false, s1)
      else if eqb_ℤ key minus_one
      then done (false, s1)
      else let s2 : Endpoint = record s1 { msg_queue_id = calls.msgget key } in
        if eqb_ℤ s2.msg_queue_id minus_one then done (false, s2) else empty_queue calls key s2

-- What a round of the loop meets: the flag that ends the thread, a failed `msgrcv`, or a message with
-- its type in front.
pub data RxEvent : Type 0 where
  stop rx_failed : RxEvent
  arrived : List ℕ → RxEvent

-- The loop of `sysvMsgQueueRxThread`, whose length does not count the eight bytes of the type. What
-- `parseAndForwardMessage` answers is not read.
unfoldable pub rx_loop : (ℕ → ℕ) → List RxEvent → Region → Outcome Region
rx_loop junk [] r = done r
rx_loop junk (stop ∷ events) r = done r
rx_loop junk (rx_failed ∷ events) r = rx_loop junk events r
rx_loop junk (arrived frame ∷ events) r =
    if rx_accepts (length frame - 8)
    then (do
      (forwarded, r') ← parse_and_forward_message junk frame (length frame) r
      rx_loop junk events r')
    else rx_loop junk events r
