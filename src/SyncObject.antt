-- ===== src/SyncObject.antt =====
-- sw/itc-common/src/itcSyncObject.cc with its header, and `getTimeDiffInNanoSec` of
-- sw/itc-common/src/itcMutex.cc: what a thread waits on while it is started, until when, and which
-- resources of the system stand behind it.
pub mod Dates
pub mod Locking
pub mod Resources
use itc_platform.Common.{
  ℕ, ◌+◌, ◌-◌, ◌*◌, ◌/◌, ◌%◌, ◌^◌, Bool, true, false, ltb, leb, ◌==◌, ◌&&◌, if◌then◌else◌, not, ℤ,
  pos, negsuc, ltb_ℤ, eqb_ℤ,
}

-- `struct timespec`.
pub record Time : Type 0 where
  pub sec : ℕ
  pub nsec : ℕ

abbrev pub billion : ℕ
billion = 1000000000

-- `calculateExpiredDate` at the time `now`, for a timeout in milliseconds.
unfoldable pub calculate_expired_date : Time → ℕ → Time
calculate_expired_date now relative_timeout =
    let sec = now.sec + relative_timeout / 1000 in
    let nsec = now.nsec + relative_timeout % 1000 * 1000000 in
    if leb billion nsec
    then record { sec = sec + 1; nsec = nsec - billion }
    else record { sec = sec; nsec = nsec }

-- `getTimeDiffInNanoSec`, on an unsigned 64-bit number.
unfoldable pub time_diff_in_nano_sec : Time → Time → ℕ
time_diff_in_nano_sec t_start t_end =
    let seconds = (t_end.sec + 2 ^ 64 - t_start.sec) * billion in
    if ltb t_end.nsec t_start.nsec
    then (seconds + 2 ^ 64 - (t_start.nsec - t_end.nsec)) % 2 ^ 64
    else (seconds + (t_end.nsec - t_start.nsec)) % 2 ^ 64

-- Which of the elements of a sync object have been set up and not destroyed.
pub record Live : Type 0 where
  pub cond_attrs : Bool
  pub mtx_attrs : Bool
  pub cond : Bool
  pub mtx : Bool
  pub event_fd : Bool

abbrev pub nothing_live : Live
nothing_live = record {
  cond_attrs = false;
  mtx_attrs = false;
  cond = false;
  mtx = false;
  event_fd = false;
}

pub record SyncObject : Type 0 where
  pub fd : ℤ
  pub fd_event_counter : ℕ
  pub live : Live
  pub is_initialised : Bool

-- What the constructor starts from.
abbrev pub no_elements : SyncObject
no_elements = record {
  fd = negsuc 0;
  fd_event_counter = 0;
  live = nothing_live;
  is_initialised = false;
}

-- The answers of the pthread calls, of the function that the constructor is given, with the event
-- counter that it sets, of `eventfd` and of `write`.
pub record InitCalls : Type 0 where
  pub cond_attr_init : ℤ
  pub mutex_attr_init : ℤ
  pub setup_elems : ℤ × ℕ
  pub cond_init : ℤ
  pub mutex_init : ℤ
  pub eventfd : ℤ
  pub write : ℤ

abbrev pub refused : ℤ → Bool
refused ret = not (eqb_ℤ ret (pos 0))

-- `init` on fresh elements.
unfoldable pub init : InitCalls → SyncObject
init calls =
    let (setup, counter) = calls.setup_elems in
    let s1 : SyncObject = record no_elements { live = record nothing_live { cond_attrs = true } } in
    let s2 : SyncObject = record s1 { live = record (s1.live) { mtx_attrs = true } } in
    let s3 : SyncObject = record s2 { fd_event_counter = counter } in
    let s4 : SyncObject = record s3 { live = record (s3.live) { cond = true } } in
    let s5 : SyncObject = record s4 { live = record (s4.live) { mtx = true } } in
    let s6 : SyncObject = record s5 {
      live = record (s5.live) { event_fd = true };
      fd = calls.eventfd;
    } in
    if refused calls.cond_attr_init
    then no_elements
    else if refused calls.mutex_attr_init
    then s1
    else if refused setup
    then s3
    else if refused calls.cond_init
    then s3
    else if refused calls.mutex_init
    then s4
    else if eqb_ℤ calls.eventfd (negsuc 0)
    then s5
    else if not (counter == 0) && ltb_ℤ calls.write (pos 0)
    then s6
    else record s6 { is_initialised = true }

-- `reset`: what the destroying calls answer is only traced.
unfoldable pub reset : SyncObject → SyncObject
reset s = if not s.is_initialised then s else record s {
  fd = negsuc 0;
  live = record nothing_live {
    event_fd = if eqb_ℤ s.fd (negsuc 0) then s.live.event_fd else false;
  };
  is_initialised = false;
}
