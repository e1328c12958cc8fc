-- ===== src/Transport/Sysv/Forward.antt =====
-- `parseAndForwardMessage` of sw/itc-common/src/itcTransportSysvMsgQueue.cc, with the test of
-- `sysvMsgQueueRxThread` before it: what the receiving region does with the bytes of a queue.
pub mod Arrive
use itc_platform.Common.{
  ℕ, ◌+◌, ◌-◌, ◌*◌, ◌%◌, ◌^◌, Bool, true, false, Option, none, some, List, ◌++◌, ltb, leb, ◌==◌,
  if◌then◌else◌, not, take, drop, get_elem?,
}
use itc_platform.Common.Outcome.{Outcome, done, waits, fault}
use itc_platform.Message.{
  Message, Heap, allocate, store, endpoint, read32, itc_admin_message_endpoint,
}
use itc_platform.Message.Bytes.{encode, decode, ◌>>=◌}
use itc_platform.Transport.Local
use itc_platform.Transport.Local.{Region, ReturnCode, itc_ok}
use itc_platform.Transport.Sysv.{flat_size}

-- `sizeof(long) + ITC_ADMIN_MESSAGE_MIN_SIZE`.
abbrev pub min_rx_len : ℕ
min_rx_len = 8 + 21

-- The thread hands on what is longer than that.
unfoldable pub rx_accepts : ℕ → Bool
rx_accepts rx_len = not (leb rx_len min_rx_len)

-- `*reinterpret_cast<long *>(rxBuffer)` and the bytes behind.
abbrev pub read_long : List ℕ → Option (ℕ × List ℕ)
read_long bytes = do (lo, r1) ← read32 bytes; (hi, r2) ← read32 r1; some (lo + 2 ^ 32 * hi, r2)

-- `cMemcpy(dst, src, n)`.
abbrev pub memcpy : List ℕ → List ℕ → ℕ → List ℕ
memcpy dst src n = take n src ++ drop n dst

-- The new message, with the bytes of the received one copied over it and its flags put back.
unfoldable pub copy_message : Message → Message → Option Message
copy_message new rx = do
  copied ← decode (memcpy (encode new) (encode rx) (flat_size rx.size))
  some (record copied { flags = new.flags })

-- From the allocation on. A read past the buffer, a write through nullptr are faults.
unfoldable pub forward_message : (ℕ → ℕ) → Message → Region → Outcome (Bool × Region)
forward_message junk rx r = elim (read32 rx.body) [
  | none ↦ fault
  | some (msgno, _) ↦
      let (p, h) = allocate junk msgno rx.size r.heap in
      elim (h.cell p) [
        | none ↦ fault
        | some new ↦ elim (copy_message new rx) [
          | none ↦ fault
          | some copied ↦ elim (Local.send p (record r { heap = store h p copied })) [
            | waits ↦ waits
            | fault ↦ fault
            | done (itc_ok, r') ↦ done (true, r')
            | done (_, r') ↦ done (false, r')
          ]
        ]
      ]
]

-- The buffer is the memory of `rxBuffer`, the length is what the caller says was received.
unfoldable pub parse_and_forward_message : (ℕ → ℕ) → List ℕ → ℕ → Region → Outcome (Bool × Region)
parse_and_forward_message junk rx_buffer len r = elim (read_long rx_buffer) [
  | none ↦ fault
  | some (msgno, bytes) ↦ if not (msgno == 1) then done (false, r) else elim (decode bytes) [
    | none ↦ fault
    | some rx ↦
        if ltb ((len + 2 ^ 64 - 8) % 2 ^ 64) (flat_size rx.size)
        then done (false, r)
        else elim (endpoint rx) [
          | none ↦ fault
          | some byte ↦
              if not (byte == itc_admin_message_endpoint)
              then done (false, r)
              else forward_message junk rx r
        ]
  ]
]
