-- ===== src/Message.antt =====
-- sw/itc-common/inc/itcAdminMessage.h, with the constants of sw/itc-api/if/itc.h that it uses: the
-- layout of a message in memory, and its allocation and deallocation on a heap.
pub mod Bytes
pub mod Laws
use itc_platform.Common.{
  ℕ, zero, suc, ◌+◌, ◌-◌, ◌*◌, ◌%◌, ◌/◌, ◌^◌, Bool, true, false, Option, none, some, List, [], ◌∷◌,
  ◌++◌, ltb, ◌==◌, if◌then◌else◌, get_elem?, bit_and, not, dec_lt, ℕ_discrete,
}
use itc_platform.Common.Family.{update}

abbrev pub itc_mailbox_id_default : ℕ
itc_mailbox_id_default = 0xffffffff

abbrev pub itc_message_msgno_size : ℕ
itc_message_msgno_size = 4

abbrev pub itc_admin_message_preamble_size : ℕ
itc_admin_message_preamble_size = 16

abbrev pub itc_admin_message_endpoint : ℕ
itc_admin_message_endpoint = 0xaa

abbrev pub itc_flag_message_in_rx_queue : ℕ
itc_flag_message_in_rx_queue = 1

-- `ItcAdminMessage`. `body` is the memory from `msgno` on: the message number, the user's payload
-- and the endpoint byte, as many bytes as were allocated.
pub record Message : Type 0 where
  pub sender : ℕ
  pub receiver : ℕ
  pub flags : ℕ
  pub size : ℕ
  pub body : List ℕ

-- A uint32_t in memory, low byte first.
abbrev pub write32 : ℕ → List ℕ
write32 x = x % 256 ∷ x / 256 % 256 ∷ x / 65536 % 256 ∷ x / 16777216 % 256 ∷ []

abbrev pub read32 : List ℕ → Option (ℕ × List ℕ)
read32 (a ∷ b ∷ c ∷ d ∷ rest) = some (a + 256 * b + 65536 * c + 16777216 * d, rest)
read32 _ = none

-- The bytes that `new uint8_t[n]` leaves as it finds them.
abbrev pub uninitialised : (ℕ → ℕ) → ℕ → List ℕ
uninitialised junk zero = []
uninitialised junk (suc n) = junk n ∷ uninitialised junk n

-- Addresses from 1 on; 0 is nullptr.
pub record Heap : Type 0 where
  pub next : ℕ
  pub cell : ℕ → Option Message

abbrev pub store : Heap → ℕ → Message → Heap
store h p m = record h { cell = update h.cell p (some m) }

abbrev pub free : Heap → ℕ → Heap
free h p = record h { cell = update h.cell p none }

-- The message that `ItcAdminMessageHelper::allocate` sets up. The field `size` is a uint32_t, the
-- argument a size_t.
unfoldable pub fresh_message : (ℕ → ℕ) → ℕ → ℕ → Message
fresh_message junk msgno size = record {
  sender = itc_mailbox_id_default;
  receiver = itc_mailbox_id_default;
  flags = 0;
  size = size % 2 ^ 32;
  body =
      write32 msgno
      ++ (uninitialised junk (size - itc_message_msgno_size) ++ (itc_admin_message_endpoint ∷ []));
}

-- `ItcAdminMessageHelper::allocate`: the pointer, and the heap with the new message.
unfoldable pub allocate : (ℕ → ℕ) → ℕ → ℕ → Heap → ℕ × Heap
allocate junk msgno size h = if ltb size itc_message_msgno_size then (0, h) else (
  h.next,
  record { next = suc h.next; cell = update h.cell h.next (some (fresh_message junk msgno size)) },
)

-- `GET_ITC_ADMIN_MESSAGE_ENDPOINT`, read: `none` is a read past the memory of the message.
abbrev pub endpoint : Message → Option ℕ
endpoint m = get_elem? m.body m.size

-- The tests of `ItcAdminMessageHelper::deallocate` on a message.
unfoldable pub may_deallocate : Message → Option Bool
may_deallocate m =
    if not (bit_and m.flags itc_flag_message_in_rx_queue == 0)
    then some false
    else elim (endpoint m) [ none ↦ none | some byte ↦ some (byte == itc_admin_message_endpoint) ]

-- `ItcAdminMessageHelper::deallocate`. `none` is an access outside live memory.
unfoldable pub deallocate : ℕ → Heap → Option (Bool × Heap)
deallocate zero h = some (true, h)
deallocate (suc p) h = elim (h.cell (suc p)) [
  | none ↦ none
  | some m ↦ elim (may_deallocate m) [
    | none ↦ none
    | some true ↦ some (true, free h (suc p))
    | some false ↦ some (false, h)
  ]
]
