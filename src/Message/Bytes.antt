-- ===== src/Message/Bytes.antt =====
-- A message as the bytes that are copied between processes (sw/itc-common/inc/itcAdminMessage.h).
use itc_platform.Common.{ℕ, ◌^◌, ◌<◌, ◌≡◌, arith, Option, none, some, List, ◌++◌}
use itc_platform.Message.{Message, write32, read32}

infixl 5 ◌>>=◌
abbrev pub ◌>>=◌ {ℓ κ} : {A : Type ℓ} {B : Type κ} → Option A → (A → Option B) → Option B
none >>= f = none
some a >>= f = f a

-- The memory of a message from its address on, field by field.
abbrev pub preamble : Message → List ℕ
preamble m = write32 m.sender ++ (write32 m.receiver ++ (write32 m.flags ++ write32 m.size))

unfoldable pub encode : Message → List ℕ
encode m =
    write32 m.sender ++ (write32 m.receiver ++ (write32 m.flags ++ (write32 m.size ++ m.body)))

-- Memory read as a message.
unfoldable pub decode : List ℕ → Option Message
decode bytes = do
  (sender, r1) ← read32 bytes
  (receiver, r2) ← read32 r1
  (flags, r3) ← read32 r2
  (size, body) ← read32 r3
  some (record { sender = sender; receiver = receiver; flags = flags; size = size; body = body })

-- The header fields are uint32_t values.
pub record HasWords (m : Message) : Type 0 where
  pub sender_fits : m.sender < 2 ^ 32
  pub receiver_fits : m.receiver < 2 ^ 32
  pub flags_fit : m.flags < 2 ^ 32
  pub size_fits : m.size < 2 ^ 32

pub read32-write32 :
    (x : ℕ) (rest : List ℕ) → x < 2 ^ 32 → read32 (write32 x ++ rest) ≡ some (x, rest)
read32-write32 x rest h = ground arith

-- What is written as the bytes of a message reads back as that message.
pub decode-encode : (m : Message) → HasWords m → decode (encode m) ≡ some m
unfolding decode encode
decode-encode m w = ground (
  arith,
  read32-write32 m.sender (write32 m.receiver ++ (write32 m.flags ++ (write32 m.size ++ m.body))),
  read32-write32 m.receiver (write32 m.flags ++ (write32 m.size ++ m.body)),
  read32-write32 m.flags (write32 m.size ++ m.body),
  read32-write32 m.size m.body,
)
