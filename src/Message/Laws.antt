-- ===== src/Message/Laws.antt =====
-- What allocation and deallocation of sw/itc-common/inc/itcAdminMessage.h promise each other.
use native.Mathlib.Nat.{mod-eq_of_lt}
use itc_platform.Common.{
  ℕ, zero, suc, ◌+◌, ◌-◌, ◌^◌, ◌≤◌, ◌<◌, ◌≡◌, ◌≢◌, refl, arith, Bool, true, false, none, some, [],
  ◌∷◌, ◌++◌, length, get_elem?, bit_and, ◌==◌, ◌&&◌, if◌then◌else◌,
}
use itc_platform.Message.{
  Message, Heap, allocate, deallocate, fresh_message, may_deallocate, endpoint, uninitialised, free,
  itc_admin_message_endpoint,
}
use itc_platform.Common.Family.{update}

-- The endpoint byte is in its place, and the message is in no receive queue.
pub record IsWhole (m : Message) : Type 0 where
  pub queued : bit_and m.flags 1 ≡ 0
  pub ended : endpoint m ≡ some itc_admin_message_endpoint
  pub fits : m.size < 2 ^ 32
  pub room : length m.body ≡ m.size + 1

endpoint-fresh :
    (junk : ℕ → ℕ) (n : ℕ)
    → get_elem? (uninitialised junk n ++ (itc_admin_message_endpoint ∷ [])) n
      ≡ some itc_admin_message_endpoint
endpoint-fresh junk zero = refl
endpoint-fresh junk (suc n) = endpoint-fresh junk n

length-fresh :
    (junk : ℕ → ℕ) (n : ℕ)
    → length (uninitialised junk n ++ (itc_admin_message_endpoint ∷ [])) ≡ n + 1
length-fresh junk zero = refl
length-fresh junk (suc n) = omega (arith, length-fresh junk n)

-- The size as the four bytes of the message number and the rest.
size_parts : (size : ℕ) → 4 ≤ size → size ≡ suc (suc (suc (suc (size - 4))))
size_parts size h = omega arith

pub fresh_message-IsWhole :
    (junk : ℕ → ℕ) (msgno size : ℕ)
    → 4 ≤ size
    → size < 2 ^ 32
    → IsWhole (fresh_message junk msgno size)
unfolding fresh_message
fresh_message-IsWhole junk msgno size h k = record {
  queued = refl;
  ended = rw (mod-eq_of_lt k) (rw (size_parts size h) (endpoint-fresh junk (size - 4)));
  fits = omega arith;
  room = omega (arith, length-fresh junk (size - 4));
}

-- Deallocation of a live message frees it and answers true when it is in no receive queue and its
-- endpoint byte is intact; in every other case it answers false and leaves the heap alone.
pub deallocate-live :
    (p : ℕ) (m : Message) (h : Heap)
    → h.cell (suc p) ≡ some m
    → (byte : ℕ) → endpoint m ≡ some byte
    → deallocate (suc p) h ≡ (
        if (bit_and m.flags 1 == 0) && (byte == itc_admin_message_endpoint)
        then some (true, free h (suc p))
        else some (false, h))
unfolding deallocate may_deallocate
deallocate-live p m h e byte b = ground arith

pub deallocate-whole :
    (p : ℕ) (m : Message) (h : Heap)
    → 0 < p
    → h.cell p ≡ some m
    → IsWhole m
    → deallocate p h ≡ some (true, free h p)
unfolding deallocate may_deallocate
deallocate-whole zero m h pos e w = absurd (omega arith)
deallocate-whole (suc p) m h pos e w = ground (arith, w.queued, w.ended)

pub deallocate-freed : (p : ℕ) (h : Heap) → 0 < p → h.cell p ≡ none → deallocate p h ≡ none
unfolding deallocate
deallocate-freed zero h pos e = absurd (omega arith)
deallocate-freed (suc p) h pos e = ground arith

pub allocate_lem :
    (junk : ℕ → ℕ) (msgno size : ℕ) (h : Heap)
    → 4 ≤ size
    → allocate junk msgno size h ≡ (
      h.next,
      record {
        next = suc h.next;
        cell = update h.cell h.next (some (fresh_message junk msgno size));
      },
    )
unfolding allocate
allocate_lem junk msgno size h a = ground arith

-- What allocation of four bytes or more, of a size below 2^32, returns is not null and can be
-- deallocated, which frees it; a second deallocation touches freed memory, a fault that shows as
-- `none`. The heap gives no nullptr.
pub allocate-deallocate :
    (junk : ℕ → ℕ) (msgno size : ℕ) (h : Heap)
    → 4 ≤ size
    → size < 2 ^ 32
    → 0 < h.next
    → let (p, h') = allocate junk msgno size h in
      (p ≢ 0) × (deallocate p h' ≡ some (true, free h' p)) × (deallocate p (free h' p) ≡ none)
allocate-deallocate junk msgno size h a b c = rw (allocate_lem junk msgno size h a) (
  (λ e. absurd (omega arith)),
  deallocate-whole h.next _ _ c (ground arith) (fresh_message-IsWhole junk msgno size a b),
  deallocate-freed h.next _ c (ground arith),
)

pub deallocate-frees :
    (a : ℕ) (h h' : Heap) → 0 < a → deallocate a h ≡ some (true, h') → h'.cell a ≡ none
unfolding deallocate may_deallocate
deallocate-frees zero h h' pos e = absurd (omega arith)
deallocate-frees (suc a) h h' pos e = ground arith

pub deallocate-keeps :
    (a b : ℕ) (h h' : Heap) (freed : Bool)
    → a ≢ b
    → deallocate b h ≡ some (freed, h')
    → h'.cell a ≡ h.cell a
unfolding deallocate may_deallocate
deallocate-keeps a zero h h' freed ne e = ground arith
deallocate-keeps a (suc b) h h' freed ne e = ground arith
