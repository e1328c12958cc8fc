-- ===== src/Queue/Threads/Settle.antt =====
-- How the operations that hold an index of a shared queue (sw/itc-common/inc/itcLockFreeQueue.h) come
-- to their end.
use itc_platform.Common.{
  ℕ, zero, suc, ◌+◌, ◌<◌, ◌≤◌, ◌≡◌, ap, arith, true, false, inl, inr, if◌then◌else◌,
}
use itc_platform.Common.Family.{total, total-update}
use itc_platform.Queue.{Config}
use itc_platform.Queue.Slots.{IsConfig}
use itc_platform.Queue.Threads.{
  Pc, idle, System, Move, push_add, push_load, push_full, push_room, push_win, push_lose, store,
  store_wait, pop_add, pop_load, pop_empty, pop_more, pop_win, pop_lose, take, take_wait, by, Reach,
  later,
}
use itc_platform.Queue.Threads.Conserve.{waits}
use itc_platform.Queue.Threads.Balance.{pushes, pops, holds}
use itc_platform.Queue.Threads.Progress.{Ends, can_end, room-CanEnd}

-- The threads that hold an index end one after the other, until there is none.
pub data Settles (c : Config) (n : ℕ) : System → Type 0 where
  settled : {s : System} → ((i : ℕ) → i < n → holds (s.pc i) ≡ false) → Settles c n s
  one_ends : {s t : System} → Ends c n s t → Settles c n t → Settles c n s

abbrev held : Pc → ℕ
held p = if holds p then 1 else 0

-- An operation that ends grants no index, and is one less that holds one.
Move-ends :
    {c : Config} {n : ℕ} {s : System} (i : ℕ) {t : System}
    → i < n
    → Move c s i t
    → holds (s.pc i) ≡ true
    → t.pc i ≡ idle
    → (pushes t ≡ pushes s) × (pops n t ≡ pops n s) × (total held n t.pc < total held n s.pc)
Move-ends {n = n} {s = s} i lt (store e g) h d = ground (
  arith,
  ap waits e,
  ap held e,
  total-update waits n s.pc i idle lt,
  total-update held n s.pc i idle lt,
)
Move-ends {n = n} {s = s} i lt (take e g) h d = ground (
  arith,
  ap waits e,
  ap held e,
  total-update waits n s.pc i idle lt,
  total-update held n s.pc i idle lt,
)
Move-ends i lt (store_wait e) h d = absurd (ground (arith, ap held e, ap held d))
Move-ends i lt (take_wait e g) h d = absurd (ground (arith, ap held e, ap held d))
Move-ends i lt (push_add x e ne) h d = absurd (ground (arith, ap held e))
Move-ends i lt (push_load x e ne) h d = absurd (ground (arith, ap held e))
Move-ends i lt (push_full e g) h d = absurd (ground (arith, ap held e))
Move-ends i lt (push_room e g) h d = absurd (ground (arith, ap held e))
Move-ends i lt (push_win e g) h d = absurd (ground (arith, ap held e))
Move-ends i lt (push_lose e) h d = absurd (ground (arith, ap held e))
Move-ends i lt (pop_add e) h d = absurd (ground (arith, ap held e))
Move-ends i lt (pop_load e) h d = absurd (ground (arith, ap held e))
Move-ends i lt (pop_empty e g) h d = absurd (ground (arith, ap held e))
Move-ends i lt (pop_more e g) h d = absurd (ground (arith, ap held e))
Move-ends i lt (pop_win e g) h d = absurd (ground (arith, ap held e))
Move-ends i lt (pop_lose e) h d = absurd (ground (arith, ap held e))

Ends-kept :
    {c : Config} {n : ℕ} {s t : System}
    → Ends c n s t
    → (pushes t ≡ pushes s) × (pops n t ≡ pops n s) × (total held n t.pc < total held n s.pc)
Ends-kept e = Move-ends e.thread e.within e.move e.holding e.done

module _ {c : Config} (v : IsConfig c) {n : ℕ} where
  settle :
      (fuel : ℕ) {s : System}
      → total held n s.pc < fuel
      → Reach c n s
      → pops n s ≤ pushes s
      → pushes s ≤ pops n s + c.size
      → Settles c n s
  settle zero few r enough room = absurd (omega arith)
  settle (suc fuel) few r enough room = elim (room-CanEnd v r enough room) [
    | inl (can_end t e) ↦ one_ends e (
        settle fuel (omega (arith, Ends-kept e)) (later r (by e.thread e.within e.move))
          (omega (arith, Ends-kept e)) (omega (arith, Ends-kept e)))
    | inr none_left ↦ settled none_left
  ]

  -- In a valid configuration, in every state that the threads reach: while no more pops than pushes have
  -- been granted an index, and at most `size` more pushes than pops, the operations that hold one can
  -- all be brought to their end, by one access each and with no further operation begun.
  pub room-Settles :
      {s : System}
      → Reach c n s
      → pops n s ≤ pushes s
      → pushes s ≤ pops n s + c.size
      → Settles c n s
  room-Settles {s} r enough room = settle (suc (total held n s.pc)) (omega arith) r enough room
