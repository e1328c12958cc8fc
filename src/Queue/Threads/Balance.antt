-- ===== src/Queue/Threads/Balance.antt =====
-- What the threads that hold an index of a shared queue (sw/itc-common/inc/itcLockFreeQueue.h) may
-- wait for, cell by cell.
pub mod Kept
use native.Mathlib.Nat.{mod-mod_of_dvd, mod-eq_of_lt}
use itc_platform.Common.{
  ℕ, ◌+◌, ◌∷◌, ℕ_discrete, Bool, true, false, ◌%◌, ◌<◌, ◌≡◌, ◌≢◌, refl, ◌⊎◌, inl, inr, sym, ap, ◌∙◌,
  arith, length,
}
use itc_platform.Common.Family.{update, update_self, update_ne, total, total-update, total-eq-zero}
use itc_platform.Queue.{Config, slot, remap_index, succ32}
use itc_platform.Queue.Slots.{IsConfig, mod_of_slot}
use itc_platform.Queue.Threads.{
  Pc, idle, push_full, pop_load, pop_empty, pop_more, pop_lose, storing, taking, System, init, Move,
  push_add, push_load, push_room, push_lose, push_win, store, store_wait, pop_add, pop_win, take,
  take_wait, by, Reach, start, later,
}
use itc_platform.Queue.Threads.Conserve.{Inv, Reach-Inv, waits, unit_weight}
use itc_platform.Queue.Threads.Visits.{hit, visits, visits-suc}

-- A thread that has an index of the remainder `r` to store at, or to take from.
abbrev pub stores_at : Config → ℕ → Pc → ℕ
stores_at c r (storing x h) = hit r (h % c.size)
stores_at c r _ = 0

abbrev pub takes_at : Config → ℕ → Pc → ℕ
takes_at c r (taking t) = hit r (t % c.size)
takes_at c r _ = 0

-- The indices granted to pushes, and to pops.
abbrev pub pushes : System → ℕ
pushes s = length s.accepted

abbrev pub pops : ℕ → System → ℕ
pops n s = length s.popped + total waits n s.pc

-- At each remainder the pushes granted are those granted to pops, and besides those that nobody
-- takes yet: stored, or to be stored.
abbrev pub Balanced : Config → ℕ → System → Type 0
Balanced c n s =
    (r : ℕ)
    → r < c.size
    → visits c.size r (pushes s) + total (takes_at c r) n s.pc
      ≡ visits c.size r (pops n s)
        + total (stores_at c r) n s.pc
        + unit_weight c (s.cells (slot c r))

-- A thread that has an index.
abbrev pub holds : Pc → Bool
holds (storing x h) = true
holds (taking t) = true
holds _ = false

pub weightless :
    (c : Config) (r : ℕ) (p : Pc)
    → holds p ≡ false
    → (waits p ≡ 0) × (stores_at c r p ≡ 0) × (takes_at c r p ≡ 0)
weightless c r (storing x h) e = absurd (ground arith)
weightless c r (taking t) e = absurd (ground arith)
weightless c r _ e = (refl, refl, refl)

-- The cell of an index is that of its remainder.
pub slot_of : (c : Config) (i r : ℕ) → i % c.size ≡ r → r < c.size → slot c i ≡ slot c r
unfolding slot
slot_of c i r e lt = ap (remap_index c.bits) (e ∙ sym (mod-eq_of_lt lt))
