-- ===== src/Queue/Threads/Others.antt =====
-- What an access to a shared queue (sw/itc-common/inc/itcLockFreeQueue.h) leaves to the other threads.
use itc_platform.Common.{ℕ, ◌≡◌, ◌≢◌, refl}
use itc_platform.Common.Family.{update_ne}
use itc_platform.Queue.{Config}
use itc_platform.Queue.Threads.{
  System, Move, push_add, push_load, push_full, push_room, push_win, push_lose, store, store_wait,
  pop_add, pop_load, pop_empty, pop_more, pop_win, pop_lose, take, take_wait,
}

-- An access of one thread moves no other.
pub Move-others :
    {c : Config} {q : System} (i : ℕ) {q' : System}
    → Move c q i q'
    → (j : ℕ) → i ≢ j
    → q'.pc j ≡ q.pc j
Move-others {q = q} i (push_add x e r) j ne = update_ne q.pc i _ j ne
Move-others {q = q} i (push_load x e r) j ne = update_ne q.pc i _ j ne
Move-others {q = q} i (push_full e f) j ne = update_ne q.pc i _ j ne
Move-others {q = q} i (push_room e f) j ne = update_ne q.pc i _ j ne
Move-others {q = q} i (push_win e f) j ne = update_ne q.pc i _ j ne
Move-others {q = q} i (push_lose e) j ne = update_ne q.pc i _ j ne
Move-others {q = q} i (store e f) j ne = update_ne q.pc i _ j ne
Move-others {q = q} i (store_wait e) j ne = refl
Move-others {q = q} i (pop_add e) j ne = update_ne q.pc i _ j ne
Move-others {q = q} i (pop_load e) j ne = update_ne q.pc i _ j ne
Move-others {q = q} i (pop_empty e f) j ne = update_ne q.pc i _ j ne
Move-others {q = q} i (pop_more e f) j ne = update_ne q.pc i _ j ne
Move-others {q = q} i (pop_win e f) j ne = update_ne q.pc i _ j ne
Move-others {q = q} i (pop_lose e) j ne = update_ne q.pc i _ j ne
Move-others {q = q} i (take e f) j ne = update_ne q.pc i _ j ne
Move-others {q = q} i (take_wait e f) j ne = refl
