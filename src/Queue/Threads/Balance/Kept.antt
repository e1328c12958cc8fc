-- ===== src/Queue/Threads/Balance/Kept.antt =====
-- That every access to a shared queue (sw/itc-common/inc/itcLockFreeQueue.h) keeps the pushes and pops
-- of each cell in balance.
use native.Mathlib.Nat.{mod-mod_of_dvd, mod-eq_of_lt}
use itc_platform.Common.{
  ℕ, ◌+◌, ◌∷◌, ℕ_discrete, false, ◌%◌, ◌<◌, ◌≡◌, ◌≢◌, refl, ◌⊎◌, inl, inr, sym, ap, ◌∙◌, arith,
  length,
}
use itc_platform.Common.Family.{update, update_self, update_ne, total, total-update, total-eq-zero}
use itc_platform.Queue.{Config, slot, succ32}
use itc_platform.Queue.Slots.{IsConfig, mod_of_slot}
use itc_platform.Queue.Threads.{
  Pc, idle, push_full, pop_load, pop_empty, pop_more, pop_lose, storing, taking, System, init, Move,
  push_add, push_load, push_room, push_lose, push_win, store, store_wait, pop_add, pop_win, take,
  take_wait, by, Reach, start, later,
}
use itc_platform.Queue.Threads.Conserve.{Inv, Reach-Inv, waits, unit_weight}
use itc_platform.Queue.Threads.Visits.{hit, visits, visits-suc}
use itc_platform.Queue.Threads.Balance.{
  stores_at, takes_at, pushes, pops, Balanced, holds, weightless, slot_of,
}

module _ {c : Config} (v : IsConfig c) (n : ℕ) where
  head_mod : {s : System} → Inv c n s → s.head % c.size ≡ pushes s % c.size
  head_mod {s} inv = ap (λ a. a % c.size) inv.heads ∙ mod-mod_of_dvd c.size (pushes s) v.divides

  tail_mod : {s : System} → Inv c n s → s.tail % c.size ≡ pops n s % c.size
  tail_mod {s} inv = ap (λ a. a % c.size) inv.tails ∙ mod-mod_of_dvd c.size (pops n s) v.divides

  -- A thread that holds no index before or after.
  aside :
      (s : System) (i : ℕ) (p : Pc)
      → i < n
      → holds (s.pc i) ≡ false
      → holds p ≡ false
      → Balanced c n s
      → Balanced c n (record s { pc = update s.pc i p })
  aside s i p lt before after bal r rl = omega (
    arith,
    bal r rl,
    total-update (takes_at c r) n s.pc i p lt,
    total-update (stores_at c r) n s.pc i p lt,
    weightless c r (s.pc i) before,
    weightless c r p after,
    ap (visits c.size r) {x = pops n (record s { pc = update s.pc i p })} {y = pops n s} (
        omega (
          arith,
          total-update waits n s.pc i p lt,
          weightless c r (s.pc i) before,
          weightless c r p after,
        )),
  )

  granted_push :
      (s : System) (i x h : ℕ)
      → i < n
      → holds (s.pc i) ≡ false
      → s.head ≡ h
      → Inv c n s
      → Balanced c n s
      → Balanced c n (record s {
        head = succ32 h;
        pc = update s.pc i (storing x h);
        accepted = x ∷ s.accepted;
      })
  granted_push s i x h lt before same inv bal r rl = omega (
    arith,
    bal r rl,
    total-update (takes_at c r) n s.pc i (storing x h) lt,
    total-update (stores_at c r) n s.pc i (storing x h) lt,
    weightless c r (s.pc i) before,
    ap (hit r) (ap (λ k. k % c.size) (sym same) ∙ head_mod inv),
    visits-suc c.size r {next = pushes s + 1} {index = pushes s} (omega arith),
    ap (visits c.size r) {x = length (x ∷ s.accepted)} {y = pushes s + 1} (omega arith),
    ap (visits c.size r) {x = length s.popped + total waits n (update s.pc i (storing x h))}
        {y = pops n s}
        (omega
          (arith, total-update waits n s.pc i (storing x h) lt, weightless c r (s.pc i) before)),
  )

  granted_pop :
      (s : System) (i t : ℕ)
      → i < n
      → holds (s.pc i) ≡ false
      → s.tail ≡ t
      → Inv c n s
      → Balanced c n s
      → Balanced c n (record s { tail = succ32 t; pc = update s.pc i (taking t) })
  granted_pop s i t lt before same inv bal r rl = omega (
    arith,
    bal r rl,
    total-update (takes_at c r) n s.pc i (taking t) lt,
    total-update (stores_at c r) n s.pc i (taking t) lt,
    weightless c r (s.pc i) before,
    ap (hit r) (ap (λ k. k % c.size) (sym same) ∙ tail_mod inv),
    visits-suc c.size r {next = length s.popped + total waits n (update s.pc i (taking t))}
        {index = pops n s}
        (omega (arith, total-update waits n s.pc i (taking t) lt, weightless c r (s.pc i) before)),
  )

  -- A cell that is filled or emptied counts at its own remainder only.
  changed_cell :
      (cells : ℕ → ℕ) (i r y : ℕ)
      → r < c.size
      → hit r (i % c.size) ≡ 1
          × (unit_weight c (cells (slot c r)) ≡ unit_weight c (cells (slot c i)))
          × (unit_weight c (update cells (slot c i) y (slot c r)) ≡ unit_weight c y)
        ⊎ hit r (i % c.size) ≡ 0
          × (unit_weight c (update cells (slot c i) y (slot c r))
              ≡ unit_weight c (cells (slot c r)))
  changed_cell cells i r y rl = elim (ℕ_discrete (i % c.size) r) [
    | yes e ↦ inl (
      ground arith,
      ap (λ k. unit_weight c (cells k)) (sym (slot_of c i r e rl)),
      ap (unit_weight c) (rw (← slot_of c i r e rl) (update_self cells (slot c i) y)),
    )
    | no ne ↦ inr (
      ground arith,
      ap (unit_weight c) (
          update_ne cells (slot c i) y (slot c r)
            (λ same. ne (mod_of_slot v i r same ∙ mod-eq_of_lt rl))),
    )
  ]

  stored :
      (s : System) (i x h : ℕ)
      → i < n
      → s.pc i ≡ storing x h
      → s.cells (slot c h) ≡ c.nil
      → x ≢ c.nil
      → Balanced c n s
      → Balanced c n (record s { cells = update s.cells (slot c h) x; pc = update s.pc i idle })
  stored s i x h lt e g real bal r rl = ground (
    arith,
    bal r rl,
    total-update (takes_at c r) n s.pc i idle lt,
    total-update (stores_at c r) n s.pc i idle lt,
    ap (takes_at c r) e,
    ap (stores_at c r) e,
    changed_cell s.cells h r x rl,
    ap (visits c.size r) {x = pops n (record s { pc = update s.pc i idle })} {y = pops n s}
        (omega (arith, total-update waits n s.pc i idle lt, ap waits e)),
  )

  taken :
      (s : System) (i t : ℕ)
      → i < n
      → s.pc i ≡ taking t
      → s.cells (slot c t) ≢ c.nil
      → Balanced c n s
      → Balanced c n (record s {
        cells = update s.cells (slot c t) c.nil;
        pc = update s.pc i idle;
        popped = s.cells (slot c t) ∷ s.popped;
      })
  taken s i t lt e g bal r rl = ground (
    arith,
    bal r rl,
    total-update (takes_at c r) n s.pc i idle lt,
    total-update (stores_at c r) n s.pc i idle lt,
    ap (takes_at c r) e,
    ap (stores_at c r) e,
    changed_cell s.cells t r c.nil rl,
    ap (visits c.size r)
        {x = length (s.cells (slot c t) ∷ s.popped) + total waits n (update s.pc i idle)}
        {y = pops n s} (omega (arith, total-update waits n s.pc i idle lt, ap waits e)),
  )

  Move-Balanced :
      {s : System} (i : ℕ) {t : System}
      → i < n
      → Move c s i t
      → Inv c n s
      → Balanced c n s
      → Balanced c n t
  Move-Balanced {s} i lt (push_add x e ne) inv bal =
      granted_push s i x _ lt (rw e refl) refl inv bal
  Move-Balanced {s} i lt (push_win {x} e g) inv bal = granted_push s i x _ lt (rw e refl) g inv bal
  Move-Balanced {s} i lt (store {x} {h} e g) inv bal =
      stored s i x h lt e g (ground (arith, inv.real i)) bal
  Move-Balanced i lt (store_wait e) inv bal = bal
  Move-Balanced {s} i lt (pop_add e) inv bal = granted_pop s i _ lt (rw e refl) refl inv bal
  Move-Balanced {s} i lt (pop_win e g) inv bal = granted_pop s i _ lt (rw e refl) g inv bal
  Move-Balanced {s} i lt (take {t} e g) inv bal = taken s i t lt e g bal
  Move-Balanced i lt (take_wait e g) inv bal = bal
  Move-Balanced {s} i lt (push_load x e ne) inv bal = aside s i _ lt (rw e refl) refl bal
  Move-Balanced {s} i lt (push_full e g) inv bal = aside s i _ lt (rw e refl) refl bal
  Move-Balanced {s} i lt (push_room e g) inv bal = aside s i _ lt (rw e refl) refl bal
  Move-Balanced {s} i lt (push_lose e) inv bal = aside s i _ lt (rw e refl) refl bal
  Move-Balanced {s} i lt (pop_load e) inv bal = aside s i _ lt (rw e refl) refl bal
  Move-Balanced {s} i lt (pop_empty e g) inv bal = aside s i _ lt (rw e refl) refl bal
  Move-Balanced {s} i lt (pop_more e g) inv bal = aside s i _ lt (rw e refl) refl bal
  Move-Balanced {s} i lt (pop_lose e) inv bal = aside s i _ lt (rw e refl) refl bal

  init-Balanced : Balanced c n (init c)
  unfolding visits
  init-Balanced r rl = ground (
    arith,
    total-eq-zero (takes_at c r) n (λ _. idle) (λ _ _. refl),
    total-eq-zero (stores_at c r) n (λ _. idle) (λ _ _. refl),
    total-eq-zero waits n (λ _. idle) (λ _ _. refl),
  )

  pub Reach-Balanced : {s : System} → Reach c n s → Balanced c n s
  Reach-Balanced start = init-Balanced
  Reach-Balanced (later r (by i lt mv)) = Move-Balanced i lt mv (Reach-Inv v r) (Reach-Balanced r)
