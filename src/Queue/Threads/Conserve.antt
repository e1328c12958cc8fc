-- ===== src/Queue/Threads/Conserve.antt =====
-- Where the elements of a queue shared by any number of threads are
-- (sw/itc-common/inc/itcLockFreeQueue.h).
use itc_platform.Common.{
  ℕ, ◌+◌, ◌%◌, ◌^◌, ◌<◌, ◌≡◌, ◌≢◌, refl, arith, length, Bool, true, not, ◌==◌, if◌then◌else◌,
}
use itc_platform.Common.Bags.{weigh}
use itc_platform.Common.Family.{update, update-all, total, total-update, total-eq-zero}
use itc_platform.Queue.{Config, slot, sub32}
use itc_platform.Queue.Slots.{IsConfig, slot-lt-size}
use itc_platform.Queue.Threads.{
  Pc, idle, push_test, push_cas, storing, taking, System, init, Move, push_add, push_load,
  push_room, push_lose, push_win, store, store_wait, take, take_wait, Step, by, Reach, start, later,
}

-- The weight of the element that a thread has yet to store.
abbrev pub carried : (ℕ → ℕ) → Pc → ℕ
carried w (storing x h) = w x
carried w _ = 0

-- A thread that has an index to pop from.
abbrev pub waits : Pc → ℕ
waits (taking t) = 1
waits _ = 0

-- The element that a thread pushes is not NIL.
abbrev pub is_real : Config → Pc → Bool
is_real c (push_test x h) = not (x == c.nil)
is_real c (push_cas x h) = not (x == c.nil)
is_real c (storing x h) = not (x == c.nil)
is_real c _ = true

-- One for an element, nothing for NIL.
abbrev pub unit_weight : Config → ℕ → ℕ
unit_weight c x = if x == c.nil then 0 else 1

-- One for the element `x`, nothing for others.
abbrev pub times : ℕ → ℕ → ℕ
times x y = if y == x then 1 else 0

pub record Inv (c : Config) (n : ℕ) (s : System) : Type 0 where
  pub conserved :
      (w : ℕ → ℕ)
      → w c.nil ≡ 0
      → weigh w s.accepted ≡ weigh w s.popped + total w c.size s.cells + total (carried w) n s.pc
  pub heads : s.head ≡ length s.accepted % 2 ^ 32
  pub tails : s.tail ≡ (length s.popped + total waits n s.pc) % 2 ^ 32
  pub real : (i : ℕ) → is_real c (s.pc i) ≡ true
  pub accepted_real : weigh (unit_weight c) s.accepted ≡ length s.accepted
  pub popped_real : weigh (unit_weight c) s.popped ≡ length s.popped

-- What a change of one thread's place does to a weight over the threads.
ruleset places = (arith, total-update)

module _ {c : Config} (v : IsConfig c) {n : ℕ} where
  Move-conserved :
      {s : System} (i : ℕ) {t : System}
      → i < n
      → Move c s i t
      → Inv c n s
      → (w : ℕ → ℕ) → w c.nil ≡ 0
      → weigh w t.accepted ≡ weigh w t.popped + total w c.size t.cells + total (carried w) n t.pc
  Move-conserved {s} i lt (store {x} {h} e g) inv w wn = ground (
    arith,
    inv.conserved w wn,
    total-update (carried w) n s.pc i idle lt,
    total-update w c.size s.cells (slot c h) x (slot-lt-size v h),
  )
  Move-conserved {s} i lt (take {t} e g) inv w wn = ground (
    arith,
    inv.conserved w wn,
    total-update (carried w) n s.pc i idle lt,
    total-update w c.size s.cells (slot c t) c.nil (slot-lt-size v t),
  )
  Move-conserved i lt (store_wait e) inv w wn = inv.conserved w wn
  Move-conserved i lt (take_wait e g) inv w wn = inv.conserved w wn
  Move-conserved {s} i lt mv inv w wn = grind (places, inv.conserved w wn)

  Move-heads :
      {s : System} (i : ℕ) {t : System}
      → Move c s i t
      → Inv c n s
      → t.head ≡ length t.accepted % 2 ^ 32
  Move-heads i (push_add x e ne) inv = omega (arith, inv.heads)
  Move-heads i (push_win e g) inv = omega (arith, inv.heads)
  Move-heads i mv inv = inv.heads

  Move-tails :
      {s : System} (i : ℕ) {t : System}
      → i < n
      → Move c s i t
      → Inv c n s
      → t.tail ≡ (length t.popped + total waits n t.pc) % 2 ^ 32
  Move-tails i lt (store_wait e) inv = inv.tails
  Move-tails i lt (take_wait e g) inv = inv.tails
  Move-tails {s} i lt (push_add x e ne) inv = grind (places, inv.tails)
  Move-tails {s} i lt mv inv = grind (places, inv.tails)

  -- A thread that goes to a real place leaves all threads at real places.
  moved :
      {s : System} (i : ℕ) (p : Pc)
      → is_real c p ≡ true
      → Inv c n s
      → (j : ℕ) → is_real c (update s.pc i p j) ≡ true
  moved {s} i p h inv = update-all (λ q. is_real c q ≡ true) s.pc i p h inv.real

  Move-is_real :
      {s : System} (i : ℕ) {t : System}
      → Move c s i t
      → Inv c n s
      → (j : ℕ) → is_real c (t.pc j) ≡ true
  Move-is_real i (store_wait e) inv = inv.real
  Move-is_real i (take_wait e g) inv = inv.real
  Move-is_real i (push_add x e ne) inv = moved i _ (ground arith) inv
  Move-is_real i (push_load x e ne) inv = moved i _ (ground arith) inv
  Move-is_real i (push_room e g) inv = moved i _ (ground (arith, inv.real i)) inv
  Move-is_real i (push_win e g) inv = moved i _ (ground (arith, inv.real i)) inv
  Move-is_real i (push_lose e) inv = moved i _ (ground (arith, inv.real i)) inv
  Move-is_real i mv inv = moved i _ refl inv

  Move-accepted_real :
      {s : System} (i : ℕ) {t : System}
      → Move c s i t
      → Inv c n s
      → weigh (unit_weight c) t.accepted ≡ length t.accepted
  Move-accepted_real i (push_add x e ne) inv = ground (arith, inv.accepted_real)
  Move-accepted_real i (push_win e g) inv = ground (arith, inv.accepted_real, inv.real i)
  Move-accepted_real i mv inv = inv.accepted_real

  Move-popped_real :
      {s : System} (i : ℕ) {t : System}
      → Move c s i t
      → Inv c n s
      → weigh (unit_weight c) t.popped ≡ length t.popped
  Move-popped_real i (take e g) inv = ground (arith, inv.popped_real)
  Move-popped_real i mv inv = inv.popped_real

  Step-Inv : {s t : System} → Step c n s t → Inv c n s → Inv c n t
  Step-Inv (by i lt mv) inv = record {
    conserved = Move-conserved i lt mv inv;
    heads = Move-heads i mv inv;
    tails = Move-tails i lt mv inv;
    real = Move-is_real i mv inv;
    accepted_real = Move-accepted_real i mv inv;
    popped_real = Move-popped_real i mv inv;
  }

  init-Inv : Inv c n (init c)
  init-Inv = record {
    conserved = λ w wn. omega (
      arith,
      total-eq-zero w c.size (λ _. c.nil) (λ _ _. wn),
      total-eq-zero (carried w) n (λ _. idle) (λ _ _. refl),
    );
    heads = omega arith;
    tails = omega (arith, total-eq-zero waits n (λ _. idle) (λ _ _. refl));
    real = λ i. refl;
    accepted_real = refl;
    popped_real = refl;
  }

  pub Reach-Inv : {s : System} → Reach c n s → Inv c n s
  Reach-Inv start = init-Inv
  Reach-Inv (later r st) = Step-Inv st (Reach-Inv r)

  -- In a valid configuration, however the accesses of the threads interleave, every element whose push
  -- was granted an index is accounted for as often as it was pushed: it has been handed out, stands in a
  -- cell of the array, or is held by a thread that waits to store it. The count is of the value `x`,
  -- which is not NIL.
  pub elements_conserved :
      {s : System}
      → Reach c n s
      → (x : ℕ) → x ≢ c.nil
      → weigh (times x) s.accepted
        ≡ weigh (times x) s.popped
          + total (times x) c.size s.cells
          + total (carried (times x)) n s.pc
  elements_conserved r x ne = (Reach-Inv r).conserved (times x) (ground arith)

  -- When no thread is inside an operation, the difference of the counters that `size` computes is
  -- the number of elements that stand in the array, modulo 2^32.
  pub quiet_size :
      {s : System}
      → Reach c n s
      → ((i : ℕ) → i < n → s.pc i ≡ idle)
      → sub32 s.head s.tail ≡ total (unit_weight c) c.size s.cells % 2 ^ 32
  quiet_size {s} r quiet = omega (
    arith,
    heads,
    tails,
    accepted_real,
    popped_real,
    conserved (unit_weight c) (ground arith),
    total-eq-zero (carried (unit_weight c)) n s.pc (λ i lt. ground (arith, quiet i lt)),
    total-eq-zero waits n s.pc (λ i lt. ground (arith, quiet i lt)),
  )
    where
      open (Reach-Inv r) use {heads, tails, accepted_real, popped_real, conserved}
