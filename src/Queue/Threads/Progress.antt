-- ===== src/Queue/Threads/Progress.antt =====
-- Whether the threads that wait inside a shared queue (sw/itc-common/inc/itcLockFreeQueue.h) can wait
-- for ever.
use native.Mathlib.Nat.{mod-lt}
use itc_platform.Common.{
  ℕ, zero, suc, ◌+◌, ◌%◌, ◌<◌, ◌≤◌, ◌≡◌, refl, ap, ◌⊎◌, inl, inr, arith, Bool, true, false, not,
  ◌==◌, ℕ_discrete,
}
use itc_platform.Common.Family.{update_self, total-eq-zero, entry-le-total}
use itc_platform.Queue.{Config, slot}
use itc_platform.Queue.Slots.{IsConfig}
use itc_platform.Queue.Threads.{Pc, idle, storing, taking, System, Move, store, take, Reach}
use itc_platform.Queue.Threads.Conserve.{unit_weight}
use itc_platform.Queue.Threads.Visits.{visits, visits-even, visits-lap, visits-le}
use itc_platform.Queue.Threads.Balance.{stores_at, takes_at, pushes, pops, holds, slot_of}
use itc_platform.Queue.Threads.Balance.Kept.{Reach-Balanced}

-- A thread that holds an index stores or takes, and is out of its operation.
pub record Ends (c : Config) (n : ℕ) (s t : System) : Type 0 where
  pub thread : ℕ
  pub within : thread < n
  pub holding : holds (s.pc thread) ≡ true
  pub move : Move c s thread t
  pub done : t.pc thread ≡ idle

pub data CanEnd (c : Config) (n : ℕ) (s : System) : Type 0 where
  can_end : (t : System) → Ends c n s t → CanEnd c n s

-- No access of a thread at this place changes anything.
abbrev blocked : Config → (ℕ → ℕ) → Pc → Bool
blocked c cells (storing x h) = not (cells (slot c h) == c.nil)
blocked c cells (taking t) = cells (slot c t) == c.nil
blocked c cells _ = true

module _ (c : Config) (s : System) where
  -- Nobody takes at a filled cell, and nobody stores at an empty one.
  no_takers :
      (a : ℕ)
      → a < c.size
      → unit_weight c (s.cells (slot c a)) ≡ 1
      → (p : Pc) → blocked c s.cells p ≡ true
      → takes_at c a p ≡ 0
  no_takers a la full (taking t) b = elim (ℕ_discrete (t % c.size) a) [
    | yes e ↦ absurd (ground (arith, ap (λ k. unit_weight c (s.cells k)) (slot_of c t a e la)))
    | no ne ↦ ground arith
  ]
  no_takers a la full _ b = refl

  no_storers :
      (a : ℕ)
      → a < c.size
      → unit_weight c (s.cells (slot c a)) ≡ 0
      → (p : Pc) → blocked c s.cells p ≡ true
      → stores_at c a p ≡ 0
  no_storers a la none_there (storing x h) b = elim (ℕ_discrete (h % c.size) a) [
    | yes e ↦ absurd (ground (arith, ap (λ k. unit_weight c (s.cells k)) (slot_of c h a e la)))
    | no ne ↦ ground arith
  ]
  no_storers a la none_there _ b = refl

module _ (c : Config) (n : ℕ) (s : System) where
  -- A thread that is not blocked where it stands ends its operation.
  ends_at : (k : ℕ) (p : Pc) → k < n → s.pc k ≡ p → CanEnd c n s ⊎ (blocked c s.cells p ≡ true)
  ends_at k (storing x h) lt e = elim (ℕ_discrete (s.cells (slot c h)) c.nil) [
    | yes g ↦ inl (
        can_end _ (record {
          thread = k;
          within = lt;
          holding = rw e refl;
          move = store e g;
          done = update_self s.pc k idle;
        }))
    | no g ↦ inr (ground arith)
  ]
  ends_at k (taking t) lt e = elim (ℕ_discrete (s.cells (slot c t)) c.nil) [
    | yes g ↦ inr (ground arith)
    | no g ↦ inl (
        can_end _ (record {
          thread = k;
          within = lt;
          holding = rw e refl;
          move = take e g;
          done = update_self s.pc k idle;
        }))
  ]
  ends_at k _ lt e = inr refl

  search_threads :
      (bound : ℕ)
      → bound ≤ n
      → CanEnd c n s ⊎ ((k : ℕ) → k < bound → blocked c s.cells (s.pc k) ≡ true)
  search_threads zero le = inr (λ k lt. absurd (omega arith))
  search_threads (suc bound) le = elim (search_threads bound (omega arith)) [
    | inl found ↦ inl found
    | inr below ↦ elim (ends_at bound (s.pc bound) (omega arith) refl) [
      | inl found ↦ inl found
      | inr here ↦
          inr (λ k lt. elim (ℕ_discrete k bound) [
            | yes e ↦ rw e here
            | no ne ↦ below k (omega arith)
          ])
    ]
  ]

module _ {c : Config} (v : IsConfig c) {n : ℕ} {s : System} (r : Reach c n s)
    (all : (k : ℕ) → k < n → blocked c s.cells (s.pc k) ≡ true) where
  -- A push that waits is a lap ahead of the pops.
  waiting_push :
      (i x h : ℕ)
      → i < n
      → s.pc i ≡ storing x h
      → visits c.size (h % c.size) (pops n s) + 2 ≤ visits c.size (h % c.size) (pushes s)
  waiting_push i x h lt e = ground (
    arith,
    full,
    Reach-Balanced v n r (h % c.size) la,
    entry-le-total (stores_at c (h % c.size)) n s.pc i lt,
    ap (stores_at c (h % c.size)) e,
    total-eq-zero (takes_at c (h % c.size)) n s.pc
        (λ k kl. no_takers c s (h % c.size) la full (s.pc k) (all k kl)),
  )
    where
      la : h % c.size < c.size
      la = mod-lt h v.size_pos

      full : unit_weight c (s.cells (slot c (h % c.size))) ≡ 1
      full =
          ground (
            arith,
            all i lt,
            ap (blocked c s.cells) e,
            ap s.cells (slot_of c h (h % c.size) refl la),
          )

  waiting_pop :
      (i t : ℕ)
      → i < n
      → s.pc i ≡ taking t
      → visits c.size (t % c.size) (pushes s) + 1 ≤ visits c.size (t % c.size) (pops n s)
  waiting_pop i t lt e = ground (
    arith,
    bare,
    Reach-Balanced v n r (t % c.size) la,
    entry-le-total (takes_at c (t % c.size)) n s.pc i lt,
    ap (takes_at c (t % c.size)) e,
    total-eq-zero (stores_at c (t % c.size)) n s.pc
        (λ k kl. no_storers c s (t % c.size) la bare (s.pc k) (all k kl)),
  )
    where
      la : t % c.size < c.size
      la = mod-lt t v.size_pos

      bare : unit_weight c (s.cells (slot c (t % c.size))) ≡ 0
      bare =
          ground (
            arith,
            all i lt,
            ap (blocked c s.cells) e,
            ap s.cells (slot_of c t (t % c.size) refl la),
          )

module _ {c : Config} (v : IsConfig c) {n : ℕ} {s : System} (r : Reach c n s) where
  -- A thread that waits to store and one that waits to take do not wait for ever together: in a valid
  -- configuration, in every state that the threads reach in which one is about to store and another to
  -- take, some thread that holds an index ends its operation by one access.
  pub both_wait-CanEnd :
      {i j x h t : ℕ} → i < n → s.pc i ≡ storing x h → j < n → s.pc j ≡ taking t → CanEnd c n s
  both_wait-CanEnd {i} {j} {x} {h} {t} il ie jl je = elim (search_threads c n s n (omega arith)) [
    | inl found ↦ found
    | inr all ↦ absurd (
        omega (
          arith,
          waiting_push v r all i x h il ie,
          waiting_pop v r all j t jl je,
          visits-even c.size (h % c.size) (t % c.size) (pushes s) (mod-lt h v.size_pos)
              (mod-lt t v.size_pos),
          visits-even c.size (t % c.size) (h % c.size) (pops n s) (mod-lt t v.size_pos)
              (mod-lt h v.size_pos),
        ))
  ]

  module _ (enough : pops n s ≤ pushes s) (room : pushes s ≤ pops n s + c.size) where
    none_held :
        ((k : ℕ) → k < n → blocked c s.cells (s.pc k) ≡ true)
        → (i : ℕ) (p : Pc) → i < n
        → s.pc i ≡ p
        → holds p ≡ false
    none_held all i (storing x h) il e = absurd (
        omega (
          arith,
          waiting_push v r all i x h il e,
          visits-le c.size (h % c.size) room,
          visits-lap c.size (h % c.size) (pops n s) (mod-lt h v.size_pos),
        ))
    none_held all i (taking t) il e =
        absurd (omega (arith, waiting_pop v r all i t il e, visits-le c.size (t % c.size) enough))
    none_held all i _ il e = refl

    -- While no more pops than pushes have been granted an index, and at most `size` more pushes
    -- than pops, either no thread holds an index or one that does ends by one access.
    pub room-CanEnd : CanEnd c n s ⊎ ((i : ℕ) → i < n → holds (s.pc i) ≡ false)
    room-CanEnd = elim (search_threads c n s n (omega arith)) [
      | inl found ↦ inl found
      | inr all ↦ inr (λ i il. none_held all i (s.pc i) il refl)
    ]
