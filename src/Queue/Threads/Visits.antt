-- ===== src/Queue/Threads/Visits.antt =====
-- How often the indices that the counters of sw/itc-common/inc/itcLockFreeQueue.h have granted have
-- come to each cell.
use native.Mathlib.Nat.{mod-lt, mod-eq_of_lt, mod-add-mod, add-mod_right, mod_self}
use itc_platform.Common.{
  ℕ, zero, suc, ◌+◌, ◌-◌, ◌%◌, ◌<◌, ◌≤◌, ◌≡◌, sym, ◌∙◌, arith, ◌==◌, if◌then◌else◌, ltb, dec_lt,
  ◌⊎◌, inl, inr, ap,
}

abbrev pub hit : (r m : ℕ) → ℕ
hit r m = if m == r then 1 else 0

-- How many of the first indices leave the remainder `r`.
unfoldable pub visits : (size r : ℕ) → ℕ → ℕ
visits size r zero = 0
visits size r (suc index) = hit r (index % size) + visits size r index

-- The remainder of the next index.
next_mod :
    (size index : ℕ)
    → 0 < size
    → (suc index % size ≡ suc (index % size)) ⊎ (suc index % size ≡ 0) × (suc (index % size) ≡ size)
next_mod size index pos = elim (dec_lt (suc (index % size)) size) [
  | yes lt ↦ inl (omega (arith, on, mod-eq_of_lt {n = index % size + 1} {m = size} (omega arith)))
  | no ge ↦
      let top : index % size + 1 ≡ size = omega (arith, mod-lt index pos) in
      let wraps : (index % size + 1) % size ≡ 0 = rw top (mod_self size) in
      inr (omega (arith, on), omega arith)
]
  where
    on : suc index % size ≡ (index % size + 1) % size
    on =
        ap (λ k. k % size) {x = suc index} {y = index + 1} (omega arith)
        ∙ sym (mod-add-mod index size 1)

-- The remainders below `ahead` have been visited once more than the others.
record Laps (size index : ℕ) : Type 0 where
  laps : ℕ
  ahead : ℕ
  within : ahead < size
  now : index % size ≡ ahead
  counts : (r : ℕ) → r < size → visits size r index ≡ laps + (if ltb r ahead then 1 else 0)

next-Laps : (size index : ℕ) → 0 < size → Laps size index → Laps size (suc index)
unfolding visits
next-Laps size index pos before = elim (next_mod size index pos) [
  | inl on ↦ record {
    laps = laps;
    ahead = suc ahead;
    within = omega (arith, on, now, mod-lt (suc index) pos);
    now = omega (arith, on, now);
    counts = λ r lt. ground (arith, now, counts r lt);
  }
  | inr (on, top) ↦ record {
    laps = suc laps;
    ahead = 0;
    within = pos;
    now = on;
    counts = λ r lt. ground (arith, now, top, counts r lt);
  }
]
  where
    open before use {laps, ahead, within, now, counts}

every-Laps : (size index : ℕ) → 0 < size → Laps size index
unfolding visits
every-Laps size zero pos = record {
  laps = 0;
  ahead = 0;
  within = pos;
  now = mod-eq_of_lt pos;
  counts = λ r lt. ground arith;
}
every-Laps size (suc index) pos = next-Laps size index pos (every-Laps size index pos)

-- No remainder is visited twice before every other has been visited.
pub visits-even :
    (size a b index : ℕ) → a < size → b < size → visits size a index ≤ suc (visits size b index)
visits-even size a b index la lb = ground (arith, counts a la, counts b lb)
  where
    open (every-Laps size index (omega arith)) use {counts}

visits-first_lap :
    (size r index : ℕ) → index ≤ size → visits size r index ≡ (if ltb r index then 1 else 0)
unfolding visits
visits-first_lap size r zero le = ground arith
visits-first_lap size r (suc index) le = ground (
  arith,
  visits-first_lap size r index (omega arith),
  mod-eq_of_lt {n = index} {m = size} (omega arith),
)

pub visits-suc :
    (size r : ℕ) {next index : ℕ}
    → next ≡ suc index
    → visits size r next ≡ hit r (index % size) + visits size r index
unfolding visits
visits-suc size r e = ap (visits size r) e

-- `size` indices on, each remainder has been visited once more.
pub visits-lap :
    (size r index : ℕ) → r < size → visits size r (index + size) ≡ suc (visits size r index)
unfolding visits
visits-lap size r zero lt = ground (arith, visits-first_lap size r (0 + size) (omega arith))
visits-lap size r (suc index) lt = omega (
  arith,
  visits-suc size r {next = suc index + size} {index = index + size} (omega arith),
  visits-lap size r index lt,
  ap (hit r) (add-mod_right index size),
)

visits_mono : (size r index more : ℕ) → visits size r index ≤ visits size r (more + index)
visits_mono size r index zero =
    omega (arith, ap (visits size r) {x = 0 + index} {y = index} (omega arith))
visits_mono size r index (suc more) = omega (
  arith,
  visits-suc size r {next = suc more + index} {index = more + index} (omega arith),
  visits_mono size r index more,
)

pub visits-le : (size r : ℕ) {a b : ℕ} → a ≤ b → visits size r a ≤ visits size r b
visits-le size r {a} {b} le =
    omega (
      arith,
      visits_mono size r a (b - a),
      ap (visits size r) {x = b - a + a} {y = b} (omega arith),
    )
