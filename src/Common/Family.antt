-- ===== src/Common/Family.antt =====
-- Families `ℕ → A` (an array of atomics, the slots of a container, the program counters of threads):
-- update at one index, and weighted sums over the first `n`.
use Prim.Native.Nat.{ℕ, zero, suc, ◌+◌, ◌<◌, ◌≤◌}
use mathlib.Core.Path.{◌≡◌, refl, ap, sym, ◌∙◌}
use mathlib.Core.Logic.{◌≢◌, ite, if_pos, if_neg}
use native.Mathlib.Decide.{ℕ_discrete}
use native.Mathlib.Omega.{arith}

abbrev pub update {ℓ} : {A : Type ℓ} → (ℕ → A) → ℕ → A → ℕ → A
update f i a j = ite (ℕ_discrete i j) a (f j)

pub update_self {ℓ} : {A : Type ℓ} (f : ℕ → A) (i : ℕ) (a : A) → update f i a i ≡ a
update_self f i a = if_pos (ℕ_discrete i i) refl _ _

pub update_ne {ℓ} : {A : Type ℓ} (f : ℕ → A) (i : ℕ) (a : A) (j : ℕ) → i ≢ j → update f i a j ≡ f j
update_ne f i a j ne = if_neg (ℕ_discrete i j) ne _ _

pub update_same {ℓ} : {A : Type ℓ} (f : ℕ → A) (i j : ℕ) → update f i (f i) j ≡ f j
update_same f i j = elim (ℕ_discrete i j) [
  | yes e ↦ rw (← e) (update_self f i (f i))
  | no ne ↦ update_ne f i (f i) j ne
]

-- What holds of the new value and of every old one holds after an update.
pub update-all {ℓ κ} :
    {A : Type ℓ} (P : A → Type κ) (f : ℕ → A) (i : ℕ) (a : A)
    → P a
    → ((j : ℕ) → P (f j))
    → (j : ℕ) → P (update f i a j)
update-all P f i a new old j = elim (ℕ_discrete i j) [
  | yes e ↦ rw (if_pos (ℕ_discrete i j) e) new
  | no e ↦ rw (if_neg (ℕ_discrete i j) e) (old j)
]

-- The sum of the weights of the entries below a bound.
unfoldable pub total {ℓ} : {A : Type ℓ} → (A → ℕ) → ℕ → (ℕ → A) → ℕ
total w zero entries = 0
total w (suc bound) entries = w (entries bound) + total w bound entries

-- Families whose entries below the bound weigh the same have the same sum.
total_cong {ℓ} :
    {A : Type ℓ} (w : A → ℕ) (bound : ℕ) (f g : ℕ → A)
    → ((j : ℕ) → j < bound → w (f j) ≡ w (g j))
    → total w bound f ≡ total w bound g
unfolding total
total_cong w zero f g same = refl
total_cong w (suc bound) f g same =
    omega (arith, same bound (omega arith), total_cong w bound f g (λ j lt. same j (omega arith)))

pub total-update {ℓ} :
    {A : Type ℓ} (w : A → ℕ) (bound : ℕ) (entries : ℕ → A) (at : ℕ) (new : A)
    → at < bound
    → total w bound (update entries at new) + w (entries at) ≡ total w bound entries + w new
unfolding total
total-update w zero entries at new within = absurd (omega arith)
total-update w (suc bound) entries at new within = elim (ℕ_discrete at bound) [
  | yes e ↦
      let below : total w bound (update entries at new) ≡ total w bound entries =
        total_cong w bound (update entries at new) entries
          (λ j lt. ap w (update_ne entries at new j (λ same. omega arith))) in
      let here : w (update entries at new bound) ≡ w new =
        ap w (rw (← e) (update_self entries at new)) in
      let was : w (entries at) ≡ w (entries bound) = ap (λ j. w (entries j)) e in omega arith
  | no ne ↦
      let kept : w (update entries at new bound) ≡ w (entries bound) =
        ap w (update_ne entries at new bound ne) in
      omega (arith, total-update w bound entries at new (omega arith))
]

-- The same, where the family is known to be as before but at one index.
pub total-change {ℓ} :
    {A : Type ℓ} (w : A → ℕ) (bound : ℕ) (f g : ℕ → A) (at : ℕ)
    → at < bound
    → ((j : ℕ) → at ≢ j → g j ≡ f j)
    → total w bound g + w (f at) ≡ total w bound f + w (g at)
total-change w bound f g at within others = omega (
  arith,
  total-update w bound f at (g at) within,
  total_cong w bound g (update f at (g at)) (λ j lt. elim (ℕ_discrete at j) [
    | yes e ↦ ap w (ap g (sym e) ∙ sym (update_self f at (g at)) ∙ ap (update f at (g at)) e)
    | no ne ↦ ap w (others j ne ∙ sym (update_ne f at (g at) j ne))
  ]),
)

pub total-eq-zero {ℓ} :
    {A : Type ℓ} (w : A → ℕ) (bound : ℕ) (entries : ℕ → A)
    → ((j : ℕ) → j < bound → w (entries j) ≡ 0)
    → total w bound entries ≡ 0
unfolding total
total-eq-zero w zero entries weightless = refl
total-eq-zero w (suc bound) entries weightless = omega (
  arith,
  weightless bound (omega arith),
  total-eq-zero w bound entries (λ j lt. weightless j (omega arith)),
)

pub entry-le-total {ℓ} :
    {A : Type ℓ} (w : A → ℕ) (bound : ℕ) (entries : ℕ → A) (at : ℕ)
    → at < bound
    → w (entries at) ≤ total w bound entries
unfolding total
entry-le-total w zero entries at within = absurd (omega arith)
entry-le-total w (suc bound) entries at within = elim (ℕ_discrete at bound) [
  | yes e ↦ let was : w (entries at) ≡ w (entries bound) = ap (λ j. w (entries j)) e in omega arith
  | no ne ↦ omega (arith, entry-le-total w bound entries at (omega arith))
]

-- Weights that only grow.
pub total-le {ℓ} :
    {A : Type ℓ} (w : A → ℕ) (bound : ℕ) (f g : ℕ → A)
    → ((j : ℕ) → w (f j) ≤ w (g j))
    → total w bound f ≤ total w bound g
unfolding total
total-le w zero f g below = omega arith
total-le w (suc bound) f g below = omega (arith, below bound, total-le w bound f g below)
