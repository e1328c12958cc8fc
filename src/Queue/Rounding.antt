-- ===== src/Queue/Rounding.antt =====
-- `roundUpToPowerOf2` of sw/itc-common/inc/itcLockFreeQueue.h.
pub mod Valid
use native.Mathlib.Nat.{
  pow-suc, one-le-pow, mul-le-mul_left, lt-mul-div-succ, div-lt_iff_lt-mul, div-eq_of_lt,
  pow-le-pow_right, dvd-mul_right,
}
use itc_platform.Common.{
  ℕ, zero, suc, ◌+◌, ◌-◌, ◌*◌, ◌/◌, ◌%◌, ◌^◌, ◌≤◌, ◌<◌, ◌≡◌, ◌≢◌, refl, sym, ap, ◌∙◌, arith, ◌⊎◌,
  inl, inr, Bool, true, false, bit_or, dec_lt, ℕ_discrete,
}
use itc_platform.Common.Bits.Or.{bit_or-zero, le-bit_or, bit_or-lower_field, bit_or-lt-pow}
use itc_platform.Queue.{
  cache_line_index_bits, index_shuffle_bits, Config, config, or_equal, round_up_to_power_of_2,
  succ32, sub32,
}
use itc_platform.Queue.Slots.{IsConfig}

pub pow2_add : (m j : ℕ) → 2 ^ (m + j) ≡ 2 ^ j * 2 ^ m
pow2_add m zero = let e : m + 0 ≡ m = omega arith in omega (arith, ap (λ (t : ℕ). 2 ^ t) e)
pow2_add m (suc j) =
    let e : m + suc j ≡ suc (m + j) = omega arith in
    omega (
      arith,
      ap (λ (t : ℕ). 2 ^ t) e,
      pow2_add m j,
      pow-suc 2 (m + j),
      ap (λ (t : ℕ). t * 2 ^ m) (pow-suc 2 j),
    )

div_bound : (a m d y : ℕ) → 0 < a → a * m ≤ y + a * d → m ≤ y / a + d
div_bound a m d y pos h = elim (dec_lt (y / a + d) m) [
  | yes lt ↦
      let more : y / a + d + 1 ≤ m = omega arith in
      absurd (omega (arith, lt-mul-div-succ y pos, mul-le-mul_left a more))
  | no le ↦ omega arith
]

-- A number of `n` bits of which the upper `j` are set.
record Smeared (n j y : ℕ) : Type 0 where
  below : y < 2 ^ n
  upper : 2 ^ n ≤ y + 2 ^ (n - j)

-- In fields: the upper ones stay, and below them stands at least what was shifted there.
or_equal_fields :
    (m j y : ℕ)
    → y < 2 ^ j * 2 ^ m
    → 2 ^ j * 2 ^ m ≤ y + 2 ^ m
    → (or_equal y j < 2 ^ j * 2 ^ m) × (2 ^ j * 2 ^ m + y / 2 ^ j ≤ or_equal y j + 2 ^ m)
or_equal_fields m j y lt le =
    let e0 : 2 ^ j ≡ (2 ^ j - 1) + 1 = omega (arith, one-le-pow j 2 (omega arith)) in
    let whole : 2 ^ j * 2 ^ m ≡ (2 ^ j - 1) * 2 ^ m + 2 ^ m =
      omega (arith, ap (λ (t : ℕ). t * 2 ^ m) e0) in
    let split : y ≡ (2 ^ j - 1) * 2 ^ m + (y - (2 ^ j - 1) * 2 ^ m) = omega arith in
    let shifted : y / 2 ^ j < 2 ^ m =
      (div-lt_iff_lt-mul (one-le-pow j 2 (omega arith))).1 (omega arith) in
    let e =
      bit_or-lower_field m (2 ^ j - 1) (y - (2 ^ j - 1) * 2 ^ m) (y / 2 ^ j) (omega arith)
        shifted in
    let e' : or_equal y j ≡ (2 ^ j - 1) * 2 ^ m + bit_or (y - (2 ^ j - 1) * 2 ^ m) (y / 2 ^ j) =
      ap (λ (t : ℕ). bit_or t (y / 2 ^ j)) split ∙ e in
    (
      omega
          (arith, e', bit_or-lt-pow m (y - (2 ^ j - 1) * 2 ^ m) (y / 2 ^ j) (omega arith) shifted),
      omega (
        arith,
        e',
        le-bit_or (y - (2 ^ j - 1) * 2 ^ m) (y - (2 ^ j - 1) * 2 ^ m) (y / 2 ^ j) (omega arith),
      ),
    )

pub pow_parts : (n j : ℕ) → j ≤ n → 2 ^ n ≡ 2 ^ j * 2 ^ (n - j)
pow_parts n j le =
    let e : n ≡ n - j + j = omega arith in ap (λ (t : ℕ). 2 ^ t) e ∙ pow2_add (n - j) j

pow_cap : (n j : ℕ) → 2 ^ n ≤ 2 ^ j * 2 ^ (n - j)
pow_cap n j = elim (dec_lt j n) [
  | yes lt ↦ let e = pow_parts n j (omega arith) in omega arith
  | no ge ↦
      let e : n - j ≡ 0 = omega arith in
      let top : 2 ^ n ≤ 2 ^ j = pow-le-pow_right {n = 2} (omega arith) (omega arith) in
      omega (arith, top, ap (λ (t : ℕ). 2 ^ j * 2 ^ t) e)
]

-- One `orEqual` doubles the number of upper bits that are set.
smear : (n j y : ℕ) → Smeared n j y → Smeared n (j + j) (or_equal y j)
smear n j y v = elim (dec_lt j n) [
  | no short ↦
      let top : 2 ^ n ≤ 2 ^ j = pow-le-pow_right {n = 2} (omega arith) (omega arith) in
      let gone : y / 2 ^ j ≡ 0 = div-eq_of_lt (omega (arith, v.below)) in
      let kept : or_equal y j ≡ y = ap (bit_or y) gone ∙ bit_or-zero y in
      let e : n - j ≡ n - (j + j) = omega arith in
      record {
        below = omega (arith, kept, v.below);
        upper = omega (arith, kept, v.upper, ap (λ (t : ℕ). 2 ^ t) e);
      }
  | yes long ↦
      let whole = pow_parts n j (omega arith) in
      let (lt, raised) =
        or_equal_fields (n - j) j y (omega (arith, v.below, whole))
          (omega (arith, v.upper, whole)) in
      let e : n - j - j ≡ n - (j + j) = omega arith in
      let low : 2 ^ (n - j) ≤ y / 2 ^ j + 2 ^ (n - (j + j)) =
        div_bound (2 ^ j) (2 ^ (n - j)) (2 ^ (n - (j + j))) y (one-le-pow j 2 (omega arith))
          (omega (arith, v.upper, whole, pow_cap (n - j) j, ap (λ (t : ℕ). 2 ^ j * 2 ^ t) e)) in
      record { below = omega (arith, lt, whole); upper = omega (arith, raised, low, whole) }
]

-- Every positive number has its first bit.
first_bit : (fuel x : ℕ) → 0 < x → x < 2 ^ fuel → (n : ℕ) × (n ≤ fuel) × (Smeared n 1 x)
first_bit zero x pos h = absurd (omega arith)
first_bit (suc fuel) x pos h = elim (dec_lt x (2 ^ fuel)) [
  | yes lt ↦ let (n, le, v) = first_bit fuel x pos lt in (n, omega arith, v)
  | no ge ↦
      let e : suc fuel - 1 ≡ fuel = omega arith in
      (
        suc fuel,
        omega arith,
        record { below = h; upper = omega (arith, pow-suc 2 fuel, ap (λ (t : ℕ). 2 ^ t) e) },
      )
]

-- Five times `orEqual` sets all bits.
smear_all :
    (n x : ℕ)
    → n ≤ 31
    → Smeared n 1 x
    → or_equal (or_equal (or_equal (or_equal (or_equal x 1) 2) 4) 8) 16 + 1 ≡ 2 ^ n
smear_all n x le v =
    let all = smear n 16 _ (smear n 8 _ (smear n 4 _ (smear n 2 _ (smear n 1 x v)))) in
    let e : n - 32 ≡ 0 = omega arith in omega (arith, all.below, all.upper, ap (λ (t : ℕ). 2 ^ t) e)

-- A power of two that is above `x`, whose first bit is the `n`th, is at least `2 ^ n`.
least : (n x i : ℕ) → 0 < x → Smeared n 1 x → x < 2 ^ i → 2 ^ n ≤ 2 ^ i
least zero x i pos v h = absurd (omega (arith, v.below))
least (suc n) x i pos v h = elim (dec_lt n i) [
  | yes lt ↦ pow-le-pow_right {n = 2} (omega arith) (omega arith)
  | no ge ↦
      let low : 2 ^ i ≤ 2 ^ n = pow-le-pow_right {n = 2} (omega arith) (omega arith) in
      let e : suc n - 1 ≡ n = omega arith in
      absurd (omega (arith, v.upper, pow-suc 2 n, ap (λ (t : ℕ). 2 ^ t) e))
]

-- `roundUpToPowerOf2` gives the least power of two that is not below its argument, from 1 to 2^31.
pub round_up_to_power_of_2_lem :
    (a : ℕ)
    → 0 < a
    → a ≤ 2 ^ 31
    → (k : ℕ) × (k ≤ 31)
      × (round_up_to_power_of_2 a ≡ 2 ^ k)
      × (a ≤ 2 ^ k)
      × ((i : ℕ) → a ≤ 2 ^ i → 2 ^ k ≤ 2 ^ i)
unfolding round_up_to_power_of_2
round_up_to_power_of_2_lem a pos top = elim (ℕ_discrete a 1) [
  | yes one ↦ (0, omega arith, rw one refl, omega arith, λ i h. one-le-pow i 2 (omega arith))
  | no more ↦
      let (n, le, v) = first_bit 31 (a - 1) (omega arith) (omega arith) in
      let less : sub32 a 1 ≡ a - 1 = omega arith in
      let fits : 2 ^ n ≤ 2 ^ 31 = pow-le-pow_right {n = 2} (omega arith) le in
      (
        n,
        le,
        rw less (omega (arith, smear_all n (a - 1) le v)),
        omega (arith, v.below),
        λ i h. least n (a - 1) i (omega arith) v (omega arith),
      )
]
