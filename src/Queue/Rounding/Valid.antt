-- ===== src/Queue/Rounding/Valid.antt =====
-- The configurations of `LockFreeQueue` (sw/itc-common/inc/itcLockFreeQueue.h) that come of
-- `roundUpToPowerOf2` and `GetIndexShuffleBits`.
use native.Mathlib.Nat.{pow-suc, one-le-pow, pow-le-pow_right, dvd-mul_right}
use itc_platform.Common.{ℕ, suc, ◌+◌, ◌-◌, ◌*◌, ◌^◌, ◌≤◌, ◌<◌, ap, ◌∙◌, arith, true, dec_lt}
use itc_platform.Queue.{cache_line_index_bits, index_shuffle_bits, config}
use itc_platform.Queue.Slots.{IsConfig}
use itc_platform.Queue.Rounding.{pow2_add, pow_parts, round_up_to_power_of_2_lem}

cache_line_index_bits_lem : (per_line : ℕ) → cache_line_index_bits per_line ≤ 8
unfolding cache_line_index_bits
cache_line_index_bits_lem per_line = ground arith

pow-reflects : (i k : ℕ) → 2 ^ i ≤ 2 ^ k → i ≤ k
pow-reflects i k h = elim (dec_lt k i) [
  | yes lt ↦
      let more : 2 ^ suc k ≤ 2 ^ i = pow-le-pow_right {n = 2} (omega arith) (omega arith) in
      absurd (omega (arith, pow-suc 2 k, one-le-pow k 2 (omega arith)))
  | no ge ↦ omega arith
]

power-IsConfig :
    (k b nil : ℕ)
    → k ≤ 30
    → b ≤ 8
    → b * 2 ≤ k
    → IsConfig (record { size = 2 ^ k; bits = b; nil = nil })
power-IsConfig k b nil le few fits =
    let small : 2 ^ k ≤ 2 ^ 30 = pow-le-pow_right {n = 2} (omega arith) le in
    let twice : b + b ≤ k = omega arith in
    record {
      size_pos = one-le-pow k 2 (omega arith);
      small = omega arith;
      divides = rw (pow_parts 32 k (omega arith)) (dvd-mul_right (2 ^ k) (2 ^ (32 - k)));
      bits_small = omega arith;
      blocks = 2 ^ (k - (b + b));
      in_blocks =
          pow_parts k (b + b) twice
          ∙ ap (λ (t : ℕ). t * 2 ^ (k - (b + b))) (pow2_add b b)
          ∙ omega arith;
    }

-- The shuffled bits fit in the index twice.
index_shuffle_bits_lem :
    (k per_line : ℕ)
    → (index_shuffle_bits true (2 ^ k) per_line ≤ 8)
      × (index_shuffle_bits true (2 ^ k) per_line * 2 ≤ k)
unfolding index_shuffle_bits
index_shuffle_bits_lem k per_line =
    let few = cache_line_index_bits_lem per_line in
    elim (dec_lt (2 ^ k) (2 ^ (cache_line_index_bits per_line * 2))) [
      | yes lt ↦ (ground arith, ground arith)
      | no ge ↦
          let fits : cache_line_index_bits per_line * 2 ≤ k =
            pow-reflects (cache_line_index_bits per_line * 2) k (omega arith) in
          (ground arith, ground arith)
    ]

-- Every `LockFreeQueue` of 1 to 2^30 elements that minimises contention has a valid configuration, of
-- the least power of two that is enough, whatever the number of elements in a cache line.
pub config-IsConfig :
    (size nil per_line : ℕ)
    → 0 < size
    → size ≤ 2 ^ 30
    → IsConfig (config size nil per_line true)
      × (size ≤ (config size nil per_line true).size)
      × ((i : ℕ) → size ≤ 2 ^ i → (config size nil per_line true).size ≤ 2 ^ i)
unfolding config
config-IsConfig size nil per_line pos top =
    let (k, le, e, enough, first) = round_up_to_power_of_2_lem size pos (omega arith) in
    let small : 2 ^ k ≤ 2 ^ 30 = first 30 top in
    (
      rw e (
          power-IsConfig k (index_shuffle_bits true (2 ^ k) per_line) nil (pow-reflects k 30 small)
            (index_shuffle_bits_lem k per_line).0 (index_shuffle_bits_lem k per_line).1),
      omega (arith, e),
      λ i h. omega (arith, e, first i h),
    )
