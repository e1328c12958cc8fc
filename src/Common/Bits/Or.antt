-- ===== src/Common/Bits/Or.antt =====
-- `|` on numbers at every width, digit by digit.
use Prim.Native.Nat.{ℕ, zero, suc, ◌+◌, ◌*◌, ◌/◌, ◌%◌, ◌^◌, ◌≤◌, ◌<◌, max, bit_or, bit_or-bitwise}
use mathlib.Core.Path.{◌≡◌}
use native.Mathlib.Nat.{pow-suc}
use native.Mathlib.Omega.{arith}
use itc_platform.Common.Bits.{digits_enough, mul-pow-suc}

pub bit_or_step : (a b : ℕ) → bit_or a b ≡ bit_or (a / 2) (b / 2) * 2 + max (a % 2) (b % 2)
bit_or_step zero b = omega (arith, bit_or-bitwise 0 b, bit_or-bitwise 0 (b / 2))
bit_or_step (suc a) b = omega (
  arith,
  bit_or-bitwise (suc a) b,
  bit_or-bitwise (suc a / 2) (b / 2),
  digits_enough (λ b. b) max a (suc a / 2) (suc a / 2) (b / 2) (omega arith) (omega arith),
)

zero-bit_or : (b : ℕ) → bit_or 0 b ≡ b
zero-bit_or b = bit_or-bitwise 0 b

bit_or-zero_below : (n a : ℕ) → a ≤ n → bit_or a 0 ≡ a
bit_or-zero_below n zero h = zero-bit_or 0
bit_or-zero_below zero (suc a) h = absurd (omega arith)
bit_or-zero_below (suc n) (suc a) h =
    omega (arith, bit_or_step (suc a) 0, bit_or-zero_below n (suc a / 2) (omega arith))

pub bit_or-zero : (a : ℕ) → bit_or a 0 ≡ a
bit_or-zero a = bit_or-zero_below a a (omega arith)

-- The bits of both are there.
pub le-bit_or : (n a b : ℕ) → a ≤ n → b ≤ bit_or a b
le-bit_or n zero b h = omega (arith, zero-bit_or b)
le-bit_or zero (suc a) b h = absurd (omega arith)
le-bit_or (suc n) (suc a) b h =
    omega (arith, bit_or_step (suc a) b, le-bit_or n (suc a / 2) (b / 2) (omega arith))

-- Two fields, of which the second number has only the lower one.
pub bit_or-lower_field :
    (k q r t : ℕ) → r < 2 ^ k → t < 2 ^ k → bit_or (q * 2 ^ k + r) t ≡ q * 2 ^ k + bit_or r t
bit_or-lower_field zero q r t hr ht = ground (arith, bit_or-zero q, bit_or-zero 0)
bit_or-lower_field (suc k) q r t hr ht = ground (
  arith,
  bit_or_step (q * 2 ^ suc k + r) t,
  bit_or_step r t,
  mul-pow-suc q k,
  pow-suc 2 k,
  bit_or-lower_field k q (r / 2) (t / 2),
)

pub bit_or-lt-pow : (k r t : ℕ) → r < 2 ^ k → t < 2 ^ k → bit_or r t < 2 ^ k
bit_or-lt-pow zero r t hr ht = ground (arith, bit_or-zero 0)
bit_or-lt-pow (suc k) r t hr ht =
    ground (arith, bit_or_step r t, pow-suc 2 k, bit_or-lt-pow k (r / 2) (t / 2))
