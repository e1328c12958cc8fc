-- ===== src/Common/Bits.antt =====
-- `^` and `&` on numbers at every width: the law of the lowest digit, then of two fields.
pub mod Or
use Prim.Native.Nat.{
  ℕ, zero, suc, ◌+◌, ◌-◌, ◌*◌, ◌/◌, ◌%◌, ◌^◌, ◌≤◌, ◌<◌, min, bit_and, bit_xor, digits, differ,
  bit_and-bitwise, bit_xor-bitwise,
}
use mathlib.Core.Path.{◌≡◌, refl, sym, ap, ◌∙◌}
use native.Mathlib.Nat.{pow-suc, one-le-pow}
use native.Mathlib.Omega.{arith}

module _ (z : ℕ → ℕ) (f : ℕ → ℕ → ℕ) where
  -- Any two fuels from the first number on give the same digits.
  pub digits_enough : (n m a b : ℕ) → a ≤ n → a ≤ m → digits z f n a b ≡ digits z f m a b
  digits_enough zero zero a b p q = refl
  digits_enough zero (suc m) zero b p q = refl
  digits_enough zero (suc m) (suc a) b p q = absurd (omega arith)
  digits_enough (suc n) zero zero b p q = refl
  digits_enough (suc n) zero (suc a) b p q = absurd (omega arith)
  digits_enough (suc n) (suc m) zero b p q = refl
  digits_enough (suc n) (suc m) (suc a) b p q =
      omega (arith, digits_enough n m (suc a / 2) (b / 2) (omega arith) (omega arith))

differ_mod : (a b : ℕ) → a < 2 → b < 2 → differ a b ≡ (a + b) % 2
differ_mod zero b p q = omega arith
differ_mod (suc zero) zero p q = refl
differ_mod (suc zero) (suc zero) p q = refl
differ_mod (suc zero) (suc (suc b)) p q = absurd (omega arith)
differ_mod (suc (suc a)) b p q = absurd (omega arith)

pub bit_xor_step : (a b : ℕ) → bit_xor a b ≡ bit_xor (a / 2) (b / 2) * 2 + (a % 2 + b % 2) % 2
bit_xor_step zero b = omega (arith, bit_xor-bitwise 0 b, bit_xor-bitwise 0 (b / 2))
bit_xor_step (suc a) b = omega (
  arith,
  bit_xor-bitwise (suc a) b,
  bit_xor-bitwise (suc a / 2) (b / 2),
  digits_enough (λ b. b) differ a (suc a / 2) (suc a / 2) (b / 2) (omega arith) (omega arith),
  differ_mod (suc a % 2) (b % 2) (omega arith) (omega arith),
)

pub bit_and_step : (a b : ℕ) → bit_and a b ≡ bit_and (a / 2) (b / 2) * 2 + min (a % 2) (b % 2)
bit_and_step zero b = omega (arith, bit_and-bitwise 0 b, bit_and-bitwise 0 (b / 2))
bit_and_step (suc a) b = omega (
  arith,
  bit_and-bitwise (suc a) b,
  bit_and-bitwise (suc a / 2) (b / 2),
  digits_enough (λ b. zero) min a (suc a / 2) (suc a / 2) (b / 2) (omega arith) (omega arith),
)

zero-bit_xor : (b : ℕ) → bit_xor 0 b ≡ b
zero-bit_xor b = bit_xor-bitwise 0 b

-- Laws proved digit by digit, with the number of digits as fuel.
bit_xor-zero_below : (n a : ℕ) → a ≤ n → bit_xor a 0 ≡ a
bit_xor-zero_below n zero h = zero-bit_xor 0
bit_xor-zero_below zero (suc a) h = absurd (omega arith)
bit_xor-zero_below (suc n) (suc a) h =
    omega (arith, bit_xor_step (suc a) 0, bit_xor-zero_below n (suc a / 2) (omega arith))

pub bit_xor-zero : (a : ℕ) → bit_xor a 0 ≡ a
bit_xor-zero a = bit_xor-zero_below a a (omega arith)

pub zero-bit_and : (b : ℕ) → bit_and 0 b ≡ 0
zero-bit_and b = bit_and-bitwise 0 b

bit_and-zero_below : (n a : ℕ) → a ≤ n → bit_and a 0 ≡ 0
bit_and-zero_below n zero h = bit_and-bitwise 0 0
bit_and-zero_below zero (suc a) h = absurd (omega arith)
bit_and-zero_below (suc n) (suc a) h =
    omega (arith, bit_and_step (suc a) 0, bit_and-zero_below n (suc a / 2) (omega arith))

pub bit_and-zero : (a : ℕ) → bit_and a 0 ≡ 0
bit_and-zero a = bit_and-zero_below a a (omega arith)

bit_xor-cancel_below : (n a b : ℕ) → a ≤ n → bit_xor a (bit_xor a b) ≡ b
bit_xor-cancel_below n zero b h = zero-bit_xor _ ∙ zero-bit_xor b
bit_xor-cancel_below zero (suc a) b h = absurd (omega arith)
bit_xor-cancel_below (suc n) (suc a) b h = ground (
  arith,
  bit_xor_step (suc a) b,
  bit_xor_step (suc a) (bit_xor (suc a) b),
  bit_xor-cancel_below n (suc a / 2) (b / 2) (omega arith),
)

-- A number cancels itself.
pub bit_xor-cancel : (a b : ℕ) → bit_xor a (bit_xor a b) ≡ b
bit_xor-cancel a b = bit_xor-cancel_below a a b (omega arith)

bit_xor_comm_below : (n a b : ℕ) → a ≤ n → bit_xor a b ≡ bit_xor b a
bit_xor_comm_below n zero b h = zero-bit_xor b ∙ sym (bit_xor-zero b)
bit_xor_comm_below zero (suc a) b h = absurd (omega arith)
bit_xor_comm_below (suc n) (suc a) b h = omega (
  arith,
  bit_xor_step (suc a) b,
  bit_xor_step b (suc a),
  bit_xor_comm_below n (suc a / 2) (b / 2) (omega arith),
)

pub bit_xor_comm : (a b : ℕ) → bit_xor a b ≡ bit_xor b a
bit_xor_comm a b = bit_xor_comm_below a a b (omega arith)

pub mul-pow-suc : (q k : ℕ) → q * 2 ^ suc k ≡ 2 * (q * 2 ^ k)
mul-pow-suc q k = omega (arith, ap (λ (t : ℕ). q * t) (pow-suc 2 k))

-- The exclusive or of two fields is taken field by field.
pub bit_xor_fields :
    (k q s r t : ℕ)
    → r < 2 ^ k
    → t < 2 ^ k
    → bit_xor (q * 2 ^ k + r) (s * 2 ^ k + t) ≡ bit_xor q s * 2 ^ k + bit_xor r t
bit_xor_fields zero q s r t hr ht = ground (arith, bit_xor-zero 0)
bit_xor_fields (suc k) q s r t hr ht = ground (
  arith,
  bit_xor_step (q * 2 ^ suc k + r) (s * 2 ^ suc k + t),
  bit_xor_step r t,
  mul-pow-suc q k,
  mul-pow-suc s k,
  mul-pow-suc (bit_xor q s) k,
  pow-suc 2 k,
  bit_xor_fields k q s (r / 2) (t / 2),
)

pub bit_xor-lt-pow : (k r t : ℕ) → r < 2 ^ k → t < 2 ^ k → bit_xor r t < 2 ^ k
bit_xor-lt-pow zero r t hr ht = ground (arith, bit_xor-zero 0)
bit_xor-lt-pow (suc k) r t hr ht =
    ground (arith, bit_xor_step r t, pow-suc 2 k, bit_xor-lt-pow k (r / 2) (t / 2))

bit_and_fields : (k q r : ℕ) → r < 2 ^ k → bit_and (q * 2 ^ k + r) (2 ^ k - 1) ≡ r
bit_and_fields zero q r h = ground (arith, bit_and-zero q)
bit_and_fields (suc k) q r h = ground (
  arith,
  bit_and_step (q * 2 ^ suc k + r) (2 ^ suc k - 1),
  mul-pow-suc q k,
  pow-suc 2 k,
  one-le-pow k 2,
  bit_and_fields k q (r / 2),
)

-- A mask of `k` low bits is the remainder by `2 ^ k`.
pub bit_and_mask : (k a : ℕ) → bit_and a (2 ^ k - 1) ≡ a % 2 ^ k
bit_and_mask k a = ground (arith, one-le-pow k 2, bit_and_fields k (a / 2 ^ k) (a % 2 ^ k))

-- The bitwise and of two fields is taken field by field.
pub bit_and_two_fields :
    (k q s r t : ℕ)
    → r < 2 ^ k
    → t < 2 ^ k
    → bit_and (q * 2 ^ k + r) (s * 2 ^ k + t) ≡ bit_and q s * 2 ^ k + bit_and r t
bit_and_two_fields zero q s r t hr ht = ground (arith, bit_and-zero 0)
bit_and_two_fields (suc k) q s r t hr ht = ground (
  arith,
  bit_and_step (q * 2 ^ suc k + r) (s * 2 ^ suc k + t),
  bit_and_step r t,
  mul-pow-suc q k,
  mul-pow-suc s k,
  mul-pow-suc (bit_and q s) k,
  pow-suc 2 k,
  bit_and_two_fields k q s (r / 2) (t / 2),
)
