-- ===== src/Queue/Remap.antt =====
-- `remapIndex` of sw/itc-common/inc/itcLockFreeQueue.h, by the fields of the index.
use native.Mathlib.Nat.{
  one-le-pow, mod-eq_of_lt, mod-lt, pow-le-pow_right, div-div-eq-div-mul, div-lt_iff_lt-mul,
}
use itc_platform.Common.{
  ℕ, zero, suc, ◌+◌, ◌*◌, ◌/◌, ◌%◌, ◌^◌, ◌≤◌, ◌<◌, ◌≡◌, sym, ap, ◌∙◌, arith, bit_xor,
}
use itc_platform.Common.Bits.{
  bit_xor_fields, bit_xor-cancel, bit_xor_comm, bit_xor-zero, bit_xor-lt-pow, bit_and_mask,
}
use itc_platform.Queue.{remap_index, shr, shl32}

-- An index with the fields `hi`, `mid` and `lo`, the last two of `b` bits.
abbrev pub fields : ℕ → ℕ → ℕ → ℕ → ℕ
fields b hi mid lo = (hi * 2 ^ b + mid) * 2 ^ b + lo

div-fields : (q p r : ℕ) → r < p → (q * p + r) / p ≡ q
div-fields q p r h = grind arith

mod-fields : (q p r : ℕ) → r < p → (q * p + r) % p ≡ r
mod-fields q p r h = grind arith

-- The low field of `index ^ (index >> BITS)`.
mix_fields :
    (b hi mid lo : ℕ)
    → mid < 2 ^ b
    → lo < 2 ^ b
    → bit_xor (fields b hi mid lo) (shr (fields b hi mid lo) b) % 2 ^ b ≡ bit_xor lo mid
mix_fields b hi mid lo hm hl = ground (
  arith,
  div-fields (hi * 2 ^ b + mid) (2 ^ b) lo hl,
  bit_xor_fields b (hi * 2 ^ b + mid) hi lo mid hl hm,
  mod-fields (bit_xor (hi * 2 ^ b + mid) hi) (2 ^ b) (bit_xor lo mid)
      (bit_xor-lt-pow b lo mid hl hm),
)

-- `index ^ mix` puts the middle field in the place of the low one.
xor_low :
    (b q lo mid : ℕ)
    → mid < 2 ^ b
    → lo < 2 ^ b
    → bit_xor (q * 2 ^ b + lo) (bit_xor lo mid) ≡ q * 2 ^ b + mid
xor_low b q lo mid hm hl = ground (
  arith,
  bit_xor_fields b q 0 lo (bit_xor lo mid) hl (bit_xor-lt-pow b lo mid hl hm),
  bit_xor-zero q,
  bit_xor-cancel lo mid,
)

-- `^ (mix << BITS)` then puts the low field in the place of the middle one.
xor_mid :
    (b hi lo mid : ℕ)
    → mid < 2 ^ b
    → lo < 2 ^ b
    → bit_xor (fields b hi mid mid) (bit_xor lo mid * 2 ^ b) ≡ fields b hi lo mid
xor_mid b hi lo mid hm hl = ground (
  arith,
  bit_xor_fields b (hi * 2 ^ b + mid) (bit_xor lo mid) mid 0 hm (omega arith),
  bit_xor-zero mid,
  bit_xor_comm lo mid,
  xor_low b hi mid lo hl hm,
)

mul-lt : (p m : ℕ) → p ≤ 2 ^ 16 → m < p → m * p < 2 ^ 32
mul-lt p m hp hm = grind arith

shift_fits : (b m : ℕ) → b ≤ 16 → m < 2 ^ b → shl32 m b ≡ m * 2 ^ b
shift_fits b m hb hm =
    mod-eq_of_lt (mul-lt (2 ^ b) m (pow-le-pow_right {n = 2} (omega arith) hb) hm)

-- `remapIndex` exchanges the two low fields of BITS bits, and keeps the rest of the index.
pub remap_index-fields :
    (b hi mid lo : ℕ)
    → b ≤ 16
    → mid < 2 ^ b
    → lo < 2 ^ b
    → remap_index b (fields b hi mid lo) ≡ fields b hi lo mid
unfolding remap_index
remap_index-fields zero hi mid lo hb hm hl = omega arith
remap_index-fields (suc b) hi mid lo hb hm hl =
    let n = suc b in
    rw (bit_and_mask n, mix_fields n hi mid lo hm hl)
      (rw
        (
          xor_low n (hi * 2 ^ n + mid) lo mid hm hl,
          shift_fits n (bit_xor lo mid) hb (bit_xor-lt-pow n lo mid hl hm),
        )
        (xor_mid n hi lo mid hm hl))

-- Every index has such fields.
fields_of : (b i : ℕ) → i ≡ fields b (i / 2 ^ b / 2 ^ b) (i / 2 ^ b % 2 ^ b) (i % 2 ^ b)
fields_of b i = grind arith

remap_index_eq :
    (b i : ℕ)
    → b ≤ 16
    → remap_index b i ≡ fields b (i / 2 ^ b / 2 ^ b) (i % 2 ^ b) (i / 2 ^ b % 2 ^ b)
remap_index_eq b i hb =
    ap (remap_index b) (fields_of b i)
    ∙ remap_index-fields b _ _ _ hb (mod-lt _ (one-le-pow b 2 (omega arith)))
        (mod-lt _ (one-le-pow b 2 (omega arith)))

-- `remapIndex` is its own inverse.
pub remap_index-remap_index : (b i : ℕ) → b ≤ 16 → remap_index b (remap_index b i) ≡ i
remap_index-remap_index b i hb =
    ap (remap_index b) (remap_index_eq b i hb)
    ∙ remap_index-fields b _ _ _ hb (mod-lt _ (one-le-pow b 2 (omega arith)))
        (mod-lt _ (one-le-pow b 2 (omega arith)))
    ∙ sym (fields_of b i)

fields-lt : (p h r s n : ℕ) → r < p → s < p → h < n → (h * p + r) * p + s < n * (p * p)
fields-lt p h r s n hr hs hh = omega (arith, outer, inner)
  where
    inner : (h * p + r) * p + p ≤ (h * p + p) * p
    inner = grind arith

    outer : (h * p + p) * p ≤ n * (p * p)
    outer = grind arith

div-div-lt : (p i n : ℕ) → 0 < p → i < n * (p * p) → i / p / p < n
div-div-lt p i n hp h = rw div-div-eq-div-mul ((div-lt_iff_lt-mul square_pos).1 h)
  where
    square_pos : 0 < p * p
    square_pos = grind arith

-- It does not leave an array whose size is a multiple of the square of the field's range.
pub remap_index-lt :
    (b i n : ℕ) → b ≤ 16 → i < n * (2 ^ b * 2 ^ b) → remap_index b i < n * (2 ^ b * 2 ^ b)
remap_index-lt b i n hb h = rw (remap_index_eq b i hb) (
    fields-lt (2 ^ b) _ _ _ n (mod-lt i (one-le-pow b 2 (omega arith)))
      (mod-lt (i / 2 ^ b) (one-le-pow b 2 (omega arith)))
      (div-div-lt (2 ^ b) i n (one-le-pow b 2 (omega arith)) h))
