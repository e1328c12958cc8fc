-- ===== src/Memory/Paging.antt =====
-- The rounding to pages of sw/itc-common/inc/itcMemoryManager.h on 32 bits.
use itc_platform.Common.{ℕ, ◌+◌, ◌-◌, ◌*◌, ◌/◌, ◌%◌, ◌^◌, ◌≤◌, ◌<◌, ◌≡◌, arith, bit_and}
use itc_platform.Common.Bits.{bit_and_two_fields, bit_and_mask, bit_and-zero}
use itc_platform.Memory.{round_up_to_page_sizes}

masked_pages : (y : ℕ) → y < 2 ^ 32 → bit_and y (2 ^ 32 - 1 - 4095) ≡ y / 4096 * 4096
masked_pages y h = ground (
  arith,
  bit_and_two_fields 12 (y / 4096) (2 ^ 20 - 1) (y % 4096) 0,
  bit_and_mask 20 (y / 4096),
  bit_and-zero (y % 4096),
)

-- Up to the last page of 32 bits, the size is rounded up to the next multiple of a page; a larger one
-- is rounded to 0.
pub round_up_to_page_sizes_lem :
    (x : ℕ)
    → x < 2 ^ 32
    → (x ≤ 2 ^ 32 - 4096
        → (x ≤ round_up_to_page_sizes x)
          × (round_up_to_page_sizes x < x + 4096)
          × (round_up_to_page_sizes x % 4096 ≡ 0))
      × (2 ^ 32 - 4096 < x → round_up_to_page_sizes x ≡ 0)
unfolding round_up_to_page_sizes
round_up_to_page_sizes_lem x fits =
    let e : bit_and ((x + 4095) % 2 ^ 32) (2 ^ 32 - 1 - 4095) ≡ (x + 4095) % 2 ^ 32 / 4096 * 4096 =
      masked_pages ((x + 4095) % 2 ^ 32) (omega arith) in
    ((λ small. (omega (arith, e), omega (arith, e), omega (arith, e))), λ large. omega (arith, e))
