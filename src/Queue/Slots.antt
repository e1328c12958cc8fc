-- ===== src/Queue/Slots.antt =====
-- Where `LockFreeQueue` of sw/itc-common/inc/itcLockFreeQueue.h puts an index.
use Prim.Native.Nat.{◌∣◌}
use native.Mathlib.Nat.{
  mod-lt, mod-eq_of_lt, mod-mod_of_dvd, mod-add-mod, mod-eq-sub-mod, add-mod_right,
}
use itc_platform.Common.{
  ℕ, ◌+◌, ◌-◌, ◌*◌, ◌%◌, ◌^◌, ◌≤◌, ◌<◌, ◌≡◌, ◌≢◌, ◌⊎◌, inl, inr, dec_lt, sym, ap, ◌∙◌, arith,
}
use itc_platform.Queue.{Config, slot, remap_index}
use itc_platform.Queue.Remap.{remap_index-remap_index, remap_index-lt}

-- What the indices rely on: a size below 2^31 that divides the range of the counters, and a whole
-- number of blocks for the shuffle.
pub record IsConfig (c : Config) : Type 0 where
  pub size_pos : 0 < c.size
  pub small : c.size < 2 ^ 31
  pub divides : c.size ∣ 2 ^ 32
  pub bits_small : c.bits ≤ 16
  pub blocks : ℕ
  pub in_blocks : c.size ≡ blocks * (2 ^ c.bits * 2 ^ c.bits)

module _ {c : Config} (v : IsConfig c) where
  -- The cell of an index lies in the array.
  pub slot-lt-size : (i : ℕ) → slot c i < c.size
  unfolding slot
  slot-lt-size i =
      rw v.in_blocks
        (remap_index-lt c.bits _ v.blocks v.bits_small (rw (← v.in_blocks) (mod-lt i v.size_pos)))

  -- Two indices share a cell only if they agree modulo the size.
  pub mod_of_slot : (i j : ℕ) → slot c i ≡ slot c j → i % c.size ≡ j % c.size
  unfolding slot
  mod_of_slot i j e =
      sym (remap_index-remap_index c.bits _ v.bits_small)
      ∙ ap (remap_index c.bits) e
      ∙ remap_index-remap_index c.bits _ v.bits_small

  -- The index that is `d` after `t`, as the counters wrap.
  pub mod-advance : (t d : ℕ) → (t + d) % 2 ^ 32 % c.size ≡ (t + d) % c.size
  mod-advance t d = mod-mod_of_dvd c.size (t + d) v.divides

-- Below twice the modulus the remainder takes at most one subtraction.
wrap_once : (n a : ℕ) → a < n + n → (a % n ≡ a) × (a < n) ⊎ (a % n ≡ a - n) × (n ≤ a)
wrap_once n a h = elim (dec_lt a n) [
  | yes p ↦ inl (mod-eq_of_lt p, p)
  | no p ↦
      inr (mod-eq-sub-mod {n = a} {m = n} (omega arith) ∙ mod-eq_of_lt (omega arith), omega arith)
]

offset_unique : (n t d e : ℕ) → d < n → e < n → (t + d) % n ≡ (t + e) % n → d ≡ e
offset_unique n t d e hd he h = omega (
  arith,
  wrap_once n (t % n + d) (omega (arith, mod-lt t {m = n})),
  wrap_once n (t % n + e) (omega (arith, mod-lt t {m = n})),
  mod-add-mod t n d,
  mod-add-mod t n e,
)

module _ {c : Config} (v : IsConfig c) where
  -- No two of `size` consecutive indices share a cell, also where the counters wrap.
  pub slot_unique :
      (t d e : ℕ)
      → d < c.size
      → e < c.size
      → slot c ((t + d) % 2 ^ 32) ≡ slot c ((t + e) % 2 ^ 32)
      → d ≡ e
  slot_unique t d e hd he h =
      offset_unique c.size t d e hd he
        (sym (mod-advance v t d) ∙ mod_of_slot v _ _ h ∙ mod-advance v t e)

  -- In a valid configuration, two different indices among `size` consecutive ones stand in
  -- different cells, also where the counters wrap.
  slots_differ :
      (t d e : ℕ) → d < e → e < c.size → slot c ((t + d) % 2 ^ 32) ≢ slot c ((t + e) % 2 ^ 32)
  slots_differ t d e lt he h = absurd (omega (arith, slot_unique t d e (omega arith) he h))

  -- `size` indices on, the cells come round.
  pub slot-round : (t : ℕ) → slot c ((t + c.size) % 2 ^ 32) ≡ slot c t
  unfolding slot
  slot-round t = ap (remap_index c.bits) (mod-advance v t c.size ∙ add-mod_right t c.size)
