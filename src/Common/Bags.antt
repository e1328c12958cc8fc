-- ===== src/Common/Bags.antt =====
-- Lists of numbers up to order.
use Prim.Native.Nat.{ℕ, ◌+◌}
use mathlib.Core.Path.{◌≡◌}
use mathlib.Core.List.{List, [], ◌∷◌}
use mathlib.Core.Quot
use mathlib.Core.Quot.{Quot}

-- The sum of a weight over a list.
abbrev pub weigh : (ℕ → ℕ) → List ℕ → ℕ
weigh w [] = 0
weigh w (x ∷ xs) = w x + weigh w xs

-- Two lists weigh the same by every weight.
abbrev pub SameItems : List ℕ → List ℕ → Type 0
SameItems xs ys = (w : ℕ → ℕ) → weigh w xs ≡ weigh w ys

abbrev pub Bag : Type 0
Bag = Quot SameItems

abbrev pub bag_of : List ℕ → Bag
bag_of = Quot.mk

pub bag_of-eq : {xs ys : List ℕ} → SameItems xs ys → bag_of xs ≡ bag_of ys
bag_of-eq h = Quot.sound h
