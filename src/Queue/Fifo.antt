-- ===== src/Queue/Fifo.antt =====
-- What `LockFreeQueue` promises one caller at a time: a first-in, first-out queue of bounded length.
use mathlib.Core.Logic.{ite}
use itc_platform.Common.{
  ℕ, Bool, true, false, Option, none, some, List, [], ◌∷◌, ◌++◌, length, ℕ_discrete,
}

unfoldable pub try_pop : List ℕ → Option ℕ × List ℕ
try_pop [] = (none, [])
try_pop (x ∷ xs) = (some x, xs)

unfoldable pub try_push : ℕ → ℕ → List ℕ → Bool × List ℕ
try_push cap x xs = ite (ℕ_discrete (length xs) cap) (false, xs) (true, xs ++ (x ∷ []))

-- What a caller asks, and what it sees of the answer.
pub data Call : Type 0 where
  put : ℕ → Call
  get : Call

pub data Answer : Type 0 where
  pushed : Bool → Answer
  popped : Option ℕ → Answer

unfoldable pub run : ℕ → List ℕ → List Call → List Answer
run cap xs [] = []
run cap xs (put x ∷ calls) = let (done, ys) = try_push cap x xs in pushed done ∷ run cap ys calls
run cap xs (get ∷ calls) = let (out, ys) = try_pop xs in popped out ∷ run cap ys calls
