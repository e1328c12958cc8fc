-- ===== src/Examples/Containers.antt =====
-- A container of two entries (sw/itc-common/inc/itcConcurrentContainer.h).
use itc_platform.Common.{ℕ, ◌^◌, ◌≡◌, refl, arith, some, [], ◌∷◌}
use itc_platform.Queue
use itc_platform.Queue.{Config, remap_index, Queue}
use itc_platform.Queue.Slots.{IsConfig}
use itc_platform.Queue.Window.{contents, empty_queue-IsQueue}
use itc_platform.Container.{Container, destroy}
use itc_platform.Container.Pool.{IsContainer}
use itc_platform.Container.Release.{destroy_lem}

abbrev two : Config
two = record { size = 2; bits = 0; nil = 0 }

two-IsConfig : IsConfig two
two-IsConfig = record {
  size_pos = omega arith;
  small = omega arith;
  divides = ∣ (2 ^ 31, λ i. 2 ^ 32) ∣₁;
  bits_small = omega arith;
  blocks = 2;
  in_blocks = refl;
}

-- Both entries are in use, and one of them has a name.
abbrev taken : Container ℕ
taken = record { entries = λ i. i; inactive = Queue.empty_queue two; active = ("alpha", 1) ∷ [] }

taken-IsContainer : IsContainer {T = ℕ} two-IsConfig refl 2 taken
unfolding Queue.empty_queue
taken-IsContainer = record {
  queue_valid = empty_queue-IsQueue two-IsConfig;
  within = omega arith;
  fits = omega arith;
}

destroy_example :
    (c' : Container ℕ) × (destroy two 3 taken ≡ some c')
    × (contents two c'.inactive ≡ [])
    × (c'.active ≡ [])
destroy_example = destroy_lem two-IsConfig refl 2 taken taken-IsContainer
