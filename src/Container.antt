-- ===== src/Container.antt =====
-- sw/itc-common/inc/itcConcurrentContainer.h: a fixed array of entries, a queue of those that are
-- free, and a map from names to those in use. A pointer to the entry `i` is `i + 1`, nullptr is 0.
pub mod Pool
pub mod Names
pub mod Release
pub mod Threads
use text.Mathlib.Text.{◌==◌ as str_eq}
use Prim.Native.String.{String}
use itc_platform.Common.{
  ℕ, zero, suc, ◌+◌, ◌<◌, Bool, true, false, Option, none, some, List, [], ◌∷◌, if◌then◌else◌, ltb,
}
use itc_platform.Common.Family.{update}
use itc_platform.Queue
use itc_platform.Queue.{Queue, Config, sub32, empty_queue}

abbrev pub Names : Type 0
Names = List (String × ℕ)

pub record Container (T : Type 0) : Type 0 where
  pub entries : ℕ → T
  pub inactive : Queue
  pub active : Names

-- `m_activeEntries.find`, `emplace` and `erase`.
unfoldable pub find : String → Names → Option ℕ
find key [] = none
find key ((name, entry) ∷ names) = if str_eq name key then some entry else find key names

unfoldable pub erase : String → Names → Names
erase key [] = []
erase key ((name, entry) ∷ names) =
    if str_eq name key then erase key names else (name, entry) ∷ erase key names

-- The index behind a pointer, within an array of `size` entries.
unfoldable pub entry_at : ℕ → ℕ → Option ℕ
entry_at size zero = none
entry_at size (suc i) = if ltb i size then some i else none

-- `at`: the address is computed, and the index is not tested.
unfoldable pub at : ℕ → ℕ
at index = index + 1

module _ {T : Type 0} where
  unfoldable pub add_entry_to_hash_map : String → ℕ → Container T → Bool × Container T
  add_entry_to_hash_map key entry c = elim (find key c.active) [
    | some _ ↦ (false, c)
    | none ↦ (true, record c { active = (key, entry) ∷ c.active })
  ]

  unfoldable pub remove_entry_from_hash_map : String → Container T → Bool × Container T
  remove_entry_from_hash_map key c = elim (find key c.active) [
    | none ↦ (false, c)
    | some _ ↦ (true, record c { active = erase key c.active })
  ]

  -- The test is `found != cend()`: what is found is answered by nullptr, and what is not found by a
  -- read through the end iterator, here `none`.
  unfoldable pub look_up_from_hash_map : String → Container T → Option ℕ
  look_up_from_hash_map key c = elim (find key c.active) [ some _ ↦ some 0 | none ↦ none ]

  module _ (cfg : Config) where
    -- `none` is a wait that no other thread ends.
    unfoldable pub try_push_into_queue : ℕ → Container T → Option (Bool × Container T)
    try_push_into_queue entry c = elim (Queue.try_push cfg entry c.inactive) [
      | none ↦ none
      | some (pushed, queue) ↦ some (pushed, record c { inactive = queue })
    ]

    -- It calls `pop`, which waits, and not `tryPop`.
    unfoldable pub try_pop_from_queue : Container T → Option (ℕ × Container T)
    try_pop_from_queue c = elim (Queue.pop cfg c.inactive) [
      | none ↦ none
      | some (entry, queue) ↦ some (entry, record c { inactive = queue })
    ]

    -- `SIZE - m_inactiveEntries.size()`; `capacity` is SIZE.
    unfoldable pub size : ℕ → Container T → ℕ
    size capacity c = sub32 capacity (Queue.size cfg c.inactive)

  -- The loop of the constructor from entry `i` on, for `rounds` more entries. `fresh` is `T()`, and
  -- `initializer` the function that the constructor is given.
  module _ (cfg : Config) (fresh : T) (initializer : T → ℕ → T) where
    unfoldable pub fill : ℕ → ℕ → Container T → Option (Container T)
    fill zero i c = some c
    fill (suc rounds) i c = elim (Queue.try_push cfg (at i) c.inactive) [
      | none ↦ none
      | some (pushed, queue) ↦
          fill rounds (suc i)
            (record c { entries = update c.entries i (initializer fresh i); inactive = queue })
    ]

    unfoldable pub new_container : ℕ → Option (Container T)
    new_container capacity =
        fill capacity 0 (record { entries = λ _. fresh; inactive = empty_queue cfg; active = [] })

-- The loop of the destructor over the free entries: `none` is a wait, or the end of the fuel.
unfoldable pub drop_free : Config → ℕ → Queue → Option Queue
drop_free cfg zero q = none
drop_free cfg (suc fuel) q = elim (Queue.empty cfg q) [
  | true ↦ some q
  | false ↦ elim (Queue.pop cfg q) [ none ↦ none | some (entry, q') ↦ drop_free cfg fuel q' ]
]

-- The destructor. The memory of the entries is given back, and no destructor of an entry is called.
unfoldable pub destroy : {T : Type 0} → Config → ℕ → Container T → Option (Container T)
destroy cfg fuel c = elim (drop_free cfg fuel c.inactive) [
  | none ↦ none
  | some q ↦ some (record c { inactive = q; active = [] })
]
