-- ===== src/Container/Names.antt =====
-- The map from names to entries of a container (sw/itc-common/inc/itcConcurrentContainer.h).
use Prim.Native.String.{String}
use text.Mathlib.Text.{◌==◌ as str_eq}
use text.Mathlib.TextEquality.{eq_iff}
use itc_platform.Common.{ℕ, ◌≡◌, arith, true, false, none, some, [], ◌∷◌, if◌then◌else◌}
use itc_platform.Container.{
  Container, Names, find, erase, add_entry_to_hash_map, remove_entry_from_hash_map,
  look_up_from_hash_map,
}

find-erase :
    (key other : String) (names : Names)
    → find other (erase key names) ≡ (if str_eq key other then none else find other names)
unfolding find erase
find-erase key other [] = ground arith
find-erase key other ((name, entry) ∷ names) =
    ground (arith, eq_iff key other, eq_iff name key, eq_iff name other, find-erase key other names)

module _ {T : Type 0} (c : Container T) where
  -- A name is added exactly when it is new; afterwards it names the entry that was given, unless it
  -- was taken, and all other names are as before.
  pub find-add :
      (key other : String) (entry : ℕ)
      → let (added, c') = add_entry_to_hash_map key entry c in
        (added ≡ (elim (find key c.active) [ some _ ↦ false | none ↦ true ]))
        × (find other c'.active ≡ (
            if added
            then (if str_eq key other then some entry else find other c.active)
            else find other c.active))
  unfolding add_entry_to_hash_map find
  find-add key other entry = ground arith

  -- Removal answers whether the name was there; afterwards it names nothing, and all other names are
  -- as before.
  pub find-remove :
      (key other : String)
      → let (removed, c') = remove_entry_from_hash_map key c in
        (removed ≡ (elim (find key c.active) [ some _ ↦ true | none ↦ false ]))
        × (find other c'.active ≡ (if str_eq key other then none else find other c.active))
  unfolding remove_entry_from_hash_map
  find-remove key other = ground (arith, find-erase key other c.active, eq_iff key other)

  -- The look-up is the wrong way round: a name that was added is answered by nullptr, and every name
  -- that is not in the map by a read through the end iterator.
  pub look_up-add :
      (key : String) (entry : ℕ)
      → find key c.active ≡ none
      → (look_up_from_hash_map key c ≡ none)
        × (look_up_from_hash_map key (add_entry_to_hash_map key entry c).1 ≡ some 0)
  unfolding look_up_from_hash_map add_entry_to_hash_map find
  look_up-add key entry new = ground (arith, eq_iff key key)
