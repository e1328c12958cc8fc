-- ===== src/Container/Pool.antt =====
-- The free entries of a container (sw/itc-common/inc/itcConcurrentContainer.h): what the constructor
-- sets up, and what taking and returning an entry does to the number of entries in use.
use itc_platform.Common.{
  ℕ, zero, suc, ◌+◌, ◌^◌, ◌≤◌, ◌<◌, ◌≡◌, ◌≢◌, refl, sym, ap, ◌∙◌, arith, ◌⊎◌, inl, inr, true,
  Option, none, some, List, [], ◌∷◌, ◌++◌, length, length-append, ℕ_discrete,
}
use mathlib.Core.List.{append_assoc, append-nil}
use itc_platform.Queue
use itc_platform.Queue.{Queue, Config}
use itc_platform.Queue.Slots.{IsConfig}
use itc_platform.Queue.Window.{contents, IsQueue, empty_queue-IsQueue}
use itc_platform.Queue.Refine.{try_push-append, pop-refines, size-length}
use itc_platform.Common.Family.{update, update_self, update_ne}
use itc_platform.Container.{
  Container, at, fill, new_container, size, try_push_into_queue, try_pop_from_queue,
}

-- The pointers to `n` entries from entry `i` on.
abbrev pub pointers : ℕ → ℕ → List ℕ
pointers zero i = []
pointers (suc n) i = at i ∷ pointers n (suc i)

length-pointers : (n i : ℕ) → length (pointers n i) ≡ n
length-pointers zero i = refl
length-pointers (suc n) i = ap suc (length-pointers n (suc i))

at-ne-null : (i : ℕ) → at i ≢ 0
unfolding at
at-ne-null i e = absurd (omega arith)

module _ {T : Type 0} {cfg : Config} (v : IsConfig cfg) (null : cfg.nil ≡ 0) where
  abbrev pub free_entries : Container T → List ℕ
  free_entries c = contents cfg c.inactive

  -- The free entries are queued, and the array has no more entries than the queue can hold.
  pub record IsContainer (capacity : ℕ) (c : Container T) : Type 0 where
    pub queue_valid : IsQueue cfg c.inactive
    pub within : length (free_entries c) ≤ capacity
    pub fits : capacity < 2 ^ 32

  -- `size` and the number of free entries make up the capacity.
  pub size-add-free :
      (capacity : ℕ) (c : Container T)
      → IsContainer capacity c
      → size cfg capacity c + length (free_entries c) ≡ capacity
  unfolding size
  size-add-free capacity c i =
      omega (arith, size-length v c.inactive i.queue_valid, i.within, i.fits)

  -- Taking a free entry hands out the one that has been free for longest, and counts one entry more
  -- in use; with no free entry the call waits.
  pub try_pop_from_queue_lem :
      (capacity : ℕ) (c : Container T)
      → IsContainer capacity c
      → ((free_entries c ≡ []) × (try_pop_from_queue cfg c ≡ none))
        ⊎ ((entry : ℕ) × (c' : Container T) × (try_pop_from_queue cfg c ≡ some (entry, c'))
            × (free_entries c ≡ entry ∷ free_entries c')
            × (size cfg capacity c' ≡ size cfg capacity c + 1)
            × IsContainer capacity c')
  unfolding try_pop_from_queue
  try_pop_from_queue_lem capacity c i = elim (pop-refines v c.inactive i.queue_valid) [
    | inl (nothing, waits) ↦ inl (nothing, ground arith)
    | inr (entry, q', run, taken, valid) ↦
        let c' : Container T = record c { inactive = q' } in
        let i' : IsContainer capacity c' = record {
          queue_valid = valid;
          within = omega (arith, i.within, ap length taken);
          fits = i.fits;
        } in
        inr (
          entry,
          c',
          ground arith,
          taken,
          omega (arith, size-add-free capacity c i, size-add-free capacity c' i', ap length taken),
          i',
        )
  ]

  -- Returning an entry while some are in use puts it behind the free ones, and counts one less.
  pub try_push_into_queue_lem :
      (capacity entry : ℕ) (c : Container T)
      → IsContainer capacity c
      → capacity ≤ cfg.size
      → entry ≢ 0
      → 0 < size cfg capacity c
      → (c' : Container T) × (try_push_into_queue cfg entry c ≡ some (true, c'))
        × (free_entries c' ≡ free_entries c ++ (entry ∷ []))
        × (size cfg capacity c' + 1 ≡ size cfg capacity c)
        × IsContainer capacity c'
  unfolding try_push_into_queue
  try_push_into_queue_lem capacity entry c i le ne used =
      let room : length (free_entries c) < cfg.size = omega (arith, size-add-free capacity c i) in
      let (q', run, added, valid) =
        try_push-append v c.inactive entry i.queue_valid (rw null ne) room in
      let c' : Container T = record c { inactive = q' } in
      let more : length (free_entries c') ≡ length (free_entries c) + 1 =
        ap length added ∙ length-append (free_entries c) (entry ∷ []) in
      let i' : IsContainer capacity c' = record {
        queue_valid = valid;
        within = omega (arith, size-add-free capacity c i);
        fits = i.fits;
      } in
      (
        c',
        ground (arith, run),
        added,
        omega (arith, size-add-free capacity c i, size-add-free capacity c' i'),
        i',
      )

  module _ (fresh : T) (initializer : T → ℕ → T) where
    -- The entries from `i` on are set up and queued, those before it are left as they are.
    record Filled (rounds i : ℕ) (c : Container T) (out : Option (Container T)) : Type 0 where
      full : Container T
      result : out ≡ some full
      queued : free_entries full ≡ free_entries c ++ pointers rounds i
      valid : IsQueue cfg full.inactive
      set_up : (j : ℕ) → i ≤ j → j < i + rounds → full.entries j ≡ initializer fresh j
      kept : (j : ℕ) → j < i → full.entries j ≡ c.entries j
      unnamed : full.active ≡ c.active

    fill-Filled :
        (rounds i : ℕ) (c : Container T)
        → IsQueue cfg c.inactive
        → length (free_entries c) + rounds ≤ cfg.size
        → Filled rounds i c (fill cfg fresh initializer rounds i c)
    unfolding fill
    fill-Filled zero i c valid room = record {
      full = c;
      result = refl;
      queued = sym (append-nil (free_entries c));
      valid = valid;
      set_up = λ j h k. absurd (omega arith);
      kept = λ j h. refl;
      unnamed = refl;
    }
    fill-Filled (suc rounds) i c valid room =
        let (q', run, added, valid') =
          try_push-append v c.inactive (at i) valid (rw null (at-ne-null i)) (omega arith) in
        let c' : Container T = record c {
          entries = update c.entries i (initializer fresh i);
          inactive = q';
        } in
        let more : length (free_entries c') ≡ length (free_entries c) + 1 =
          ap length added ∙ length-append (free_entries c) (at i ∷ []) in
        let r : Filled rounds (suc i) c' (fill cfg fresh initializer rounds (suc i) c') =
          fill-Filled rounds (suc i) c' valid' (omega arith) in
        record {
          full = r.full;
          result = ground (arith, run, r.result);
          queued =
              r.queued
              ∙ ap (λ xs. xs ++ pointers rounds (suc i)) added
              ∙ append_assoc (free_entries c) (at i ∷ []) (pointers rounds (suc i));
          valid = r.valid;
          set_up = λ j h k. elim (ℕ_discrete i j) [
            | yes e ↦
                r.kept j (omega arith) ∙ rw (← e) (update_self c.entries i (initializer fresh i))
            | no ne ↦ r.set_up j (omega arith) (omega arith)
          ];
          kept = λ j h.
              r.kept j (omega arith)
              ∙ update_ne c.entries i (initializer fresh i) j (λ e. absurd (omega arith));
          unnamed = r.unnamed;
        }

    -- The constructor ends without a wait: every entry of the array is set up by the initializer,
    -- all are free, entry 0 first, and none is in use or named.
    pub new_container_lem :
        (capacity : ℕ)
        → capacity ≤ cfg.size
        → (c : Container T) × (new_container cfg fresh initializer capacity ≡ some c)
          × (free_entries c ≡ pointers capacity 0)
          × ((j : ℕ) → j < capacity → c.entries j ≡ initializer fresh j)
          × (c.active ≡ [])
          × (size cfg capacity c ≡ 0)
          × IsContainer capacity c
    unfolding new_container Queue.empty_queue
    new_container_lem capacity le =
        let empty : Container T = record {
          entries = λ _. fresh;
          inactive = Queue.empty_queue cfg;
          active = [];
        } in
        let r : Filled capacity 0 empty (fill cfg fresh initializer capacity 0 empty) =
          fill-Filled capacity 0 empty (empty_queue-IsQueue v) (omega (arith, le)) in
        let free : length (free_entries r.full) ≡ capacity =
          ap length r.queued ∙ length-pointers capacity 0 in
        let i : IsContainer capacity r.full = record {
          queue_valid = r.valid;
          within = omega arith;
          fits = omega (arith, v.small);
        } in
        (
          r.full,
          r.result,
          r.queued,
          (λ j h. r.set_up j (omega arith) (omega arith)),
          r.unnamed,
          omega (arith, size-add-free capacity r.full i),
          i,
        )
