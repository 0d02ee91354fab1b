-- ===== src/Registry/Laws.antt =====
-- A driver has a slot of its own in the table, and is found from its callbacks.
use tamer.Prelude.{
  ℕ, zero, suc, ◌+◌, ◌^◌, ◌≤◌, ◌<◌, ◌≡◌, ◌≢◌, refl, ap, subst, ◌∙◌, ◌⊎◌, inl, inr, false, Option,
  none, some, arith, ltb, ◌==◌, if◌then◌else◌, store, Bool-cases,
}
use tamer.Registry.{
  capacity, Registry, is_free, find_free, choose_index, create, by_index, make_fd_callback,
  fd_callback_driver, fd_callback_fd,
}

-- No driver has a slot that was not given out yet.
pub record IsValid (g : Registry) : Type 0 where
  pub unused : (i : ℕ) → g.next_index ≤ i → g.indexed i ≡ none
  pub room : g.next_index ≤ capacity

-- The first free slot from `i` on, or none.
find_free_lem :
    (indexed : ℕ → Option ℕ) (i n : ℕ)
    → (find_free indexed i n ≤ i + n)
      × (find_free indexed i n < i + n → indexed (find_free indexed i n) ≡ none)
      × ((j : ℕ) → i ≤ j → j < find_free indexed i n → is_free (indexed j) ≡ false)
unfolding find_free
find_free_lem indexed i zero =
    (omega arith, (λ lt. absurd (omega arith)), λ j lo hi. absurd (omega arith))
find_free_lem indexed i (suc n) =
    let (le, free, taken) = find_free_lem indexed (i + 1) n in
    elim (Bool-cases (is_free (indexed i))) [
      | inl here ↦ (
        ground (arith, here),
        (λ lt. ground (arith, here)),
        λ j lo hi. absurd (ground (arith, here, hi)),
      )
      | inr used ↦ (
        ground (arith, used, le),
        (λ lt. ap indexed (ground (arith, used)) ∙ free (ground (arith, used, lt))),
        λ j lo hi. elim (Bool-cases (i == j)) [
          | inl same ↦
              let e : i ≡ j = ground arith in subst (λ k. is_free (indexed k) ≡ false) e used
          | inr other ↦ taken j (ground arith) (ground (arith, used, hi))
        ],
      )
    ]

choose_index_lem :
    (g : Registry)
    → IsValid g
    → (choose_index g < capacity → g.indexed (choose_index g) ≡ none)
      × (g.next_index < capacity → choose_index g ≡ g.next_index)
      × (capacity ≤ choose_index g → (j : ℕ) → j < capacity → is_free (g.indexed j) ≡ false)
unfolding choose_index
choose_index_lem g v =
    let (le, free, taken) = find_free_lem g.indexed 0 256 in
    elim (Bool-cases (ltb g.next_index 256)) [
      | inl more ↦ rw more (
        (λ lt. v.unused g.next_index (omega arith)),
        (λ lt. refl),
        λ full. absurd (ground (arith, more, full)),
      )
      | inr all ↦ rw all (
        (λ lt. free (omega arith)),
        (λ lt. absurd (ground (arith, all))),
        λ full j lt. taken j (omega arith) (omega arith),
      )
    ]

-- The number of a driver and a descriptor gives both back.
callback_lem :
    (g : Registry) (index fd : ℕ)
    → index < capacity
    → fd < 2 ^ 24
    → (fd_callback_driver g (make_fd_callback index fd) ≡ by_index g index)
      × (fd_callback_fd (make_fd_callback index fd) ≡ fd)
unfolding fd_callback_driver fd_callback_fd make_fd_callback
callback_lem g index fd lo hi = (ap (by_index g) (omega arith), omega arith)

-- The driver is in a slot that was free, every other slot is as it was, and the driver and a descriptor below
-- 2^24 come back from their callback.
pub record Registers (g : Registry) (d index : ℕ) (h : Registry) : Type 0 where
  pub valid : IsValid h
  pub below : index < capacity
  pub was_free : g.indexed index ≡ none
  pub others : (j : ℕ) → j ≢ index → h.indexed j ≡ g.indexed j
  pub found :
      (fd : ℕ)
      → fd < 2 ^ 24
      → (fd_callback_driver h (make_fd_callback index fd) ≡ some d)
        × (fd_callback_fd (make_fd_callback index fd) ≡ fd)

registered-Registers :
    (g : Registry) (d index : ℕ)
    → IsValid g
    → index < capacity
    → g.indexed index ≡ none
    → (g.next_index < capacity → index ≡ g.next_index)
    → Registers g d index (record {
      indexed = store g.indexed index (some d);
      next_index = if ltb g.next_index capacity then g.next_index + 1 else g.next_index;
      main = g.main;
    })
registered-Registers g d index v lt free fits =
    let h : Registry = record {
      indexed = store g.indexed index (some d);
      next_index = if ltb g.next_index 256 then g.next_index + 1 else g.next_index;
      main = g.main;
    } in
    record {
      valid = record {
        unused = λ i le. ground (arith, v.unused i, fits, lt);
        room = ground (arith, v.room);
      };
      below = lt;
      was_free = free;
      others = λ j ne. ground arith;
      found = λ fd small.
          let (who, which) = callback_lem h index fd lt small in
          (who ∙ unfold by_index in (ground (arith, lt)), which);
    }

-- A driver that is made gets a slot that was free, and no other driver loses its slot; from the callback of the
-- driver and any descriptor below 2^24 both come back. The assertion fails exactly if every slot is in use.
pub create_lem :
    (g : Registry) (d : ℕ)
    → IsValid g
    → ((create g d ≡ none) × ((j : ℕ) → j < capacity → is_free (g.indexed j) ≡ false))
      ⊎ ((index : ℕ) × (h : Registry) × (create g d ≡ some (index, h)) × Registers g d index h)
unfolding create
create_lem g d v =
    let (free, fits, full) = choose_index_lem g v in
    elim (Bool-cases (ltb (choose_index g) capacity)) [
      | inr none_free ↦ inl (ground (arith, none_free), full (ground arith))
      | inl some_free ↦
          let lt : choose_index g < capacity = ground arith in
          inr (
            choose_index g,
            _,
            ground (arith, some_free),
            registered-Registers g d (choose_index g) v lt (free lt) fits,
          )
    ]
