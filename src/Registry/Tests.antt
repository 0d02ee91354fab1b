-- ===== src/Registry/Tests.antt =====
-- The table of drivers at concrete inputs.
use tamer.Prelude.{ℕ, ◌<◌, ◌≡◌, ◌⊎◌, false, none, some, arith, ◌==◌, if◌then◌else◌}
use tamer.Registry.{capacity, Registry, is_free, create}
use tamer.Registry.Laws.{IsValid, Registers, create_lem}

-- two drivers
abbrev two_drivers : Registry
two_drivers = record {
  indexed = λ i. if i == 0 then some 7 else if i == 1 then some 8 else none;
  next_index = 2;
  main = some 7;
}

two_drivers-IsValid : IsValid two_drivers
two_drivers-IsValid = record { unused = λ i le. ground arith; room = omega arith }

create_lem_example :
    ((create two_drivers 9 ≡ none)
      × ((j : ℕ) → j < capacity → is_free (two_drivers.indexed j) ≡ false))
    ⊎ ((index : ℕ) × (h : Registry) × (create two_drivers 9 ≡ some (index, h))
        × Registers two_drivers 9 index h)
create_lem_example = create_lem two_drivers 9 two_drivers-IsValid
