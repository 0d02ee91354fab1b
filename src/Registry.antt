-- ===== src/Registry.antt =====
-- The drivers of a process: the table of `driver` in tamer/dinternal.cc and tamer/xdriver.hh, and the number
-- made of a driver and a descriptor in tamer/dinternal.hh. A driver is a number.
pub mod Laws
mod Tests
use tamer.Prelude.{
  ℕ, zero, suc, ◌+◌, ◌-◌, ◌/◌, ◌%◌, Bool, true, false, Option, none, some, ltb, ◌==◌, if◌then◌else◌,
  store, add32, mul32,
}

abbrev pub capacity : ℕ
capacity = 256

pub record Registry : Type 0 where
  pub indexed : ℕ → Option ℕ
  pub next_index : ℕ
  pub main : Option ℕ

abbrev pub initial : Registry
initial = record { indexed = λ _. none; next_index = 0; main = none }

abbrev pub is_free : Option ℕ → Bool
is_free none = true
is_free (some d) = false

-- The loop of the constructor, from `i` on with `n` slots to go.
unfoldable pub find_free : (ℕ → Option ℕ) → ℕ → ℕ → ℕ
find_free indexed i zero = i
find_free indexed i (suc n) =
    let rest = find_free indexed (i + 1) n in if is_free (indexed i) then i else rest

unfoldable pub choose_index : Registry → ℕ
choose_index g = if ltb g.next_index capacity then g.next_index else find_free g.indexed 0 capacity

-- The constructor, with the index; `none` is the failed assertion.
unfoldable pub create : Registry → ℕ → Option (ℕ × Registry)
create g d =
    if ltb (choose_index g) capacity
    then some (
      choose_index g,
      record g {
        indexed = store g.indexed (choose_index g) (some d);
        next_index = if ltb g.next_index capacity then g.next_index + 1 else g.next_index;
      },
    )
    else none

abbrev pub is_driver : Option ℕ → ℕ → Bool
is_driver none d = false
is_driver (some e) d = e == d

-- the destructor of the driver with that index
unfoldable pub destroy : Registry → ℕ → ℕ → Registry
destroy g d index = record g {
  indexed = store g.indexed index none;
  main = if is_driver g.main d then none else g.main;
}

unfoldable pub by_index : Registry → ℕ → Option ℕ
by_index g index = if ltb index capacity then g.indexed index else none

-- `fd * driver::capacity` is a 32-bit number, and so is the sum.
unfoldable pub make_fd_callback : ℕ → ℕ → ℕ
make_fd_callback index fd = add32 index (mul32 fd capacity)

unfoldable pub fd_callback_driver : Registry → ℕ → Option ℕ
fd_callback_driver g x = by_index g (x % capacity)

unfoldable pub fd_callback_fd : ℕ → ℕ
fd_callback_fd x = x / capacity
