-- ===== src/Fd/Tests.antt =====
-- Descriptors 5 and 6: handles that are copied, moved, assigned and closed.
use tamer.Prelude.{
  ℕ, ◌⊎◌, length, ◌≡◌, ◌≤◌, ◌^◌, ◌-◌, refl, true, List, [], ◌∷◌, Option, none, some, arith,
}
use tamer.Prelude.Int.{ℤ, pos}
use tamer.Refs.Pointers.{pointers}
use tamer.Fd.{
  Memory, deref, close, Outside, Impl, Op, make, copy, assign, destroy, watch, new_impl, apply,
}
use tamer.Fd.Closing.{handed, shut}
use tamer.Fd.Lifetime.{start, run, Program, run_lem, closed_down, closer_lem}

-- `::close` succeeds
abbrev quiet : Outside
quiet = record { main = true; result = λ tr fd. pos 0 }

abbrev two_handles : List Op
two_handles = make 0 (pos 5) ∷ copy 0 ∷ make 1 (pos 6) ∷ watch 0 ∷ assign 0 2 ∷ destroy 1 ∷ []

abbrev both_shut : Option Memory → List ℤ × List ℤ
both_shut none = ([], [])
both_shut (some m) = (shut 0 m.world.trace, shut 1 m.world.trace)

two_handles-Program : Program quiet start two_handles
unfolding Program apply handed deref close new_impl
two_handles-Program = (
  record { strong_room = omega arith; weak_room = omega arith },
  (refl, refl),
  (
    record { strong_room = omega arith; weak_room = omega arith },
    omega arith,
    (
      record { strong_room = omega arith; weak_room = omega arith },
      (refl, refl),
      (
        record { strong_room = omega arith; weak_room = omega arith },
        omega arith,
        (
          record { strong_room = omega arith; weak_room = omega arith },
          (omega arith, omega arith),
          (record { strong_room = omega arith; weak_room = omega arith }, omega arith, tt),
        ),
      ),
    ),
  ),
)

run_lem_example :
    (n : Memory) × (run quiet start two_handles ≡ some n)
    × ((t : ℕ)
        → (length (handed t n.world.trace) ≤ 1)
          × ((shut t n.world.trace ≡ []) ⊎ (shut t n.world.trace ≡ handed t n.world.trace))
          × (pointers t n.strong ≡ 0 → shut t n.world.trace ≡ handed t n.world.trace))
run_lem_example = run_lem quiet two_handles two_handles-Program

-- the first descriptor is closed once, with its last strong handle, and the second is open
two_handles_closed : both_shut (run quiet start two_handles) ≡ (pos 5 ∷ [], [])
unfolding run apply deref close shut new_impl
two_handles_closed = refl

abbrev five : Impl
five = record { fde = pos 0; fdv = pos 5; ref_count = 1; weak_count = 0 }

closer_lem_example :
    (n : Impl) × ((closed_down quiet 0 five []).0 ≡ some n)
    × (n.ref_count ≡ 0)
    × (n.weak_count ≡ 2 ^ 32 - 2)
closer_lem_example = closer_lem quiet 0 five [] refl refl (λ h. refl)
