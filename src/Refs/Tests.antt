-- ===== src/Refs/Tests.antt =====
-- Reference counts at concrete inputs.
use tamer.Prelude.{zero, suc, ◌≡◌, refl, [], ◌∷◌, none, some, arith}
use tamer.Refs.Balance.{Balanced}
use tamer.Refs.{Objects, Memory, assign, apply}
use tamer.Refs.Pointers.{pointers, IsValid}
use tamer.Refs.Apply.{apply_lem}

-- object 1 with two references, object 2 with one and a passive one
abbrev objects : Objects
objects zero = none
objects (suc zero) = some (record { use_count = 2; weak_count = 0 })
objects (suc (suc zero)) = some (record { use_count = 1; weak_count = 1 })
objects (suc (suc (suc t))) = none

abbrev memory : Memory
memory = record {
  objs = objects;
  refs = some 1 ∷ some 2 ∷ none ∷ some 1 ∷ [];
  passive = some 2 ∷ [];
}

memory-Balanced : Balanced objects (λ t. pointers t memory.refs) (λ t. pointers t memory.passive)
memory-Balanced zero = (refl, refl)
memory-Balanced (suc zero) = (refl, refl, omega arith)
memory-Balanced (suc (suc zero)) = (refl, refl, omega arith)
memory-Balanced (suc (suc (suc t))) = (ground arith, ground arith)

memory-IsValid : IsValid memory
memory-IsValid = record { balanced = memory-Balanced }

apply_lem_example : (n : Memory) × (apply memory (assign 1 0) ≡ some n) × IsValid n
apply_lem_example =
    apply_lem memory (assign 1 0) memory-IsValid
      (record { refs_room = omega arith; passive_room = omega arith }) (omega arith, omega arith)
