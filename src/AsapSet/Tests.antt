-- ===== src/AsapSet/Tests.antt =====
-- The ring of `driver_asapset` at concrete inputs.
use tamer.Prelude.{ℕ, ◌+◌, ◌-◌, ◌^◌, ◌≡◌, refl, ◌⊎◌, inr, [], ◌∷◌, ◌++◌, none, some, arith}
use tamer.AsapSet.{AsapSet, push, pop_trigger}
use tamer.AsapSet.Fifo.{IsValid, contents, push_fifo, pop_fifo}

-- 32 slots; the counters pass 2^32
abbrev wrapped : AsapSet
wrapped = record { ses = λ i. i; head = 2 ^ 32 - 2; tail = 2; capmask = 31 }

wrapped-IsValid : IsValid wrapped
wrapped-IsValid = record {
  capacity = inr (5, omega arith, refl);
  head_small = omega arith;
  tail_small = omega arith;
  fits = omega arith;
}

contents-wrapped : contents wrapped ≡ 30 ∷ 31 ∷ 0 ∷ 1 ∷ []
contents-wrapped = refl

-- the ring is full before the 33rd push, and grows
abbrev full : AsapSet
full = record { ses = λ i. i + 100; head = 5; tail = 37; capmask = 31 }

full_grows : (push full 7).capmask ≡ 127
unfolding push
full_grows = refl

full-IsValid : IsValid full
full-IsValid = record {
  capacity = inr (5, omega arith, refl);
  head_small = omega arith;
  tail_small = omega arith;
  fits = omega arith;
}

push_fifo_example : IsValid (push full 7) × (contents (push full 7) ≡ contents full ++ (7 ∷ []))
push_fifo_example = push_fifo full 7 full-IsValid (omega arith)

pop_fifo_example :
    ((pop_trigger wrapped ≡ none) × (contents wrapped ≡ []))
    ⊎ ((se : ℕ) × (b : AsapSet) × (pop_trigger wrapped ≡ some (se, b))
        × (contents wrapped ≡ se ∷ contents b)
        × IsValid b)
pop_fifo_example = pop_fifo wrapped wrapped-IsValid
