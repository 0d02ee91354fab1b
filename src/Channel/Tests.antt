-- ===== src/Channel/Tests.antt =====
-- Two events wait, one value comes, a third event waits behind the second.
use tamer.Channel.Canceled.{run_timed, values, Delivered, run_timed_lem}
use tamer.Prelude.{ℕ, Bool, ◌==◌, ◌≡◌, refl, true, List, [], ◌∷◌, ◌++◌, map}
use tamer.Channel.{initial}
use tamer.Channel.Fifo.{Op, push, pop, run, run-fifo}

abbrev ops : List (Op ℕ)
ops = pop 1 ∷ pop 2 ∷ push 70 ∷ pop 3 ∷ push 71 ∷ []

run-fifo_example :
    (map (λ d. d.1) (run (λ _. true) initial ops).0 ++ (run (λ _. true) initial ops).1.q
      ≡ 70 ∷ 71 ∷ [])
    × (map (λ d. d.0) (run (λ _. true) initial ops).0 ++ (run (λ _. true) initial ops).1.waitq
        ≡ 1 ∷ 2 ∷ 3 ∷ [])
run-fifo_example = run-fifo (λ _. true) ops (refl, (refl, (refl, tt)))

-- event 1 is canceled before the value comes
abbrev canceled : List ((ℕ → Bool) × Op ℕ)
canceled =
    (λ e. true, pop 1) ∷ (λ e. true, pop 2) ∷ (λ e. e == 2, push 70) ∷ (λ e. true, push 71) ∷ []

run_timed_lem_example :
    (values (run_timed initial canceled).0 ++ (run_timed initial canceled).1.q ≡ 70 ∷ 71 ∷ [])
    × Delivered (run_timed initial canceled).0
run_timed_lem_example = run_timed_lem canceled (refl, (refl, tt))
