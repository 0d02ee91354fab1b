-- ===== src/Fd/Adopting.antt =====
-- A new `fdimp` gets its descriptor and its first handle.
use tamer.Prelude.{
  ℕ, ◌+◌, ◌≡◌, refl, sym, ◌∙◌, [], subst, inl, inr, true, false, List, none, some, ◌==◌, arith,
  Bool-cases,
}
use tamer.Prelude.Int.{ℤ, pos, negsuc}
use tamer.Refs.Balance.{hit}
use tamer.Fd.{new_impl, Call, World, adopted}
use tamer.Fd.Closing.{handed, shut, Held, Counted}
use tamer.Fd.Balance.{Held-counts}

-- The number has never been that of an `fdimp`.
abbrev pub New : World → ℕ → Type 0
New w t = (w.impls t ≡ none) × (handed t w.trace ≡ [])

abbrev trace_with : World → ℕ → ℤ → List Call
trace_with x t fd = (adopted x t fd).trace

adopted_here :
    (x : World) (t : ℕ) (fd : ℤ) (s w : ℕ)
    → s ≡ 0
    → w ≡ 0
    → handed t x.trace ≡ []
    → shut t x.trace ≡ []
    → Held
        (some (new_impl fd))
        (s + hit t (some t))
        w
        (handed t (trace_with x t fd))
        (shut t (trace_with x t fd))
unfolding new_impl handed shut
adopted_here x t (pos n) s w es ew ea ec =
    let self : (t == t) ≡ true = ground arith in
    rw self (
      (record {
        strong_count = omega arith;
        weak_counted = omega arith;
        one_descriptor = rw ea (omega arith);
        closed_once = rw ea (rw ec refl);
        number = λ o. refl;
        owned = λ o. omega arith;
      }),
      omega arith,
    )
adopted_here x t (negsuc n) s w es ew ea ec =
    let self : (t == t) ≡ true = ground arith in
    rw self (
      (record {
        strong_count = omega arith;
        weak_counted = omega arith;
        one_descriptor = rw ea (omega arith);
        closed_once = ec ∙ sym ea;
        number = λ o. o;
        owned = λ o. omega arith;
      }),
      omega arith,
    )

adopted_other :
    (x : World) (t : ℕ) (fd : ℤ) (u : ℕ)
    → (u == t) ≡ false
    → (handed u (trace_with x t fd) ≡ handed u x.trace)
      × (shut u (trace_with x t fd) ≡ shut u x.trace)
unfolding handed shut
adopted_other x t (pos n) u ne = (rw ne refl, refl)
adopted_other x t (negsuc n) u ne = (refl, refl)

-- A new `fdimp` with one handle.
pub adopted_lem :
    (x : World) (s w : ℕ → ℕ) (t : ℕ) (fd : ℤ)
    → Counted x s w
    → New x t
    → Counted (adopted x t fd) (λ u. s u + hit u (some t)) w
unfolding new_impl handed shut
adopted_lem x s w t fd v n u =
    let z : Held none (s t) (w t) (handed t x.trace) (shut t x.trace) =
      subst (λ o. Held o (s t) (w t) (handed t x.trace) (shut t x.trace)) (n.0) (v t) in
    elim (Bool-cases (t == u)) [
      | inl b ↦
          let eq : t ≡ u = ground arith in
          rw b (
            subst
              (λ k.
                Held (some (new_impl fd)) (s k + hit k (some t)) (w k)
                  (handed k (trace_with x t fd)) (shut k (trace_with x t fd)))
              eq (adopted_here x t fd (s t) (w t) z.0 z.1 n.1 (z.2 ∙ n.1)))
      | inr b ↦
          let ne : (u == t) ≡ false = ground arith in
          rw b (
            Held-counts (x.impls u) (s u) _ (w u) _ _ _ _ _ (rw ne (omega arith)) refl
              (adopted_other x t fd u ne).0 (adopted_other x t fd u ne).1 (v u))
    ]
