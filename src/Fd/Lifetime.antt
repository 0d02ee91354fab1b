-- ===== src/Fd/Lifetime.antt =====
-- Whole programs with handles, from the start; and `closer`.
use tamer.Prelude.{
  ℕ, ◌-◌, ◌^◌, ◌≤◌, ◌≡◌, refl, ap, ◌⊎◌, ◌++◌, length, subst, inl, inr, false, List, [], ◌∷◌, Option,
  none, some, arith, Option-cases,
}
use tamer.Refs.Pointers.{pointers}
use tamer.Prelude.Int.{ℤ, pos, negsuc}
use tamer.Fd.{
  is_neg, ebadf, Impl, Call, Outside, weak_ref, closing, deref, weak_deref, Memory, Op, apply,
}
use tamer.Fd.Closing.{handed, shut, opened_by, Held, close_lem}
use tamer.Fd.Balance.{shut_or}
use tamer.Fd.Handles.{IsValid, Room, Applies, apply-Applied}

-- No handles, and nothing done yet.
abbrev pub start : Memory
start = record { world = record { impls = λ t. none; trace = [] }; strong = []; weak = [] }

unfoldable pub run : Outside → Memory → List Op → Option Memory
run o m [] = some m
run o m (op ∷ ops) = elim (apply o m op) [ none ↦ none | some n ↦ run o n ops ]

-- Each operation applies where it stands.
unfoldable pub Program : Outside → Memory → List Op → Type 0
Program o m [] = Unit
Program o m (op ∷ ops) =
    Room m × Applies m op × elim (apply o m op) [ none ↦ Unit | some n ↦ Program o n ops ]

start-IsValid : IsValid start
unfolding handed shut
start-IsValid = record { counted = λ t. (refl, refl, refl, omega arith) }

none_or_all : (e v : ℤ) (a c : List ℤ) → opened_by e v ++ c ≡ a → length a ≤ 1 → (c ≡ []) ⊎ (c ≡ a)
none_or_all (negsuc n) v a c once one = inr once
none_or_all (pos n) v a [] once one = inl refl
none_or_all (pos n) v a (x ∷ c) once one =
    absurd (omega (arith, ap (λ (k : List ℤ). length k) once, one))

-- What an `fdimp` without a strong handle got is closed.
all_closed :
    (m : Memory) (t : ℕ)
    → IsValid m
    → (length (handed t m.world.trace) ≤ 1)
      × ((shut t m.world.trace ≡ []) ⊎ (shut t m.world.trace ≡ handed t m.world.trace))
      × (pointers t m.strong ≡ 0 → shut t m.world.trace ≡ handed t m.world.trace)
all_closed m t v = elim (Option-cases (m.world.impls t)) [
  | inl gone ↦
      let z : Held none (pointers t m.strong) (pointers t m.weak) (handed t m.world.trace)
          (shut t m.world.trace) =
        subst
          (λ o.
            Held o (pointers t m.strong) (pointers t m.weak) (handed t m.world.trace)
              (shut t m.world.trace))
          gone (v.counted t) in
      (z.3, inr z.2, λ h. z.2)
  | inr (i, e) ↦
      let z : Held (some i) (pointers t m.strong) (pointers t m.weak) (handed t m.world.trace)
          (shut t m.world.trace) =
        subst
          (λ o.
            Held o (pointers t m.strong) (pointers t m.weak) (handed t m.world.trace)
              (shut t m.world.trace))
          e (v.counted t) in
      let f = z.0 in
      (
        f.one_descriptor,
        none_or_all i.fde i.fdv _ _ f.closed_once f.one_descriptor,
        λ h.
            shut_or i.fde i.fdv _ _ f.closed_once
              (λ opened. absurd (omega (arith, f.owned opened, h))),
      )
]

run-IsValid :
    (o : Outside) (ops : List Op) (m : Memory)
    → IsValid m
    → Program o m ops
    → (n : Memory) × (run o m ops ≡ some n) × IsValid n
unfolding run Program
run-IsValid o [] m v p = (m, refl, v)
run-IsValid o (op ∷ ops) m v p =
    let (n, e, w) = apply-Applied o m op v p.0 p.1 in
    let rest : Program o n ops =
      subst (λ k. elim k as (λ x. Type 0) [ none ↦ Unit | some n ↦ Program o n ops ]) e p.2 in
    let (q, f, u) = run-IsValid o ops n w rest in (q, rw (e, run) f, u)

-- From a start without handles, a program of `fd` and `fdref` handles whose operations apply runs to its end,
-- touching no `fdimp` that is gone. Then no `fdimp` got more than one descriptor; it has called `::close` for
-- none, or exactly once and with the number of that descriptor; and one that has no strong handle left has
-- closed what it got.
pub run_lem :
    (o : Outside) (ops : List Op)
    → Program o start ops
    → (n : Memory) × (run o start ops ≡ some n)
      × ((t : ℕ)
          → (length (handed t n.world.trace) ≤ 1)
            × ((shut t n.world.trace ≡ []) ⊎ (shut t n.world.trace ≡ handed t n.world.trace))
            × (pointers t n.strong ≡ 0 → shut t n.world.trace ≡ handed t n.world.trace))
run_lem o ops p =
    let (n, e, v) = run-IsValid o ops start start-IsValid p in (n, e, λ t. all_closed n t v)

-- `fun_event(fdcloser(_p))`: the constructor counts one closer, but `fun_event` copies it twice, and the
-- destructors of the copies count too.
unfoldable pub after :
    Option Impl × List Call → (Impl → List Call → Option Impl × List Call) → Option Impl × List Call
after (none, tr) f = (none, tr)
after (some i, tr) f = f i tr

unfoldable pub closer : Impl → List Call → Option Impl × List Call
unfolding weak_ref weak_deref after
closer i tr = after (after (weak_ref i tr) weak_deref) weak_deref

-- The call of the closer and the end of it.
unfoldable pub fire_closer : Outside → ℕ → Impl → List Call → Option Impl × List Call
unfolding closing weak_deref after
fire_closer o t i tr = after (closing o t ebadf i tr) weak_deref

-- The last handle goes, and its closer is called.
abbrev pub closed_down : Outside → ℕ → Impl → List Call → Option Impl × List Call
closed_down o t i tr = after (after (closer i tr) (deref o t)) (fire_closer o t)

-- An `fdimp` with one handle that had a `closer` is not deleted when the handle goes and the closer is called: it
-- stays with a count of 2 ^ 32 - 2 weak handles, though there are none.
pub closer_lem :
    (o : Outside) (t : ℕ) (i : Impl) (tr : List Call)
    → i.ref_count ≡ 1
    → i.weak_count ≡ 0
    → (is_neg i.fde ≡ false → is_neg i.fdv ≡ false)
    → (n : Impl) × ((closed_down o t i tr).0 ≡ some n)
      × (n.ref_count ≡ 0)
      × (n.weak_count ≡ 2 ^ 32 - 2)
unfolding closer fire_closer after weak_ref weak_deref deref closing
closer_lem o t i tr r w n =
    let j : Impl = record { fde = i.fde; fdv = i.fdv; ref_count = 0; weak_count = 2 ^ 32 - 1 } in
    let (e, tr1, eq1, neg1, ad1, cl1) = close_lem o t ebadf j tr n in
    let k : Impl = record { fde = e; fdv = i.fdv; ref_count = 0; weak_count = 2 ^ 32 - 1 } in
    let (e2, tr2, eq2, neg2, ad2, cl2) =
      close_lem o t ebadf k tr1 (λ h. absurd (ground (arith, h, neg1))) in
    (
      record { fde = e2; fdv = i.fdv; ref_count = 0; weak_count = 2 ^ 32 - 2 },
      rw r (rw w (rw eq1 (rw eq2 refl))),
      refl,
      refl,
    )
