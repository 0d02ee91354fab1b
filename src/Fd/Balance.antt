-- ===== src/Fd/Balance.antt =====
-- The counts of every `fdimp` agree with some numbers of handles, and every descriptor is closed once
-- or is still open.
use tamer.Prelude.{
  ℕ, ◌+◌, ◌-◌, ◌^◌, ◌≤◌, ◌<◌, ◌≡◌, ◌≢◌, refl, sym, ap, subst, [], ◌++◌, length, ◌∙◌, inl, inr, true,
  false, ◌&&◌, List, Option, none, some, ◌==◌, if◌then◌else◌, store, sub32, arith, Option-cases,
  Bool-cases, if_intro,
}
use tamer.Prelude.Int.{ℤ, pos, negsuc}
use tamer.Refs.Balance.{hit}
use tamer.Fd.{
  is_neg, ebadf, Impl, Call, Outside, kept, ref, weak_ref, deref, weak_deref, closing, World, on,
}
use tamer.Fd.Closing.{handed, shut, opened_by, Fits, Held, Counted, close_lem}

-- Nothing of the others has changed.
abbrev pub Others : ℕ → List Call → List Call → Type 0
Others t tr after = (u : ℕ) → u ≢ t → (handed u after ≡ handed u tr) × (shut u after ≡ shut u tr)

pub Held-counts :
    (o : Option Impl) (s s' w w' : ℕ) (a a' c c' : List ℤ)
    → s' ≡ s
    → w' ≡ w
    → a' ≡ a
    → c' ≡ c
    → Held o s w a c
    → Held o s' w' a' c'
Held-counts o s s' w w' a a' c c' es ew ea ec h = rw es (rw ew (rw ea (rw ec h)))

pub Counted-ext :
    (x : World) (s s' w w' : ℕ → ℕ)
    → ((t : ℕ) → s' t ≡ s t)
    → ((t : ℕ) → w' t ≡ w t)
    → Counted x s w
    → Counted x s' w'
Counted-ext x s s' w w' es ew v t =
    Held-counts (x.impls t) _ _ _ _ _ _ _ _ (es t) (ew t) refl refl (v t)

-- A step on one `fdimp` that has a handle.
module _ (x : World) (s w s' w' : ℕ → ℕ) (t : ℕ) (v : Counted x s w) (h : 0 < s t + w t) where
  pub there :
      (i : Impl) × (x.impls t ≡ some i) × Fits i (s t) (w t) (handed t x.trace) (shut t x.trace)
  there = elim (Option-cases (x.impls t)) [
    | inl gone ↦
        let z : Held none (s t) (w t) (handed t x.trace) (shut t x.trace) =
          subst (λ o. Held o (s t) (w t) (handed t x.trace) (shut t x.trace)) gone (v t) in
        absurd (omega (arith, z.0, z.1))
    | inr (i, e) ↦
        let z : Held (some i) (s t) (w t) (handed t x.trace) (shut t x.trace) =
          subst (λ o. Held o (s t) (w t) (handed t x.trace) (shut t x.trace)) e (v t) in
        (i, e, z.0)
  ]

  pub on_lem :
      (f : ℕ → Impl → List Call → Option Impl × List Call)
      → ((i : Impl)
          → Fits i (s t) (w t) (handed t x.trace) (shut t x.trace)
          → Held
              (f t i x.trace).0
              (s' t)
              (w' t)
              (handed t (f t i x.trace).1)
              (shut t (f t i x.trace).1)
            × Others t x.trace (f t i x.trace).1)
      → ((u : ℕ) → u ≢ t → (s' u ≡ s u) × (w' u ≡ w u))
      → (y : World) × (on x (some t) f ≡ some y) × Counted y s' w'
  unfolding on
  on_lem f local same =
      let (i, e, fits) = there in
      let (here, others) = local i fits in
      (
        record { impls = store x.impls t (f t i x.trace).0; trace = (f t i x.trace).1 },
        rw (e, on) refl,
        λ u. elim (Bool-cases (t == u)) [
          | inl b ↦
              let eq : t ≡ u = ground arith in
              rw b (
                subst
                  (λ k.
                    Held (f t i x.trace).0 (s' k) (w' k) (handed k (f t i x.trace).1)
                      (shut k (f t i x.trace).1))
                  eq here)
          | inr b ↦
              let ne : u ≢ t = ground arith in
              rw b (
                Held-counts (x.impls u) _ _ _ _ _ _ _ _ (same u ne).0 (same u ne).1 (others u ne).0
                  (others u ne).1 (v u))
        ],
      )

hit_self : (t : ℕ) → hit t (some t) ≡ 1
hit_self t = ground arith

self : (t : ℕ) → (t == t) ≡ true
self t = ground arith

hit_other : (u t : ℕ) → u ≢ t → hit u (some t) ≡ 0
hit_other u t h = ground arith

-- The handle is empty, or its `fdimp` is there, with room in its counts.
abbrev pub Present : (ℕ → ℕ) → (ℕ → ℕ) → Option ℕ → Type 0
Present s w none = Unit
Present s w (some t) = (0 < s t + w t) × (s t + 1 < 2 ^ 32) × (w t + 1 < 2 ^ 32)

unchanged : (t : ℕ) (tr : List Call) → Others t tr tr
unchanged t tr u ne = (refl, refl)

pub shut_or : (e v : ℤ) (a c : List ℤ) → opened_by e v ++ c ≡ a → (is_neg e ≡ false → c ≡ a) → c ≡ a
shut_or (pos n) v a c once opened = opened refl
shut_or (negsuc n) v a c once opened = once

-- the `fdimp`, unless it has no handle
kept_lem : (i : Impl) (s w : ℕ) (a c : List ℤ) → Fits i s w a c → Held (kept i) s w a c
kept_lem i s w a c f =
    if_intro (λ k. Held k s w a c) (i.ref_count == 0 && i.weak_count == 0) none (some i)
      (λ gone. (
        ground (arith, gone, f.strong_count),
        ground (arith, gone, f.weak_counted),
        shut_or i.fde i.fdv a c f.closed_once
            (λ opened. absurd (ground (arith, gone, f.strong_count, f.owned opened))),
        f.one_descriptor,
      ))
      (λ stays. (f, ground (arith, stays, f.strong_count, f.weak_counted)))

-- An `fdimp` behind `close`.
Fits-shut :
    (e : ℤ) (i : Impl) (s w : ℕ) (a c a' c' : List ℤ)
    → i.ref_count ≡ s
    → i.weak_count ≡ w
    → length a ≤ 1
    → opened_by i.fde i.fdv ++ c ≡ a
    → is_neg e ≡ true
    → a' ≡ a
    → c' ≡ opened_by i.fde i.fdv ++ c
    → Fits
        (record { fde = e; fdv = i.fdv; ref_count = i.ref_count; weak_count = i.weak_count })
        s
        w
        a'
        c'
Fits-shut e i s w a c a' c' rs ws one once neg ea ec = record {
  strong_count = rs;
  weak_counted = ws;
  one_descriptor = rw ea one;
  closed_once = rw neg (ec ∙ once ∙ sym ea);
  number = λ o. absurd (ground (arith, neg, o));
  owned = λ o. absurd (ground (arith, neg, o));
}

Others-close :
    (o : Outside) (t : ℕ) (i : Impl) (tr after : List Call)
    → ((u : ℕ) → handed u after ≡ handed u tr)
    → ((u : ℕ) → shut u after ≡ (if u == t then opened_by i.fde i.fdv else []) ++ shut u tr)
    → Others t tr after
Others-close o t i tr after ad cl u ne =
    let other : (u == t) ≡ false = ground arith in (ad u, cl u ∙ rw other refl)

module _ (x : World) (s w : ℕ → ℕ) (v : Counted x s w) where
  pub ref_lem :
      (p : Option ℕ)
      → Present s w p
      → (y : World) × (on x p (λ t. ref) ≡ some y) × Counted y (λ u. s u + hit u p) w
  unfolding on ref
  ref_lem none h = (x, refl, Counted-ext x s (λ u. s u + 0) w w (λ u. omega arith) (λ u. refl) v)
  ref_lem (some t) h =
      on_lem x s w (λ u. s u + hit u (some t)) w t v h.0 (λ t. ref)
        (λ i f. (
          (
            record {
              strong_count = omega (arith, hit_self t, f.strong_count, h.1);
              weak_counted = f.weak_counted;
              one_descriptor = f.one_descriptor;
              closed_once = f.closed_once;
              number = f.number;
              owned = λ o. omega (arith, hit_self t);
            },
            omega (arith, hit_self t),
          ),
          unchanged t x.trace,
        ))
        (λ u ne. (omega (arith, hit_other u t ne), refl))

  pub weak_ref_lem :
      (p : Option ℕ)
      → Present s w p
      → (y : World) × (on x p (λ t. weak_ref) ≡ some y) × Counted y s (λ u. w u + hit u p)
  unfolding on weak_ref
  weak_ref_lem none h =
      (x, refl, Counted-ext x s s w (λ u. w u + 0) (λ u. refl) (λ u. omega arith) v)
  weak_ref_lem (some t) h =
      on_lem x s w s (λ u. w u + hit u (some t)) t v h.0 (λ t. weak_ref)
        (λ i f. (
          (
            record {
              strong_count = f.strong_count;
              weak_counted = omega (arith, hit_self t, f.weak_counted, h.2);
              one_descriptor = f.one_descriptor;
              closed_once = f.closed_once;
              number = f.number;
              owned = f.owned;
            },
            omega (arith, hit_self t),
          ),
          unchanged t x.trace,
        ))
        (λ u ne. (refl, omega (arith, hit_other u t ne)))

  pub weak_deref_lem :
      (p : Option ℕ)
      → Present s w p
      → ((t : ℕ) → p ≡ some t → 0 < w t)
      → (y : World) × (on x p (λ t. weak_deref) ≡ some y) × Counted y s (λ u. w u - hit u p)
  unfolding on weak_deref
  weak_deref_lem none h held =
      (x, refl, Counted-ext x s s w (λ u. w u - 0) (λ u. refl) (λ u. omega arith) v)
  weak_deref_lem (some t) h held =
      let some_ref : 0 < w t = held t refl in
      on_lem x s w s (λ u. w u - hit u (some t)) t v h.0 (λ t. weak_deref)
        (λ i f.
          let fewer : Impl = record {
            fde = i.fde;
            fdv = i.fdv;
            ref_count = i.ref_count;
            weak_count = sub32 i.weak_count 1;
          } in
          (
            kept_lem fewer (s t) (w t - hit t (some t)) (handed t x.trace) (shut t x.trace)
                (record {
                  strong_count = f.strong_count;
                  weak_counted = omega (arith, hit_self t, f.weak_counted, h.2);
                  one_descriptor = f.one_descriptor;
                  closed_once = f.closed_once;
                  number = f.number;
                  owned = f.owned;
                }),
            unchanged t x.trace,
          ))
        (λ u ne. (refl, omega (arith, hit_other u t ne)))

  pub closing_lem :
      (o : Outside) (leave : ℤ) (p : Option ℕ)
      → Present s w p
      → (y : World) × (on x p (λ t. closing o t leave) ≡ some y) × Counted y s w
  unfolding on closing
  closing_lem o leave none h = (x, refl, v)
  closing_lem o leave (some t) h =
      on_lem x s w s w t v h.0 (λ t. closing o t leave)
        (λ i f.
          let (e, after, eq, neg, ad, cl) = close_lem o t leave i x.trace f.number in
          rw eq (
            (
              Fits-shut e i (s t) (w t) (handed t x.trace) (shut t x.trace) (handed t after)
                  (shut t after) f.strong_count f.weak_counted f.one_descriptor f.closed_once neg
                  (ad t)
                  (cl t
                    ∙ ap (λ b. (if b then opened_by i.fde i.fdv else []) ++ shut t x.trace)
                        (self t)),
              h.0,
            ),
            Others-close o t i x.trace after ad cl,
          ))
        (λ u ne. (refl, refl))

  deref-Held :
      (o : Outside) (t : ℕ) (i : Impl)
      → Fits i (s t) (w t) (handed t x.trace) (shut t x.trace)
      → Present s w (some t)
      → 0 < s t
      → Held
          (deref o t i x.trace).0
          (s t - hit t (some t))
          (w t)
          (handed t (deref o t i x.trace).1)
          (shut t (deref o t i x.trace).1)
        × Others t x.trace (deref o t i x.trace).1
  unfolding deref
  deref-Held o t i f h some_ref =
      let less : Impl = record {
        fde = i.fde;
        fdv = i.fdv;
        ref_count = sub32 i.ref_count 1;
        weak_count = i.weak_count;
      } in
      let count : less.ref_count ≡ s t - hit t (some t) =
        omega (arith, hit_self t, f.strong_count, h.1) in
      let (e, after, eq, neg, ad, cl) = close_lem o t ebadf less x.trace f.number in
      elim (Bool-cases (less.ref_count == 0)) [
        | inl last ↦ rw last (
            rw eq (
              kept_lem
                  (record {
                    fde = e;
                    fdv = less.fdv;
                    ref_count = less.ref_count;
                    weak_count = less.weak_count;
                  })
                  (s t - hit t (some t)) (w t) (handed t after) (shut t after)
                  (Fits-shut e less (s t - hit t (some t)) (w t) (handed t x.trace) (shut t x.trace)
                    (handed t after) (shut t after) count f.weak_counted f.one_descriptor
                    f.closed_once neg (ad t)
                    (cl t
                      ∙ ap (λ b. (if b then opened_by i.fde i.fdv else []) ++ shut t x.trace)
                          (self t))),
              Others-close o t less x.trace after ad cl,
            ))
        | inr more ↦ rw more (
          (
            record {
              strong_count = count;
              weak_counted = f.weak_counted;
              one_descriptor = f.one_descriptor;
              closed_once = f.closed_once;
              number = f.number;
              owned = λ opened. ground (arith, more, count);
            },
            ground (arith, more, count),
          ),
          unchanged t x.trace,
        )
      ]

  pub deref_lem :
      (o : Outside) (p : Option ℕ)
      → Present s w p
      → ((t : ℕ) → p ≡ some t → 0 < s t)
      → (y : World) × (on x p (deref o) ≡ some y) × Counted y (λ u. s u - hit u p) w
  unfolding on deref
  deref_lem o none h held =
      (x, refl, Counted-ext x s (λ u. s u - 0) w w (λ u. omega arith) (λ u. refl) v)
  deref_lem o (some t) h held =
      on_lem x s w (λ u. s u - hit u (some t)) w t v h.0 (deref o)
        (λ i f. deref-Held o t i f h (held t refl))
        (λ u ne. (omega (arith, hit_other u t ne), refl))
