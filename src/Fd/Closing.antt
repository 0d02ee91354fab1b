-- ===== src/Fd/Closing.antt =====
-- What `close` does to the `fdimp` and to its descriptor.
use tamer.Prelude.{
  ℕ, ◌+◌, ◌++◌, length, ◌≤◌, ◌<◌, ◌≡◌, refl, inl, inr, Bool, true, false, not, ◌&&◌, List, [], ◌∷◌,
  Option, none, some, ◌==◌, if◌then◌else◌, Bool-cases,
}
use tamer.Prelude.Int.{ℤ, pos, negsuc}
use tamer.Fd.{
  is_neg, same_ℤ, ebadf, Impl, Call, adopt, os_close, kill_fd, at_close, Outside, calls_of_close,
  close, World,
}

-- The descriptors that the `fdimp` got, and the numbers with which it called `::close`, the newest first.
unfoldable pub handed : ℕ → List Call → List ℤ
handed t [] = []
handed t (adopt u fd ∷ tr) = (if t == u then fd ∷ [] else []) ++ handed t tr
handed t (os_close u fd ∷ tr) = handed t tr
handed t (kill_fd u fd ∷ tr) = handed t tr
handed t (at_close u ∷ tr) = handed t tr

unfoldable pub shut : ℕ → List Call → List ℤ
shut t [] = []
shut t (adopt u fd ∷ tr) = shut t tr
shut t (os_close u fd ∷ tr) = (if t == u then fd ∷ [] else []) ++ shut t tr
shut t (kill_fd u fd ∷ tr) = shut t tr
shut t (at_close u ∷ tr) = shut t tr

-- The descriptor that is open, by `fde_` and `fdv_`.
abbrev pub opened_by : ℤ → ℤ → List ℤ
opened_by fde fdv = if is_neg fde then [] else fdv ∷ []

-- An `fdimp` that is there has `s` strong handles and `w` weak ones; it got the descriptors `a`, at most one,
-- and closed `c`: that one, unless it is open, and it is not open without a strong handle.
pub record Fits (i : Impl) (s w : ℕ) (a c : List ℤ) : Type 0 where
  pub strong_count : i.ref_count ≡ s
  pub weak_counted : i.weak_count ≡ w
  pub one_descriptor : length a ≤ 1
  pub closed_once : opened_by i.fde i.fdv ++ c ≡ a
  pub number : is_neg i.fde ≡ false → is_neg i.fdv ≡ false
  pub owned : is_neg i.fde ≡ false → 0 < s

-- One that is gone has no handles, and what it got is closed.
abbrev pub Held : Option Impl → ℕ → ℕ → List ℤ → List ℤ → Type 0
Held none s w a c = (s ≡ 0) × (w ≡ 0) × (c ≡ a) × (length a ≤ 1)
Held (some i) s w a c = Fits i s w a c × (0 < s + w)

abbrev pub Counted : World → (ℕ → ℕ) → (ℕ → ℕ) → Type 0
Counted x strong weak =
    (t : ℕ) → Held (x.impls t) (strong t) (weak t) (handed t x.trace) (shut t x.trace)

nothing_either : (b : Bool) (xs : List ℤ) → xs ≡ (if b then [] else []) ++ xs
nothing_either true xs = refl
nothing_either false xs = refl

-- The operation of `::close`, and the rest of it, on the numbers.
calls-handed :
    (o : Outside) (t u : ℕ) (fd : ℤ) (tr : List Call)
    → handed u (calls_of_close o t fd tr) ≡ handed u tr
unfolding calls_of_close handed
calls-handed o t u fd tr = elim (Bool-cases o.main) [ inl m ↦ rw m refl | inr m ↦ rw m refl ]

calls-shut :
    (o : Outside) (t u : ℕ) (fd : ℤ) (tr : List Call)
    → shut u (calls_of_close o t fd tr) ≡ (if u == t then fd ∷ [] else []) ++ shut u tr
unfolding calls_of_close shut
calls-shut o t u fd tr = elim (Bool-cases o.main) [ inl m ↦ rw m refl | inr m ↦ rw m refl ]

left_neg : (leave : ℤ) → is_neg (if is_neg leave then leave else ebadf) ≡ true
left_neg (pos n) = refl
left_neg (negsuc n) = refl

neg_if :
    (b : Bool) (x y : ℤ)
    → (b ≡ true → is_neg x ≡ true)
    → is_neg y ≡ true
    → is_neg (if b then x else y) ≡ true
neg_if true x y h k = h refl
neg_if false x y h k = k

both_left : (a b : Bool) → (a && b) ≡ true → a ≡ true
both_left true b h = refl
both_left false b h = h

-- `close` leaves an `fdimp` that is not open, and closes its descriptor if it was.
pub close_lem :
    (o : Outside) (t : ℕ) (leave : ℤ) (i : Impl) (tr : List Call)
    → (is_neg i.fde ≡ false → is_neg i.fdv ≡ false)
    → (e : ℤ) × (after : List Call) × (close o t leave i tr ≡ (
      record { fde = e; fdv = i.fdv; ref_count = i.ref_count; weak_count = i.weak_count },
      after,
    ))
      × (is_neg e ≡ true)
      × ((u : ℕ) → handed u after ≡ handed u tr)
      × ((u : ℕ) → shut u after ≡ (if u == t then opened_by i.fde i.fdv else []) ++ shut u tr)
unfolding close
close_lem o t leave i tr n = elim (Bool-cases (is_neg i.fde)) [
  | inl gone ↦ (
    if not (same_ℤ (if is_neg leave then leave else ebadf) ebadf)
        then (if is_neg leave then leave else ebadf)
        else i.fde,
    tr,
    rw gone (rw gone refl),
    neg_if _ _ i.fde (λ h. left_neg leave) gone,
    (λ u. refl),
    (λ u. rw gone (nothing_either (u == t) (shut u tr))),
  )
  | inr opened ↦
      let num = n opened in
      let left = if is_neg leave then leave else ebadf in
      let x = o.result tr i.fdv in
      (
        if is_neg x && same_ℤ left ebadf then x else left,
        calls_of_close o t i.fdv tr,
        rw opened (rw num refl),
        neg_if _ x left (λ h. both_left (is_neg x) (same_ℤ left ebadf) h) (left_neg leave),
        (λ u. calls-handed o t u i.fdv tr),
        (λ u. rw opened (calls-shut o t u i.fdv tr)),
      )
]
