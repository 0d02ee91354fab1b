-- ===== src/Refs/Monitors/Watched.antt =====
-- A monitor is empty exactly from the end of the object that it watches.
use tamer.Prelude.{
  ℕ, ◌≡◌, ◌≢◌, refl, ap, ◌∙◌, inl, inr, true, false, List, [], ◌∷◌, Option, none, some, arith, ◌==◌,
  if◌then◌else◌, store, has, Bool-cases,
}
use tamer.Refs.Monitors.{Monitors, release_all, destroy_ref, empty}

-- A monitor is on the list of the `ref` that it watches, and on no other.
pub record IsValid (s : Monitors) : Type 0 where
  pub listed : (m r : ℕ) → has m (s.first r) ≡ true → s.watches m ≡ some r
  pub on_list : (m r : ℕ) → s.watches m ≡ some r → has m (s.first r) ≡ true

release_all_lem :
    (ms : List ℕ) (watches : ℕ → Option ℕ) (m : ℕ)
    → release_all ms watches m ≡ (if has m ms then none else watches m)
unfolding release_all
release_all_lem [] watches m = refl
release_all_lem (x ∷ ms) watches m = release_all_lem ms (store watches x none) m ∙ ground arith

-- When the object of a `ref` goes away, its list is empty, its monitors are empty, and every other monitor
-- watches what it watched before.
pub destroy_ref_lem :
    (s : Monitors) (r : ℕ)
    → IsValid s
    → IsValid (destroy_ref s r)
      × ((m : ℕ) → s.watches m ≡ some r → empty (destroy_ref s r) m ≡ true)
      × ((m : ℕ) → s.watches m ≢ some r → (destroy_ref s r).watches m ≡ s.watches m)
unfolding destroy_ref
destroy_ref_lem s r v =
    let after = release_all_lem (s.first r) s.watches in
    (
      record {
        listed = λ m q h. elim (Bool-cases (r == q)) [
          | inl same ↦ absurd (ground (arith, same, h))
          | inr other ↦
              let old = v.listed m q (ground (arith, other, h)) in
              ground (arith, after m, old, other, v.listed m r)
        ];
        on_list = λ m q h. elim (Bool-cases (has m (s.first r))) [
          | inl mine ↦ absurd (ground (arith, after m, mine, h))
          | inr rest ↦
              let old = v.on_list m q (ground (arith, after m, rest, h)) in
              ground (arith, old, rest, different m q r rest old)
        ];
      },
      (λ m h. ground (arith, after m, v.on_list m r h)),
      λ m ne. elim (Bool-cases (has m (s.first r))) [
        | inl mine ↦ absurd (ne (v.listed m r mine))
        | inr other ↦ ground (arith, after m, other)
      ],
    )
  where
    different : (m q r : ℕ) → has m (s.first r) ≡ false → has m (s.first q) ≡ true → r == q ≡ false
    different m q r off on = elim (Bool-cases (r == q)) [
      | inl same ↦
          let e : r ≡ q = ground arith in
          absurd (ground (arith, off, on, ap (λ k. has m (s.first k)) e))
      | inr other ↦ other
    ]
