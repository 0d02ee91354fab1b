-- ===== src/Refs/Balance.antt =====
-- The counts of every object agree with some numbers of references, and each step on one object moves
-- both alike.
use tamer.Prelude.{
  ℕ, ◌+◌, ◌-◌, ◌^◌, ◌<◌, ◌≡◌, ◌≢◌, refl, sym, subst, inl, inr, ◌&&◌, Option, none, some, arith,
  ◌==◌, if◌then◌else◌, store, add32, sub32, Option-cases, Bool-cases, if_intro,
}
use tamer.Refs.{
  Counts, Objects, put, add_ref_copy, weak_add_ref, release, weak_release, acquire, weak_acquire,
  drop, weak_drop,
}

-- whether a pointer is to the object
abbrev pub hit : ℕ → Option ℕ → ℕ
hit t none = 0
hit t (some u) = if t == u then 1 else 0

-- An object that is there has `refs` references and `passive` passive ones, at least one of them in all;
-- one that is gone has none.
abbrev pub Counted : Option Counts → ℕ → ℕ → Type 0
Counted none refs passive = (refs ≡ 0) × (passive ≡ 0)
Counted (some c) refs passive =
    (c.use_count ≡ refs) × (c.weak_count ≡ passive) × (0 < refs + passive)

abbrev pub Balanced : Objects → (ℕ → ℕ) → (ℕ → ℕ) → Type 0
Balanced objs refs passive = (t : ℕ) → Counted (objs t) (refs t) (passive t)

pub Balanced-ext :
    (objs : Objects) (refs refs' passive passive' : ℕ → ℕ)
    → ((t : ℕ) → refs t ≡ refs' t)
    → ((t : ℕ) → passive t ≡ passive' t)
    → Balanced objs refs passive
    → Balanced objs refs' passive'
Balanced-ext objs refs refs' passive passive' e f b t =
    subst (λ k. Counted (objs t) k (passive' t)) (e t)
      (subst (λ k. Counted (objs t) (refs t) k) (f t) (b t))

-- What is pointed to is there.
pub there :
    (objs : Objects) (refs passive : ℕ → ℕ) (t : ℕ)
    → Balanced objs refs passive
    → 0 < refs t + passive t
    → (c : Counts) × (objs t ≡ some c) × (c.use_count ≡ refs t) × (c.weak_count ≡ passive t)
there objs refs passive t b h = elim (Option-cases (objs t)) [
  | inl gone ↦
      let z : Counted none (refs t) (passive t) =
        subst (λ o. Counted o (refs t) (passive t)) gone (b t) in
      absurd (omega (arith, z.0, z.1))
  | inr (c, e) ↦
      let z : Counted (some c) (refs t) (passive t) =
        subst (λ o. Counted o (refs t) (passive t)) e (b t) in
      (c, e, z.0, z.1)
]

-- Writing the counts of one object.
pub Balanced-store :
    (objs : Objects) (refs passive refs' passive' : ℕ → ℕ) (t : ℕ) (o : Option Counts)
    → Balanced objs refs passive
    → Counted o (refs' t) (passive' t)
    → ((u : ℕ) → u ≢ t → (refs' u ≡ refs u) × (passive' u ≡ passive u))
    → Balanced (store objs t o) refs' passive'
Balanced-store objs refs passive refs' passive' t o b c same u = elim (Bool-cases (t == u)) [
  | inl here ↦
      let e : t ≡ u = ground arith in rw here (subst (λ k. Counted o (refs' k) (passive' k)) e c)
  | inr other ↦
      let (r, p) = same u (ground arith) in
      rw other (
        subst (λ k. Counted (objs u) k (passive' u)) (sym r)
          (subst (λ k. Counted (objs u) (refs u) k) (sym p) (b u)))
]

-- The pointer is null, or to an object that is there, with room in its counts.
abbrev pub Present : (ℕ → ℕ) → (ℕ → ℕ) → Option ℕ → Type 0
Present refs passive none = Unit
Present refs passive (some t) =
    (0 < refs t + passive t) × (refs t + 1 < 2 ^ 32) × (passive t + 1 < 2 ^ 32)

hit_self : (t : ℕ) → hit t (some t) ≡ 1
hit_self t = ground arith

hit_other : (u t : ℕ) → u ≢ t → hit u (some t) ≡ 0
hit_other u t h = ground arith

module _ (objs : Objects) (refs passive : ℕ → ℕ) (b : Balanced objs refs passive) where
  pub acquire_lem :
      (p : Option ℕ)
      → Present refs passive p
      → (o : Objects) × (acquire objs p ≡ some o) × Balanced o (λ u. refs u + hit u p) passive
  unfolding acquire add_ref_copy
  acquire_lem none h = (
    objs,
    refl,
    Balanced-ext objs refs (λ u. refs u + 0) passive passive (λ u. omega arith) (λ u. refl) b,
  )
  acquire_lem (some t) h =
      let (c, e, n, w) = there objs refs passive t b h.0 in
      (
        store objs t (some (record { use_count = add32 c.use_count 1; weak_count = c.weak_count })),
        ground (arith, e),
        Balanced-store objs refs passive (λ u. refs u + hit u (some t)) passive t _ b
            (omega (arith, hit_self t, n, w), w, omega (arith, hit_self t))
            (λ u ne. (omega (arith, hit_other u t ne), refl)),
      )

  pub weak_acquire_lem :
      (p : Option ℕ)
      → Present refs passive p
      → (o : Objects) × (weak_acquire objs p ≡ some o) × Balanced o refs (λ u. passive u + hit u p)
  unfolding weak_acquire weak_add_ref
  weak_acquire_lem none h = (
    objs,
    refl,
    Balanced-ext objs refs refs passive (λ u. passive u + 0) (λ u. refl) (λ u. omega arith) b,
  )
  weak_acquire_lem (some t) h =
      let (c, e, n, w) = there objs refs passive t b h.0 in
      (
        store objs t (some (record { use_count = c.use_count; weak_count = add32 c.weak_count 1 })),
        ground (arith, e),
        Balanced-store objs refs passive refs (λ u. passive u + hit u (some t)) t _ b
            (n, omega (arith, hit_self t, n, w), omega (arith, hit_self t))
            (λ u ne. (refl, omega (arith, hit_other u t ne))),
      )

  pub drop_lem :
      (p : Option ℕ)
      → Present refs passive p
      → ((t : ℕ) → p ≡ some t → 0 < refs t)
      → (o : Objects) × (drop objs p ≡ some o) × Balanced o (λ u. refs u - hit u p) passive
  unfolding drop release
  drop_lem none h held = (
    objs,
    refl,
    Balanced-ext objs refs (λ u. refs u - 0) passive passive (λ u. omega arith) (λ u. refl) b,
  )
  drop_lem (some t) h held =
      let (c, e, n, w) = there objs refs passive t b h.0 in
      let some_ref : 0 < refs t = held t refl in
      let less = sub32 c.use_count 1 in
      let del = less == 0 && c.weak_count == 0 in
      let d : Counts = record { use_count = less; weak_count = c.weak_count } in
      (
        put objs t del d,
        ground (arith, e),
        Balanced-store objs refs passive (λ u. refs u - hit u (some t)) passive t _ b
            (if_intro (λ o. Counted o (refs t - hit t (some t)) (passive t)) del none (some d)
              (λ gone. (ground (arith, hit_self t), ground (arith, hit_self t)))
              (λ stays. (omega (arith, hit_self t, n), w, ground (arith, hit_self t))))
            (λ u ne. (omega (arith, hit_other u t ne), refl)),
      )

  pub weak_drop_lem :
      (p : Option ℕ)
      → Present refs passive p
      → ((t : ℕ) → p ≡ some t → 0 < passive t)
      → (o : Objects) × (weak_drop objs p ≡ some o) × Balanced o refs (λ u. passive u - hit u p)
  unfolding weak_drop weak_release
  weak_drop_lem none h held = (
    objs,
    refl,
    Balanced-ext objs refs refs passive (λ u. passive u - 0) (λ u. refl) (λ u. omega arith) b,
  )
  weak_drop_lem (some t) h held =
      let (c, e, n, w) = there objs refs passive t b h.0 in
      let some_ref : 0 < passive t = held t refl in
      let less = sub32 c.weak_count 1 in
      let del = less == 0 && c.use_count == 0 in
      let d : Counts = record { use_count = c.use_count; weak_count = less } in
      (
        put objs t del d,
        ground (arith, e),
        Balanced-store objs refs passive refs (λ u. passive u - hit u (some t)) t _ b
            (if_intro (λ o. Counted o (refs t) (passive t - hit t (some t))) del none (some d)
              (λ gone. (ground (arith, hit_self t), ground (arith, hit_self t)))
              (λ stays. (n, omega (arith, hit_self t, w), ground (arith, hit_self t))))
            (λ u ne. (refl, omega (arith, hit_other u t ne))),
      )
