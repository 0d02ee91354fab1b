-- ===== src/Refs/Apply.antt =====
-- Each operation on the pointer variables keeps the counts equal to the numbers of variables.
use tamer.Prelude.{
  ℕ, ◌+◌, ◌<◌, ◌≡◌, refl, sym, subst, List, [], ◌∷◌, ◌++◌, Option, none, some, arith, length, set,
}
use tamer.Refs.{
  fresh, Objects, Memory, at, remove, Op, make, copy, move, assign, swap, destroy, watch,
  copy_passive, move_passive, assign_passive, swap_passive, destroy_passive, with_objs, apply,
}
use tamer.Refs.Balance.{
  hit, Counted, Balanced, Balanced-ext, Balanced-store, Present, acquire_lem, weak_acquire_lem,
  drop_lem, weak_drop_lem,
}
use tamer.Refs.Pointers.{
  pointers, pointers-append, pointers-set, pointers-remove, pointers-exchange, pointers_le,
  at_counted, at_held, hit_le, IsValid, Room, Applies,
}

-- The operation ends well: no assertion fails, nothing that is gone is touched, and the counts stay right.
abbrev pub Applied : Memory → Op → Type 0
Applied m op = (n : Memory) × (apply m op ≡ some n) × IsValid n

abbrev with_lists : Objects → List (Option ℕ) → List (Option ℕ) → Memory
with_lists o refs passive = record { objs = o; refs = refs; passive = passive }

module _ (m : Memory) (v : IsValid m) (r : Room m) where
  abbrev owned : ℕ → ℕ
  owned t = pointers t m.refs

  abbrev seen : ℕ → ℕ
  seen t = pointers t m.passive

  ref-Present : (i : ℕ) (p : Option ℕ) → i < length m.refs → at m.refs i ≡ p → Present owned seen p
  ref-Present i none h e = tt
  ref-Present i (some t) h e = (
    omega (arith, at_held t m.refs i h e),
    omega (arith, pointers_le t m.refs, r.refs_room),
    omega (arith, pointers_le t m.passive, r.passive_room),
  )

  passive-Present :
      (i : ℕ) (p : Option ℕ) → i < length m.passive → at m.passive i ≡ p → Present owned seen p
  passive-Present i none h e = tt
  passive-Present i (some t) h e = (
    omega (arith, at_held t m.passive i h e),
    omega (arith, pointers_le t m.refs, r.refs_room),
    omega (arith, pointers_le t m.passive, r.passive_room),
  )

  rebalanced :
      (o : Objects) (refs passive : ℕ → ℕ) (us vs : List (Option ℕ))
      → Balanced o refs passive
      → ((t : ℕ) → refs t ≡ pointers t us)
      → ((t : ℕ) → passive t ≡ pointers t vs)
      → IsValid (with_lists o us vs)
  rebalanced o refs passive us vs b e f = record {
    balanced = Balanced-ext o refs (λ t. pointers t us) passive (λ t. pointers t vs) e f b;
  }

  make-Applied : (t : ℕ) → m.objs t ≡ none → Applied m (make t)
  unfolding apply
  make-Applied t h =
      let gone : Counted none (owned t) (seen t) =
        subst (λ o. Counted o (owned t) (seen t)) h (v.balanced t) in
      (
        _,
        refl,
        record {
          balanced =
              Balanced-store m.objs owned seen (λ u. pointers u (m.refs ++ (some t ∷ []))) seen t
                (some fresh) v.balanced
                (
                  ground (arith, pointers-append t m.refs (some t), gone.0),
                  sym (gone.1),
                  ground (arith, pointers-append t m.refs (some t)),
                )
                (λ u ne. (ground (arith, pointers-append u m.refs (some t)), refl));
        },
      )

  copy-Applied : (i : ℕ) → i < length m.refs → Applied m (copy i)
  unfolding apply with_objs
  copy-Applied i h =
      let (o, e, b) =
        acquire_lem m.objs owned seen v.balanced (at m.refs i) (ref-Present i _ h refl) in
      (
        with_lists o (m.refs ++ (at m.refs i ∷ [])) m.passive,
        rw e refl,
        rebalanced o _ _ _ _ b (λ t. omega (arith, pointers-append t m.refs (at m.refs i)))
            (λ t. refl),
      )

  move-Applied : (i : ℕ) → i < length m.refs → Applied m (move i)
  unfolding apply
  move-Applied i h = (
    _,
    refl,
    rebalanced m.objs owned seen _ _ v.balanced
        (λ t. omega (
          arith,
          pointers-append t (set m.refs i none) (at m.refs i),
          pointers-set t m.refs i none h,
        ))
        (λ t. refl),
  )

  destroy-Applied : (i : ℕ) → i < length m.refs → Applied m (destroy i)
  unfolding apply with_objs
  destroy-Applied i h =
      let (o, e, b) =
        drop_lem m.objs owned seen v.balanced (at m.refs i) (ref-Present i _ h refl)
          (λ t. at_held t m.refs i h) in
      (
        with_lists o (remove m.refs i) m.passive,
        rw e refl,
        rebalanced o _ _ _ _ b (λ t. omega (arith, pointers-remove t m.refs i h)) (λ t. refl),
      )

  swap-Applied : (i j : ℕ) → i < length m.refs → j < length m.refs → Applied m (swap i j)
  unfolding apply
  swap-Applied i j h k = (
    _,
    refl,
    rebalanced m.objs owned seen _ _ v.balanced (λ t. sym (pointers-exchange t m.refs i j h k))
        (λ t. refl),
  )

  watch-Applied : (i : ℕ) → i < length m.refs → Applied m (watch i)
  unfolding apply with_objs
  watch-Applied i h =
      let (o, e, b) =
        weak_acquire_lem m.objs owned seen v.balanced (at m.refs i) (ref-Present i _ h refl) in
      (
        with_lists o m.refs (m.passive ++ (at m.refs i ∷ [])),
        rw e refl,
        rebalanced o _ _ _ _ b (λ t. refl)
            (λ t. omega (arith, pointers-append t m.passive (at m.refs i))),
      )

  copy_passive-Applied : (i : ℕ) → i < length m.passive → Applied m (copy_passive i)
  unfolding apply with_objs
  copy_passive-Applied i h =
      let (o, e, b) =
        weak_acquire_lem m.objs owned seen v.balanced (at m.passive i)
          (passive-Present i _ h refl) in
      (
        with_lists o m.refs (m.passive ++ (at m.passive i ∷ [])),
        rw e refl,
        rebalanced o _ _ _ _ b (λ t. refl)
            (λ t. omega (arith, pointers-append t m.passive (at m.passive i))),
      )

  move_passive-Applied : (i : ℕ) → i < length m.passive → Applied m (move_passive i)
  unfolding apply
  move_passive-Applied i h = (
    _,
    refl,
    rebalanced m.objs owned seen _ _ v.balanced (λ t. refl)
        (λ t. omega (
          arith,
          pointers-append t (set m.passive i none) (at m.passive i),
          pointers-set t m.passive i none h,
        )),
  )

  swap_passive-Applied :
      (i j : ℕ) → i < length m.passive → j < length m.passive → Applied m (swap_passive i j)
  unfolding apply
  swap_passive-Applied i j h k = (
    _,
    refl,
    rebalanced m.objs owned seen _ _ v.balanced (λ t. refl)
        (λ t. sym (pointers-exchange t m.passive i j h k)),
  )

  destroy_passive-Applied : (i : ℕ) → i < length m.passive → Applied m (destroy_passive i)
  unfolding apply with_objs
  destroy_passive-Applied i h =
      let (o, e, b) =
        weak_drop_lem m.objs owned seen v.balanced (at m.passive i) (passive-Present i _ h refl)
          (λ t. at_held t m.passive i h) in
      (
        with_lists o m.refs (remove m.passive i),
        rw e refl,
        rebalanced o _ _ _ _ b (λ t. refl) (λ t. omega (arith, pointers-remove t m.passive i h)),
      )

  -- the pointer is still good when another reference has been taken
  Present-more :
      (p q : Option ℕ) (i j : ℕ)
      → i < length m.refs
      → at m.refs i ≡ p
      → Present (λ t. owned t + hit t q) seen p
  Present-more none q i j h e = tt
  Present-more (some t) q i j h e = (
    omega (arith, at_held t m.refs i h e),
    omega (arith, pointers_le t m.refs, r.refs_room, hit_le t q),
    omega (arith, pointers_le t m.passive, r.passive_room),
  )

  Present-passive_more :
      (p q : Option ℕ) (i : ℕ)
      → i < length m.passive
      → at m.passive i ≡ p
      → Present owned (λ t. seen t + hit t q) p
  Present-passive_more none q i h e = tt
  Present-passive_more (some t) q i h e = (
    omega (arith, at_held t m.passive i h e),
    omega (arith, pointers_le t m.refs, r.refs_room),
    omega (arith, pointers_le t m.passive, r.passive_room, hit_le t q),
  )

  assign-Applied : (i j : ℕ) → i < length m.refs → j < length m.refs → Applied m (assign i j)
  unfolding apply with_objs
  assign-Applied i j h k =
      let (o, e, b) =
        acquire_lem m.objs owned seen v.balanced (at m.refs j) (ref-Present j _ k refl) in
      let (q, f, c) =
        drop_lem o _ seen b (at m.refs i) (Present-more _ (at m.refs j) i j h refl)
          (λ t a. omega (arith, at_held t m.refs i h a)) in
      (
        with_lists q (set m.refs i (at m.refs j)) m.passive,
        rw (e, f) refl,
        rebalanced q _ _ _ _ c
            (λ t. omega (arith, pointers-set t m.refs i (at m.refs j) h, at_counted t m.refs i h))
            (λ t. refl),
      )

  assign_passive-Applied :
      (i j : ℕ) → i < length m.passive → j < length m.passive → Applied m (assign_passive i j)
  unfolding apply with_objs
  assign_passive-Applied i j h k =
      let (o, e, b) =
        weak_acquire_lem m.objs owned seen v.balanced (at m.passive j)
          (passive-Present j _ k refl) in
      let (q, f, c) =
        weak_drop_lem o owned _ b (at m.passive i)
          (Present-passive_more _ (at m.passive j) i h refl)
          (λ t a. omega (arith, at_held t m.passive i h a)) in
      (
        with_lists q m.refs (set m.passive i (at m.passive j)),
        rw (e, f) refl,
        rebalanced q _ _ _ _ c (λ t. refl)
            (λ t.
              omega
                (arith, pointers-set t m.passive i (at m.passive j) h, at_counted t m.passive i h)),
      )

-- If every count is the number of variables that point to the object, no list of variables is too long
-- for the counters, and the variables of an operation exist, then the operation fails no assertion and
-- touches no object that is gone, and afterwards every count is again the number of variables that point
-- to the object: an object is there exactly as long as some variable points to it.
pub apply_lem :
    (m : Memory) (op : Op)
    → IsValid m
    → Room m
    → Applies m op
    → (n : Memory) × (apply m op ≡ some n) × IsValid n
apply_lem m (make t) v r a = make-Applied m v r t a
apply_lem m (copy i) v r a = copy-Applied m v r i a
apply_lem m (move i) v r a = move-Applied m v r i a
apply_lem m (assign i j) v r a = assign-Applied m v r i j a.0 a.1
apply_lem m (swap i j) v r a = swap-Applied m v r i j a.0 a.1
apply_lem m (destroy i) v r a = destroy-Applied m v r i a
apply_lem m (watch i) v r a = watch-Applied m v r i a
apply_lem m (copy_passive i) v r a = copy_passive-Applied m v r i a
apply_lem m (move_passive i) v r a = move_passive-Applied m v r i a
apply_lem m (assign_passive i j) v r a = assign_passive-Applied m v r i j a.0 a.1
apply_lem m (swap_passive i j) v r a = swap_passive-Applied m v r i j a.0 a.1
apply_lem m (destroy_passive i) v r a = destroy_passive-Applied m v r i a
