-- ===== src/Fd/Handles.antt =====
-- A program with any number of handles: no operation touches an `fdimp` that is gone, every count is the number
-- of handles, and every descriptor is closed once or is still open.
use tamer.Prelude.{
  ℕ, ◌+◌, ◌^◌, ◌<◌, ◌≡◌, refl, ap, inl, inr, not, ◌&&◌, List, [], ◌∷◌, ◌++◌, Option, none, some,
  set, length-set, arith, Option-cases, Bool-cases, if_intro, length,
}
use tamer.Prelude.Int.{ℤ}
use tamer.Refs.{at, remove}
use tamer.Refs.Balance.{hit}
use tamer.Refs.Pointers.{
  pointers, pointers-append, pointers-set, pointers-remove, pointers_le, at_held, hit_le,
  at-exchange,
}
use tamer.Fd.{
  is_neg, same_ℤ, ebadf, Outside, World, Memory, Op, make, copy, move, assign, assign_move, destroy,
  watch, watch_move, destroy_weak, close_fd, close_weak, with_world, adopted, close_empty, apply,
}
use tamer.Fd.Closing.{Counted}
use tamer.Fd.Balance.{
  Counted-ext, Present, ref_lem, weak_ref_lem, weak_deref_lem, closing_lem, deref_lem,
}
use tamer.Fd.Adopting.{New, adopted_lem}

pub record IsValid (m : Memory) : Type 0 where
  pub counted : Counted m.world (λ t. pointers t m.strong) (λ t. pointers t m.weak)

pub record Room (m : Memory) : Type 0 where
  pub strong_room : length m.strong + 2 < 2 ^ 32
  pub weak_room : length m.weak + 2 < 2 ^ 32

-- The handles exist, and the `fdimp` that may be made is new.
abbrev pub Applies : Memory → Op → Type 0
Applies m (make t fd) = New m.world t
Applies m (copy i) = i < length m.strong
Applies m (move i) = i < length m.strong
Applies m (assign i j) = (i < length m.strong) × (j < length m.strong)
Applies m (assign_move i j) = (i < length m.strong) × (j < length m.strong)
Applies m (destroy i) = i < length m.strong
Applies m (watch i) = i < length m.strong
Applies m (watch_move i) = i < length m.strong
Applies m (destroy_weak i) = i < length m.weak
Applies m (close_fd i leave t) = (i < length m.strong) × New m.world t
Applies m (close_weak i leave) = i < length m.weak

-- The operation ends well, and what it leaves is right.
abbrev pub Applied : Outside → Memory → Op → Type 0
Applied o m op = (n : Memory) × (apply o m op ≡ some n) × IsValid n

module _ (o : Outside) (m : Memory) (v : IsValid m) (r : Room m) where
  abbrev owned : ℕ → ℕ
  owned t = pointers t m.strong

  abbrev seen : ℕ → ℕ
  seen t = pointers t m.weak

  strong-Present :
      (i : ℕ) (p : Option ℕ) → i < length m.strong → at m.strong i ≡ p → Present owned seen p
  strong-Present i none h e = tt
  strong-Present i (some t) h e = (
    omega (arith, at_held t m.strong i h e),
    omega (arith, pointers_le t m.strong, r.strong_room),
    omega (arith, pointers_le t m.weak, r.weak_room),
  )

  weak-Present : (i : ℕ) (p : Option ℕ) → i < length m.weak → at m.weak i ≡ p → Present owned seen p
  weak-Present i none h e = tt
  weak-Present i (some t) h e = (
    omega (arith, at_held t m.weak i h e),
    omega (arith, pointers_le t m.strong, r.strong_room),
    omega (arith, pointers_le t m.weak, r.weak_room),
  )

  recounted :
      (x : World) (s w : ℕ → ℕ) (us vs : List (Option ℕ))
      → Counted x s w
      → ((t : ℕ) → pointers t us ≡ s t)
      → ((t : ℕ) → pointers t vs ≡ w t)
      → IsValid (record { world = x; strong = us; weak = vs })
  recounted x s w us vs c e f = record {
    counted = Counted-ext x s (λ t. pointers t us) w (λ t. pointers t vs) e f c;
  }

  copy-Applied : (i : ℕ) → i < length m.strong → Applied o m (copy i)
  unfolding apply with_world
  copy-Applied i h =
      let (x, e, b) =
        ref_lem m.world owned seen v.counted (at m.strong i) (strong-Present i _ h refl) in
      (
        _,
        rw e refl,
        recounted x _ _ (m.strong ++ (at m.strong i ∷ [])) m.weak b
            (λ t. pointers-append t m.strong (at m.strong i)) (λ t. refl),
      )

  move-Applied : (i : ℕ) → i < length m.strong → Applied o m (move i)
  unfolding apply
  move-Applied i h = (
    _,
    refl,
    recounted m.world owned seen (set m.strong i none ++ (at m.strong i ∷ [])) m.weak v.counted
        (λ t. omega (
          arith,
          pointers-append t (set m.strong i none) (at m.strong i),
          pointers-set t m.strong i none h,
        ))
        (λ t. refl),
  )

  destroy-Applied : (i : ℕ) → i < length m.strong → Applied o m (destroy i)
  unfolding apply with_world
  destroy-Applied i h =
      let (x, e, b) =
        deref_lem m.world owned seen v.counted o (at m.strong i) (strong-Present i _ h refl)
          (λ t. at_held t m.strong i h) in
      (
        _,
        rw e refl,
        recounted x _ _ (remove m.strong i) m.weak b
            (λ t. omega (arith, pointers-remove t m.strong i h)) (λ t. refl),
      )

  watch-Applied : (i : ℕ) → i < length m.strong → Applied o m (watch i)
  unfolding apply with_world
  watch-Applied i h =
      let (x, e, b) =
        weak_ref_lem m.world owned seen v.counted (at m.strong i) (strong-Present i _ h refl) in
      (
        _,
        rw e refl,
        recounted x _ _ m.strong (m.weak ++ (at m.strong i ∷ [])) b (λ t. refl)
            (λ t. pointers-append t m.weak (at m.strong i)),
      )

  destroy_weak-Applied : (i : ℕ) → i < length m.weak → Applied o m (destroy_weak i)
  unfolding apply with_world
  destroy_weak-Applied i h =
      let (x, e, b) =
        weak_deref_lem m.world owned seen v.counted (at m.weak i) (weak-Present i _ h refl)
          (λ t. at_held t m.weak i h) in
      (
        _,
        rw e refl,
        recounted x _ _ m.strong (remove m.weak i) b (λ t. refl)
            (λ t. omega (arith, pointers-remove t m.weak i h)),
      )

  close_weak-Applied : (i : ℕ) (leave : ℤ) → i < length m.weak → Applied o m (close_weak i leave)
  unfolding apply with_world
  close_weak-Applied i leave h =
      let (x, e, b) =
        closing_lem m.world owned seen v.counted o leave (at m.weak i) (weak-Present i _ h refl) in
      (_, rw e refl, record { counted = b })

  assign_move-Applied :
      (i j : ℕ) → i < length m.strong → j < length m.strong → Applied o m (assign_move i j)
  unfolding apply with_world
  assign_move-Applied i j h k =
      let (x, e, b) =
        deref_lem m.world owned seen v.counted o (at m.strong i) (strong-Present i _ h refl)
          (λ t. at_held t m.strong i h) in
      let us = set m.strong i (at m.strong j) in
      let len : j < length us = omega (arith, length-set m.strong i (at m.strong j)) in
      (
        _,
        rw e refl,
        recounted x _ _ (set us j none) m.weak b
            (λ t. omega (
              arith,
              pointers-set t us j none len,
              pointers-set t m.strong i (at m.strong j) h,
              ap (hit t) (at-exchange m.strong i j),
            ))
            (λ t. refl),
      )

  -- the handle is still good when its `fdimp` has one more
  Present-more :
      (p q : Option ℕ) (i : ℕ)
      → i < length m.strong
      → at m.strong i ≡ p
      → Present (λ t. owned t + hit t q) seen p
  Present-more none q i h e = tt
  Present-more (some t) q i h e = (
    omega (arith, at_held t m.strong i h e),
    omega (arith, pointers_le t m.strong, r.strong_room, hit_le t q),
    omega (arith, pointers_le t m.weak, r.weak_room),
  )

  Present-seen :
      (p q : Option ℕ) (i : ℕ)
      → i < length m.strong
      → at m.strong i ≡ p
      → Present owned (λ t. seen t + hit t q) p
  Present-seen none q i h e = tt
  Present-seen (some t) q i h e = (
    omega (arith, at_held t m.strong i h e),
    omega (arith, pointers_le t m.strong, r.strong_room),
    omega (arith, pointers_le t m.weak, r.weak_room, hit_le t q),
  )

  assign-Applied : (i j : ℕ) → i < length m.strong → j < length m.strong → Applied o m (assign i j)
  unfolding apply with_world
  assign-Applied i j h k =
      let (x, e, b) =
        ref_lem m.world owned seen v.counted (at m.strong j) (strong-Present j _ k refl) in
      let (y, f, c) =
        deref_lem x _ seen b o (at m.strong i)
          (Present-more (at m.strong i) (at m.strong j) i h refl)
          (λ t q. omega (arith, at_held t m.strong i h q)) in
      (
        _,
        rw e (rw f refl),
        recounted y _ _ (set m.strong i (at m.strong j)) m.weak c
            (λ t. omega (arith, pointers-set t m.strong i (at m.strong j) h)) (λ t. refl),
      )

  watch_move-Applied : (i : ℕ) → i < length m.strong → Applied o m (watch_move i)
  unfolding apply with_world
  watch_move-Applied i h =
      let (x, e, b) =
        weak_ref_lem m.world owned seen v.counted (at m.strong i) (strong-Present i _ h refl) in
      let (y, f, c) =
        deref_lem x owned _ b o (at m.strong i)
          (Present-seen (at m.strong i) (at m.strong i) i h refl)
          (λ t q. at_held t m.strong i h q) in
      (
        _,
        rw e (rw f refl),
        recounted y _ _ (set m.strong i none) (m.weak ++ (at m.strong i ∷ [])) c
            (λ t. omega (arith, pointers-set t m.strong i none h))
            (λ t. pointers-append t m.weak (at m.strong i)),
      )

  make-Applied : (t : ℕ) (fd : ℤ) → New m.world t → Applied o m (make t fd)
  unfolding apply
  make-Applied t fd n = elim (Bool-cases (same_ℤ fd ebadf)) [
    | inl bad ↦ (
      _,
      rw bad refl,
      recounted m.world owned seen (m.strong ++ (none ∷ [])) m.weak v.counted
          (λ u. omega (arith, pointers-append u m.strong none)) (λ u. refl),
    )
    | inr fine ↦ (
      _,
      rw fine refl,
      recounted (adopted m.world t fd) _ _ (m.strong ++ (some t ∷ [])) m.weak
          (adopted_lem m.world owned seen t fd v.counted n)
          (λ u. pointers-append u m.strong (some t)) (λ u. refl),
    )
  ]

  close_empty-IsValid :
      (i : ℕ) (leave : ℤ) (t : ℕ)
      → i < length m.strong
      → at m.strong i ≡ none
      → New m.world t
      → IsValid (close_empty m i leave t)
  unfolding close_empty
  close_empty-IsValid i leave t h e n =
      if_intro IsValid (is_neg leave && not (same_ℤ leave ebadf)) _ m
        (λ b.
          recounted (adopted m.world t leave) _ _ (set m.strong i (some t)) m.weak
            (adopted_lem m.world owned seen t leave v.counted n)
            (λ u. omega (arith, pointers-set u m.strong i (some t) h, ap (hit u) e)) (λ u. refl))
        (λ b. v)

  close_fd-Applied :
      (i : ℕ) (leave : ℤ) (t : ℕ)
      → i < length m.strong
      → New m.world t
      → Applied o m (close_fd i leave t)
  unfolding apply with_world
  close_fd-Applied i leave t h n =
      let (x, e, b) =
        closing_lem m.world owned seen v.counted o leave (at m.strong i)
          (strong-Present i _ h refl) in
      elim (Option-cases (at m.strong i)) [
        | inl empty ↦
            (close_empty m i leave t, rw e (rw empty refl), close_empty-IsValid i leave t h empty n)
        | inr (u, there) ↦ (
          record { world = x; strong = m.strong; weak = m.weak },
          rw e (rw there refl),
          record { counted = b },
        )
      ]

-- Each operation on the handles ends without touching an `fdimp` that is gone, whatever `::close` gives, and keeps
-- this: the counts of every `fdimp` are the numbers of its strong and weak handles, one without any is gone, it
-- got at most one descriptor, which is closed exactly once, unless it is still open, and it is not open without a
-- strong handle. The handles exist, the number of an `fdimp` that may be made is new, and there are fewer than
-- 2 ^ 32 - 2 handles of each kind.
pub apply-Applied :
    (o : Outside) (m : Memory) (op : Op) → IsValid m → Room m → Applies m op → Applied o m op
apply-Applied o m (make t fd) v r h = make-Applied o m v r t fd h
apply-Applied o m (copy i) v r h = copy-Applied o m v r i h
apply-Applied o m (move i) v r h = move-Applied o m v r i h
apply-Applied o m (assign i j) v r h = assign-Applied o m v r i j h.0 h.1
apply-Applied o m (assign_move i j) v r h = assign_move-Applied o m v r i j h.0 h.1
apply-Applied o m (destroy i) v r h = destroy-Applied o m v r i h
apply-Applied o m (watch i) v r h = watch-Applied o m v r i h
apply-Applied o m (watch_move i) v r h = watch_move-Applied o m v r i h
apply-Applied o m (destroy_weak i) v r h = destroy_weak-Applied o m v r i h
apply-Applied o m (close_fd i leave t) v r h = close_fd-Applied o m v r i leave t h.0 h.1
apply-Applied o m (close_weak i leave) v r h = close_weak-Applied o m v r i leave h
