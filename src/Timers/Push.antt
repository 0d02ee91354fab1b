-- ===== src/Timers/Push.antt =====
-- Adding a timer: the heap takes the new record in, and the thinning loop drops dead timers only.
use native.Mathlib.Nat.{mod-lt}
use native.Mathlib.Decide.{dec_lt}
use tamer.Prelude.{
  ℕ, zero, suc, ◌+◌, ◌/◌, ◌%◌, ◌^◌, ◌≤◌, ◌<◌, ◌≡◌, sym, ◌∙◌, ap, Bool, true, false, not, inl, inr,
  List, [], ◌∷◌, some, arith, leb, ◌==◌, if◌then◌else◌, Bool-cases, store, add32, sub32, mul32,
}
use tamer.Timers.{Trec, TimerSet, Effect, clean, of_bool, sift_up, expand, insert, thin, push}
use tamer.Timers.Rank.{InWindow}
use tamer.Timers.Order.{Rising}
use tamer.Timers.Total.{total, total-push, total_eq, total-le}
use tamer.Timers.Sift.{ranks, AllIn, IsHeapOf, sift_up_lem}
use tamer.Timers.Cull.{
  IsValid, is_foreground, Leaves, hard_cull_heap, Culls, Culls-step, Culls-none, AllDead, tally,
}

-- the record that `push` writes
abbrev pub pushed : TimerSet → ℕ → ℕ → ℕ → Bool → Trec
pushed s sec usec se bg = record {
  sec = sec;
  usec = usec;
  order = add32 (add32 s.order 2) (of_bool (not bg));
  se = se;
}

-- the array that the heap loop starts from
abbrev room : TimerSet → TimerSet
room s = if s.nts == s.tcap then expand s else s

room_same : (s : TimerSet) (i : ℕ) → i < s.nts → (room s).ts i ≡ s.ts i
unfolding expand
room_same s i lt = ground arith

module _ (base : ℕ) (base_small : base < 2 ^ 32) where
  module _ (s : TimerSet) (t : Trec) (v : IsValid base s) (near : InWindow base t) where
    start : ℕ → Trec
    start = store (room s).ts s.nts t

    start_old : (i : ℕ) → i < s.nts → start i ≡ s.ts i
    unfolding start
    start_old i lt = ground (arith, room_same s i lt)

    start_new : start s.nts ≡ t
    unfolding start
    start_new = ground arith

    start-AllIn : AllIn base (suc s.nts) start
    start-AllIn i lt = elim (dec_lt i s.nts) [
      | yes old ↦ rw (start_old i old) (v.window i old)
      | no new ↦ let last : i ≡ s.nts = omega arith in rw (last, start_new) near
    ]

    start-Rising : Rising (ranks base start) (suc s.nts) s.nts
    start-Rising = record {
      others = λ i lo hi ne.
          rw (start_old i (omega arith), start_old (i / 4) (omega arith))
            (v.heap i lo (omega arith));
      below = λ i lo hi e pos. absurd (omega arith);
    }

    start-total : (p : Trec → Bool) → total p (suc s.nts) start ≡ total p s.nts s.ts + of_bool (p t)
    unfolding start
    start-total p =
        total-push p s.nts (room s).ts t
        ∙ ap (λ m. m + of_bool (p t)) (total_eq p s.nts (room s).ts s.ts (room_same s))

    start_heap : IsHeapOf base (suc s.nts) start (sift_up s.nts start s.nts)
    start_heap =
        sift_up_lem base base_small s.nts start s.nts (suc s.nts) (omega arith) (omega arith)
          start-AllIn start-Rising

  -- The new timer fits: there is room for it, and its time and counter are in range.
  pub record Fits (s : TimerSet) (usec : ℕ) (bg : Bool) : Type 0 where
    pub few : s.nts + 1 < 2 ^ 30
    pub usec_small : usec < 1000000
    pub near : sub32 (add32 (add32 s.order 2) (of_bool (not bg))) base < 2 ^ 31

  pushed-InWindow :
      (s : TimerSet) (sec usec se : ℕ) (bg : Bool)
      → Fits s usec bg
      → InWindow base (pushed s sec usec se bg)
  pushed-InWindow s sec usec se bg f = record {
    usec_small = f.usec_small;
    order_small = omega arith;
    order_near = f.near;
  }

  pushed_parity :
      (s : TimerSet) (sec usec se : ℕ) (bg : Bool)
      → s.order % 2 ≡ 0
      → (of_bool (is_foreground (pushed s sec usec se bg)) ≡ of_bool (not bg))
        × (of_bool (not bg) ≤ 1)
  pushed_parity s sec usec se true e = ground arith
  pushed_parity s sec usec se false e = ground arith

  -- The set after the heap loop holds the old timers and the new one.
  pub insert_lem :
      (s : TimerSet) (sec usec se : ℕ) (bg : Bool)
      → IsValid base s
      → Fits s usec bg
      → IsValid base (insert s sec usec se bg)
        × ((insert s sec usec se bg).nts ≡ suc s.nts)
        × ((p : Trec → Bool)
            → total p (insert s sec usec se bg).nts (insert s sec usec se bg).ts
              ≡ total p s.nts s.ts + of_bool (p (pushed s sec usec se bg)))
  unfolding insert start
  insert_lem s sec usec se bg v f =
      let t = pushed s sec usec se bg in
      let h = start_heap s t v (pushed-InWindow s sec usec se bg f) in
      let one : add32 s.nts 1 ≡ suc s.nts = omega (arith, f.few) in
      let filled =
        λ (p : Trec → Bool). h.same p ∙ start-total s t v (pushed-InWindow s sec usec se bg f) p in
      (
        record {
          few = omega (arith, f.few);
          even = omega (arith, v.even);
          heap = rw one h.heap;
          window = rw one h.window;
          foreground = rw one (
              omega (
                arith,
                v.foreground,
                total-le is_foreground s.nts s.ts,
                f.few,
                pushed_parity s sec usec se bg v.even,
              )
              ∙ sym (filled is_foreground));
        },
        one,
        λ p. rw one (filled p),
      )

  thin_next : (s : TimerSet) (r : ℕ) → IsValid base s → IsValid base (record s { rand = r })
  thin_next s r v = record {
    few = v.few;
    even = v.even;
    heap = v.heap;
    window = v.window;
    foreground = v.foreground;
  }

  same_slots :
      (s : TimerSet) (r pos : ℕ) (t : TimerSet)
      → Leaves base (record s { rand = r }) pos t
      → Leaves base s pos t
  same_slots s r pos t l = record { valid = l.valid; fewer = l.fewer; same = l.same; kept = l.kept }

  -- The thinning loop ends, and drops dead timers only.
  pub thin_lem :
      (fuel : ℕ) (is_empty : ℕ → Bool) (s : TimerSet)
      → IsValid base s
      → s.nts < fuel
      → (es : List Effect) × (u : TimerSet) × (thin fuel is_empty s ≡ some (es, u))
        × Culls base is_empty s es u
  unfolding thin
  thin_lem zero is_empty s v lt = elim lt [ ]
  thin_lem (suc fuel) is_empty s v lt =
      let pos = s.rand % s.nts in
      let next = record s { rand = add32 (mul32 s.rand 1664525) 1013904223 } in
      elim (Bool-cases (leb 32 s.nts)) [
        | inr small ↦ ([], s, ground arith, Culls-none base base_small is_empty s v)
        | inl large ↦ elim (Bool-cases (is_empty (s.ts pos).se)) [
          | inr alive ↦ (
            [],
            next,
            ground arith,
            record { valid = thin_next s next.rand v; dead = tt; same = λ q. omega arith },
          )
          | inl gone ↦
              let below : pos < s.nts = mod-lt s.rand (ground arith) in
              let w = thin_next s next.rand v in
              let (t, step, l) = hard_cull_heap base base_small next pos w below in
              let (es, u, run, c) = thin_lem fuel is_empty t l.valid (omega (arith, l.fewer)) in
              (
                clean (s.ts pos).se ∷ es,
                u,
                ground arith,
                Culls-step base base_small is_empty s t u pos es gone
                    (same_slots s next.rand pos t l) c,
              )
        ]
      ]

  -- `push` of a live event that fits a valid set ends. The set it leaves is valid, every event that it
  -- dropped was dead, and the events of the new set and the dropped ones are those of the old set and
  -- the new event, as counted by any test on events.
  pub push_heap :
      (is_empty : ℕ → Bool) (s : TimerSet) (sec usec se : ℕ) (bg : Bool)
      → IsValid base s
      → Fits s usec bg
      → is_empty se ≡ false
      → (es : List Effect) × (u : TimerSet) × (push is_empty s sec usec se bg ≡ some (es, u))
        × IsValid base u
        × AllDead is_empty es
        × ((q : ℕ → Bool)
            → total (λ t. q t.se) u.nts u.ts + tally q es
              ≡ total (λ t. q t.se) s.nts s.ts + of_bool (q se))
  unfolding push
  push_heap is_empty s sec usec se bg v f live =
      let (w, grown, filled) = insert_lem s sec usec se bg v f in
      let (es, u, run, c) =
        thin_lem (suc (suc s.nts)) is_empty (insert s sec usec se bg) w (omega (arith, grown)) in
      (es, u, rw live run, c.valid, c.dead, λ q. c.same q ∙ filled (λ t. q t.se))
