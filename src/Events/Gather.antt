-- ===== src/Events/Gather.antt =====
-- A gather rendezvous lets its closure run on with the last of its events, in whatever order they trigger.
use tamer.Prelude.{
  ℕ, zero, suc, ◌<◌, ◌≡◌, refl, sym, ap, subst, ◌∙◌, inl, inr, Bool, true, false, not, ◌&&◌, List,
  [], ◌∷◌, none, some, arith, ◌==◌, if◌then◌else◌, Bool-cases, has, Distinct, length, take,
}
use tamer.Closures.Blocking.{unblock}
use tamer.Events.{Event, gather, World, is_nil, simple_trigger, trigger_each}
use tamer.Events.Waiting.{IsValid, Triggered, has-delete, simple_trigger-Triggered}

nil_lem : (xs : List ℕ) → ((y : ℕ) → has y xs ≡ false) → xs ≡ []
nil_lem [] h = refl
nil_lem (x ∷ xs) h = absurd (ground (arith, h x))

cons_lem : (xs : List ℕ) (y : ℕ) → has y xs ≡ true → is_nil xs ≡ false
cons_lem [] y h = absurd (ground arith)
cons_lem (x ∷ xs) y h = refl

-- The events that wait have no hook.
abbrev pub NoHooks : World → ℕ → Type 0
NoHooks w r =
    (x : ℕ) (e : Event)
    → has x (w.rendezvous r).waiting ≡ true
    → w.events x ≡ some e
    → e.hook ≡ none

module _ (fuel : ℕ) (values : Bool) (r : ℕ) (some_fuel : 0 < fuel) where
  rest_waits :
      (w u : World) (x y : ℕ) (xs : List ℕ)
      → IsValid w
      → Triggered w r x u
      → has x xs ≡ false
      → ((z : ℕ) → has z (x ∷ xs) ≡ has z (w.rendezvous r).waiting)
      → has y xs ≡ has y (u.rendezvous r).waiting
  rest_waits w u x y xs v t out same =
      let gone = has-delete x y (w.rendezvous r).waiting (v.distinct r) in
      elim (Bool-cases (x == y)) [
        | inl here ↦
            let e : x ≡ y = ground arith in
            let no : has y xs ≡ false = subst (λ k. has k xs ≡ false) e out in
            ground (arith, no, gone, here, ap (has y) t.left)
        | inr there ↦ ground (arith, gone, there, same y, ap (has y) t.left)
      ]

  rest-NoHooks : (w u : World) (x : ℕ) → IsValid w → Triggered w r x u → NoHooks w r → NoHooks u r
  rest-NoHooks w u x v t plain y e h there =
      let gone = has-delete x y (w.rendezvous r).waiting (v.distinct r) ∙ refl in
      let both : has y (w.rendezvous r).waiting && not (x == y) ≡ true =
        sym gone ∙ ap (has y) (sym t.left) ∙ h in
      plain y e (ground (arith, both))
        (sym (t.others y (λ same. ground (arith, both, same))) ∙ there)

  first_step :
      (w : World) (x : ℕ) (ys : List ℕ)
      → IsValid w
      → (w.rendezvous r).kind ≡ gather
      → ((y : ℕ) → has y ys ≡ has y (w.rendezvous r).waiting)
      → NoHooks w r
      → has x ys ≡ true
      → (u : World) × (simple_trigger fuel x values w ≡ some u) × Triggered w r x u
  first_step w x ys v k same plain inside =
      let waits = sym (same x) ∙ inside in
      let (e, here, on) = v.listed x r waits in
      simple_trigger-Triggered fuel w r x values e v some_fuel here on (plain x e waits here) k

  -- The program is as before, up to the event in front of the last.
  abbrev Before : World → List ℕ → Type 0
  Before w xs =
      (n : ℕ)
      → n < length xs
      → (b : World) × (trigger_each fuel (take n xs) values w ≡ some b) × (b.program ≡ w.program)

  only_Before : (w : World) (x : ℕ) → Before w (x ∷ [])
  unfolding trigger_each
  only_Before w x zero h = (w, refl, refl)
  only_Before w x (suc n) h = absurd (omega (arith, h))

  first_Before :
      (w u : World) (x : ℕ) (xs : List ℕ)
      → simple_trigger fuel x values w ≡ some u
      → u.program ≡ w.program
      → Before u xs
      → Before w (x ∷ xs)
  unfolding trigger_each
  first_Before w u x xs first kept rest zero h = (w, refl, refl)
  first_Before w u x xs first kept rest (suc n) h =
      let (b, e, same) = rest n (omega (arith, h)) in (b, ground (arith, first, e), same ∙ kept)

  -- In a valid world, if the events of the list, each of them once, are those that wait on a gather rendezvous, and none has a
  -- hook, then, with any fuel at all, triggering them one after another ends with no event waiting on it, and the closure that it
  -- blocks is unblocked by the last of them: the program is then that behind one `unblock`, and before the last
  -- of them it is the one from the start.
  pub trigger_each_lem :
      (w : World) (x : ℕ) (xs : List ℕ)
      → IsValid w
      → (w.rendezvous r).kind ≡ gather
      → Distinct (x ∷ xs)
      → ((y : ℕ) → has y (x ∷ xs) ≡ has y (w.rendezvous r).waiting)
      → NoHooks w r
      → (u : World) × (trigger_each fuel (x ∷ xs) values w ≡ some u)
        × ((u.rendezvous r).waiting ≡ [])
        × (u.program ≡ unblock w.program r)
        × IsValid u
        × ((n : ℕ)
            → n < length (x ∷ xs)
            → (b : World) × (trigger_each fuel (take n (x ∷ xs)) values w ≡ some b)
              × (b.program ≡ w.program))
  unfolding trigger_each
  trigger_each_lem w x [] v k d same plain =
      let (u, first, t) = first_step w x (x ∷ []) v k same plain (ground arith) in
      let none_left : (u.rendezvous r).waiting ≡ [] =
        nil_lem (u.rendezvous r).waiting (λ y. sym (rest_waits w u x y [] v t d.0 same)) in
      (
        u,
        ground (arith, first),
        none_left,
        t.resumed
            ∙ ap (λ k. if is_nil k then unblock w.program r else w.program)
                (sym t.left ∙ none_left),
        t.valid,
        only_Before w x,
      )
  trigger_each_lem w x (y ∷ xs) v k d same plain =
      let (u, first, t) = first_step w x (x ∷ y ∷ xs) v k same plain (ground arith) in
      let rest = λ (z : ℕ). rest_waits w u x z (y ∷ xs) v t d.0 same in
      let (w', others, none_left, resumed, valid, before) =
        trigger_each_lem u y xs t.valid t.kind d.1 rest (rest-NoHooks w u x v t plain) in
      let some_left : is_nil (u.rendezvous r).waiting ≡ false =
        cons_lem (u.rendezvous r).waiting y (sym (rest y) ∙ ground arith) in
      let kept : u.program ≡ w.program =
        t.resumed
        ∙ ap (λ b. if b then unblock w.program r else w.program)
            (ap is_nil (sym t.left) ∙ some_left) in
      (
        w',
        ground (arith, first, others),
        none_left,
        resumed ∙ ap (λ p. unblock p r) kept,
        valid,
        first_Before w u x (y ∷ xs) first kept before,
      )
