-- ===== src/Events/Typed/Once.antt =====
-- The first trigger of an event stores its results, and no later one does.
use tamer.Prelude.{
  ℕ, suc, ◌≡◌, ◌≤◌, refl, ap₂, ◌∙◌, Bool, true, false, List, [], ◌∷◌, none, some, ◌==◌, store, has,
  Distinct, length, arith,
}
use tamer.Events.{Event, World, notify_all, hook_of, spent, trigger_loop, simple_trigger}
use tamer.Events.Typed.{Handle, Memory, no_event, active, fire, write, values_at, trigger}

module _ {ℓ} {A : Type ℓ} where
  untouched :
      (ss : List ℕ) (vs : List A) (f : ℕ → A) (t : ℕ) → has t ss ≡ false → write ss vs f t ≡ f t
  unfolding write
  untouched [] vs f t h = refl
  untouched (s ∷ ss) [] f t h = refl
  untouched (s ∷ ss) (v ∷ vs) f t h =
      untouched ss vs (store f s v) t (ground (arith, h))
      ∙ (let other : (s == t) ≡ false = ground (arith, h) in rw other refl)

  written :
      (ss : List ℕ) (vs : List A) (f : ℕ → A)
      → Distinct ss
      → length ss ≡ length vs
      → values_at (write ss vs f) ss ≡ vs
  unfolding write
  written [] [] f d l = refl
  written [] (v ∷ vs) f d l = absurd (omega arith)
  written (s ∷ ss) [] f d l = absurd (omega arith)
  written (s ∷ ss) (v ∷ vs) f d l =
      ap₂ (λ a b. a ∷ b)
        (untouched ss vs (store f s v) s d.0
          ∙ (let here : (s == s) ≡ true = ground arith in rw here refl))
        (written ss vs (store f s v) d.1 (omega arith))

spent_kept : (w : World) (e : Event) → 2 ≤ e.refcount → (spent w e).refcount == 0 ≡ false
unfolding spent
spent_kept w e two = ground arith

pub spent_empty : (w : World) (e : Event) → (spent w e).rendezvous ≡ none
unfolding spent
spent_empty w e = refl

-- The event behind a trigger.
fired :
    (fuel : ℕ) (w : World) (x r : ℕ) (e : Event) (values : Bool)
    → w.events x ≡ some e
    → e.rendezvous ≡ some r
    → e.hook ≡ none
    → 2 ≤ e.refcount
    → (u : World) × (n : Event) × (simple_trigger (suc fuel) x values w ≡ some u)
      × (u.events x ≡ some n)
      × (n.rendezvous ≡ none)
unfolding simple_trigger trigger_loop
fired fuel w x r e values ex er eh two =
    let kept : (spent w e).refcount == 0 ≡ false = spent_kept w e two in
    let v = notify_all w x e.rendezvous values in
    let no_hook : hook_of e.rendezvous e.hook ≡ none = rw er eh in
    let here : (x == x) ≡ true = ground arith in
    (
      record {
        events = store w.events x (some (spent w e));
        rendezvous = v.rendezvous;
        program = v.program;
        calls = v.calls;
      },
      spent w e,
      rw (ex, simple_trigger, trigger_loop) (rw no_hook (rw kept refl)),
      rw here refl,
      spent_empty w e,
    )

module _ {ℓ} {A : Type ℓ} where
  pub trigger_waiting :
      (fuel : ℕ) (m : Memory A) (h : Handle) (x r : ℕ) (e : Event) (vs : List A) (u : World)
      → h.se ≡ some x
      → m.world.events x ≡ some e
      → e.rendezvous ≡ some r
      → simple_trigger (suc fuel) x true m.world ≡ some u
      → trigger (suc fuel) h vs m
        ≡ some (no_event h.slots, record { world = u; values = write h.slots vs m.values })
  unfolding trigger active fire
  trigger_waiting fuel m h x r e vs u hx ex er run =
      rw hx (rw (ex, trigger, active) (rw er (rw (run, fire) refl)))

  -- Let an event wait on a rendezvous, without a hook, with at least two references. With any fuel above 0, a
  -- trigger through one of its handles, whose slots differ, leaves that handle empty and the results in the slots
  -- of the handle; a trigger through another of its handles behind that changes nothing.
  pub trigger_once :
      (fuel : ℕ) (m : Memory A) (h k : Handle) (x r : ℕ) (e : Event) (vs us : List A)
      → h.se ≡ some x
      → k.se ≡ some x
      → m.world.events x ≡ some e
      → e.rendezvous ≡ some r
      → e.hook ≡ none
      → 2 ≤ e.refcount
      → Distinct h.slots
      → length h.slots ≡ length vs
      → (n : Memory A) × (trigger (suc fuel) h vs m ≡ some (no_event h.slots, n))
        × (values_at n.values h.slots ≡ vs)
        × (trigger (suc fuel) k us n ≡ some (k, n))
  unfolding trigger active fire
  trigger_once fuel m h k x r e vs us hx kx ex er eh two d l =
      let (u, n, run, there, gone) = fired fuel m.world x r e true ex er eh two in
      (
        record { world = u; values = write h.slots vs m.values },
        trigger_waiting fuel m h x r e vs u hx ex er run,
        written h.slots vs m.values d l,
        rw kx (rw (there, trigger, active) (rw gone refl)),
      )
