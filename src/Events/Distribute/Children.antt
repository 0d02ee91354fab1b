-- ===== src/Events/Distribute/Children.antt =====
-- The hook of a distributed event triggers each of its children.
use tamer.Prelude.{
  ℕ, zero, suc, ◌+◌, ◌-◌, ◌≡◌, ◌≢◌, refl, sym, ap, ◌∙◌, ◌⊎◌, Bool, true, false, List, [], ◌∷◌,
  Option, none, some, ◌==◌, if◌then◌else◌, if_intro, subst, store, has, Distinct, arith, Bool-cases,
  inl, inr,
}
use tamer.Events.{
  Event, World, Call, Kind, gather, explicit, notify, notify_all, hook_of, spent, trigger_loop,
  simple_trigger, delete_all,
}
use tamer.Events.Typed.{Handle, Memory, no_event, fire, write, values_at, unblock}
use tamer.Events.Typed.Once.{trigger_waiting, spent_empty}
use tamer.Events.Distribute.{called, Distribute, each_child, trigger_child, hook}

-- The event is empty or gone.
abbrev pub Over : Option Event → Type 0
Over none = Unit
Over (some e) = e.rendezvous ≡ none

-- The event waits on a rendezvous that calls no function.
abbrev pub Calm : World → ℕ → Type 0
Calm w r = ((w.rendezvous r).kind ≡ gather) ⊎ ((w.rendezvous r).kind ≡ explicit)

-- The kinds of rendezvous stay, and nothing is called.
abbrev pub Quiet : World → World → Type 0
Quiet w u = ((q : ℕ) → (u.rendezvous q).kind ≡ (w.rendezvous q).kind) × (u.calls ≡ w.calls)

kind_kept :
    (w : World) (r q : ℕ) (k : Kind) (waiting ready : List ℕ)
    → (w.rendezvous r).kind ≡ k
    → (store w.rendezvous r (record { kind = k; waiting = waiting; ready = ready }) q).kind
      ≡ (w.rendezvous q).kind
kind_kept w r q k waiting ready e = elim (Bool-cases (r == q)) [
  | inl b ↦ let same : r ≡ q = ground arith in rw b (sym e ∙ ap (λ t. (w.rendezvous t).kind) same)
  | inr b ↦ rw b refl
]

notify-Quiet : (w : World) (x r : ℕ) (values : Bool) → Calm w r → Quiet w (notify w x r values)
unfolding notify
notify-Quiet w x r values (inl k) = rw (k, notify) ((λ q. kind_kept w r q gather _ _ k), refl)
notify-Quiet w x r values (inr k) = rw (k, notify) ((λ q. kind_kept w r q explicit _ _ k), refl)

-- Any number of references will do.
fired-Over :
    (fuel : ℕ) (w : World) (x r : ℕ) (e : Event) (values : Bool)
    → w.events x ≡ some e
    → e.rendezvous ≡ some r
    → e.hook ≡ none
    → Calm w r
    → (u : World) × (simple_trigger (suc fuel) x values w ≡ some u)
      × Over (u.events x)
      × ((y : ℕ) → y ≢ x → u.events y ≡ w.events y)
      × Quiet w u
unfolding simple_trigger trigger_loop
fired-Over fuel w x r e values ex er eh calm =
    let v = notify_all w x e.rendezvous values in
    let no_hook : hook_of e.rendezvous e.hook ≡ none = rw er eh in
    let here : (x == x) ≡ true = ground arith in
    let gone = if (spent w e).refcount == 0 then x ∷ [] else [] in
    (
      delete_all gone (record {
        events = store w.events x (some (spent w e));
        rendezvous = v.rendezvous;
        program = v.program;
        calls = v.calls;
      }),
      rw (ex, simple_trigger, trigger_loop) (rw no_hook refl),
      if_intro (λ xs. Over (if has x xs then none else store w.events x (some (spent w e)) x))
          ((spent w e).refcount == 0) (x ∷ []) [] (λ z. rw here tt)
          (λ z. rw here (spent_empty w e)),
      (λ y ne.
          let other : (x == y) ≡ false = ground arith in
          let back : (y == x) ≡ false = ground arith in
          if_intro
            (λ xs. (if has y xs then none else store w.events x (some (spent w e)) y) ≡ w.events y)
            ((spent w e).refcount == 0) (x ∷ []) [] (λ z. rw back (rw other refl))
            (λ z. rw other refl)),
      subst (λ o. Quiet w (notify_all w x o values)) (sym er) (notify-Quiet w x r values calm),
    )

-- The handle is one of an event without a hook that waits on a gather or explicit rendezvous.
pub record Waits (w : World) (h : Handle) (x : ℕ) : Type 0 where
  pub same : h.se ≡ some x
  pub event :
      (e : Event) × (w.events x ≡ some e)
      × (e.hook ≡ none)
      × (r : ℕ) × (e.rendezvous ≡ some r)
      × Calm w r

abbrev pub AllWait : World → List Handle → List ℕ → Type 0
AllWait w [] [] = Unit
AllWait w [] (x ∷ xs) = zero ≡ 1
AllWait w (h ∷ hs) [] = zero ≡ 1
AllWait w (h ∷ hs) (x ∷ xs) = Waits w h x × AllWait w hs xs

AllWait-same :
    (w u : World) (hs : List Handle) (xs : List ℕ)
    → ((y : ℕ) → has y xs ≡ true → u.events y ≡ w.events y)
    → Quiet w u
    → AllWait w hs xs
    → AllWait u hs xs
AllWait-same w u [] [] f q a = tt
AllWait-same w u [] (x ∷ xs) f q a = a
AllWait-same w u (h ∷ hs) [] f q a = a
AllWait-same w u (h ∷ hs) (x ∷ xs) f q a =
    let (e, ex, eh, r, er, calm) = a.0.event in
    (
      record {
        same = a.0.same;
        event = (
          e,
          f x (ground arith) ∙ ex,
          eh,
          r,
          er,
          elim calm [ inl k ↦ inl (q.0 r ∙ k) | inr k ↦ inr (q.0 r ∙ k) ],
        );
      },
      AllWait-same w u hs xs (λ y m. f y (ground (arith, m))) q a.1,
    )

abbrev pub emptied : List Handle → List Handle
emptied [] = []
emptied (h ∷ hs) = no_event h.slots ∷ emptied hs

no_clear :
    (f left : ℕ) (before after : List Call)
    → after ≡ before
    → left + 1 - (called f after - called f before) - 1 ≡ left
no_clear f left before after e = omega (arith, ap (called f) e)

module _ {ℓ} {A : Type ℓ} where
  -- A step that triggers one child and leaves the other events alone.
  abbrev Triggers : (Handle → Memory A → Option (Handle × Memory A)) → Type ℓ
  Triggers act =
      (h : Handle) (m : Memory A) (x : ℕ)
      → Waits m.world h x
      → (n : Memory A) × (act h m ≡ some (no_event h.slots, n))
        × Over (n.world.events x)
        × ((y : ℕ) → y ≢ x → n.world.events y ≡ m.world.events y)
        × Quiet m.world n.world

  abbrev Triggered : List Handle → List ℕ → Memory A → Option (List Handle × Memory A) → Type ℓ
  Triggered hs xs m result =
      (n : Memory A) × (result ≡ some (emptied hs, n))
      × ((x : ℕ) → has x xs ≡ true → Over (n.world.events x))
      × ((y : ℕ) → has y xs ≡ false → n.world.events y ≡ m.world.events y)
      × Quiet m.world n.world

  each_child_lem :
      (act : Handle → Memory A → Option (Handle × Memory A))
      → Triggers act
      → (hs : List Handle) (xs : List ℕ) (m : Memory A) → AllWait m.world hs xs
      → Distinct xs
      → Triggered hs xs m (each_child act hs m)
  unfolding each_child
  each_child_lem act t [] [] m a d =
      (m, refl, (λ x h. absurd (ground (arith, h))), (λ y h. refl), ((λ q. refl), refl))
  each_child_lem act t [] (x ∷ xs) m a d = absurd (omega (arith, a))
  each_child_lem act t (h ∷ hs) [] m a d = absurd (omega (arith, a))
  each_child_lem act t (h ∷ hs) (x ∷ xs) m a d =
      let (n, run, over, same, quiet) = t h m x a.0 in
      let (p, runs, overs, sames, quiets) =
        each_child_lem act t hs xs n
          (AllWait-same m.world n.world hs xs (λ y i. same y (ground (arith, i, d.0))) quiet a.1)
          d.1 in
      (
        p,
        rw (run, each_child) (rw runs refl),
        (λ y i. elim (Bool-cases (has y xs)) [
          | inl b ↦ overs y b
          | inr b ↦
              let e : x ≡ y = ground (arith, i, b) in
              subst (λ k. Over (p.world.events k)) e (subst Over (sym (sames x d.0)) over)
        ]),
        (λ y i. sames y (ground (arith, i)) ∙ same y (ground (arith, i))),
        ((λ q. quiets.0 q ∙ quiet.0 q), quiets.1 ∙ quiet.1),
      )

  trigger_child-Triggers : (fuel : ℕ) (vs : List ℕ) → Triggers (trigger_child (suc fuel) vs)
  unfolding trigger_child
  trigger_child-Triggers fuel vs h m x w =
      let (e, ex, eh, r, er, calm) = w.event in
      let (u, run, over, same, quiet) = fired-Over fuel m.world x r e true ex er eh calm in
      (
        record { world = u; values = write h.slots (values_at m.values vs) m.values },
        trigger_waiting fuel m h x r e (values_at m.values vs) u w.same ex er run,
        over,
        same,
        quiet,
      )

  unblock-Triggers : (fuel : ℕ) → Triggers (unblock (suc fuel))
  unfolding unblock fire
  unblock-Triggers fuel h m x w =
      let (e, ex, eh, r, er, calm) = w.event in
      let (u, run, over, same, quiet) = fired-Over fuel m.world x r e false ex er eh calm in
      (
        record { world = u; values = m.values },
        rw w.same (rw (run, unblock, fire) refl),
        over,
        same,
        quiet,
      )

  -- Let the children of a distributed event be handles of different events, without hooks, that each wait on a
  -- gather or an explicit rendezvous. When the event is triggered, with values or while it has references, then with
  -- any fuel above 0 its hook triggers every child, so that none of their events waits any more and the handles are
  -- empty; it touches no other event, calls no function, and is deleted exactly if no shared child was outstanding.
  pub hook_lem :
      (fuel f : ℕ) (values : Bool) (d : Distribute) (m : Memory A) (xs : List ℕ)
      → AllWait m.world d.es xs
      → Distinct xs
      → (n : Memory A) × (hook (suc fuel) f values false d m
          ≡ some (record d { es = emptied d.es }, n, d.outstanding == 0))
        × ((x : ℕ) → has x xs ≡ true → Over (n.world.events x))
        × ((y : ℕ) → has y xs ≡ false → n.world.events y ≡ m.world.events y)
        × (n.world.calls ≡ m.world.calls)
  unfolding hook
  hook_lem fuel f true d m xs a dis =
      let (n, run, over, same, quiet) =
        each_child_lem (trigger_child (suc fuel) d.vs) (trigger_child-Triggers fuel d.vs) d.es xs m
          a dis in
      (
        n,
        rw (run, hook) (rw (no_clear f d.outstanding m.world.calls n.world.calls quiet.1) refl),
        over,
        same,
        quiet.1,
      )
  hook_lem fuel f false d m xs a dis =
      let (n, run, over, same, quiet) =
        each_child_lem (unblock (suc fuel)) (unblock-Triggers fuel) d.es xs m a dis in
      (
        n,
        rw (run, hook) (rw (no_clear f d.outstanding m.world.calls n.world.calls quiet.1) refl),
        over,
        same,
        quiet.1,
      )
