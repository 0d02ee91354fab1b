-- ===== src/Events/Waiting.antt =====
-- The events that wait on a rendezvous, and one trigger.
use tamer.Prelude.{
  ℕ, zero, suc, ◌<◌, ◌≡◌, ◌≢◌, refl, sym, ap, subst, ◌∙◌, inl, inr, Bool, true, not, ◌&&◌, List, [],
  ◌∷◌, none, some, arith, ◌==◌, if◌then◌else◌, store, Bool-cases, has, Distinct, if_intro,
}
use tamer.Closures.Blocking.{unblock}
use tamer.Events.{
  Event, gather, Rendezvous, World, is_nil, delete, notify, spent, trigger_loop, simple_trigger,
}

-- The lists of the rendezvous have the events that are not empty, each once.
pub record IsValid (w : World) : Type 0 where
  pub listed :
      (x r : ℕ)
      → has x (w.rendezvous r).waiting ≡ true
      → (e : Event) × (w.events x ≡ some e) × (e.rendezvous ≡ some r)
  pub distinct : (r : ℕ) → Distinct (w.rendezvous r).waiting

pub has-delete :
    (x y : ℕ) (xs : List ℕ) → Distinct xs → has y (delete x xs) ≡ has y xs && not (x == y)
unfolding delete
has-delete x y [] d = refl
has-delete x y (z ∷ xs) d = ground (arith, has-delete x y xs d.1, d.0)

pub Distinct-delete : (x : ℕ) (xs : List ℕ) → Distinct xs → Distinct (delete x xs)
unfolding delete
Distinct-delete x [] d = tt
Distinct-delete x (z ∷ xs) d =
    if_intro Distinct (x == z) xs (z ∷ delete x xs) (λ h. d.1)
      (λ h. (ground (arith, has-delete x z xs d.1, d.0), Distinct-delete x xs d.1))

-- `u` is `w` with the event `x` of the gather rendezvous triggered.
pub record Triggered (w : World) (r x : ℕ) (u : World) : Type 0 where
  pub valid : IsValid u
  pub left : (u.rendezvous r).waiting ≡ delete x (w.rendezvous r).waiting
  pub kind : (u.rendezvous r).kind ≡ gather
  pub resumed :
      u.program
      ≡ (if is_nil (delete x (w.rendezvous r).waiting) then unblock w.program r else w.program)
  pub others : (y : ℕ) → y ≢ x → u.events y ≡ w.events y
  pub same : (q : ℕ) → q ≢ r → u.rendezvous q ≡ w.rendezvous q

-- The world behind the trigger of an event without a hook on a gather rendezvous.
abbrev gathered : World → ℕ → ℕ → Event → World
gathered w r x e = record {
  events = λ y.
      if has y (if (spent w e).refcount == 0 then x ∷ [] else [])
      then none
      else store w.events x (some (spent w e)) y;
  rendezvous = store w.rendezvous r (record {
    kind = gather;
    waiting = delete x (w.rendezvous r).waiting;
    ready = (w.rendezvous r).ready;
  });
  program = if is_nil (delete x (w.rendezvous r).waiting) then unblock w.program r else w.program;
  calls = w.calls;
}

simple_trigger-gathered :
    (fuel : ℕ) (w : World) (r x : ℕ) (values : Bool) (e : Event)
    → w.events x ≡ some e
    → e.rendezvous ≡ some r
    → e.hook ≡ none
    → (w.rendezvous r).kind ≡ gather
    → simple_trigger (suc fuel) x values w ≡ some (gathered w r x e)
unfolding simple_trigger trigger_loop notify
simple_trigger-gathered fuel w r x values e here on plain k = ground (arith, here, on, plain, k)

gathered_other :
    (w : World) (r x y : ℕ) (e : Event) → y ≢ x → (gathered w r x e).events y ≡ w.events y
gathered_other w r x y e ne =
    if_intro (λ k. (if has y k then none else store w.events x (some (spent w e)) y) ≡ w.events y)
      ((spent w e).refcount == 0) (x ∷ []) [] (λ h. ground arith) (λ h. ground arith)

some_rendezvous : (r q : ℕ) → some r ≡ some q → r ≡ q
some_rendezvous r q e = ground arith

module _ (w : World) (r x : ℕ) (e : Event) (v : IsValid w) (here : w.events x ≡ some e)
    (on : e.rendezvous ≡ some r) where
  -- an event of the new lists is another one, and was in the old list
  gathered_was :
      (y q : ℕ)
      → has y ((gathered w r x e).rendezvous q).waiting ≡ true
      → (y ≢ x) × (has y (w.rendezvous q).waiting ≡ true)
  gathered_was y q h = elim (Bool-cases (r == q)) [
    | inl same ↦
        let r_q : r ≡ q = ground arith in
        let in_left : has y (delete x (w.rendezvous r).waiting) ≡ true = ground (arith, same, h) in
        let split = has-delete x y (w.rendezvous r).waiting (v.distinct r) in
        (
          λ eq_x. ground (arith, split, in_left, eq_x),
          subst (λ k. has y (w.rendezvous k).waiting ≡ true) r_q (ground (arith, split, in_left)),
        )
    | inr other ↦
        let old : has y (w.rendezvous q).waiting ≡ true = ground (arith, other, h) in
        (
          λ eq_x.
              let (f, there, at_q) = v.listed y q old in
              let twice : some f ≡ some e = sym there ∙ ap w.events eq_x ∙ here in
              let one : q ≡ r = ground (arith, twice, at_q, on) in ground (arith, one, other),
          old,
        )
  ]

  gathered-IsValid : IsValid (gathered w r x e)
  gathered-IsValid = record {
    listed = λ y q h.
        let (ne, old) = gathered_was y q h in
        let (f, there, at_q) = v.listed y q old in (f, gathered_other w r x y e ne ∙ there, at_q);
    distinct = λ q.
        if_intro (λ (k : Rendezvous). Distinct k.waiting) (r == q) _ (w.rendezvous q)
          (λ h. Distinct-delete x (w.rendezvous r).waiting (v.distinct r)) (λ h. v.distinct q);
  }

-- An event that waits on a gather rendezvous, and has no hook, is triggered.
pub simple_trigger-Triggered :
    (fuel : ℕ) (w : World) (r x : ℕ) (values : Bool) (e : Event)
    → IsValid w
    → 0 < fuel
    → w.events x ≡ some e
    → e.rendezvous ≡ some r
    → e.hook ≡ none
    → (w.rendezvous r).kind ≡ gather
    → (u : World) × (simple_trigger fuel x values w ≡ some u) × Triggered w r x u
simple_trigger-Triggered zero w r x values e v lt here on plain k = absurd (omega arith)
simple_trigger-Triggered (suc fuel) w r x values e v lt here on plain k = (
  gathered w r x e,
  simple_trigger-gathered fuel w r x values e here on plain k,
  record {
    valid = gathered-IsValid w r x e v here on;
    left = ground arith;
    kind = ground arith;
    resumed = refl;
    others = λ y ne. gathered_other w r x y e ne;
    same = λ q ne. ground arith;
  },
)
