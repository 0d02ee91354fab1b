-- ===== src/Events/Explicit.antt =====
-- An explicit rendezvous reports its events by `join`, in the order in which they were triggered.
use tamer.Prelude.{
  sub32, ℕ, zero, suc, ◌<◌, ◌≡◌, refl, sym, ap, subst, ◌∙◌, inl, inr, Bool, true, false, List, [],
  ◌∷◌, ◌++◌, none, some, arith, ◌==◌, if◌then◌else◌, store, Bool-cases, has, has_differ, Distinct,
  if_intro, length, map,
}
use mathlib.Core.List.{append-nil, append_assoc}
use tamer.Closures.Blocking.{unblock}
use tamer.Events.{
  Event, explicit, World, delete, spent, notify, trigger_loop, simple_trigger, trigger_each,
  unuse_clean, pop_ready, join, join_each,
}

-- The event is there, empty, with a reference, and this identity.
pub record IsReady (w : World) (rid_of : ℕ → ℕ) (x : ℕ) : Type 0 where
  pub event : Event
  pub there : w.events x ≡ some event
  pub rid : event.rid ≡ rid_of x
  pub referenced : 0 < event.refcount

-- The event waits on the rendezvous, with this identity and no hook.
pub record Waits (w : World) (r : ℕ) (rid_of : ℕ → ℕ) (x : ℕ) : Type 0 where
  pub event : Event
  pub there : w.events x ≡ some event
  pub on : event.rendezvous ≡ some r
  pub rid : event.rid ≡ rid_of x
  pub plain : event.hook ≡ none

module _ (r : ℕ) (rid_of : ℕ → ℕ) where
  -- The world behind `pop_ready`.
  abbrev popped : World → ℕ → List ℕ → Event → World
  popped w x xs e = record {
    events = store w.events x (
        if sub32 e.refcount 1 == 0
        then none
        else some (record {
          rendezvous = e.rendezvous;
          rid = e.rid;
          hook = e.hook;
          refcount = sub32 e.refcount 1;
        }));
    rendezvous =
        store w.rendezvous r
          (record { kind = (w.rendezvous r).kind; waiting = (w.rendezvous r).waiting; ready = xs });
    program = w.program;
    calls = w.calls;
  }

  join-popped :
      (w : World) (x : ℕ) (xs : List ℕ) (e : Event)
      → (w.rendezvous r).ready ≡ x ∷ xs
      → w.events x ≡ some e
      → join w r ≡ some (some e.rid, popped w x xs e)
  unfolding join pop_ready unuse_clean
  join-popped w x xs e h there = ground (arith, h, there)

  join-none : (w : World) → (w.rendezvous r).ready ≡ [] → join w r ≡ some (none, w)
  unfolding join
  join-none w h = ground (arith, h)

  pub join_each_lem :
      (fuel : ℕ) (w : World) (xs : List ℕ)
      → (w.rendezvous r).ready ≡ xs
      → Distinct xs
      → ((x : ℕ) → has x xs ≡ true → IsReady w rid_of x)
      → length xs < fuel
      → (u : World) × (join_each fuel w r ≡ some (map rid_of xs, u))
        × ((u.rendezvous r).ready ≡ [])
        × (u.program ≡ w.program)
  unfolding join_each
  join_each_lem zero w xs h d ready lt = absurd (omega arith)
  join_each_lem (suc fuel) w [] h d ready lt = (w, ground (arith, join-none w h), h, refl)
  join_each_lem (suc fuel) w (x ∷ xs) h d ready lt =
      let first = ready x (ground arith) in
      let e = first.event in
      let w' = popped w x xs e in
      let still : (y : ℕ) → has y xs ≡ true → IsReady w' rid_of y = λ y inside.
        let old = ready y (ground (arith, inside)) in
        let ne : x == y ≡ false = has_differ x y xs d.0 inside in
        record {
          event = old.event;
          there = ground (arith, ne, old.there);
          rid = old.rid;
          referenced = old.referenced;
        } in
      let (u, rest, empty, same) =
        join_each_lem fuel w' xs (ground arith) d.1 still (omega arith) in
      (u, ground (arith, join-popped w x xs e h first.there, rest, first.rid), empty, same)

  -- The world behind the trigger of an event of an explicit rendezvous.
  abbrev made_ready : World → ℕ → Event → World
  made_ready w x e = record {
    events = λ y.
        if has y (if (spent w e).refcount == 0 then x ∷ [] else [])
        then none
        else store w.events x (some (spent w e)) y;
    rendezvous = store w.rendezvous r (record {
      kind = explicit;
      waiting = delete x (w.rendezvous r).waiting;
      ready = (w.rendezvous r).ready ++ (x ∷ []);
    });
    program = unblock w.program r;
    calls = w.calls;
  }

  simple_trigger-made_ready :
      (fuel : ℕ) (w : World) (x : ℕ) (values : Bool) (s : Waits w r rid_of x)
      → (w.rendezvous r).kind ≡ explicit
      → simple_trigger (suc fuel) x values w ≡ some (made_ready w x s.event)
  unfolding simple_trigger trigger_loop notify
  simple_trigger-made_ready fuel w x values s k = ground (arith, s.there, s.on, s.plain, k)

  made_ready-IsReady :
      (w : World) (x : ℕ) (s : Waits w r rid_of x)
      → (w.rendezvous r).kind ≡ explicit
      → IsReady (made_ready w x s.event) rid_of x
  made_ready-IsReady w x s k =
      let some_left : 0 < (spent w s.event).refcount = unfold spent in ground (arith, s.on, k) in
      record {
        event = spent w s.event;
        there = ground (arith, some_left);
        rid = unfold spent in s.rid;
        referenced = some_left;
      }

  made_ready_other :
      (w : World) (x y : ℕ) (e : Event) → x == y ≡ false → (made_ready w x e).events y ≡ w.events y
  made_ready_other w x y e ne =
      if_intro (λ k. (if has y k then none else store w.events x (some (spent w e)) y) ≡ w.events y)
        ((spent w e).refcount == 0) (x ∷ []) [] (λ h. ground arith) (λ h. ground arith)

  new_ready :
      (w : World) (x : ℕ) (e : Event)
      → ((made_ready w x e).rendezvous r).ready ≡ (w.rendezvous r).ready ++ (x ∷ [])
  new_ready w x e = ground arith

  -- What a row of triggers leaves.
  pub record AllReady (w : World) (xs : List ℕ) (u : World) : Type 0 where
    pub ready : (u.rendezvous r).ready ≡ (w.rendezvous r).ready ++ xs
    pub all : (x : ℕ) → has x xs ≡ true → IsReady u rid_of x
    pub others : (y : ℕ) → has y xs ≡ false → u.events y ≡ w.events y

  moved-Waits :
      (w u : World) (y : ℕ) → u.events y ≡ w.events y → Waits w r rid_of y → Waits u r rid_of y
  moved-Waits w u y same s = record {
    event = s.event;
    there = same ∙ s.there;
    on = s.on;
    rid = s.rid;
    plain = s.plain;
  }

  moved-IsReady :
      (w u : World) (y : ℕ) → u.events y ≡ w.events y → IsReady w rid_of y → IsReady u rid_of y
  moved-IsReady w u y same s = record {
    event = s.event;
    there = same ∙ s.there;
    rid = s.rid;
    referenced = s.referenced;
  }

  trigger_each-AllReady :
      (fuel : ℕ) (values : Bool) (w : World) (xs : List ℕ)
      → (w.rendezvous r).kind ≡ explicit
      → Distinct xs
      → ((x : ℕ) → has x xs ≡ true → Waits w r rid_of x)
      → (u : World) × (trigger_each (suc fuel) xs values w ≡ some u) × AllReady w xs u
  unfolding trigger_each
  trigger_each-AllReady fuel values w [] k d waits = (
    w,
    refl,
    record {
      ready = sym (append-nil (w.rendezvous r).ready);
      all = λ x h. absurd (ground arith);
      others = λ y h. refl;
    },
  )
  trigger_each-AllReady fuel values w (x ∷ xs) k d waits =
      let s = waits x (ground arith) in
      let w' = made_ready w x s.event in
      let first = simple_trigger-made_ready fuel w x values s k in
      let (u, rest, a) = trigger_each-AllReady fuel values w' xs (ground arith) d.1 (λ y inside.
        moved-Waits w w' y (made_ready_other w x y s.event (has_differ x y xs d.0 inside))
          (waits y (ground (arith, inside)))) in
      (
        u,
        ground (arith, first, rest),
        record {
          ready =
              a.ready
              ∙ ap (λ q. q ++ xs) (new_ready w x s.event)
              ∙ append_assoc (w.rendezvous r).ready (x ∷ []) xs;
          all = λ y h. elim (Bool-cases (has y xs)) [
            | inl later ↦ a.all y later
            | inr now_y ↦
                let e : x ≡ y = ground (arith, h, now_y) in
                subst (IsReady u rid_of) e
                  (moved-IsReady w' u x (a.others x d.0) (made_ready-IsReady w x s k))
          ];
          others = λ y h.
              a.others y (ground (arith, h)) ∙ made_ready_other w x y s.event (ground (arith, h));
        },
      )

  -- Events that wait on an explicit rendezvous with none ready, each once and without hooks, are triggered one
  -- after another; then a caller that joins as long as an event is ready gets their identities in the order in
  -- which they were triggered.
  pub joined_in_order :
      (fuel joins : ℕ) (values : Bool) (w : World) (xs : List ℕ)
      → (w.rendezvous r).kind ≡ explicit
      → (w.rendezvous r).ready ≡ []
      → Distinct xs
      → ((x : ℕ) → has x xs ≡ true → Waits w r rid_of x)
      → 0 < fuel
      → length xs < joins
      → (u v : World) × (trigger_each fuel xs values w ≡ some u)
        × (join_each joins u r ≡ some (map rid_of xs, v))
        × ((v.rendezvous r).ready ≡ [])
  joined_in_order zero joins values w xs k none_ready d waits lt few = absurd (omega arith)
  joined_in_order (suc fuel) joins values w xs k none_ready d waits lt few =
      let (u, run, a) = trigger_each-AllReady fuel values w xs k d waits in
      let (v, drained, empty, same) =
        join_each_lem joins u xs (a.ready ∙ ap (λ q. q ++ xs) none_ready) d a.all few in
      (u, v, run, drained, empty)
