-- ===== src/Events/Clear/Laws.antt =====
-- `remove_waiting` makes every event that waits on the rendezvous empty, and unblocks nothing.
use tamer.Prelude.{
  ℕ, ◌≡◌, ◌≢◌, refl, ap, subst, ◌∙◌, inl, inr, true, false, List, [], ◌∷◌, Option, none, some,
  arith, store, Bool-cases, has, has_differ, Distinct,
}
use tamer.Events.{Event, Rendezvous, World, is_nil}
use tamer.Events.Waiting.{IsValid}
use tamer.Events.Gather.{NoHooks}
use tamer.Events.Clear.{
  emptied, empty_all, hook_at, run_hooks, hard_remove_waiting, remove_waiting, has_waiting,
}

-- The worlds differ in these events alone, which are empty now.
pub record Emptied (w : World) (xs : List ℕ) (u : World) : Type 0 where
  pub all : (x : ℕ) → has x xs ≡ true → u.events x ≡ emptied (w.events x)
  pub others : (x : ℕ) → has x xs ≡ false → u.events x ≡ w.events x
  pub same_rendezvous : u.rendezvous ≡ w.rendezvous
  pub same_program : u.program ≡ w.program
  pub same_calls : u.calls ≡ w.calls

empty_all-Emptied : (w : World) (xs : List ℕ) → Distinct xs → Emptied w xs (empty_all xs w)
unfolding empty_all
empty_all-Emptied w [] d = record {
  all = λ x h. absurd (ground arith);
  others = λ x h. refl;
  same_rendezvous = refl;
  same_program = refl;
  same_calls = refl;
}
empty_all-Emptied w (y ∷ xs) d =
    let w' : World = record {
      events = store w.events y (emptied (w.events y));
      rendezvous = w.rendezvous;
      program = w.program;
      calls = w.calls;
    } in
    let a = empty_all-Emptied w' xs d.1 in
    record {
      all = λ x h. elim (Bool-cases (has x xs)) [
        | inl later ↦
            let ne = has_differ y x xs d.0 later in a.all x later ∙ ap emptied (rw ne refl)
        | inr now_x ↦
            let e : y ≡ x = ground (arith, h, now_x) in
            a.others x now_x
            ∙ subst (λ k. store w.events y (emptied (w.events y)) k ≡ emptied (w.events k)) e
                (ground arith)
      ];
      others = λ x h. a.others x (ground (arith, h)) ∙ ground (arith, h);
      same_rendezvous = a.same_rendezvous;
      same_program = a.same_program;
      same_calls = a.same_calls;
    }

hook_at-emptied : (o : Option Event) → hook_at (emptied o) ≡ hook_at o
hook_at-emptied none = refl
hook_at-emptied (some e) = refl

run_hooks-none :
    (fuel : ℕ) (xs : List ℕ) (w : World)
    → ((x : ℕ) → has x xs ≡ true → hook_at (w.events x) ≡ none)
    → run_hooks fuel xs w ≡ some w
unfolding run_hooks
run_hooks-none fuel [] w h = refl
run_hooks-none fuel (x ∷ xs) w h =
    ground (
      arith,
      h x (ground arith),
      run_hooks-none fuel xs w (λ y inside. h y (ground (arith, inside))),
    )

-- No event waits on the rendezvous any more: those that did are empty, and nothing else has changed.
pub record Removed (w : World) (r : ℕ) (u : World) : Type 0 where
  pub none_waits : has_waiting u r ≡ false
  pub emptied_all :
      (x : ℕ) → has x (w.rendezvous r).waiting ≡ true → u.events x ≡ emptied (w.events x)
  pub others : (x : ℕ) → has x (w.rendezvous r).waiting ≡ false → u.events x ≡ w.events x
  pub same_rendezvous : (q : ℕ) → q ≢ r → u.rendezvous q ≡ w.rendezvous q
  pub same_ready : (u.rendezvous r).ready ≡ (w.rendezvous r).ready
  pub same_program : u.program ≡ w.program

remove_waiting-nil : (w : World) (r : ℕ) → (w.rendezvous r).waiting ≡ [] → Removed w r w
remove_waiting-nil w r e = record {
  none_waits = ground (arith, e);
  emptied_all = λ x h. absurd (ground (arith, e, h));
  others = λ x h. refl;
  same_rendezvous = λ q ne. refl;
  same_ready = refl;
  same_program = refl;
}

plain_hooks :
    (w : World) (r : ℕ)
    → IsValid w
    → NoHooks w r
    → (x : ℕ) → has x (w.rendezvous r).waiting ≡ true
    → hook_at ((empty_all (w.rendezvous r).waiting w).events x) ≡ none
plain_hooks w r v plain x h =
    let a = empty_all-Emptied w (w.rendezvous r).waiting (v.distinct r) in
    let (e, there, on) = v.listed x r h in
    ap hook_at (a.all x h) ∙ hook_at-emptied (w.events x) ∙ ap hook_at there ∙ plain x e h there

hard_remove_waiting-Removed :
    (fuel : ℕ) (w : World) (r : ℕ)
    → IsValid w
    → NoHooks w r
    → (u : World) × (hard_remove_waiting fuel w r ≡ some u) × Removed w r u
unfolding hard_remove_waiting
hard_remove_waiting-Removed fuel w r v plain =
    let xs = (w.rendezvous r).waiting in
    let a = empty_all-Emptied w xs (v.distinct r) in
    let run = run_hooks-none fuel xs (empty_all xs w) (plain_hooks w r v plain) in
    let u = empty_all xs w in
    (
      record {
        events = u.events;
        rendezvous =
            store u.rendezvous r (record {
              kind = (u.rendezvous r).kind;
              waiting = [];
              ready = (u.rendezvous r).ready;
            });
        program = u.program;
        calls = u.calls;
      },
      ground (arith, run),
      record {
        none_waits = ground arith;
        emptied_all = a.all;
        others = a.others;
        same_rendezvous = λ q ne. ground arith ∙ ap (λ (k : ℕ → Rendezvous). k q) a.same_rendezvous;
        same_ready = ground arith ∙ ap (λ (k : ℕ → Rendezvous). (k r).ready) a.same_rendezvous;
        same_program = a.same_program;
      },
    )

is_nil_lem : (xs : List ℕ) → is_nil xs ≡ true → xs ≡ []
is_nil_lem [] h = refl
is_nil_lem (x ∷ xs) h = absurd (ground arith)

-- If no event that waits on the rendezvous has a hook, `remove_waiting` ends with none waiting on it: those
-- that did are empty, and no other event, no other rendezvous and no closure has changed.
pub remove_waiting_lem :
    (fuel : ℕ) (w : World) (r : ℕ)
    → IsValid w
    → NoHooks w r
    → (u : World) × (remove_waiting fuel w r ≡ some u) × Removed w r u
unfolding remove_waiting
remove_waiting_lem fuel w r v plain = elim (Bool-cases (is_nil (w.rendezvous r).waiting)) [
  | inl idle ↦
      (w, ground (arith, idle), remove_waiting-nil w r (is_nil_lem (w.rendezvous r).waiting idle))
  | inr busy ↦
      let (u, run, x) = hard_remove_waiting-Removed fuel w r v plain in
      (u, ground (arith, busy, run), x)
]
