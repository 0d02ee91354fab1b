-- ===== src/Closures/Running.antt =====
-- `make_unblocked` puts a closure behind those that are to run on, and `pop_unblocked` takes the first.
use tamer.Prelude.{
  ℕ, zero, suc, ◌^◌, ◌<◌, ◌≡◌, ◌≢◌, refl, sym, ap, subst, ◌∙◌, ◌⊎◌, inl, inr, true, false, ◌||◌,
  List, [], ◌∷◌, ◌++◌, Option, none, some, arith, ◌==◌, if◌then◌else◌, store, Bool-cases,
  Option-cases, has, has_differ, has-append,
}
use tamer.Closures.{
  Slot, SimpleDriver, is_none, add, link, make_unblocked, free_first, skip_empty, has_unblocked,
  pop_unblocked,
}
use tamer.Closures.Slots.{Chain, Ends, Ends-has, Chain-store, Chain-snoc, Ends-snoc, Distinct-snoc}
use tamer.Closures.Queue.{IsIdle, IsValid, Held, with_closure, closures, closures-ext, Chain-ext}
use tamer.Closures.Adding.{add_lem}

closures-append :
    (cs : ℕ → Slot) (xs ys : List ℕ) → closures cs (xs ++ ys) ≡ closures cs xs ++ closures cs ys
closures-append cs [] ys = refl
closures-append cs (x ∷ xs) ys =
    ap (with_closure (cs x).c) (closures-append cs xs ys)
    ∙ with_append (cs x).c (closures cs xs) (closures cs ys)
  where
    with_append :
        (o : Option ℕ) (as' bs : List ℕ) → with_closure o (as' ++ bs) ≡ with_closure o as' ++ bs
    with_append none as' bs = refl
    with_append (some c) as' bs = refl

-- The closure is the last of those that are to run on, and the closures that hold a slot still do.
pub record Queued (d e : SimpleDriver) (free queue : List ℕ) (c : ℕ) : Type 0 where
  pub free' : List ℕ
  pub queue' : List ℕ
  pub valid : IsValid e free' queue'
  pub behind : closures e.cs queue' ≡ closures d.cs queue ++ (c ∷ [])
  pub others : (x : ℕ) → x ≢ c → Held d free queue x → Held e free' queue' x
  pub same_index : (x : ℕ) → x ≢ c → e.index x ≡ d.index x

link-Chain :
    (d : SimpleDriver) (i : ℕ) (free queue : List ℕ)
    → IsValid d free queue
    → IsIdle i free queue
    → 0 < i
    → i < d.ccap
    → Chain (link d i).cs (link d i).cunblocked (queue ++ (i ∷ []))
unfolding link
link-Chain d i free [] v idle pos lt =
    (ground (arith, v.queue_chain), pos, ground (arith, v.idle i, v.queue_chain, idle))
link-Chain d i free (x ∷ xs) v idle pos lt =
    let busy : d.cunblocked == 0 ≡ false = ground (arith, v.queue_chain.0, v.queue_chain.1) in
    subst
      (λ b.
        Chain
          (if b
            then d.cs
            else store d.cs d.cunblocked_tail (record { c = (d.cs d.cunblocked_tail).c; next = i }))
          (if b then i else d.cunblocked) (x ∷ (xs ++ (i ∷ []))))
      (sym busy)
      (Chain-snoc d.cs d.cunblocked x d.cunblocked_tail i xs v.queue_chain v.ends v.queue_distinct
        idle.1 (v.idle i pos lt idle) pos)

-- Only the last slot of the queue gets another link.
link-next :
    (d : SimpleDriver) (i : ℕ) (free queue : List ℕ)
    → IsValid d free queue
    → (j : ℕ) → has j queue ≡ false
    → ((link d i).cs j).next ≡ (d.cs j).next
unfolding link
link-next d i free [] v j out = ground (arith, v.queue_chain)
link-next d i free (x ∷ xs) v j out =
    ground
      (arith, has_differ j d.cunblocked_tail (x ∷ xs) out (Ends-has xs x d.cunblocked_tail v.ends))

link-c : (d : SimpleDriver) (i j : ℕ) → ((link d i).cs j).c ≡ (d.cs j).c
unfolding link
link-c d i j = ground arith

has-snoc : (j i : ℕ) (queue : List ℕ) → has j (queue ++ (i ∷ [])) ≡ has j queue || j == i
has-snoc j i queue = ground (arith, has-append j queue (i ∷ []))

module _ (d : SimpleDriver) (c : ℕ) (free queue : List ℕ) (v : IsValid d free queue)
    (h : Held d free queue c) where
  link-queue_in :
      (i : ℕ)
      → has i (queue ++ (d.index c ∷ [])) ≡ true
      → (i < d.ccap) × (is_none (d.cs i).c ≡ false)
  link-queue_in i q = elim (Bool-cases (i == d.index c)) [
    | inl here ↦
        let e : i ≡ d.index c = ground arith in
        subst (λ k. (k < d.ccap) × (is_none (d.cs k).c ≡ false)) (sym e)
          (h.slot_in, ap is_none h.holds)
    | inr other ↦ v.queue_in i (ground (arith, has-snoc i (d.index c) queue))
  ]

  link-IsValid : IsValid (link d (d.index c)) free (queue ++ (d.index c ∷ []))
  unfolding link
  link-IsValid = record {
    room = v.room;
    free_chain =
        Chain-ext d.cs (link d (d.index c)).cs d.cfree free
          (λ i f. sym (link-next d (d.index c) free queue v i (v.apart i f))) v.free_chain;
    queue_chain = link-Chain d (d.index c) free queue v h.apart h.some_slot h.slot_in;
    ends = Ends-snoc queue (d.index c);
    free_distinct = v.free_distinct;
    queue_distinct = Distinct-snoc queue (d.index c) v.queue_distinct h.apart.1;
    apart = λ i f. ground (arith, has-snoc i (d.index c) queue, v.apart i f, h.apart.0);
    free_in = v.free_in;
    queue_in = λ i q. let x = link-queue_in i q in (x.0, ap is_none (link-c d (d.index c) i) ∙ x.1);
    idle = λ i pos lt o.
        let out : has i queue ≡ false = ground (arith, has-snoc i (d.index c) queue, o.1) in
        link-next d (d.index c) free queue v i out ∙ v.idle i pos lt (o.0, out);
  }

  link-Held :
      (x : ℕ)
      → x ≢ c
      → Held d free queue x
      → Held (link d (d.index c)) free (queue ++ (d.index c ∷ [])) x
  link-Held x ne k =
      let slots : d.index x ≢ d.index c =
        λ e. ne (ground (arith, k.holds, h.holds, ap (λ i. (d.cs i).c) e)) in
      record {
        some_slot = unfold link in k.some_slot;
        slot_in = unfold link in k.slot_in;
        apart =
            unfold link in
            (k.apart.0, ground (arith, has-snoc (d.index x) (d.index c) queue, k.apart.1));
        holds = unfold link in (ground (arith, k.holds));
      }

  link-Queued : Queued d (link d (d.index c)) free queue c
  link-Queued = record {
    free' = free;
    queue' = queue ++ (d.index c ∷ []);
    valid = link-IsValid;
    behind =
        closures-ext (link d (d.index c)).cs d.cs (queue ++ (d.index c ∷ []))
          (λ i q. link-c d (d.index c) i)
        ∙ closures-append d.cs queue (d.index c ∷ [])
        ∙ ap (λ o. closures d.cs queue ++ with_closure o []) h.holds;
    others = link-Held;
    same_index = λ x ne. unfold link in refl;
  }

add-Queued :
    (d : SimpleDriver) (c : ℕ) (free queue : List ℕ)
    → IsValid d free queue
    → d.ccap < 2 ^ 31
    → Queued d (link (add d c) ((add d c).index c)) free queue c
add-Queued d c free queue v small =
    let a = add_lem d c free queue v small in
    let q = link-Queued (add d c) c a.free' queue a.valid a.held in
    record {
      free' = q.free';
      queue' = q.queue';
      valid = q.valid;
      behind = q.behind ∙ ap (λ k. k ++ (c ∷ [])) a.same_queue;
      others = λ x ne h. q.others x ne (a.others x ne h);
      same_index = λ x ne. q.same_index x ne ∙ a.same_index x ne;
    }

-- `make_unblocked` puts a closure that is blocked, with a slot or, where slots are not kept, without one,
-- behind those that are to run on; the other closures that hold a slot keep theirs.
pub make_unblocked_lem :
    (d : SimpleDriver) (c : ℕ) (free queue : List ℕ)
    → IsValid d free queue
    → d.ccap < 2 ^ 31
    → (d.index c ≡ 0) ⊎ Held d free queue c
    → Queued d (make_unblocked d c) free queue c
unfolding make_unblocked
make_unblocked_lem d c free queue v small (inl no_slot) =
    let z : d.index c == 0 ≡ true = ground arith in rw z (add-Queued d c free queue v small)
make_unblocked_lem d c free queue v small (inr h) =
    let z : d.index c == 0 ≡ false = ground (arith, h.some_slot) in
    rw z (link-Queued d c free queue v h)

-- The first closure is taken, and the others stay.
pub record Popped (d : SimpleDriver) (free queue : List ℕ) (c : ℕ) (e : SimpleDriver) : Type 0 where
  pub free' : List ℕ
  pub queue' : List ℕ
  pub valid : IsValid e free' queue'
  pub first : closures d.cs queue ≡ c ∷ closures e.cs queue'
  pub others : (x : ℕ) → Held d free queue x → Held e free' queue' x

Ends-tail : (x : ℕ) (xs : List ℕ) (t : ℕ) → Ends (x ∷ xs) t → Ends xs t
Ends-tail x [] t e = tt
Ends-tail x (y ∷ xs) t e = e

free_first-Popped :
    (d : SimpleDriver) (c i : ℕ) (free queue : List ℕ)
    → IsValid d free (i ∷ queue)
    → (d.cs i).c ≡ some c
    → Popped d free (i ∷ queue) c (free_first d)
unfolding free_first
free_first-Popped d c i free queue v e =
    let here = v.queue_chain.0 in
    record {
      free' = i ∷ free;
      queue' = queue;
      valid = record {
        room = v.room;
        free_chain = (
          here,
          v.queue_chain.1,
          subst (λ k. Chain (free_first d).cs k free) (ground (arith, here))
              (Chain-store d.cs d.cunblocked (record { c = none; next = d.cfree }) d.cfree free
                (ground (arith, here, v.apart i)) v.free_chain),
        );
        queue_chain =
            Chain-store d.cs d.cunblocked (record { c = none; next = d.cfree })
              (d.cs d.cunblocked).next queue (ground (arith, here, v.queue_distinct.0))
              (subst (λ k. Chain d.cs (d.cs k).next queue) (sym here) v.queue_chain.2);
        ends = Ends-tail i queue d.cunblocked_tail v.ends;
        free_distinct = (ground (arith, v.apart i), v.free_distinct);
        queue_distinct = v.queue_distinct.1;
        apart = λ j h. ground (arith, v.apart j, v.queue_distinct.0);
        free_in = λ j h. ground (arith, v.free_in j, v.queue_in i, v.queue_chain.1);
        queue_in = λ j h. ground (arith, v.queue_in j, v.queue_distinct.0, here);
        idle = λ j pos lt o. ground (arith, v.idle j pos lt, o.0, o.1, here);
      };
      first =
          ap (λ o. with_closure o (closures d.cs queue)) e
          ∙ ap (λ k. c ∷ k)
              (closures-ext d.cs (free_first d).cs queue
                (λ j h. ground (arith, v.queue_distinct.0, here)));
      others = λ x h. record {
        some_slot = h.some_slot;
        slot_in = h.slot_in;
        apart = (ground (arith, h.apart.0, h.apart.1), ground (arith, h.apart.1));
        holds = ground (arith, h.holds, h.apart.1, here);
      };
    }

-- A slot in the queue has a closure, so that the loop of `has_unblocked` has nothing to free.
skip_none :
    (fuel : ℕ) (d : SimpleDriver) (free queue : List ℕ)
    → IsValid d free queue
    → skip_empty (suc fuel) d ≡ some d
unfolding skip_empty
skip_none fuel d free [] v = ground (arith, v.queue_chain)
skip_none fuel d free (i ∷ queue) v = ground (arith, v.queue_chain.0, v.queue_in i)

queued_closure :
    (d : SimpleDriver) (free queue : List ℕ) (i : ℕ)
    → IsValid d free (i ∷ queue)
    → (c : ℕ) × ((d.cs i).c ≡ some c)
queued_closure d free queue i v = elim (Option-cases (d.cs i).c) [
  | inl gone ↦ absurd (ground (arith, v.queue_in i))
  | inr found ↦ found
]

-- With any fuel at all, `pop_unblocked` ends: it gives nothing and changes nothing if no closure is to run
-- on; otherwise it gives the first of them, the others stay in order, the slot is free again, and every
-- closure that holds a slot keeps it.
pub pop_unblocked_lem :
    (fuel : ℕ) (d : SimpleDriver) (free queue : List ℕ)
    → IsValid d free queue
    → 0 < fuel
    → ((pop_unblocked fuel d ≡ some (none, d)) × (closures d.cs queue ≡ []))
      ⊎ ((c : ℕ) × (e : SimpleDriver) × (pop_unblocked fuel d ≡ some (some c, e))
          × Popped d free queue c e)
unfolding pop_unblocked has_unblocked
pop_unblocked_lem zero d free queue v lt = absurd (omega arith)
pop_unblocked_lem (suc fuel) d free [] v lt =
    inl (ground (arith, skip_none fuel d free [] v, v.queue_chain), refl)
pop_unblocked_lem (suc fuel) d free (i ∷ queue) v lt =
    let (c, e) = queued_closure d free queue i v in
    inr (
      c,
      free_first d,
      ground (arith, skip_none fuel d free (i ∷ queue) v, v.queue_chain.0, v.queue_chain.1, e),
      free_first-Popped d c i free queue v e,
    )
