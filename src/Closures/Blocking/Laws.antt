-- ===== src/Closures/Blocking/Laws.antt =====
-- What blocking and unblocking do to the queue of closures that are to run on.
use tamer.Prelude.{
  ℕ, ◌-◌, ◌^◌, ◌<◌, ◌≡◌, ◌≢◌, refl, sym, ap, subst, ◌∙◌, ◌⊎◌, inl, inr, Bool, true, false, List, [],
  ◌∷◌, ◌++◌, Option, none, some, arith, ◌==◌, store, Option-cases, Bool-cases,
}
use tamer.Closures.{SimpleDriver, add, add_blocked, make_unblocked}
use tamer.Closures.Queue
use tamer.Closures.Queue.{Held, closures}
use tamer.Closures.Adding.{add_lem}
use tamer.Closures.Running.{Queued, make_unblocked_lem}
use tamer.Closures.Blocking.{Target, loop, Program, block, run_on, unblock, free}

-- A closure that waits for the driver holds a slot, or has none.
pub record IsValid (p : Program) : Type 0 where
  pub free_slots : List ℕ
  pub queue : List ℕ
  pub slots : Queue.IsValid p.driver free_slots queue
  pub held :
      (c : ℕ)
      → (p.closure c).blocked_driver ≡ some loop
      → (p.driver.index c ≡ 0) ⊎ Held p.driver free_slots queue c

-- `run_on` for a closure that waits for the driver.
pub record Resumes (p : Program) (v : IsValid p) (c : ℕ) (q : Program) : Type 0 where
  pub valid : IsValid q
  pub behind : closures q.driver.cs valid.queue ≡ closures p.driver.cs v.queue ++ (c ∷ [])
  pub released : (q.closure c).blocked_driver ≡ none

-- `p` with the closure queued.
abbrev queued : Program → (ℕ → Option ℕ) → ℕ → ℕ → Program
queued p rs position c = record p {
  blocked_closure = rs;
  closure = store p.closure c (record { block_position = position; blocked_driver = none });
  driver = make_unblocked p.driver c;
}

module _ (p : Program) (v : IsValid p) (c : ℕ) (small : p.driver.ccap < 2 ^ 31)
    (w : (p.closure c).blocked_driver ≡ some loop) where
  queued-Held :
      (q : Queued p.driver (make_unblocked p.driver c) v.free_slots v.queue c) (rs : ℕ → Option ℕ)
      (position x : ℕ)
      → ((queued p rs position c).closure x).blocked_driver ≡ some loop
      → ((make_unblocked p.driver c).index x ≡ 0)
        ⊎ Held (make_unblocked p.driver c) q.free' q.queue' x
  queued-Held q rs position x b = elim (Bool-cases (c == x)) [
    | inl here ↦ absurd (ground (arith, here, b))
    | inr there ↦
        let ne : x ≢ c = λ e. ground (arith, e, there) in
        elim (v.held x (ground (arith, there, b))) [
          | inl no_slot ↦ inl (q.same_index x ne ∙ no_slot)
          | inr h ↦ inr (q.others x ne h)
        ]
  ]

  queued-Resumes : (rs : ℕ → Option ℕ) (position : ℕ) → Resumes p v c (queued p rs position c)
  queued-Resumes rs position =
      let q = make_unblocked_lem p.driver c v.free_slots v.queue v.slots small (v.held c w) in
      record {
        valid = record {
          free_slots = q.free';
          queue = q.queue';
          slots = q.valid;
          held = queued-Held q rs position;
        };
        behind = q.behind;
        released = ground arith;
      }

  unblock-queued :
      (r : ℕ)
      → p.blocked_closure r ≡ some c
      → unblock p r ≡ queued p (store p.blocked_closure r none) (p.closure c).block_position c
  unfolding unblock run_on
  unblock-queued r e = ground (arith, e, w)

twice :
    (p : Program) (r position c : ℕ)
    → unblock (queued p (store p.blocked_closure r none) position c) r
      ≡ queued p (store p.blocked_closure r none) position c
unfolding unblock
twice p r position c = ground arith

-- The first `unblock` of a rendezvous that blocks a closure puts the closure behind those that are to run
-- on, once: a second `unblock` changes nothing.
pub unblock_lem :
    (p : Program) (r c : ℕ) (v : IsValid p)
    → p.driver.ccap < 2 ^ 31
    → p.blocked_closure r ≡ some c
    → (p.closure c).blocked_driver ≡ some loop
    → Resumes p v c (unblock p r) × (unblock (unblock p r) r ≡ unblock p r)
unblock_lem p r c v small e w =
    let q = unblock-queued p v c small w r e in
    let position = (p.closure c).block_position in
    (
      subst (Resumes p v c) (sym q)
          (queued-Resumes p v c small w (store p.blocked_closure r none) position),
      ap (λ k. unblock k r) q ∙ twice p r position c ∙ sym q,
    )

-- `p` with the closure told to stop.
abbrev stopped : Program → ℕ → Program
stopped p c = record p {
  closure =
      store p.closure c
        (record { block_position = 2 ^ 32 - 1; blocked_driver = (p.closure c).blocked_driver });
}

stopped_driver :
    (p : Program) (c x : ℕ)
    → ((stopped p c).closure x).blocked_driver ≡ (p.closure x).blocked_driver
stopped_driver p c x = elim (Bool-cases (c == x)) [
  | inl here ↦ let e : c ≡ x = ground arith in rw here (ap (λ k. (p.closure k).blocked_driver) e)
  | inr there ↦ rw there refl
]

free-queued :
    (p : Program) (r c : ℕ)
    → p.blocked_closure r ≡ some c
    → (p.closure c).blocked_driver ≡ some loop
    → free p r ≡ queued (stopped p c) p.blocked_closure (2 ^ 32 - 1) c
unfolding free run_on
free-queued p r c e w = ground (arith, e, w)

-- A rendezvous that goes away lets the closure that it blocks run on as well, behind those that are to run,
-- at the position that tells it to stop.
pub free_lem :
    (p : Program) (r c : ℕ) (v : IsValid p)
    → p.driver.ccap < 2 ^ 31
    → p.blocked_closure r ≡ some c
    → (p.closure c).blocked_driver ≡ some loop
    → Resumes p v c (free p r) × (((free p r).closure c).block_position ≡ 2 ^ 32 - 1)
free_lem p r c v small e w =
    let q = free-queued p r c e w in
    let stays : IsValid (stopped p c) = record {
      free_slots = v.free_slots;
      queue = v.queue;
      slots = v.slots;
      held = λ x b. v.held x (sym (stopped_driver p c x) ∙ b);
    } in
    let x =
      queued-Resumes (stopped p c) stays c small (stopped_driver p c c ∙ w) p.blocked_closure
        (2 ^ 32 - 1) in
    (
      subst (Resumes p v c) (sym q)
          (record { valid = x.valid; behind = x.behind; released = x.released }),
      ap (λ (k : Program). (k.closure c).block_position) q ∙ ground arith,
    )

-- The closure waits for the driver and the rendezvous knows it; nothing else has changed.
pub record Blocks (p : Program) (v : IsValid p) (r c position : ℕ) (q : Program) : Type 0 where
  pub valid : IsValid q
  pub same_queue : closures q.driver.cs valid.queue ≡ closures p.driver.cs v.queue
  pub waits : (q.closure c) ≡ record { block_position = position; blocked_driver = some loop }
  pub known : q.blocked_closure r ≡ some c

-- `p` with the closure blocked.
abbrev blocked_with : Program → ℕ → ℕ → ℕ → SimpleDriver → Program
blocked_with p r c position e = record p {
  blocked_closure = store p.blocked_closure r (some c);
  closure = store p.closure c (record { block_position = position; blocked_driver = some loop });
  driver = e;
}

abbrev Keeps : SimpleDriver → List ℕ → List ℕ → ℕ → Type 0
Keeps d free queue x = (d.index x ≡ 0) ⊎ Held d free queue x

blocked_with-Blocks :
    (p : Program) (v : IsValid p) (r c position : ℕ) (e : SimpleDriver) (free' : List ℕ)
    → Queue.IsValid e free' v.queue
    → Keeps e free' v.queue c
    → ((x : ℕ) → x ≢ c → Keeps p.driver v.free_slots v.queue x → Keeps e free' v.queue x)
    → closures e.cs v.queue ≡ closures p.driver.cs v.queue
    → Blocks p v r c position (blocked_with p r c position e)
blocked_with-Blocks p v r c position e free' w own others same = record {
  valid = record {
    free_slots = free';
    queue = v.queue;
    slots = w;
    held = λ x b. elim (Bool-cases (c == x)) [
      | inl here ↦ let eq_x : c ≡ x = ground arith in subst (λ k. Keeps e free' v.queue k) eq_x own
      | inr there ↦
          others x (λ eq_x. ground (arith, eq_x, there)) (v.held x (ground (arith, there, b)))
    ];
  };
  same_queue = same;
  waits = ground arith;
  known = ground arith;
}

-- `add_blocked`, where slots are kept and where they are not.
add_blocked-Blocks :
    (notrace : Bool) (p : Program) (v : IsValid p) (r c position : ℕ)
    → p.driver.ccap < 2 ^ 31
    → Blocks p v r c position (blocked_with p r c position (add_blocked notrace p.driver c))
unfolding add_blocked
add_blocked-Blocks true p v r c position small =
    let e : SimpleDriver = record {
      ccap = p.driver.ccap;
      cfree = p.driver.cfree;
      cunblocked = p.driver.cunblocked;
      cunblocked_tail = p.driver.cunblocked_tail;
      cs = p.driver.cs;
      index = store p.driver.index c 0;
    } in
    let w : Queue.IsValid e v.free_slots v.queue = record {
      room = v.slots.room;
      free_chain = v.slots.free_chain;
      queue_chain = v.slots.queue_chain;
      ends = v.slots.ends;
      free_distinct = v.slots.free_distinct;
      queue_distinct = v.slots.queue_distinct;
      apart = v.slots.apart;
      free_in = v.slots.free_in;
      queue_in = v.slots.queue_in;
      idle = v.slots.idle;
    } in
    blocked_with-Blocks p v r c position e v.free_slots w (inl (ground arith))
      (λ x ne k. elim k [
        | inl no_slot ↦ inl (ground (arith, no_slot))
        | inr h ↦ inr (record {
          some_slot = ground (arith, h.some_slot);
          slot_in = ground (arith, h.slot_in);
          apart = (ground (arith, h.apart.0), ground (arith, h.apart.1));
          holds = ground (arith, h.holds);
        })
      ])
      refl
add_blocked-Blocks false p v r c position small =
    let a = add_lem p.driver c v.free_slots v.queue v.slots small in
    blocked_with-Blocks p v r c position (add p.driver c) a.free' a.valid (inr a.held)
      (λ x ne k. elim k [
        | inl no_slot ↦ inl (a.same_index x ne ∙ no_slot)
        | inr h ↦ inr (a.others x ne h)
      ])
      a.same_queue

-- In a valid program with fewer than 2 ^ 31 slots, a closure that waits for no driver is blocked on a
-- rendezvous: it waits for the driver at its position, and no closure that is to run on is lost or added. A
-- closure that waits already fails the assertion.
pub block-Blocks :
    (notrace : Bool) (p : Program) (r c position : ℕ) (v : IsValid p)
    → p.driver.ccap < 2 ^ 31
    → ((t : Target) × ((p.closure c).blocked_driver ≡ some t)
        × (block notrace p r c position ≡ none))
      ⊎ (((p.closure c).blocked_driver ≡ none)
          × ((q : Program) × (block notrace p r c position ≡ some q) × Blocks p v r c position q))
unfolding block
block-Blocks notrace p r c position v small = elim (Option-cases (p.closure c).blocked_driver) [
  | inl free_c ↦ inr (
    free_c,
    (
      blocked_with p r c position (add_blocked notrace p.driver c),
      ground (arith, free_c),
      add_blocked-Blocks notrace p v r c position small,
    ),
  )
  | inr (t, busy) ↦ inl (t, busy, ground (arith, busy))
]
