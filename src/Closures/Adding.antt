-- ===== src/Closures/Adding.antt =====
-- `add`: a closure that blocks gets a slot.
use tamer.Prelude.{
  ℕ, zero, suc, ◌+◌, ◌-◌, ◌*◌, ◌^◌, ◌<◌, ◌≡◌, ◌≢◌, refl, sym, ap, subst, ◌∙◌, inl, inr, true, false,
  List, [], ◌∷◌, arith, ◌==◌, Bool-cases, has, range, has-range, Distinct-range,
}
use tamer.Closures.{SimpleDriver, grow, initial, take_slot, add}
use tamer.Closures.Slots.{Chain, Chain-store, range-Chain}
use tamer.Closures.Queue.{IsValid, Held, closures, closures-ext, Chain-ext}

module _ (d : SimpleDriver) (queue : List ℕ) where
  grow-IsValid : IsValid d [] queue → d.ccap < 2 ^ 31 → IsValid (grow d) (range d.ccap d.ccap) queue
  unfolding grow
  grow-IsValid v small = record {
    room = ground (arith, v.room);
    free_chain =
        subst (λ k. Chain (grow d).cs k (range d.ccap d.ccap)) (ground (arith, v.room))
          (range-Chain (grow d).cs d.ccap d.ccap (d.ccap * 2) (omega (arith, v.room)) (omega arith)
            (λ i lo hi. ground (arith, v.room)));
    queue_chain =
        Chain-ext d.cs (grow d).cs d.cunblocked queue (λ i h. ground (arith, v.queue_in i h))
          v.queue_chain;
    ends = v.ends;
    free_distinct = Distinct-range d.ccap d.ccap;
    queue_distinct = v.queue_distinct;
    apart = λ i h. elim (Bool-cases (has i queue)) [
      | inl queued ↦ absurd (ground (arith, v.queue_in i queued, has-range i d.ccap d.ccap))
      | inr other ↦ other
    ];
    free_in = λ i h. ground (arith, has-range i d.ccap d.ccap, v.room);
    queue_in = λ i h. ground (arith, v.queue_in i h, v.room);
    idle = λ i pos lt h. ground (arith, v.idle i pos, has-range i d.ccap d.ccap, v.room);
  }

  -- The slots that are there keep their closures.
  grow-closures : IsValid d [] queue → closures (grow d).cs queue ≡ closures d.cs queue
  unfolding grow
  grow-closures v = closures-ext (grow d).cs d.cs queue (λ i h. ground (arith, v.queue_in i h))

  grow-Held :
      IsValid d [] queue
      → d.ccap < 2 ^ 31
      → (c : ℕ) → Held d [] queue c
      → Held (grow d) (range d.ccap d.ccap) queue c
  unfolding grow
  grow-Held v small c h = record {
    some_slot = h.some_slot;
    slot_in = ground (arith, h.slot_in);
    apart = (ground (arith, has-range (d.index c) d.ccap d.ccap, h.slot_in), h.apart.1);
    holds = ground (arith, h.slot_in, h.holds);
  }

module _ (d : SimpleDriver) (c : ℕ) (i : ℕ) (free queue : List ℕ)
    (v : IsValid d (i ∷ free) queue) where
  take-IsValid : IsValid (take_slot d c) free queue
  unfolding take_slot
  take-IsValid = record {
    room = v.room;
    free_chain =
        Chain-store d.cs d.cfree _ (d.cs d.cfree).next free
          (ground (arith, v.free_chain.0, v.free_distinct.0))
          (subst (λ k. Chain d.cs (d.cs k).next free) (sym v.free_chain.0) v.free_chain.2);
    queue_chain =
        Chain-store d.cs d.cfree _ d.cunblocked queue (ground (arith, v.free_chain.0, v.apart i))
          v.queue_chain;
    ends = v.ends;
    free_distinct = v.free_distinct.1;
    queue_distinct = v.queue_distinct;
    apart = λ j h. v.apart j (ground arith);
    free_in = λ j h. v.free_in j (ground arith);
    queue_in = λ j h. ground (arith, v.queue_in j h, v.apart i);
    idle = λ j pos lt h. ground (arith, v.idle j pos lt, v.free_chain.0);
  }

  take-closures : closures (take_slot d c).cs queue ≡ closures d.cs queue
  unfolding take_slot
  take-closures =
      closures-ext (take_slot d c).cs d.cs queue (λ j h. ground (arith, v.free_chain.0, v.apart i))

  take-Held : Held (take_slot d c) free queue c
  unfolding take_slot
  take-Held = record {
    some_slot = ground (arith, v.free_chain.0, v.free_chain.1);
    slot_in = ground (arith, v.free_chain.0, v.free_in i);
    apart = (
      ground (arith, v.free_chain.0, v.free_distinct.0),
      ground (arith, v.free_chain.0, v.apart i),
    );
    holds = ground arith;
  }

  take-Held_other : (x : ℕ) → x ≢ c → Held d (i ∷ free) queue x → Held (take_slot d c) free queue x
  unfolding take_slot
  take-Held_other x ne h = record {
    some_slot = ground (arith, h.some_slot);
    slot_in = ground (arith, h.slot_in);
    apart = (ground (arith, h.apart.0), ground (arith, h.apart.1));
    holds = ground (arith, h.holds, h.apart.0, v.free_chain.0);
  }

-- The closure `c` has a slot now, and those that held one still do; the queue is what it was.
pub record Added (d e : SimpleDriver) (free queue : List ℕ) (c : ℕ) : Type 0 where
  pub free' : List ℕ
  pub valid : IsValid e free' queue
  pub held : Held e free' queue c
  pub others : (x : ℕ) → x ≢ c → Held d free queue x → Held e free' queue x
  pub same_queue : closures e.cs queue ≡ closures d.cs queue
  pub same_index : (x : ℕ) → x ≢ c → e.index x ≡ d.index x

take-Added :
    (d : SimpleDriver) (c i : ℕ) (free queue : List ℕ)
    → IsValid d (i ∷ free) queue
    → Added d (take_slot d c) (i ∷ free) queue c
take-Added d c i free queue v = record {
  free' = free;
  valid = take-IsValid d c i free queue v;
  held = take-Held d c i free queue v;
  others = take-Held_other d c i free queue v;
  same_queue = take-closures d c i free queue v;
  same_index = λ x ne. unfold take_slot in ground arith;
}

range_cons : (a n : ℕ) → 0 < n → range a n ≡ a ∷ range (a + 1) (n - 1)
range_cons a zero h = absurd (omega arith)
range_cons a (suc n) h = ap (λ k. a ∷ range (a + 1) k) (omega arith)

grow-Added :
    (d : SimpleDriver) (c : ℕ) (queue : List ℕ)
    → IsValid d [] queue
    → d.ccap < 2 ^ 31
    → Added d (take_slot (grow d) c) [] queue c
grow-Added d c queue v small =
    let cons = range_cons d.ccap d.ccap (omega (arith, v.room)) in
    let w = subst (λ k. IsValid (grow d) k queue) cons (grow-IsValid d queue v small) in
    let t = take-Added (grow d) c d.ccap (range (d.ccap + 1) (d.ccap - 1)) queue w in
    record {
      free' = t.free';
      valid = t.valid;
      held = t.held;
      others = λ x ne h.
          t.others x ne (subst (λ k. Held (grow d) k queue x) cons (grow-Held d queue v small x h));
      same_queue = t.same_queue ∙ grow-closures d queue v;
      same_index = λ x ne. unfold grow in t.same_index x ne;
    }

-- `add` gives the closure a slot of its own, in a larger array if none is free; the closures that hold a
-- slot keep theirs, and the queue is what it was.
pub add_lem :
    (d : SimpleDriver) (c : ℕ) (free queue : List ℕ)
    → IsValid d free queue
    → d.ccap < 2 ^ 31
    → Added d (add d c) free queue c
unfolding add
add_lem d c [] queue v small =
    let full : d.cfree == 0 ≡ true = ground (arith, v.free_chain) in
    rw full (grow-Added d c queue v small)
add_lem d c (i ∷ free) queue v small =
    let some_free : d.cfree == 0 ≡ false = ground (arith, v.free_chain.0, v.free_chain.1) in
    rw some_free (take-Added d c i free queue v)

pub initial-IsValid : IsValid initial (range 1 63) []
unfolding initial grow
initial-IsValid = record {
  room = ground arith;
  free_chain = range-Chain initial.cs 1 63 64 (omega arith) refl (λ i lo hi. ground arith);
  queue_chain = refl;
  ends = tt;
  free_distinct = Distinct-range 1 63;
  queue_distinct = tt;
  apart = λ i h. refl;
  free_in = λ i h. ground (arith, has-range i 1 63);
  queue_in = λ i h. absurd (ground arith);
  idle = λ i pos lt o. absurd (ground (arith, has-range i 1 63, o.0));
}
