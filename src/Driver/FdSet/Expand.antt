-- ===== src/Driver/FdSet/Expand.antt =====
-- `expand` makes every descriptor up to the wanted one, and changes none that is there.
use tamer.Prelude.{
  has, ℕ, zero, suc, ◌+◌, ◌-◌, ◌*◌, ◌/◌, ◌%◌, ◌≤◌, ◌<◌, ◌≡◌, refl, ◌∙◌, false, List, [], ◌∷◌, arith,
  leb, if◌then◌else◌, store, if_intro,
}
use Prim.Native.Nat.{bit_or}
use tamer.Prelude.Or.{bit_or-ones}
use tamer.Driver.FdSet.{FdSet, no_events, make_fds, hard_expand, expand}
use tamer.Driver.FdSet.Changes.{AllBelow, Pending, Pops-ext}

-- The array of blocks has room, and a descriptor that does not exist has no events.
pub record IsValid (s : FdSet) : Type 0 where
  pub room : s.nfds ≤ s.fdcap
  pub blocks : s.fdcap % 256 ≡ 0
  pub fresh : (fd : ℕ) → s.nfds ≤ fd → s.e fd ≡ no_events

-- `t` is `s` with room for `fd`.
pub record Expanded (s : FdSet) (fds : List ℕ) (fd : ℕ) (t : FdSet) : Type 0 where
  pub valid : IsValid t
  pub pending : Pending t fds
  pub same : (g : ℕ) → t.e g ≡ s.e g
  pub there : fd < t.nfds
  pub kept : s.nfds ≤ t.nfds

AllBelow-le : (n m : ℕ) (fds : List ℕ) → n ≤ m → AllBelow n fds → AllBelow m fds
AllBelow-le n m [] h a = tt
AllBelow-le n m (x ∷ fds) h a = (omega arith, AllBelow-le n m fds h a.1)

not-has_above : (n : ℕ) (fds : List ℕ) → AllBelow n fds → has n fds ≡ false
not-has_above n [] a = refl
not-has_above n (x ∷ fds) a = ground (arith, not-has_above n fds a.1)

-- One new descriptor.
abbrev made : FdSet → FdSet
made s = record s {
  e = store s.e s.nfds no_events;
  next = store s.next s.nfds 0;
  nfds = s.nfds + 1;
}

made-Pending : (s : FdSet) (fds : List ℕ) → Pending s fds → Pending (made s) fds
made-Pending s fds p =
    let z = p.unlinked s.nfds (not-has_above s.nfds fds p.below) in
    record {
      pops = Pops-ext s.next (made s).next s.changedfd1 fds (λ i. ground arith) p.pops;
      unlinked = λ g h. ground (arith, p.unlinked g);
      below = AllBelow-le s.nfds (s.nfds + 1) fds (omega arith) p.below;
    }

make_fds-Expanded :
    (n : ℕ) (s : FdSet) (fds : List ℕ) (fd : ℕ)
    → IsValid s
    → Pending s fds
    → s.nfds + n ≤ s.fdcap
    → fd < s.nfds + n
    → Expanded s fds fd (make_fds n s)
unfolding make_fds
make_fds-Expanded zero s fds fd v p r h = record {
  valid = v;
  pending = p;
  same = λ g. refl;
  there = omega arith;
  kept = omega arith;
}
make_fds-Expanded (suc n) s fds fd v p r h =
    let w : IsValid (made s) = record {
      room = omega arith;
      blocks = v.blocks;
      fresh = λ g le. ground (arith, v.fresh g);
    } in
    let x =
      make_fds-Expanded n (made s) fds fd w (made-Pending s fds p) (omega arith) (omega arith) in
    record {
      valid = x.valid;
      pending = x.pending;
      same = λ g. x.same g ∙ ground (arith, v.fresh g);
      there = x.there;
      kept = omega (arith, x.kept);
    }

block_end : (fd : ℕ) → bit_or fd (256 - 1) + 1 ≡ fd / 256 * 256 + 256
block_end fd = omega (arith, bit_or-ones 8 fd)

hard_expand-Expanded :
    (s : FdSet) (fds : List ℕ) (fd : ℕ)
    → IsValid s
    → Pending s fds
    → s.nfds ≤ fd
    → Expanded s fds fd (hard_expand s fd)
unfolding hard_expand
hard_expand-Expanded s fds fd v p new =
    let t : FdSet = record s {
      fdcap = if leb s.fdcap fd then bit_or fd (256 - 1) + 1 else s.fdcap;
    } in
    let w : IsValid t = record {
      room = ground (arith, v.room, block_end fd);
      blocks = ground (arith, v.blocks, block_end fd);
      fresh = v.fresh;
    } in
    let q : Pending t fds = record { pops = p.pops; unlinked = p.unlinked; below = p.below } in
    let x =
      make_fds-Expanded (fd + 1 - s.nfds) t fds fd w q (ground (arith, block_end fd))
        (omega arith) in
    record { valid = x.valid; pending = x.pending; same = x.same; there = x.there; kept = x.kept }

-- After `expand` the descriptor exists, in an array that has room for it; the events of every descriptor
-- and the pending changes are what they were.
pub expand_lem :
    (s : FdSet) (fds : List ℕ) (fd : ℕ)
    → IsValid s
    → Pending s fds
    → Expanded s fds fd (expand s fd)
unfolding expand
expand_lem s fds fd v p =
    if_intro (Expanded s fds fd) (leb s.nfds fd) _ s
      (λ new. hard_expand-Expanded s fds fd v p (ground arith))
      (λ old. record {
        valid = v;
        pending = p;
        same = λ g. refl;
        there = ground arith;
        kept = omega arith;
      })
