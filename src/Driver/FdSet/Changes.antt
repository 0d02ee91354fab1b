-- ===== src/Driver/FdSet/Changes.antt =====
-- The list of changed descriptors. The descriptor at its end has `next_changedfd1` 0 like one that is not
-- on the list, so that a second `push_change` of it ties the list to a loop. The list is read by `pop_change`
-- only, which cuts the links behind it: what matters is the sequence that the pops give.
use tamer.Prelude.{
  has, ℕ, ◌+◌, ◌≤◌, ◌<◌, ◌≡◌, refl, sym, subst, ◌⊎◌, inl, inr, true, false, List, [], ◌∷◌, ◌++◌,
  none, some, arith, ◌==◌, store, Bool-cases, length,
}
use tamer.Driver.FdSet.{FdSet, push_change, pop_change}

-- The pops from the link `head` on give `fds`, and then there are no more.
abbrev pub Pops : (ℕ → ℕ) → ℕ → List ℕ → Type 0
Pops next head [] = head ≡ 0
Pops next head (fd ∷ fds) = (head ≡ fd + 1) × Pops (store next fd 0) (next fd) fds

abbrev pub AllBelow : ℕ → List ℕ → Type 0
AllBelow n [] = Unit
AllBelow n (x ∷ xs) = (x < n) × AllBelow n xs

-- `fds` is what the pops of the set will give; a descriptor that is not among them has no link.
pub record Pending (s : FdSet) (fds : List ℕ) : Type 0 where
  pub pops : Pops s.next s.changedfd1 fds
  pub unlinked : (fd : ℕ) → has fd fds ≡ false → s.next fd ≡ 0
  pub below : AllBelow s.nfds fds

-- What the list does not touch.
pub record Same (s t : FdSet) : Type 0 where
  pub same_e : t.e ≡ s.e
  pub same_nfds : t.nfds ≡ s.nfds
  pub same_fdcap : t.fdcap ≡ s.fdcap

Same-refl : (s : FdSet) → Same s s
Same-refl s = record { same_e = refl; same_nfds = refl; same_fdcap = refl }

-- Only the values of the links matter.
pub Pops-ext :
    (next other : ℕ → ℕ) (head : ℕ) (fds : List ℕ)
    → ((i : ℕ) → next i ≡ other i)
    → Pops next head fds
    → Pops other head fds
Pops-ext next other head [] same p = p
Pops-ext next other head (fd ∷ fds) same (h, p) = (
  h,
  subst (λ k. Pops (store other fd 0) k fds) (same fd)
      (Pops-ext (store next fd 0) (store other fd 0) (next fd) fds (λ i. ground (arith, same i)) p),
)

push_link :
    (next : ℕ → ℕ) (head fd : ℕ) (fds : List ℕ)
    → next fd ≡ 0
    → Pops next head fds
    → Pops (store next fd head) (fd + 1) (fd ∷ fds)
push_link next head fd fds z p =
    let back : store next fd head fd ≡ head = ground arith in
    (
      refl,
      subst (λ k. Pops (store (store next fd head) fd 0) k fds) (sym back)
          (Pops-ext next (store (store next fd head) fd 0) head fds (λ i. ground arith) p),
    )

-- `push_change` of a descriptor that exists puts it on the list if it is not there, and drops none.
pub push_change_lem :
    (s : FdSet) (fd : ℕ) (fds : List ℕ)
    → Pending s fds
    → fd < s.nfds
    → (t : FdSet) × (more : List ℕ) × (push_change s fd ≡ some t)
      × Pending t (more ++ fds)
      × (has fd (more ++ fds) ≡ true)
      × (length more ≤ 1)
      × Same s t
unfolding push_change
push_change_lem s fd fds p lt = elim (Bool-cases (s.next fd == 0)) [
  | inl new ↦ (
    record s { next = store s.next fd s.changedfd1; changedfd1 = fd + 1 },
    fd ∷ [],
    ground arith,
    record {
      pops = push_link s.next s.changedfd1 fd fds (ground arith) p.pops;
      unlinked = λ g h. ground (arith, p.unlinked g);
      below = (lt, p.below);
    },
    ground arith,
    omega arith,
    record { same_e = refl; same_nfds = refl; same_fdcap = refl },
  )
  | inr old ↦ (s, [], ground arith, p, ground (arith, p.unlinked fd), omega arith, Same-refl s)
]

-- The links after a pop.
unlinked_pop :
    (next : ℕ → ℕ) (fd : ℕ) (fds : List ℕ)
    → ((g : ℕ) → has g (fd ∷ fds) ≡ false → next g ≡ 0)
    → (g : ℕ) → has g fds ≡ false
    → store next fd 0 g ≡ 0
unlinked_pop next fd fds u g h = ground (arith, u g)

-- `pop_change` gives the first of the pending descriptors and leaves the others, or there is none.
pub pop_change_lem :
    (s : FdSet) (fds : List ℕ)
    → Pending s fds
    → ((pop_change s ≡ none) × (fds ≡ []))
      ⊎ ((fd : ℕ) × (rest : List ℕ) × (t : FdSet) × (pop_change s ≡ some (fd, t))
          × (fds ≡ fd ∷ rest)
          × Pending t rest
          × (fd < s.nfds)
          × Same s t)
unfolding pop_change
pop_change_lem s [] p = inl (ground (arith, p.pops), refl)
pop_change_lem s (fd ∷ rest) p = inr (
  fd,
  rest,
  record s { changedfd1 = s.next fd; next = store s.next fd 0 },
  ground (arith, p.pops.0),
  refl,
  record { pops = p.pops.1; unlinked = unlinked_pop s.next fd rest p.unlinked; below = p.below.1 },
  p.below.0,
  record { same_e = refl; same_nfds = refl; same_fdcap = refl },
)
