-- ===== src/Driver/Interest/Sync.antt =====
-- What `poll` is asked to watch follows the events that wait, up to the descriptors on the change list.
use tamer.Prelude.{
  has, ℕ, zero, suc, ◌<◌, ◌≡◌, refl, sym, ap, subst, ◌∙◌, inl, inr, Bool, true, false, List, [],
  ◌∷◌, ◌++◌, some, arith, ◌==◌, Bool-cases,
}
use tamer.Driver.PollFds.{PollFds, events}
use tamer.Driver.PollFds.Laws
use tamer.Driver.PollFds.Laws.{set_events_lem}
use tamer.Driver.FdSet.{Fd, FdSet, push_change}
use tamer.Driver.FdSet.Changes.{Pending, Same, push_change_lem}
use tamer.Driver.FdSet.Expand
use tamer.Driver.FdSet.Expand.{Expanded, expand_lem}
use tamer.Driver.Interest.{Flags, fd_disinterest, poll_events}

-- In sync but for the pending descriptors, and for `fd` if `open` is true.
pub record SyncBut (f : Flags) (s : FdSet) (p : PollFds) (fds : List ℕ) (open_fd : ℕ → Bool)
    : Type 0 where
  pub pending : Pending s fds
  pub set_valid : Expand.IsValid s
  pub poll_valid : Laws.IsValid p
  pub synced : (g : ℕ) → has g fds ≡ false → open_fd g ≡ false → events p g ≡ poll_events f (s.e g)

abbrev pub Sync : Flags → FdSet → PollFds → List ℕ → Type 0
Sync f s p fds = SyncBut f s p fds (λ _. false)

-- `t` is `s` with other changes pending.
pub record Moved (f : Flags) (s : FdSet) (p : PollFds) (t : FdSet) : Type 0 where
  pub fds : List ℕ
  pub sync : Sync f t p fds
  pub same : Same s t

pub Same-trans : (s t u : FdSet) → Same s t → Same t u → Same s u
Same-trans s t u a b = record {
  same_e = b.same_e ∙ a.same_e;
  same_nfds = b.same_nfds ∙ a.same_nfds;
  same_fdcap = b.same_fdcap ∙ a.same_fdcap;
}

pub Same-IsValid : (s t : FdSet) → Same s t → Expand.IsValid s → Expand.IsValid t
Same-IsValid s t x v = record {
  room = ground (arith, v.room, x.same_nfds, x.same_fdcap);
  blocks = ground (arith, v.blocks, x.same_fdcap);
  fresh = λ fd h. ap (λ (k : ℕ → Fd). k fd) x.same_e ∙ v.fresh fd (ground (arith, x.same_nfds));
}

has-more : (g : ℕ) (more fds : List ℕ) → has g (more ++ fds) ≡ false → has g fds ≡ false
has-more g [] fds h = h
has-more g (x ∷ more) fds h = ground (arith, has-more g more fds)

not_self : (g fd : ℕ) (fds : List ℕ) → has fd fds ≡ true → has g fds ≡ false → g == fd ≡ false
not_self g fd fds h n = elim (Bool-cases (g == fd)) [
  | inl same ↦
      let e : g ≡ fd = ground arith in
      let clash : has fd fds ≡ false = subst (λ k. has k fds ≡ false) e n in absurd (ground arith)
  | inr other ↦ other
]

module _ (f : Flags) (p : PollFds) where
  pub push-Moved :
      (s : FdSet) (fds : List ℕ) (fd : ℕ)
      → SyncBut f s p fds (λ g. g == fd)
      → fd < s.nfds
      → (t : FdSet) × (push_change s fd ≡ some t) × Moved f s p t
  push-Moved s fds fd v lt =
      let (t, more, e, q, there, few, same) = push_change_lem s fd fds v.pending lt in
      (
        t,
        e,
        record {
          fds = more ++ fds;
          sync = record {
            pending = q;
            set_valid = Same-IsValid s t same v.set_valid;
            poll_valid = v.poll_valid;
            synced = λ g h o.
                v.synced g (has-more g more fds h) (not_self g fd (more ++ fds) there h)
                ∙ ap (λ (k : ℕ → Fd). poll_events f (k g)) (sym same.same_e);
          };
          same = same;
        },
      )

  pub Sync-SyncBut :
      (s : FdSet) (fds : List ℕ) (o : ℕ → Bool) → Sync f s p fds → SyncBut f s p fds o
  Sync-SyncBut s fds o v = record {
    pending = v.pending;
    set_valid = v.set_valid;
    poll_valid = v.poll_valid;
    synced = λ g h u. v.synced g h refl;
  }

  pub disinterest-Moved :
      (n : ℕ) (s : FdSet) (fds : List ℕ) (fd : ℕ)
      → Sync f s p fds
      → fd < s.nfds
      → (t : FdSet) × (fd_disinterest n s fd ≡ some t) × Moved f s p t
  unfolding fd_disinterest
  disinterest-Moved zero s fds fd v lt = (
    s,
    refl,
    record {
      fds = fds;
      sync = v;
      same = record { same_e = refl; same_nfds = refl; same_fdcap = refl };
    },
  )
  disinterest-Moved (suc n) s fds fd v lt =
      let (t, e, m) = push-Moved s fds fd (Sync-SyncBut s fds (λ g. g == fd) v) lt in
      let (u, e', m') = disinterest-Moved n t m.fds fd m.sync (omega (arith, m.same.same_nfds)) in
      (
        u,
        ground arith,
        record { fds = m'.fds; sync = m'.sync; same = Same-trans s t u m.same m'.same },
      )
