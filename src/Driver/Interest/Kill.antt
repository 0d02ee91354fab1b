-- ===== src/Driver/Interest/Kill.antt =====
-- Registering an event and killing a descriptor.
use tamer.Prelude.{
  ℕ, ◌≤◌, ◌<◌, ◌≡◌, refl, sym, ap, ap₂, subst, ◌∙◌, List, [], ◌∷◌, ◌++◌, some, arith, ◌==◌,
  if◌then◌else◌, length,
}
use tamer.Driver.PollFds.{PollFds}
use tamer.Driver.FdSet.{Fd, FdSet, no_events, push_change, expand}
use tamer.Driver.FdSet.Expand.{expand_lem}
use tamer.Driver.Interest.{
  Flags, Action, read, write, shutdown, actions, waiting, with_waiting, set_waiting, fd_disinterest,
  trigger, at_fd, kill_loop, kill_fd, poll_events,
}
use tamer.Driver.Interest.Sync.{
  SyncBut, Sync, Moved, push-Moved, Sync-SyncBut, disinterest-Moved, Same-trans,
}

-- Setting a slot puts at most its own descriptor out of sync.
set_waiting-SyncBut :
    (f : Flags) (s : FdSet) (p : PollFds) (fds : List ℕ) (fd : ℕ) (a : Action) (es : List ℕ)
    → Sync f s p fds
    → fd < s.nfds
    → SyncBut f (set_waiting s fd a es) p fds (λ g. g == fd)
unfolding set_waiting
set_waiting-SyncBut f s p fds fd a es v lt = record {
  pending = record {
    pops = v.pending.pops;
    unlinked = v.pending.unlinked;
    below = v.pending.below;
  };
  set_valid = record {
    room = v.set_valid.room;
    blocks = v.set_valid.blocks;
    fresh = λ g h. ground (arith, v.set_valid.fresh g);
  };
  poll_valid = v.poll_valid;
  synced = λ g h o. ground (arith, v.synced g);
}

poll_events-nil :
    (f : Flags) (x : Fd) (a : Action)
    → waiting x a ≡ []
    → poll_events f (with_waiting x a []) ≡ poll_events f x
unfolding poll_events
poll_events-nil f x read e = ground arith
poll_events-nil f x write e = ground arith
poll_events-nil f x shutdown e = ground arith

-- Emptying a slot that is empty puts nothing out of sync.
set_waiting-Sync :
    (f : Flags) (s : FdSet) (p : PollFds) (fds : List ℕ) (fd : ℕ) (a : Action)
    → Sync f s p fds
    → fd < s.nfds
    → waiting (s.e fd) a ≡ []
    → Sync f (set_waiting s fd a []) p fds
unfolding set_waiting
set_waiting-Sync f s p fds fd a v lt e =
    let b = set_waiting-SyncBut f s p fds fd a [] v lt in
    record {
      pending = record {
        pops = v.pending.pops;
        unlinked = v.pending.unlinked;
        below = v.pending.below;
      };
      set_valid = record {
        room = v.set_valid.room;
        blocks = v.set_valid.blocks;
        fresh = λ g h. ground (arith, v.set_valid.fresh g);
      };
      poll_valid = v.poll_valid;
      synced = λ g h o. ground (arith, v.synced g, poll_events-nil f (s.e fd) a);
    }

-- `t` is `s` with the slot set and other changes pending.
pub record Sets (f : Flags) (s : FdSet) (p : PollFds) (fd : ℕ) (x : Fd) (t : FdSet) : Type 0 where
  pub fds : List ℕ
  pub sync : Sync f t p fds
  pub set : (g : ℕ) → t.e g ≡ (if g == fd then x else s.e g)
  pub kept : s.nfds ≤ t.nfds

Moved-Sets :
    (f : Flags) (s : FdSet) (p : PollFds) (fd : ℕ) (a : Action) (es : List ℕ) (t : FdSet)
    → Moved f (set_waiting s fd a es) p t
    → Sets f s p fd (with_waiting (s.e fd) a es) t
unfolding set_waiting
Moved-Sets f s p fd a es t m = record {
  fds = m.fds;
  sync = m.sync;
  set = λ g. ap (λ (k : ℕ → Fd). k g) m.same.same_e ∙ ground arith;
  kept = omega (arith, m.same.same_nfds);
}

hooks-Moved :
    (f : Flags) (s : FdSet) (p : PollFds) (fds : List ℕ) (fd : ℕ) (a : Action) (es : List ℕ)
    → Sync f s p fds
    → fd < s.nfds
    → waiting (s.e fd) a ≡ es
    → (t : FdSet) × (fd_disinterest (length es) (set_waiting s fd a []) fd ≡ some t)
      × Moved f (set_waiting s fd a []) p t
unfolding fd_disinterest set_waiting
hooks-Moved f s p fds fd a [] v lt e =
    disinterest-Moved f p 0 (set_waiting s fd a []) fds fd (set_waiting-Sync f s p fds fd a v lt e)
      lt
hooks-Moved f s p fds fd a (x ∷ es) v lt e =
    let (t, first, m) =
      push-Moved f p (set_waiting s fd a []) fds fd (set_waiting-SyncBut f s p fds fd a [] v lt)
        lt in
    let (u, others, n) =
      disinterest-Moved f p (length es) t m.fds fd m.sync (omega (arith, m.same.same_nfds)) in
    (
      u,
      ground (arith, first, others),
      record {
        fds = n.fds;
        sync = n.sync;
        same = Same-trans (set_waiting s fd a []) t u m.same n.same;
      },
    )

-- `trigger` triggers every event of the slot once and leaves the slot empty.
trigger-Sets :
    (f : Flags) (s : FdSet) (p : PollFds) (fds : List ℕ) (fd : ℕ) (a : Action)
    → Sync f s p fds
    → fd < s.nfds
    → (t : FdSet) × (trigger s fd a ≡ some (waiting (s.e fd) a, t))
      × Sets f s p fd (with_waiting (s.e fd) a []) t
unfolding trigger
trigger-Sets f s p fds fd a v lt =
    let (t, e, m) = hooks-Moved f s p fds fd a (waiting (s.e fd) a) v lt refl in
    (t, ground (arith, e), Moved-Sets f s p fd a [] t m)

-- `at_fd` puts the event behind those that wait for that action of the descriptor, which exists from
-- then on; no other slot changes, and the set stays in sync with what is asked of `poll`, up to the
-- pending changes.
pub at_fd_lem :
    (f : Flags) (s : FdSet) (p : PollFds) (fds : List ℕ) (fd : ℕ) (a : Action) (e : ℕ)
    → Sync f s p fds
    → (t : FdSet) × (at_fd s fd a e ≡ some t)
      × Sets f s p fd (with_waiting (s.e fd) a (waiting (s.e fd) a ++ (e ∷ []))) t
unfolding at_fd
at_fd_lem f s p fds fd a e v =
    let x = expand_lem s fds fd v.set_valid v.pending in
    let s' = expand s fd in
    let w : Sync f s' p fds = record {
      pending = x.pending;
      set_valid = x.valid;
      poll_valid = v.poll_valid;
      synced = λ g h o. v.synced g h o ∙ ap (poll_events f) (sym (x.same g));
    } in
    let es = waiting (s'.e fd) a ++ (e ∷ []) in
    let (t, done, m) =
      push-Moved f p (set_waiting s' fd a es) fds fd
        (set_waiting-SyncBut f s' p fds fd a es w x.there) (unfold set_waiting in x.there) in
    let sets = Moved-Sets f s' p fd a es t m in
    (
      t,
      done,
      record {
        fds = sets.fds;
        sync = sets.sync;
        set = λ g.
            sets.set g
            ∙ ap₂ (λ (y z : Fd). if g == fd then with_waiting y a (waiting y a ++ (e ∷ [])) else z)
                (x.same fd) (x.same g);
        kept = omega (arith, x.kept, sets.kept);
      },
    )

-- One slot after another.
Sets-trans :
    (f : Flags) (s t u : FdSet) (p : PollFds) (fd : ℕ) (x y : Fd)
    → Sets f s p fd x t
    → Sets f t p fd y u
    → Sets f s p fd y u
Sets-trans f s t u p fd x y a b = record {
  fds = b.fds;
  sync = b.sync;
  set = λ g. ground (arith, a.set g, b.set g);
  kept = omega (arith, a.kept, b.kept);
}

set_here :
    (f : Flags) (s t : FdSet) (p : PollFds) (fd : ℕ) (x : Fd) → Sets f s p fd x t → t.e fd ≡ x
set_here f s t p fd x a = a.set fd ∙ ground arith

-- What `kill_loop` does with the first slot, and then with the others.
kill_first :
    (a : Action) (as' : List Action) (s t u : FdSet) (fd : ℕ) (es more : List ℕ)
    → trigger s fd a ≡ some (es, t)
    → kill_loop as' t fd ≡ some (more, u)
    → kill_loop (a ∷ as') s fd ≡ some (es ++ more, u)
unfolding kill_loop
kill_first a as' s t u fd es more e e' = ground (arith)

kill_done :
    (s t u : FdSet) (fd : ℕ) (es : List ℕ)
    → fd < s.nfds
    → kill_loop actions s fd ≡ some (es, t)
    → push_change t fd ≡ some u
    → kill_fd s fd ≡ some (es, u)
unfolding kill_fd
kill_done s t u fd es lt e e' = ground (arith)

kill_last : (s : FdSet) (fd : ℕ) → kill_loop [] s fd ≡ some ([], s)
unfolding kill_loop
kill_last s fd = refl

-- A last `push_change`.
Sets-Moved :
    (f : Flags) (s t u : FdSet) (p : PollFds) (fd : ℕ) (x : Fd)
    → Sets f s p fd x t
    → Moved f t p u
    → Sets f s p fd x u
Sets-Moved f s t u p fd x a m = record {
  fds = m.fds;
  sync = m.sync;
  set = λ g. ap (λ (k : ℕ → Fd). k g) m.same.same_e ∙ a.set g;
  kept = omega (arith, a.kept, m.same.same_nfds);
}

-- `kill_fd` of a descriptor that exists triggers every event that waits for it once, those to read first
-- and those for a shutdown last. None waits for it then, and no other descriptor is touched; the set stays
-- in sync with what is asked of `poll`, up to the pending changes.
pub kill_fd_lem :
    (f : Flags) (s : FdSet) (p : PollFds) (fds : List ℕ) (fd : ℕ)
    → Sync f s p fds
    → fd < s.nfds
    → (t : FdSet) × (kill_fd s fd
        ≡ some ((s.e fd).read ++ ((s.e fd).write ++ ((s.e fd).shutdown ++ [])), t))
      × Sets f s p fd no_events t
kill_fd_lem f s p fds fd v lt =
    let (t, e1, r) = trigger-Sets f s p fds fd read v lt in
    let here1 = set_here f s t p fd (with_waiting (s.e fd) read []) r in
    let (u, e2, w) = trigger-Sets f t p r.fds fd write r.sync (omega (arith, r.kept)) in
    let here2 = set_here f t u p fd (with_waiting (t.e fd) write []) w in
    let (x, e3, z) = trigger-Sets f u p w.fds fd shutdown w.sync (omega (arith, r.kept, w.kept)) in
    let (y, e4, m) =
      push-Moved f p x z.fds fd (Sync-SyncBut f p x z.fds (λ g. g == fd) z.sync)
        (omega (arith, r.kept, w.kept, z.kept)) in
    let writers : waiting (t.e fd) write ≡ (s.e fd).write = ap (λ (q : Fd). q.write) here1 in
    let closers : waiting (u.e fd) shutdown ≡ (s.e fd).shutdown =
      ap (λ (q : Fd). q.shutdown) here2 ∙ ap (λ (q : Fd). q.shutdown) here1 in
    let last = kill_first shutdown [] u x x fd _ [] e3 (kill_last x fd) in
    let two = kill_first write (shutdown ∷ []) t u x fd _ _ e2 last in
    let loop = kill_first read (write ∷ shutdown ∷ []) s t x fd _ _ e1 two in
    let none_wait : with_waiting (u.e fd) shutdown [] ≡ no_events =
      ap (λ q. with_waiting q shutdown []) (here2 ∙ ap (λ q. with_waiting q write []) here1) in
    let all = Sets-trans f s t x p fd _ _ r (Sets-trans f t u x p fd _ _ w z) in
    (
      y,
      kill_done s x y fd _ lt
          (loop ∙ ap₂ (λ ws cs. some ((s.e fd).read ++ (ws ++ (cs ++ [])), x)) writers closers) e4,
      Sets-Moved f s x y p fd no_events (subst (λ q. Sets f s p fd q x) none_wait all) m,
    )
