-- ===== src/Driver/Interest/Update.antt =====
-- `update_fds` ends with `poll` asked for what the waiting events want.
use tamer.Prelude.{
  has, ℕ, zero, suc, ◌<◌, ◌≡◌, refl, sym, ap, subst, ◌∙◌, inl, inr, true, false, List, [], ◌∷◌,
  some, arith, ◌==◌, if◌then◌else◌, Bool-cases, length, if_intro, ==_iff,
}
use tamer.Driver.PollFds.{PollFds, events, set_events}
use tamer.Driver.PollFds.Laws
use tamer.Driver.PollFds.Laws.{set_events_lem}
use tamer.Driver.FdSet.{Fd, FdSet}
use tamer.Driver.FdSet.Changes.{pop_change_lem}
use tamer.Driver.Interest.{Flags, poll_events, update_fds}
use tamer.Driver.Interest.Sync.{Sync, Same-IsValid}

-- What `update_fds` leaves: nothing pending, and `poll` asked for what each descriptor wants.
pub record Updated (f : Flags) (s : FdSet) (t : FdSet) (q : PollFds) : Type 0 where
  pub sync : Sync f t q []
  pub same_events : (g : ℕ) → t.e g ≡ s.e g
  pub watched : (g : ℕ) → events q g ≡ poll_events f (s.e g)

-- The slots of one round.
round_events :
    (p : PollFds) (fd e : ℕ)
    → Laws.IsValid p
    → Laws.IsValid (if events p fd == e then p else set_events p fd e)
      × ((g : ℕ)
          → events (if events p fd == e then p else set_events p fd e) g
            ≡ (if g == fd then e else events p g))
round_events p fd e v =
    if_intro (λ q. Laws.IsValid q × ((g : ℕ) → events q g ≡ (if g == fd then e else events p g)))
      (events p fd == e) p (set_events p fd e) (λ same. (v, λ g. same_events g same))
      (λ other. set_events_lem p fd e v)
  where
    same_events :
        (g : ℕ) → events p fd == e ≡ true → events p g ≡ (if g == fd then e else events p g)
    same_events g same = elim (Bool-cases (g == fd)) [
      | inl here ↦
          let g_fd : g ≡ fd = ground arith in
          rw here (ap (λ k. events p k) g_fd ∙ (==_iff (events p fd) e).0 same)
      | inr there ↦ rw there refl
    ]

-- After the round of `fd` only the rest is pending.
round-synced :
    (f : Flags) (s t : FdSet) (p : PollFds) (fds rest : List ℕ) (fd g : ℕ)
    → Sync f s p fds
    → fds ≡ fd ∷ rest
    → t.e ≡ s.e
    → has g rest ≡ false
    → (if g == fd then poll_events f (t.e fd) else events p g) ≡ poll_events f (t.e g)
round-synced f s t p fds rest fd g v split same h = elim (Bool-cases (g == fd)) [
  | inl here ↦
      let g_fd : g ≡ fd = ground arith in rw here (ap (λ k. poll_events f (t.e k)) (sym g_fd))
  | inr there ↦
      let out : has g (fd ∷ rest) ≡ false = ground arith in
      rw there (
        v.synced g (subst (λ k. has g k ≡ false) (sym split) out) refl
        ∙ ap (λ (k : ℕ → Fd). poll_events f (k g)) (sym same))
]

-- With more fuel than there are pending changes, `update_fds` ends: no change is pending then, the
-- waiting events are what they were, and what is asked of `poll` for every descriptor follows from them.
pub update_fds_lem :
    (fuel : ℕ) (f : Flags) (s : FdSet) (p : PollFds) (fds : List ℕ)
    → Sync f s p fds
    → length fds < fuel
    → (t : FdSet) × (q : PollFds) × (update_fds fuel f s p ≡ some (t, q)) × Updated f s t q
unfolding update_fds
update_fds_lem zero f s p fds v lt = elim lt [ ]
update_fds_lem (suc fuel) f s p fds v lt = elim (pop_change_lem s fds v.pending) [
  | inl (stop, nil) ↦
      let w : Sync f s p [] = subst (λ k. Sync f s p k) nil v in
      (
        s,
        p,
        ground arith,
        record { sync = w; same_events = λ g. refl; watched = λ g. w.synced g refl refl },
      )
  | inr (fd, rest, t, popped, split, q, below, same) ↦
      let e = poll_events f (t.e fd) in
      let p' = if events p fd == e then p else set_events p fd e in
      let (valid, set) = round_events p fd e v.poll_valid in
      let w : Sync f t p' rest = record {
        pending = q;
        set_valid = Same-IsValid s t same v.set_valid;
        poll_valid = valid;
        synced = λ g h o. set g ∙ round-synced f s t p fds rest fd g v split same.same_e h;
      } in
      let (u, r, done, up) = update_fds_lem fuel f t p' rest w (omega (arith, ap length split)) in
      (
        u,
        r,
        ground (arith, popped, done),
        record {
          sync = up.sync;
          same_events = λ g. up.same_events g ∙ ap (λ (k : ℕ → Fd). k g) same.same_e;
          watched = λ g. up.watched g ∙ ap (λ (k : ℕ → Fd). poll_events f (k g)) same.same_e;
        },
      )
]
