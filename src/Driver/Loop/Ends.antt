-- ===== src/Driver/Loop/Ends.antt =====
-- When `driver_tamer::loop` ends.
use tamer.Prelude.{ℕ, zero, ◌≤◌, ◌<◌, ◌≡◌, ◌⊎◌, true, false, List, [], ◌∷◌}
use tamer.AsapSet
use tamer.AsapSet.{AsapSet}
use tamer.Timers.{TimerSet, of_bool}
use tamer.Timers.Cull
use tamer.Timers.Cull.{is_foreground}
use tamer.Driver.Loop.{Timeval, time_of, later, Around, Pass}

-- Nothing is ready, every timer is a background one that is later than `tnow`, and nothing else that counts is
-- waited for.
pub record Over (asap : AsapSet) (timers : TimerSet) (r : Around) (tnow : Timeval) : Type 0 where
  pub no_asap : AsapSet.empty asap ≡ true
  pub no_signal : r.sig_any_active ≡ false
  pub no_closure : r.unblocked ≡ false
  pub not_due : (i : ℕ) → i < timers.nts → later (time_of (timers.ts i)) tnow ≡ true
  pub background : (i : ℕ) → i < timers.nts → is_foreground (timers.ts i) ≡ false
  pub no_fd : r.npfds ≤ of_bool r.sig_pipe
  pub no_handler : r.sig_nforeground ≡ 0

-- What `block` reads: the root and the count of foreground timers.
FirstOver : AsapSet → TimerSet → Around → Timeval → Type 0
FirstOver asap timers r tnow =
    (AsapSet.empty asap ≡ true)
    × (r.sig_any_active ≡ false)
    × (r.unblocked ≡ false)
    × ((timers.nts ≡ 0) ⊎ ((later (time_of (timers.ts 0)) tnow ≡ true) × (timers.nfg ≡ 0)))
    × (r.npfds ≤ of_bool r.sig_pipe)
    × (r.sig_nforeground ≡ 0)

-- The timers are a valid set.
abbrev pub Valid : ℕ → Pass → Type 0
Valid base p = Cull.IsValid base p.timers

abbrev pub Ends : Pass → Type 0
Ends p = (p.broken ≡ true) ⊎ Over p.asap p.timers p.around p.tnow

abbrev pub AllGoOn : ℕ → List Pass → Type 0
AllGoOn base [] = Unit
AllGoOn base (p ∷ ps) = Valid base p × (Ends p → zero ≡ 1) × AllGoOn base ps
