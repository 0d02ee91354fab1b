-- ===== src/Refs/Monitors.antt =====
-- `ref` and `ref_monitor` of tamer/ref.hh: a monitor knows whether the object it watches is still there. The
-- list of a `ref` through its monitors is a list.
pub mod Watched
use tamer.Prelude.{
  ℕ, Bool, true, false, List, [], ◌∷◌, Option, none, some, ◌==◌, if◌then◌else◌, store, has,
}

-- The monitors of each `ref`, and the `ref` of each monitor, if it has one.
pub record Monitors : Type 0 where
  pub first : ℕ → List ℕ
  pub watches : ℕ → Option ℕ

unfoldable pub unlink : ℕ → List ℕ → List ℕ
unlink m [] = []
unlink m (x ∷ xs) = if m == x then xs else x ∷ unlink m xs

-- the constructor of `ref_monitor`, for a new monitor
unfoldable pub watch : Monitors → ℕ → ℕ → Monitors
watch s m r = record {
  first = store s.first r (m ∷ s.first r);
  watches = store s.watches m (some r);
}

-- the destructor of `ref_monitor`
unfoldable pub unwatch : Monitors → ℕ → Monitors
unwatch s m = elim (s.watches m) [
  | none ↦ s
  | some r ↦ record {
    first = store s.first r (unlink m (s.first r));
    watches = store s.watches m none;
  }
]

-- The loop of `~ref`.
unfoldable pub release_all : List ℕ → (ℕ → Option ℕ) → ℕ → Option ℕ
release_all [] watches = watches
release_all (m ∷ ms) watches = release_all ms (store watches m none)

-- `~ref`
unfoldable pub destroy_ref : Monitors → ℕ → Monitors
destroy_ref s r = record { first = store s.first r []; watches = release_all (s.first r) s.watches }

-- `ref_monitor::empty`
abbrev pub is_unset : Option ℕ → Bool
is_unset none = true
is_unset (some r) = false

abbrev pub empty : Monitors → ℕ → Bool
empty s m = is_unset (s.watches m)
