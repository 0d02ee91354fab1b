-- ===== src/Events/Typed.antt =====
-- `event` of tamer/event.hh with any number of results: a handle to a `simple_event` and the slots that its results
-- go to. A slot is a number; `event<>` has none. The simple events are those of Events.
pub mod Once
use tamer.Prelude.{
  ℕ, zero, suc, ◌+◌, ◌-◌, Bool, true, false, not, List, [], ◌∷◌, Option, none, some, ◌==◌,
  if◌then◌else◌, store, get_or,
}
use tamer.Events.{Event, World, simple_trigger}
use tamer.Events.Clear.{unuse}

pub record Handle : Type 0 where
  pub se : Option ℕ
  pub slots : List ℕ

-- The events, and what is in the slots.
pub record Memory {ℓ} (A : Type ℓ) : Type ℓ where
  pub world : World
  pub values : ℕ → A

abbrev pub no_event : List ℕ → Handle
no_event slots = record { se = none; slots = slots }

abbrev pub is_some : Option ℕ → Bool
is_some none = false
is_some (some r) = true

-- `se_ && *se_`; `none` is an access to an event that is gone.
unfoldable pub active : World → Handle → Option Bool
active w h = elim h.se [
  | none ↦ some false
  | some x ↦ elim (w.events x) [ none ↦ none | some e ↦ some (is_some e.rendezvous) ]
]

unfoldable pub empty : World → Handle → Option Bool
unfolding active
empty w h = elim (active w h) [ none ↦ none | some b ↦ some (not b) ]

-- `simple_event::use`
unfoldable pub use_event : World → Option ℕ → Option World
use_event w none = some w
use_event w (some x) = elim (w.events x) [
  | none ↦ none
  | some e ↦ some (record w {
    events = store w.events x (
        some (record {
          rendezvous = e.rendezvous;
          rid = e.rid;
          hook = e.hook;
          refcount = e.refcount + 1;
        }));
  })
]

unfoldable pub unuse_event : ℕ → World → Option ℕ → Option World
unuse_event fuel w none = some w
unuse_event fuel w (some x) = unuse fuel w x

-- The copy, and the events with its reference.
unfoldable pub copy : World → Handle → Option (Handle × World)
unfolding use_event
copy w h = elim (use_event w h.se) [ none ↦ none | some u ↦ some (h, u) ]

-- The new handle, and what is left of the old one.
unfoldable pub move : Handle → Handle × Handle
move h = (h, no_event h.slots)

unfoldable pub destroy : ℕ → World → Handle → Option World
unfolding unuse_event
destroy fuel w h = unuse_event fuel w h.se

unfoldable pub assign : ℕ → World → Handle → Handle → Option (Handle × World)
unfolding use_event unuse_event
assign fuel w h x = elim (use_event w x.se) [
  | none ↦ none
  | some u ↦ elim (unuse_event fuel u h.se) [ none ↦ none | some v ↦ some (x, v) ]
]

-- Both handles behind it.
unfoldable pub assign_move : Handle → Handle → Handle × Handle
assign_move h x = (x, record { se = h.se; slots = x.slots })

-- `unblocker`: an `event<>` for the same simple event
unfoldable pub unblocker : World → Handle → Option (Handle × World)
unfolding use_event
unblocker w h = elim (use_event w h.se) [
  | none ↦ none
  | some u ↦ some (record { se = h.se; slots = [] }, u)
]

abbrev pub get_simple : Handle → Option ℕ
get_simple h = h.se

abbrev pub release_simple : Handle → Option ℕ × Handle
release_simple h = (h.se, no_event h.slots)

unfoldable pub fire : ℕ → Bool → Option ℕ → World → Option World
fire fuel values none w = some w
fire fuel values (some x) w = simple_trigger fuel x values w

module _ {ℓ} {A : Type ℓ} where
  -- The results into the slots, in their order.
  unfoldable pub write : List ℕ → List A → (ℕ → A) → ℕ → A
  write [] vs f = f
  write (s ∷ ss) [] f = f
  write (s ∷ ss) (v ∷ vs) f = write ss vs (store f s v)

  abbrev pub values_at : (ℕ → A) → List ℕ → List A
  values_at f [] = []
  values_at f (s ∷ ss) = f s ∷ values_at f ss

  -- `operator()` of an event with results, `trigger` and `tuple_trigger`
  unfoldable pub trigger : ℕ → Handle → List A → Memory A → Option (Handle × Memory A)
  unfolding active write fire
  trigger fuel h vs m = elim (active m.world h) [
    | none ↦ none
    | some false ↦ some (h, m)
    | some true ↦ elim (fire fuel true h.se m.world) [
      | none ↦ none
      | some u ↦ some (no_event h.slots, record { world = u; values = write h.slots vs m.values })
    ]
  ]

  -- `unblock`, which is also `operator()` of an `event<>`
  unfoldable pub unblock : ℕ → Handle → Memory A → Option (Handle × Memory A)
  unfolding fire
  unblock fuel h m = elim (fire fuel false h.se m.world) [
    | none ↦ none
    | some u ↦ some (no_event h.slots, record { world = u; values = m.values })
  ]

  unfoldable pub set_result : Handle → ℕ → A → Memory A → Option (Memory A)
  unfolding active
  set_result h i v m = elim (active m.world h) [
    | none ↦ none
    | some false ↦ some m
    | some true ↦ some (record { world = m.world; values = store m.values (get_or h.slots i 0) v })
  ]

  -- `result`; the second `none` is the failed assertion
  unfoldable pub result : Handle → Memory A → Option (Option A)
  unfolding active
  result h m = elim (active m.world h) [
    | none ↦ none
    | some false ↦ some none
    | some true ↦ some (some (m.values (get_or h.slots 0 0)))
  ]
