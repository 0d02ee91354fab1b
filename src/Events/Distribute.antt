-- ===== src/Events/Distribute.antt =====
-- `distribute_rendezvous` of tamer/rendezvous.hh: an event that stands for several. What its hook does to the children
-- is here. Children with several references call `clear_hook` when they are triggered; within `hook` that
-- takes one off the count `outstanding`, which is 1 too many then, so that nothing is deleted before the end.
pub mod Space
pub mod Children
mod Tests
use tamer.Prelude.{
  ℕ, zero, suc, ◌+◌, ◌-◌, ◌*◌, Bool, true, false, not, ◌&&◌, List, [], ◌∷◌, ◌++◌, Option, none,
  some, ◌==◌, if◌then◌else◌, leb, ltb, bit_and, length,
}
use tamer.Events.{Call, hooked, notified, World}
use tamer.Events.Typed.{Handle, Memory, no_event, values_at, trigger, unblock, unuse_event, active}

-- `es` are the children, in an array of `space` places; `vs` are the slots of the results.
pub record Distribute : Type 0 where
  pub es : List Handle
  pub space : ℕ
  pub outstanding : ℕ
  pub vs : List ℕ

abbrev pub new_distribute : List ℕ → Distribute
new_distribute vs = record { es = []; space = 2; outstanding = 0; vs = vs }

-- `grow`, whose `new` does not give null
unfoldable pub grow : Distribute → Distribute
grow d = record d { space = length d.es * 2 }

-- Whether `add` calls `grow`.
unfoldable pub full : ℕ → Bool
full nes = leb 2 nes && bit_and nes (nes - 1) == 0

-- `shared` is whether the event has more than one reference; `none` is a write past the end of the array.
unfoldable pub add : Distribute → Handle → Bool → Option Distribute
unfolding full grow
add d e shared =
    let r = if full (length d.es) then grow d else d in
    if ltb (length r.es) r.space
    then some (record r {
      es = r.es ++ (e ∷ []);
      outstanding = if shared then r.outstanding + 1 else r.outstanding;
    })
    else none

unfoldable pub add_all : Distribute → List (Handle × Bool) → Option Distribute
add_all d [] = some d
add_all d ((e, shared) ∷ es) = elim (add d e shared) [ none ↦ none | some n ↦ add_all n es ]

-- `clear_hook`: the rendezvous, and whether it is deleted
unfoldable pub any_active : World → List Handle → Option Bool
any_active w [] = some false
any_active w (h ∷ hs) = elim (active w h) [
  | none ↦ none
  | some true ↦ some true
  | some false ↦ any_active w hs
]

unfoldable pub clear_hook : World → Distribute → Option (Distribute × Bool)
unfolding any_active
clear_hook w d =
    let less = record d { outstanding = d.outstanding - 1 } in
    if d.outstanding - 1 == 0
    then elim (any_active w d.es) [ none ↦ none | some b ↦ some (less, not b) ]
    else some (less, false)

-- How often a function was called as a hook.
abbrev pub called : ℕ → List Call → ℕ
called f [] = 0
called f (hooked g ∷ cs) = (if f == g then 1 else 0) + called f cs
called f (notified r x values ∷ cs) = called f cs

module _ {ℓ} {A : Type ℓ} where
  -- One of the three loops of `hook`: what is left of the children, and the events and values behind it.
  unfoldable pub each_child :
      (Handle → Memory A → Option (Handle × Memory A))
      → List Handle
      → Memory A
      → Option (List Handle × Memory A)
  each_child act [] m = some ([], m)
  each_child act (h ∷ hs) m = elim (act h m) [
    | none ↦ none
    | some (k, n) ↦ elim (each_child act hs n) [ none ↦ none | some (ks, p) ↦ some (k ∷ ks, p) ]
  ]

  unfoldable pub trigger_child : ℕ → List ℕ → Handle → Memory A → Option (Handle × Memory A)
  trigger_child fuel vs h m = trigger fuel h (values_at m.values vs) m

  unfoldable pub drop_child : ℕ → Handle → Memory A → Option (Handle × Memory A)
  drop_child fuel h m = elim (unuse_event fuel m.world h.se) [
    | none ↦ none
    | some u ↦ some (no_event h.slots, record { world = u; values = m.values })
  ]

  -- `hook`, where `unused` is whether the event of the rendezvous has no reference left, and `f` is the number of
  -- the `clear_hook` of this rendezvous; the last part is whether the rendezvous is deleted. The function of a
  -- functional or distribute rendezvous on which a child waits is recorded as a call: what it does in turn to the
  -- events, the program's own functions or another `hook`, are further steps.
  unfoldable pub hook :
      ℕ → ℕ → Bool → Bool → Distribute → Memory A → Option (Distribute × Memory A × Bool)
  unfolding each_child
  hook fuel f values unused d m =
      elim (if values
        then each_child (trigger_child fuel d.vs) d.es m
        else if not unused
        then each_child (unblock fuel) d.es m
        else each_child (drop_child fuel) d.es m) [
          | none ↦ none
          | some (hs, n) ↦
              let cleared = called f n.world.calls - called f m.world.calls in
              let left = d.outstanding + 1 - cleared - 1 in
              some (record d { es = hs; outstanding = left }, n, left == 0)
        ]
