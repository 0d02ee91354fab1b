-- ===== src/Driver/PollFds/Laws.antt =====
-- `xpollfds` is a map from descriptors to events.
use tamer.Prelude.{
  ℕ, ◌+◌, ◌-◌, ◌≤◌, ◌<◌, ◌≡◌, ◌≢◌, refl, sym, ap, subst, ◌∙◌, true, not, ◌||◌, arith, leb, ◌==◌,
  if◌then◌else◌, if_intro,
}
use Prim.Native.Nat.{bit_or}
use tamer.Prelude.Or.{bit_or-ones}
use tamer.Driver.PollFds.{
  PollFds, initial, events, grow_map, grow_pfds, add, remove, replace, set_events,
}

-- Slots and map are inverse, every slot in use has events, and both arrays have room.
pub record IsValid (p : PollFds) : Type 0 where
  pub slot :
      (i : ℕ)
      → i < p.npfds
      → (p.fdmap (p.pfds i).fd ≡ i + 1) × ((p.pfds i).fd < p.nfdmap) × ((p.pfds i).events ≢ 0)
  pub mapped :
      (fd : ℕ)
      → fd < p.nfdmap
      → p.fdmap fd ≢ 0
      → (p.fdmap fd ≤ p.npfds) × ((p.pfds (p.fdmap fd - 1)).fd ≡ fd)
  pub room : p.npfds ≤ p.pfdcap
  pub some_room : 0 < p.pfdcap

Sets : PollFds → ℕ → ℕ → PollFds → Type 0
Sets p fd e q = IsValid q × ((g : ℕ) → events q g ≡ (if g == fd then e else events p g))

map_room : (fd : ℕ) → fd < bit_or fd 0xFFF + 1
map_room fd = omega (arith, bit_or-ones 12 fd)

grow_map-IsValid :
    (p : PollFds) (fd : ℕ)
    → IsValid p
    → IsValid (grow_map p fd)
      × (fd < (grow_map p fd).nfdmap)
      × ((g : ℕ) → events (grow_map p fd) g ≡ events p g)
unfolding grow_map events
grow_map-IsValid p fd v = (
  record {
    slot = λ i lt. let s = v.slot i lt in ground (arith, map_room fd);
    mapped = λ g lt ne. ground (arith, v.mapped g);
    room = v.room;
    some_room = v.some_room;
  },
  ground (arith, map_room fd),
  λ g. ground (arith, map_room fd),
)

grow_pfds-IsValid :
    (p : PollFds) → IsValid p → IsValid (grow_pfds p) × ((grow_pfds p).npfds < (grow_pfds p).pfdcap)
unfolding grow_pfds
grow_pfds-IsValid p v = (
  record {
    slot = v.slot;
    mapped = v.mapped;
    room = ground (arith, v.room);
    some_room = ground (arith, v.some_room);
  },
  ground (arith, v.room, v.some_room),
)

add-Sets :
    (p : PollFds) (fd e : ℕ)
    → IsValid p
    → fd < p.nfdmap
    → p.fdmap fd ≡ 0
    → p.npfds < p.pfdcap
    → e ≢ 0
    → Sets p fd e (add p fd e)
unfolding Sets add events
add-Sets p fd e v lt z room ne = (
  record {
    slot = λ i h. ground (arith, v.slot i);
    mapped = λ g h n. ground (arith, v.mapped g);
    room = omega arith;
    some_room = v.some_room;
  },
  λ g. ground (arith, v.mapped g),
)

replace-Sets :
    (p : PollFds) (fd e : ℕ)
    → IsValid p
    → fd < p.nfdmap
    → p.fdmap fd ≢ 0
    → e ≢ 0
    → Sets p fd e (replace p fd e)
unfolding Sets replace events
replace-Sets p fd e v lt z ne = (
  record {
    slot = λ i h. ground (arith, v.slot i, v.mapped fd);
    mapped = λ g h n. ground (arith, v.mapped g, v.mapped fd);
    room = v.room;
    some_room = v.some_room;
  },
  λ g. ground (arith, v.mapped g, v.mapped fd),
)

remove-Sets :
    (p : PollFds) (fd : ℕ) → IsValid p → fd < p.nfdmap → p.fdmap fd ≢ 0 → Sets p fd 0 (remove p fd)
unfolding Sets remove events
remove-Sets p fd v lt z = (
  record {
    slot = λ i h. ground (arith, v.slot i, v.slot (p.npfds - 1), v.mapped fd);
    mapped = λ g h n. ground (arith, v.mapped g, v.mapped fd, v.slot (p.npfds - 1));
    room = ground (arith, v.room);
    some_room = v.some_room;
  },
  λ g. ground (arith, v.mapped g, v.mapped fd, v.slot (p.npfds - 1)),
)

Sets-same :
    (p q : PollFds) (fd e : ℕ) (r : PollFds)
    → ((g : ℕ) → events q g ≡ events p g)
    → Sets q fd e r
    → Sets p fd e r
unfolding Sets
Sets-same p q fd e r same (v, s) = (v, λ g. s g ∙ ap (λ t. if g == fd then e else t) (same g))

Sets-none : (p : PollFds) (fd e : ℕ) → IsValid p → events p fd ≡ 0 → e ≡ 0 → Sets p fd e p
unfolding Sets
Sets-none p fd e v z ez = (v, λ g. ground (arith))

grow_pfds-events : (p : PollFds) (g : ℕ) → events (grow_pfds p) g ≡ events p g
unfolding events grow_pfds
grow_pfds-events p g = refl

unmapped :
    (p : PollFds) (fd : ℕ)
    → leb p.nfdmap fd || p.fdmap fd == 0 ≡ true
    → ((grow_pfds (grow_map p fd)).fdmap fd ≡ 0)
unfolding grow_pfds grow_map
unmapped p fd absent = ground arith

grown_room :
    (p : PollFds) (fd : ℕ) → fd < (grow_map p fd).nfdmap → fd < (grow_pfds (grow_map p fd)).nfdmap
unfolding grow_pfds
grown_room p fd lt = lt

Sets-add :
    (p : PollFds) (fd e : ℕ)
    → IsValid p
    → leb p.nfdmap fd || p.fdmap fd == 0 ≡ true
    → e ≢ 0
    → Sets p fd e (add (grow_pfds (grow_map p fd)) fd e)
Sets-add p fd e v absent ne =
    let (w, lt, same) = grow_map-IsValid p fd v in
    let (x, room) = grow_pfds-IsValid (grow_map p fd) w in
    Sets-same p (grow_pfds (grow_map p fd)) fd e _
      (λ g. grow_pfds-events (grow_map p fd) g ∙ same g)
      (add-Sets (grow_pfds (grow_map p fd)) fd e x (grown_room p fd lt) (unmapped p fd absent) room
        ne)

-- `set_events` keeps the arrays in order, whether it adds, replaces, removes or has nothing to do, and
-- afterwards `events` gives the new events for that descriptor and the old ones for every other.
pub set_events_lem :
    (p : PollFds) (fd e : ℕ)
    → IsValid p
    → IsValid (set_events p fd e)
      × ((g : ℕ) → events (set_events p fd e) g ≡ (if g == fd then e else events p g))
unfolding set_events Sets
set_events_lem p fd e v =
    if_intro (Sets p fd e) (leb p.nfdmap fd || p.fdmap fd == 0) _ _
      (λ absent.
        if_intro (Sets p fd e) (e == 0) _ _
          (λ z. Sets-none p fd e v (unfold events in ground arith) (ground arith))
          (λ ne. Sets-add p fd e v absent (ground arith)))
      (λ here.
        if_intro (Sets p fd e) (not (e == 0)) _ _
          (λ ne. replace-Sets p fd e v (ground arith) (ground arith) (ground arith))
          (λ z.
            let zero_e : e ≡ 0 = ground arith in
            subst (λ k. Sets p fd k (remove p fd)) (sym zero_e)
              (remove-Sets p fd v (ground arith) (ground arith))))

pub initial-IsValid : IsValid initial
initial-IsValid = record {
  slot = λ i h. absurd (omega arith);
  mapped = λ fd h ne. absurd (ne refl);
  room = omega arith;
  some_room = omega arith;
}
