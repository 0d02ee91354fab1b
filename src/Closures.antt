-- ===== src/Closures.antt =====
-- `simple_driver`, `blocking_rendezvous` and the part of `closure` that they use, in tamer/xbase.hh and
-- tamer/xbase.cc: the slots of the closures that are blocked, and the queue of those that are to run on.
-- A closure and a rendezvous are numbers.
pub mod Slots
pub mod Queue
pub mod Adding
pub mod Running
pub mod Blocking
mod Tests
use tamer.Prelude.{
  ℕ, zero, suc, ◌+◌, ◌-◌, ◌^◌, Bool, true, false, not, ◌&&◌, ◌||◌, List, [], ◌∷◌, ◌++◌, Option,
  none, some, ltb, leb, ◌==◌, if◌then◌else◌, store, mul32,
}

-- `cptr`
pub record Slot : Type 0 where
  pub c : Option ℕ
  pub next : ℕ

-- `index` is `tamer_driver_index_` of each closure.
pub record SimpleDriver : Type 0 where
  pub ccap : ℕ
  pub cfree : ℕ
  pub cunblocked : ℕ
  pub cunblocked_tail : ℕ
  pub cs : ℕ → Slot
  pub index : ℕ → ℕ

abbrev pub is_none : Option ℕ → Bool
is_none none = true
is_none (some x) = false

-- The contents of the old array are copied; the new slots are tied together.
unfoldable pub grow : SimpleDriver → SimpleDriver
grow d =
    let new_ccap = if d.ccap == 0 then 64 else mul32 d.ccap 2 in
    record d {
      ccap = new_ccap;
      cfree = if d.ccap == 0 then 1 else d.ccap;
      cs = λ i.
          if ltb i d.ccap
          then d.cs i
          else record { c = none; next = if i == new_ccap - 1 then 0 else i + 1 };
    }

-- the constructor
unfoldable pub initial : SimpleDriver
unfolding grow
initial = grow (record {
  ccap = 0;
  cfree = 1;
  cunblocked = 0;
  cunblocked_tail = 0;
  cs = λ _. record { c = none; next = 0 };
  index = λ _. 0;
})

unfoldable pub take_slot : SimpleDriver → ℕ → SimpleDriver
take_slot d c =
    let i = d.cfree in
    record d {
      cfree = (d.cs i).next;
      cs = store d.cs i (record { c = some c; next = 0 });
      index = store d.index c i;
    }

unfoldable pub add : SimpleDriver → ℕ → SimpleDriver
unfolding grow take_slot
add d c = if d.cfree == 0 then take_slot (grow d) c else take_slot d c

-- `notrace` is TAMER_NOTRACE.
unfoldable pub add_blocked : Bool → SimpleDriver → ℕ → SimpleDriver
unfolding add
add_blocked notrace d c = if notrace then record d { index = store d.index c 0 } else add d c

unfoldable pub link : SimpleDriver → ℕ → SimpleDriver
link d i = record d {
  cs =
      if d.cunblocked == 0
      then d.cs
      else store d.cs d.cunblocked_tail (record { c = (d.cs d.cunblocked_tail).c; next = i });
  cunblocked = if d.cunblocked == 0 then i else d.cunblocked;
  cunblocked_tail = i;
}

unfoldable pub make_unblocked : SimpleDriver → ℕ → SimpleDriver
unfolding add link
make_unblocked d c =
    if d.index c == 0 then link (add d c) ((add d c).index c) else link d (d.index c)

-- One slot goes from the queue to the free ones.
unfoldable pub free_first : SimpleDriver → SimpleDriver
free_first d =
    let i = d.cunblocked in
    record d {
      cunblocked = (d.cs i).next;
      cs = store d.cs i (record { c = none; next = d.cfree });
      cfree = i;
    }

-- The loop of `has_unblocked`, which frees the slots at the head of the queue that have no closure; `none`
-- if the fuel runs out.
unfoldable pub skip_empty : ℕ → SimpleDriver → Option SimpleDriver
unfolding free_first
skip_empty zero d = none
skip_empty (suc fuel) d =
    let rest = skip_empty fuel (free_first d) in
    if not (d.cunblocked == 0) && is_none (d.cs d.cunblocked).c then rest else some d

unfoldable pub has_unblocked : ℕ → SimpleDriver → Option (Bool × SimpleDriver)
unfolding skip_empty
has_unblocked fuel d = elim (skip_empty fuel d) [
  | none ↦ none
  | some e ↦ some (not (e.cunblocked == 0), e)
]

unfoldable pub pop_unblocked : ℕ → SimpleDriver → Option (Option ℕ × SimpleDriver)
unfolding has_unblocked free_first
pop_unblocked fuel d = elim (has_unblocked fuel d) [
  | none ↦ none
  | some (more, e) ↦
      some (if more then (e.cs e.cunblocked).c else none, if more then free_first e else e)
]
