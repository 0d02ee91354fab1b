-- ===== src/Timers.antt =====
-- `driver_timerset` of tamer/dinternal.hh and tamer/dinternal.cc: the timers of a driver, as a heap
-- with four children to a node. An event is known by a number, and whether it is still active is a
-- function of that number, since triggers elsewhere in the program change it.
pub mod Rank
pub mod Order
pub mod Sift
pub mod Total
pub mod Cull
pub mod Push
mod Tests
use tamer.Prelude.{
  ℕ, zero, suc, ◌+◌, ◌-◌, ◌*◌, ◌/◌, ◌%◌, ◌^◌, Bool, true, false, not, ◌&&◌, ◌||◌, List, [], ◌∷◌,
  Option, none, some, ltb, leb, ◌==◌, if◌then◌else◌, word32, add32, sub32, mul32, store,
}

-- `trec`; `tv_sec` and `tv_usec` are not negative here
pub record Trec : Type 0 where
  pub sec : ℕ
  pub usec : ℕ
  pub order : ℕ
  pub se : ℕ

-- `nts_ ≤ tcap_`, and only the slots below `nts_` are in use
pub record TimerSet : Type 0 where
  pub ts : ℕ → Trec
  pub nts : ℕ
  pub nfg : ℕ
  pub rand : ℕ
  pub tcap : ℕ
  pub order : ℕ

abbrev pub blank : Trec
blank = record { sec = 0; usec = 0; order = 0; se = 0 }

abbrev pub initial : TimerSet
initial = record { ts = λ _. blank; nts = 0; nfg = 0; rand = 8173; tcap = 0; order = 0 }

abbrev pub arity : ℕ
arity = 4

abbrev pub of_bool : Bool → ℕ
of_bool true = 1
of_bool false = 0

-- `trec::operator<`; `(int) d < 0` is `2^31 ≤ d` for an unsigned `d`
unfoldable pub before : Trec → Trec → Bool
before x y =
    ltb x.sec y.sec
    || (x.sec == y.sec
        && (ltb x.usec y.usec || (x.usec == y.usec && leb (2 ^ 31) (sub32 x.order y.order))))

abbrev pub heap_parent : ℕ → ℕ
heap_parent i = (i - of_bool (arity == 2)) / arity

abbrev pub heap_first_child : ℕ → ℕ
heap_first_child i = i * arity + of_bool (arity == 2 || i == 0)

abbrev pub heap_last_child : ℕ → ℕ → ℕ
heap_last_child nts i =
    let p = i * arity + arity + of_bool (arity == 2) in if ltb p nts then p else nts

-- `std::swap(a[i], a[j])`
abbrev pub swap {ℓ} : {A : Type ℓ} → (ℕ → A) → ℕ → ℕ → ℕ → A
swap a i j = store (store a i (a j)) j (a i)

-- The heap loop of `push`. The index falls in each round, so that many rounds are enough.
unfoldable pub sift_up : ℕ → (ℕ → Trec) → ℕ → ℕ → Trec
sift_up zero ts pos = ts
sift_up (suc fuel) ts pos =
    let p = heap_parent pos in
    let rest = sift_up fuel (swap ts pos p) p in
    if pos == 0 then ts else if not (before (ts pos) (ts p)) then ts else rest

-- The inner loop of `hard_cull`: `n` children from `t` on are left to compare.
unfoldable pub smallest_child : (ℕ → Trec) → ℕ → ℕ → ℕ → ℕ
smallest_child ts zero t smallest = smallest
smallest_child ts (suc n) t smallest =
    smallest_child ts n (t + 1) (if before (ts t) (ts smallest) then t else smallest)

abbrev pub smallest_of : ℕ → (ℕ → Trec) → ℕ → ℕ
smallest_of nts ts pos =
    smallest_child ts (heap_last_child nts pos - heap_first_child pos) (heap_first_child pos) pos

-- The loop of `hard_cull` towards the leaves. The index grows in each round and stays below `nts_`.
unfoldable pub sift_down : ℕ → ℕ → (ℕ → Trec) → ℕ → ℕ → Trec
sift_down zero nts ts pos = ts
sift_down (suc fuel) nts ts pos =
    let smallest = smallest_of nts ts pos in
    let rest = sift_down fuel nts (swap ts pos smallest) smallest in
    if smallest == pos then ts else rest

-- The `do … while` loop of `hard_cull` towards the root.
unfoldable pub raise : ℕ → (ℕ → Trec) → ℕ → ℕ → Trec
raise zero ts pos = ts
raise (suc fuel) ts pos =
    let p = heap_parent pos in
    let moved = swap ts pos p in
    let rest = raise fuel moved p in
    if not (p == 0) && before (moved p) (moved (heap_parent p)) then rest else moved

-- What becomes of the event of a removed record.
pub data Effect : Type 0 where
  trigger : ℕ → Effect
  clean : ℕ → Effect

-- `hard_cull` from `--nts_` on; `pos` is the slot to remove, `n` the new `nts_`.
unfoldable pub remove_slot : TimerSet → ℕ → ℕ → TimerSet
remove_slot s n pos =
    let ts = swap s.ts n pos in
    let sunk = sift_down n n ts pos in
    let raised = raise pos ts pos in
    let fewer = record s { nts = n; nfg = sub32 s.nfg ((s.ts pos).order % 2) } in
    if n == pos
    then fewer
    else if pos == 0 || not (before (ts pos) (ts (heap_parent pos)))
    then record fewer { ts = sunk }
    else record fewer { ts = raised }

-- `hard_cull(pos)`; `none` is the failed assertion `nts_ != 0`
unfoldable pub hard_cull : TimerSet → ℕ → Option (Effect × TimerSet)
hard_cull s pos =
    if s.nts == 0
    then none
    else if pos == 2 ^ 32 - 1
    then some (trigger (s.ts 0).se, remove_slot s (s.nts - 1) 0)
    else some (clean (s.ts pos).se, remove_slot s (s.nts - 1) pos)

unfoldable pub pop_trigger : TimerSet → Option (Effect × TimerSet)
pop_trigger s = hard_cull s (2 ^ 32 - 1)

-- `cull()`: the removed events, and the set that is left; `none` if the fuel runs out
unfoldable pub cull : ℕ → (ℕ → Bool) → TimerSet → Option (List Effect × TimerSet)
cull zero is_empty s = none
cull (suc fuel) is_empty s = elim (not (s.nts == 0) && is_empty (s.ts 0).se) [
  | Bool.false ↦ some ([], s)
  | Bool.true ↦ elim (hard_cull s 0) [
    | none ↦ none
    | some (e, s') ↦ elim (cull fuel is_empty s') [ none ↦ none | some (es, u) ↦ some (e ∷ es, u) ]
  ]
]

unfoldable pub expand : TimerSet → TimerSet
expand s = record s {
  ts = λ i. if ltb i s.nts then s.ts i else blank;
  tcap = if s.tcap == 0 then 31 else add32 (mul32 s.tcap 4) 3;
}

-- `push` up to the end of its heap loop
unfoldable pub insert : TimerSet → ℕ → ℕ → ℕ → Bool → TimerSet
insert s sec usec se bg =
    let t = if s.nts == s.tcap then expand s else s in
    let order = add32 s.order 2 in
    let rec : Trec = record {
      sec = sec;
      usec = usec;
      order = add32 order (of_bool (not bg));
      se = se;
    } in
    record t {
      ts = sift_up s.nts (store t.ts s.nts rec) s.nts;
      order = order;
      nts = add32 s.nts 1;
      nfg = add32 s.nfg (of_bool (not bg));
    }

-- The loop at the end of `push`, which looks for dead timers at random places.
unfoldable pub thin : ℕ → (ℕ → Bool) → TimerSet → Option (List Effect × TimerSet)
thin zero is_empty s = none
thin (suc fuel) is_empty s =
    let pos = s.rand % s.nts in
    let next = record s { rand = add32 (mul32 s.rand 1664525) 1013904223 } in
    elim (leb 32 s.nts) [
      | Bool.false ↦ some ([], s)
      | Bool.true ↦ elim (is_empty (s.ts pos).se) [
        | Bool.false ↦ some ([], next)
        | Bool.true ↦ elim (hard_cull next pos) [
          | none ↦ none
          | some (e, s') ↦ elim (thin fuel is_empty s') [
            | none ↦ none
            | some (es, u) ↦ some (e ∷ es, u)
          ]
        ]
      ]
    ]

-- `push`; `none` is the failed assertion on an event that is no longer active
unfoldable pub push : (ℕ → Bool) → TimerSet → ℕ → ℕ → ℕ → Bool → Option (List Effect × TimerSet)
push is_empty s sec usec se bg =
    if is_empty se then none else thin (suc (suc s.nts)) is_empty (insert s sec usec se bg)
