-- ===== src/AsapSet.antt =====
-- `driver_asapset` of tamer/dinternal.hh and tamer/dinternal.cc: the ring of events that the driver
-- triggers at the next pass of its loop. An event is known by a number.
pub mod Window
pub mod Fifo
mod Tests
use tamer.Prelude.{
  ℕ, zero, suc, ◌-◌, ◌^◌, Bool, not, List, [], ◌∷◌, Option, none, some, ◌==◌, if◌then◌else◌,
  bit_and, word32, add32, sub32, mul32, store,
}

-- `ses_` is the array behind the pointer: `new simple_event*[capmask_ + 1]`.
pub record AsapSet : Type 0 where
  pub ses : ℕ → ℕ
  pub head : ℕ
  pub tail : ℕ
  pub capmask : ℕ

-- the member initialisers; no slot of the null array is read before `expand`
abbrev pub initial : AsapSet
initial = record { ses = λ _. 0; head = 0; tail = 0; capmask = 2 ^ 32 - 1 }

unfoldable pub empty : AsapSet → Bool
empty a = a.head == a.tail

-- for (unsigned x = head_; x != tail_; ++x, ++i) na[i] = ses_[x & capmask_];
-- the first argument counts the rounds that are left
unfoldable pub copy : ℕ → (ℕ → ℕ) → ℕ → ℕ → ℕ → (ℕ → ℕ) → ℕ → ℕ
copy zero ses mask x i na = na
copy (suc n) ses mask x i na =
    copy n ses mask (add32 x 1) (add32 i 1) (store na i (ses (bit_and x mask)))

unfoldable pub expand : AsapSet → AsapSet
unfolding copy
expand a =
    let count = sub32 a.tail a.head in
    let grown = if add32 a.capmask 1 == 0 then 31 else add32 (mul32 a.capmask 4) 3 in
    record {
      ses = copy count a.ses a.capmask a.head 0 (λ _. 0);
      head = 0;
      tail = count;
      capmask = grown;
    }

unfoldable pub append : AsapSet → ℕ → AsapSet
append a se = record a { ses = store a.ses (bit_and a.tail a.capmask) se; tail = add32 a.tail 1 }

unfoldable pub push : AsapSet → ℕ → AsapSet
unfolding append expand
push a se = if sub32 a.tail a.head == add32 a.capmask 1 then append (expand a) se else append a se

-- The event goes to `simple_trigger(false)`; `none` is the failed assertion.
unfoldable pub pop_trigger : AsapSet → Option (ℕ × AsapSet)
pop_trigger a =
    if a.head == a.tail
    then none
    else some (a.ses (bit_and a.head a.capmask), record a { head = add32 a.head 1 })

-- `while (!empty()) { unuse(...); ++head_; }` on fuel, with the events in the order of their `unuse`.
-- `none` means that the fuel ran out.
unfoldable pub clear_loop : ℕ → AsapSet → Option (List ℕ × AsapSet)
unfolding empty
clear_loop zero a = none
clear_loop (suc fuel) a = elim (empty a) [
  | Bool.true ↦ some ([], a)
  | Bool.false ↦ elim (clear_loop fuel (record a { head = add32 a.head 1 })) [
    | none ↦ none
    | some (gone, b) ↦ some (a.ses (bit_and a.head a.capmask) ∷ gone, b)
  ]
]

-- `head_` meets `tail_` after at most 2^32 - 1 rounds.
unfoldable pub clear : AsapSet → Option (List ℕ × AsapSet)
unfolding clear_loop
clear a = clear_loop (suc (sub32 a.tail a.head)) a
