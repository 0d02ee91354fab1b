-- ===== src/Refs.antt =====
-- `enable_ref_ptr`, `ref_ptr` and `passive_ref_ptr` of tamer/ref.hh: objects with a count of references and
-- one of passive references, and the pointer variables of a program. An object is a number.
pub mod Balance
pub mod Apply
pub mod Monitors
pub mod Pointers
mod Tests
use tamer.Prelude.{
  ℕ, zero, suc, ◌+◌, ◌-◌, ◌^◌, Bool, true, false, not, ◌&&◌, ◌||◌, List, [], ◌∷◌, ◌++◌, Option,
  none, some, ltb, leb, ◌==◌, if◌then◌else◌, store, add32, sub32, get_or, set,
}

-- `enable_ref_ptr`
pub record Counts : Type 0 where
  pub use_count : ℕ
  pub weak_count : ℕ

abbrev pub fresh : Counts
fresh = record { use_count = 1; weak_count = 0 }

-- The objects that are there.
abbrev pub Objects : Type 0
Objects = ℕ → Option Counts

-- The counts of an object, put back; an object with `delete` is gone.
abbrev pub put : Objects → ℕ → Bool → Counts → Objects
put objs t del c = store objs t (if del then none else some c)

unfoldable pub add_ref_copy : Counts → Counts
add_ref_copy c = record c { use_count = add32 c.use_count 1 }

unfoldable pub weak_add_ref : Counts → Counts
weak_add_ref c = record c { weak_count = add32 c.weak_count 1 }

-- `release`: whether the object is to be deleted, and its counts; `none` is the failed assertion
unfoldable pub release : Counts → Option (Bool × Counts)
release c =
    let less = sub32 c.use_count 1 in
    if c.use_count == 0
    then none
    else some (less == 0 && c.weak_count == 0, record c { use_count = less })

unfoldable pub weak_release : Counts → Option (Bool × Counts)
weak_release c =
    let less = sub32 c.weak_count 1 in
    if c.weak_count == 0
    then none
    else some (less == 0 && c.use_count == 0, record c { weak_count = less })

-- `if (_t) _t->add_ref_copy();`; `none` is an access to an object that is gone
unfoldable pub acquire : Objects → Option ℕ → Option Objects
unfolding add_ref_copy
acquire objs none = some objs
acquire objs (some t) = elim (objs t) [
  | none ↦ none
  | some c ↦ some (store objs t (some (add_ref_copy c)))
]

unfoldable pub weak_acquire : Objects → Option ℕ → Option Objects
unfolding weak_add_ref
weak_acquire objs none = some objs
weak_acquire objs (some t) = elim (objs t) [
  | none ↦ none
  | some c ↦ some (store objs t (some (weak_add_ref c)))
]

-- `if (_t && _t->release()) delete _t;`
unfoldable pub drop : Objects → Option ℕ → Option Objects
unfolding release
drop objs none = some objs
drop objs (some t) = elim (objs t) [
  | none ↦ none
  | some c ↦ elim (release c) [ none ↦ none | some (del, d) ↦ some (put objs t del d) ]
]

unfoldable pub weak_drop : Objects → Option ℕ → Option Objects
unfolding weak_release
weak_drop objs none = some objs
weak_drop objs (some t) = elim (objs t) [
  | none ↦ none
  | some c ↦ elim (weak_release c) [ none ↦ none | some (del, d) ↦ some (put objs t del d) ]
]

-- The objects, the `ref_ptr` variables and the `passive_ref_ptr` variables of a program.
pub record Memory : Type 0 where
  pub objs : Objects
  pub refs : List (Option ℕ)
  pub passive : List (Option ℕ)

abbrev pub at : List (Option ℕ) → ℕ → Option ℕ
at ps i = get_or ps i none

unfoldable pub remove : List (Option ℕ) → ℕ → List (Option ℕ)
remove [] i = []
remove (p ∷ ps) zero = ps
remove (p ∷ ps) (suc i) = p ∷ remove ps i

-- The constructors, assignments and destructors, with the numbers of the variables they work on. `make`
-- is `ref_ptr(new T)`, for a number that no object has.
pub data Op : Type 0 where
  make : ℕ → Op
  copy : ℕ → Op
  move : ℕ → Op
  assign : ℕ → ℕ → Op
  swap : ℕ → ℕ → Op
  destroy : ℕ → Op
  watch : ℕ → Op
  copy_passive : ℕ → Op
  move_passive : ℕ → Op
  assign_passive : ℕ → ℕ → Op
  swap_passive : ℕ → ℕ → Op
  destroy_passive : ℕ → Op

abbrev pub exchange : List (Option ℕ) → ℕ → ℕ → List (Option ℕ)
exchange ps i j = set (set ps i (at ps j)) j (at ps i)

unfoldable pub with_objs : Option Objects → (Objects → Option Memory) → Option Memory
with_objs none k = none
with_objs (some objs) k = k objs

unfoldable pub apply : Memory → Op → Option Memory
unfolding acquire weak_acquire drop weak_drop with_objs remove
apply m (make t) =
    some (record m { objs = store m.objs t (some fresh); refs = m.refs ++ (some t ∷ []) })
apply m (copy i) =
    with_objs (acquire m.objs (at m.refs i))
      (λ o. some (record m { objs = o; refs = m.refs ++ (at m.refs i ∷ []) }))
apply m (move i) = some (record m { refs = set m.refs i none ++ (at m.refs i ∷ []) })
apply m (assign i j) = with_objs (acquire m.objs (at m.refs j)) (λ o.
    with_objs (drop o (at m.refs i))
      (λ q. some (record m { objs = q; refs = set m.refs i (at m.refs j) })))
apply m (swap i j) = some (record m { refs = exchange m.refs i j })
apply m (destroy i) =
    with_objs (drop m.objs (at m.refs i))
      (λ o. some (record m { objs = o; refs = remove m.refs i }))
apply m (watch i) =
    with_objs (weak_acquire m.objs (at m.refs i))
      (λ o. some (record m { objs = o; passive = m.passive ++ (at m.refs i ∷ []) }))
apply m (copy_passive i) =
    with_objs (weak_acquire m.objs (at m.passive i))
      (λ o. some (record m { objs = o; passive = m.passive ++ (at m.passive i ∷ []) }))
apply m (move_passive i) =
    some (record m { passive = set m.passive i none ++ (at m.passive i ∷ []) })
apply m (assign_passive i j) = with_objs (weak_acquire m.objs (at m.passive j)) (λ o.
    with_objs (weak_drop o (at m.passive i))
      (λ q. some (record m { objs = q; passive = set m.passive i (at m.passive j) })))
apply m (swap_passive i j) = some (record m { passive = exchange m.passive i j })
apply m (destroy_passive i) =
    with_objs (weak_drop m.objs (at m.passive i))
      (λ o. some (record m { objs = o; passive = remove m.passive i }))
