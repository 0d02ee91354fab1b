-- ===== src/Closures/Blocking.antt =====
-- `block` and `unblock` of `blocking_rendezvous`, `hard_free` and `unblock` of `closure`: a rendezvous knows
-- the closure that it blocks, and a closure the driver that it waits for.
pub mod Laws
use tamer.Prelude.{
  ℕ, zero, suc, ◌+◌, ◌-◌, ◌^◌, ◌<◌, ◌≡◌, ◌≢◌, refl, sym, ap, subst, ◌∙◌, ◌⊎◌, inl, inr, Bool, true,
  false, List, [], ◌∷◌, ◌++◌, Option, none, some, arith, ◌==◌, if◌then◌else◌, store, Option-cases,
  Bool-cases,
}
use tamer.Closures.{SimpleDriver, add_blocked, make_unblocked, initial}
use tamer.Closures.Queue
use tamer.Closures.Queue.{Held, closures}
use tamer.Closures.Adding.{Added, add_lem}
use tamer.Closures.Running.{Queued, make_unblocked_lem}

-- `tamer_blocked_driver_`: the driver, or `immediate_driver`, which runs the closure at once
pub data Target : Type 0 where
  loop : Target
  immediate : Target

pub record Closure : Type 0 where
  pub block_position : ℕ
  pub blocked_driver : Option Target

-- `blocked_closure` is `blocked_closure_` of each rendezvous; `ran` are the closures run at once.
pub record Program : Type 0 where
  pub driver : SimpleDriver
  pub closure : ℕ → Closure
  pub blocked_closure : ℕ → Option ℕ
  pub ran : List ℕ

-- `none` is the failed assertion.
unfoldable pub block : Bool → Program → ℕ → ℕ → ℕ → Option Program
block notrace p r c position = elim (p.closure c).blocked_driver [
  | some t ↦ none
  | none ↦ some (record p {
    blocked_closure = store p.blocked_closure r (some c);
    closure = store p.closure c (record { block_position = position; blocked_driver = some loop });
    driver = add_blocked notrace p.driver c;
  })
]

-- `closure::unblock`
unfoldable pub run_on : Program → ℕ → Program
run_on p c =
    let freed =
      store p.closure c
        (record { block_position = (p.closure c).block_position; blocked_driver = none }) in
    elim (p.closure c).blocked_driver [
      | none ↦ p
      | some loop ↦ record p { closure = freed; driver = make_unblocked p.driver c }
      | some immediate ↦ record p { closure = freed; ran = p.ran ++ (c ∷ []) }
    ]

-- `blocking_rendezvous::unblock`
unfoldable pub unblock : Program → ℕ → Program
unfolding run_on
unblock p r = elim (p.blocked_closure r) [
  | none ↦ p
  | some c ↦ run_on (record p { blocked_closure = store p.blocked_closure r none }) c
]

-- the destructor, with `hard_free`
unfoldable pub free : Program → ℕ → Program
unfolding run_on
free p r = elim (p.blocked_closure r) [
  | none ↦ p
  | some c ↦
      run_on
        (record p {
          closure = store p.closure c (record {
            block_position = 2 ^ 32 - 1;
            blocked_driver = (p.closure c).blocked_driver;
          });
        })
        c
]
