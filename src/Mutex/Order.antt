-- ===== src/Mutex/Order.antt =====
-- The lock is handed out in the order of the calls, and a free lock does not stay idle.
use tamer.Prelude.{
  ℕ, ◌≡◌, refl, sym, subst, inl, inr, Bool, true, false, List, [], ◌∷◌, some, arith, ◌==◌, length,
  if◌then◌else◌, Bool-cases, Option-cases,
}
use tamer.Prelude.Int.{ℤ, pos}
use tamer.Mutex.{
  Wait, Mutex, available, granted, quiet, acquire, wake_first, find, remove, run_on, resume,
}
use tamer.Mutex.Inv.{IsValid, Behind-found}

-- A call that gets the lock at once found nobody waiting.
pub acquire_first :
    (m : Mutex) (id : ℕ) (shared live : Bool)
    → (acquire m id shared live).0 ≡ granted
    → (m.waits ≡ []) × (available shared m.locked ≡ true) × (live ≡ true)
unfolding acquire
acquire_first m id shared live e = ground arith

run_on_dead : (m : Mutex) (id : ℕ) (w : Wait) → w.live ≡ false → (run_on m id w).0 ≡ quiet
unfolding run_on
run_on_dead m id w e = ground arith

resume_first_at :
    (locked : ℤ) (ws : List Wait) (id : ℕ) {m' : Mutex}
    → IsValid (record { locked = locked; waits = ws })
    → resume (record { locked = locked; waits = ws }) id ≡ some (granted, m')
    → (w : Wait) × (rest : List Wait) × (ws ≡ w ∷ rest)
      × (w.id ≡ id)
      × (w.live ≡ true)
      × (available w.shared locked ≡ true)
unfolding resume
resume_first_at locked [] id v e = cc
resume_first_at locked (w ∷ ws) id {m'} v e = elim (Bool-cases (w.id == id)) [
  | inl first ↦
      (w, ws, refl, ground arith, unfold run_on in ground arith, unfold run_on in ground arith)
  | inr behind ↦ elim (Option-cases (find id ws)) [
    | inl gone ↦ absurd (ground arith)
    | inr (u, found) ↦ absurd (
        ground (
          arith,
          run_on_dead (record { locked = locked; waits = w ∷ ws }) id u,
          Behind-found id ws u v.1 found,
        ))
  ]
]

-- A waiting call that gets the lock was the first in the queue, still wanted it, and could have it.
pub resume_first :
    (m : Mutex) (id : ℕ) {m' : Mutex}
    → IsValid m
    → resume m id ≡ some (granted, m')
    → (w : Wait) × (rest : List Wait) × (m.waits ≡ w ∷ rest)
      × (w.id ≡ id)
      × (w.live ≡ true)
      × (available w.shared m.locked ≡ true)
resume_first m id v e = resume_first_at m.locked m.waits id v e

length-wake_first : (ws : List Wait) → length (wake_first ws) ≡ length ws
length-wake_first [] = refl
length-wake_first (w ∷ ws) = refl

abbrev Served : Wait → List Wait → Mutex → Type 0
Served w ws m =
    (w.ready ≡ true)
    × ((m' : Mutex) × (resume m w.id ≡ some (if w.live then granted else quiet, m'))
        × (length m'.waits ≡ length ws))

abbrev freed : Wait → List Wait → Mutex
freed w ws = record { locked = pos 0; waits = w ∷ ws }

free_available : (shared : Bool) → available shared (pos 0) ≡ true
free_available true = refl
free_available false = refl

Served-freed : (w : Wait) (ws : List Wait) → IsValid (freed w ws) → Served w ws (freed w ws)
unfolding resume run_on remove
Served-freed w ws v = (
  ground (arith, free_available w.shared),
  (
    (run_on (freed w ws) w.id w).1,
    ground (arith, free_available w.shared),
    ground (arith, free_available w.shared, length-wake_first ws),
  ),
)

-- With the lock free, the first of the waiting calls is about to run on; when it does, it leaves the
-- queue, with the lock if it still wants it.
pub free_lock_served :
    (m : Mutex) (w : Wait) (ws : List Wait)
    → IsValid m
    → m.locked ≡ pos 0
    → m.waits ≡ w ∷ ws
    → (w.ready ≡ true)
      × ((m' : Mutex) × (resume m w.id ≡ some (if w.live then granted else quiet, m'))
          × (length m'.waits ≡ length ws))
free_lock_served m w ws v free e =
    let path : m ≡ freed w ws = λ i. record { locked = free i; waits = e i } in
    subst (λ q. IsValid q → Served w ws q) (sym path) (Served-freed w ws) v
