-- ===== src/Mutex/Inv.antt =====
-- No wakeup is lost: what holds of the waiting calls after every step.
use tamer.Prelude.{
  ℕ, zero, suc, ◌≡◌, refl, ◌⊎◌, inl, inr, Bool, true, false, List, [], ◌∷◌, ◌++◌, some, arith, ◌==◌,
  Bool-cases, Option-cases,
}
use tamer.Prelude.Int.{ℤ, pos, negsuc, ◌+ℤ◌}
use tamer.Mutex.{
  Wait, Mutex, available, amount, Reply, acquire, wake_first, release, release_shared, find, remove,
  update, run_on, resume, cancel,
}

-- The first call is about to run on, or cannot have the lock and will be woken by the next release.
abbrev pub First : ℤ → Wait → Type 0
First locked w = (w.ready ≡ true) ⊎ ((w.armed ≡ true) × (available w.shared locked ≡ false))

-- A call behind the first has its event, and runs on only to leave.
abbrev pub Behind : Wait → Type 0
Behind w = (w.armed ≡ true) × (w.ready ≡ true → w.live ≡ false)

abbrev pub AllBehind : List Wait → Type 0
AllBehind [] = Unit
AllBehind (w ∷ ws) = Behind w × AllBehind ws

abbrev pub Queue : ℤ → List Wait → Type 0
Queue locked [] = Unit
Queue locked (w ∷ ws) = First locked w × AllBehind ws

abbrev pub IsValid : Mutex → Type 0
IsValid m = Queue m.locked m.waits

AllBehind-append :
    (ws : List Wait) (w : Wait) → AllBehind ws → Behind w → AllBehind (ws ++ (w ∷ []))
AllBehind-append [] w h b = (b, tt)
AllBehind-append (v ∷ ws) w h b = (h.0, AllBehind-append ws w h.1 b)

AllBehind-remove : (id : ℕ) (ws : List Wait) → AllBehind ws → AllBehind (remove id ws)
unfolding remove
AllBehind-remove id [] h = tt
AllBehind-remove id (w ∷ ws) h = ground (arith, AllBehind-remove id ws h.1)

-- After `wake` the first call is about to run on.
Queue-wake :
    (locked : ℤ) (w : Wait) (ws : List Wait)
    → ((w.armed ≡ true) ⊎ (w.ready ≡ true))
    → AllBehind ws
    → Queue locked (wake_first (w ∷ ws))
Queue-wake locked w ws e h = (ground arith, h)

abbrev at : ℤ → List Wait → Mutex
at locked ws = record { locked = locked; waits = ws }

acquire-at :
    (locked : ℤ) (ws : List Wait) (id : ℕ) (shared live : Bool)
    → Queue locked ws
    → IsValid (acquire (at locked ws) id shared live).1
unfolding acquire
acquire-at locked [] id shared live v = ground arith
acquire-at locked (w ∷ ws) id shared live v = ground (
  arith,
  AllBehind-append ws
      (record { id = id; shared = shared; live = true; armed = true; ready = false }),
)

-- After an exclusive grant nobody can have the lock.
exclusive_free : (locked : ℤ) → available false locked ≡ true → locked ≡ pos 0
exclusive_free (pos zero) e = refl
exclusive_free (pos (suc n)) e = cc
exclusive_free (negsuc n) e = cc

taken : (shared : Bool) → available shared (pos 0 +ℤ negsuc 0) ≡ false
unfolding ◌+ℤ◌
taken true = refl
taken false = refl

wake-IsValid :
    (locked locked' : ℤ) (ws : List Wait) → Queue locked ws → Queue locked' (wake_first ws)
wake-IsValid locked locked' [] v = tt
wake-IsValid locked locked' (w ∷ ws) v = ground arith

behind_wake : (locked : ℤ) (ws : List Wait) → AllBehind ws → Queue locked (wake_first ws)
behind_wake locked [] v = tt
behind_wake locked (w ∷ ws) v = ground arith

behind_taken : (ws : List Wait) → AllBehind ws → Queue (pos 0 +ℤ negsuc 0) ws
behind_taken [] v = tt
behind_taken (w ∷ ws) v = (inr (v.0.0, taken w.shared), v.1)

-- A call that leaves from behind the first wakes the first.
leave_behind :
    (locked : ℤ) (w : Wait) (id : ℕ) (ws : List Wait)
    → First locked w
    → AllBehind ws
    → Queue locked (wake_first (w ∷ remove id ws))
leave_behind locked w id ws f h = ground (arith, AllBehind-remove id ws h)

-- What a call behind the first may look like when it runs on.
pub Behind-found :
    (id : ℕ) (ws : List Wait) (w : Wait) → AllBehind ws → find id ws ≡ some w → Behind w
unfolding find
Behind-found id [] w h e = cc
Behind-found id (v ∷ ws) w h e = ground (arith, Behind-found id ws w h.1)

run_on_first :
    (locked : ℤ) (ws : List Wait) (w : Wait)
    → w.ready ≡ true
    → AllBehind ws
    → IsValid (run_on (at locked (w ∷ ws)) w.id w).1
unfolding run_on remove
run_on_first locked ws w r h = ground (
  arith,
  behind_wake locked ws h,
  behind_wake (locked +ℤ amount true) ws h,
  behind_taken ws h,
  exclusive_free locked,
)

run_on_behind :
    (locked : ℤ) (w v : Wait) (ws : List Wait) (id : ℕ)
    → w.id == id ≡ false
    → v.live ≡ false
    → First locked w
    → AllBehind ws
    → IsValid (run_on (at locked (w ∷ ws)) id v).1
unfolding run_on remove
run_on_behind locked w v ws id other dead f h = ground (arith, leave_behind locked w id ws f h)

-- What `resume` finds is ready; in first place, or behind it and canceled.
resume-at :
    (locked : ℤ) (ws : List Wait) (id : ℕ) {r : Reply} {m : Mutex}
    → Queue locked ws
    → resume (at locked ws) id ≡ some (r, m)
    → IsValid m
unfolding resume
resume-at locked [] id v e = cc
resume-at locked (w ∷ ws) id {r} {m} v e = elim (Bool-cases (w.id == id)) [
  | inl first ↦ ground (arith, run_on_first locked ws w)
  | inr behind ↦ elim (Option-cases (find id ws)) [
    | inl gone ↦ ground arith
    | inr (u, found) ↦
        ground (arith, run_on_behind locked w u ws id behind, Behind-found id ws u v.1 found)
  ]
]

release-at :
    (locked : ℤ) (ws : List Wait) {m : Mutex}
    → Queue locked ws
    → release (at locked ws) ≡ some m
    → IsValid m
unfolding release
release-at (negsuc zero) ws v e = ground (arith, wake-IsValid (negsuc 0) (negsuc 0 +ℤ pos 1) ws v)
release-at (negsuc (suc n)) ws v e = cc
release-at (pos n) ws v e = cc

release_shared-at :
    (locked : ℤ) (ws : List Wait) {m : Mutex}
    → Queue locked ws
    → release_shared (at locked ws) ≡ some m
    → IsValid m
unfolding release_shared
release_shared-at (negsuc zero) ws v e = cc
release_shared-at (negsuc (suc n)) ws v e =
    ground (arith, wake-IsValid (negsuc (suc n)) (negsuc (suc n) +ℤ negsuc 0) ws v)
release_shared-at (pos zero) ws v e = cc
release_shared-at (pos (suc n)) ws v e =
    ground (arith, wake-IsValid (pos (suc n)) (pos (suc n) +ℤ negsuc 0) ws v)

cancel_behind :
    (id : ℕ) (ws : List Wait)
    → AllBehind ws
    → AllBehind (update id (λ v. record v { live = false; ready = true }) ws)
unfolding update
cancel_behind id [] h = tt
cancel_behind id (w ∷ ws) h = ground (arith, cancel_behind id ws h.1)

cancel-at :
    (locked : ℤ) (ws : List Wait) (id : ℕ) → Queue locked ws → IsValid (cancel (at locked ws) id)
unfolding cancel update
cancel-at locked [] id v = tt
cancel-at locked (w ∷ ws) id v = ground (arith, cancel_behind id ws v.1)

-- Each operation of the lock, in the hands of any caller.
pub data Step (m : Mutex) : Mutex → Type 0 where
  acquires : (id : ℕ) (shared live : Bool) → Step m (acquire m id shared live).1
  resumes : (id : ℕ) (r : Reply) {m' : Mutex} → resume m id ≡ some (r, m') → Step m m'
  cancels : (id : ℕ) → Step m (cancel m id)
  releases : {m' : Mutex} → release m ≡ some m' → Step m m'
  releases_shared : {m' : Mutex} → release_shared m ≡ some m' → Step m m'

-- Every operation keeps the waiting calls in order: none waits for a wakeup that was lost.
pub Step-IsValid : {m m' : Mutex} → Step m m' → IsValid m → IsValid m'
Step-IsValid {m} (acquires id shared live) v = acquire-at m.locked m.waits id shared live v
Step-IsValid {m} (resumes id r e) v = resume-at m.locked m.waits id v e
Step-IsValid {m} (cancels id) v = cancel-at m.locked m.waits id v
Step-IsValid {m} (releases e) v = release-at m.locked m.waits v e
Step-IsValid {m} (releases_shared e) v = release_shared-at m.locked m.waits v e
