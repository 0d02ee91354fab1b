-- ===== src/Mutex/Held.antt =====
-- Who holds the lock: the calls that were granted and have not released. Each release is made by a
-- holder, as the documentation of `release` and `release_shared` asks.
use tamer.Prelude.{
  ℕ, zero, suc, ◌+◌, ◌-◌, ◌≤◌, ◌<◌, ◌≡◌, refl, sym, subst, ◌⊎◌, inl, Bool, true, false, List, ◌∷◌,
  some, arith,
}
use tamer.Prelude.Int.{ℤ, pos, negsuc, ◌+ℤ◌}
use tamer.Mutex.{
  Wait, Mutex, initial, available, amount, Reply, granted, quiet, acquire, release, release_shared,
  find, run_on, resume, cancel,
}
use tamer.Mutex.Order.{free_lock_served}
use tamer.Mutex.Inv.{acquires, resumes, cancels, releases, releases_shared, IsValid, Step-IsValid}

pub record World : Type 0 where
  pub mutex : Mutex
  pub writers : ℕ
  pub readers : ℕ

abbrev pub gain : Reply → Bool → ℕ × ℕ → ℕ × ℕ
gain granted true (w, r) = (w, r + 1)
gain granted false (w, r) = (w + 1, r)
gain quiet shared h = h

abbrev pub world : Mutex → ℕ × ℕ → World
world m (w, r) = record { mutex = m; writers = w; readers = r }

-- A step of the lock, with the holders that it makes or ends.
pub data Move (u : World) : World → Type 0 where
  call :
      (id : ℕ) (shared live : Bool)
      → Move u (
          world
            (acquire u.mutex id shared live).1
            (gain (acquire u.mutex id shared live).0 shared (u.writers, u.readers)))
  run :
      (id : ℕ) (w : Wait)
      → find id u.mutex.waits ≡ some w
      → w.ready ≡ true
      → Move u (
          world
            (run_on u.mutex id w).1
            (gain (run_on u.mutex id w).0 w.shared (u.writers, u.readers)))
  drop : (id : ℕ) → Move u (world (cancel u.mutex id) (u.writers, u.readers))
  give_back :
      {m : Mutex}
      → 0 < u.writers
      → release u.mutex ≡ some m
      → Move u (world m (u.writers - 1, u.readers))
  give_back_shared :
      {m : Mutex}
      → 0 < u.readers
      → release_shared u.mutex ≡ some m
      → Move u (world m (u.writers, u.readers - 1))

pub data Reach : World → Type 0 where
  start : Reach (world initial (0, 0))
  next : {u v : World} → Reach u → Move u v → Reach v

-- `locked_` counts the shared holders, and is -1 for an exclusive one.
abbrev pub Counts : ℤ → ℕ → ℕ → Type 0
Counts locked writers readers =
    ((locked ≡ pos readers) × (writers ≡ 0)) ⊎ ((locked ≡ negsuc 0) × (writers ≡ 1) × (readers ≡ 0))

plus_reader : (n : ℕ) → pos n +ℤ pos 1 ≡ pos (n + 1)
unfolding ◌+ℤ◌
plus_reader n = ground arith

minus_reader : (n : ℕ) → pos (suc n) +ℤ negsuc 0 ≡ pos n
unfolding ◌+ℤ◌
minus_reader n = ground arith

Counts-gain :
    (locked : ℤ) (shared : Bool) (w r : ℕ)
    → available shared locked ≡ true
    → Counts locked w r
    → Counts (locked +ℤ amount shared) (gain granted shared (w, r)).0 (gain granted shared (w, r)).1
unfolding ◌+ℤ◌
Counts-gain locked true w r a c = ground arith
Counts-gain locked false w r a c = ground arith

-- What an assertion that does not fail tells of the lock.
release_locked :
    (locked : ℤ) (ws : List Wait) {m : Mutex}
    → release (record { locked = locked; waits = ws }) ≡ some m
    → (locked ≡ negsuc 0) × (m.locked ≡ pos 0)
unfolding release ◌+ℤ◌
release_locked (negsuc zero) ws e = ground arith
release_locked (negsuc (suc n)) ws e = cc
release_locked (pos n) ws e = cc

release_shared_locked :
    (n : ℕ) (ws : List Wait) {m : Mutex}
    → release_shared (record { locked = pos n; waits = ws }) ≡ some m
    → (0 < n) × (m.locked ≡ pos (n - 1))
unfolding release_shared
release_shared_locked zero ws e = cc
release_shared_locked (suc n) ws e = ground (arith, minus_reader n)

release_shared_pos :
    (m : Mutex) (n : ℕ) {m' : Mutex}
    → m.locked ≡ pos n
    → release_shared m ≡ some m'
    → m'.locked ≡ pos (n - 1)
release_shared_pos m n {m'} l e =
    (release_shared_locked n m.waits
      (subst (λ k. release_shared (record { locked = k; waits = m.waits }) ≡ some m') l e)).1

-- Every step keeps the count.
Move-Counts :
    {u v : World}
    → Move u v
    → Counts u.mutex.locked u.writers u.readers
    → Counts v.mutex.locked v.writers v.readers
unfolding acquire run_on cancel
Move-Counts {u} (call id shared live) c =
    ground (arith, Counts-gain u.mutex.locked shared u.writers u.readers)
Move-Counts {u} (run id w found ready) c =
    ground (arith, Counts-gain u.mutex.locked w.shared u.writers u.readers)
Move-Counts (drop id) c = c
Move-Counts {u} (give_back held e) c =
    let freed = release_locked u.mutex.locked u.mutex.waits e in ground arith
Move-Counts {u} (give_back_shared {m = m} held e) c =
    let freed = release_shared_pos u.mutex u.readers {m' = m} in ground arith

Reach-Counts : {u : World} → Reach u → Counts u.mutex.locked u.writers u.readers
Reach-Counts start = inl (refl, refl)
Reach-Counts (next r m) = Move-Counts m (Reach-Counts r)

-- At most one call holds the lock exclusively, and then none shares it.
pub mutual_exclusion : {u : World} → Reach u → (u.writers ≤ 1) × (0 < u.writers → u.readers ≡ 0)
mutual_exclusion r = let c = Reach-Counts r in (ground arith, ground arith)

release_held :
    (ws : List Wait) → (m : Mutex) × (release (record { locked = negsuc 0; waits = ws }) ≡ some m)
unfolding release
release_held ws = (_, refl)

release_shared_held :
    (n : ℕ) (ws : List Wait)
    → 0 < n
    → (m : Mutex) × (release_shared (record { locked = pos n; waits = ws }) ≡ some m)
unfolding release_shared
release_shared_held zero ws h = absurd (omega arith)
release_shared_held (suc n) ws h = (_, refl)

-- A holder's release does not fail an assertion: neither the exclusive one's nor a shared one's.
pub holder_releases :
    {u : World}
    → Reach u
    → (0 < u.writers → (m : Mutex) × (release u.mutex ≡ some m))
      × (0 < u.readers → (m : Mutex) × (release_shared u.mutex ≡ some m))
holder_releases {u} r =
    let c = Reach-Counts r in
    (
      λ h.
          let l : u.mutex.locked ≡ negsuc 0 = ground arith in
          subst
            (λ k. (m : Mutex) × (release (record { locked = k; waits = u.mutex.waits }) ≡ some m))
            (sym l) (release_held u.mutex.waits),
      λ h.
          let l : u.mutex.locked ≡ pos u.readers = ground arith in
          subst
            (λ k.
              (m : Mutex) × (release_shared (record { locked = k; waits = u.mutex.waits })
                ≡ some m))
            (sym l) (release_shared_held u.readers u.mutex.waits h),
    )

resume_found :
    (m : Mutex) (id : ℕ) (w : Wait)
    → find id m.waits ≡ some w
    → w.ready ≡ true
    → resume m id ≡ some ((run_on m id w).0, (run_on m id w).1)
unfolding resume
resume_found m id w e r = ground arith

Move-IsValid : {u v : World} → Move u v → IsValid u.mutex → IsValid v.mutex
Move-IsValid (call id shared live) i = Step-IsValid (acquires id shared live) i
Move-IsValid {u} (run id w found ready) i =
    Step-IsValid (resumes id _ (resume_found u.mutex id w found ready)) i
Move-IsValid (drop id) i = Step-IsValid (cancels id) i
Move-IsValid (give_back held e) i = Step-IsValid (releases e) i
Move-IsValid (give_back_shared held e) i = Step-IsValid (releases_shared e) i

Reach-IsValid : {u : World} → Reach u → IsValid u.mutex
Reach-IsValid start = tt
Reach-IsValid (next r m) = Move-IsValid m (Reach-IsValid r)

-- Whenever nobody holds the lock and calls wait for it, the first of them is about to run on.
pub no_lost_wakeup :
    {u : World} {w : Wait} {ws : List Wait}
    → Reach u
    → u.writers ≡ 0
    → u.readers ≡ 0
    → u.mutex.waits ≡ w ∷ ws
    → w.ready ≡ true
no_lost_wakeup {u} {w} {ws} r nw nr e =
    (free_lock_served u.mutex w ws (Reach-IsValid r) (let c = Reach-Counts r in ground arith) e).0
