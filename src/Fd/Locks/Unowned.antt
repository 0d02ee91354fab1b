-- ===== src/Fd/Locks/Unowned.antt =====
-- An `fdref` that gives back a lock that it was not granted.
use tamer.Prelude.{ℕ, ◌≡◌, refl, Bool, true, false, List, [], ◌∷◌, none, some}
use tamer.Prelude.Int.{pos, negsuc, ◌+ℤ◌}
use tamer.Mutex.{Mutex, Wait, acquire, release, wake, quiet}
use tamer.Fd.Locks.{FdRef, Locks, acquire_read, new_fdref, step, release_all}

-- While the read lock is held, `acquire_read` of a new `fdref` gets no grant, with any event; yet its destructor
-- releases the lock, which is free then though the one that holds it has not released it. If the event is empty and
-- the lock is free, the destructor fails the assertion of the mutex.
pub destructor_lem :
    (waits : List Wait) (wlock : Mutex) (id : ℕ) (live : Bool)
    → ((r : FdRef) × (l m : Locks) × (step
            (new_fdref true)
            (record { rlock = record { locked = negsuc 0; waits = waits }; wlock = wlock })
            (acquire_read id live)
          ≡ some (r, l, quiet))
        × (release_all r l ≡ some m)
        × (m.rlock.locked ≡ pos 0))
      × ((r : FdRef) × (l : Locks) × (step
              (new_fdref true)
              (record { rlock = record { locked = pos 0; waits = waits }; wlock = wlock })
              (acquire_read id false)
            ≡ some (r, l, quiet))
          × (release_all r l ≡ none))
unfolding step release_all acquire release wake ◌+ℤ◌
destructor_lem [] wlock id true = ((_, _, _, refl, refl, refl), (_, _, refl, refl))
destructor_lem (w ∷ ws) wlock id true = ((_, _, _, refl, refl, refl), (_, _, refl, refl))
destructor_lem waits wlock id false = ((_, _, _, refl, refl, refl), (_, _, refl, refl))
