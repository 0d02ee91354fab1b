-- ===== src/Fd/Locks/Tests.antt =====
-- A reader that forgets to release, and one that waits for a lock that another has.
use tamer.Prelude.{◌≡◌, refl, true, false, List, [], ◌∷◌, some, none}
use tamer.Mutex
use tamer.Fd.Locks.{RefOp, acquire_read, acquire_write, release_write, new_fdref, life}
use tamer.Prelude.Int.{pos, negsuc}
use tamer.Mutex.{Mutex, Wait, granted, quiet}
use tamer.Fd.Locks.{FdRef, Locks, step, release_all}
use tamer.Fd.Locks.Unowned.{destructor_lem}
use tamer.Fd.Locks.Alone.{IsProper, life_lem}

abbrev forgetful : List RefOp
forgetful = acquire_read 1 true ∷ acquire_write 2 true ∷ release_write ∷ []

forgetful-IsProper : IsProper false false forgetful
unfolding IsProper
forgetful-IsProper = (refl, refl, (refl, refl, (refl, tt)))

life_lem_example :
    life (new_fdref true) (record { rlock = Mutex.initial; wlock = Mutex.initial }) forgetful
    ≡ some (record { rlock = Mutex.initial; wlock = Mutex.initial }, granted ∷ granted ∷ quiet ∷ [])
life_lem_example = life_lem forgetful forgetful-IsProper

-- another call waits for the lock
abbrev one_waits : List Wait
one_waits = record { id = 3; shared = false; live = true; armed = true; ready = false } ∷ []

stolen_lock :
    ((r : FdRef) × (l m : Locks) × (step
          (new_fdref true)
          (record {
            rlock = record { locked = negsuc 0; waits = one_waits };
            wlock = Mutex.initial;
          })
          (acquire_read 4 true)
        ≡ some (r, l, quiet))
      × (release_all r l ≡ some m)
      × (m.rlock.locked ≡ pos 0))
    × ((r : FdRef) × (l : Locks) × (step
            (new_fdref true)
            (record { rlock = record { locked = pos 0; waits = one_waits }; wlock = Mutex.initial })
            (acquire_read 4 false)
          ≡ some (r, l, quiet))
        × (release_all r l ≡ none))
stolen_lock = destructor_lem one_waits Mutex.initial 4 true
