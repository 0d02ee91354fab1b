-- ===== src/Fd/Locks/Alone.antt =====
-- An `fdref` whose locks no one else uses.
use tamer.Prelude.{◌≡◌, refl, Bool, true, false, List, [], ◌∷◌, some, arith, if◌then◌else◌}
use tamer.Prelude.Int.{pos, negsuc, ◌+ℤ◌}
use tamer.Mutex
use tamer.Mutex.{Mutex, Reply, granted, quiet, acquire, release, wake}
use tamer.Fd.Locks.{
  FdRef, Locks, RefOp, acquire_read, release_read, acquire_write, release_write, new_fdref, step,
  release_all, life,
}

-- For each of the locks, a release comes behind an acquire that was not released yet, and an acquire, with an event
-- that is not empty, where there is none.
unfoldable pub IsProper : Bool → Bool → List RefOp → Type 0
IsProper reading writing [] = Unit
IsProper reading writing (acquire_read id live ∷ ops) =
    (reading ≡ false) × (live ≡ true) × IsProper true writing ops
IsProper reading writing (release_read ∷ ops) = (reading ≡ true) × IsProper false writing ops
IsProper reading writing (acquire_write id live ∷ ops) =
    (writing ≡ false) × (live ≡ true) × IsProper reading true ops
IsProper reading writing (release_write ∷ ops) = (writing ≡ true) × IsProper reading false ops

-- The lock that one call holds, or none.
abbrev pub lock : Bool → Mutex
lock held = record { locked = if held then negsuc 0 else pos 0; waits = [] }

abbrev pub both : Bool → Bool → Locks
both reading writing = record { rlock = lock reading; wlock = lock writing }

abbrev fdref : Bool → Bool → FdRef
fdref reading writing = record { imp = true; reading = reading; writing = writing }

-- Every acquire is granted at once.
abbrev pub answers : List RefOp → List Reply
answers [] = []
answers (acquire_read id live ∷ ops) = granted ∷ answers ops
answers (release_read ∷ ops) = quiet ∷ answers ops
answers (acquire_write id live ∷ ops) = granted ∷ answers ops
answers (release_write ∷ ops) = quiet ∷ answers ops

all_released :
    (reading writing : Bool)
    → release_all (fdref reading writing) (both reading writing) ≡ some (both false false)
unfolding release_all release wake ◌+ℤ◌
all_released true true = refl
all_released true false = refl
all_released false true = refl
all_released false false = refl

life_held :
    (ops : List RefOp) (reading writing : Bool)
    → IsProper reading writing ops
    → life (fdref reading writing) (both reading writing) ops ≡ some (both false false, answers ops)
unfolding life IsProper step acquire release wake ◌+ℤ◌
life_held [] reading writing p = rw (all_released reading writing) refl
life_held (acquire_read id true ∷ ops) false writing p = rw (life_held ops true writing p.2) refl
life_held (acquire_read id true ∷ ops) true writing p = absurd (ground (arith, p.0))
life_held (acquire_read id false ∷ ops) reading writing p = absurd (ground (arith, p.1))
life_held (release_read ∷ ops) true writing p = rw (life_held ops false writing p.1) refl
life_held (release_read ∷ ops) false writing p = absurd (ground (arith, p.0))
life_held (acquire_write id true ∷ ops) reading false p = rw (life_held ops reading true p.2) refl
life_held (acquire_write id true ∷ ops) reading true p = absurd (ground (arith, p.0))
life_held (acquire_write id false ∷ ops) reading writing p = absurd (ground (arith, p.1))
life_held (release_write ∷ ops) reading true p = rw (life_held ops reading false p.1) refl
life_held (release_write ∷ ops) reading false p = absurd (ground (arith, p.0))

-- Over the life of an `fdref` with an `fdimp` whose two locks are free and used by no one else, from its construction
-- to its destructor, with acquires and releases that alternate for each lock and events that are not empty: no
-- assertion fails, neither of the `fdref` nor of its locks; every acquire is granted at once; and both locks are free
-- at the end, also those that were not released before.
pub life_lem :
    (ops : List RefOp)
    → IsProper false false ops
    → life (new_fdref true) (record { rlock = Mutex.initial; wlock = Mutex.initial }) ops
      ≡ some (record { rlock = Mutex.initial; wlock = Mutex.initial }, answers ops)
life_lem ops p = life_held ops false false p
