-- ===== src/Mutex/Tests.antt =====
-- A run of the lock: call 1 takes it exclusively, call 2 has to wait, call 1 releases it.
use tamer.Prelude.{◌≤◌, ◌<◌, ◌≡◌, refl, inl, Bool, true, false, [], ◌∷◌, some, arith}
use tamer.Prelude.Int.{pos, negsuc, ◌+ℤ◌}
use tamer.Mutex.{Wait, Mutex, granted, acquire, release, release_shared, resume, remove, run_on}
use tamer.Mutex.Inv.{IsValid, acquires, Step-IsValid}
use tamer.Mutex.Held.{
  World, Reach, start, next, call, give_back, mutual_exclusion, holder_releases, no_lost_wakeup,
}

abbrev second : Bool → Bool → Wait
second armed ready = record { id = 2; shared = false; live = true; armed = armed; ready = ready }

abbrev taken : World
taken = record { mutex = record { locked = negsuc 0; waits = [] }; writers = 1; readers = 0 }

abbrev queued : World
queued = record {
  mutex = record { locked = negsuc 0; waits = second true false ∷ [] };
  writers = 1;
  readers = 0;
}

abbrev woken : World
woken = record {
  mutex = record { locked = pos 0; waits = second false true ∷ [] };
  writers = 0;
  readers = 0;
}

taken-Reach : Reach taken
unfolding acquire ◌+ℤ◌
taken-Reach = next start (call 1 false true)

queued-Reach : Reach queued
unfolding acquire ◌+ℤ◌
queued-Reach = next taken-Reach (call 2 false true)

woken-Reach : Reach woken
unfolding release ◌+ℤ◌
woken-Reach = next queued-Reach (give_back (omega arith) refl)

mutual_exclusion_example : (queued.writers ≤ 1) × (0 < queued.writers → queued.readers ≡ 0)
mutual_exclusion_example = mutual_exclusion {u = queued} queued-Reach

holder_releases_example :
    (0 < 1 → (m : Mutex) × (release queued.mutex ≡ some m))
    × (0 < 0 → (m : Mutex) × (release_shared queued.mutex ≡ some m))
holder_releases_example = holder_releases {u = queued} queued-Reach

no_lost_wakeup_example : true ≡ true
no_lost_wakeup_example =
    no_lost_wakeup {u = woken} {w = second false true} {ws = []} woken-Reach refl refl refl

woken-IsValid : IsValid woken.mutex
woken-IsValid = (inl refl, tt)

woken-resume : resume woken.mutex 2 ≡ some (granted, record { locked = negsuc 0; waits = [] })
unfolding resume run_on remove ◌+ℤ◌
woken-resume = refl

Step-IsValid_example : IsValid (acquire taken.mutex 2 false true).1
Step-IsValid_example = Step-IsValid {m = taken.mutex} (acquires 2 false true) tt
