-- ===== src/Task/Futex/Entries.antt =====
-- The queue of a futex after a change of the map.
use domains.Prelude.{ℕ, ◌≡◌, List, [], none, some, ◌==◌, if◌then◌else◌, arith}
use domains.Prelude.Map.{lookup, insert, remove, lookup-insert, lookup-remove}
use domains.Task.Futex.Queue.{FutexWaiter, FutexMap, entry}

pub entry-insert :
    (m : FutexMap) (k j : ℕ) (ws : List FutexWaiter)
    → entry (insert k ws m) j ≡ (if k == j then ws else entry m j)
unfolding entry
entry-insert m k j ws = ground (arith, lookup-insert j k ws m)

pub entry-remove :
    (m : FutexMap) (k j : ℕ) → entry (remove k m) j ≡ (if k == j then [] else entry m j)
unfolding entry
entry-remove m k j = ground (arith, lookup-remove j k m)

pub entry-none : (m : FutexMap) (k : ℕ) → lookup k m ≡ none → entry m k ≡ []
unfolding entry
entry-none m k e = rw (e, entry)

pub entry-some :
    (m : FutexMap) (k : ℕ) {ws : List FutexWaiter} → lookup k m ≡ some ws → entry m k ≡ ws
unfolding entry
entry-some m k e = rw (e, entry)
