-- ===== src/Sched/Tests.antt =====
-- The schedulers on a small queue, and the claims at it.
use domains.Prelude.{ℕ, ◌≡◌, refl, List, [], ◌∷◌, none, some, position}
use domains.Sched.Info.{TaskInfo, allows}
use domains.Sched.Fifo
use domains.Sched.Random
use domains.Sched.Fifo.{FetchesFirst, fetch_first}
use domains.Sched.Random.Fetch.{FetchesLeast, fetch_least}

abbrev task : ℕ → ℕ → ℕ → TaskInfo
task tid nice cpus = record { tid = tid; nice = nice; cpus_allowed = cpus }

-- The first may run on processor 0 only, the others on both; the last is the nicest to run.
abbrev queue : List TaskInfo
queue = task 1 100 1 ∷ task 2 130 3 ∷ task 3 120 3 ∷ []

fifo_skips : Fifo.fetch_task 1 queue ≡ some (task 2 130 3, task 1 100 1 ∷ task 3 120 3 ∷ [])
unfolding Fifo.fetch_task Fifo.remove allows position
fifo_skips = refl

random_compares : Random.fetch_task 1 queue ≡ some (task 3 120 3, task 1 100 1 ∷ task 2 130 3 ∷ [])
unfolding Random.fetch_task Random.remove Random.scan allows
random_compares = refl

-- A task with `nice = i8::MAX` is never handed out.
random_starves : Random.fetch_task 0 (task 1 255 1 ∷ []) ≡ none
unfolding Random.fetch_task Random.scan allows
random_starves = refl

fetch_first_example : FetchesFirst 1 queue (Fifo.fetch_task 1 queue)
fetch_first_example = fetch_first 1 queue

fetch_least_example : FetchesLeast 1 queue (Random.fetch_task 1 queue)
fetch_least_example = fetch_least 1 queue
