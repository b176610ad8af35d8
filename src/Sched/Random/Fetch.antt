-- ===== src/Sched/Random/Fetch.antt =====
-- What a fetch of the random scheduler hands out, and the scheduler behind the common interface.
use domains.Prelude.{
  ℕ, suc, ◌≤◌, ◌<◌, ◌≡◌, refl, ◌∙◌, [], ◌∷◌, ◌++◌, Option, none, some, true, false, ◌&&◌, get_elem?,
  remove_at, ltb, arith, All, take, drop, remove_at_split, get_elem?_split,
}
use domains.Sched.Info.{TaskInfo, allows, nice_max}
use domains.Sched.Interface.{Scheduler, TakenOut}
use domains.Sched.Random.{Tasks, add_task, remove, scan, fetch_task}
use domains.Sched.Random.Scan.{Best, nobody, found, shifted-start, scan-Best}

-- Nobody of the queue both may run on the processor and has a `nice` below `i8::MAX`.
abbrev pub NobodyBelow : ℕ → Tasks → Type 0
NobodyBelow cpu_id tasks = All (λ u. (allows u cpu_id && ltb u.nice nice_max) ≡ false) tasks

-- The task `t` that a fetch hands out, and the queue `rest` that it leaves.
pub record LeastNice (cpu_id : ℕ) (tasks : Tasks) (t : TaskInfo) (rest : Tasks) : Type 0 where
  pub front : Tasks
  pub back : Tasks
  pub before : tasks ≡ front ++ (t ∷ back)
  pub after : rest ≡ front ++ back
  pub allowed : allows t cpu_id ≡ true
  pub below : t.nice < nice_max
  pub least : All (λ u. allows u cpu_id ≡ true → t.nice ≤ u.nice) tasks
  pub first : All (λ u. allows u cpu_id ≡ true → t.nice < u.nice) front

fetch_nobody :
    (cpu_id : ℕ) (tasks : Tasks)
    → scan cpu_id tasks 0 nice_max none ≡ none
    → fetch_task cpu_id tasks ≡ none
unfolding fetch_task
fetch_nobody cpu_id tasks e = rw (e, fetch_task)

fetch_at :
    (cpu_id : ℕ) (tasks : Tasks) (i : ℕ) (x : TaskInfo)
    → scan cpu_id tasks 0 nice_max none ≡ some i
    → get_elem? tasks i ≡ some x
    → fetch_task cpu_id tasks ≡ some (x, remove_at tasks i)
unfolding remove fetch_task
fetch_at cpu_id tasks i x e g = rw (e, g, fetch_task)

abbrev pub FetchesLeast : ℕ → Tasks → Option (TaskInfo × Tasks) → Type 0
FetchesLeast cpu_id tasks none = NobodyBelow cpu_id tasks
FetchesLeast cpu_id tasks (some (t, rest)) = LeastNice cpu_id tasks t rest

fetch-Best :
    (cpu_id : ℕ) (tasks : Tasks) (o : Option ℕ)
    → Best cpu_id tasks nice_max o
    → scan cpu_id tasks 0 nice_max none ≡ o
    → FetchesLeast cpu_id tasks (fetch_task cpu_id tasks)
fetch-Best cpu_id tasks none (nobody a) e = rw (fetch_nobody cpu_id tasks e) a
fetch-Best cpu_id tasks (some _) (found i x g p lt a f) e =
    rw (fetch_at cpu_id tasks i x e g) (record {
      front = take i tasks;
      back = drop (suc i) tasks;
      before = get_elem?_split tasks i g;
      after = remove_at_split tasks i;
      allowed = p;
      below = lt;
      least = a;
      first = f;
    })

-- A fetch of the random scheduler either hands out the earliest task among those with the least
-- nice value that may run on the processor, this value being below i8::MAX, and leaves the others
-- in order, or hands out nothing, and then no task that may run there has a nice value below
-- i8::MAX.
pub fetch_least : (cpu_id : ℕ) (tasks : Tasks) → FetchesLeast cpu_id tasks (fetch_task cpu_id tasks)
fetch_least cpu_id tasks =
    let (o, best, e) = scan-Best cpu_id tasks 0 nice_max none in
    fetch-Best cpu_id tasks o best (e ∙ shifted-start o)

pub add_task_lem : (s : Tasks) (t : TaskInfo) → add_task s t ≡ s ++ (t ∷ [])
unfolding add_task
add_task_lem s t = refl

pub fetch_some_lem :
    (cpu : ℕ) (s s' : Tasks) (t : TaskInfo)
    → fetch_task cpu s ≡ some (t, s')
    → ((allows t cpu && ltb t.nice nice_max) ≡ true) × TakenOut s t s'
fetch_some_lem cpu s s' t h =
    let f : LeastNice cpu s t s' = rw h at (fetch_least cpu s) in
    let a = f.allowed in
    let b = f.below in
    ((ground arith), record { front = f.front; back = f.back; before = f.before; after = f.after })

pub fetch_none_lem : (cpu : ℕ) (s : Tasks) → fetch_task cpu s ≡ none → NobodyBelow cpu s
fetch_none_lem cpu s h = (rw h at (fetch_least cpu s))

-- This scheduler behind the common interface: it would hand out what has a `nice` below `i8::MAX`.
abbrev pub random : Scheduler
random = record {
  State = Tasks;
  queued = λ s. s;
  runnable = λ cpu t. allows t cpu && ltb t.nice nice_max;
  add_task = add_task;
  fetch_task = fetch_task;
  queued-add_task = add_task_lem;
  fetch-some = fetch_some_lem;
  fetch-none = λ cpu s h. fetch_none_lem cpu s h;
}
