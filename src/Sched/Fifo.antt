-- ===== src/Sched/Fifo.antt =====
-- `CustomFiFoScheduler`, common/fifo_scheduler/fifo_scheduler/src/scheduler.rs.
use domains.Prelude.{
  ℕ, suc, ◌≡◌, refl, ◌∙◌, List, [], ◌∷◌, ◌++◌, Option, none, some, true, false, get_elem?,
  remove_at, position, inl, inr, All, take, drop, Option-cases, position-none-All, position-take,
  position_elem, remove_at_split, get_elem?_split,
}
use mathlib.Core.Option
use domains.Sched.Info.{TaskInfo, allows}
use domains.Sched.Interface.{Scheduler, TakenOut}

-- The list behind the lock, which the domain storage keeps under "tasks".
abbrev pub Tasks : Type 0
Tasks = List TaskInfo

unfoldable pub add_task : Tasks → TaskInfo → Tasks
add_task tasks task_meta = tasks ++ (task_meta ∷ [])

-- `VecDeque::remove(index)`: the element, and the rest.
unfoldable pub remove : Tasks → ℕ → Option (TaskInfo × Tasks)
remove tasks index = Option.map (λ t. (t, remove_at tasks index)) (get_elem? tasks index)

unfoldable pub fetch_task : ℕ → Tasks → Option (TaskInfo × Tasks)
fetch_task cpu_id tasks = elim (position (λ info. allows info cpu_id) tasks) [
  | some index ↦ remove tasks index
  | none ↦ none
]

-- The task `t` that a fetch hands out, and the queue `rest` that it leaves.
pub record FirstAllowed (cpu_id : ℕ) (tasks : Tasks) (t : TaskInfo) (rest : Tasks) : Type 0 where
  pub front : Tasks
  pub back : Tasks
  pub before : tasks ≡ front ++ (t ∷ back)
  pub after : rest ≡ front ++ back
  pub allowed : allows t cpu_id ≡ true
  pub skipped : All (λ u. allows u cpu_id ≡ false) front

fetch_at :
    (cpu_id : ℕ) (tasks : Tasks) (i : ℕ) (x : TaskInfo)
    → position (λ u. allows u cpu_id) tasks ≡ some i
    → get_elem? tasks i ≡ some x
    → fetch_task cpu_id tasks ≡ some (x, remove_at tasks i)
unfolding remove fetch_task
fetch_at cpu_id tasks i x e g = rw (e, g, fetch_task)

fetch_none :
    (cpu_id : ℕ) (tasks : Tasks)
    → position (λ u. allows u cpu_id) tasks ≡ none
    → fetch_task cpu_id tasks ≡ none
unfolding fetch_task
fetch_none cpu_id tasks e = rw (e, fetch_task)

FirstAllowed-at :
    (cpu_id : ℕ) (tasks : Tasks) (i : ℕ) (x t : TaskInfo) (rest : Tasks)
    → position (λ u. allows u cpu_id) tasks ≡ some i
    → get_elem? tasks i ≡ some x
    → allows x cpu_id ≡ true
    → fetch_task cpu_id tasks ≡ some (t, rest)
    → FirstAllowed cpu_id tasks t rest
FirstAllowed-at cpu_id tasks i x t rest e g p h =
    let found = fetch_at cpu_id tasks i x e g in
    let same : x ≡ t = cc in
    record {
      front = take i tasks;
      back = drop (suc i) tasks;
      before = rw (← same) (get_elem?_split tasks i g);
      after = let kept : rest ≡ remove_at tasks i = cc in kept ∙ remove_at_split tasks i;
      allowed = rw (← same) p;
      skipped = position-take (λ u. allows u cpu_id) tasks i e;
    }

abbrev pub FetchesFirst : ℕ → Tasks → Option (TaskInfo × Tasks) → Type 0
FetchesFirst cpu_id tasks none = All (λ u. allows u cpu_id ≡ false) tasks
FetchesFirst cpu_id tasks (some (t, rest)) = FirstAllowed cpu_id tasks t rest

-- A fetch of the first-in first-out scheduler either hands out the first task that the processor
-- may run, no task before it being allowed there, and leaves the others in order, or hands out
-- nothing, and then no task of the queue may run there.
pub fetch_first : (cpu_id : ℕ) (tasks : Tasks) → FetchesFirst cpu_id tasks (fetch_task cpu_id tasks)
fetch_first cpu_id tasks = elim (Option-cases (position (λ u. allows u cpu_id) tasks)) [
  | inl e ↦ rw (fetch_none cpu_id tasks e) (position-none-All (λ u. allows u cpu_id) tasks e)
  | inr (i, e) ↦
      let (x, g, p) = position_elem (λ u. allows u cpu_id) tasks i e in
      let out = fetch_at cpu_id tasks i x e g in
      rw out (FirstAllowed-at cpu_id tasks i x x (remove_at tasks i) e g p out)
]

pub add_task_lem : (s : Tasks) (t : TaskInfo) → add_task s t ≡ s ++ (t ∷ [])
unfolding add_task
add_task_lem s t = refl

pub fetch_some_lem :
    (cpu : ℕ) (s s' : Tasks) (t : TaskInfo)
    → fetch_task cpu s ≡ some (t, s')
    → (allows t cpu ≡ true) × TakenOut s t s'
fetch_some_lem cpu s s' t h =
    let f : FirstAllowed cpu s t s' = rw h at (fetch_first cpu s) in
    (f.allowed, record { front = f.front; back = f.back; before = f.before; after = f.after })

pub fetch_none_lem :
    (cpu : ℕ) (s : Tasks) → fetch_task cpu s ≡ none → All (λ u. allows u cpu ≡ false) s
fetch_none_lem cpu s h = (rw h at (fetch_first cpu s))

-- The first-in first-out scheduler behind the common interface.
abbrev pub fifo : Scheduler
fifo = record {
  State = Tasks;
  queued = λ s. s;
  runnable = λ cpu t. allows t cpu;
  add_task = add_task;
  fetch_task = fetch_task;
  queued-add_task = add_task_lem;
  fetch-some = fetch_some_lem;
  fetch-none = λ cpu s h. fetch_none_lem cpu s h;
}
