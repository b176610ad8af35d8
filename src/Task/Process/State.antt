-- ===== src/Task/Process/State.antt =====
-- `Task` and `TaskInner` of common/task/task/src/task.rs, by the fields that the calls on processes
-- read, and the table of tasks of processor.rs. A task is shared by `Arc`: the store has each task
-- once, under its tid, and every reference to it is the tid. It leaves the store when it is reaped.
use mathlib.Core.Option
use domains.Prelude.{
  ℕ, ◌≡◌, List, [], ◌∷◌, Option, none, some, ◌==◌, if◌then◌else◌, Outcome, ok, err, panic, arith,
  Bool-cases, Option-cases, inl, inr,
}
use domains.Prelude.Map.{lookup, insert, remove, lookup-insert}

-- `TaskStatus`, by the values that the domain sets.
pub data TaskStatus : Type 0 where
  ready zombie terminated : TaskStatus

pub record Task : Type 0 where
  pub tid : ℕ
  pub pid : ℕ
  pub process_group : ℕ
  pub session_id : ℕ
  pub status : TaskStatus
  -- The tid of the parent, a weak reference.
  pub parent : Option ℕ
  -- The tids of the children, by their pids.
  pub children : List (ℕ × ℕ)
  pub exit_code : ℕ
  pub clear_child_tid : ℕ
  pub umask : ℕ
  pub cwd : ℕ
  pub root : ℕ

abbrev pub Tasks : Type 0
Tasks = List (ℕ × Task)

-- `manager` is `GLOBAL_TASK_MANAGER`, by the tids in it.
pub record System : Type 0 where
  pub tasks : Tasks
  pub manager : List (ℕ × Unit {0})

-- A change of one task, through a reference to it.
unfoldable pub modify : ℕ → (Task → Task) → Tasks → Tasks
modify tid f tasks = elim (lookup tid tasks) [ none ↦ tasks | some t ↦ insert tid (f t) tasks ]

unfoldable pub update : System → ℕ → (Task → Task) → System
update s tid f = record s { tasks = modify tid f s.tasks }

unfoldable pub get : System → ℕ → Option Task
get s tid = lookup tid s.tasks

-- `GLOBAL_TASK_MANAGER.lock().get(&tid)`
unfoldable pub find_task : System → ℕ → Option Task
unfolding get
find_task s tid = elim (lookup tid s.manager) [ none ↦ none | some _ ↦ get s tid ]

-- `current` is what `basic::current_tid` answers.
unfoldable pub current_task : System → Outcome (Option ℕ) → Option Task
unfolding find_task
current_task s (ok (some tid)) = find_task s tid
current_task s (ok none) = none
current_task s (err e) = none
current_task s panic = none

-- The search of `find_task_by_pid` through the table.
unfoldable pub first_of_pid : Tasks → List (ℕ × Unit {0}) → ℕ → Option Task
first_of_pid tasks [] pid = none
first_of_pid tasks ((tid, _) ∷ manager) pid =
    let later = first_of_pid tasks manager pid in
    elim (lookup tid tasks) [ some t ↦ if t.pid == pid then some t else later | none ↦ later ]

unfoldable pub find_task_by_pid : System → ℕ → Option Task
find_task_by_pid s pid = first_of_pid s.tasks s.manager pid

unfoldable pub remove_task : System → ℕ → System
remove_task s tid = record s { manager = remove tid s.manager }

-- Each task of the store stands under its own tid.
abbrev pub IsKeyed : System → Type 0
IsKeyed s = (tid : ℕ) (t : Task) → get s tid ≡ some t → t.tid ≡ tid

pub lookup-modify :
    (j tid : ℕ) (f : Task → Task) (tasks : Tasks)
    → lookup j (modify tid f tasks)
      ≡ (if tid == j then Option.map f (lookup j tasks) else lookup j tasks)
unfolding modify
lookup-modify j tid f tasks = elim (Option-cases (lookup tid tasks)) [
  | inl e ↦ ground arith
  | inr (t, e) ↦ ground (arith, lookup-insert j tid (f t) tasks)
]

pub get-update :
    (s : System) (j tid : ℕ) (f : Task → Task)
    → get (update s tid f) j ≡ (if tid == j then Option.map f (get s j) else get s j)
unfolding get update
get-update s j tid f = lookup-modify j tid f s.tasks

-- What the search finds is in the store, with that pid.
first_of_pid-get :
    (tasks : Tasks) (manager : List (ℕ × Unit {0})) (pid : ℕ) {t : Task}
    → first_of_pid tasks manager pid ≡ some t
    → (tid : ℕ) × (lookup tid tasks ≡ some t) × (t.pid ≡ pid)
unfolding first_of_pid
first_of_pid-get tasks [] pid e = cc
first_of_pid-get tasks ((tid, _) ∷ manager) pid {t} e = elim (Option-cases (lookup tid tasks)) [
  | inl gone ↦ first_of_pid-get tasks manager pid (ground arith)
  | inr (u, here) ↦ elim (Bool-cases (u.pid == pid)) [
    | inl same ↦ (tid, ground arith, ground arith)
    | inr other ↦ first_of_pid-get tasks manager pid (ground arith)
  ]
]

pub find_task_by_pid-get :
    (s : System) (pid : ℕ) {t : Task}
    → find_task_by_pid s pid ≡ some t
    → (tid : ℕ) × (get s tid ≡ some t) × (t.pid ≡ pid)
unfolding find_task_by_pid get
find_task_by_pid-get s pid e = first_of_pid-get s.tasks s.manager pid e
