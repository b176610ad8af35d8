-- ===== src/Sched/Random.antt =====
-- `RandomScheduler`, common/random_scheduler/random_scheduler/src/lib.rs: the task with the smallest
-- `nice` value that the processor may run.
pub mod Scan
pub mod Fetch
use domains.Prelude.{
  ℕ, suc, ◌+◌, ◌≤◌, ◌<◌, ◌≡◌, refl, ◌∙◌, List, [], ◌∷◌, ◌++◌, Option, none, some, true, false, ◌&&◌,
  get_elem?, remove_at, ltb, if◌then◌else◌, arith, Bool-cases, inl, inr, All, take, drop,
  remove_at_split, get_elem?_split,
}
use mathlib.Core.Option
use domains.Sched.Info.{TaskInfo, allows, nice_max}
use domains.Sched.Interface.{Scheduler, TakenOut}

abbrev pub Tasks : Type 0
Tasks = List TaskInfo

unfoldable pub add_task : Tasks → TaskInfo → Tasks
add_task tasks task_meta = tasks ++ (task_meta ∷ [])

unfoldable pub remove : Tasks → ℕ → Option (TaskInfo × Tasks)
remove tasks index = Option.map (λ t. (t, remove_at tasks index)) (get_elem? tasks index)

-- The loop of `fetch_task`: `idx` is the counter of `enumerate`, the other two are its variables.
unfoldable pub scan : ℕ → Tasks → ℕ → ℕ → Option ℕ → Option ℕ
scan cpu_id [] idx max_nice res = res
scan cpu_id (info ∷ tasks) idx max_nice res =
    let better = allows info cpu_id && ltb info.nice max_nice in
    scan cpu_id tasks (idx + 1) (if better then info.nice else max_nice)
      (if better then some idx else res)

unfoldable pub fetch_task : ℕ → Tasks → Option (TaskInfo × Tasks)
fetch_task cpu_id tasks = elim (scan cpu_id tasks 0 nice_max none) [
  | some index ↦ remove tasks index
  | none ↦ none
]
