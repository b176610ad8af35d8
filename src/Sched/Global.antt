-- ===== src/Sched/Global.antt =====
-- `GlobalScheduler` of common_lib/common_scheduler/src/scheduler.rs, over any scheduler that keeps
-- the promises of the interface.
use domains.Prelude.{ℕ, none, some}
use domains.Sched.Info.{TaskInfo, usize_max}
use domains.Sched.Interface.{Scheduler}

module _ (sched : Scheduler) where
  open sched use {State}

  unfoldable pub add_task : State → TaskInfo → State
  add_task s task_meta = sched.add_task s task_meta

  -- `fetch_task`: without a task, the caller's own box comes back with `tid = usize::MAX`.
  unfoldable pub fetch_task : ℕ → State → TaskInfo → TaskInfo × State
  fetch_task cpu s info = elim (sched.fetch_task cpu s) [
    | some (task, s') ↦ (task, s')
    | none ↦ (record info { tid = usize_max }, s)
  ]
