-- ===== src/Sched/Interface.antt =====
-- The trait `Scheduler` of common_lib/common_scheduler/src/scheduler.rs, with what it promises.
use domains.Prelude.{ℕ, ◌≡◌, List, [], ◌∷◌, ◌++◌, Option, none, some, Bool, true, false, All}
use domains.Sched.Info.{TaskInfo}

-- `queued` takes a task out of a queue: the rest is left in order.
pub record TakenOut (queue : List TaskInfo) (task : TaskInfo) (rest : List TaskInfo) : Type 0 where
  pub front : List TaskInfo
  pub back : List TaskInfo
  pub before : queue ≡ front ++ (task ∷ back)
  pub after : rest ≡ front ++ back

-- `runnable cpu t`: the scheduler would hand the task to this processor.
pub record Scheduler : Type 1 where
  pub State : Type 0
  pub queued : State → List TaskInfo
  pub runnable : ℕ → TaskInfo → Bool
  pub add_task : State → TaskInfo → State
  pub fetch_task : ℕ → State → Option (TaskInfo × State)
  pub queued-add_task : (s : State) (t : TaskInfo) → queued (add_task s t) ≡ queued s ++ (t ∷ [])
  pub fetch-some :
      (cpu : ℕ) (s s' : State) (t : TaskInfo)
      → fetch_task cpu s ≡ some (t, s')
      → (runnable cpu t ≡ true) × TakenOut (queued s) t (queued s')
  pub fetch-none :
      (cpu : ℕ) (s : State) → fetch_task cpu s ≡ none → All (λ t. runnable cpu t ≡ false) (queued s)
