-- ===== src/Task/Process/Wait.antt =====
-- Waiting for a child: `do_wait4` of common/task/task/src/syscall/wait.rs.
use domains.Prelude.{
  ℕ, List, [], ◌∷◌, Option, none, some, Bool, true, false, ◌&&◌, ◌||◌, ◌==◌, if◌then◌else◌, Outcome,
  ok, err, panic, ◌>>=◌, unwrap, einval, echild,
}
use domains.Prelude.Map.{remove}
use domains.Task.Process.State.{
  Task, System, TaskStatus, terminated, zombie, ready, get, update, current_task,
}
use domains.Task.Process.Groups.{Current}

-- `WaitOptions`, by the flags that the call tests.
pub record WaitOptions : Type 0 where
  pub wnohang : Bool
  pub wnowait : Bool

-- The pid that stands for any child, -1 as a `usize`.
abbrev pub any_child : ℕ
any_child = 18446744073709551615

abbrev pub is_terminated : TaskStatus → Bool
is_terminated terminated = true
is_terminated zombie = false
is_terminated ready = false

-- The children of a task that a call waits for, in the order of the map. The store holds what the
-- map's `Arc`s point to.
unfoldable pub matching : System → ℕ → List (ℕ × ℕ) → List Task
matching s pid [] = []
matching s pid ((_, c) ∷ children) =
    let others = matching s pid children in
    elim (get s c) [
      | none ↦ others
      | some child ↦ if (child.pid == pid) || (pid == any_child) then child ∷ others else others
    ]

unfoldable pub first_terminated : List Task → Option Task
first_terminated [] = none
first_terminated (t ∷ ts) =
    let later = first_terminated ts in if is_terminated t.status then some t else later

unfoldable pub filter_exit_task : System → Task → ℕ → Outcome (Option Task)
filter_exit_task s task pid = elim (matching s pid task.children) [
  | [] ↦ err echild
  | t ∷ ts ↦ ok (first_terminated (t ∷ ts))
]

-- What the call asks of the scheduler and of the caller's memory. `sole` tells whether no other
-- reference to a task is left, which the code asserts of `Arc::strong_count`.
pub record Kernel {ℓ} (M : Type ℓ) : Type ℓ where
  pub is_task_exit : ℕ → Outcome Bool
  pub remove_task : ℕ → Outcome (Unit {0})
  pub sole : System → ℕ → Bool
  pub write_val : M → ℕ → ℕ → Outcome M

-- The last reference to a task goes when the pass returns.
unfoldable pub drop_task : System → ℕ → System
drop_task s tid = record s { tasks = remove tid s.tasks }

-- One pass of the loop: the answer, with what it leaves, or another pass.
pub data Round {ℓ} (M : Type ℓ) : Type ℓ where
  answer : ℕ → System → M → Round M
  again : Round M

module _ {ℓ} {M : Type ℓ} (k : Kernel M) where
  unfoldable pub reap : System → M → Task → Task → WaitOptions → Outcome (Round M)
  reap s memory task child options =
      if options.wnowait
      then if child.pid == child.tid then ok (answer child.pid s memory) else panic
      else elim (k.remove_task child.tid) [
        | ok _ ↦
            let left =
              update s task.tid
                (λ (t : Task). record t { children = remove child.pid t.children }) in
            if k.sole left child.tid
            then ok (answer child.pid (drop_task left child.tid) memory)
            else panic
        | err _ ↦ panic
        | panic ↦ panic
      ]

  unfoldable pub unwrap_bool : Outcome Bool → Outcome Bool
  unwrap_bool (ok b) = ok b
  unwrap_bool (err _) = panic
  unwrap_bool panic = panic

  unfoldable pub store_code : M → ℕ → ℕ → Outcome M
  store_code memory pointer code =
      if pointer == 0 then ok memory else elim (k.write_val memory pointer code) [
        | ok memory' ↦ ok memory'
        | err _ ↦ panic
        | panic ↦ panic
      ]

  unfoldable pub try_reap : System → M → Task → Task → ℕ → WaitOptions → Outcome (Round M)
  unfolding unwrap_bool store_code
  try_reap s memory task child pointer options =
      unwrap_bool (k.is_task_exit child.tid) >>= (λ is_task_exit.
        if is_terminated child.status && is_task_exit
        then store_code memory pointer child.exit_code
          >>= (λ memory'. reap s memory' task child options)
        else ok again)

  -- The end of a pass: `WNOHANG` answers 0, else the call yields.
  unfoldable pub or_later : System → M → WaitOptions → Round M → Round M
  or_later s memory options (answer pid s' memory') = answer pid s' memory'
  or_later s memory options again = if options.wnohang then answer 0 s memory else again

  unfoldable pub wait_round : System → M → Current → ℕ → ℕ → WaitOptions → Outcome (Round M)
  unfolding try_reap or_later
  wait_round s memory current pid pointer options =
      unwrap (current_task s current) >>= (λ (task : Task).
        filter_exit_task s task pid
        >>= (λ wait_task. elim wait_task [
          | none ↦ ok again
          | some child ↦ try_reap s memory task child pointer options
        ])
        >>= (λ round. ok (or_later s memory options round)))

  -- The passes, over what the others leave of the system and the memory before each of them; `again`
  -- when these are used up.
  unfoldable pub do_wait4 :
      List (System × M) → Current → ℕ → ℕ → Option WaitOptions → Outcome (Round M)
  do_wait4 seen current pid pointer none = err einval
  do_wait4 [] current pid pointer (some options) = ok again
  do_wait4 ((s, memory) ∷ seen) current pid pointer (some options) =
      let later = do_wait4 seen current pid pointer (some options) in
      elim (wait_round s memory current pid pointer options) [
        | ok (answer child s' memory') ↦ ok (answer child s' memory')
        | ok again ↦ later
        | err e ↦ err e
        | panic ↦ panic
      ]
