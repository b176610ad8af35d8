-- ===== src/Task/Process/Clone.antt =====
-- New tasks: what `Task::do_clone` of common/task/task/src/task.rs and `do_clone` of syscall/clone.rs do to
-- the processes. Address spaces, threads' frames, registers, descriptors and the words that are
-- written to the user are left out.
use domains.Prelude.{
  ℕ, [], Option, some, Bool, if◌then◌else◌, Outcome, ok, err, ◌>>=◌, unwrap, ok_or, einval, eagain,
}
use domains.Prelude.Map.{insert}
use domains.Task.Process.State.{Task, System, ready, update, current_task}
use domains.Task.Process.Groups.{Current}

-- `CloneArgs`, by what decides over the new task's place among the processes.
pub record CloneArgs : Type 0 where
  pub clone_parent : Bool
  pub clone_thread : Bool
  pub clone_child_cleartid : Bool
  pub ctid : ℕ

unfoldable pub new_task : Task → CloneArgs → ℕ → Task
new_task me args tid = record {
  tid = tid;
  pid = if args.clone_thread then me.pid else tid;
  process_group = me.process_group;
  session_id = me.session_id;
  status = ready;
  parent = if args.clone_parent then me.parent else some me.tid;
  children = [];
  exit_code = 0;
  clear_child_tid = if args.clone_child_cleartid then args.ctid else 0;
  umask = me.umask;
  cwd = me.cwd;
  root = me.root;
}

-- The new task in the store.
unfoldable pub put_task : System → Task → System
put_task s task = record s { tasks = insert task.tid task s.tasks }

-- The caller's map of children has the new task under its pid, but with `CLONE_PARENT`.
unfoldable pub place : System → Task → CloneArgs → Task → System
place s me args task =
    if args.clone_parent
    then put_task s task
    else update (put_task s task) me.tid
        (λ (t : Task). record t { children = insert task.pid task.tid t.children })

-- The table of tasks gets it. That `wake_up_wait_task`, which is unwrapped, succeeds is taken for granted.
unfoldable pub add_task : System → Task → System
add_task s task = record s { manager = insert task.tid tt s.manager }

-- `tid` is what the allocator of tids gives, if it has any left; the call fails on a signal number that
-- is none.
unfoldable pub do_clone : System → Current → CloneArgs → Bool → Option ℕ → Outcome (ℕ × System)
do_clone s current args is_signal tid =
    if is_signal
    then unwrap (current_task s current) >>= (λ (me : Task). ok_or tid eagain >>= (λ (tid : ℕ).
      let task = new_task me args tid in ok (tid, add_task (place s me args task) task)))
    else err einval
