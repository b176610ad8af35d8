-- ===== src/Task/Process/Groups.antt =====
-- Process groups and sessions: `do_get_pgid`, `do_get_sid`, `do_set_pgid` and `do_set_sid` of
-- common/task/task/src/lib.rs, with the calls beside them that read or set one field of the
-- current task.
use domains.Prelude.{
  ℕ, Option, none, some, ◌||◌, ◌==◌, if◌then◌else◌, Outcome, ok, err, ◌>>=◌, ok_or, unwrap, einval,
  esrch, eperm, ◌%◌,
}
use domains.Task.Process.State.{Task, System, get, update, current_task, find_task_by_pid}

abbrev pub Current : Type 0
Current = Outcome (Option ℕ)

-- A group of 0 is the target's own.
abbrev pub new_group : Task → ℕ → ℕ
new_group target pgid = if pgid == 0 then target.pid else pgid

module _ (s : System) where
  -- `parent.upgrade()` fails when the parent is gone; `Arc::ptr_eq` compares tasks, so tids.
  unfoldable pub child_of : Task → Task → Outcome Task
  child_of me t = elim t.parent [
    | none ↦ err eperm
    | some p ↦
        ok_or (get s p) eperm
        >>= (λ (parent : Task). if parent.tid == me.tid then ok t else err eperm)
  ]

  unfoldable pub target_of : Task → ℕ → Outcome Task
  target_of me pid =
      if (pid == 0) || (pid == me.pid)
      then ok me
      else ok_or (find_task_by_pid s pid) esrch >>= child_of me

  unfoldable pub join_group : Task → ℕ → Outcome (ℕ × System)
  join_group target new =
      if target.process_group == new
      then ok (0, s)
      else if target.session_id == target.pid
      then err eperm
      else ok_or (find_task_by_pid s new) eperm >>= (λ (leader : Task).
        if leader.session_id == target.session_id
        then ok (0, update s target.tid (λ (t : Task). record t { process_group = new }))
        else err eperm)

module _ (s : System) (current : Current) where
  -- `pid == 0 || pid == current.pid()` means the caller.
  unfoldable pub named : ℕ → Outcome Task
  named pid = ok_or (current_task s current) einval >>= (λ (me : Task).
      if (pid == 0) || (pid == me.pid) then ok me else ok_or (find_task_by_pid s pid) esrch)

  unfoldable pub do_get_pgid : ℕ → Outcome ℕ
  unfolding named
  do_get_pgid pid = named pid >>= (λ (t : Task). ok t.process_group)

  unfoldable pub do_get_sid : ℕ → Outcome ℕ
  unfolding named
  do_get_sid pid = named pid >>= (λ (t : Task). ok t.session_id)

  unfoldable pub do_set_pgid : ℕ → ℕ → Outcome (ℕ × System)
  do_set_pgid pid pgid =
      ok_or (current_task s current) einval
      >>= (λ (me : Task). target_of s me pid)
      >>= (λ (target : Task). join_group s target (new_group target pgid))

  unfoldable pub do_set_sid : Outcome (ℕ × System)
  do_set_sid = ok_or (current_task s current) einval >>= (λ (me : Task).
      if me.process_group == me.pid
      then err eperm
      else ok (
        me.pid,
        update s me.tid (λ (t : Task). record t { session_id = me.pid; process_group = me.pid }),
      ))

  unfoldable pub current_pid : Outcome ℕ
  current_pid = unwrap (current_task s current) >>= (λ (me : Task). ok me.pid)

  unfoldable pub current_ppid : Outcome ℕ
  current_ppid = unwrap (current_task s current) >>= (λ (me : Task). elim me.parent [
    | none ↦ ok 0
    | some p ↦ unwrap (get s p) >>= (λ (parent : Task). ok parent.pid)
  ])

  unfoldable pub current_pgid : Outcome ℕ
  current_pgid = unwrap (current_task s current) >>= (λ (me : Task). ok me.process_group)

  unfoldable pub current_sid : Outcome ℕ
  current_sid = unwrap (current_task s current) >>= (λ (me : Task). ok me.session_id)

  -- `mask & 0o777`
  unfoldable pub do_umask : ℕ → Outcome (ℕ × System)
  do_umask mask = unwrap (current_task s current) >>= (λ (me : Task).
      ok (me.umask, update s me.tid (λ (t : Task). record t { umask = mask % 512 })))

  unfoldable pub fs_info : Outcome (ℕ × ℕ)
  fs_info = unwrap (current_task s current) >>= (λ (me : Task). ok (me.root, me.cwd))

  unfoldable pub set_cwd : ℕ → Outcome System
  set_cwd inode =
      unwrap (current_task s current)
      >>= (λ (me : Task). ok (update s me.tid (λ (t : Task). record t { cwd = inode })))

  unfoldable pub do_set_tid_address : ℕ → Outcome (ℕ × System)
  do_set_tid_address tidptr = unwrap (current_task s current) >>= (λ (me : Task).
      ok (me.tid, update s me.tid (λ (t : Task). record t { clear_child_tid = tidptr })))
