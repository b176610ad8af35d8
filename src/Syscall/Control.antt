-- ===== src/Syscall/Control.antt =====
-- The system calls on descriptors themselves, common/syscall/syscall/src/fs/control.rs, and those for
-- epoll and event counters, fs/poll.rs.
use domains.Prelude.{ℕ, ◌%◌, ◌^◌, none, some, not, ◌==◌, ok_or, if◌then◌else◌, einval}
use domains.Prelude.Act.{Act, done, fail, reject, result, ◌>>=◌, ◌>>◌}
use domains.Vfs.Domain.Core.{
  Fcntl64Cmd, f_dupfd, f_dupfd_cloexec, f_getfd, f_setfd, f_getfl, f_setfl, getlk, setlk, setlkw,
  another_cmd,
}
use domains.Syscall.Domains.{TaskDomain, VfsDomain, Abi, Pod}

module _ {S : Type 0} (task_domain : TaskDomain S) where
  unfoldable pub sys_dup : ℕ → Act S ℕ
  sys_dup oldfd = task_domain.do_dup oldfd none

  unfoldable pub sys_dup2 : ℕ → ℕ → Act S ℕ
  sys_dup2 oldfd newfd =
      if oldfd == newfd then done newfd else task_domain.do_dup oldfd (some newfd)

module _ {S Seek Attr Event : Type 0} (a : Abi S Seek Attr) (vfs : VfsDomain S Seek Attr Event)
    (task_domain : TaskDomain S) where
  unfoldable pub sys_ioctl : ℕ → ℕ → ℕ → Act S ℕ
  sys_ioctl fd request argp = do
    file ← task_domain.get_fd fd
    reject (not (a.is_teletype_command (request % 2 ^ 32))) einval
    vfs.vfs_ioctl file (request % 2 ^ 32) argp

  -- The commands on the flags of the file.
  unfoldable pub fcntl_file : ℕ → ℕ → ℕ → Act S ℕ
  fcntl_file fd raw_cmd arg = do file ← task_domain.get_fd fd; vfs.do_fcntl file raw_cmd arg

  unfoldable pub fcntl_command : Fcntl64Cmd → ℕ → ℕ → ℕ → Act S ℕ
  unfolding fcntl_file
  fcntl_command f_dupfd fd raw_cmd arg = do copy ← task_domain.do_fcntl fd raw_cmd; done copy.1
  fcntl_command f_dupfd_cloexec fd raw_cmd arg = do
    copy ← task_domain.do_fcntl fd raw_cmd
    res ← vfs.do_fcntl copy.0 raw_cmd arg
    done copy.1
  fcntl_command f_getfd fd raw_cmd arg = fcntl_file fd raw_cmd arg
  fcntl_command f_setfd fd raw_cmd arg = fcntl_file fd raw_cmd arg
  fcntl_command f_getfl fd raw_cmd arg = fcntl_file fd raw_cmd arg
  fcntl_command f_setfl fd raw_cmd arg = fcntl_file fd raw_cmd arg
  fcntl_command getlk fd raw_cmd arg = done 0
  fcntl_command setlk fd raw_cmd arg = done 0
  fcntl_command setlkw fd raw_cmd arg = done 0
  fcntl_command another_cmd fd raw_cmd arg = fail einval

  unfoldable pub sys_fcntl : ℕ → ℕ → ℕ → Act S ℕ
  unfolding fcntl_command
  sys_fcntl fd cmd arg = do
    command ← result (ok_or (a.fcntl_cmd (cmd % 2 ^ 32)) einval)
    fcntl_command command fd cmd arg

  unfoldable pub close_on_exec : ℕ → Act S ℕ
  close_on_exec new_fd = do
    file ← task_domain.get_fd new_fd
    res ← vfs.do_fcntl file a.f_setfd_number 1
    done new_fd

  unfoldable pub sys_dup3 : ℕ → ℕ → ℕ → Act S ℕ
  unfolding close_on_exec
  sys_dup3 oldfd newfd flags = do
    reject (oldfd == newfd) einval
    reject (a.has_others flags) einval
    new_fd ← task_domain.do_dup oldfd (some newfd)
    if a.has_cloexec flags then close_on_exec new_fd else done new_fd

  unfoldable pub sys_poll_createl : ℕ → Act S ℕ
  sys_poll_createl flags = do
    epoll_file ← vfs.do_poll_create (a.open_bits flags)
    task_domain.add_fd epoll_file

  unfoldable pub sys_eventfd2 : ℕ → ℕ → Act S ℕ
  sys_eventfd2 init_val flags = do
    eventfd_file ← vfs.do_eventfd (init_val % 2 ^ 32) (flags % 2 ^ 32)
    task_domain.add_fd eventfd_file

  -- `EpollEventTmp`, of the same fields as `EpollEvent`.
  unfoldable pub sys_poll_ctl : Pod Event → ℕ → ℕ → ℕ → ℕ → Act S ℕ
  sys_poll_ctl event_tmp epfd op fd event_ptr = do
    event ← task_domain.read_val_from_user event_tmp event_ptr
    inode ← task_domain.get_fd epfd
    vfs.do_poll_ctl inode (op % 2 ^ 32) fd event
    done 0
