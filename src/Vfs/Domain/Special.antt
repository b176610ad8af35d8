-- ===== src/Vfs/Domain/Special.antt =====
-- The calls of `VfsDomainImpl` on the flags of a file and for files without a path: pipes, sockets,
-- event counters and epoll files (common/vfs/vfs/src/lib.rs, epoll.rs).
use domains.Prelude.{
  ℕ, ◌%◌, ◌^◌, List, [], Option, none, some, if◌then◌else◌, ◌==◌, einval, Outcome, ok, err, panic,
}
use domains.Prelude.Map.{lookup, insert, remove}
use domains.Prelude.Act.{Act, done, fail, expect, ◌>>=◌, ◌>>◌}
use domains.Vfs.Domain.Core.{
  Words, Files, Kinds, Fcntl64Cmd, f_dupfd, f_dupfd_cloexec, f_getfd, f_setfd, f_getfl, f_setfl,
  getlk, setlk, setlkw, another_cmd, EpollCtlOp, epoll_ctl_add, epoll_ctl_del, epoll_ctl_mod,
}
use domains.Vfs.Domain.State.{Vfs, call, see, change, get_file, insert_special_file}

module _ {W F M D I Seek Attr : Type 0} (w : Words) (f : Files W F D I w.Flags Seek Attr) where
  open w use {contains, union, difference, o_cloexec}

  unfoldable pub fcntl_command : F → Fcntl64Cmd → ℕ → Act (Vfs W F M) ℕ
  fcntl_command file f_dupfd_cloexec args = do
    open_flag ← see (f.get_open_flag file)
    change (f.set_open_flag file (union open_flag o_cloexec))
    done 0
  fcntl_command file f_getfd args = do
    open_flag ← see (f.get_open_flag file)
    if contains open_flag o_cloexec then done 1 else done 0
  fcntl_command file f_setfd args = do
    open_flag ← see (f.get_open_flag file)
    if args % 2 == 0
        then change (f.set_open_flag file (difference open_flag o_cloexec))
        else change (f.set_open_flag file (union open_flag o_cloexec))
    done 0
  fcntl_command file f_getfl args = see (λ x. w.bits (f.get_open_flag file x))
  fcntl_command file f_setfl args = do
    change (f.set_open_flag file (w.from_bits_truncate args))
    done 0
  fcntl_command file f_dupfd args = fail einval
  fcntl_command file getlk args = fail einval
  fcntl_command file setlk args = fail einval
  fcntl_command file setlkw args = fail einval
  fcntl_command file another_cmd args = fail einval

  unfoldable pub do_fcntl : ℕ → ℕ → ℕ → Act (Vfs W F M) ℕ
  unfolding fcntl_command
  do_fcntl inode cmd args = do
    command ← expect (w.fcntl_cmd (cmd % 2 ^ 32))
    file ← get_file inode
    fcntl_command file command args

-- `EpollFile::ctl` on the interests of one file.
unfoldable pub ctl : EpollCtlOp → ℕ → ℕ → List (ℕ × ℕ) → List (ℕ × ℕ)
ctl epoll_ctl_add fd event interest = insert fd event interest
ctl epoll_ctl_del fd event interest = remove fd interest
ctl epoll_ctl_mod fd event interest = insert fd event interest

module _ {W F D M Fl : Type 0} (k : Kinds W F D M Fl) where
  -- The reading end, then the writing end.
  unfoldable pub insert_ends : F × F → Act (Vfs W F M) (ℕ × ℕ)
  insert_ends ends = do r ← insert_special_file ends.0; v ← insert_special_file ends.1; done (r, v)

  unfoldable pub do_pipe2 : ℕ → Act (Vfs W F M) (ℕ × ℕ)
  unfolding insert_ends
  do_pipe2 flags = call k.make_pipe_file >>= insert_ends

  -- `NET_STACK_DOMAIN.get().unwrap()`
  unfoldable pub net_stack : Act (Vfs W F M) (Unit {0})
  net_stack s = expect (if s.net_stack_domain then some tt else none) s

  unfoldable pub do_socket : ℕ → Act (Vfs W F M) ℕ
  do_socket socket_id = net_stack >> insert_special_file (k.socket_file socket_id)

  unfoldable pub socket_id : ℕ → Act (Vfs W F M) ℕ
  socket_id inode = get_file inode >>= λ file. expect (k.as_socket file)

  -- `EpollFile::new`, whose number is the id that it will have.
  unfoldable pub do_poll_create : ℕ → Act (Vfs W F M) ℕ
  do_poll_create flags s =
      insert_special_file (k.epoll_file s.inode_id)
        (record s { interests = insert s.inode_id [] s.interests })

  -- The interests of an epoll file that is open are there.
  unfoldable pub interest_changed :
      ℕ → EpollCtlOp → ℕ → ℕ → Option (List (ℕ × ℕ)) → Act (Vfs W F M) (Unit {0})
  unfolding ctl
  interest_changed epoll op fd event (some interest) s =
      (ok tt, record s { interests = insert epoll (ctl op fd event interest) s.interests })
  interest_changed epoll op fd event none s = (panic, s)

  unfoldable pub change_interest : ℕ → EpollCtlOp → ℕ → ℕ → Act (Vfs W F M) (Unit {0})
  unfolding interest_changed
  change_interest epoll op fd event s =
      interest_changed epoll op fd event (lookup epoll s.interests) s

  unfoldable pub do_poll_ctl : Words → ℕ → ℕ → ℕ → ℕ → Act (Vfs W F M) (Unit {0})
  do_poll_ctl w inode op fd event = do
    file ← get_file inode
    epoll_op ← expect (w.epoll_ctl_op op)
    epoll ← expect (k.as_epoll file)
    change_interest epoll epoll_op fd event

  -- `unwrap` of the new file.
  unfoldable pub insert_unwrapped : Outcome F × Vfs W F M → Outcome ℕ × Vfs W F M
  insert_unwrapped (ok file, s) = insert_special_file file s
  insert_unwrapped (err e, s) = (panic, s)
  insert_unwrapped (panic, s) = (panic, s)

  unfoldable pub do_eventfd : ℕ → ℕ → Act (Vfs W F M) ℕ
  unfolding insert_unwrapped
  do_eventfd init_val flags s = insert_unwrapped (call (k.eventfd init_val flags) s)
