-- ===== src/Vfs/Domain/QuietCalls.antt =====
-- Each call of the VFS domain on open files leaves its maps and ids.
use domains.Prelude.{ℕ, List, Option, refl, none, some}
use domains.Prelude.Map.{lookup}
use domains.Vfs.Domain.Core.{
  Words, Files, Kinds, Tree, Fcntl64Cmd, EpollCtlOp, f_dupfd, f_dupfd_cloexec, f_getfd, f_setfd,
  f_getfl, f_setfl, getlk, setlk, setlkw, another_cmd,
}
use domains.Vfs.Domain.Quiet.{
  Quiet, bind-Quiet, done-Quiet, fail-Quiet, result-Quiet, expect-Quiet, reject-Quiet, if-Quiet,
  call-Quiet, see-Quiet, change-Quiet, slice-Quiet, on_file, on_start, then_call, then_see,
  then_str,
}
use domains.Vfs.Domain.Calls as On
use domains.Vfs.Domain.Paths as At
use domains.Vfs.Domain.Special as Special

module _ {W F M D I Seek Attr : Type 0} (w : Words) (f : Files W F D I w.Flags Seek Attr) where
  pub vfs_poll-Quiet : (inode events : ℕ) → Quiet {M = M} (On.vfs_poll w f inode events)
  unfolding On.vfs_poll
  vfs_poll-Quiet inode events = on_file inode (λ x. then_call _ (λ y. done-Quiet _))

  pub vfs_write-Quiet :
      (inode : ℕ) (buf : List ℕ) (len : ℕ) → Quiet {M = M} (On.vfs_write f inode buf len)
  unfolding On.vfs_write
  vfs_write-Quiet inode buf len =
      on_file inode
        (λ x. bind-Quiet (if-Quiet _ (slice-Quiet buf len) (done-Quiet buf)) (λ y. call-Quiet _))

  pub fcntl_command-Quiet :
      (file : F) (c : Fcntl64Cmd) (args : ℕ) → Quiet {M = M} (Special.fcntl_command w f file c args)
  unfolding Special.fcntl_command
  fcntl_command-Quiet file f_dupfd_cloexec args =
      then_see _ (λ x. bind-Quiet (change-Quiet _) (λ y. done-Quiet 0))
  fcntl_command-Quiet file f_getfd args = then_see _ (λ x. if-Quiet _ (done-Quiet 1) (done-Quiet 0))
  fcntl_command-Quiet file f_setfd args =
      then_see _
        (λ x. bind-Quiet (if-Quiet _ (change-Quiet _) (change-Quiet _)) (λ y. done-Quiet 0))
  fcntl_command-Quiet file f_getfl args = see-Quiet _
  fcntl_command-Quiet file f_setfl args = bind-Quiet (change-Quiet _) (λ y. done-Quiet 0)
  fcntl_command-Quiet file f_dupfd args = fail-Quiet _
  fcntl_command-Quiet file getlk args = fail-Quiet _
  fcntl_command-Quiet file setlk args = fail-Quiet _
  fcntl_command-Quiet file setlkw args = fail-Quiet _
  fcntl_command-Quiet file another_cmd args = fail-Quiet _

  pub do_fcntl-Quiet : (inode cmd args : ℕ) → Quiet {M = M} (Special.do_fcntl w f inode cmd args)
  unfolding Special.do_fcntl
  do_fcntl-Quiet inode cmd args =
      bind-Quiet (expect-Quiet _) (λ c. on_file inode (λ file. fcntl_command-Quiet file c args))

  pub vfs_ioctl-Quiet : (inode : ℕ) (cmd arg : ℕ) → Quiet {M = M} (On.vfs_ioctl f inode cmd arg)
  unfolding On.vfs_ioctl
  vfs_ioctl-Quiet inode cmd arg = on_file inode (λ file. call-Quiet _)

  pub vfs_getattr-Quiet : (inode : ℕ) → Quiet {M = M} (On.vfs_getattr f inode)
  unfolding On.vfs_getattr
  vfs_getattr-Quiet inode = on_file inode (λ file. call-Quiet _)

  pub vfs_read_at-Quiet :
      (inode : ℕ) (offset : ℕ) (buf : List ℕ) → Quiet {M = M} (On.vfs_read_at f inode offset buf)
  unfolding On.vfs_read_at
  vfs_read_at-Quiet inode offset buf = on_file inode (λ file. call-Quiet _)

  pub vfs_read-Quiet : (inode : ℕ) (buf : List ℕ) → Quiet {M = M} (On.vfs_read f inode buf)
  unfolding On.vfs_read
  vfs_read-Quiet inode buf = on_file inode (λ file. call-Quiet _)

  pub vfs_write_at-Quiet :
      (inode : ℕ) (offset : ℕ) (buf : List ℕ) (len : ℕ)
      → Quiet {M = M} (On.vfs_write_at f inode offset buf len)
  unfolding On.vfs_write_at
  vfs_write_at-Quiet inode offset buf len = on_file inode (λ file. call-Quiet _)

  pub vfs_flush-Quiet : (inode : ℕ) → Quiet {M = M} (On.vfs_flush f inode)
  unfolding On.vfs_flush
  vfs_flush-Quiet inode = on_file inode (λ file. call-Quiet _)

  pub vfs_fsync-Quiet : (inode : ℕ) → Quiet {M = M} (On.vfs_fsync f inode)
  unfolding On.vfs_fsync
  vfs_fsync-Quiet inode = on_file inode (λ file. call-Quiet _)

  pub vfs_lseek-Quiet : (inode : ℕ) (seek : Seek) → Quiet {M = M} (On.vfs_lseek f inode seek)
  unfolding On.vfs_lseek
  vfs_lseek-Quiet inode seek = on_file inode (λ file. call-Quiet _)

  pub vfs_readdir-Quiet : (inode : ℕ) (buf : List ℕ) → Quiet {M = M} (On.vfs_readdir f inode buf)
  unfolding On.vfs_readdir
  vfs_readdir-Quiet inode buf = on_file inode (λ file. call-Quiet _)

  pub vfs_ftruncate-Quiet : (inode : ℕ) (len : ℕ) → Quiet {M = M} (On.vfs_ftruncate f inode len)
  unfolding On.vfs_ftruncate
  vfs_ftruncate-Quiet inode len = on_file inode (λ file. call-Quiet _)

module _ {W F M D I Seek Attr P Sb Stat : Type 0} (w : Words) (f : Files W F D I w.Flags Seek Attr)
    (t : Tree W D I P w.Flags Sb Stat) where
  pub vfs_statfs-Quiet : (inode : ℕ) → Quiet {M = M} (On.vfs_statfs f t inode)
  unfolding On.vfs_statfs
  vfs_statfs-Quiet inode = on_start inode (λ x. then_call _ (λ y. then_call _ (λ z. call-Quiet _)))

  pub vfs_inode_type-Quiet : (inode : ℕ) → Quiet {M = M} (On.vfs_inode_type f t inode)
  unfolding On.vfs_inode_type
  vfs_inode_type-Quiet inode = on_file inode (λ x. then_call _ (λ y. see-Quiet _))

  pub vfs_get_path-Quiet :
      (inode : ℕ) (buf : List ℕ) → Quiet {M = M} (On.vfs_get_path f t inode buf)
  unfolding On.vfs_get_path
  vfs_get_path-Quiet inode buf =
      on_file inode (λ x. then_call _ (λ y. then_see _ (λ z. done-Quiet _)))

  pub vfs_update_atime-Quiet :
      (inode sec nano : ℕ) → Quiet {M = M} (On.vfs_update_atime f t inode sec nano)
  unfolding On.vfs_update_atime
  vfs_update_atime-Quiet inode sec nano =
      on_file inode (λ x. then_see _ (λ y. then_call _ (λ z. then_call _ (λ v. call-Quiet _))))

  pub vfs_update_mtime-Quiet :
      (inode sec nano : ℕ) → Quiet {M = M} (On.vfs_update_mtime f t inode sec nano)
  unfolding On.vfs_update_mtime
  vfs_update_mtime-Quiet inode sec nano =
      on_file inode (λ x. then_see _ (λ y. then_call _ (λ z. then_call _ (λ v. call-Quiet _))))

  pub opened-Quiet :
      (root : ℕ) (path : List ℕ) (len mode flags : ℕ)
      → Quiet {M = M} (At.opened w f t root path len mode flags)
  unfolding At.opened
  opened-Quiet root path len mode flags = on_start root (λ x.
      then_call _ (λ y. then_str _ _ _ (λ z. then_call _ (λ v. then_call _ (λ u. call-Quiet _)))))

  syscontext-Quiet : (fs_info : ℕ × ℕ) → Quiet {M = M} (At.syscontext_for_vfs w f t fs_info)
  unfolding At.syscontext_for_vfs
  syscontext-Quiet fs_info =
      on_file fs_info.0
        (λ x. then_call _ (λ y. on_file fs_info.1 (λ z. then_call _ (λ v. done-Quiet _))))

  pub vfs_rename-Quiet :
      (old new : ℕ) (old_bytes : List ℕ) (old_len : ℕ) (new_bytes : List ℕ) (new_len : ℕ)
      (fs_info : ℕ × ℕ) (flag : ℕ)
      → Quiet {M = M} (At.vfs_rename w f t old new old_bytes old_len new_bytes new_len fs_info flag)
  unfolding At.vfs_rename
  vfs_rename-Quiet old new old_bytes old_len new_bytes new_len fs_info flag = on_file old (λ x.
      on_file new (λ y. then_call _ (λ z. then_call _ (λ v. then_str _ _ _ (λ u.
        then_str _ _ _ (λ q. then_call _ (λ a. then_call _ (λ b. then_call _ (λ c.
          then_call _ (λ d. bind-Quiet (syscontext-Quiet fs_info) (λ e. call-Quiet _)))))))))))

  pub vfs_unlink-Quiet :
      (inode : ℕ) (bytes : List ℕ) (len flag : ℕ)
      → Quiet {M = M} (At.vfs_unlink w f t inode bytes len flag)
  unfolding At.vfs_unlink
  vfs_unlink-Quiet inode bytes len flag = on_file inode (λ x. then_call _ (λ y.
      then_str _ _ _
        (λ z. then_call _ (λ v. then_call _ (λ u. if-Quiet _ (call-Quiet _) (call-Quiet _))))))

  link_source-Quiet : (p : P) (flags : ℕ) → Quiet {M = M} (At.link_source w f t p flags)
  unfolding At.link_source
  link_source-Quiet p flags = if-Quiet _ (call-Quiet _) (call-Quiet _)

  pub vfs_linkat-Quiet :
      (old : ℕ) (old_bytes : List ℕ) (old_len new : ℕ) (new_bytes : List ℕ) (new_len bits : ℕ)
      → Quiet {M = M} (At.vfs_linkat w f t old old_bytes old_len new new_bytes new_len bits)
  unfolding At.vfs_linkat
  vfs_linkat-Quiet old old_bytes old_len new new_bytes new_len bits =
      bind-Quiet (result-Quiet _) (λ flags. bind-Quiet (reject-Quiet _ _) (λ x. on_start old (λ y.
        on_start new (λ z. then_str _ _ _ (λ v. then_str _ _ _ (λ u. then_call _ (λ q.
          then_call _ (λ a. then_call _ (λ b.
            bind-Quiet (link_source-Quiet b flags)
              (λ c. then_call _ (λ d. then_call _ (λ e. then_call _ (λ g. call-Quiet _)))))))))))))

  pub vfs_symlinkat-Quiet :
      (target : List ℕ) (target_len new : ℕ) (bytes : List ℕ) (len : ℕ)
      → Quiet {M = M} (At.vfs_symlinkat w f t target target_len new bytes len)
  unfolding At.vfs_symlinkat
  vfs_symlinkat-Quiet target target_len new bytes len = on_start new (λ x. then_str _ _ _ (λ y.
      then_str _ _ _ (λ z. then_call _ (λ v. then_call _ (λ u. then_call _ (λ q. call-Quiet _))))))

  pub vfs_readlinkat-Quiet :
      (root : ℕ) (bytes : List ℕ) (len : ℕ) (buf : List ℕ)
      → Quiet {M = M} (At.vfs_readlinkat w f t root bytes len buf)
  unfolding At.vfs_readlinkat
  vfs_readlinkat-Quiet root bytes len buf = on_start root (λ x. then_str _ _ _ (λ y.
      then_call _ (λ z. then_call _ (λ v. then_call _ (λ u. then_call _ (λ q.
        then_call _ (λ a. then_see _ (λ b. bind-Quiet (reject-Quiet _ _) (λ c. call-Quiet _)))))))))

module _ {W F M D Fl : Type 0} (k : Kinds W F D M Fl) where
  pub socket_id-Quiet : (inode : ℕ) → Quiet (Special.socket_id k inode)
  unfolding Special.socket_id
  socket_id-Quiet inode = on_file inode (λ file. expect-Quiet _)

  interest_changed-Quiet :
      (epoll : ℕ) (op : EpollCtlOp) (fd event : ℕ) (o : Option (List (ℕ × ℕ)))
      → Quiet (Special.interest_changed k epoll op fd event o)
  unfolding Special.interest_changed
  interest_changed-Quiet epoll op fd event none = record { same = λ _. refl }
  interest_changed-Quiet epoll op fd event (some interest) = record { same = λ _. refl }

  change_interest-Quiet :
      (epoll : ℕ) (op : EpollCtlOp) (fd event : ℕ)
      → Quiet (Special.change_interest k epoll op fd event)
  unfolding Special.change_interest
  change_interest-Quiet epoll op fd event = record {
    same = λ s. (interest_changed-Quiet epoll op fd event (lookup epoll s.interests)).same s;
  }

  pub do_poll_ctl-Quiet :
      (w : Words) (inode op fd event : ℕ) → Quiet (Special.do_poll_ctl k w inode op fd event)
  unfolding Special.do_poll_ctl
  do_poll_ctl-Quiet w inode op fd event = on_file inode (λ file.
      bind-Quiet (expect-Quiet _) (λ epoll_op.
        bind-Quiet (expect-Quiet _) (λ epoll. change_interest-Quiet epoll epoll_op fd event)))
