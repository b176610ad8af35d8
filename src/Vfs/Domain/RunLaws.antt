-- ===== src/Vfs/Domain/RunLaws.antt =====
-- What any call of the VFS domain, and any sequence of calls, keeps.
use domains.Prelude.{ℕ, Bool, true, ◌≡◌, ◌+◌, ◌≤◌, ◌<◌, ◌^◌, List, [], ◌∷◌, false, arith}
use domains.Prelude.Act.{Act, state_of}
use domains.Vfs.Domain.Core.{Words, Files, Kinds, Tree}
use domains.Vfs.Domain.State.{Vfs}
use domains.Vfs.Domain.Quiet.{Quiet}
use domains.Vfs.Domain.Closing.{DropsAnswer}
use domains.Vfs.Domain.QuietCalls.{
  do_fcntl-Quiet, do_poll_ctl-Quiet, socket_id-Quiet, vfs_flush-Quiet, vfs_fsync-Quiet,
  vfs_ftruncate-Quiet, vfs_get_path-Quiet, vfs_getattr-Quiet, vfs_inode_type-Quiet, vfs_ioctl-Quiet,
  vfs_linkat-Quiet, vfs_lseek-Quiet, vfs_poll-Quiet, vfs_read-Quiet, vfs_read_at-Quiet,
  vfs_readdir-Quiet, vfs_readlinkat-Quiet, vfs_rename-Quiet, vfs_statfs-Quiet, vfs_symlinkat-Quiet,
  vfs_unlink-Quiet, vfs_update_atime-Quiet, vfs_update_mtime-Quiet, vfs_write-Quiet,
  vfs_write_at-Quiet,
}
use domains.Vfs.Domain.Keeps.{Keeps, Extends, Agree, Quiet-Keeps, vfs_close-Keeps}
use domains.Vfs.Domain.SpecialKeeps.{
  at_most, do_eventfd-Keeps, do_pipe2-Keeps, do_poll_create-Keeps, do_socket-Keeps, vfs_open-Keeps,
}
use domains.Vfs.Domain.Run.{
  Call, perform, closes, call_vfs_poll, call_vfs_ioctl, call_vfs_open, call_vfs_close,
  call_vfs_getattr, call_vfs_statfs, call_vfs_read_at, call_vfs_read, call_vfs_write_at,
  call_vfs_write, call_vfs_flush, call_vfs_fsync, call_vfs_lseek, call_vfs_inode_type,
  call_vfs_readdir, call_vfs_get_path, call_vfs_ftruncate, call_vfs_update_atime,
  call_vfs_update_mtime, call_vfs_rename, call_vfs_unlink, call_vfs_linkat, call_vfs_symlinkat,
  call_vfs_readlinkat, call_do_fcntl, call_do_pipe2, call_do_socket, call_socket_id,
  call_do_poll_create, call_do_poll_ctl, call_do_eventfd,
}

module _ {W F M D I Seek Attr P Sb Stat : Type 0} (w : Words) (f : Files W F D I w.Flags Seek Attr)
    (t : Tree W D I P w.Flags Sb Stat) (k : Kinds W F D M w.Flags) (strict : Bool) where
  kept_by :
      {A : Type 0} (i b : ℕ) (m : Act (Vfs W F M) A) (s : Vfs W F M)
      → Keeps k strict i b m
      → b ≤ 2
      → Agree k strict s
      → s.inode_id + 2 < 2 ^ 64
      → Extends k strict i 2 s (state_of m s)
  kept_by i b m s h le agree lt = (at_most k strict i b 2 h le).extends s agree lt

  quiet :
      {A : Type 0} (i : ℕ) (m : Act (Vfs W F M) A) (s : Vfs W F M)
      → Quiet m
      → Agree k strict s
      → s.inode_id + 2 < 2 ^ 64
      → Extends k strict i 2 s (state_of m s)
  quiet i m s q agree lt = kept_by i 0 m s (Quiet-Keeps k strict i q) (omega arith) agree lt

  pub perform-Extends :
      (c : Call Seek) (i : ℕ) (s : Vfs W F M)
      → (strict ≡ true → DropsAnswer k)
      → closes c i ≡ false
      → Agree k strict s
      → s.inode_id + 2 < 2 ^ 64
      → Extends k strict i 2 s (perform w f t k c s)
  unfolding perform closes
  perform-Extends (call_vfs_poll x y) i s drops h agree lt =
      quiet i _ s (vfs_poll-Quiet w f x y) agree lt
  perform-Extends (call_vfs_ioctl x y z) i s drops h agree lt =
      quiet i _ s (vfs_ioctl-Quiet w f x y z) agree lt
  perform-Extends (call_vfs_open x y z u v) i s drops h agree lt =
      kept_by i 1 _ s (vfs_open-Keeps w f t k strict i x y z u v) (omega arith) agree lt
  perform-Extends (call_vfs_close x) i s drops h agree lt =
      kept_by i 0 _ s (vfs_close-Keeps k strict i x drops (λ le e. absurd (ground arith)))
        (omega arith) agree lt
  perform-Extends (call_vfs_getattr x) i s drops h agree lt =
      quiet i _ s (vfs_getattr-Quiet w f x) agree lt
  perform-Extends (call_vfs_statfs x) i s drops h agree lt =
      quiet i _ s (vfs_statfs-Quiet w f t x) agree lt
  perform-Extends (call_vfs_read_at x y z) i s drops h agree lt =
      quiet i _ s (vfs_read_at-Quiet w f x y z) agree lt
  perform-Extends (call_vfs_read x y) i s drops h agree lt =
      quiet i _ s (vfs_read-Quiet w f x y) agree lt
  perform-Extends (call_vfs_write_at x y z u) i s drops h agree lt =
      quiet i _ s (vfs_write_at-Quiet w f x y z u) agree lt
  perform-Extends (call_vfs_write x y z) i s drops h agree lt =
      quiet i _ s (vfs_write-Quiet w f x y z) agree lt
  perform-Extends (call_vfs_flush x) i s drops h agree lt =
      quiet i _ s (vfs_flush-Quiet w f x) agree lt
  perform-Extends (call_vfs_fsync x) i s drops h agree lt =
      quiet i _ s (vfs_fsync-Quiet w f x) agree lt
  perform-Extends (call_vfs_lseek x y) i s drops h agree lt =
      quiet i _ s (vfs_lseek-Quiet w f x y) agree lt
  perform-Extends (call_vfs_inode_type x) i s drops h agree lt =
      quiet i _ s (vfs_inode_type-Quiet w f t x) agree lt
  perform-Extends (call_vfs_readdir x y) i s drops h agree lt =
      quiet i _ s (vfs_readdir-Quiet w f x y) agree lt
  perform-Extends (call_vfs_get_path x y) i s drops h agree lt =
      quiet i _ s (vfs_get_path-Quiet w f t x y) agree lt
  perform-Extends (call_vfs_ftruncate x y) i s drops h agree lt =
      quiet i _ s (vfs_ftruncate-Quiet w f x y) agree lt
  perform-Extends (call_vfs_update_atime x y z) i s drops h agree lt =
      quiet i _ s (vfs_update_atime-Quiet w f t x y z) agree lt
  perform-Extends (call_vfs_update_mtime x y z) i s drops h agree lt =
      quiet i _ s (vfs_update_mtime-Quiet w f t x y z) agree lt
  perform-Extends (call_vfs_rename x y z u v a b c) i s drops h agree lt =
      quiet i _ s (vfs_rename-Quiet w f t x y z u v a b c) agree lt
  perform-Extends (call_vfs_unlink x y z u) i s drops h agree lt =
      quiet i _ s (vfs_unlink-Quiet w f t x y z u) agree lt
  perform-Extends (call_vfs_linkat x y z u v a b) i s drops h agree lt =
      quiet i _ s (vfs_linkat-Quiet w f t x y z u v a b) agree lt
  perform-Extends (call_vfs_symlinkat x y z u v) i s drops h agree lt =
      quiet i _ s (vfs_symlinkat-Quiet w f t x y z u v) agree lt
  perform-Extends (call_vfs_readlinkat x y z u) i s drops h agree lt =
      quiet i _ s (vfs_readlinkat-Quiet w f t x y z u) agree lt
  perform-Extends (call_do_fcntl x y z) i s drops h agree lt =
      quiet i _ s (do_fcntl-Quiet w f x y z) agree lt
  perform-Extends (call_do_pipe2 x) i s drops h agree lt =
      kept_by i 2 _ s (do_pipe2-Keeps k strict i x) (omega arith) agree lt
  perform-Extends (call_do_socket x) i s drops h agree lt =
      kept_by i 1 _ s (do_socket-Keeps k strict i x) (omega arith) agree lt
  perform-Extends (call_socket_id x) i s drops h agree lt =
      quiet i _ s (socket_id-Quiet k x) agree lt
  perform-Extends (call_do_poll_create x) i s drops h agree lt =
      kept_by i 1 _ s (do_poll_create-Keeps k strict i x) (omega arith) agree lt
  perform-Extends (call_do_poll_ctl x y z u) i s drops h agree lt =
      quiet i _ s (do_poll_ctl-Quiet k w x y z u) agree lt
  perform-Extends (call_do_eventfd x y) i s drops h agree lt =
      kept_by i 1 _ s (do_eventfd-Keeps k strict i x y) (omega arith) agree lt

module _ {W F M D I Seek Attr P Sb Stat : Type 0} (w : Words) (f : Files W F D I w.Flags Seek Attr)
    (t : Tree W D I P w.Flags Sb Stat) (k : Kinds W F D M w.Flags) where
  unfoldable pub perform_all : List (Call Seek) → Vfs W F M → Vfs W F M
  perform_all [] s = s
  perform_all (c ∷ calls) s = perform_all calls (perform w f t k c s)
