-- ===== src/Vfs/Domain/Run.antt =====
-- The interface of the VFS domain, `VfsDomain`, as one call: which method, with its arguments.
use domains.Prelude.{ℕ, List, Bool, false, ◌==◌, leb, ◌&&◌}
use domains.Prelude.Act.{state_of}
use domains.Vfs.Domain.Core.{Words, Files, Kinds, Tree}
use domains.Vfs.Domain.State.{Vfs}
use domains.Vfs.Domain.Calls as On
use domains.Vfs.Domain.Paths as At
use domains.Vfs.Domain.Special as Special

pub data Call (Seek : Type 0) : Type 0 where
  call_vfs_poll : ℕ → ℕ → Call Seek
  call_vfs_ioctl : ℕ → ℕ → ℕ → Call Seek
  call_vfs_open : ℕ → List ℕ → ℕ → ℕ → ℕ → Call Seek
  call_vfs_close : ℕ → Call Seek
  call_vfs_getattr : ℕ → Call Seek
  call_vfs_statfs : ℕ → Call Seek
  call_vfs_read_at : ℕ → ℕ → List ℕ → Call Seek
  call_vfs_read : ℕ → List ℕ → Call Seek
  call_vfs_write_at : ℕ → ℕ → List ℕ → ℕ → Call Seek
  call_vfs_write : ℕ → List ℕ → ℕ → Call Seek
  call_vfs_flush : ℕ → Call Seek
  call_vfs_fsync : ℕ → Call Seek
  call_vfs_lseek : ℕ → Seek → Call Seek
  call_vfs_inode_type : ℕ → Call Seek
  call_vfs_readdir : ℕ → List ℕ → Call Seek
  call_vfs_get_path : ℕ → List ℕ → Call Seek
  call_vfs_ftruncate : ℕ → ℕ → Call Seek
  call_vfs_update_atime : ℕ → ℕ → ℕ → Call Seek
  call_vfs_update_mtime : ℕ → ℕ → ℕ → Call Seek
  call_vfs_rename : ℕ → ℕ → List ℕ → ℕ → List ℕ → ℕ → (ℕ × ℕ) → ℕ → Call Seek
  call_vfs_unlink : ℕ → List ℕ → ℕ → ℕ → Call Seek
  call_vfs_linkat : ℕ → List ℕ → ℕ → ℕ → List ℕ → ℕ → ℕ → Call Seek
  call_vfs_symlinkat : List ℕ → ℕ → ℕ → List ℕ → ℕ → Call Seek
  call_vfs_readlinkat : ℕ → List ℕ → ℕ → List ℕ → Call Seek
  call_do_fcntl : ℕ → ℕ → ℕ → Call Seek
  call_do_pipe2 : ℕ → Call Seek
  call_do_socket : ℕ → Call Seek
  call_socket_id : ℕ → Call Seek
  call_do_poll_create : ℕ → Call Seek
  call_do_poll_ctl : ℕ → ℕ → ℕ → ℕ → Call Seek
  call_do_eventfd : ℕ → ℕ → Call Seek

module _ {W F M D I Seek Attr P Sb Stat : Type 0} (w : Words) (f : Files W F D I w.Flags Seek Attr)
    (t : Tree W D I P w.Flags Sb Stat) (k : Kinds W F D M w.Flags) where
  -- What a call leaves of the domain.
  unfoldable pub perform : Call Seek → Vfs W F M → Vfs W F M
  perform (call_vfs_poll x y) = state_of (On.vfs_poll w f x y)
  perform (call_vfs_ioctl x y z) = state_of (On.vfs_ioctl f x y z)
  perform (call_vfs_open x y z u v) = state_of (At.vfs_open w f t k x y z u v)
  perform (call_vfs_close x) = state_of (On.vfs_close k x)
  perform (call_vfs_getattr x) = state_of (On.vfs_getattr f x)
  perform (call_vfs_statfs x) = state_of (On.vfs_statfs f t x)
  perform (call_vfs_read_at x y z) = state_of (On.vfs_read_at f x y z)
  perform (call_vfs_read x y) = state_of (On.vfs_read f x y)
  perform (call_vfs_write_at x y z u) = state_of (On.vfs_write_at f x y z u)
  perform (call_vfs_write x y z) = state_of (On.vfs_write f x y z)
  perform (call_vfs_flush x) = state_of (On.vfs_flush f x)
  perform (call_vfs_fsync x) = state_of (On.vfs_fsync f x)
  perform (call_vfs_lseek x y) = state_of (On.vfs_lseek f x y)
  perform (call_vfs_inode_type x) = state_of (On.vfs_inode_type f t x)
  perform (call_vfs_readdir x y) = state_of (On.vfs_readdir f x y)
  perform (call_vfs_get_path x y) = state_of (On.vfs_get_path f t x y)
  perform (call_vfs_ftruncate x y) = state_of (On.vfs_ftruncate f x y)
  perform (call_vfs_update_atime x y z) = state_of (On.vfs_update_atime f t x y z)
  perform (call_vfs_update_mtime x y z) = state_of (On.vfs_update_mtime f t x y z)
  perform (call_vfs_rename x y z u v a b c) = state_of (At.vfs_rename w f t x y z u v a b c)
  perform (call_vfs_unlink x y z u) = state_of (At.vfs_unlink w f t x y z u)
  perform (call_vfs_linkat x y z u v a b) = state_of (At.vfs_linkat w f t x y z u v a b)
  perform (call_vfs_symlinkat x y z u v) = state_of (At.vfs_symlinkat w f t x y z u v)
  perform (call_vfs_readlinkat x y z u) = state_of (At.vfs_readlinkat w f t x y z u)
  perform (call_do_fcntl x y z) = state_of (Special.do_fcntl w f x y z)
  perform (call_do_pipe2 x) = state_of (Special.do_pipe2 k x)
  perform (call_do_socket x) = state_of (Special.do_socket k x)
  perform (call_socket_id x) = state_of (Special.socket_id k x)
  perform (call_do_poll_create x) = state_of (Special.do_poll_create k x)
  perform (call_do_poll_ctl x y z u) = state_of (Special.do_poll_ctl k w x y z u)
  perform (call_do_eventfd x y) = state_of (Special.do_eventfd k x y)

-- The call closes the id, which `vfs_close` does but for the first four.
unfoldable pub closes : {Seek : Type 0} → Call Seek → ℕ → Bool
closes (call_vfs_poll _ _) i = false
closes (call_vfs_ioctl _ _ _) i = false
closes (call_vfs_open _ _ _ _ _) i = false
closes (call_vfs_close x) i = leb 4 x && (x == i)
closes (call_vfs_getattr _) i = false
closes (call_vfs_statfs _) i = false
closes (call_vfs_read_at _ _ _) i = false
closes (call_vfs_read _ _) i = false
closes (call_vfs_write_at _ _ _ _) i = false
closes (call_vfs_write _ _ _) i = false
closes (call_vfs_flush _) i = false
closes (call_vfs_fsync _) i = false
closes (call_vfs_lseek _ _) i = false
closes (call_vfs_inode_type _) i = false
closes (call_vfs_readdir _ _) i = false
closes (call_vfs_get_path _ _) i = false
closes (call_vfs_ftruncate _ _) i = false
closes (call_vfs_update_atime _ _ _) i = false
closes (call_vfs_update_mtime _ _ _) i = false
closes (call_vfs_rename _ _ _ _ _ _ _ _) i = false
closes (call_vfs_unlink _ _ _ _) i = false
closes (call_vfs_linkat _ _ _ _ _ _ _) i = false
closes (call_vfs_symlinkat _ _ _ _ _) i = false
closes (call_vfs_readlinkat _ _ _ _) i = false
closes (call_do_fcntl _ _ _) i = false
closes (call_do_pipe2 _) i = false
closes (call_do_socket _) i = false
closes (call_socket_id _) i = false
closes (call_do_poll_create _) i = false
closes (call_do_poll_ctl _ _ _ _) i = false
closes (call_do_eventfd _ _) i = false
