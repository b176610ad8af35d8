-- ===== src/Vfs/Domain/Sequences.antt =====
-- Sequences of calls of the VFS domain, and its crashes between them.
use domains.Prelude.{
  ℕ, Bool, true, ◌≡◌, refl, ◌+◌, ◌*◌, ◌<◌, ◌^◌, List, [], ◌∷◌, some, false, arith, length, All,
}
use domains.Prelude.Map.{lookup}
use domains.Vfs.Domain.Core.{Words, Files, Kinds, Tree}
use domains.Vfs.Domain.State.{Vfs}
use domains.Vfs.Domain.Closing.{DropsAnswer}
use domains.Vfs.Domain.Keeps.{Agree}
use domains.Vfs.Domain.Run.{
  Call, perform, closes, call_vfs_poll, call_vfs_ioctl, call_vfs_open, call_vfs_close,
  call_vfs_getattr, call_vfs_statfs, call_vfs_read_at, call_vfs_read, call_vfs_write_at,
  call_vfs_write, call_vfs_flush, call_vfs_fsync, call_vfs_lseek, call_vfs_inode_type,
  call_vfs_readdir, call_vfs_get_path, call_vfs_ftruncate, call_vfs_update_atime,
  call_vfs_update_mtime, call_vfs_rename, call_vfs_unlink, call_vfs_linkat, call_vfs_symlinkat,
  call_vfs_readlinkat, call_do_fcntl, call_do_pipe2, call_do_socket, call_socket_id,
  call_do_poll_create, call_do_poll_ctl, call_do_eventfd,
}
use domains.Vfs.Domain.RunLaws.{perform-Extends, perform_all}

-- The root directory and the standard files are never closed.
closes-root : {Seek : Type 0} (c : Call Seek) → closes c 0 ≡ false
unfolding closes
closes-root (call_vfs_poll _ _) = refl
closes-root (call_vfs_ioctl _ _ _) = refl
closes-root (call_vfs_open _ _ _ _ _) = refl
closes-root (call_vfs_close x) = ground arith
closes-root (call_vfs_getattr _) = refl
closes-root (call_vfs_statfs _) = refl
closes-root (call_vfs_read_at _ _ _) = refl
closes-root (call_vfs_read _ _) = refl
closes-root (call_vfs_write_at _ _ _ _) = refl
closes-root (call_vfs_write _ _ _) = refl
closes-root (call_vfs_flush _) = refl
closes-root (call_vfs_fsync _) = refl
closes-root (call_vfs_lseek _ _) = refl
closes-root (call_vfs_inode_type _) = refl
closes-root (call_vfs_readdir _ _) = refl
closes-root (call_vfs_get_path _ _) = refl
closes-root (call_vfs_ftruncate _ _) = refl
closes-root (call_vfs_update_atime _ _ _) = refl
closes-root (call_vfs_update_mtime _ _ _) = refl
closes-root (call_vfs_rename _ _ _ _ _ _ _ _) = refl
closes-root (call_vfs_unlink _ _ _ _) = refl
closes-root (call_vfs_linkat _ _ _ _ _ _ _) = refl
closes-root (call_vfs_symlinkat _ _ _ _ _) = refl
closes-root (call_vfs_readlinkat _ _ _ _) = refl
closes-root (call_do_fcntl _ _ _) = refl
closes-root (call_do_pipe2 _) = refl
closes-root (call_do_socket _) = refl
closes-root (call_socket_id _) = refl
closes-root (call_do_poll_create _) = refl
closes-root (call_do_poll_ctl _ _ _ _) = refl
closes-root (call_do_eventfd _ _) = refl

module _ {W F M D I Seek Attr P Sb Stat : Type 0} (w : Words) (f : Files W F D I w.Flags Seek Attr)
    (t : Tree W D I P w.Flags Sb Stat) (k : Kinds W F D M w.Flags) where
  -- Over any sequence of calls of the VFS domain, whatever each of them answers, the maps go on
  -- agreeing, if they agreed before and the ids do not reach 2 ^ 64: a kernel file stands under
  -- the id that it has, in the map, in its shadow and with its data in the storage, nothing else
  -- is in the storage, the ids in use lie below the next one, and nothing else is in the shadow
  -- but ids whose file was lost by a removal that panicked; where strict, the maps hold no such id
  -- before, the drop of a file never panics, and they hold none afterwards.
  pub perform_all-Agree :
      (strict : Bool) (calls : List (Call Seek)) (s : Vfs W F M)
      → (strict ≡ true → DropsAnswer k)
      → Agree k strict s
      → s.inode_id + 2 * length calls < 2 ^ 64
      → Agree k strict (perform_all w f t k calls s)
  unfolding perform_all
  perform_all-Agree strict [] s drops h lt = h
  perform_all-Agree strict (c ∷ calls) s drops h lt =
      let one = perform-Extends w f t k strict c 0 s drops (closes-root c) h (omega arith) in
      let up = one.bounded in
      perform_all-Agree strict calls (perform w f t k c s) drops one.fresh (omega arith)

  -- Over any sequence of calls of the VFS domain, none of which closes the id, an open id goes on
  -- naming the file that it named, if the maps agreed before, up to ids that removals which
  -- panicked left in the shadow, and the ids do not reach 2 ^ 64.
  pub open_files_stay :
      (calls : List (Call Seek)) (i : ℕ) (s : Vfs W F M) (file : F)
      → All (λ c. closes c i ≡ false) calls
      → Agree k false s
      → s.inode_id + 2 * length calls < 2 ^ 64
      → lookup i s.vfs_map ≡ some file
      → lookup i (perform_all w f t k calls s).vfs_map ≡ some file
  unfolding perform_all
  open_files_stay [] i s file none_closes h lt e = e
  open_files_stay (c ∷ calls) i s file (first, others) h lt e =
      let one =
        perform-Extends w f t k false c i s (λ e. absurd (ground arith)) first h (omega arith) in
      let up = one.bounded in
      open_files_stay calls i (perform w f t k c s) file others one.fresh (omega arith)
        (one.kept file e)
