-- ===== src/Generic/Sequences.antt =====
-- Sequences of calls of a file-system domain, and the ids that a call gives out.
use domains.Prelude.{ℕ, ◌≡◌, refl, ◌+◌, ◌^◌, ◌<◌, List, [], ◌∷◌, some, false, arith, length, All}
use domains.Prelude.Map.{lookup}
use domains.Generic.Core.{Dentries, Inodes, Blocks, Names}
use domains.Generic.State.{Fs}
use domains.Generic.Keeps.{IsFresh}
use domains.Generic.Run.{
  Call, perform, drops, call_drop_inode, call_dentry_name, call_dentry_path, call_dentry_set_parent,
  call_dentry_parent, call_dentry_to_mount_point, call_dentry_mount_point,
  call_dentry_clear_mount_point, call_dentry_find, call_dentry_remove, call_read_at, call_write_at,
  call_readdir, call_poll, call_ioctl, call_flush, call_fsync, call_rmdir, call_node_permission,
  call_create, call_link, call_unlink, call_symlink, call_lookup, call_readlink, call_set_attr,
  call_get_attr, call_inode_type, call_truncate, call_rename, call_update_time, call_mount,
  call_sync_fs, call_stat_fs, call_super_type, call_kill_sb, call_fs_name,
}
use domains.Generic.RunLaws.{perform-Extends}

-- The root is never given back.
drops-root : {Attr : Type 0} (c : Call Attr) → drops c 0 ≡ false
unfolding drops
drops-root (call_drop_inode x) = ground arith
drops-root (call_dentry_name _ _) = refl
drops-root (call_dentry_path _ _) = refl
drops-root (call_dentry_set_parent _ _ _) = refl
drops-root (call_dentry_parent _) = refl
drops-root (call_dentry_to_mount_point _ _ _) = refl
drops-root (call_dentry_mount_point _ _) = refl
drops-root (call_dentry_clear_mount_point _) = refl
drops-root (call_dentry_find _ _) = refl
drops-root (call_dentry_remove _ _) = refl
drops-root (call_read_at _ _ _) = refl
drops-root (call_write_at _ _ _) = refl
drops-root (call_readdir _ _ _) = refl
drops-root (call_poll _ _) = refl
drops-root (call_ioctl _ _ _) = refl
drops-root (call_flush _) = refl
drops-root (call_fsync _) = refl
drops-root (call_rmdir _ _) = refl
drops-root (call_node_permission _) = refl
drops-root (call_create _ _ _ _ _) = refl
drops-root (call_link _ _ _) = refl
drops-root (call_unlink _ _) = refl
drops-root (call_symlink _ _ _) = refl
drops-root (call_lookup _ _) = refl
drops-root (call_readlink _ _) = refl
drops-root (call_set_attr _ _) = refl
drops-root (call_get_attr _) = refl
drops-root (call_inode_type _) = refl
drops-root (call_truncate _ _) = refl
drops-root (call_rename _ _ _ _ _) = refl
drops-root (call_update_time _ _ _) = refl
drops-root (call_mount _ _) = refl
drops-root (call_sync_fs _) = refl
drops-root call_stat_fs = refl
drops-root call_super_type = refl
drops-root call_kill_sb = refl
drops-root (call_fs_name _) = refl

module _ {W D I Attr Stat Sb FsStat : Type 0} (d : Dentries W D I) (i : Inodes W I Attr Stat)
    (b : Blocks W D I Sb FsStat) (n : Names) where
  unfoldable pub perform_all : List (Call Attr) → Fs W D → Fs W D
  perform_all [] s = s
  perform_all (c ∷ calls) s = perform_all calls (perform d i b n c s)

  -- Over any sequence of calls of a file-system domain, whatever each of them answers, every id in
  -- use lies below the next one to be given out, if it was so before and the ids do not reach 2 ^
  -- 64.
  pub perform_all-IsFresh :
      (calls : List (Call Attr)) (s : Fs W D)
      → IsFresh s
      → s.inode_index + length calls < 2 ^ 64
      → IsFresh (perform_all calls s)
  unfolding perform_all
  perform_all-IsFresh [] s f lt = f
  perform_all-IsFresh (c ∷ calls) s f lt =
      let one = perform-Extends d i b n c 0 s (drops-root c) f (omega arith) in
      let up = one.bounded in
      perform_all-IsFresh calls (perform d i b n c s) one.fresh (omega arith)

  -- Over any sequence of calls of a file-system domain, whatever each of them answers, an id that
  -- none of the calls gives back goes on naming the dentry that it named, if all ids in use were
  -- given out and the ids do not reach 2 ^ 64.
  pub perform_all-kept :
      (calls : List (Call Attr)) (k : ℕ) (s : Fs W D) (x : D)
      → All (λ c. drops c k ≡ false) calls
      → IsFresh s
      → s.inode_index + length calls < 2 ^ 64
      → lookup k s.dentry_map ≡ some x
      → lookup k (perform_all calls s).dentry_map ≡ some x
  unfolding perform_all
  perform_all-kept [] k s x none_drops f lt h = h
  perform_all-kept (c ∷ calls) k s x (first, others) f lt h =
      let one = perform-Extends d i b n c k s first f (omega arith) in
      let up = one.bounded in
      perform_all-kept calls k (perform d i b n c s) x others one.fresh (omega arith) (one.kept x h)

  drops-root-All : (calls : List (Call Attr)) → All (λ c. drops c 0 ≡ false) calls
  drops-root-All [] = tt
  drops-root-All (c ∷ calls) = (drops-root c, drops-root-All calls)

  pub root_stays :
      (calls : List (Call Attr)) (s : Fs W D) (x : D)
      → IsFresh s
      → s.inode_index + length calls < 2 ^ 64
      → lookup 0 s.dentry_map ≡ some x
      → lookup 0 (perform_all calls s).dentry_map ≡ some x
  root_stays calls s x f lt h = perform_all-kept calls 0 s x (drops-root-All calls) f lt h
