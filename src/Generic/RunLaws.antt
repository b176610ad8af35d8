-- ===== src/Generic/RunLaws.antt =====
-- Every call of a file-system domain keeps the ids, but for the one that `drop_inode` gives back.
use domains.Prelude.{
  ℕ, ◌≡◌, ◌≢◌, refl, ◌+◌, ◌^◌, ◌<◌, false, not, ◌&&◌, ◌==◌, arith, Bool-cases, inl, inr,
}
use domains.Prelude.Map.{remove, lookup-remove}
use domains.Prelude.Act.{state_of}
use domains.Generic.Core.{Dentries, Inodes, Blocks, Names}
use domains.Generic.State.{Fs}
use domains.Generic.Keeps.{Keeps, Extends, IsFresh, Extends-same, weaken}
use domains.Generic.Tree.{drop_inode}
use domains.Generic.Run.{
  Call, perform, drops, call_dentry_name, call_dentry_path, call_dentry_set_parent,
  call_dentry_parent, call_dentry_to_mount_point, call_dentry_mount_point,
  call_dentry_clear_mount_point, call_dentry_find, call_dentry_remove, call_read_at, call_write_at,
  call_readdir, call_poll, call_ioctl, call_flush, call_fsync, call_rmdir, call_node_permission,
  call_create, call_link, call_unlink, call_symlink, call_lookup, call_readlink, call_set_attr,
  call_get_attr, call_inode_type, call_truncate, call_rename, call_update_time, call_mount,
  call_sync_fs, call_stat_fs, call_super_type, call_kill_sb, call_fs_name, call_drop_inode,
}
use domains.Generic.TreeLaws as Tree
use domains.Generic.InodeLaws as On
use domains.Generic.MountLaws.{
  mount-Keeps, sync_fs-Keeps, stat_fs-Keeps, super_type-Keeps, kill_sb-Keeps, fs_name-Keeps,
}

-- What is given back is not `k`, or nothing is.
dropped-Extends :
    {W D : Type 0} (x k : ℕ) (s : Fs W D)
    → x ≢ k
    → IsFresh s
    → Extends k 0 s (record s { dentry_map = remove x s.dentry_map })
dropped-Extends x k s apart f = record {
  grows = omega arith;
  bounded = omega arith;
  fresh = λ j y h.
      let e = lookup-remove j x s.dentry_map in
      elim (Bool-cases (x == j)) [
        | inl same ↦ absurd (ground arith)
        | inr other ↦ f j y (ground arith)
      ];
  kept = λ y h. let e = lookup-remove k x s.dentry_map in ground arith;
}

drop_inode-Extends :
    {W D : Type 0} (x k : ℕ) (s : Fs W D)
    → (not (x == 0) && (x == k)) ≡ false
    → IsFresh s
    → Extends k 0 s (state_of (drop_inode x) s)
unfolding drop_inode
drop_inode-Extends x k s h f = elim (Bool-cases (x == 0)) [
  | inl root ↦ rw (root) (Extends-same k 0 s s f refl refl)
  | inr other ↦ rw (other) (dropped-Extends x k s (ground arith) f)
]

drop_inode-Keeps :
    {W D : Type 0} (x k : ℕ)
    → (not (x == 0) && (x == k)) ≡ false
    → Keeps {W = W} {D = D} k 0 (drop_inode x)
drop_inode-Keeps x k h = record { extends = λ s f lt. drop_inode-Extends x k s h f }

module _ {W D I Attr Stat Sb FsStat : Type 0} (d : Dentries W D I) (i : Inodes W I Attr Stat)
    (b : Blocks W D I Sb FsStat) (n : Names) where
  pub perform-Extends :
      (c : Call Attr) (k : ℕ) (s : Fs W D)
      → drops c k ≡ false
      → IsFresh s
      → s.inode_index + 1 < 2 ^ 64
      → Extends k 1 s (perform d i b n c s)
  unfolding perform drops
  perform-Extends (call_drop_inode x) k s h f lt =
      (weaken k (drop_inode-Keeps x k h)).extends s f lt
  perform-Extends (call_dentry_name x y) k s h f lt =
      (weaken k (Tree.dentry_name-Keeps d n k x y)).extends s f lt
  perform-Extends (call_dentry_path x y) k s h f lt =
      (weaken k (Tree.dentry_path-Keeps d n k x y)).extends s f lt
  perform-Extends (call_dentry_set_parent x y z) k s h f lt =
      (weaken k (Tree.dentry_set_parent-Keeps d n k x y z)).extends s f lt
  perform-Extends (call_dentry_parent x) k s h f lt =
      (Tree.dentry_parent-Keeps d n k x).extends s f lt
  perform-Extends (call_dentry_to_mount_point x y z) k s h f lt =
      (weaken k (Tree.dentry_to_mount_point-Keeps d n k x y z)).extends s f lt
  perform-Extends (call_dentry_mount_point x y) k s h f lt =
      (weaken k (Tree.dentry_mount_point-Keeps d n k x y)).extends s f lt
  perform-Extends (call_dentry_clear_mount_point x) k s h f lt =
      (weaken k (Tree.dentry_clear_mount_point-Keeps d n k x)).extends s f lt
  perform-Extends (call_dentry_find x y) k s h f lt =
      (Tree.dentry_find-Keeps d n k x y).extends s f lt
  perform-Extends (call_dentry_remove x y) k s h f lt =
      (weaken k (Tree.dentry_remove-Keeps d n k x y)).extends s f lt
  perform-Extends (call_read_at x y z) k s h f lt =
      (weaken k (On.read_at-Keeps d i n k x y z)).extends s f lt
  perform-Extends (call_write_at x y z) k s h f lt =
      (weaken k (On.write_at-Keeps d i n k x y z)).extends s f lt
  perform-Extends (call_readdir x y z) k s h f lt =
      (weaken k (On.readdir-Keeps d i n k x y z)).extends s f lt
  perform-Extends (call_poll x y) k s h f lt = (weaken k (On.poll-Keeps d i n k x y)).extends s f lt
  perform-Extends (call_ioctl x y z) k s h f lt =
      (weaken k (On.ioctl-Keeps d i n k x y z)).extends s f lt
  perform-Extends (call_flush x) k s h f lt = (weaken k (On.flush-Keeps d i n k x)).extends s f lt
  perform-Extends (call_fsync x) k s h f lt = (weaken k (On.fsync-Keeps d i n k x)).extends s f lt
  perform-Extends (call_rmdir x y) k s h f lt =
      (weaken k (On.rmdir-Keeps d i n k x y)).extends s f lt
  perform-Extends (call_node_permission x) k s h f lt =
      (weaken k (On.node_permission-Keeps d i n k x)).extends s f lt
  perform-Extends (call_create x y z u v) k s h f lt =
      (On.create-Keeps d i n k x y z u v).extends s f lt
  perform-Extends (call_link x y z) k s h f lt = (On.link-Keeps d i n k x y z).extends s f lt
  perform-Extends (call_unlink x y) k s h f lt =
      (weaken k (On.unlink-Keeps d i n k x y)).extends s f lt
  perform-Extends (call_symlink x y z) k s h f lt = (On.symlink-Keeps d i n k x y z).extends s f lt
  perform-Extends (call_lookup x y) k s h f lt = (On.lookup-Keeps d i n k x y).extends s f lt
  perform-Extends (call_readlink x y) k s h f lt =
      (weaken k (On.readlink-Keeps d i n k x y)).extends s f lt
  perform-Extends (call_set_attr x y) k s h f lt =
      (weaken k (On.set_attr-Keeps d i n k x y)).extends s f lt
  perform-Extends (call_get_attr x) k s h f lt =
      (weaken k (On.get_attr-Keeps d i n k x)).extends s f lt
  perform-Extends (call_inode_type x) k s h f lt =
      (weaken k (On.inode_type-Keeps d i n k x)).extends s f lt
  perform-Extends (call_truncate x y) k s h f lt =
      (weaken k (On.truncate-Keeps d i n k x y)).extends s f lt
  perform-Extends (call_rename x y z u v) k s h f lt =
      (weaken k (On.rename-Keeps d i n k x y z u v)).extends s f lt
  perform-Extends (call_update_time x y z) k s h f lt =
      (weaken k (On.update_time-Keeps d i n k x y z)).extends s f lt
  perform-Extends (call_mount x y) k s h f lt = (mount-Keeps d b n k x y).extends s f lt
  perform-Extends (call_sync_fs x) k s h f lt = (weaken k (sync_fs-Keeps d b n k x)).extends s f lt
  perform-Extends call_stat_fs k s h f lt = (weaken k (stat_fs-Keeps d b n k)).extends s f lt
  perform-Extends call_super_type k s h f lt = (weaken k (super_type-Keeps d b n k)).extends s f lt
  perform-Extends call_kill_sb k s h f lt = (weaken k (kill_sb-Keeps d b n k)).extends s f lt
  perform-Extends (call_fs_name x) k s h f lt = (weaken k (fs_name-Keeps d b n k x)).extends s f lt
