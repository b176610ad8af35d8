-- ===== src/Generic/Run.antt =====
-- The interface of `GenericFsDomain`, `FsDomain`, as one call: which method, with its arguments. The
-- methods that only read a constant or the ids are not among them.
use domains.Prelude.{ℕ, List, Option, Bool, ◌==◌, not, ◌&&◌, false}
use domains.Prelude.Act.{state_of}
use domains.Generic.Core.{Dentries, Inodes, Blocks, Names}
use domains.Generic.State.{Fs}
use domains.Generic.Inodes.{DirEntryWrapper}
use domains.Generic.Mount.{MountInfo}
use domains.Generic.Tree as Tree
use domains.Generic.Inodes as On
use domains.Generic.Mount as Whole

pub data Call (Attr : Type 0) : Type 0 where
  call_drop_inode : ℕ → Call Attr
  call_dentry_name : ℕ → List ℕ → Call Attr
  call_dentry_path : ℕ → List ℕ → Call Attr
  call_dentry_set_parent : ℕ → List ℕ → ℕ → Call Attr
  call_dentry_parent : ℕ → Call Attr
  call_dentry_to_mount_point : ℕ → List ℕ → ℕ → Call Attr
  call_dentry_mount_point : ℕ → List ℕ → Call Attr
  call_dentry_clear_mount_point : ℕ → Call Attr
  call_dentry_find : ℕ → List ℕ → Call Attr
  call_dentry_remove : ℕ → List ℕ → Call Attr
  call_read_at : ℕ → ℕ → List ℕ → Call Attr
  call_write_at : ℕ → ℕ → List ℕ → Call Attr
  call_readdir : ℕ → ℕ → DirEntryWrapper → Call Attr
  call_poll : ℕ → ℕ → Call Attr
  call_ioctl : ℕ → ℕ → ℕ → Call Attr
  call_flush : ℕ → Call Attr
  call_fsync : ℕ → Call Attr
  call_rmdir : ℕ → List ℕ → Call Attr
  call_node_permission : ℕ → Call Attr
  call_create : ℕ → List ℕ → ℕ → ℕ → Option ℕ → Call Attr
  call_link : ℕ → List ℕ → ℕ → Call Attr
  call_unlink : ℕ → List ℕ → Call Attr
  call_symlink : ℕ → List ℕ → List ℕ → Call Attr
  call_lookup : ℕ → List ℕ → Call Attr
  call_readlink : ℕ → List ℕ → Call Attr
  call_set_attr : ℕ → Attr → Call Attr
  call_get_attr : ℕ → Call Attr
  call_inode_type : ℕ → Call Attr
  call_truncate : ℕ → ℕ → Call Attr
  call_rename : ℕ → List ℕ → ℕ → List ℕ → ℕ → Call Attr
  call_update_time : ℕ → ℕ → ℕ → Call Attr
  call_mount : List ℕ → Option MountInfo → Call Attr
  call_sync_fs : Bool → Call Attr
  call_stat_fs : Call Attr
  call_super_type : Call Attr
  call_kill_sb : Call Attr
  call_fs_name : List ℕ → Call Attr

module _ {W D I Attr Stat Sb FsStat : Type 0} (d : Dentries W D I) (i : Inodes W I Attr Stat)
    (b : Blocks W D I Sb FsStat) (n : Names) where
  -- What a call leaves of the domain.
  unfoldable pub perform : Call Attr → Fs W D → Fs W D
  perform (call_drop_inode x) = state_of (Tree.drop_inode x)
  perform (call_dentry_name x y) = state_of (Tree.dentry_name d n x y)
  perform (call_dentry_path x y) = state_of (Tree.dentry_path d n x y)
  perform (call_dentry_set_parent x y z) = state_of (Tree.dentry_set_parent d n x y z)
  perform (call_dentry_parent x) = state_of (Tree.dentry_parent d n x)
  perform (call_dentry_to_mount_point x y z) = state_of (Tree.dentry_to_mount_point d n x y z)
  perform (call_dentry_mount_point x y) = state_of (Tree.dentry_mount_point d n x y)
  perform (call_dentry_clear_mount_point x) = state_of (Tree.dentry_clear_mount_point d n x)
  perform (call_dentry_find x y) = state_of (Tree.dentry_find d n x y)
  perform (call_dentry_remove x y) = state_of (Tree.dentry_remove d n x y)
  perform (call_read_at x y z) = state_of (On.read_at d i n x y z)
  perform (call_write_at x y z) = state_of (On.write_at d i n x y z)
  perform (call_readdir x y z) = state_of (On.readdir d i n x y z)
  perform (call_poll x y) = state_of (On.poll d i n x y)
  perform (call_ioctl x y z) = state_of (On.ioctl d i n x y z)
  perform (call_flush x) = state_of (On.flush d i n x)
  perform (call_fsync x) = state_of (On.fsync d i n x)
  perform (call_rmdir x y) = state_of (On.rmdir d i n x y)
  perform (call_node_permission x) = state_of (On.node_permission d i n x)
  perform (call_create x y z u v) = state_of (On.create d i n x y z u v)
  perform (call_link x y z) = state_of (On.link d i n x y z)
  perform (call_unlink x y) = state_of (On.unlink d i n x y)
  perform (call_symlink x y z) = state_of (On.symlink d i n x y z)
  perform (call_lookup x y) = state_of (On.lookup d i n x y)
  perform (call_readlink x y) = state_of (On.readlink d i n x y)
  perform (call_set_attr x y) = state_of (On.set_attr d i n x y)
  perform (call_get_attr x) = state_of (On.get_attr d i n x)
  perform (call_inode_type x) = state_of (On.inode_type d i n x)
  perform (call_truncate x y) = state_of (On.truncate d i n x y)
  perform (call_rename x y z u v) = state_of (On.rename d i n x y z u v)
  perform (call_update_time x y z) = state_of (On.update_time d i n x y z)
  perform (call_mount x y) = state_of (Whole.mount d b n x y)
  perform (call_sync_fs x) = state_of (Whole.sync_fs d b n x)
  perform call_stat_fs = state_of (Whole.stat_fs d b n)
  perform call_super_type = state_of (Whole.super_type d b n)
  perform call_kill_sb = state_of (Whole.kill_sb d b n)
  perform (call_fs_name x) = state_of (Whole.fs_name d b n x)

-- The call gives back the id, which `drop_inode` does but for 0.
unfoldable pub drops : {Attr : Type 0} → Call Attr → ℕ → Bool
drops (call_drop_inode x) k = not (x == 0) && (x == k)
drops (call_dentry_name _ _) k = false
drops (call_dentry_path _ _) k = false
drops (call_dentry_set_parent _ _ _) k = false
drops (call_dentry_parent _) k = false
drops (call_dentry_to_mount_point _ _ _) k = false
drops (call_dentry_mount_point _ _) k = false
drops (call_dentry_clear_mount_point _) k = false
drops (call_dentry_find _ _) k = false
drops (call_dentry_remove _ _) k = false
drops (call_read_at _ _ _) k = false
drops (call_write_at _ _ _) k = false
drops (call_readdir _ _ _) k = false
drops (call_poll _ _) k = false
drops (call_ioctl _ _ _) k = false
drops (call_flush _) k = false
drops (call_fsync _) k = false
drops (call_rmdir _ _) k = false
drops (call_node_permission _) k = false
drops (call_create _ _ _ _ _) k = false
drops (call_link _ _ _) k = false
drops (call_unlink _ _) k = false
drops (call_symlink _ _ _) k = false
drops (call_lookup _ _) k = false
drops (call_readlink _ _) k = false
drops (call_set_attr _ _) k = false
drops (call_get_attr _) k = false
drops (call_inode_type _) k = false
drops (call_truncate _ _) k = false
drops (call_rename _ _ _ _ _) k = false
drops (call_update_time _ _ _) k = false
drops (call_mount _ _) k = false
drops (call_sync_fs _) k = false
drops call_stat_fs k = false
drops call_super_type k = false
drops call_kill_sb k = false
drops (call_fs_name _) k = false
