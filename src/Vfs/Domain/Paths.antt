-- ===== src/Vfs/Domain/Paths.antt =====
-- The calls of `VfsDomainImpl` that go by a path from an open directory
-- (common/vfs/vfs/src/lib.rs).
use domains.Prelude.{ℕ, List, none, some, not, if◌then◌else◌, ◌==◌, ok_or, einval, enosys}
use domains.Prelude.Act.{Act, done, reject, result, ◌>>=◌, ◌>>◌}
use domains.Vfs.Domain.Core.{Words, Files, Kinds, Tree}
use domains.Vfs.Domain.State.{Vfs, call, see, get_file, file_or_einval, str, insert_dentry}

module _ {W F M D I Seek Attr P Sb Stat : Type 0} (w : Words) (f : Files W F D I w.Flags Seek Attr)
    (t : Tree W D I P w.Flags Sb Stat) where
  open w use {Flags, contains, o_creat, o_nofollow}

  unfoldable pub opened : ℕ → List ℕ → ℕ → ℕ → ℕ → Act (Vfs W F M) D
  opened root path path_len mode open_flags = do
    start ← file_or_einval root
    top ← call t.system_root_fs
    path_name ← str w path path_len
    from ← call (f.dentry start)
    p ← call (t.join top from path_name)
    call (
        t.open2 p
          (if contains (w.from_bits_truncate open_flags) o_creat
            then some (w.mode_bits mode)
            else none)
          (w.from_bits_truncate open_flags))

  unfoldable pub vfs_open : Kinds W F D M Flags → ℕ → List ℕ → ℕ → ℕ → ℕ → Act (Vfs W F M) ℕ
  vfs_open k root path path_len mode open_flags =
      opened root path path_len mode open_flags >>= λ dentry.
      insert_dentry k dentry (w.from_bits_truncate open_flags)

  -- `syscontext_for_vfs`: the directories of the caller.
  unfoldable pub syscontext_for_vfs : ℕ × ℕ → Act (Vfs W F M) (D × D)
  syscontext_for_vfs fs_info = do
    cwd_file ← get_file fs_info.0
    cwd ← call (f.dentry cwd_file)
    root_file ← get_file fs_info.1
    root ← call (f.dentry root_file)
    done (cwd, root)

  unfoldable pub vfs_rename :
      ℕ → ℕ → List ℕ → ℕ → List ℕ → ℕ → ℕ × ℕ → ℕ → Act (Vfs W F M) (Unit {0})
  vfs_rename old_inode new_inode old_bytes old_len new_bytes new_len fs_info flag = do
    old_file ← get_file old_inode
    new_file ← get_file new_inode
    old_dentry ← call (f.dentry old_file)
    new_dentry ← call (f.dentry new_file)
    old_name ← str w old_bytes old_len
    new_name ← str w new_bytes new_len
    old_top ← call t.system_root_fs
    old_path ← call (t.join old_top old_dentry old_name)
    new_top ← call t.system_root_fs
    new_path ← call (t.join new_top new_dentry new_name)
    context ← syscontext_for_vfs fs_info
    call (t.rename_to old_path context new_path (w.rename_flag flag))

  unfoldable pub vfs_unlink : ℕ → List ℕ → ℕ → ℕ → Act (Vfs W F M) (Unit {0})
  vfs_unlink inode bytes path_len flag = do
    file ← get_file inode
    dentry ← call (f.dentry file)
    name ← str w bytes path_len
    top ← call t.system_root_fs
    path ← call (t.join top dentry name)
    if w.has_removedir flag then call (t.rmdir path) else call (t.unlink path)

  -- What the new name will stand for.
  unfoldable pub link_source : P → ℕ → Act (Vfs W F M) D
  link_source old_path flags =
      if w.has_symlink_follow flags
      then call (t.open_none old_path)
      else call (t.open2 old_path none o_nofollow)

  unfoldable pub vfs_linkat : ℕ → List ℕ → ℕ → ℕ → List ℕ → ℕ → ℕ → Act (Vfs W F M) (Unit {0})
  vfs_linkat old_root old_bytes old_len new_root new_bytes new_len bits = do
    flags ← result (ok_or (w.link_flags bits) einval)
    reject (w.has_empty_path flags) enosys
    old_start ← file_or_einval old_root
    new_start ← file_or_einval new_root
    old_name ← str w old_bytes old_len
    new_name ← str w new_bytes new_len
    old_top ← call t.system_root_fs
    old_dentry ← call (f.dentry old_start)
    old_path ← call (t.join old_top old_dentry old_name)
    old_dt ← link_source old_path flags
    new_top ← call t.system_root_fs
    new_dentry ← call (f.dentry new_start)
    new_path ← call (t.join new_top new_dentry new_name)
    call (t.link new_path old_dt)

  unfoldable pub vfs_symlinkat : List ℕ → ℕ → ℕ → List ℕ → ℕ → Act (Vfs W F M) (Unit {0})
  vfs_symlinkat target_bytes target_len new_root new_bytes new_len = do
    new_start ← file_or_einval new_root
    target ← str w target_bytes target_len
    new_name ← str w new_bytes new_len
    top ← call t.system_root_fs
    dentry ← call (f.dentry new_start)
    new_path ← call (t.join top dentry new_name)
    call (t.symlink new_path target)

  unfoldable pub vfs_readlinkat : ℕ → List ℕ → ℕ → List ℕ → Act (Vfs W F M) (List ℕ × ℕ)
  vfs_readlinkat root bytes path_len buf = do
    start ← file_or_einval root
    name ← str w bytes path_len
    top ← call t.system_root_fs
    from ← call (f.dentry start)
    path ← call (t.join top from name)
    dentry ← call (t.open2 path none o_nofollow)
    x ← call (t.inode dentry)
    ty ← see (t.inode_type x)
    reject (not (ty == t.sym_link)) einval
    call (t.readlink x buf)
