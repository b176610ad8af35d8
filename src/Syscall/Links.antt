-- ===== src/Syscall/Links.antt =====
-- The system calls that go by two paths or ask for a file system, common/syscall/syscall/src/fs/basic.rs.
use domains.Prelude.{
  ℕ, ◌%◌, ◌^◌, not, ◌&&◌, ◌||◌, ◌==◌, min, ok_or, if◌then◌else◌, einval, efault, enosys, Outcome,
  ok, err, panic,
}
use domains.Prelude.Act.{Act, done, reject, result, ◌>>=◌, ◌>>◌}
use domains.Syscall.Domains.{TaskDomain, VfsDomain, Abi, FsStat, slice, str}
use domains.Syscall.Paths.{user_path_at}

-- A call whose result is looked at later; its panic still passes.
unfoldable pub outcome_of : {S A : Type 0} → Act S A → Act S (Outcome A)
outcome_of m s =
    let (o, s') = m s in
    elim o [ ok x ↦ (ok (ok x), s') | err e ↦ (ok (err e), s') | panic ↦ (panic, s') ]

unfoldable pub map_vfs_fs_stat : FsStat → FsStat
map_vfs_fs_stat vfs_stat = record {
  f_type = vfs_stat.f_type;
  f_bsize = vfs_stat.f_bsize;
  f_blocks = vfs_stat.f_blocks;
  f_bfree = vfs_stat.f_bfree;
  f_bavail = vfs_stat.f_bavail;
  f_files = vfs_stat.f_files;
  f_ffree = vfs_stat.f_ffree;
  f_fsid = vfs_stat.f_fsid;
  f_namelen = vfs_stat.f_namelen;
  f_frsize = vfs_stat.f_frsize;
  f_flags = vfs_stat.f_flags;
  f_spare = vfs_stat.f_spare;
}

module _ {S Seek Attr Event : Type 0} (a : Abi S Seek Attr) (vfs : VfsDomain S Seek Attr Event)
    (task_domain : TaskDomain S) where
  unfoldable pub sys_renameat2 : ℕ → ℕ → ℕ → ℕ → ℕ → Act S ℕ
  sys_renameat2 olddirfd oldpath newdirfd newpath flags = do
    old_tmp ← task_domain.read_string_from_user oldpath (a.new_uninit 256)
    new_tmp ← task_domain.read_string_from_user newpath (a.new_uninit 256)
    old_path ← str a old_tmp.0 old_tmp.1
    new_path ← str a new_tmp.0 new_tmp.1
    reject
        (a.has_exchange (flags % 2 ^ 32)
          && (a.has_noreplace (flags % 2 ^ 32) || a.has_whiteout (flags % 2 ^ 32)))
        einval
    fs_context ← task_domain.fs_info
    old_roots ← user_path_at a vfs task_domain olddirfd old_path
    new_roots ← user_path_at a vfs task_domain newdirfd new_path
    vfs.vfs_rename old_roots.1 new_roots.1 old_tmp.0 old_tmp.1 new_tmp.0 new_tmp.1 fs_context
        (flags % 2 ^ 32)
    done 0

  unfoldable pub sys_truncate : ℕ → ℕ → Act S ℕ
  unfolding outcome_of
  sys_truncate path_ptr len = do
    reject (path_ptr == 0) efault
    tmp ← task_domain.read_string_from_user path_ptr (a.new_uninit 256)
    path ← str a tmp.0 tmp.1
    roots ← user_path_at a vfs task_domain a.at_fdcwd path
    inode ← vfs.vfs_open roots.1 tmp.0 tmp.1 0 a.o_rdwr
    res ← outcome_of (vfs.vfs_ftruncate inode len)
    closed ← outcome_of (vfs.vfs_close inode)
    result res
    done 0

  unfoldable pub sys_statfs : ℕ → ℕ → Act S ℕ
  unfolding outcome_of map_vfs_fs_stat
  sys_statfs path statbuf = do
    reject (path == 0 || statbuf == 0) efault
    tmp ← task_domain.read_string_from_user path (a.new_uninit 256)
    path_str ← str a tmp.0 tmp.1
    roots ← user_path_at a vfs task_domain a.at_fdcwd path_str
    inode ← vfs.vfs_open roots.1 tmp.0 tmp.1 0 a.o_rdonly
    res ← outcome_of (vfs.vfs_statfs inode)
    closed ← outcome_of (vfs.vfs_close inode)
    vfs_stat ← result res
    task_domain.write_val_to_user a.fs_stat statbuf (map_vfs_fs_stat vfs_stat)
    done 0

  unfoldable pub sys_fstatfs : ℕ → ℕ → Act S ℕ
  unfolding map_vfs_fs_stat
  sys_fstatfs fd statbuf = do
    reject (statbuf == 0) efault
    inode ← task_domain.get_fd fd
    vfs_stat ← vfs.vfs_statfs inode
    task_domain.write_val_to_user a.fs_stat statbuf (map_vfs_fs_stat vfs_stat)
    done 0

  unfoldable pub sys_linkat : ℕ → ℕ → ℕ → ℕ → ℕ → Act S ℕ
  sys_linkat olddirfd oldpath newdirfd newpath flags = do
    reject (oldpath == 0 || newpath == 0) efault
    old_tmp ← task_domain.read_string_from_user oldpath (a.new_uninit 256)
    new_tmp ← task_domain.read_string_from_user newpath (a.new_uninit 256)
    old_path ← str a old_tmp.0 old_tmp.1
    new_path ← str a new_tmp.0 new_tmp.1
    link_flags ← result (ok_or (a.link_flags (flags % 2 ^ 32)) einval)
    reject (a.has_empty_path link_flags) enosys
    old_roots ← user_path_at a vfs task_domain olddirfd old_path
    new_roots ← user_path_at a vfs task_domain newdirfd new_path
    vfs.vfs_linkat old_roots.1 old_tmp.0 old_tmp.1 new_roots.1 new_tmp.0 new_tmp.1 link_flags
    done 0

  unfoldable pub sys_symlinkat : ℕ → ℕ → ℕ → Act S ℕ
  sys_symlinkat oldpath newdirfd newpath = do
    reject (oldpath == 0 || newpath == 0) efault
    old_tmp ← task_domain.read_string_from_user oldpath (a.new_uninit 256)
    new_tmp ← task_domain.read_string_from_user newpath (a.new_uninit 256)
    target ← str a old_tmp.0 old_tmp.1
    new_path ← str a new_tmp.0 new_tmp.1
    new_roots ← user_path_at a vfs task_domain newdirfd new_path
    vfs.vfs_symlinkat old_tmp.0 old_tmp.1 new_roots.1 new_tmp.0 new_tmp.1
    done 0

  -- What follows the two tests of `sys_readlinkat`.
  unfoldable pub read_link : ℕ → ℕ → ℕ → ℕ → Act S ℕ
  read_link dirfd path_ptr buf bufsiz = do
    tmp ← task_domain.read_string_from_user path_ptr (a.new_uninit 256)
    path ← str a tmp.0 tmp.1
    roots ← user_path_at a vfs task_domain dirfd path
    out ← vfs.vfs_readlinkat roots.1 tmp.0 tmp.1 (a.new_uninit bufsiz)
    bytes ← slice out.0 (min out.1 bufsiz)
    task_domain.copy_to_user buf bytes
    done (min out.1 bufsiz)

  unfoldable pub sys_readlinkat : ℕ → ℕ → ℕ → ℕ → Act S ℕ
  unfolding read_link
  sys_readlinkat dirfd path buf bufsiz = do
    reject (path == 0 || (buf == 0 && not (bufsiz == 0))) efault
    if bufsiz == 0 then done 0 else read_link dirfd path buf bufsiz
