-- ===== src/Syscall/Paths.antt =====
-- The system calls that go by a path, common/syscall/syscall/src/fs/mod.rs and fs/basic.rs.
use domains.Prelude.{
  ℕ, ◌+◌, ◌%◌, ◌^◌, List, [], ◌∷◌, Bool, false, not, ltb, ◌==◌, replicate, if◌then◌else◌, einval,
  efault, enotdir, erange,
}
use domains.Prelude.Act.{Act, done, reject, ◌>>=◌, ◌>>◌}
use domains.Syscall.Domains.{TaskDomain, VfsDomain, Abi, TimeSpec, slice, str, see}

module _ {S Seek Attr Event : Type 0} (a : Abi S Seek Attr) (vfs : VfsDomain S Seek Attr Event)
    (task_domain : TaskDomain S) where
  -- The bytes of a path begin with `/`.
  abbrev pub starts_with_slash : List ℕ → Bool
  starts_with_slash [] = false
  starts_with_slash (b ∷ bs) = b == 47

  unfoldable pub user_path_at : ℕ → List ℕ → Act S (ℕ × ℕ)
  user_path_at fd path =
      if not (starts_with_slash path)
      then (if fd == a.at_fdcwd
          then task_domain.fs_info >>= (λ fs_context. done (a.vfs_root_id, fs_context.1))
          else task_domain.get_fd fd >>= (λ file. done (a.vfs_root_id, file)))
      else done (a.vfs_root_id, a.vfs_root_id)

  unfoldable pub sys_openat : ℕ → ℕ → ℕ → ℕ → Act S ℕ
  sys_openat dirfd path flags mode = do
    reject (path == 0) efault
    tmp ← task_domain.read_string_from_user path (a.new_uninit 256)
    name ← str a tmp.0 tmp.1
    roots ← user_path_at dirfd name
    file ← vfs.vfs_open roots.1 tmp.0 tmp.1 (mode % 2 ^ 32) flags
    task_domain.add_fd file

  unfoldable pub sys_fstatat : ℕ → ℕ → ℕ → ℕ → Act S ℕ
  sys_fstatat dirfd path_ptr statbuf flags = do
    reject (path_ptr == 0) einval
    tmp ← task_domain.read_string_from_user path_ptr (a.new_uninit 256)
    path ← str a tmp.0 tmp.1
    roots ← user_path_at dirfd path
    file ←
        vfs.vfs_open roots.1 tmp.0 tmp.1 0
          (if a.has_symlink_nofollow (flags % 2 ^ 32) then a.o_nofollow else 0)
    stat ← vfs.vfs_getattr file
    task_domain.copy_to_user statbuf (a.file_stat_bytes stat)
    vfs.vfs_close file
    done 0

  unfoldable pub sys_faccessat : ℕ → ℕ → ℕ → ℕ → Act S ℕ
  sys_faccessat dirfd path mode flag = do
    reject (path == 0) einval
    tmp ← task_domain.read_string_from_user path (a.new_uninit 256)
    name ← str a tmp.0 tmp.1
    roots ← user_path_at dirfd name
    id ← vfs.vfs_open roots.1 tmp.0 tmp.1 0 0
    vfs.vfs_close id
    done 0

  -- One of the two times of `sys_utimensat`, by its nanoseconds `UTIME_NOW`, `UTIME_OMIT` or other.
  unfoldable pub update_time : (ℕ → ℕ → Act S (Unit {0})) → TimeSpec → TimeSpec → Act S (Unit {0})
  update_time update time now =
      if time.tv_nsec == 1073741823
      then update now.tv_sec now.tv_nsec
      else if time.tv_nsec == 1073741822
      then done tt
      else update time.tv_sec time.tv_nsec

  unfoldable pub set_times : ℕ → ℕ → Act S (Unit {0})
  set_times file_inode times_ptr =
      if times_ptr == 0
      then (see a.now >>= λ time_now.
          vfs.vfs_update_atime file_inode time_now.tv_sec time_now.tv_nsec
          >> vfs.vfs_update_mtime file_inode time_now.tv_sec time_now.tv_nsec)
      else (task_domain.read_val_from_user a.timespec times_ptr >>= λ atime.
          task_domain.read_val_from_user a.timespec (times_ptr + a.timespec.size) >>= λ mtime.
          see a.now >>= λ now.
          update_time (vfs.vfs_update_atime file_inode) atime now
          >> update_time (vfs.vfs_update_mtime file_inode) mtime now)

  unfoldable pub sys_utimensat : ℕ → ℕ → ℕ → ℕ → Act S ℕ
  unfolding update_time
  sys_utimensat dirfd path_ptr times_ptr flags = do
    tmp ← task_domain.read_string_from_user path_ptr (a.new_uninit 256)
    path ← str a tmp.0 tmp.1
    roots ← user_path_at dirfd path
    file_inode ← vfs.vfs_open roots.1 tmp.0 tmp.1 0 0
    set_times file_inode times_ptr
    done 0

  unfoldable pub sys_chdir : ℕ → Act S ℕ
  sys_chdir path = do
    tmp ← task_domain.read_string_from_user path (a.new_uninit 128)
    name ← str a tmp.0 tmp.1
    roots ← user_path_at a.at_fdcwd name
    id ← vfs.vfs_open roots.1 tmp.0 tmp.1 0 0
    task_domain.set_cwd id
    done 0

  unfoldable pub sys_fchdir : ℕ → Act S ℕ
  sys_fchdir fd = do
    inode ← task_domain.get_fd fd
    ty ← vfs.vfs_inode_type inode
    reject (not (a.is_dir ty)) enotdir
    task_domain.set_cwd inode
    done 0

  unfoldable pub sys_getcwd : ℕ → ℕ → Act S ℕ
  sys_getcwd buf size = do
    reject (buf == 0) einval
    fs_context ← task_domain.fs_info
    tmp ← vfs.vfs_get_path fs_context.1 (replicate 128 0)
    reject (ltb size (tmp.1 + 1)) erange
    bytes ← slice tmp.0 (tmp.1 + 1)
    task_domain.copy_to_user buf bytes
    done buf

  unfoldable pub sys_mkdirat : ℕ → ℕ → ℕ → Act S ℕ
  sys_mkdirat dirfd path_ptr mode = do
    tmp ← task_domain.read_string_from_user path_ptr (a.new_uninit 256)
    path ← str a tmp.0 tmp.1
    roots ← user_path_at dirfd path
    id ← vfs.vfs_open roots.1 tmp.0 tmp.1 (a.dir_mode (mode % 2 ^ 32)) a.o_creat
    done 0

  unfoldable pub sys_unlinkat : ℕ → ℕ → ℕ → Act S ℕ
  sys_unlinkat dirfd path_ptr flags = do
    tmp ← task_domain.read_string_from_user path_ptr (a.new_uninit 256)
    path ← str a tmp.0 tmp.1
    roots ← user_path_at dirfd path
    vfs.vfs_unlink roots.1 tmp.0 tmp.1 (a.unlink_bits (flags % 2 ^ 32))
    done 0
