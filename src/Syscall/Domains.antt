-- ===== src/Syscall/Domains.antt =====
-- The two domains that the system calls run on, `TaskDomain` and `VfsDomain` of the crate
-- `interface`, as far as common/syscall/syscall/src/fs calls them, and what it takes from the crate
-- `basic`. `S` is the state of the kernel.
use domains.Prelude.{ℕ, List, Option, Bool, ◌&&◌, leb, length, take, ok, panic, if◌then◌else◌}
use domains.Prelude.Act.{Act, result}
use domains.Vfs.Domain.Core.{Fcntl64Cmd}

-- A type of plain data (`Pod`).
pub record Pod (A : Type 0) : Type 0 where
  pub size : ℕ
  pub as_bytes : A → List ℕ
  pub from_bytes : List ℕ → A

-- A call of the task domain on the current task. `read_val_from_user` reads data of any plain type.
pub record TaskDomain (S : Type 0) : Type 1 where
  pub get_fd : ℕ → Act S ℕ
  pub add_fd : ℕ → Act S ℕ
  pub remove_fd : ℕ → Act S ℕ
  pub do_dup : ℕ → Option ℕ → Act S ℕ
  pub do_fcntl : ℕ → ℕ → Act S (ℕ × ℕ)
  pub fs_info : Act S (ℕ × ℕ)
  pub set_cwd : ℕ → Act S (Unit {0})
  -- The buffer of the given length comes back full.
  pub copy_from_user : ℕ → ℕ → Act S (List ℕ)
  pub copy_to_user : ℕ → List ℕ → Act S (Unit {0})
  -- The buffer comes back with the length of the string at its front.
  pub read_string_from_user : ℕ → List ℕ → Act S (List ℕ × ℕ)
  pub read_val_from_user : {A : Type 0} → Pod A → ℕ → Act S A
  pub write_val_to_user : {A : Type 0} → Pod A → ℕ → A → Act S (Unit {0})

-- `TimeSpec`
pub record TimeSpec : Type 0 where
  pub tv_sec : ℕ
  pub tv_nsec : ℕ

-- `PollFd`
pub record PollFd : Type 0 where
  pub fd : ℕ
  pub events : ℕ
  pub revents : ℕ

-- `VfsFsStat` and `FsStat`, which have the same fields.
pub record FsStat : Type 0 where
  pub f_type : ℕ
  pub f_bsize : ℕ
  pub f_blocks : ℕ
  pub f_bfree : ℕ
  pub f_bavail : ℕ
  pub f_files : ℕ
  pub f_ffree : ℕ
  pub f_fsid : ℕ
  pub f_namelen : ℕ
  pub f_frsize : ℕ
  pub f_flags : ℕ
  pub f_spare : ℕ

-- `VfsDomain`, for positions `Seek`, file data `Attr` and events `Event` of epoll.
pub record VfsDomain (S Seek Attr Event : Type 0) : Type 0 where
  pub vfs_poll : ℕ → ℕ → Act S ℕ
  pub vfs_ioctl : ℕ → ℕ → ℕ → Act S ℕ
  pub vfs_open : ℕ → List ℕ → ℕ → ℕ → ℕ → Act S ℕ
  pub vfs_close : ℕ → Act S (Unit {0})
  pub vfs_getattr : ℕ → Act S Attr
  pub vfs_statfs : ℕ → Act S FsStat
  pub vfs_read_at : ℕ → ℕ → List ℕ → Act S (List ℕ × ℕ)
  pub vfs_read : ℕ → List ℕ → Act S (List ℕ × ℕ)
  pub vfs_write_at : ℕ → ℕ → List ℕ → ℕ → Act S ℕ
  pub vfs_write : ℕ → List ℕ → ℕ → Act S ℕ
  pub vfs_fsync : ℕ → Act S (Unit {0})
  pub vfs_lseek : ℕ → Seek → Act S ℕ
  pub vfs_inode_type : ℕ → Act S ℕ
  pub vfs_readdir : ℕ → List ℕ → Act S (List ℕ × ℕ)
  pub vfs_get_path : ℕ → List ℕ → Act S (List ℕ × ℕ)
  pub vfs_ftruncate : ℕ → ℕ → Act S (Unit {0})
  pub vfs_update_atime : ℕ → ℕ → ℕ → Act S (Unit {0})
  pub vfs_update_mtime : ℕ → ℕ → ℕ → Act S (Unit {0})
  pub vfs_rename : ℕ → ℕ → List ℕ → ℕ → List ℕ → ℕ → ℕ × ℕ → ℕ → Act S (Unit {0})
  pub vfs_unlink : ℕ → List ℕ → ℕ → ℕ → Act S (Unit {0})
  pub vfs_linkat : ℕ → List ℕ → ℕ → ℕ → List ℕ → ℕ → ℕ → Act S (Unit {0})
  pub vfs_symlinkat : List ℕ → ℕ → ℕ → List ℕ → ℕ → Act S (Unit {0})
  pub vfs_readlinkat : ℕ → List ℕ → ℕ → List ℕ → Act S (List ℕ × ℕ)
  pub do_fcntl : ℕ → ℕ → ℕ → Act S ℕ
  pub do_poll_create : ℕ → Act S ℕ
  pub do_poll_ctl : ℕ → ℕ → ℕ → Event → Act S (Unit {0})
  pub do_eventfd : ℕ → ℕ → Act S ℕ

-- The constants and layouts of the system interface. A test of flags takes the word as it comes from
-- the user.
pub record Abi (S Seek Attr : Type 0) : Type 0 where
  pub is_utf8 : List ℕ → Bool
  pub vfs_root_id : ℕ
  -- `DVec::new_uninit`, whose bytes may be any.
  pub new_uninit : ℕ → List ℕ
  pub at_fdcwd : ℕ
  pub max_fd_num : ℕ
  pub o_creat : ℕ
  pub o_rdonly : ℕ
  pub o_rdwr : ℕ
  pub o_nofollow : ℕ
  pub o_cloexec : ℕ
  -- `OpenFlags::from_bits_truncate(..).bits()`, and `InodeMode` with `DIR` added.
  pub open_bits : ℕ → ℕ
  pub dir_mode : ℕ → ℕ
  pub has_symlink_nofollow : ℕ → Bool
  pub unlink_bits : ℕ → ℕ
  pub has_exchange : ℕ → Bool
  pub has_noreplace : ℕ → Bool
  pub has_whiteout : ℕ → Bool
  pub link_flags : ℕ → Option ℕ
  pub has_empty_path : ℕ → Bool
  -- `flags & !O_CLOEXEC != 0` and `flags & O_CLOEXEC != 0`.
  pub has_others : ℕ → Bool
  pub has_cloexec : ℕ → Bool
  pub f_setfd_number : ℕ
  pub fcntl_cmd : ℕ → Option Fcntl64Cmd
  pub is_teletype_command : ℕ → Bool
  pub seek_from : ℕ → ℕ → Option Seek
  pub is_dir : ℕ → Bool
  pub file_stat_bytes : Attr → List ℕ
  pub iovec : Pod (ℕ × ℕ)
  pub timespec : Pod TimeSpec
  -- `TimeVal`: seconds and microseconds.
  pub timeval : Pod (ℕ × ℕ)
  pub pollfd : Pod PollFd
  pub u64 : Pod ℕ
  pub fs_stat : Pod FsStat
  -- The events of `VfsPollEvents`, with `contains`, `from_bits_truncate` and `is_empty`.
  pub poll_in : ℕ
  pub poll_out : ℕ
  pub poll_err : ℕ
  pub has_event : ℕ → ℕ → Bool
  pub to_vfs_events : ℕ → ℕ
  pub to_poll_events : ℕ → ℕ
  pub no_events : ℕ → Bool
  pub epoll_err : ℕ
  pub from_poll_sigmask : ℕ
  -- `TimeSpec::now()`, its `to_clock()`, and `basic::yield_now()`.
  pub now : S → TimeSpec
  pub to_clock : TimeSpec → ℕ
  pub yield_now : Act S (Unit {0})

module _ {S : Type 0} where
  -- `&bytes[..len]`
  unfoldable pub slice : List ℕ → ℕ → Act S (List ℕ)
  slice bytes len s = result (if leb len (length bytes) then ok (take len bytes) else panic) s

  abbrev pub see : {A : Type 0} → (S → A) → Act S A
  see g s = (ok (g s), s)

module _ {S Seek Attr : Type 0} where
  -- `core::str::from_utf8(&bytes[..len]).unwrap()`
  unfoldable pub str : Abi S Seek Attr → List ℕ → ℕ → Act S (List ℕ)
  str a bytes len s =
      result
        (if leb len (length bytes) && a.is_utf8 (take len bytes)
          then ok (take len bytes)
          else panic)
        s
