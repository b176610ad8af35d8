-- ===== src/Vfs/Domain/Core.antt =====
-- What the VFS domain uses of the files behind its ids (`dyn File` of common/vfs/vfs/src/kfile.rs)
-- and of the crate vfscore. The domain's own world is a state `W`, and the methods are parameters.
use domains.Prelude.{ℕ, List, Option, none, some, Bool, true, false, ◌≡◌, ok}
use domains.Prelude.Act.{Act}
use domains.Vfs.Flags.{FlagSet}

-- `Fcntl64Cmd`, with the commands that the files name.
pub data Fcntl64Cmd : Type 0 where
  f_dupfd f_dupfd_cloexec f_getfd f_setfd f_getfl f_setfl : Fcntl64Cmd
  getlk setlk setlkw another_cmd : Fcntl64Cmd

-- `EpollCtlOp`
pub data EpollCtlOp : Type 0 where
  epoll_ctl_add epoll_ctl_del epoll_ctl_mod : EpollCtlOp

-- The flag words that come with a call, and the numbers of commands and operations.
pub record Words : Type 1 where
  pub flags : FlagSet
  pub open flags use *
  pub difference : Flags → Flags → Flags
  pub bits : Flags → ℕ
  pub from_bits_truncate : ℕ → Flags
  pub o_creat : Flags
  pub o_cloexec : Flags
  pub o_nofollow : Flags
  pub o_rdwr : Flags
  pub fcntl_cmd : ℕ → Option Fcntl64Cmd
  pub epoll_ctl_op : ℕ → Option EpollCtlOp
  -- `VfsInodeMode::from_bits_truncate`, `PollEvents` to `VfsPollEvents` and back.
  pub mode_bits : ℕ → ℕ
  pub to_poll_events : ℕ → ℕ
  pub from_poll_events : ℕ → ℕ
  -- `VfsRenameFlag::from_bits_truncate`, and the flags of unlinking and of links.
  pub rename_flag : ℕ → ℕ
  pub has_removedir : ℕ → Bool
  pub link_flags : ℕ → Option ℕ
  pub has_empty_path : ℕ → Bool
  pub has_symlink_follow : ℕ → Bool
  pub is_utf8 : List ℕ → Bool
  pub contains_added : (a b : Flags) → contains (union a b) b ≡ true
  pub contains_taken : (a : Flags) → contains (difference a o_cloexec) o_cloexec ≡ false

-- The methods of a file, for files `F`, directory entries `D`, inodes `I`, and flags `Fl`.
pub record Files (W F D I Fl Seek Attr : Type 0) : Type 0 where
  pub read : F → List ℕ → Act W (List ℕ × ℕ)
  pub write : F → List ℕ → Act W ℕ
  pub read_at : F → ℕ → List ℕ → Act W (List ℕ × ℕ)
  pub write_at : F → ℕ → List ℕ → Act W ℕ
  pub flush : F → Act W (Unit {0})
  pub fsync : F → Act W (Unit {0})
  pub seek : F → Seek → Act W ℕ
  pub get_attr : F → Act W Attr
  pub ioctl : F → ℕ → ℕ → Act W ℕ
  pub set_open_flag : F → Fl → W → W
  pub get_open_flag : F → W → Fl
  pub dentry : F → Act W D
  pub inode : F → Act W I
  pub readdir : F → List ℕ → Act W (List ℕ × ℕ)
  pub truncate : F → ℕ → Act W (Unit {0})
  pub poll : F → ℕ → Act W ℕ

-- The kinds of files. A kernel file has its data `M` (`KMeta`) in a storage that outlives the
-- domain; an epoll file is known by a number.
pub record Kinds (W F D M Fl : Type 0) : Type 0 where
  pub kernel_file : M → D → ℕ → F
  pub inode_id : F → Option ℕ
  pub new_meta : D → Fl → Act W M
  pub root_shim_dentry : M → Act W D
  pub epoll_file : ℕ → F
  pub as_epoll : F → Option ℕ
  pub socket_file : ℕ → F
  pub as_socket : F → Option ℕ
  pub make_pipe_file : Act W (F × F)
  pub eventfd : ℕ → ℕ → Act W F
  -- What the last reference to a file takes along, besides the data of a kernel file: `FsShimInode`
  -- asks its file system to drop the inode, `SocketFile` the network stack to remove the socket, and
  -- each panics at a refusal. Whether it ran to its end, and the world after it.
  pub drop_contents : F → W → Bool × W
  pub inode_id-kernel_file : (m : M) (d : D) (i : ℕ) → inode_id (kernel_file m d i) ≡ some i
  pub inode_id-epoll_file : (i : ℕ) → inode_id (epoll_file i) ≡ none
  pub inode_id-socket_file : (i : ℕ) → inode_id (socket_file i) ≡ none
  pub inode_id-make_pipe_file :
      (w : W) (ends : F × F)
      → (make_pipe_file w).0 ≡ ok ends
      → (inode_id ends.0 ≡ none) × (inode_id ends.1 ≡ none)
  pub inode_id-eventfd :
      (init_val flags : ℕ) (w : W) (file : F)
      → (eventfd init_val flags w).0 ≡ ok file
      → inode_id file ≡ none

-- Paths, directory entries and inodes of vfscore.
pub record Tree (W D I P Fl Sb Stat : Type 0) : Type 0 where
  pub system_root_fs : Act W D
  pub join : D → D → List ℕ → Act W P
  -- `VfsPath::open` without a mode.
  pub open_none : P → Act W D
  pub open2 : P → Option ℕ → Fl → Act W D
  pub rename_to : P → D × D → P → ℕ → Act W (Unit {0})
  pub rmdir : P → Act W (Unit {0})
  pub unlink : P → Act W (Unit {0})
  pub link : P → D → Act W (Unit {0})
  pub symlink : P → List ℕ → Act W (Unit {0})
  pub path : D → W → List ℕ
  pub inode : D → Act W I
  pub inode_type : I → W → ℕ
  pub sym_link : ℕ
  pub readlink : I → List ℕ → Act W (List ℕ × ℕ)
  pub update_atime : I → ℕ × ℕ → ℕ × ℕ → Act W (Unit {0})
  pub update_mtime : I → ℕ × ℕ → ℕ × ℕ → Act W (Unit {0})
  pub get_super_block : I → Act W Sb
  pub stat_fs : Sb → Act W Stat
  pub now : W → ℕ × ℕ
