-- ===== src/Vfs/Domain/Sample.antt =====
-- A small world for the VFS domain: one flag, the close-on-exec bit, for all files, and directory
-- entries that are numbers.
use domains.Prelude.{
  ℕ, ◌≡◌, refl, sym, ap, [], Option, none, some, Bool, true, false, not, ◌&&◌, ◌||◌, Outcome, ok,
  err, panic, enosys, einval, length, ◌==◌, if◌then◌else◌, arith,
}
use domains.Prelude.Act.{done, fail}
use domains.Vfs.Domain.Core.{
  Words, Files, Kinds, Tree, Fcntl64Cmd, f_getfd, f_setfd, EpollCtlOp, epoll_ctl_add, epoll_ctl_del,
  epoll_ctl_mod,
}
use domains.Prelude.Map.{lookup}
use domains.Vfs.Domain.State.{Vfs}
use domains.Vfs.Domain.Sound.{empty_slot}
use domains.Vfs.Domain.Keeps.{Agree}
use domains.Syscall.Domains.{FsStat}

abbrev pub fcntl_number : ℕ → Option Fcntl64Cmd
fcntl_number n = if n == 1 then some f_getfd else if n == 2 then some f_setfd else none

abbrev pub epoll_number : ℕ → Option EpollCtlOp
epoll_number n =
    if n == 1
    then some epoll_ctl_add
    else if n == 2
    then some epoll_ctl_del
    else if n == 3
    then some epoll_ctl_mod
    else none

pub holds-joined : (a b c : Bool) → (a || not (b || c)) ≡ ((a || not b) && (a || not c))
holds-joined a b c = ground arith

pub holds_self : (a : Bool) → (a || not a) ≡ true
holds_self a = ground arith

pub joined-holds : (a b : Bool) → ((a || b) || not b) ≡ true
joined-holds a b = ground arith

pub taken-holds : (a : Bool) → ((a && not true) || not true) ≡ false
taken-holds a = ground arith

abbrev pub words : Words
words = record {
  flags = record {
    Flags = Bool;
    contains = λ a b. a || not b;
    union = λ a b. a || b;
    contains-union = holds-joined;
    contains_self = holds_self;
  };
  difference = λ a b. a && not b;
  bits = λ a. if a then 1 else 0;
  from_bits_truncate = λ n. n == 1;
  o_creat = false;
  o_cloexec = true;
  o_nofollow = false;
  o_rdwr = false;
  fcntl_cmd = fcntl_number;
  epoll_ctl_op = epoll_number;
  mode_bits = λ n. n;
  to_poll_events = λ n. n;
  from_poll_events = λ n. n;
  rename_flag = λ n. n;
  has_removedir = λ n. n == 1;
  link_flags = λ n. some n;
  has_empty_path = λ n. false;
  has_symlink_follow = λ n. false;
  is_utf8 = λ bytes. true;
  contains_added = joined-holds;
  contains_taken = taken-holds;
}

-- A kernel file by its data, its entry and its id; the other kinds.
pub data SampleFile : Type 0 where
  kernel : ℕ → ℕ → ℕ → SampleFile
  epoll socket : ℕ → SampleFile
  plain : SampleFile

abbrev pub kernel_id : SampleFile → Option ℕ
kernel_id (kernel m d i) = some i
kernel_id (epoll e) = none
kernel_id (socket n) = none
kernel_id plain = none

abbrev pub epoll_of : SampleFile → Option ℕ
epoll_of (epoll e) = some e
epoll_of (kernel m d i) = none
epoll_of (socket n) = none
epoll_of plain = none

abbrev pub socket_of : SampleFile → Option ℕ
socket_of (socket n) = some n
socket_of (epoll e) = none
socket_of (kernel m d i) = none
socket_of plain = none

abbrev pub is_refused : SampleFile → Bool
is_refused (socket n) = true
is_refused (epoll e) = false
is_refused (kernel m d i) = d == 7
is_refused plain = false

abbrev id_in : Outcome SampleFile → Option ℕ
id_in (ok file) = kernel_id file
id_in (err e) = none
id_in panic = none

abbrev ids_in : Outcome (SampleFile × SampleFile) → Option ℕ × Option ℕ
ids_in (ok ends) = (kernel_id ends.0, kernel_id ends.1)
ids_in (err e) = (none, none)
ids_in panic = (none, none)

-- The data of a kernel file is the number of its entry. The network stack refuses
-- to remove a socket, and the file system to drop the inode of the entry 7.
abbrev pub kinds : Kinds Bool SampleFile ℕ ℕ Bool
kinds = record {
  kernel_file = kernel;
  inode_id = kernel_id;
  new_meta = λ d flag. done d;
  root_shim_dentry = λ m. done m;
  epoll_file = epoll;
  as_epoll = epoll_of;
  socket_file = socket;
  as_socket = socket_of;
  make_pipe_file = done (plain, plain);
  eventfd = λ n flags. done plain;
  drop_contents = λ file w. (not (is_refused file), w);
  inode_id-kernel_file = λ m d i. refl;
  inode_id-epoll_file = λ i. refl;
  inode_id-socket_file = λ i. refl;
  inode_id-make_pipe_file = λ w ends e.
      let same = sym (ap ids_in e) in
      (ap (λ (p : Option ℕ × Option ℕ). p.0) same, ap (λ (p : Option ℕ × Option ℕ). p.1) same);
  inode_id-eventfd = λ n flags w file e. sym (ap id_in e);
}

abbrev pub files : Files Bool SampleFile ℕ ℕ Bool ℕ ℕ
files = record {
  read = λ file buf. done (buf, length buf);
  write = λ file buf. done (length buf);
  read_at = λ file offset buf. done (buf, length buf);
  write_at = λ file offset buf. done (length buf);
  flush = λ file. done tt;
  fsync = λ file. done tt;
  seek = λ file pos. done pos;
  get_attr = λ file. done 0;
  ioctl = λ file cmd arg. fail enosys;
  set_open_flag = λ file flag w. flag;
  get_open_flag = λ file w. w;
  dentry = λ file. done 0;
  inode = λ file. done 0;
  readdir = λ file buf. done (buf, 0);
  truncate = λ file len. fail einval;
  poll = λ file events. done events;
}

abbrev pub stat : FsStat
stat = record {
  f_type = 1;
  f_bsize = 512;
  f_blocks = 8;
  f_bfree = 4;
  f_bavail = 4;
  f_files = 2;
  f_ffree = 1;
  f_fsid = 0;
  f_namelen = 255;
  f_frsize = 512;
  f_flags = 0;
  f_spare = 0;
}

abbrev pub tree : Tree Bool ℕ ℕ ℕ Bool ℕ FsStat
tree = record {
  system_root_fs = done 0;
  join = λ top from name. done (length name);
  open_none = λ p. done p;
  open2 = λ p mode flags. done p;
  rename_to = λ p context q flag. done tt;
  rmdir = λ p. done tt;
  unlink = λ p. done tt;
  link = λ p d. done tt;
  symlink = λ p target. done tt;
  path = λ d w. [];
  inode = λ d. done d;
  inode_type = λ x w. x;
  sym_link = 1;
  readlink = λ x buf. done (buf, 0);
  update_atime = λ x time now. done tt;
  update_mtime = λ x time now. done tt;
  get_super_block = λ x. done 0;
  stat_fs = λ sb. done stat;
  now = λ w. (0, 0);
}

-- Before the first call.
abbrev pub empty : Vfs Bool SampleFile ℕ
empty = record {
  vfs_map = [];
  vfs_map_shadow = [];
  inode_id = 4;
  kfiles = [];
  interests = [];
  net_stack_domain = true;
  world = false;
}

pub empty-Agree : (strict : Bool) → Agree kinds strict empty
unfolding lookup
empty-Agree strict = record { slot = λ j. empty_slot refl refl refl; unused = λ j le. (refl, refl) }
