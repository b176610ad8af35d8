-- ===== src/Syscall/Tests.antt =====
-- The system calls on concrete domains, and the claims at them.
use domains.Prelude.{
  ℕ, ◌≡◌, refl, ◌+◌, ◌<◌, List, [], ◌∷◌, none, some, Bool, true, false, not, ◌==◌, arith, length,
  length-replicate, replicate,
}
use domains.Prelude.Act.{done}
use domains.Prelude.Triple.{Answers, done-Answers}
use domains.Vfs.Domain.Sample.{words, files, kinds, tree, empty, empty-Agree, SampleFile, stat}
use domains.Vfs.Domain.State.{Vfs}
use domains.Syscall.Domains.{TaskDomain, VfsDomain, Abi, Pod, TimeSpec}
use domains.Syscall.Balance.{Ends, Promises}
use domains.Syscall.Balanced.{sys_fstatat-balanced, sys_truncate-balanced}
use domains.Syscall.Instance.{view, vfs_domain, of_world, vfs_domain-Promises}
use domains.Syscall.Amounts.{ReadsFit, BuffersFit, sys_sendfile-Answers}
use domains.Syscall.Waiting.{HasAnswer, select_common-zero}
use domains.Syscall.Select.{SelectArgs, select_common}
use domains.Syscall.Sendfile.{sys_sendfile, send_loop, capped}
use domains.Syscall.Enough.{send_loop-enough}
use domains.Syscall.Paths.{sys_fstatat}
use domains.Syscall.Links.{sys_truncate}

abbrev first : List ℕ → ℕ
first [] = 0
first (b ∷ bs) = b

-- Plain data of one number, and of records of numbers.
abbrev one_number : Pod ℕ
one_number = record { size = 8; as_bytes = λ n. n ∷ []; from_bytes = first }

-- A task whose descriptors are the ids of the files, with the path `/` at every address.
abbrev task : {S : Type 0} → TaskDomain S
task = record {
  get_fd = λ fd. done fd;
  add_fd = λ file. done file;
  remove_fd = λ fd. done fd;
  do_dup = λ fd new. done fd;
  do_fcntl = λ fd cmd. done (fd, fd);
  fs_info = done (0, 0);
  set_cwd = λ inode. done tt;
  copy_from_user = λ address len. done (replicate len 1);
  copy_to_user = λ address bytes. done tt;
  read_string_from_user = λ address buf. done (47 ∷ buf, 1);
  read_val_from_user = λ pod address. done (pod.from_bytes []);
  write_val_to_user = λ pod address x. done tt;
}

abbrev no_time : TimeSpec
no_time = record { tv_sec = 0; tv_nsec = 0 }

abbrev abi : {S : Type 0} → Abi S ℕ ℕ
abi = record {
  is_utf8 = λ bytes. true;
  vfs_root_id = 0;
  new_uninit = λ n. replicate n 0;
  at_fdcwd = 100;
  max_fd_num = 64;
  o_creat = 64;
  o_rdonly = 0;
  o_rdwr = 2;
  o_nofollow = 8;
  o_cloexec = 1;
  open_bits = λ n. n;
  dir_mode = λ n. n;
  has_symlink_nofollow = λ n. n == 256;
  unlink_bits = λ n. n;
  has_exchange = λ n. n == 2;
  has_noreplace = λ n. n == 1;
  has_whiteout = λ n. n == 4;
  link_flags = λ n. some n;
  has_empty_path = λ n. n == 4096;
  has_others = λ n. not (n == 0);
  has_cloexec = λ n. n == 1;
  f_setfd_number = 2;
  fcntl_cmd = λ n. none;
  is_teletype_command = λ n. true;
  seek_from = λ whence offset. some offset;
  is_dir = λ ty. ty == 2;
  file_stat_bytes = λ attr. attr ∷ [];
  iovec = record { size = 16; as_bytes = λ v. []; from_bytes = λ bytes. (0, 0) };
  timespec = record { size = 16; as_bytes = λ t. []; from_bytes = λ bytes. no_time };
  timeval = record { size = 16; as_bytes = λ v. []; from_bytes = λ bytes. (0, 0) };
  pollfd = record {
    size = 8;
    as_bytes = λ p. [];
    from_bytes = λ bytes. record { fd = 0; events = 0; revents = 0 };
  };
  u64 = one_number;
  fs_stat = record { size = 96; as_bytes = λ x. []; from_bytes = λ bytes. stat };
  poll_in = 1;
  poll_out = 4;
  poll_err = 8;
  has_event = λ events event. events == event;
  to_vfs_events = λ n. n;
  to_poll_events = λ n. n;
  no_events = λ n. n == 0;
  epoll_err = 8;
  from_poll_sigmask = 5;
  now = λ s. no_time;
  to_clock = λ t. t.tv_sec;
  yield_now = done tt;
}

-- Files that fill every buffer, in a state that counts nothing.
abbrev full : VfsDomain (Unit {0}) ℕ ℕ ℕ
full = record {
  vfs_poll = λ id events. done 0;
  vfs_ioctl = λ id cmd arg. done 0;
  vfs_open = λ root path len mode flags. done 4;
  vfs_close = λ id. done tt;
  vfs_getattr = λ id. done 0;
  vfs_statfs = λ id. done stat;
  vfs_read_at = λ id offset buf. done (buf, length buf);
  vfs_read = λ id buf. done (buf, length buf);
  vfs_write_at = λ id offset buf len. done len;
  vfs_write = λ id buf len. done len;
  vfs_fsync = λ id. done tt;
  vfs_lseek = λ id pos. done pos;
  vfs_inode_type = λ id. done 2;
  vfs_readdir = λ id buf. done (buf, 0);
  vfs_get_path = λ id buf. done (buf, length buf);
  vfs_ftruncate = λ id len. done tt;
  vfs_update_atime = λ id sec nano. done tt;
  vfs_update_mtime = λ id sec nano. done tt;
  vfs_rename = λ old new old_path old_len new_path new_len info flag. done tt;
  vfs_unlink = λ id path len flag. done tt;
  vfs_linkat = λ old path len new new_path new_len flags. done tt;
  vfs_symlinkat = λ target len new path path_len. done tt;
  vfs_readlinkat = λ root path len buf. done (buf, 0);
  do_fcntl = λ id cmd arg. done 0;
  do_poll_create = λ flags. done 5;
  do_poll_ctl = λ id op fd event. done tt;
  do_eventfd = λ n flags. done 6;
}

full-ReadsFit : ReadsFit full
full-ReadsFit = record {
  read = λ file buf. done-Answers _ (buf, length buf) (omega arith, refl);
  read_at = λ file offset buf. done-Answers _ (buf, length buf) (omega arith, refl);
}

buffers : BuffersFit abi full task
buffers n = length-replicate n 0

sys_sendfile-Answers_example :
    Answers (λ n. n < capped 700 + 512) (sys_sendfile abi full task 1 4 0 700)
sys_sendfile-Answers_example = sys_sendfile-Answers abi full task 1 4 0 700 full-ReadsFit buffers

abbrev args : SelectArgs
args = record { nfds = 3; readfds = 4096; writefds = 0; exceptfds = 0; timeout = 0; sigmask = 0 }

select_common-zero_example : Answers HasAnswer (select_common abi full task 1 args (some no_time))
select_common-zero_example = select_common-zero abi full task 0 args no_time refl

-- The domain with one kernel file open.
abbrev real : VfsDomain (Vfs Bool SampleFile ℕ) ℕ ℕ ℕ
real = vfs_domain words files tree kinds

abbrev here : TaskDomain (Vfs Bool SampleFile ℕ)
here = of_world task

vfs_domain-Promises_example : Promises (view kinds) real here
vfs_domain-Promises_example = vfs_domain-Promises words files tree kinds task

sys_fstatat-balanced_example :
    Ends
      (view kinds)
      false
      empty
      (sys_fstatat abi real here 100 8 64 0 empty).0
      (sys_fstatat abi real here 100 8 64 0 empty).1
sys_fstatat-balanced_example =
    sys_fstatat-balanced (view kinds) abi real here
      (vfs_domain-Promises words files tree kinds task) empty 100 8 64 0
      ((empty-Agree false, omega arith), omega arith)

sys_truncate-balanced_example :
    Ends
      (view kinds)
      true
      empty
      (sys_truncate abi real here 8 64 empty).0
      (sys_truncate abi real here 8 64 empty).1
sys_truncate-balanced_example =
    sys_truncate-balanced (view kinds) abi real here
      (vfs_domain-Promises words files tree kinds task) empty 8 64
      ((empty-Agree false, omega arith), omega arith)

send_loop-enough_example :
    send_loop full 701 4 1 700 0 none (replicate 512 0) tt
    ≡ send_loop full 700 4 1 700 0 none (replicate 512 0) tt
send_loop-enough_example =
    send_loop-enough full 700 4 1 700 0 none (replicate 512 0) tt full-ReadsFit refl (omega arith)
      (omega arith)
