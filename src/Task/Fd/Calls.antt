-- ===== src/Task/Fd/Calls.antt =====
-- `FdManager` of common/task/task/src/resource.rs and the calls over it, which lie in
-- common/task/task/src/{task,lib}.rs and syscall/fs.rs.
use domains.Prelude.{
  ℕ, ◌%◌, ◌^◌, Option, none, some, Outcome, ok, err, ◌>>=◌, ok_or, unwrap, ebadf, einval,
}
use domains.Task.SlotVec.Defs
use domains.Task.SlotVec.Defs.{SlotVec}

-- `Arc<ShimFile>`, by the inode id that it stands for.
abbrev pub ShimFile : Type 0
ShimFile = ℕ

abbrev pub FdManager : Type 0
FdManager = SlotVec ShimFile

unfoldable pub get_file : FdManager → ℕ → Option ShimFile
get_file fds fd = Defs.get fds fd

unfoldable pub add_file : FdManager → ShimFile → Outcome (ℕ × FdManager)
add_file fds file = unwrap (Defs.put fds file)

unfoldable pub remove_file : FdManager → ℕ → Option ShimFile × FdManager
remove_file fds fd = Defs.remove fds fd

unfoldable pub add_file_to_fd : FdManager → ShimFile → ℕ → Option ShimFile × FdManager
add_file_to_fd fds file fd = Defs.put_at fds fd file

-- `TaskDomain::get_fd`
unfoldable pub get_fd : FdManager → ℕ → Outcome ℕ
get_fd fds fd = ok_or (get_file fds fd) ebadf

-- `TaskDomain::add_fd`
unfoldable pub add_fd : FdManager → ℕ → Outcome (ℕ × FdManager)
add_fd fds inode = add_file fds inode

-- `TaskDomain::remove_fd`
unfoldable pub remove_fd : FdManager → ℕ → Outcome (ℕ × FdManager)
remove_fd fds fd = do let out = remove_file fds fd; file ← ok_or out.0 ebadf; ok (file, out.1)

-- `Fcntl64Cmd`, as far as the task domain tells its commands apart.
pub data FcntlCmd : Type 0 where
  dupfd dupfd_cloexec other : FcntlCmd

-- The duplication that `F_DUPFD` and `F_DUPFD_CLOEXEC` share.
unfoldable pub dup_file : FdManager → ShimFile → Outcome ((ℕ × ℕ) × FdManager)
unfolding add_file
dup_file fds file = do (fd, fds') ← add_file fds file; ok ((file, fd), fds')

unfoldable pub do_fcntl : FdManager → ℕ → FcntlCmd → Outcome ((ℕ × ℕ) × FdManager)
do_fcntl fds fd cmd = do
  file ← ok_or (get_file fds fd) ebadf
  elim cmd [ dupfd ↦ dup_file fds file | dupfd_cloexec ↦ dup_file fds file | other ↦ err einval ]

unfoldable pub do_dup : FdManager → ℕ → Option ℕ → Outcome (ℕ × FdManager)
do_dup fds old_fd none = do file ← ok_or (get_file fds old_fd) ebadf; add_file fds file
do_dup fds old_fd (some new_fd) = do
  file ← ok_or (get_file fds old_fd) ebadf
  ok (new_fd, (add_file_to_fd fds file new_fd).1)

abbrev pub u32_mod : ℕ
u32_mod = 2 ^ 32

-- `write_pair` is `write_val_to_user`, whose inner write is unwrapped.
unfoldable pub do_pipe2 :
    {Mem : Type 0}
    → (Mem → ℕ → ℕ × ℕ → Option Mem)
    → FdManager
    → Mem
    → ℕ
    → ℕ
    → ℕ
    → Outcome (ℕ × FdManager × Mem)
do_pipe2 write_pair fds mem r w pipe_ptr = do
  (r_fd, fds₁) ← add_file fds r
  (w_fd, fds₂) ← add_file fds₁ w
  mem' ← unwrap (write_pair mem pipe_ptr (r_fd % u32_mod, w_fd % u32_mod))
  ok (0, fds₂, mem')
