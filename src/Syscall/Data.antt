-- ===== src/Syscall/Data.antt =====
-- The system calls that read and write by a descriptor, common/syscall/syscall/src/fs/basic.rs.
use domains.Prelude.{
  ℕ, ◌+◌, List, [], ◌++◌, Option, none, some, ◌||◌, leb, ◌==◌, length, ok_or, if◌then◌else◌, einval,
  suc, zero,
}
use domains.Prelude.Act.{Act, done, reject, result, ◌>>=◌, ◌>>◌}
use domains.Syscall.Domains.{TaskDomain, VfsDomain, Abi, slice}

-- `out_bytes.get_or_insert_with(Vec::new)`
abbrev gathered : Option (List ℕ) → List ℕ
gathered none = []
gathered (some bytes) = bytes

module _ {S Seek Attr Event : Type 0} (a : Abi S Seek Attr) (vfs : VfsDomain S Seek Attr Event)
    (task_domain : TaskDomain S) where
  unfoldable pub sys_close : ℕ → Act S ℕ
  sys_close fd = task_domain.remove_fd fd >>= λ file. done 0

  unfoldable pub write_all : ℕ → ℕ → ℕ → Act S ℕ
  write_all file buf len = do
    tmp_buf ← task_domain.copy_from_user buf len
    w ← vfs.vfs_write file tmp_buf len
    done len

  unfoldable pub sys_write : ℕ → ℕ → ℕ → Act S ℕ
  unfolding write_all
  sys_write fd buf len = do
    file ← task_domain.get_fd fd
    if len == 0 then done 0 else write_all file buf len

  -- A buffer of `len` bytes is read and goes to the user as far as it was filled.
  unfoldable pub read_into : ℕ → ℕ → ℕ → Act S ℕ
  read_into file buf len = do
    out ← vfs.vfs_read file (a.new_uninit len)
    bytes ← slice out.0 out.1
    task_domain.copy_to_user buf bytes
    done out.1

  unfoldable pub sys_read : ℕ → ℕ → ℕ → Act S ℕ
  unfolding read_into
  sys_read fd buf len = do
    file ← task_domain.get_fd fd
    if len == 0 then done 0 else read_into file buf len

  -- The vectors of the user from `iov` on; `IoVec` is its base and its length.
  unfoldable pub iovec_at : ℕ → Act S (ℕ × ℕ)
  iovec_at ptr =
      task_domain.copy_from_user ptr a.iovec.size >>= λ bytes. done (a.iovec.from_bytes bytes)

  -- `for i in 0..iovcnt`, with `count` bytes so far. An empty vector is passed over.
  unfoldable pub readv_loop : ℕ → ℕ → ℕ → ℕ → Act S ℕ
  unfolding read_into iovec_at
  readv_loop file ptr zero count = done count
  readv_loop file ptr (suc more) count = iovec_at ptr >>= λ iov.
      let skipped = readv_loop file (ptr + a.iovec.size) more count in
      if iov.0 == 0 || iov.1 == 0
      then skipped
      else (read_into file iov.0 iov.1 >>= λ r.
          readv_loop file (ptr + a.iovec.size) more (count + r))

  unfoldable pub sys_readv : ℕ → ℕ → ℕ → Act S ℕ
  unfolding readv_loop
  sys_readv fd iov iovcnt = task_domain.get_fd fd >>= λ file. readv_loop file iov iovcnt 0

  -- The vectors for one of the first three descriptors are gathered first.
  unfoldable pub gather : ℕ → ℕ → Option (List ℕ) → ℕ → Act S (Option (List ℕ) × ℕ)
  unfolding iovec_at
  gather ptr zero out_bytes count = done (out_bytes, count)
  gather ptr (suc more) out_bytes count = iovec_at ptr >>= λ iov.
      let skipped = gather (ptr + a.iovec.size) more out_bytes count in
      if iov.0 == 0 || iov.1 == 0
      then skipped
      else (task_domain.copy_from_user iov.0 iov.1 >>= λ tmp_buf. slice tmp_buf iov.1 >>= λ bytes.
          gather (ptr + a.iovec.size) more (some (gathered out_bytes ++ bytes)) (count + iov.1))

  unfoldable pub write_gathered : ℕ → Option (List ℕ) × ℕ → Act S ℕ
  write_gathered file (none, count) = done count
  write_gathered file (some out, count) = vfs.vfs_write file out (length out) >>= λ w. done count

  unfoldable pub writev_loop : ℕ → ℕ → ℕ → ℕ → Act S ℕ
  unfolding iovec_at
  writev_loop file ptr zero count = done count
  writev_loop file ptr (suc more) count = iovec_at ptr >>= λ iov.
      let skipped = writev_loop file (ptr + a.iovec.size) more count in
      if iov.0 == 0 || iov.1 == 0
      then skipped
      else (task_domain.copy_from_user iov.0 iov.1 >>= λ tmp_buf.
          vfs.vfs_write file tmp_buf iov.1 >>= λ w.
          writev_loop file (ptr + a.iovec.size) more (count + w))

  unfoldable pub sys_writev : ℕ → ℕ → ℕ → Act S ℕ
  unfolding gather write_gathered writev_loop
  sys_writev fd iov iovcnt = task_domain.get_fd fd >>= λ file.
      if leb fd 2
      then (gather iov iovcnt none 0 >>= write_gathered file)
      else writev_loop file iov iovcnt 0

  unfoldable pub sys_ftruncate : ℕ → ℕ → Act S ℕ
  sys_ftruncate fd len = do file ← task_domain.get_fd fd; vfs.vfs_ftruncate file len; done 0

  unfoldable pub sys_lseek : ℕ → ℕ → ℕ → Act S ℕ
  sys_lseek fd offset whence = do
    file ← task_domain.get_fd fd
    seek ← result (ok_or (a.seek_from whence offset) einval)
    vfs.vfs_lseek file seek

  unfoldable pub sys_fstat : ℕ → ℕ → Act S ℕ
  sys_fstat fd statbuf = do
    reject (statbuf == 0) einval
    file ← task_domain.get_fd fd
    stat ← vfs.vfs_getattr file
    task_domain.copy_to_user statbuf (a.file_stat_bytes stat)
    done 0

  unfoldable pub sys_fsync : ℕ → Act S ℕ
  sys_fsync fd = do file ← task_domain.get_fd fd; vfs.vfs_fsync file; done 0

  unfoldable pub read_at_into : ℕ → ℕ → ℕ → ℕ → Act S ℕ
  read_at_into file buf len offset = do
    out ← vfs.vfs_read_at file offset (a.new_uninit len)
    bytes ← slice out.0 out.1
    task_domain.copy_to_user buf bytes
    done out.1

  unfoldable pub sys_pread64 : ℕ → ℕ → ℕ → ℕ → Act S ℕ
  unfolding read_at_into
  sys_pread64 fd buf len offset = do
    file ← task_domain.get_fd fd
    if len == 0 then done 0 else read_at_into file buf len offset

  unfoldable pub write_at_from : ℕ → ℕ → ℕ → ℕ → Act S ℕ
  write_at_from file buf len offset = do
    tmp_buf ← task_domain.copy_from_user buf len
    vfs.vfs_write_at file offset tmp_buf len

  unfoldable pub sys_pwrite64 : ℕ → ℕ → ℕ → ℕ → Act S ℕ
  unfolding write_at_from
  sys_pwrite64 fd buf len offset = do
    file ← task_domain.get_fd fd
    if len == 0 then done 0 else write_at_from file buf len offset

  unfoldable pub sys_getdents64 : ℕ → ℕ → ℕ → Act S ℕ
  sys_getdents64 fd buf count = do
    file ← task_domain.get_fd fd
    out ← vfs.vfs_readdir file (a.new_uninit count)
    bytes ← slice out.0 out.1
    task_domain.copy_to_user buf bytes
    done out.1
