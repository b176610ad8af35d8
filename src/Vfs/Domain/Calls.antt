-- ===== src/Vfs/Domain/Calls.antt =====
-- The calls of `VfsDomainImpl` on one open file, and its closing (common/vfs/vfs/src/lib.rs).
use domains.Prelude.{ℕ, List, length, min, take, drop, ◌++◌, ◌==◌, not, if◌then◌else◌}
use domains.Prelude.Act.{Act, done, ◌>>=◌, ◌>>◌}
use domains.Vfs.Domain.Core.{Words, Files, Kinds, Tree}
use domains.Vfs.Domain.State.{Vfs, call, see, get_file, file_or_einval, slice, remove_file}

module _ {W F D M Fl : Type 0} (k : Kinds W F D M Fl) where
  unfoldable pub vfs_close : ℕ → Act (Vfs W F M) (Unit {0})
  vfs_close inode = remove_file k inode >> done tt

module _ {W F M D I Fl Seek Attr : Type 0} (w : Words) (f : Files W F D I Fl Seek Attr) where
  unfoldable pub vfs_poll : ℕ → ℕ → Act (Vfs W F M) ℕ
  vfs_poll inode events = do
    file ← get_file inode
    res ← call (f.poll file (w.to_poll_events events))
    done (w.from_poll_events res)

module _ {W F M D I Fl Seek Attr : Type 0} (f : Files W F D I Fl Seek Attr) where
  unfoldable pub vfs_ioctl : ℕ → ℕ → ℕ → Act (Vfs W F M) ℕ
  vfs_ioctl inode cmd arg = get_file inode >>= λ file. call (f.ioctl file cmd arg)

  unfoldable pub vfs_getattr : ℕ → Act (Vfs W F M) Attr
  vfs_getattr inode = get_file inode >>= λ file. call (f.get_attr file)

  unfoldable pub vfs_read_at : ℕ → ℕ → List ℕ → Act (Vfs W F M) (List ℕ × ℕ)
  vfs_read_at inode offset buf = get_file inode >>= λ file. call (f.read_at file offset buf)

  unfoldable pub vfs_read : ℕ → List ℕ → Act (Vfs W F M) (List ℕ × ℕ)
  vfs_read inode buf = get_file inode >>= λ file. call (f.read file buf)

  unfoldable pub vfs_write_at : ℕ → ℕ → List ℕ → ℕ → Act (Vfs W F M) ℕ
  vfs_write_at inode offset buf w_len = get_file inode >>= λ file. call (f.write_at file offset buf)

  -- Only the first `w_len` bytes are written.
  unfoldable pub vfs_write : ℕ → List ℕ → ℕ → Act (Vfs W F M) ℕ
  vfs_write inode buf w_len = do
    file ← get_file inode
    bytes ← if not (length buf == w_len) then slice buf w_len else done buf
    call (f.write file bytes)

  unfoldable pub vfs_flush : ℕ → Act (Vfs W F M) (Unit {0})
  vfs_flush inode = get_file inode >>= λ file. call (f.flush file)

  unfoldable pub vfs_fsync : ℕ → Act (Vfs W F M) (Unit {0})
  vfs_fsync inode = get_file inode >>= λ file. call (f.fsync file)

  unfoldable pub vfs_lseek : ℕ → Seek → Act (Vfs W F M) ℕ
  vfs_lseek inode seek = get_file inode >>= λ file. call (f.seek file seek)

  unfoldable pub vfs_readdir : ℕ → List ℕ → Act (Vfs W F M) (List ℕ × ℕ)
  vfs_readdir inode buf = get_file inode >>= λ file. call (f.readdir file buf)

  unfoldable pub vfs_ftruncate : ℕ → ℕ → Act (Vfs W F M) (Unit {0})
  vfs_ftruncate inode len = get_file inode >>= λ file. call (f.truncate file len)

module _ {W F M D I Fl Seek Attr P Sb Stat : Type 0} (f : Files W F D I Fl Seek Attr)
    (t : Tree W D I P Fl Sb Stat) where
  unfoldable pub vfs_statfs : ℕ → Act (Vfs W F M) Stat
  vfs_statfs inode = do
    file ← file_or_einval inode
    x ← call (f.inode file)
    sb ← call (t.get_super_block x)
    call (t.stat_fs sb)

  unfoldable pub vfs_inode_type : ℕ → Act (Vfs W F M) ℕ
  vfs_inode_type inode = do file ← get_file inode; x ← call (f.inode file); see (t.inode_type x)

  -- As much of the path as fits, at the front of the buffer.
  unfoldable pub vfs_get_path : ℕ → List ℕ → Act (Vfs W F M) (List ℕ × ℕ)
  vfs_get_path inode buf = do
    file ← get_file inode
    dentry ← call (f.dentry file)
    path ← see (t.path dentry)
    done (
      take (min (length path) (length buf)) path ++ drop (min (length path) (length buf)) buf,
      min (length path) (length buf),
    )

  unfoldable pub vfs_update_atime : ℕ → ℕ → ℕ → Act (Vfs W F M) (Unit {0})
  vfs_update_atime inode atime_sec atime_nano = do
    file ← get_file inode
    now ← see t.now
    dentry ← call (f.dentry file)
    x ← call (t.inode dentry)
    call (t.update_atime x (atime_sec, atime_nano) now)

  unfoldable pub vfs_update_mtime : ℕ → ℕ → ℕ → Act (Vfs W F M) (Unit {0})
  vfs_update_mtime inode mtime_sec mtime_nano = do
    file ← get_file inode
    now ← see t.now
    dentry ← call (f.dentry file)
    x ← call (t.inode dentry)
    call (t.update_mtime x (mtime_sec, mtime_nano) now)
