-- ===== src/Syscall/Sendfile.antt =====
-- `sys_sendfile`, common/syscall/syscall/src/fs/basic.rs: blocks of 512 bytes go from one file to
-- another.
use domains.Prelude.{
  ℕ, ◌+◌, ◌%◌, ◌^◌, List, Option, none, some, not, ltb, ◌==◌, suc, zero, if◌then◌else◌,
}
use domains.Prelude.Act.{Act, done, ◌>>=◌, ◌>>◌}
use domains.Syscall.Domains.{TaskDomain, VfsDomain, Abi}

abbrev pub max_count : ℕ
max_count = 2147479552

abbrev pub capped : ℕ → ℕ
capped count = if ltb max_count count then max_count else count

module _ {S Seek Attr Event : Type 0} (vfs : VfsDomain S Seek Attr Event) where
  -- A block at the offset that is given, which moves on, or at the file's own position.
  unfoldable pub read_block : ℕ → Option ℕ → List ℕ → Act S ((List ℕ × ℕ) × Option ℕ)
  read_block in_file (some offset) shared_buf = vfs.vfs_read_at in_file offset shared_buf >>= λ out.
      done ((out.0, out.1), some ((offset + out.1) % 2 ^ 64))
  read_block in_file none shared_buf =
      vfs.vfs_read in_file shared_buf >>= λ out. done ((out.0, out.1), none)

  -- `while total < count`. A round moves a byte at least, so that fuel for `count` rounds is enough.
  unfoldable pub send_loop : ℕ → ℕ → ℕ → ℕ → ℕ → Option ℕ → List ℕ → Act S (ℕ × Option ℕ)
  unfolding read_block
  send_loop zero in_file out_file count total offset shared_buf = done (total, offset)
  send_loop (suc fuel) in_file out_file count total offset shared_buf =
      if not (ltb total count)
      then done (total, offset)
      else (read_block in_file offset shared_buf >>= λ out.
          if out.0.1 == 0
          then done (total, out.1)
          else (vfs.vfs_write out_file out.0.0 out.0.1 >>= λ w.
              if not (w == out.0.1)
              then done ((total + out.0.1) % 2 ^ 64, out.1)
              else send_loop fuel in_file out_file count ((total + out.0.1) % 2 ^ 64) out.1
                  out.0.0))

module _ {S Seek Attr Event : Type 0} (a : Abi S Seek Attr) (vfs : VfsDomain S Seek Attr Event)
    (task_domain : TaskDomain S) where
  unfoldable pub read_offset : ℕ → Act S (Option ℕ)
  read_offset offset_ptr =
      if not (offset_ptr == 0)
      then (task_domain.read_val_from_user a.u64 offset_ptr >>= λ offset. done (some offset))
      else done none

  unfoldable pub write_offset : ℕ → Option ℕ → Act S (Unit {0})
  write_offset offset_ptr (some offset) = task_domain.write_val_to_user a.u64 offset_ptr offset
  write_offset offset_ptr none = done tt

  unfoldable pub sys_sendfile : ℕ → ℕ → ℕ → ℕ → Act S ℕ
  unfolding send_loop read_offset write_offset
  sys_sendfile out_fd in_fd offset_ptr count = do
    in_file ← task_domain.get_fd in_fd
    out_file ← task_domain.get_fd out_fd
    offset ← read_offset offset_ptr
    sent ← send_loop vfs (capped count) in_file out_file (capped count) 0 offset (a.new_uninit 512)
    write_offset offset_ptr sent.1
    done sent.0
