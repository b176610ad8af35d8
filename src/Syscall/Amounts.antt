-- ===== src/Syscall/Amounts.antt =====
-- The numbers of bytes that the system calls answer.
use domains.Prelude.{
  ℕ, ◌≡◌, refl, ◌+◌, ◌≤◌, ◌<◌, ◌%◌, ◌^◌, List, Option, none, some, Bool, true, false, not, ltb,
  ◌==◌, suc, zero, length, if◌then◌else◌, arith,
}
use domains.Prelude.Act.{Act}
use domains.Prelude.Triple.{Answers, bind-Answers, then-Answers, done-Answers}
use domains.Syscall.Domains.{TaskDomain, VfsDomain, Abi}
use domains.Syscall.Data.{sys_write, write_all, sys_read, read_into, sys_pread64, read_at_into}
use domains.Syscall.Sendfile.{sys_sendfile, send_loop, read_block, capped}

if-Answers :
    {S A : Type 0} (P : A → Type 0) (b : Bool) {m n : Act S A}
    → (b ≡ true → Answers P m)
    → (b ≡ false → Answers P n)
    → Answers P (if b then m else n)
if-Answers P true h k = h refl
if-Answers P false h k = k refl

module _ {S Seek Attr Event : Type 0} (vfs : VfsDomain S Seek Attr Event) where
  -- A read fills at most the buffer that it is handed, and hands it back.
  pub record ReadsFit : Type 0 where
    pub read :
        (file : ℕ) (buf : List ℕ)
        → Answers
            (λ (out : List ℕ × ℕ). (out.1 ≤ length buf) × (length out.0 ≡ length buf))
            (vfs.vfs_read file buf)
    pub read_at :
        (file offset : ℕ) (buf : List ℕ)
        → Answers
            (λ (out : List ℕ × ℕ). (out.1 ≤ length buf) × (length out.0 ≡ length buf))
            (vfs.vfs_read_at file offset buf)

  -- A block has at most as many bytes as the buffer.
  abbrev pub InBuffer : List ℕ → (List ℕ × ℕ) × Option ℕ → Type 0
  InBuffer buf out = (out.0.1 ≤ length buf) × (length out.0.0 ≡ length buf)

  pub read_block-Answers :
      (file : ℕ) (offset : Option ℕ) (buf : List ℕ)
      → ReadsFit
      → Answers (InBuffer buf) (read_block vfs file offset buf)
  unfolding read_block
  read_block-Answers file (some offset) buf fit =
      bind-Answers _ (InBuffer buf) (fit.read_at file offset buf)
        (λ out h. done-Answers (InBuffer buf) _ h)
  read_block-Answers file none buf fit =
      bind-Answers _ (InBuffer buf) (fit.read file buf) (λ out h. done-Answers (InBuffer buf) _ h)

  abbrev Below : ℕ → ℕ × Option ℕ → Type 0
  Below count out = out.0 < count + 512

  send_loop-Answers :
      (fuel in_file out_file count total : ℕ) (offset : Option ℕ) (buf : List ℕ)
      → ReadsFit
      → length buf ≡ 512
      → total < count + 512
      → Answers (Below count) (send_loop vfs fuel in_file out_file count total offset buf)
  unfolding send_loop
  send_loop-Answers zero in_file out_file count total offset buf fit l lt =
      done-Answers (Below count) (total, offset) lt
  send_loop-Answers (suc fuel) in_file out_file count total offset buf fit l lt =
      if-Answers (Below count) (not (ltb total count))
        (λ enough. done-Answers (Below count) (total, offset) lt)
        (λ more.
          bind-Answers (InBuffer buf) (Below count) (read_block-Answers in_file offset buf fit)
            (λ out (le, same).
              if-Answers (Below count) (out.0.1 == 0)
                (λ nothing. done-Answers (Below count) (total, out.1) lt)
                (λ something.
                  then-Answers (Below count) (vfs.vfs_write out_file out.0.0 out.0.1) (λ w.
                    let up : (total + out.0.1) % 2 ^ 64 < count + 512 = ground arith in
                    if-Answers (Below count) (not (w == out.0.1))
                      (λ short. done-Answers (Below count) _ up)
                      (λ full.
                        send_loop-Answers fuel in_file out_file count ((total + out.0.1) % 2 ^ 64)
                          out.1 out.0.0 fit (omega arith) up)))))

module _ {S Seek Attr Event : Type 0} (a : Abi S Seek Attr) (vfs : VfsDomain S Seek Attr Event)
    (task_domain : TaskDomain S) where
  -- New buffers have the length asked for.
  abbrev pub BuffersFit : Type 0
  BuffersFit = (n : ℕ) → length (a.new_uninit n) ≡ n

  -- A sendfile that answers, where reads fill at most the buffers that they are handed, answers
  -- fewer bytes than 512 more than the count asked for, at most 0x7ffff000.
  pub sys_sendfile-Answers :
      (out_fd in_fd offset_ptr count : ℕ)
      → ReadsFit vfs
      → BuffersFit
      → Answers
          (λ n. n < capped count + 512)
          (sys_sendfile a vfs task_domain out_fd in_fd offset_ptr count)
  unfolding sys_sendfile
  sys_sendfile-Answers out_fd in_fd offset_ptr count fit buffers = then-Answers _ _ (λ in_file.
      then-Answers _ _ (λ out_file. then-Answers _ _ (λ offset.
        bind-Answers (Below vfs (capped count)) _
          (send_loop-Answers vfs (capped count) in_file out_file (capped count) 0 offset _ fit
            (buffers 512) (omega arith))
          (λ sent h. then-Answers _ _ (λ x. done-Answers _ sent.0 h)))))

  -- `write` answers the length that it was called with whenever it answers: also where the file took
  -- fewer bytes.
  pub sys_write-Answers :
      (fd buf len : ℕ) → Answers (λ n. n ≡ len) (sys_write a vfs task_domain fd buf len)
  unfolding sys_write write_all
  sys_write-Answers fd buf len = then-Answers _ _ (λ file.
      if-Answers _ (len == 0) (λ e. done-Answers _ 0 (ground arith))
        (λ e. then-Answers _ _ (λ bytes. then-Answers _ _ (λ w. done-Answers _ len refl))))

  -- `read` and `pread64` answer at most the length of the buffer, where reads fill at most theirs.
  pub sys_read-Answers :
      (fd buf len : ℕ)
      → ReadsFit vfs
      → BuffersFit
      → Answers (λ n. n ≤ len) (sys_read a vfs task_domain fd buf len)
  unfolding sys_read read_into
  sys_read-Answers fd buf len fit buffers = then-Answers _ _ (λ file.
      if-Answers _ (len == 0) (λ e. done-Answers _ 0 (omega arith))
        (λ e. bind-Answers _ _ (fit.read file (a.new_uninit len)) (λ out (le, same).
          then-Answers _ _ (λ bytes.
            then-Answers _ _ (λ x. done-Answers _ out.1 (let l = buffers len in omega arith))))))

  pub sys_pread64-Answers :
      (fd buf len offset : ℕ)
      → ReadsFit vfs
      → BuffersFit
      → Answers (λ n. n ≤ len) (sys_pread64 a vfs task_domain fd buf len offset)
  unfolding sys_pread64 read_at_into
  sys_pread64-Answers fd buf len offset fit buffers = then-Answers _ _ (λ file.
      if-Answers _ (len == 0) (λ e. done-Answers _ 0 (omega arith))
        (λ e. bind-Answers _ _ (fit.read_at file offset (a.new_uninit len)) (λ out (le, same).
          then-Answers _ _ (λ bytes.
            then-Answers _ _ (λ x. done-Answers _ out.1 (let l = buffers len in omega arith))))))
