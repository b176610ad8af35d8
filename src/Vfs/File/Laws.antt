-- ===== src/Vfs/File/Laws.antt =====
-- What the calls of a file do to its position, and what its flags allow.
use domains.Prelude.{
  ℕ, ◌+◌, ◌<◌, ◌≡◌, refl, List, [], ◌∷◌, none, some, true, false, Outcome, ok, err, eperm, einval,
  arith, length, Option-cases, inl, inr,
}
use domains.Vfs.Flags.{OpenFlags}
use domains.Vfs.File.Calls.{
  InodeCalls, Distance, forward, backward, SeekFrom, from_start, from_current, from_end, KernelFile,
  u64_mod, is_readable, is_writable, read, write, read_at, write_at, flush, fsync, truncate, seek,
  new_offset, checked_add_signed,
}

module _ (o : OpenFlags) (c : InodeCalls) where
  -- Two reads in a row into buffers that are not empty, of a readable file whose inode answers
  -- both and whose position stays below 2 ^ 64, read the inode at the position and then right
  -- behind what the first one has read, and leave the position behind both.
  pub read_twice :
      (f : KernelFile o) (inode : c.Inode) (buf₁ buf₂ out₁ out₂ : List ℕ) (n₁ n₂ : ℕ)
      → is_readable o f ≡ true
      → 0 < length buf₁
      → 0 < length buf₂
      → c.read_at inode f.pos buf₁ ≡ ok (out₁, n₁)
      → c.read_at inode (f.pos + n₁) buf₂ ≡ ok (out₂, n₂)
      → f.pos + n₁ + n₂ < u64_mod
      → (read o c f inode buf₁ ≡ ok (out₁, n₁, record f { pos = f.pos + n₁ }))
        × (read o c (record f { pos = f.pos + n₁ }) inode buf₂
            ≡ ok (out₂, n₂, record f { pos = f.pos + n₁ + n₂ }))
  unfolding read read_at is_readable
  read_twice f inode (b ∷ bs) (b' ∷ bs') out₁ out₂ n₁ n₂ can p₁ p₂ e₁ e₂ h =
      (ground arith, ground arith)
  read_twice f inode [] buf₂ out₁ out₂ n₁ n₂ can p₁ p₂ e₁ e₂ h = elim p₁ [ ]
  read_twice f inode (b ∷ bs) [] out₁ out₂ n₁ n₂ can p₁ p₂ e₁ e₂ h = elim p₂ [ ]

  -- On a file that is not writable, a write of at least one byte, a flush and a sync fail with
  -- EPERM, and a truncation fails with EINVAL.
  pub unwritable_fails :
      (f : KernelFile o) (inode : c.Inode) (byte : ℕ) (bytes : List ℕ) (len : ℕ)
      → is_writable o f ≡ false
      → (write o c f inode (byte ∷ bytes) ≡ err eperm)
        × (flush o c f inode ≡ err eperm)
        × (fsync o c f inode ≡ err eperm)
        × (truncate o c f inode len ≡ err einval)
  unfolding write write_at flush fsync truncate is_writable
  unwritable_fails f inode byte bytes len shut =
      (ground arith, ground arith, ground arith, ground arith)

  -- An offset from the start is a `u64`.
  abbrev pub Fits : SeekFrom → Type 0
  Fits (from_start pos) = pos < u64_mod
  Fits (from_current off) = Unit
  Fits (from_end off) = Unit

  -- The exact target of a seek: the offset from the start, or the sum of the base and the distance.
  abbrev pub IsShifted : ℕ → Distance → ℕ → Type 0
  IsShifted base (forward d) m = m ≡ base + d
  IsShifted base (backward d) m = m + d ≡ base

  abbrev pub IsTarget : KernelFile o → ℕ → SeekFrom → ℕ → Type 0
  IsTarget f size (from_start pos) m = m ≡ pos
  IsTarget f size (from_current off) m = IsShifted f.pos off m
  IsTarget f size (from_end off) m = IsShifted size off m

  checked_add_signed-some :
      (n : ℕ) (off : Distance) {m : ℕ}
      → n < u64_mod
      → checked_add_signed n off ≡ some m
      → IsShifted n off m × (m < u64_mod)
  unfolding checked_add_signed
  checked_add_signed-some n (forward d) h e = (ground arith, ground arith)
  checked_add_signed-some n (backward d) h e = (ground arith, ground arith)

  checked_add_signed-none :
      (n : ℕ) (off : Distance) (m : ℕ)
      → checked_add_signed n off ≡ none
      → m < u64_mod
      → ¬ IsShifted n off m
  unfolding checked_add_signed
  checked_add_signed-none n (forward d) m e h at = ground arith
  checked_add_signed-none n (backward d) m e h at = ground arith

  new_offset-some :
      (f : KernelFile o) (size : ℕ) (to : SeekFrom) {m : ℕ}
      → f.pos < u64_mod
      → size < u64_mod
      → Fits to
      → new_offset o c f size to ≡ some m
      → IsTarget f size to m × (m < u64_mod)
  unfolding new_offset
  new_offset-some f size (from_start pos) h h' fits e = (ground arith, ground arith)
  new_offset-some f size (from_current off) h h' fits e = checked_add_signed-some f.pos off h e
  new_offset-some f size (from_end off) h h' fits e = checked_add_signed-some size off h' e

  new_offset-none :
      (f : KernelFile o) (size : ℕ) (to : SeekFrom) (m : ℕ)
      → new_offset o c f size to ≡ none
      → m < u64_mod
      → ¬ IsTarget f size to m
  unfolding new_offset
  new_offset-none f size (from_start pos) m e h at = ground arith
  new_offset-none f size (from_current off) m e h at = checked_add_signed-none f.pos off m e h at
  new_offset-none f size (from_end off) m e h at = checked_add_signed-none size off m e h at

  -- How a seek may end.
  pub data Sought (f : KernelFile o) (inode : c.Inode) (size : ℕ) (to : SeekFrom)
      : Outcome (ℕ × KernelFile o) → Type 0 where
    moved :
        (m : ℕ)
        → IsTarget f size to m
        → m < u64_mod
        → seek o c (record f { pos = m }) inode (from_current (forward 0))
          ≡ ok (m, record f { pos = m })
        → Sought f inode size to (ok (m, record f { pos = m }))
    refused :
        ((m : ℕ) → m < u64_mod → ¬ IsTarget f size to m) → Sought f inode size to (err c.invalid)

  seek-tell :
      (f : KernelFile o) (inode : c.Inode) (size m : ℕ)
      → c.st_size inode ≡ ok size
      → m < u64_mod
      → seek o c (record f { pos = m }) inode (from_current (forward 0))
        ≡ ok (m, record f { pos = m })
  unfolding seek new_offset checked_add_signed
  seek-tell f inode size m s h = ground arith

  seek-some :
      (f : KernelFile o) (inode : c.Inode) (to : SeekFrom) (size m : ℕ)
      → c.st_size inode ≡ ok size
      → new_offset o c f size to ≡ some m
      → seek o c f inode to ≡ ok (m, record f { pos = m })
  unfolding seek
  seek-some f inode to size m s e = rw (s, e, seek) refl

  seek-none :
      (f : KernelFile o) (inode : c.Inode) (to : SeekFrom) (size : ℕ)
      → c.st_size inode ≡ ok size
      → new_offset o c f size to ≡ none
      → seek o c f inode to ≡ err c.invalid
  unfolding seek
  seek-none f inode to size s e = rw (s, e, seek) refl

  -- On a file whose size can be read, where the position, the size and an offset from the start
  -- lie below 2 ^ 64, a seek gives its target and makes it the position, where a seek by nothing
  -- then finds it, if that is a number from 0 to below 2 ^ 64, and fails as an invalid one
  -- otherwise; the target is the offset from the start, or the exact sum of the distance and the
  -- position, or of the distance and the size.
  pub seek-Sought :
      (f : KernelFile o) (inode : c.Inode) (to : SeekFrom) (size : ℕ)
      → c.st_size inode ≡ ok size
      → size < u64_mod
      → f.pos < u64_mod
      → Fits to
      → Sought f inode size to (seek o c f inode to)
  seek-Sought f inode to size s small at fits = elim (Option-cases (new_offset o c f size to)) [
    | inl e ↦ rw (seek-none f inode to size s e) (refused (λ m h. new_offset-none f size to m e h))
    | inr (m, e) ↦
        let (there, h) = new_offset-some f size to at small fits e in
        rw (seek-some f inode to size m s e) (moved m there h (seek-tell f inode size m s h))
  ]
