-- ===== src/Vfs/File/Calls.antt =====
-- `KernelFile` of common/vfs/vfs/src/kfile.rs, by its position and its open flags. The inode behind
-- the directory entry belongs to the crate `vfscore` and to other domains and is a parameter; a
-- failure to find it is a failure of the call on it.
use domains.Prelude.{
  ℕ, ◌+◌, ◌-◌, ◌%◌, ◌^◌, List, [], ◌∷◌, Option, none, some, Bool, not, ◌&&◌, ◌||◌, ltb, leb,
  if◌then◌else◌, Outcome, ok, err, ◌>>=◌, ok_or, AlienError, eperm, einval,
}
use domains.Vfs.Flags.{OpenFlags}

pub record InodeCalls : Type 1 where
  pub Inode : Type 0
  pub read_at : Inode → ℕ → List ℕ → Outcome (List ℕ × ℕ)
  pub write_at : Inode → ℕ → List ℕ → Outcome (ℕ × Inode)
  pub flush : Inode → Outcome Inode
  pub fsync : Inode → Outcome Inode
  pub st_size : Inode → Outcome ℕ
  pub truncate : Inode → ℕ → Outcome Inode
  -- What `VfsError::Invalid` turns into.
  pub invalid : AlienError

-- `SeekFrom`, a signed distance by its sign and size.
pub data Distance : Type 0 where
  forward backward : ℕ → Distance

pub data SeekFrom : Type 0 where
  from_start : ℕ → SeekFrom
  from_current from_end : Distance → SeekFrom

abbrev pub u64_mod : ℕ
u64_mod = 2 ^ 64

-- `u64::checked_add_signed`
unfoldable pub checked_add_signed : ℕ → Distance → Option ℕ
checked_add_signed n (forward d) = if ltb (n + d) u64_mod then some (n + d) else none
checked_add_signed n (backward d) = if leb d n then some (n - d) else none

module _ (o : OpenFlags) where
  open o use {Flags, contains, rdonly, wronly, rdwr}

  -- `KernelFileMeta`
  pub record KernelFile : Type 0 where
    pub pos : ℕ
    pub open_flag : Flags

  unfoldable pub is_readable : KernelFile → Bool
  is_readable f = contains f.open_flag rdonly || contains f.open_flag rdwr

  unfoldable pub is_writable : KernelFile → Bool
  is_writable f = contains f.open_flag wronly || contains f.open_flag rdwr

  unfoldable pub set_open_flag : KernelFile → Flags → KernelFile
  set_open_flag f flag = record f { open_flag = flag }

  module _ (c : InodeCalls) where
    open c use {Inode}

    unfoldable pub read_at : KernelFile → Inode → ℕ → List ℕ → Outcome (List ℕ × ℕ)
    read_at f inode offset [] = ok ([], 0)
    read_at f inode offset (b ∷ bs) =
        if not (contains f.open_flag rdonly) && not (contains f.open_flag rdwr)
        then err eperm
        else c.read_at inode offset (b ∷ bs)

    unfoldable pub write_at : KernelFile → Inode → ℕ → List ℕ → Outcome (ℕ × Inode)
    write_at f inode offset [] = ok (0, inode)
    write_at f inode offset (b ∷ bs) =
        if not (contains f.open_flag wronly) && not (contains f.open_flag rdwr)
        then err eperm
        else c.write_at inode offset (b ∷ bs)

    unfoldable pub read : KernelFile → Inode → List ℕ → Outcome (List ℕ × ℕ × KernelFile)
    read f inode buf = read_at f inode f.pos buf >>= λ out.
        ok (out.0, out.1, record f { pos = (f.pos + out.1) % u64_mod })

    unfoldable pub write : KernelFile → Inode → List ℕ → Outcome (ℕ × KernelFile × Inode)
    write f inode buf = write_at f inode f.pos buf >>= λ out.
        ok (out.0, record f { pos = (f.pos + out.0) % u64_mod }, out.1)

    -- The three calls that ask for a writable file first.
    unfoldable pub flush : KernelFile → Inode → Outcome Inode
    flush f inode =
        if not (contains f.open_flag wronly) && not (contains f.open_flag rdwr)
        then err eperm
        else c.flush inode

    unfoldable pub fsync : KernelFile → Inode → Outcome Inode
    fsync f inode =
        if not (contains f.open_flag wronly) && not (contains f.open_flag rdwr)
        then err eperm
        else c.fsync inode

    unfoldable pub truncate : KernelFile → Inode → ℕ → Outcome Inode
    truncate f inode len =
        if not (contains f.open_flag wronly) && not (contains f.open_flag rdwr)
        then err einval
        else c.truncate inode len

    unfoldable pub new_offset : KernelFile → ℕ → SeekFrom → Option ℕ
    new_offset f size (from_start pos) = some pos
    new_offset f size (from_current off) = checked_add_signed f.pos off
    new_offset f size (from_end off) = checked_add_signed size off

    unfoldable pub seek : KernelFile → Inode → SeekFrom → Outcome (ℕ × KernelFile)
    seek f inode pos = c.st_size inode >>= λ size.
        ok_or (new_offset f size pos) c.invalid >>= λ offset. ok (offset, record f { pos = offset })
