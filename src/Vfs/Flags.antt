-- ===== src/Vfs/Flags.antt =====
-- Flag sets of the crate `basic` (`bitflags`), which lies outside the repository: what the files
-- ask of them, with the laws of the subset test.
use domains.Prelude.{Bool, true, ◌&&◌, ◌≡◌}

pub record FlagSet : Type 1 where
  pub Flags : Type 0
  pub contains : Flags → Flags → Bool
  pub union : Flags → Flags → Flags
  -- `a.contains(b | c)` asks for the bits of both.
  pub contains-union : (a b c : Flags) → contains a (union b c) ≡ (contains a b && contains a c)
  pub contains_self : (a : Flags) → contains a a ≡ true

-- `OpenFlags`, with the flags that the file layer names.
pub record OpenFlags : Type 1 where
  pub flags : FlagSet
  pub open flags use *
  pub rdonly : Flags
  pub wronly : Flags
  pub rdwr : Flags
