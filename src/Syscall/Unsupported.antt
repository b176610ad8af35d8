-- ===== src/Syscall/Unsupported.antt =====
-- The system calls that the kernel has no implementation for, common/syscall/syscall/src/fs/basic.rs.
use domains.Prelude.{ℕ, enosys}
use domains.Prelude.Act.{Act, fail}

module _ {S : Type 0} where
  unfoldable pub sys_mount : ℕ → ℕ → ℕ → ℕ → ℕ → Act S ℕ
  sys_mount _ _ _ _ _ = fail enosys

  unfoldable pub sys_setxattr : ℕ → ℕ → ℕ → ℕ → ℕ → Act S ℕ
  sys_setxattr _ _ _ _ _ = fail enosys

  unfoldable pub sys_lsetxattr : ℕ → ℕ → ℕ → ℕ → ℕ → Act S ℕ
  sys_lsetxattr _ _ _ _ _ = fail enosys

  unfoldable pub sys_fsetxattr : ℕ → ℕ → ℕ → ℕ → ℕ → Act S ℕ
  sys_fsetxattr _ _ _ _ _ = fail enosys

  unfoldable pub sys_getxattr : ℕ → ℕ → ℕ → ℕ → Act S ℕ
  sys_getxattr _ _ _ _ = fail enosys

  unfoldable pub sys_lgetxattr : ℕ → ℕ → ℕ → ℕ → Act S ℕ
  sys_lgetxattr _ _ _ _ = fail enosys

  unfoldable pub sys_fgetxattr : ℕ → ℕ → ℕ → ℕ → Act S ℕ
  sys_fgetxattr _ _ _ _ = fail enosys

  unfoldable pub sys_listxattr : ℕ → ℕ → ℕ → Act S ℕ
  sys_listxattr _ _ _ = fail enosys

  unfoldable pub sys_llistxattr : ℕ → ℕ → ℕ → Act S ℕ
  sys_llistxattr _ _ _ = fail enosys

  unfoldable pub sys_flistxattr : ℕ → ℕ → ℕ → Act S ℕ
  sys_flistxattr _ _ _ = fail enosys

  unfoldable pub sys_removexattr : ℕ → ℕ → Act S ℕ
  sys_removexattr _ _ = fail enosys

  unfoldable pub sys_lremovexattr : ℕ → ℕ → Act S ℕ
  sys_lremovexattr _ _ = fail enosys

  unfoldable pub sys_fremovexattr : ℕ → ℕ → Act S ℕ
  sys_fremovexattr _ _ = fail enosys
