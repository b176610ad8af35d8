-- ===== src/Generic/TreeLaws.antt =====
-- The calls on dentries keep the ids; `drop_inode` keeps those that it does not give back.
use domains.Prelude.{ℕ, refl, List, Option, none, some}
use domains.Prelude.Act.{state_of}
use domains.Generic.Core.{Shim, Dentries, Names}
use domains.Generic.Keeps.{
  Keeps, Extends-same, bind-Keeps, pass, weaken, call-Keeps, done-Keeps, see-Keeps, change-Keeps,
  expect-Keeps, dentry_at-Keeps, str-Keeps, fs_domain-Keeps, issue-Keeps,
}
use domains.Generic.Tree.{
  dentry_name, dentry_path, keep_parent, dentry_set_parent, issue_some, dentry_parent,
  dentry_to_mount_point, mounted, dentry_mount_point, dentry_clear_mount_point, dentry_find,
  dentry_remove,
}

module _ {W D I : Type 0} (d : Dentries W D I) (n : Names) (k : ℕ) where
  pub dentry_name-Keeps : (inode : ℕ) (buf : List ℕ) → Keeps k 0 (dentry_name d n inode buf)
  unfolding dentry_name
  dentry_name-Keeps inode buf =
      pass k (dentry_at-Keeps k inode) (λ x. pass k (see-Keeps k _) (λ y. done-Keeps k _))

  pub issue_some-Keeps : (o : Option D) → Keeps k 1 (issue_some {W = W} o)
  unfolding issue_some
  issue_some-Keeps none = weaken k (done-Keeps k _)
  issue_some-Keeps (some x) = bind-Keeps k 1 0 (issue-Keeps k _) (λ y. done-Keeps k _)

  pub keep_parent-Keeps :
      (parent : ℕ) (shim : Shim) → Keeps {W = W} {D = D} k 0 (keep_parent parent shim)
  unfolding keep_parent
  keep_parent-Keeps parent shim = record {
    extends = λ s f lt. Extends-same k 0 s (state_of (keep_parent parent shim) s) f refl refl;
  }

  pub mounted-Keeps :
      (ident : List ℕ) (o : Option (Option Shim)) → Keeps {W = W} {D = D} k 0 (mounted ident o)
  unfolding mounted
  mounted-Keeps ident none = done-Keeps k _
  mounted-Keeps ident (some shim) = pass k (expect-Keeps k shim) (λ x. done-Keeps k _)

  pub dentry_path-Keeps : (inode : ℕ) (buf : List ℕ) → Keeps k 0 (dentry_path d n inode buf)
  unfolding dentry_path
  dentry_path-Keeps inode buf =
      pass k (dentry_at-Keeps k inode) (λ x0. pass k (see-Keeps k _) (λ x1. done-Keeps k _))

  pub dentry_set_parent-Keeps :
      (inode : ℕ) (ident : List ℕ) (parent : ℕ)
      → Keeps k 0 (dentry_set_parent d n inode ident parent)
  unfolding dentry_set_parent
  dentry_set_parent-Keeps inode ident parent = pass k (dentry_at-Keeps k inode) (λ x0.
      pass k (str-Keeps k n ident) (λ x1.
        pass k (fs_domain-Keeps k n _)
          (λ x2. pass k (keep_parent-Keeps parent _) (λ x3. change-Keeps k _))))

  pub dentry_parent-Keeps : (inode : ℕ) → Keeps k 1 (dentry_parent d n inode)
  unfolding dentry_parent
  dentry_parent-Keeps inode =
      pass k (dentry_at-Keeps k inode) (λ x0. pass k (see-Keeps k _) (λ x1. issue_some-Keeps x1))

  pub dentry_to_mount_point-Keeps :
      (inode : ℕ) (ident : List ℕ) (mount_inode_id : ℕ)
      → Keeps k 0 (dentry_to_mount_point d n inode ident mount_inode_id)
  unfolding dentry_to_mount_point
  dentry_to_mount_point-Keeps inode ident mount_inode_id = pass k (dentry_at-Keeps k inode) (λ x0.
      pass k (str-Keeps k n ident) (λ x1. pass k (fs_domain-Keeps k n _) (λ x2. call-Keeps k _)))

  pub dentry_mount_point-Keeps :
      (inode : ℕ) (ident : List ℕ) → Keeps k 0 (dentry_mount_point d n inode ident)
  unfolding dentry_mount_point
  dentry_mount_point-Keeps inode ident =
      pass k (dentry_at-Keeps k inode) (λ x0. pass k (see-Keeps k _) (λ x1. mounted-Keeps ident x1))

  pub dentry_clear_mount_point-Keeps : (inode : ℕ) → Keeps k 0 (dentry_clear_mount_point d n inode)
  unfolding dentry_clear_mount_point
  dentry_clear_mount_point-Keeps inode = pass k (dentry_at-Keeps k inode) (λ x0. change-Keeps k _)

  pub dentry_find-Keeps : (inode : ℕ) (bytes : List ℕ) → Keeps k 1 (dentry_find d n inode bytes)
  unfolding dentry_find
  dentry_find-Keeps inode bytes = pass k (dentry_at-Keeps k inode) (λ x0.
      pass k (str-Keeps k n bytes) (λ x1. pass k (call-Keeps k _) (λ x2. issue_some-Keeps x2)))

  pub dentry_remove-Keeps : (inode : ℕ) (bytes : List ℕ) → Keeps k 0 (dentry_remove d n inode bytes)
  unfolding dentry_remove
  dentry_remove-Keeps inode bytes =
      pass k (dentry_at-Keeps k inode)
        (λ x0. pass k (str-Keeps k n bytes) (λ x1. pass k (call-Keeps k _) (λ x2. done-Keeps k _)))
