-- ===== src/Generic/MountLaws.antt =====
-- The calls on the whole file system keep the ids.
use domains.Prelude.{ℕ, refl, List, Option, none, some, Bool}
use domains.Generic.Core.{Dentries, Blocks, Names}
use domains.Generic.Keeps.{
  Keeps, Extends, Extends-same, bind-Keeps, pass, call-Keeps, done-Keeps, see-Keeps, change-Keeps,
  expect-Keeps, dentry_at-Keeps, str-Keeps, fs_domain-Keeps, issue-Keeps,
}
use domains.Generic.Mount.{
  MountInfo, dev_inode, set_magic, set_root, run_func, assert_first, mount, root_block, sync_fs,
  stat_fs, super_type, kill_sb, fs_name,
}

module _ {W D I Sb FsStat : Type 0} (d : Dentries W D I) (b : Blocks W D I Sb FsStat) (n : Names)
    (k : ℕ) where
  pub set_magic-Keeps : (x : ℕ) → Keeps {W = W} {D = D} k 0 (set_magic x)
  unfolding set_magic
  set_magic-Keeps x = record {
    extends = λ s f lt.
        elim s.magic
          as (λ o. Extends k 0 s (elim o [ none ↦ record s { magic = some x } | some _ ↦ s ])) [
            | none ↦ Extends-same k 0 s (record s { magic = some x }) f refl refl
            | some y ↦ Extends-same k 0 s s f refl refl
          ];
  }

  pub set_root-Keeps : (x : D) → Keeps {W = W} {D = D} k 0 (set_root x)
  unfolding set_root
  set_root-Keeps x = record {
    extends = λ s f lt.
        elim s.root
          as (λ o. Extends k 0 s (elim o [ none ↦ record s { root = some x } | some _ ↦ s ])) [
            | none ↦ Extends-same k 0 s (record s { root = some x }) f refl refl
            | some y ↦ Extends-same k 0 s s f refl refl
          ];
  }

  pub run_func-Keeps : (o : Option (D → W → W)) (x : D) → Keeps {W = W} {D = D} k 0 (run_func o x)
  unfolding run_func
  run_func-Keeps none x = done-Keeps k _
  run_func-Keeps (some g) x = change-Keeps k _

  pub assert_first-Keeps : (x : ℕ) → Keeps {W = W} {D = D} k 0 (assert_first x)
  unfolding assert_first
  assert_first-Keeps x = record { extends = λ s f lt. Extends-same k 0 s s f refl refl }

  pub dev_inode-Keeps : (o : Option MountInfo) → Keeps {W = W} {D = D} k 0 (dev_inode n o)
  unfolding dev_inode
  dev_inode-Keeps none = done-Keeps k _
  dev_inode-Keeps (some m) =
      pass k (expect-Keeps k _)
        (λ x. pass k (str-Keeps k n _) (λ y. pass k (fs_domain-Keeps k n _) (λ z. done-Keeps k _)))

  pub mount-Keeps : (x : List ℕ) (y : Option MountInfo) → Keeps k 1 (mount d b n x y)
  unfolding mount
  mount-Keeps x y = pass k (str-Keeps k n x) (λ path. pass k (dev_inode-Keeps y) (λ dev.
      pass k (call-Keeps k _) (λ root. pass k (run_func-Keeps b.mount_func root) (λ _.
        pass k (call-Keeps k _) (λ inode. pass k (call-Keeps k _) (λ sb.
          pass k (see-Keeps k _) (λ magic. pass k (set_magic-Keeps magic) (λ _.
            bind-Keeps k 1 0 (issue-Keeps k _)
              (λ id. pass k (set_root-Keeps root) (λ _. assert_first-Keeps id))))))))))

  pub root_block-Keeps : Keeps k 0 (root_block d b n)
  unfolding root_block
  root_block-Keeps =
      pass k (dentry_at-Keeps k 0) (λ x. pass k (call-Keeps k _) (λ y. call-Keeps k _))

  pub sync_fs-Keeps : (x : Bool) → Keeps k 0 (sync_fs d b n x)
  unfolding sync_fs
  sync_fs-Keeps x = pass k root_block-Keeps (λ y. call-Keeps k _)

  pub stat_fs-Keeps : Keeps k 0 (stat_fs d b n)
  unfolding stat_fs
  stat_fs-Keeps = pass k root_block-Keeps (λ y. call-Keeps k _)

  pub super_type-Keeps : Keeps k 0 (super_type d b n)
  unfolding super_type
  super_type-Keeps = pass k root_block-Keeps (λ y. see-Keeps k _)

  pub kill_sb-Keeps : Keeps k 0 (kill_sb d b n)
  unfolding kill_sb
  kill_sb-Keeps = pass k root_block-Keeps (λ y. call-Keeps k _)

  pub fs_name-Keeps : (x : List ℕ) → Keeps k 0 (fs_name d b n x)
  unfolding fs_name
  fs_name-Keeps x = done-Keeps k _
