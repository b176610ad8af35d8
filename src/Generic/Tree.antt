-- ===== src/Generic/Tree.antt =====
-- The calls of `GenericFsDomain` on dentries: their names, parents and mount points.
use domains.Prelude.{ℕ, List, Option, none, some, ok, ◌==◌, if◌then◌else◌}
use domains.Prelude.Map.{insert, remove}
use domains.Prelude.Act.{Act, done, expect, ◌>>=◌, ◌>>◌}
use domains.Generic.Core.{Shim, Dentries, Names}
use domains.Generic.State.{Fs, call, see, change, dentry_at, issue, str, fs_domain, fill}

module _ {W D : Type 0} where
  unfoldable pub drop_inode : ℕ → Act (Fs W D) (Unit {0})
  drop_inode inode s =
      (ok tt, if inode == 0 then s else record s { dentry_map = remove inode s.dentry_map })

  unfoldable pub keep_parent : ℕ → Shim → Act (Fs W D) (Unit {0})
  keep_parent parent shim s =
      (ok tt, record s { parent_dentry_map = insert parent shim s.parent_dentry_map })

  unfoldable pub issue_some : Option D → Act (Fs W D) (Option ℕ)
  issue_some none = done none
  issue_some (some dentry) = do id ← issue (done dentry); done (some id)

  -- What is mounted is a shim, or the call panics.
  unfoldable pub mounted : List ℕ → Option (Option Shim) → Act (Fs W D) (Option (List ℕ × ℕ))
  mounted domain_ident none = done none
  mounted domain_ident (some shim) = do
    mount_point ← expect shim
    done (some ((fill domain_ident mount_point.fs_domain_ident).0, mount_point.ino))

module _ {W D I : Type 0} (d : Dentries W D I) (n : Names) where
  unfoldable pub dentry_name : ℕ → List ℕ → Act (Fs W D) (List ℕ × ℕ)
  dentry_name inode buf = do
    dentry ← dentry_at inode
    name ← see (λ w. d.name w dentry)
    done (fill buf name)

  unfoldable pub dentry_path : ℕ → List ℕ → Act (Fs W D) (List ℕ × ℕ)
  dentry_path inode buf = do
    dentry ← dentry_at inode
    path ← see (λ w. d.path w dentry)
    done (fill buf path)

  unfoldable pub dentry_set_parent : ℕ → List ℕ → ℕ → Act (Fs W D) (Unit {0})
  dentry_set_parent inode domain_ident parent = do
    dentry ← dentry_at inode
    name ← str n domain_ident
    fs_domain n name
    keep_parent parent (record { fs_domain_ident = name; ino = parent })
    change (d.set_parent dentry (record { fs_domain_ident = name; ino = parent }))

  unfoldable pub dentry_parent : ℕ → Act (Fs W D) (Option ℕ)
  unfolding issue_some
  dentry_parent inode = do
    dentry ← dentry_at inode
    parent ← see (λ w. d.parent w dentry)
    issue_some parent

  unfoldable pub dentry_to_mount_point : ℕ → List ℕ → ℕ → Act (Fs W D) (Unit {0})
  dentry_to_mount_point inode domain_ident mount_inode_id = do
    dentry ← dentry_at inode
    name ← str n domain_ident
    fs_domain n name
    call (d.to_mount_point dentry (record { fs_domain_ident = name; ino = mount_inode_id }))

  unfoldable pub dentry_mount_point : ℕ → List ℕ → Act (Fs W D) (Option (List ℕ × ℕ))
  unfolding mounted
  dentry_mount_point inode domain_ident = do
    dentry ← dentry_at inode
    mount_point ← see (λ w. d.mount_point w dentry)
    mounted domain_ident mount_point

  unfoldable pub dentry_clear_mount_point : ℕ → Act (Fs W D) (Unit {0})
  dentry_clear_mount_point inode = do dentry ← dentry_at inode; change (d.clear_mount_point dentry)

  unfoldable pub dentry_find : ℕ → List ℕ → Act (Fs W D) (Option ℕ)
  unfolding issue_some
  dentry_find inode bytes = do
    dentry ← dentry_at inode
    name ← str n bytes
    sub_dentry ← call (d.find dentry name)
    issue_some sub_dentry

  unfoldable pub dentry_remove : ℕ → List ℕ → Act (Fs W D) (Unit {0})
  dentry_remove inode bytes = do
    dentry ← dentry_at inode
    name ← str n bytes
    sub_dentry ← call (d.remove dentry name)
    done tt
