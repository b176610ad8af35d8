-- ===== src/Generic/InodeLaws.antt =====
-- The calls on inodes keep the ids.
use domains.Prelude.{ℕ, List, Option, none, some}
use domains.Generic.Core.{Dentries, Inodes, Names}
use domains.Generic.Keeps.{
  Keeps, pass, call-Keeps, done-Keeps, see-Keeps, dentry_at-Keeps, str-Keeps, issue-Keeps,
}
use domains.Generic.Inodes.{DirEntryWrapper}
use domains.Generic.Inodes as On

module _ {W D I Attr Stat : Type 0} (d : Dentries W D I) (i : Inodes W I Attr Stat) (n : Names)
    (k : ℕ) where
  pub inode_at-Keeps : (inode : ℕ) → Keeps k 0 (On.inode_at d i n inode)
  unfolding On.inode_at
  inode_at-Keeps inode = pass k (dentry_at-Keeps k inode) (λ x. call-Keeps k _)

  pub found_or_inserted-Keeps :
      (parent : D) (name : List ℕ) (o : Option D)
      → Keeps k 0 (On.found_or_inserted d i n parent name o)
  unfolding On.found_or_inserted
  found_or_inserted-Keeps parent name (some x) = done-Keeps k _
  found_or_inserted-Keeps parent name none =
      pass k (call-Keeps k _) (λ x. pass k (call-Keeps k _) (λ y. call-Keeps k _))

  pub read_at-Keeps :
      (inode offset : ℕ) (buf : List ℕ) → Keeps k 0 (On.read_at d i n inode offset buf)
  unfolding On.read_at
  read_at-Keeps inode offset buf = pass k (inode_at-Keeps inode) (λ x0. call-Keeps k _)

  pub write_at-Keeps :
      (inode offset : ℕ) (buf : List ℕ) → Keeps k 0 (On.write_at d i n inode offset buf)
  unfolding On.write_at
  write_at-Keeps inode offset buf = pass k (inode_at-Keeps inode) (λ x0. call-Keeps k _)

  pub poll-Keeps : (inode mask : ℕ) → Keeps k 0 (On.poll d i n inode mask)
  unfolding On.poll
  poll-Keeps inode mask = pass k (inode_at-Keeps inode) (λ x0. call-Keeps k _)

  pub ioctl-Keeps : (inode cmd arg : ℕ) → Keeps k 0 (On.ioctl d i n inode cmd arg)
  unfolding On.ioctl
  ioctl-Keeps inode cmd arg = pass k (inode_at-Keeps inode) (λ x0. call-Keeps k _)

  pub flush-Keeps : (inode : ℕ) → Keeps k 0 (On.flush d i n inode)
  unfolding On.flush
  flush-Keeps inode = pass k (inode_at-Keeps inode) (λ x0. call-Keeps k _)

  pub fsync-Keeps : (inode : ℕ) → Keeps k 0 (On.fsync d i n inode)
  unfolding On.fsync
  fsync-Keeps inode = pass k (inode_at-Keeps inode) (λ x0. call-Keeps k _)

  pub readlink-Keeps : (inode : ℕ) (buf : List ℕ) → Keeps k 0 (On.readlink d i n inode buf)
  unfolding On.readlink
  readlink-Keeps inode buf = pass k (inode_at-Keeps inode) (λ x0. call-Keeps k _)

  pub set_attr-Keeps : (inode : ℕ) (attr : Attr) → Keeps k 0 (On.set_attr d i n inode attr)
  unfolding On.set_attr
  set_attr-Keeps inode attr = pass k (inode_at-Keeps inode) (λ x0. call-Keeps k _)

  pub get_attr-Keeps : (inode : ℕ) → Keeps k 0 (On.get_attr d i n inode)
  unfolding On.get_attr
  get_attr-Keeps inode = pass k (inode_at-Keeps inode) (λ x0. call-Keeps k _)

  pub truncate-Keeps : (inode len : ℕ) → Keeps k 0 (On.truncate d i n inode len)
  unfolding On.truncate
  truncate-Keeps inode len = pass k (inode_at-Keeps inode) (λ x0. call-Keeps k _)

  pub update_time-Keeps : (inode time now : ℕ) → Keeps k 0 (On.update_time d i n inode time now)
  unfolding On.update_time
  update_time-Keeps inode time now = pass k (inode_at-Keeps inode) (λ x0. call-Keeps k _)

  pub node_permission-Keeps : (inode : ℕ) → Keeps k 0 (On.node_permission d i n inode)
  unfolding On.node_permission
  node_permission-Keeps inode = pass k (inode_at-Keeps inode) (λ x0. see-Keeps k _)

  pub inode_type-Keeps : (inode : ℕ) → Keeps k 0 (On.inode_type d i n inode)
  unfolding On.inode_type
  inode_type-Keeps inode = pass k (inode_at-Keeps inode) (λ x0. see-Keeps k _)

  pub readdir-Keeps :
      (inode start_index : ℕ) (entry : DirEntryWrapper)
      → Keeps k 0 (On.readdir d i n inode start_index entry)
  unfolding On.readdir
  readdir-Keeps inode start_index entry =
      pass k (inode_at-Keeps inode) (λ x0. pass k (call-Keeps k _) (λ x1. done-Keeps k _))

  pub rmdir-Keeps : (parent : ℕ) (bytes : List ℕ) → Keeps k 0 (On.rmdir d i n parent bytes)
  unfolding On.rmdir
  rmdir-Keeps parent bytes = pass k (dentry_at-Keeps k parent) (λ x0.
      pass k (str-Keeps k n bytes) (λ x1.
        pass k (call-Keeps k _)
          (λ x2. pass k (call-Keeps k _) (λ x3. pass k (call-Keeps k _) (λ x4. done-Keeps k _)))))

  pub unlink-Keeps : (parent : ℕ) (bytes : List ℕ) → Keeps k 0 (On.unlink d i n parent bytes)
  unfolding On.unlink
  unlink-Keeps parent bytes = pass k (dentry_at-Keeps k parent) (λ x0.
      pass k (str-Keeps k n bytes) (λ x1.
        pass k (call-Keeps k _)
          (λ x2. pass k (call-Keeps k _) (λ x3. pass k (call-Keeps k _) (λ x4. done-Keeps k _)))))

  pub create-Keeps :
      (parent : ℕ) (bytes : List ℕ) (ty perm : ℕ) (rdev : Option ℕ)
      → Keeps k 1 (On.create d i n parent bytes ty perm rdev)
  unfolding On.create
  create-Keeps parent bytes ty perm rdev = pass k (dentry_at-Keeps k parent) (λ x0.
      pass k (call-Keeps k _) (λ x1.
        pass k (str-Keeps k n bytes) (λ x2. pass k (call-Keeps k _) (λ x3. issue-Keeps k _))))

  pub link-Keeps :
      (parent : ℕ) (bytes : List ℕ) (src : ℕ) → Keeps k 1 (On.link d i n parent bytes src)
  unfolding On.link
  link-Keeps parent bytes src = pass k (dentry_at-Keeps k parent) (λ x0.
      pass k (str-Keeps k n bytes) (λ x1. pass k (dentry_at-Keeps k src) (λ x2.
        pass k (call-Keeps k _)
          (λ x3. pass k (call-Keeps k _) (λ x4. pass k (call-Keeps k _) (λ x5. issue-Keeps k _))))))

  pub symlink-Keeps :
      (parent : ℕ) (bytes target : List ℕ) → Keeps k 1 (On.symlink d i n parent bytes target)
  unfolding On.symlink
  symlink-Keeps parent bytes target = pass k (dentry_at-Keeps k parent) (λ x0.
      pass k (str-Keeps k n bytes) (λ x1.
        pass k (str-Keeps k n target)
          (λ x2. pass k (call-Keeps k _) (λ x3. pass k (call-Keeps k _) (λ x4. issue-Keeps k _)))))

  pub lookup-Keeps : (parent : ℕ) (bytes : List ℕ) → Keeps k 1 (On.lookup d i n parent bytes)
  unfolding On.lookup
  lookup-Keeps parent bytes = pass k (dentry_at-Keeps k parent) (λ x0.
      pass k (str-Keeps k n bytes) (λ x1.
        pass k (call-Keeps k _)
          (λ x2. pass k (found_or_inserted-Keeps x0 x1 x2) (λ x3. issue-Keeps k _))))

  pub rename-Keeps :
      (old_parent : ℕ) (old_bytes : List ℕ) (new_parent : ℕ) (new_bytes : List ℕ) (flags : ℕ)
      → Keeps k 0 (On.rename d i n old_parent old_bytes new_parent new_bytes flags)
  unfolding On.rename
  rename-Keeps old_parent old_bytes new_parent new_bytes flags =
      pass k (dentry_at-Keeps k old_parent) (λ x0. pass k (str-Keeps k n old_bytes) (λ x1.
        pass k (dentry_at-Keeps k new_parent) (λ x2.
          pass k (str-Keeps k n new_bytes) (λ x3.
            pass k (call-Keeps k _) (λ x4. pass k (call-Keeps k _) (λ x5. call-Keeps k _))))))
