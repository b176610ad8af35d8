-- ===== src/Generic/Inodes.antt =====
-- The calls of `GenericFsDomain` on inodes: each reaches an inode through the dentry of its id.
use domains.Prelude.{ℕ, List, Option, none, some, length}
use domains.Prelude.Act.{Act, done, ◌>>=◌, ◌>>◌}
use domains.Generic.Core.{DirEntry, Dentries, Inodes, Names}
use domains.Generic.State.{Fs, call, see, dentry_at, issue, str, fill}

-- `DirEntryWrapper`, by the fields that `readdir` sets.
pub record DirEntryWrapper : Type 0 where
  pub name : List ℕ
  pub name_len : ℕ
  pub ty : ℕ
  pub ino : ℕ

unfoldable pub fill_entry : DirEntryWrapper → Option DirEntry → DirEntryWrapper
fill_entry entry none = record entry { name_len = 0 }
fill_entry entry (some e) = record {
  name = (fill entry.name e.name).0;
  name_len = length e.name;
  ty = e.ty;
  ino = e.ino;
}

module _ {W D I Attr Stat : Type 0} (d : Dentries W D I) (i : Inodes W I Attr Stat)
    (n : Names) where
  -- `dentry_map.lock().index(&inode).inode()?`
  unfoldable pub inode_at : ℕ → Act (Fs W D) I
  inode_at inode = dentry_at inode >>= λ dentry. call (d.inode dentry)

  unfoldable pub read_at : ℕ → ℕ → List ℕ → Act (Fs W D) (List ℕ × ℕ)
  read_at inode offset buf = inode_at inode >>= λ x. call (i.read_at x offset buf)

  unfoldable pub write_at : ℕ → ℕ → List ℕ → Act (Fs W D) ℕ
  write_at inode offset buf = inode_at inode >>= λ x. call (i.write_at x offset buf)

  unfoldable pub readdir : ℕ → ℕ → DirEntryWrapper → Act (Fs W D) DirEntryWrapper
  readdir inode start_index entry = do
    x ← inode_at inode
    vfs_entry ← call (i.readdir x start_index)
    done (fill_entry entry vfs_entry)

  unfoldable pub poll : ℕ → ℕ → Act (Fs W D) ℕ
  poll inode mask = inode_at inode >>= λ x. call (i.poll x mask)

  unfoldable pub ioctl : ℕ → ℕ → ℕ → Act (Fs W D) ℕ
  ioctl inode cmd arg = inode_at inode >>= λ x. call (i.ioctl x cmd arg)

  unfoldable pub flush : ℕ → Act (Fs W D) (Unit {0})
  flush inode = inode_at inode >>= λ x. call (i.flush x)

  unfoldable pub fsync : ℕ → Act (Fs W D) (Unit {0})
  fsync inode = inode_at inode >>= λ x. call (i.fsync x)

  unfoldable pub rmdir : ℕ → List ℕ → Act (Fs W D) (Unit {0})
  rmdir parent bytes = do
    parent_dentry ← dentry_at parent
    name ← str n bytes
    x ← call (d.inode parent_dentry)
    call (i.rmdir x name)
    sub_dentry ← call (d.remove parent_dentry name)
    done tt

  unfoldable pub node_permission : ℕ → Act (Fs W D) ℕ
  node_permission inode = inode_at inode >>= λ x. see (λ w. i.node_perm w x)

  unfoldable pub create : ℕ → List ℕ → ℕ → ℕ → Option ℕ → Act (Fs W D) ℕ
  create parent bytes ty perm rdev = do
    parent_dentry ← dentry_at parent
    x ← call (d.inode parent_dentry)
    name ← str n bytes
    inode ← call (i.create x name ty perm rdev)
    issue (d.insert parent_dentry name inode)

  unfoldable pub link : ℕ → List ℕ → ℕ → Act (Fs W D) ℕ
  link parent bytes src = do
    parent_dentry ← dentry_at parent
    name ← str n bytes
    src_dentry ← dentry_at src
    target ← call (d.inode src_dentry)
    x ← call (d.inode parent_dentry)
    inode ← call (i.link x name target)
    issue (d.insert parent_dentry name inode)

  unfoldable pub unlink : ℕ → List ℕ → Act (Fs W D) (Unit {0})
  unlink parent bytes = do
    parent_dentry ← dentry_at parent
    name ← str n bytes
    x ← call (d.inode parent_dentry)
    call (i.unlink x name)
    sub_dentry ← call (d.remove parent_dentry name)
    done tt

  unfoldable pub symlink : ℕ → List ℕ → List ℕ → Act (Fs W D) ℕ
  symlink parent bytes link_bytes = do
    parent_dentry ← dentry_at parent
    name ← str n bytes
    target ← str n link_bytes
    x ← call (d.inode parent_dentry)
    inode ← call (i.symlink x name target)
    issue (d.insert parent_dentry name inode)

  -- A dentry that the parent has at hand, or a new one for what the inode finds.
  unfoldable pub found_or_inserted : D → List ℕ → Option D → Act (Fs W D) D
  found_or_inserted parent_dentry name (some dentry) = done dentry
  found_or_inserted parent_dentry name none = do
    x ← call (d.inode parent_dentry)
    inode ← call (i.lookup x name)
    call (d.insert parent_dentry name inode)

  unfoldable pub lookup : ℕ → List ℕ → Act (Fs W D) ℕ
  unfolding found_or_inserted
  lookup parent bytes = do
    parent_dentry ← dentry_at parent
    name ← str n bytes
    at_hand ← call (d.find parent_dentry name)
    dentry ← found_or_inserted parent_dentry name at_hand
    issue (done dentry)

  unfoldable pub readlink : ℕ → List ℕ → Act (Fs W D) (List ℕ × ℕ)
  readlink inode buf = inode_at inode >>= λ x. call (i.readlink x buf)

  unfoldable pub set_attr : ℕ → Attr → Act (Fs W D) (Unit {0})
  set_attr inode attr = inode_at inode >>= λ x. call (i.set_attr x attr)

  unfoldable pub get_attr : ℕ → Act (Fs W D) Stat
  get_attr inode = inode_at inode >>= λ x. call (i.get_attr x)

  unfoldable pub inode_type : ℕ → Act (Fs W D) ℕ
  inode_type inode = inode_at inode >>= λ x. see (λ w. i.inode_type w x)

  unfoldable pub truncate : ℕ → ℕ → Act (Fs W D) (Unit {0})
  truncate inode len = inode_at inode >>= λ x. call (i.truncate x len)

  unfoldable pub rename : ℕ → List ℕ → ℕ → List ℕ → ℕ → Act (Fs W D) (Unit {0})
  rename old_parent old_bytes new_parent new_bytes flags = do
    old_parent_dt ← dentry_at old_parent
    old_name ← str n old_bytes
    new_parent_dt ← dentry_at new_parent
    new_name ← str n new_bytes
    old_inode ← call (d.inode old_parent_dt)
    new_inode ← call (d.inode new_parent_dt)
    call (i.rename_to old_inode old_name new_inode new_name flags)

  unfoldable pub update_time : ℕ → ℕ → ℕ → Act (Fs W D) (Unit {0})
  update_time inode time now = inode_at inode >>= λ x. call (i.update_time x time now)
