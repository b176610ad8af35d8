-- ===== src/Vfs/Domain/State.antt =====
-- The statics of the VFS domain, common/vfs/vfs/src/lib.rs: the files by their ids, the ids of the
-- kernel files once more in the storage that outlives the domain (`VFS_MAP_SHADOW`, `INODE_ID`, and
-- under `kfile_<id>` the data of a kernel file), and the interests of the epoll files.
use domains.Prelude.{
  ℕ, ◌+◌, ◌%◌, ◌^◌, List, Option, none, some, Bool, true, false, ◌&&◌, ltb, leb, if◌then◌else◌,
  Outcome, ok, err, panic, length, take, einval,
}
use domains.Prelude.Map.{lookup, insert, remove}
use domains.Prelude.Act.{Act, expect, result}
use domains.Vfs.Domain.Core.{Words, Kinds}

pub record Vfs (W F M : Type 0) : Type 0 where
  pub vfs_map : List (ℕ × F)
  pub vfs_map_shadow : List (ℕ × Unit {0})
  pub inode_id : ℕ
  pub kfiles : List (ℕ × M)
  -- `EpollFile::interest` of each epoll file, events by descriptors.
  pub interests : List (ℕ × List (ℕ × ℕ))
  pub net_stack_domain : Bool
  pub world : W

module _ {W F M : Type 0} where
  -- A call into the world.
  unfoldable pub call : {A : Type 0} → Act W A → Act (Vfs W F M) A
  call m s = let (o, w) = m s.world in (o, record s { world = w })

  abbrev pub see : {A : Type 0} → (W → A) → Act (Vfs W F M) A
  see f s = (ok (f s.world), s)

  abbrev pub change : (W → W) → Act (Vfs W F M) (Unit {0})
  change f s = (ok tt, record s { world = f s.world })

  -- `get_file(inode).unwrap()`, and with `ok_or(AlienError::EINVAL)?`.
  unfoldable pub get_file : ℕ → Act (Vfs W F M) F
  get_file inode s = expect (lookup inode s.vfs_map) s

  unfoldable pub file_or_einval : ℕ → Act (Vfs W F M) F
  file_or_einval inode s =
      result (elim (lookup inode s.vfs_map) [ some file ↦ ok file | none ↦ err einval ]) s

  -- `INODE_ID.fetch_add(1)`
  abbrev pub fetch_add : Vfs W F M → Vfs W F M
  fetch_add s = record s { inode_id = (s.inode_id + 1) % 2 ^ 64 }

  unfoldable pub insert_special_file : F → Act (Vfs W F M) ℕ
  insert_special_file file s =
      (ok s.inode_id, record (fetch_add s) { vfs_map = insert s.inode_id file s.vfs_map })

  -- `&bytes[..len]`, and `core::str::from_utf8` of it with `unwrap`.
  unfoldable pub slice : List ℕ → ℕ → Act (Vfs W F M) (List ℕ)
  slice bytes len s = result (if leb len (length bytes) then ok (take len bytes) else panic) s

  unfoldable pub str : Words → List ℕ → ℕ → Act (Vfs W F M) (List ℕ)
  str w bytes len s =
      result
        (if leb len (length bytes) && w.is_utf8 (take len bytes)
          then ok (take len bytes)
          else panic)
        s

module _ {W F D M Fl : Type 0} (k : Kinds W F D M Fl) where
  -- `KernelFile::new`: the data that the storage has under the id, or new data.
  unfoldable pub stored : D → ℕ → Outcome M × W → Act (Vfs W F M) F
  stored dentry id (ok meta, w) s =
      (ok (k.kernel_file meta dentry id), record s { kfiles = insert id meta s.kfiles; world = w })
  stored dentry id (err e, w) s = (err e, record s { world = w })
  stored dentry id (panic, w) s = (panic, record s { world = w })

  unfoldable pub get_or_insert : D → Fl → ℕ → Option M → Act (Vfs W F M) F
  unfolding stored
  get_or_insert dentry open_flag id (some meta) s = (ok (k.kernel_file meta dentry id), s)
  get_or_insert dentry open_flag id none s =
      stored dentry id (k.new_meta dentry open_flag s.world) s

  unfoldable pub new_kernel_file : D → Fl → ℕ → Act (Vfs W F M) F
  unfolding get_or_insert
  new_kernel_file dentry open_flag id s = get_or_insert dentry open_flag id (lookup id s.kfiles) s

  -- The new file enters both maps.
  unfoldable pub entered : ℕ → Outcome F × Vfs W F M → Outcome ℕ × Vfs W F M
  entered id (ok file, s) = (
    ok id,
    record s { vfs_map = insert id file s.vfs_map; vfs_map_shadow = insert id tt s.vfs_map_shadow },
  )
  entered id (err e, s) = (err e, s)
  entered id (panic, s) = (panic, s)

  unfoldable pub insert_dentry : D → Fl → Act (Vfs W F M) ℕ
  unfolding new_kernel_file entered
  insert_dentry dentry open_flags s =
      entered s.inode_id (new_kernel_file dentry open_flags s.inode_id (fetch_add s))

  -- `KernelFile::drop`: the data leaves the storage, and must have been there.
  unfoldable pub forgotten : ℕ → Option M → Act (Vfs W F M) (Unit {0})
  forgotten id (some meta) s = (ok tt, record s { kfiles = remove id s.kfiles })
  forgotten id none s = (panic, s)

  unfoldable pub forget : Option ℕ → Act (Vfs W F M) (Unit {0})
  unfolding forgotten
  forget none s = (ok tt, s)
  forget (some id) s = forgotten id (lookup id s.kfiles) s

  -- The drop of a socket file, and of the entry and the inode of a kernel file.
  unfoldable pub contents_dropped : Bool × W → Act (Vfs W F M) (Unit {0})
  contents_dropped (true, w) s = (ok tt, record s { world = w })
  contents_dropped (false, w) s = (panic, record s { world = w })

  -- The fields of a file go after its own drop, also as a panic of that unwinds.
  unfoldable pub fields_dropped :
      F → Outcome (Unit {0}) × Vfs W F M → Outcome (Unit {0}) × Vfs W F M
  unfolding contents_dropped
  fields_dropped file (ok _, s) = contents_dropped (k.drop_contents file s.world) s
  fields_dropped file (err e, s) = (err e, s)
  fields_dropped file (panic, s) = (panic, record s { world = (k.drop_contents file s.world).1 })

  -- The map gives up the last reference to a file.
  unfoldable pub dropped : Option F → Act (Vfs W F M) (Unit {0})
  unfolding forget fields_dropped
  dropped none s = (ok tt, s)
  dropped (some file) s = fields_dropped file (forget (k.inode_id file) s)

  -- The end of `remove_file`, when the file is gone, which a panic of its drop does not reach.
  unfoldable pub unshadowed : ℕ → Outcome (Unit {0}) × Vfs W F M → Outcome (Unit {0}) × Vfs W F M
  unshadowed inode (ok _, s) = (ok tt, record s { vfs_map_shadow = remove inode s.vfs_map_shadow })
  unshadowed inode (err e, s) = (err e, s)
  unshadowed inode (panic, s) = (panic, s)

  unfoldable pub remove_file : ℕ → Act (Vfs W F M) (Unit {0})
  unfolding dropped unshadowed
  remove_file inode s =
      if ltb inode 4
      then (ok tt, s)
      else unshadowed inode
          (dropped (lookup inode s.vfs_map) (record s { vfs_map = remove inode s.vfs_map }))
