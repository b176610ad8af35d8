-- ===== src/Generic/Core.antt =====
-- What a file-system domain uses of the crate vfscore, of the names of the domains and of UTF-8. The
-- file system itself is a state `W`, and its methods are parameters.
use domains.Prelude.{ℕ, List, Option, Bool}
use domains.Prelude.Act.{Act}

-- `RootShimDentry`: a dentry of another domain, by the domain's name and the id there.
pub record Shim : Type 0 where
  pub fs_domain_ident : List ℕ
  pub ino : ℕ

-- `VfsDirEntry`
pub record DirEntry : Type 0 where
  pub name : List ℕ
  pub ty : ℕ
  pub ino : ℕ

-- The methods of `VfsDentry`, for dentries `D` with inodes `I`.
pub record Dentries (W D I : Type 0) : Type 0 where
  pub name : W → D → List ℕ
  pub path : W → D → List ℕ
  pub parent : W → D → Option D
  pub inode : D → Act W I
  pub find : D → List ℕ → Act W (Option D)
  pub insert : D → List ℕ → I → Act W D
  pub remove : D → List ℕ → Act W (Option D)
  pub set_parent : D → Shim → W → W
  pub to_mount_point : D → Shim → Act W (Unit {0})
  -- The root of what is mounted here, which may be no shim.
  pub mount_point : W → D → Option (Option Shim)
  pub clear_mount_point : D → W → W

-- The methods of `VfsInode`; `Attr` and `Stat` are `InodeAttr` and `VfsFileStat`.
pub record Inodes (W I Attr Stat : Type 0) : Type 0 where
  pub read_at : I → ℕ → List ℕ → Act W (List ℕ × ℕ)
  pub write_at : I → ℕ → List ℕ → Act W ℕ
  pub readdir : I → ℕ → Act W (Option DirEntry)
  pub poll : I → ℕ → Act W ℕ
  pub ioctl : I → ℕ → ℕ → Act W ℕ
  pub flush : I → Act W (Unit {0})
  pub fsync : I → Act W (Unit {0})
  pub rmdir : I → List ℕ → Act W (Unit {0})
  pub node_perm : W → I → ℕ
  pub create : I → List ℕ → ℕ → ℕ → Option ℕ → Act W I
  pub link : I → List ℕ → I → Act W I
  pub unlink : I → List ℕ → Act W (Unit {0})
  pub symlink : I → List ℕ → List ℕ → Act W I
  pub lookup : I → List ℕ → Act W I
  pub readlink : I → List ℕ → Act W (List ℕ × ℕ)
  pub set_attr : I → Attr → Act W (Unit {0})
  pub get_attr : I → Act W Stat
  pub inode_type : W → I → ℕ
  pub truncate : I → ℕ → Act W (Unit {0})
  pub rename_to : I → List ℕ → I → List ℕ → ℕ → Act W (Unit {0})
  pub update_time : I → ℕ → ℕ → Act W (Unit {0})

-- The methods of `VfsSuperBlock` and of `VfsFsType`; `FsStat` is `VfsFsStat`.
pub record Blocks (W D I Sb FsStat : Type 0) : Type 0 where
  pub get_super_block : I → Act W Sb
  pub sync_fs : Sb → Bool → Act W (Unit {0})
  pub stat_fs : Sb → Act W FsStat
  pub super_type : W → Sb → ℕ
  pub magic : W → Sb → ℕ
  pub i_mount : List ℕ → Option Shim → Act W D
  pub kill_sb : Sb → Act W (Unit {0})
  pub fs_flag : ℕ
  pub fs_name : List ℕ
  pub mount_func : Option (D → W → W)

-- `core::str::from_utf8` by its success, and `basic::get_domain` by whether it names a domain that
-- holds a file system.
pub record Names : Type 0 where
  pub is_utf8 : List ℕ → Bool
  pub is_fs_domain : List ℕ → Bool
