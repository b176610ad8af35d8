-- ===== src/Generic/Mount.antt =====
-- The calls of `GenericFsDomain` on the whole file system.
use domains.Prelude.{ℕ, List, [], ◌∷◌, Option, none, some, Bool, ok, panic, ◌==◌, if◌then◌else◌}
use mathlib.Core.Option
use domains.Prelude.Act.{Act, done, expect, ◌>>=◌, ◌>>◌}
use domains.Generic.Core.{Shim, Dentries, Blocks, Names}
use domains.Generic.State.{Fs, call, see, change, dentry_at, issue, str, fs_domain, fill}

-- `CStr::from_bytes_until_nul`
unfoldable pub until_nul : List ℕ → Option (List ℕ)
until_nul [] = none
until_nul (b ∷ bytes) =
    let later = until_nul bytes in if b == 0 then some [] else Option.map (◌∷◌ b) later

-- `MountInfo`
pub record MountInfo : Type 0 where
  pub mount_inode_id : ℕ
  pub domain_ident : List ℕ

module _ {W D : Type 0} (n : Names) where
  unfoldable pub dev_inode : Option MountInfo → Act (Fs W D) (Option Shim)
  dev_inode none = done none
  dev_inode (some mount_info) = do
    bytes ← expect (until_nul mount_info.domain_ident)
    name ← str n bytes
    fs_domain n name
    done (some (record { fs_domain_ident = name; ino = mount_info.mount_inode_id }))

module _ {W D : Type 0} where
  -- `self.magic.call_once`, and `ROOT_DENTRY.call_once`: a value that is there stays.
  unfoldable pub set_magic : ℕ → Act (Fs W D) (Unit {0})
  set_magic magic s = (ok tt, elim s.magic [ none ↦ record s { magic = some magic } | some _ ↦ s ])

  unfoldable pub set_root : D → Act (Fs W D) (Unit {0})
  set_root root s = (ok tt, elim s.root [ none ↦ record s { root = some root } | some _ ↦ s ])

  unfoldable pub run_func : Option (D → W → W) → D → Act (Fs W D) (Unit {0})
  run_func none root = done tt
  run_func (some func) root = change (func root)

  -- `assert_eq!(inode_id, 0)`, and the answer.
  unfoldable pub assert_first : ℕ → Act (Fs W D) ℕ
  assert_first inode_id s = (if inode_id == 0 then ok inode_id else panic, s)

  unfoldable pub root_inode_id : Act (Fs W D) ℕ
  root_inode_id = done 0

  -- `self.magic.get().unwrap()`
  unfoldable pub fs_magic : Act (Fs W D) ℕ
  fs_magic s = expect s.magic s

module _ {W D I Sb FsStat : Type 0} (d : Dentries W D I) (b : Blocks W D I Sb FsStat)
    (n : Names) where
  unfoldable pub mount : List ℕ → Option MountInfo → Act (Fs W D) ℕ
  unfolding dev_inode set_magic set_root run_func assert_first
  mount mount_point info = do
    path ← str n mount_point
    dev ← dev_inode n info
    root ← call (b.i_mount path dev)
    run_func b.mount_func root
    inode ← call (d.inode root)
    sb ← call (b.get_super_block inode)
    magic ← see (λ w. b.magic w sb)
    set_magic magic
    inode_id ← issue (done root)
    set_root root
    assert_first inode_id

  -- The super block of the root, by the dentry of id 0.
  unfoldable pub root_block : Act (Fs W D) Sb
  root_block = do
    dentry ← dentry_at 0
    inode ← call (d.inode dentry)
    call (b.get_super_block inode)

  unfoldable pub sync_fs : Bool → Act (Fs W D) (Unit {0})
  sync_fs wait = root_block >>= λ sb. call (b.sync_fs sb wait)

  unfoldable pub stat_fs : Act (Fs W D) FsStat
  stat_fs = root_block >>= λ sb. call (b.stat_fs sb)

  unfoldable pub super_type : Act (Fs W D) ℕ
  super_type = root_block >>= λ sb. see (λ w. b.super_type w sb)

  unfoldable pub kill_sb : Act (Fs W D) (Unit {0})
  kill_sb = root_block >>= λ sb. call (b.kill_sb sb)

  unfoldable pub fs_flag : Act (Fs W D) ℕ
  fs_flag = done b.fs_flag

  unfoldable pub fs_name : List ℕ → Act (Fs W D) (List ℕ × ℕ)
  fs_name buf = done (fill buf b.fs_name)
