-- ===== src/Generic/State.antt =====
-- The state of `GenericFsDomain`, common_lib/generic/src/lib.rs: the dentries by their ids, the next
-- id, and the maps beside them. `world` is the file system's own state.
use domains.Prelude.{
  ℕ, ◌+◌, ◌%◌, ◌^◌, List, [], Option, none, Outcome, ok, err, panic, length, min, take, drop, ◌++◌,
  if◌then◌else◌,
}
use domains.Prelude.Map.{lookup, insert}
use domains.Prelude.Act.{Act, expect}
use domains.Generic.Core.{Shim, Names}

pub record Fs (W D : Type 0) : Type 0 where
  pub dentry_map : List (ℕ × D)
  pub inode_index : ℕ
  pub parent_dentry_map : List (ℕ × Shim)
  pub root : Option D
  pub magic : Option ℕ
  pub world : W

-- `GenericFsDomain::new`, over the state of a file system.
abbrev pub new : {W D : Type 0} → W → Fs W D
new world = record {
  dentry_map = [];
  inode_index = 0;
  parent_dentry_map = [];
  root = none;
  magic = none;
  world = world;
}

module _ {W D : Type 0} where
  -- A call of the file system.
  unfoldable pub call : {A : Type 0} → Act W A → Act (Fs W D) A
  call m s = let (o, w) = m s.world in (o, record s { world = w })

  abbrev pub see : {A : Type 0} → (W → A) → Act (Fs W D) A
  see f s = (ok (f s.world), s)

  abbrev pub change : (W → W) → Act (Fs W D) (Unit {0})
  change f s = (ok tt, record s { world = f s.world })

  -- `dentry_map.lock().index(&inode).clone()` panics on an id that is not there.
  unfoldable pub dentry_at : ℕ → Act (Fs W D) D
  dentry_at inode s = expect (lookup inode s.dentry_map) s

  -- `inode_index.fetch_add(1)`
  abbrev pub fetch_add : Fs W D → W → Fs W D
  fetch_add s w = record s { inode_index = (s.inode_index + 1) % 2 ^ 64; world = w }

  -- The id that was next, with what came of the dentry for it.
  unfoldable pub issued : Fs W D → Outcome D × W → Outcome ℕ × Fs W D
  issued s (ok dentry, w) = (
    ok s.inode_index,
    record (fetch_add s w) { dentry_map = insert s.inode_index dentry s.dentry_map },
  )
  issued s (err e, w) = (err e, fetch_add s w)
  issued s (panic, w) = (panic, fetch_add s w)

  -- An id is taken, the dentry for it is made, and the map has it under the id.
  unfoldable pub issue : Act W D → Act (Fs W D) ℕ
  unfolding issued
  issue make s = issued s (make s.world)

  -- `core::str::from_utf8(name).unwrap()`
  unfoldable pub str : Names → List ℕ → Act (Fs W D) (List ℕ)
  str n name s = (if n.is_utf8 name then ok name else panic, s)

  -- `basic::get_domain`, with the panics of an unknown name and of a domain of another kind.
  unfoldable pub fs_domain : Names → List ℕ → Act (Fs W D) (Unit {0})
  fs_domain n ident s = (if n.is_fs_domain ident then ok tt else panic, s)

-- `copy_from_slice` of as much of `bytes` as fits into the front of `buf`.
unfoldable pub fill : List ℕ → List ℕ → List ℕ × ℕ
fill buf bytes =
    let copy_len = min (length bytes) (length buf) in
    (take copy_len bytes ++ drop copy_len buf, copy_len)
