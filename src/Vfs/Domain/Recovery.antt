-- ===== src/Vfs/Domain/Recovery.antt =====
-- What `init_filesystem_before` and `init_filesystem_after` of common/vfs/vfs/src/tree.rs do to the
-- maps of files, the second after a crash of the domain.
use domains.Prelude.{ℕ, List, [], ◌∷◌, ok}
use domains.Prelude.Map.{lookup, insert}
use domains.Prelude.Act.{Act, done, expect, ◌>>=◌, ◌>>◌}
use domains.Vfs.Domain.Core.{Kinds}
use domains.Vfs.Domain.State.{Vfs, call, new_kernel_file}

module _ {W F D M Fl : Type 0} (k : Kinds W F D M Fl) where
  -- A file for the maps, under its fixed id.
  unfoldable pub place : D → Fl → ℕ → Act (Vfs W F M) (Unit {0})
  place dentry open_flag id = do
    file ← new_kernel_file k dentry open_flag id
    λ s. (
      ok tt,
      record s {
        vfs_map = insert id file s.vfs_map;
        vfs_map_shadow = insert id tt s.vfs_map_shadow;
      },
    )

  -- What a crash leaves: the storage and the world outside.
  abbrev pub crash : Vfs W F M → Vfs W F M
  crash s = record s { vfs_map = []; interests = [] }

  unfoldable pub kfile : ℕ → Act (Vfs W F M) M
  kfile id s = expect (lookup id s.kfiles) s

  unfoldable pub put : ℕ → F → Act (Vfs W F M) (Unit {0})
  put id file s = (ok tt, record s { vfs_map = insert id file s.vfs_map })

  -- The loop over the shadow map.
  unfoldable pub recover_file : ℕ → Act (Vfs W F M) (Unit {0})
  recover_file id = do
    meta ← kfile id
    dentry ← call (k.root_shim_dentry meta)
    put id (k.kernel_file meta dentry id)

  unfoldable pub recover_files : List (ℕ × Unit {0}) → Act (Vfs W F M) (Unit {0})
  recover_files [] = done tt
  recover_files ((id, _) ∷ ids) = recover_file id >> recover_files ids

  unfoldable pub recover : Act (Vfs W F M) (Unit {0})
  recover s = recover_files s.vfs_map_shadow s
