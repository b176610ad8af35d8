-- ===== src/Vfs/Second.antt =====
-- The second VFS domain, common/vfs2/vfs2/src, which is loaded in the place of the first: a copy but
-- for `vfs_write` of lib.rs and `KernelFile::truncate` of kfile.rs.
use domains.Prelude.{
  ℕ, ◌≡◌, refl, sym, ◌∙◌, List, none, some, not, ◌&&◌, Outcome, ok, err, length, ◌==◌,
  if◌then◌else◌, einval,
}
use domains.Prelude.Map.{lookup}
use domains.Prelude.Act.{Act, done, bind-ok, bind-err, ◌>>=◌}
use domains.Vfs.Flags.{OpenFlags}
use domains.Vfs.File.Calls.{KernelFile}
use domains.Vfs.Domain.Core.{Files}
use domains.Vfs.Domain.State.{Vfs, call, get_file, file_or_einval, slice}
use domains.Vfs.Domain.Calls as First

-- `VfsPath::truncate` of vfscore, from the directory entry of the file, is a parameter.
unfoldable pub truncate :
    (o : OpenFlags) {P : Type 0} → (P → ℕ → Outcome P) → KernelFile o → P → ℕ → Outcome P
truncate o path_truncate f path len =
    if not (o.contains f.open_flag o.wronly) && not (o.contains f.open_flag o.rdwr)
    then err einval
    else path_truncate path len

module _ {W F M D I Fl Seek Attr : Type 0} (f : Files W F D I Fl Seek Attr) where
  unfoldable pub vfs_write : ℕ → List ℕ → ℕ → Act (Vfs W F M) ℕ
  vfs_write inode buf w_len = do
    file ← file_or_einval inode
    bytes ← if not (length buf == w_len) then slice buf w_len else done buf
    call (f.write file bytes)

  -- On an open file the two domains write alike.
  vfs_write-open :
      (inode : ℕ) (buf : List ℕ) (w_len : ℕ) (s : Vfs W F M) (file : F)
      → lookup inode s.vfs_map ≡ some file
      → vfs_write inode buf w_len s ≡ First.vfs_write f inode buf w_len s
  unfolding vfs_write First.vfs_write file_or_einval get_file
  vfs_write-open inode buf w_len s file e =
      let here : file_or_einval {F = F} inode s ≡ (ok file, s) = rw (e) refl in
      let there : get_file {F = F} inode s ≡ (ok file, s) = rw (e) refl in
      bind-ok (file_or_einval inode) _ s s file here
      ∙ sym (bind-ok (get_file inode) _ s s file there)

  -- On an id that is not open the second domain fails, where the first panics.
  vfs_write-unknown :
      (inode : ℕ) (buf : List ℕ) (w_len : ℕ) (s : Vfs W F M)
      → lookup inode s.vfs_map ≡ none
      → vfs_write inode buf w_len s ≡ (err einval, s)
  unfolding vfs_write file_or_einval
  vfs_write-unknown inode buf w_len s e =
      let here : file_or_einval {F = F} inode s ≡ (err einval, s) = rw (e) refl in
      bind-err (file_or_einval inode) _ s s einval here
