-- ===== src/Vfs/Domain/Lost.antt =====
-- What a removal whose drop panicked means for the recovery of the VFS domain (`remove_file` of
-- common/vfs/vfs/src/lib.rs, `init_filesystem_after` of tree.rs).
use domains.Prelude.{
  ℕ, Bool, false, ◌≡◌, refl, sym, ap, ◌∙◌, ◌≤◌, List, [], ◌∷◌, none, some, panic, arith, ◌==◌,
  Bool-cases, Option-cases, inl, inr,
}
use domains.Prelude.Map.{lookup}
use domains.Prelude.Act.{state_of, bind-panic}
use domains.Vfs.Domain.Core.{Kinds}
use domains.Vfs.Domain.State.{Vfs, remove_file}
use domains.Vfs.Domain.Sound.{kernel_slot, special_slot, empty_slot, lost_slot}
use domains.Vfs.Domain.Keeps.{Agree}
use domains.Vfs.Domain.Closing.{drop_ends, remove_file-IsWithout}
use domains.Vfs.Domain.Recovery.{crash, kfile, recover_file, recover_files, recover}
use domains.Vfs.Domain.Recovered.{FindsAgain, recovered_one, with_file}

module _ {W F D M Fl : Type 0} (k : Kinds W F D M Fl) where
  -- The data of the first id is missing.
  missing_first :
      (id : ℕ) (ids : List (ℕ × Unit {0})) (s : Vfs W F M)
      → lookup id s.kfiles ≡ none
      → recover_files k ((id, tt) ∷ ids) s ≡ (panic, s)
  unfolding recover_files recover_file kfile
  missing_first id ids s gone =
      let one : kfile k id s ≡ (panic, s) = rw (gone) refl in
      bind-panic (recover_file k id) _ s s (bind-panic (kfile k id) _ s s one)

  missing_panics :
      (ids : List (ℕ × Unit {0})) (j : ℕ) (s : Vfs W F M)
      → FindsAgain k
      → lookup j ids ≡ some tt
      → lookup j s.kfiles ≡ none
      → (recover_files k ids s).0 ≡ panic
  unfolding lookup
  missing_panics [] j s finds there gone = absurd (ground arith)
  missing_panics ((id, tt) ∷ ids) j s finds there gone = elim (Option-cases (lookup id s.kfiles)) [
    | inl none_there ↦ ap (λ p. p.0) (missing_first id ids s none_there)
    | inr (m, has) ↦
        let (d, w, found) = finds m s.world in
        let later : lookup j ids ≡ some tt = elim (Bool-cases (id == j)) [
          | inl same ↦ let e : id ≡ j = ground arith in absurd (ground arith)
          | inr other ↦ ground arith
        ] in
        ap (λ p. p.0) (recovered_one k id ids s m d w has found)
        ∙ missing_panics ids j (with_file k id (k.kernel_file m d id) w s) finds later gone
  ]

  kernel_shadow :
      (strict : Bool) (i : ℕ) (s : Vfs W F M) (file : F)
      → Agree k strict s
      → lookup i s.vfs_map ≡ some file
      → k.inode_id file ≡ some i
      → lookup i s.vfs_map_shadow ≡ some tt
  kernel_shadow strict i s file h e kernel = elim (h.slot i) [
    | kernel_slot f m a b c d ↦ c
    | special_slot f a b c d ↦ let same : some f ≡ some file = sym a ∙ e in absurd (ground arith)
    | empty_slot a c d ↦ absurd (ground arith)
    | lost_slot z a c d ↦ absurd (ground arith)
  ]

  -- Where the maps of the VFS domain agree and the file systems answer for the directory entries
  -- that they gave out, the removal of a kernel file whose contents refuse to be dropped panics,
  -- and so does the recovery after the crash of the domain that follows, on the id that is left in
  -- the shadow without its data.
  pub remove_file-recover :
      (strict : Bool) (i : ℕ) (s : Vfs W F M) (file : F)
      → FindsAgain k
      → Agree k strict s
      → 4 ≤ i
      → lookup i s.vfs_map ≡ some file
      → k.inode_id file ≡ some i
      → (k.drop_contents file s.world).0 ≡ false
      → ((remove_file k i s).0 ≡ panic)
        × ((recover k (crash k (state_of (remove_file k i) s))).0 ≡ panic)
  unfolding recover
  remove_file-recover strict i s file finds h le e kernel refused =
      let (panics, w) = remove_file-IsWithout k strict i s h le in
      let broken : drop_ends k (lookup i s.vfs_map) s.world ≡ false = rw (e) refused in
      let s' = state_of (remove_file k i) s in
      let shadow = w.shadow i in
      let kept : lookup i s'.vfs_map_shadow ≡ some tt =
        (shadow ∙ rw (broken) (kernel_shadow strict i s file h e kernel)) in
      let gone : lookup i s'.kfiles ≡ none = (let g = w.kfile i in ground arith) in
      (panics ∙ rw (broken) refl, missing_panics s'.vfs_map_shadow i (crash k s') finds kept gone)
