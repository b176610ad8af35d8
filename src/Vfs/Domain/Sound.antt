-- ===== src/Vfs/Domain/Sound.antt =====
-- How the maps of the VFS domain agree: a kernel file stands in the storage under the id that it has,
-- with its data, and nothing else does. Only a removal whose drop panicked leaves an id behind, in the
-- shadow alone; `strict` rules that out.
use domains.Prelude.{
  ℕ, Bool, false, ◌≡◌, ap, ◌∙◌, ◌+◌, ◌≤◌, Option, none, some, arith, ◌==◌, ltb, Bool-cases, inl,
  inr,
}
use domains.Prelude.Map.{lookup, insert, lookup-insert}
use domains.Prelude.Ids as Ids
use domains.Vfs.Domain.Core.{Kinds}
use domains.Vfs.Domain.State.{Vfs}
use domains.Vfs.Domain.Quiet.{Maps, maps}

module _ {W F D M Fl : Type 0} (k : Kinds W F D M Fl) (strict : Bool) where
  -- What the maps have under one id.
  pub data Slot (j : ℕ) (file : Option F) (shadow : Option (Unit {0})) (meta : Option M)
      : Type 0 where
    kernel_slot :
        (f : F) (m : M)
        → file ≡ some f
        → k.inode_id f ≡ some j
        → shadow ≡ some tt
        → meta ≡ some m
        → Slot j file shadow meta
    special_slot :
        (f : F)
        → file ≡ some f
        → k.inode_id f ≡ none
        → shadow ≡ none
        → meta ≡ none
        → Slot j file shadow meta
    empty_slot : file ≡ none → shadow ≡ none → meta ≡ none → Slot j file shadow meta
    lost_slot :
        strict ≡ false → file ≡ none → shadow ≡ some tt → meta ≡ none → Slot j file shadow meta

  abbrev pub SlotAt : Maps F M → ℕ → Type 0
  SlotAt s j = Slot j (lookup j s.vfs_map) (lookup j s.vfs_map_shadow) (lookup j s.kfiles)

  pub record IsSound (s : Maps F M) : Type 0 where
    pub slot : (j : ℕ) → SlotAt s j
    pub unused :
        (j : ℕ) → s.inode_id ≤ j → (lookup j s.vfs_map ≡ none) × (lookup j s.vfs_map_shadow ≡ none)

  -- An id without a file has nothing under it.
  pub empty-kfiles :
      (s : Maps F M) (j : ℕ) → IsSound s → lookup j s.vfs_map ≡ none → lookup j s.kfiles ≡ none
  empty-kfiles s j h e = elim (h.slot j) [
    | kernel_slot f m at _ _ _ ↦ ground arith
    | special_slot f at _ _ _ ↦ ground arith
    | empty_slot _ _ none_there ↦ none_there
    | lost_slot _ _ _ none_there ↦ none_there
  ]

  pub IsSound-IsFresh :
      (s : Vfs W F M)
      → IsSound (maps s)
      → Ids.IsFresh (λ (t : Vfs W F M). t.vfs_map) (λ (t : Vfs W F M). t.inode_id) s
  IsSound-IsFresh s h j x e = elim (Bool-cases (ltb j s.inode_id)) [
    | inl below ↦ ground arith
    | inr above ↦ let (free, _) = h.unused j (ground arith) in absurd (ground arith)
  ]

  -- The three ways in which the maps change: a file that is not a kernel file comes, a kernel file
  -- comes, a file goes.
  pub special_comes :
      (s s' : Maps F M) (file : F)
      → IsSound s
      → k.inode_id file ≡ none
      → s'.vfs_map ≡ insert s.inode_id file s.vfs_map
      → s'.vfs_map_shadow ≡ s.vfs_map_shadow
      → s'.kfiles ≡ s.kfiles
      → s'.inode_id ≡ s.inode_id + 1
      → IsSound s'
  special_comes s s' file h special em es ek ei = record {
    slot = λ j.
        let l = lookup-insert j s.inode_id file s.vfs_map in
        let lm = ap (lookup j) em in
        let ls = ap (lookup j) es in
        let lk = ap (lookup j) ek in
        elim (Bool-cases (s.inode_id == j)) [
          | inl new ↦
              let (free, out) = h.unused j (ground arith) in
              special_slot file (ground arith) special (ls ∙ out) (lk ∙ empty-kfiles s j h free)
          | inr old ↦
              let lo : lookup j s'.vfs_map ≡ lookup j s.vfs_map = ground arith in
              elim (h.slot j) [
                | kernel_slot f m a b c d ↦ kernel_slot f m (lo ∙ a) b (ls ∙ c) (lk ∙ d)
                | special_slot f a b c d ↦ special_slot f (lo ∙ a) b (ls ∙ c) (lk ∙ d)
                | empty_slot a c d ↦ empty_slot (lo ∙ a) (ls ∙ c) (lk ∙ d)
                | lost_slot z a c d ↦ lost_slot z (lo ∙ a) (ls ∙ c) (lk ∙ d)
              ]
        ];
    unused = λ j le.
        let l = lookup-insert j s.inode_id file s.vfs_map in
        let lm = ap (lookup j) em in
        let (free, out) = h.unused j (omega arith) in (ground arith, ap (lookup j) es ∙ out);
  }

  pub kernel_comes :
      (s s' : Maps F M) (file : F) (m : M)
      → IsSound s
      → k.inode_id file ≡ some s.inode_id
      → s'.vfs_map ≡ insert s.inode_id file s.vfs_map
      → s'.vfs_map_shadow ≡ insert s.inode_id tt s.vfs_map_shadow
      → s'.kfiles ≡ insert s.inode_id m s.kfiles
      → s'.inode_id ≡ s.inode_id + 1
      → IsSound s'
  kernel_comes s s' file m h kernel em es ek ei = record {
    slot = λ j.
        let l = lookup-insert j s.inode_id file s.vfs_map in
        let l1 = lookup-insert j s.inode_id tt s.vfs_map_shadow in
        let l2 = lookup-insert j s.inode_id m s.kfiles in
        let lm = ap (lookup j) em in
        let ls = ap (lookup j) es in
        let lk = ap (lookup j) ek in
        elim (Bool-cases (s.inode_id == j)) [
          | inl new ↦
              let e : s.inode_id ≡ j = ground arith in
              kernel_slot file m (ground arith) (kernel ∙ ap some e) (ground arith) (ground arith)
          | inr old ↦
              let lo : lookup j s'.vfs_map ≡ lookup j s.vfs_map = ground arith in
              let so : lookup j s'.vfs_map_shadow ≡ lookup j s.vfs_map_shadow = ground arith in
              let ko : lookup j s'.kfiles ≡ lookup j s.kfiles = ground arith in
              elim (h.slot j) [
                | kernel_slot f n a b c d ↦ kernel_slot f n (lo ∙ a) b (so ∙ c) (ko ∙ d)
                | special_slot f a b c d ↦ special_slot f (lo ∙ a) b (so ∙ c) (ko ∙ d)
                | empty_slot a c d ↦ empty_slot (lo ∙ a) (so ∙ c) (ko ∙ d)
                | lost_slot z a c d ↦ lost_slot z (lo ∙ a) (so ∙ c) (ko ∙ d)
              ]
        ];
    unused = λ j le.
        let l = lookup-insert j s.inode_id file s.vfs_map in
        let l1 = lookup-insert j s.inode_id tt s.vfs_map_shadow in
        let lm = ap (lookup j) em in
        let ls = ap (lookup j) es in
        let (free, out) = h.unused j (omega arith) in (ground arith, ground arith);
  }
