-- ===== src/Vfs/Domain/Recovered.antt =====
-- The open files after a crash of the VFS domain.
use domains.Prelude.{
  ℕ, ◌≡◌, refl, sym, ap, ◌∙◌, List, [], ◌∷◌, none, some, Outcome, ok, true, arith, ◌==◌, Bool-cases,
  Option-cases, inl, inr, All,
}
use mathlib.Core.Path.{subst, subst⁻¹}
use domains.Prelude.Map.{lookup, insert, lookup-insert}
use domains.Prelude.Act.{state_of, bind-ok}
use domains.Vfs.Domain.Core.{Kinds}
use domains.Vfs.Domain.State.{Vfs, call}
use domains.Vfs.Domain.Sound.{kernel_slot, special_slot, empty_slot, lost_slot}
use domains.Vfs.Domain.Keeps.{Agree}
use domains.Vfs.Domain.Recovery.{crash, kfile, put, recover_file, recover_files, recover}

module _ {W F D M Fl : Type 0} (k : Kinds W F D M Fl) where
  -- Under `j` stands a kernel file with the data that the storage has there.
  abbrev pub IsBack : ℕ → Vfs W F M → Type 0
  IsBack j s =
      (m : M) × (d : D) × (lookup j s.kfiles ≡ some m)
      × (lookup j s.vfs_map ≡ some (k.kernel_file m d j))

  -- The file systems answer for the directory entries of the data they gave out.
  abbrev pub FindsAgain : Type 0
  FindsAgain = (m : M) (w : W) → (d : D) × (w' : W) × (k.root_shim_dentry m w ≡ (ok d, w'))

  pub record Restores (ids : List (ℕ × Unit {0})) (s : Vfs W F M)
      (p : Outcome (Unit {0}) × Vfs W F M) : Type 0 where
    pub answers : p.0 ≡ ok tt
    pub kfiles : p.1.kfiles ≡ s.kfiles
    pub shadow : p.1.vfs_map_shadow ≡ s.vfs_map_shadow
    pub next : p.1.inode_id ≡ s.inode_id
    pub back : (j : ℕ) (u : Unit {0}) → lookup j ids ≡ some u → IsBack j p.1
    pub others : (j : ℕ) → lookup j ids ≡ none → lookup j p.1.vfs_map ≡ lookup j s.vfs_map

  -- One file comes back.
  abbrev pub with_file : ℕ → F → W → Vfs W F M → Vfs W F M
  with_file id file w s = record s { vfs_map = insert id file s.vfs_map; world = w }

  pub recovered_one :
      (id : ℕ) (ids : List (ℕ × Unit {0})) (s : Vfs W F M) (m : M) (d : D) (w : W)
      → lookup id s.kfiles ≡ some m
      → k.root_shim_dentry m s.world ≡ (ok d, w)
      → recover_files k ((id, tt) ∷ ids) s
        ≡ recover_files k ids (with_file id (k.kernel_file m d id) w s)
  unfolding recover_files recover_file kfile put call
  recovered_one id ids s m d w there found =
      let s1 : Vfs W F M = record s { world = w } in
      let one : kfile k id s ≡ (ok m, s) = rw (there) refl in
      let two : call {F = F} {M = M} (k.root_shim_dentry m) s ≡ (ok d, s1) = rw (found) refl in
      let found_file : recover_file k id s ≡ (ok tt, with_file id (k.kernel_file m d id) w s) =
        bind-ok (kfile k id) _ s s m one ∙ bind-ok (call (k.root_shim_dentry m)) _ s s1 d two in
      bind-ok (recover_file k id) _ s (with_file id (k.kernel_file m d id) w s) tt found_file

  one_more :
      (id : ℕ) (ids : List (ℕ × Unit {0})) (s : Vfs W F M) (m : M) (d : D) (w : W)
      (p : Outcome (Unit {0}) × Vfs W F M)
      → lookup id s.kfiles ≡ some m
      → Restores ids (with_file id (k.kernel_file m d id) w s) p
      → Restores ((id, tt) ∷ ids) s p
  unfolding lookup
  one_more id ids s m d w p there r = record {
    answers = r.answers;
    kfiles = r.kfiles;
    shadow = r.shadow;
    next = r.next;
    back = λ j u h. elim (Option-cases (lookup j ids)) [
      | inr (v, later) ↦ r.back j v later
      | inl last ↦
          let here : (id == j) ≡ true = ground arith in
          let e : id ≡ j = ground arith in
          let o = r.others j last in
          let l = lookup-insert j id (k.kernel_file m d id) s.vfs_map in
          (
            m,
            d,
            ap (lookup j) r.kfiles ∙ (subst (λ (i : ℕ). lookup i s.kfiles ≡ some m) e there),
            subst (λ (i : ℕ). lookup j p.1.vfs_map ≡ some (k.kernel_file m d i)) e
                (o ∙ (l ∙ rw (here) refl)),
          )
    ];
    others = λ j h.
        let o = r.others j (ground arith) in
        let l = lookup-insert j id (k.kernel_file m d id) s.vfs_map in ground arith;
  }

  abbrev Stored : Vfs W F M → ℕ × Unit {0} → Type 0
  Stored s entry = (m : M) × (lookup entry.0 s.kfiles ≡ some m)

  nothing_restored : (s : Vfs W F M) → Restores [] s (recover_files k [] s)
  unfolding recover_files lookup
  nothing_restored s = record {
    answers = refl;
    kfiles = refl;
    shadow = refl;
    next = refl;
    back = λ j u h. absurd (ground arith);
    others = λ j h. refl;
  }

  restored :
      (ids : List (ℕ × Unit {0})) (s : Vfs W F M)
      → FindsAgain
      → All (Stored s) ids
      → Restores ids s (recover_files k ids s)
  restored [] s finds h = nothing_restored s
  restored ((id, tt) ∷ ids) s finds ((m, there), more) =
      let (d, w, found) = finds m s.world in
      subst⁻¹ (Restores ((id, tt) ∷ ids) s) (recovered_one id ids s m d w there found) (
        one_more id ids s m d w _ there
          (restored ids (with_file id (k.kernel_file m d id) w s) finds more))

  -- Every entry of a list is found in it.
  found_in :
      {V : Type 0} (P : ℕ → Type 0) (m : List (ℕ × V))
      → ((j : ℕ) (x : V) → lookup j m ≡ some x → P j)
      → All (λ (entry : ℕ × V). P entry.0) m
  unfolding lookup
  found_in P [] h = tt
  found_in P ((i, v) ∷ m) h = (
    h i v (ground arith),
    found_in P m (λ j x e. elim (Bool-cases (i == j)) [
      | inl same ↦ h j v (ground arith)
      | inr other ↦ h j x (ground arith)
    ]),
  )

  -- The recovery after a crash answers, and afterwards the maps agree again: each kernel file that
  -- was open stands under its id with the data that it had, and no other file is open.
  pub recover-lem :
      (s : Vfs W F M)
      → FindsAgain
      → Agree k true s
      → Restores s.vfs_map_shadow (crash k s) (recover k (crash k s))
  unfolding recover
  recover-lem s finds h = restored s.vfs_map_shadow (crash k s) finds (
      found_in (λ j. (m : M) × (lookup j s.kfiles ≡ some m)) s.vfs_map_shadow
        (λ j u e. elim (h.slot j) [
          | kernel_slot f m a b c d ↦ (m, d)
          | special_slot f a b c d ↦ absurd (ground arith)
          | empty_slot a c d ↦ absurd (ground arith)
          | lost_slot z a c d ↦ absurd (ground arith)
        ]))

  -- After a crash of the VFS domain whose maps agreed, with no id left in the shadow by a removal
  -- that panicked, where the file systems answer for the directory entries that they gave out, the
  -- recovery answers, and each id of a kernel file that was open names again a kernel file of that
  -- id with the data that the storage has under it.
  pub recover-kernel :
      (s : Vfs W F M) (j : ℕ) (file : F)
      → FindsAgain
      → Agree k true s
      → lookup j s.vfs_map ≡ some file
      → k.inode_id file ≡ some j
      → ((recover k (crash k s)).0 ≡ ok tt) × IsBack j (state_of (recover k) (crash k s))
  recover-kernel s j file finds h e kernel =
      let r = recover-lem s finds h in
      elim (h.slot j) [
        | kernel_slot f m a b c d ↦ (r.answers, r.back j tt c)
        | special_slot f a b c d ↦
            let same : some f ≡ some file = sym a ∙ e in absurd (ground arith)
        | empty_slot a c d ↦ absurd (ground arith)
        | lost_slot z a c d ↦ absurd (ground arith)
      ]

  -- After a crash of the VFS domain whose maps agreed, with no id left in the shadow by a removal
  -- that panicked, where the file systems answer for the directory entries that they gave out, an
  -- id that named a file other than a kernel file names nothing.
  pub recover-special :
      (s : Vfs W F M) (j : ℕ) (file : F)
      → FindsAgain
      → Agree k true s
      → lookup j s.vfs_map ≡ some file
      → k.inode_id file ≡ none
      → lookup j (state_of (recover k) (crash k s)).vfs_map ≡ none
  unfolding lookup
  recover-special s j file finds h e special =
      let r = recover-lem s finds h in
      elim (h.slot j) [
        | kernel_slot f m a b c d ↦
            let same : some f ≡ some file = sym a ∙ e in absurd (ground arith)
        | special_slot f a b c d ↦ r.others j c
        | empty_slot a c d ↦ r.others j c
        | lost_slot z a c d ↦ absurd (ground arith)
      ]

  -- After a crash of the VFS domain whose maps agreed, with no id left in the shadow by a removal
  -- that panicked, where the file systems answer for the directory entries that they gave out, the
  -- recovery answers and the maps agree again.
  pub recover-Agree :
      (s : Vfs W F M)
      → FindsAgain
      → Agree k true s
      → ((recover k (crash k s)).0 ≡ ok tt) × Agree k true (state_of (recover k) (crash k s))
  unfolding lookup
  recover-Agree s finds h =
      let r = recover-lem s finds h in
      (
        r.answers,
        record {
          slot = λ j.
              let ks = ap (lookup j) r.kfiles in
              let sh = ap (lookup j) r.shadow in
              elim (h.slot j) [
                | kernel_slot f m a b c d ↦
                    let (n, x, p, q) = r.back j tt c in
                    kernel_slot (k.kernel_file n x j) n q (k.inode_id-kernel_file n x j) (sh ∙ c) p
                | special_slot f a b c d ↦ empty_slot (r.others j c) (sh ∙ c) (ks ∙ d)
                | empty_slot a c d ↦ empty_slot (r.others j c) (sh ∙ c) (ks ∙ d)
                | lost_slot z a c d ↦ absurd (ground arith)
              ];
          unused = λ j le.
              let e = r.next in
              let (free, out) = h.unused j (omega arith) in
              (r.others j out, ap (lookup j) r.shadow ∙ out);
        },
      )
