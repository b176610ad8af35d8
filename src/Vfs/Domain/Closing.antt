-- ===== src/Vfs/Domain/Closing.antt =====
-- What `remove_file` of the VFS domain does to maps that agree.
use domains.Prelude.{
  ℕ, List, Option, Bool, true, false, ◌≡◌, refl, ◌∙◌, ◌≤◌, ◌&&◌, none, some, Outcome, ok, panic,
  arith, ◌==◌, ltb, Bool-cases, inl, inr, if◌then◌else◌,
}
use domains.Prelude.Map.{lookup, remove, lookup-remove}
use domains.Prelude.Act.{state_of}
use domains.Vfs.Domain.Core.{Kinds}
use domains.Vfs.Domain.State.{
  Vfs, contents_dropped, dropped, fields_dropped, forget, forgotten, unshadowed, remove_file,
}
use domains.Vfs.Domain.Quiet.{Maps, maps}
use domains.Vfs.Domain.Sound.{IsSound, SlotAt, kernel_slot, special_slot, empty_slot, lost_slot}

-- From `s` to `s'` what stands under `i` is gone, in the shadow only if `ended`, and nothing else
-- changes.
pub record IsWithout {F M : Type 0} (ended : Bool) (i : ℕ) (s s' : Maps F M) : Type 0 where
  pub file : (j : ℕ) → lookup j s'.vfs_map ≡ (if i == j then none else lookup j s.vfs_map)
  pub shadow :
      (j : ℕ)
      → lookup j s'.vfs_map_shadow ≡ (if ended && (i == j) then none else lookup j s.vfs_map_shadow)
  pub kfile : (j : ℕ) → lookup j s'.kfiles ≡ (if i == j then none else lookup j s.kfiles)
  pub next : s'.inode_id ≡ s.inode_id

module _ {W F D M Fl : Type 0} (k : Kinds W F D M Fl) where
  -- The file systems and the network stack never refuse the drop of a file.
  abbrev pub DropsAnswer : Type 0
  DropsAnswer = (file : F) (w : W) → (k.drop_contents file w).0 ≡ true

  -- Whether the drop of what stands in the map under an id runs to its end.
  abbrev pub drop_ends : Option F → W → Bool
  drop_ends none w = true
  drop_ends (some file) w = (k.drop_contents file w).0

  pub drop_ends-true : (file : Option F) (w : W) → DropsAnswer → drop_ends file w ≡ true
  drop_ends-true none w h = refl
  drop_ends-true (some file) w h = h file w

  -- What stands under an id after its removal.
  emptied :
      (strict ended : Bool) (j : ℕ) (s s' : Maps F M)
      → (strict ≡ true → ended ≡ true)
      → SlotAt k strict s j
      → lookup j s'.vfs_map ≡ none
      → lookup j s'.vfs_map_shadow ≡ (if ended then none else lookup j s.vfs_map_shadow)
      → lookup j s'.kfiles ≡ none
      → SlotAt k strict s' j
  emptied strict true j s s' h slot a b c = empty_slot a b c
  emptied true false j s s' h slot a b c = let e = h refl in absurd (ground arith)
  emptied false false j s s' h slot a b c = elim slot [
    | kernel_slot f n p q r t ↦ lost_slot refl a (b ∙ r) c
    | special_slot f p q r t ↦ empty_slot a (b ∙ r) c
    | empty_slot p r t ↦ empty_slot a (b ∙ r) c
    | lost_slot z p r t ↦ lost_slot refl a (b ∙ r) c
  ]

  pub IsWithout-IsSound :
      (strict ended : Bool) (i : ℕ) (s s' : Maps F M)
      → (strict ≡ true → ended ≡ true)
      → IsSound k strict s
      → IsWithout ended i s s'
      → IsSound k strict s'
  IsWithout-IsSound strict ended i s s' end h w = record {
    slot = λ j.
        let a = w.file j in
        let b = w.shadow j in
        let c = w.kfile j in
        elim (Bool-cases (i == j)) [
          | inl gone ↦
              emptied strict ended j s s' end (h.slot j) (ground arith) (ground arith)
                (ground arith)
          | inr other ↦
              let lo : lookup j s'.vfs_map ≡ lookup j s.vfs_map = ground arith in
              let so : lookup j s'.vfs_map_shadow ≡ lookup j s.vfs_map_shadow = ground arith in
              let ko : lookup j s'.kfiles ≡ lookup j s.kfiles = ground arith in
              elim (h.slot j) [
                | kernel_slot f n p q r t ↦ kernel_slot f n (lo ∙ p) q (so ∙ r) (ko ∙ t)
                | special_slot f p q r t ↦ special_slot f (lo ∙ p) q (so ∙ r) (ko ∙ t)
                | empty_slot p r t ↦ empty_slot (lo ∙ p) (so ∙ r) (ko ∙ t)
                | lost_slot z p r t ↦ lost_slot z (lo ∙ p) (so ∙ r) (ko ∙ t)
              ]
        ];
    unused = λ j le.
        let e = w.next in
        let (free, out) = h.unused j (omega arith) in
        let a = w.file j in let b = w.shadow j in (ground arith, ground arith);
  }

  -- The removal of nothing.
  absent :
      {V : Type 0} (i j : ℕ) (m : List (ℕ × V))
      → lookup i m ≡ none
      → lookup j m ≡ (if i == j then none else lookup j m)
  absent i j m h = elim (Bool-cases (i == j)) [
    | inl same ↦ let e : i ≡ j = ground arith in ground arith
    | inr other ↦ ground arith
  ]

  abbrev Removes : ℕ → Vfs W F M → Bool → Outcome (Unit {0}) × Vfs W F M → Type 0
  Removes i s ended p =
      (p.0 ≡ (if ended then ok tt else panic)) × IsWithout ended i (maps s) (maps p.1)

  -- The end of the removal, by what the drop of the contents does.
  contents_dropped_lem :
      (i : ℕ) (s s' : Vfs W F M) (p : Bool × W)
      → IsWithout false i (maps s) (maps s')
      → Removes i s p.0 (unshadowed k i (contents_dropped k p s'))
  unfolding contents_dropped unshadowed
  contents_dropped_lem i s s' (true, w) h = (
    refl,
    record {
      file = h.file;
      shadow =
          λ j. let b = h.shadow j in let l = lookup-remove j i s'.vfs_map_shadow in ground arith;
      kfile = h.kfile;
      next = h.next;
    },
  )
  contents_dropped_lem i s s' (false, w) h =
      (refl, record { file = h.file; shadow = h.shadow; kfile = h.kfile; next = h.next })

  -- The file was in no storage.
  removed-IsWithout :
      (i : ℕ) (s : Vfs W F M)
      → lookup i s.kfiles ≡ none
      → IsWithout false i (maps s) (maps (record s { vfs_map = remove i s.vfs_map }))
  removed-IsWithout i s d = record {
    file = λ j. lookup-remove j i s.vfs_map;
    shadow = λ j. refl;
    kfile = λ j. absent i j s.kfiles d;
    next = refl;
  }

  forgotten-IsWithout :
      (i : ℕ) (s : Vfs W F M)
      → IsWithout false i
          (maps s)
          (maps (record s { vfs_map = remove i s.vfs_map; kfiles = remove i s.kfiles }))
  forgotten-IsWithout i s = record {
    file = λ j. lookup-remove j i s.vfs_map;
    shadow = λ j. refl;
    kfile = λ j. lookup-remove j i s.kfiles;
    next = refl;
  }

  -- Nothing stood there.
  absent-IsWithout :
      (i : ℕ) (s : Vfs W F M)
      → lookup i s.kfiles ≡ none
      → IsWithout true i (maps s) (
          maps
            (record s { vfs_map = remove i s.vfs_map; vfs_map_shadow = remove i s.vfs_map_shadow }))
  absent-IsWithout i s d = record {
    file = λ j. lookup-remove j i s.vfs_map;
    shadow = λ j. lookup-remove j i s.vfs_map_shadow;
    kfile = λ j. absent i j s.kfiles d;
    next = refl;
  }

  -- Where the maps of the VFS domain agree, the removal of an id above the first four takes the
  -- file from the map and its data from the storage, and leaves the rest; if the drop of the
  -- contents of the file runs to its end, or no file was there, it answers and the id goes from
  -- the shadow too, and if that drop panics, the removal panics and the shadow stays.
  pub remove_file-IsWithout :
      (strict : Bool) (i : ℕ) (s : Vfs W F M)
      → IsSound k strict (maps s)
      → 4 ≤ i
      → ((remove_file k i s).0 ≡ (if drop_ends (lookup i s.vfs_map) s.world then ok tt else panic))
        × IsWithout
            (drop_ends (lookup i s.vfs_map) s.world)
            i
            (maps s)
            (maps (state_of (remove_file k i) s))
  unfolding remove_file dropped forget forgotten fields_dropped unshadowed
  remove_file-IsWithout strict i s h le =
      let out : ltb i 4 ≡ false = ground arith in
      let removed = record s { vfs_map = remove i s.vfs_map } in
      elim (h.slot i) [
        | kernel_slot f m a b c d ↦
            rw (out, a, b, d, state_of)
              (contents_dropped_lem i s (record removed { kfiles = remove i s.kfiles })
                (k.drop_contents f s.world) (forgotten-IsWithout i s))
        | special_slot f a b c d ↦
            rw (out, a, b, state_of)
              (contents_dropped_lem i s removed (k.drop_contents f s.world)
                (removed-IsWithout i s d))
        | empty_slot a c d ↦ rw (out, a, state_of) (refl, absent-IsWithout i s d)
        | lost_slot z a c d ↦ rw (out, a, state_of) (refl, absent-IsWithout i s d)
      ]
