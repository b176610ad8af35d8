-- ===== src/Task/Memory/Changes.antt =====
-- What `munmap` and `mprotect` do to the region of each address.
use mathlib.Core.Option
use domains.Prelude.{
  ℕ, zero, suc, ◌+◌, ◌-◌, ◌/◌, ◌≡◌, ◌∙◌, ◌≢◌, ◌⊎◌, inl, inr, refl, none, some, true, false, ◌==◌,
  ok, err, einval, position, arith,
}
use domains.Task.Memory.Regions.{
  Paging, ProtFlags, MMapRegion, MMapInfo, covers, change, get_region, remove_region, set_prot,
  frame_size, wrapping_add,
}
use domains.Task.Memory.Lookup.{
  find_of_position, remove_region_lem, find-change_same, find-change_other, covers-set_prot,
}
use domains.Task.Memory.Calls.{
  AddressSpace, MappingFlags, from_prot, TaskMemory, do_munmap, do_mprotect, protect_frames,
}

module _ (p : Paging) (s : AddressSpace) where
  munmap_known :
      (t : TaskMemory p s) (start len : ℕ) {region : MMapRegion} {space : s.Space} {mmap : MMapInfo}
      → get_region t.mmap start ≡ some region
      → region.start ≡ start
      → region.len ≡ len
      → s.unmap t.space start ≡ some space
      → remove_region t.mmap start ≡ ok mmap
      → do_munmap p s t start len ≡ ok (0, record t { mmap = mmap; space = space })
  unfolding do_munmap
  munmap_known t start len {region} found at long unmaps removed =
      let same : (region.start == start) ≡ true = ground arith in
      let whole : (len == region.len) ≡ true = ground arith in
      rw (found, same, whole, unmaps, removed, do_munmap) refl

  -- An unmapping of just the range of a region, where the address space lets it go, succeeds, and
  -- every address that the region does not cover keeps its region.
  pub do_munmap_lem :
      (t : TaskMemory p s) (start len : ℕ) {region : MMapRegion} {space : s.Space}
      → get_region t.mmap start ≡ some region
      → region.start ≡ start
      → region.len ≡ len
      → s.unmap t.space start ≡ some space
      → (t' : TaskMemory p s) × (do_munmap p s t start len ≡ ok (0, t'))
        × ((x : ℕ) → covers x region ≡ false → get_region t'.mmap x ≡ get_region t.mmap x)
  do_munmap_lem t start len {region} found at long unmaps =
      let (mmap, removed, kept, reads) = remove_region_lem t.mmap start found in
      (_, munmap_known t start len found at long unmaps removed, reads)

  -- An unmapping of an address of no region, or of another range than that of its region, fails
  -- with EINVAL.
  pub do_munmap_refuses :
      (t : TaskMemory p s) (start len : ℕ)
      → (get_region t.mmap start ≡ none)
        ⊎ ((region : MMapRegion) × (get_region t.mmap start ≡ some region)
            × ((region.start ≢ start) ⊎ (region.len ≢ len)))
      → do_munmap p s t start len ≡ err einval
  unfolding do_munmap
  do_munmap_refuses t start len (inl nowhere) = rw (nowhere, do_munmap) refl
  do_munmap_refuses t start len (inr (region, found, inl elsewhere)) =
      let other : (region.start == start) ≡ false = ground arith in
      rw (found, other, do_munmap) refl
  do_munmap_refuses t start len (inr (region, found, inr longer)) =
      let other : (len == region.len) ≡ false = ground arith in
      rw (found, other, do_munmap) (ground arith)

  -- The address space can protect every range.
  abbrev pub Protects : Type 0
  Protects =
      (space : s.Space) (a b : ℕ) (f : MappingFlags)
      → (space' : s.Space) × (s.protect space a b f ≡ some space')

  protect_frames_ok :
      (space : s.Space) (addr n : ℕ) (f : MappingFlags)
      → Protects
      → (space' : s.Space) × (protect_frames p s space addr n f ≡ ok space')
  unfolding protect_frames
  protect_frames_ok space addr zero f protects = (space, refl)
  protect_frames_ok space addr (suc n) f protects =
      let (mid, e) = protects space addr (wrapping_add addr (frame_size p)) f in
      let (end, h) = protect_frames_ok mid (wrapping_add addr (frame_size p)) n f protects in
      (end, rw (e, protect_frames) h)

  mprotect_known :
      (t : TaskMemory p s) (addr len : ℕ) (prot : ProtFlags) {region : MMapRegion} {space : s.Space}
      → get_region t.mmap addr ≡ some region
      → (let from = p.align_down_4k addr in
          protect_frames p s t.space from
            ((p.align_up_4k (wrapping_add addr len) - from + (frame_size p - 1)) / frame_size p)
            (from_prot prot))
        ≡ ok space
      → do_mprotect p s t addr len prot
        ≡ ok (
          0,
          record t {
            mmap = record t.mmap { regions = change (covers addr) (set_prot prot) t.mmap.regions };
            space = space;
          },
        )
  unfolding do_mprotect
  mprotect_known t addr len prot found e = rw (found, e, do_mprotect) refl

  -- A change of protection at an address of some region, where the address space can protect every
  -- range, succeeds; whatever its length, every address of that region has the new protection in
  -- the region, and every address of another region keeps its region.
  pub do_mprotect_lem :
      (t : TaskMemory p s) (addr len : ℕ) (prot : ProtFlags) {region : MMapRegion}
      → get_region t.mmap addr ≡ some region
      → Protects
      → (t' : TaskMemory p s) × (do_mprotect p s t addr len prot ≡ ok (0, t'))
        × ((x : ℕ)
            → position (covers x) t.mmap.regions ≡ position (covers addr) t.mmap.regions
            → get_region t'.mmap x ≡ Option.map (set_prot prot) (get_region t.mmap x))
        × ((x : ℕ)
            → position (covers x) t.mmap.regions ≢ position (covers addr) t.mmap.regions
            → get_region t'.mmap x ≡ get_region t.mmap x)
  unfolding get_region
  do_mprotect_lem t addr len prot found protects =
      let from = p.align_down_4k addr in
      let steps =
        (p.align_up_4k (wrapping_add addr len) - from + (frame_size p - 1)) / frame_size p in
      let (space, e) = protect_frames_ok t.space from steps (from_prot prot) protects in
      let (i, at) = find_of_position (covers addr) t.mmap.regions _ found in
      (
        _,
        mprotect_known t addr len prot found e,
        (λ x same.
            find-change_same (covers x) (covers addr) (set_prot prot) t.mmap.regions i
              (covers-set_prot x prot) (same ∙ at) at),
        (λ x other.
            find-change_other (covers x) (covers addr) (set_prot prot) t.mmap.regions
              (covers-set_prot x prot) other),
      )
