-- ===== src/Task/Memory/Mapped.antt =====
-- What the calls of a task do to the region of each address.
use domains.Prelude.{
  ℕ, ◌+◌, ◌<◌, ◌≤◌, ◌≡◌, ◌∙◌, inl, inr, refl, List, [], ◌∷◌, ◌++◌, Option, none, some, true, false,
  ◌&&◌, ltb, leb, if◌then◌else◌, ◌==◌, ok, All, arith, Bool-cases,
}
use domains.Task.Memory.Regions.{
  Paging, ProtFlags, MMapFlags, MMapRegion, MMapInfo, covers, find, add_region, get_region, alloc,
  frame_size, frame_up, wrapping_sub, usize_mod,
}
use domains.Task.Memory.Heap
use domains.Task.Memory.Heap.{frame_up-bounds, wrapping_add_small, frame_size-pos}
use domains.Task.Memory.Lookup.{get_region-add_region, covers_flat}
use domains.Task.Memory.Calls.{
  AddressSpace, from_prot, TaskMemory, Request, new_region, place, map_anywhere, do_mmap,
}

-- Every region ends at or before the address where the next free range begins.
pub record IsBelow (mmap : MMapInfo) : Type 0 where
  pub fits : mmap.map_start < usize_mod
  pub ends : All (λ r. r.start + r.len ≤ mmap.map_start) mmap.regions

find-none :
    (regions : List MMapRegion) (bound x : ℕ)
    → bound < usize_mod
    → All (λ r. r.start + r.len ≤ bound) regions
    → bound ≤ x
    → find (covers x) regions ≡ none
unfolding find
find-none [] bound x small a h = refl
find-none (r ∷ regions) bound x small a h =
    ground (arith, covers_flat x r, find-none regions bound x small a.1 h)

get_region-none :
    (mmap : MMapInfo) (x : ℕ) → IsBelow mmap → mmap.map_start ≤ x → get_region mmap x ≡ none
unfolding get_region
get_region-none mmap x b h = find-none mmap.regions mmap.map_start x b.fits b.ends h

get_region_moved :
    (mmap : MMapInfo) (end x : ℕ)
    → get_region (record mmap { map_start = end }) x ≡ get_region mmap x
unfolding get_region
get_region_moved mmap end x = refl

All-append :
    (P : MMapRegion → Type 0) (xs : List MMapRegion) (r : MMapRegion)
    → All P xs
    → P r
    → All P (xs ++ (r ∷ []))
All-append P [] r a h = (h, tt)
All-append P (x ∷ xs) r a h = (a.0, All-append P xs r a.1 h)

All-weaken :
    (regions : List MMapRegion) (low high : ℕ)
    → low ≤ high
    → All (λ r. r.start + r.len ≤ low) regions
    → All (λ r. r.start + r.len ≤ high) regions
All-weaken [] low high h a = tt
All-weaken (r ∷ regions) low high h a = (omega (arith, a.0), All-weaken regions low high h a.1)

module _ (p : Paging) (s : AddressSpace) where
  -- A region of `size` bytes at the next free range, which begins at `map_start`.
  pub record Placed (mmap : MMapInfo) (size : ℕ) (q : Request) (mmap' : MMapInfo) : Type 0 where
    pub map_len : ℕ
    pub long : size ≤ map_len
    pub below : IsBelow mmap'
    pub reads :
        (x : ℕ)
        → get_region mmap' x ≡ (
            if leb mmap.map_start x && ltb x (mmap.map_start + size)
            then some (new_region mmap.map_start size map_len q)
            else get_region mmap x)

  Placed-next :
      (mmap : MMapInfo) (size end : ℕ) (q : Request)
      → IsBelow mmap
      → mmap.map_start + size ≤ end
      → end < usize_mod
      → Placed mmap size q (
          add_region
            (record mmap { map_start = end })
            (new_region mmap.map_start size (wrapping_sub end mmap.map_start) q))
  unfolding new_region wrapping_sub add_region
  Placed-next mmap size end q b h small =
      let region = new_region mmap.map_start size (wrapping_sub end mmap.map_start) q in
      record {
        map_len = wrapping_sub end mmap.map_start;
        long = omega arith;
        below = record {
          fits = small;
          ends =
              All-append (λ r. r.start + r.len ≤ end) mmap.regions region
                (All-weaken mmap.regions mmap.map_start end (omega arith) b.ends) (omega arith);
        };
        reads = λ x. ground (
          arith,
          get_region-add_region (record mmap { map_start = end }) region x,
          get_region_moved mmap end x,
          covers_flat x region (omega arith),
          get_region-none mmap x b,
        );
      }

  place_ok :
      (t : TaskMemory p s) (mmap : MMapInfo) (start end len : ℕ) (q : Request) (space : s.Space)
      → s.map_area t.space start end (from_prot q.prot) ≡ some space
      → place p s t mmap start end len q
        ≡ ok (
          start,
          record t {
            mmap = add_region mmap (new_region start len (wrapping_sub end start) q);
            space = space;
          },
        )
  unfolding place
  place_ok t mmap start end len q space e = rw e refl

  map_anywhere_lem :
      (t : TaskMemory p s) (size : ℕ) (q : Request)
      → t.mmap.map_start + size < usize_mod
      → let end = frame_up p (t.mmap.map_start + size) in
        map_anywhere p s t size q
        ≡ place p s t (record t.mmap { map_start = end }) t.mmap.map_start end size q
  unfolding map_anywhere alloc
  map_anywhere_lem t size q h = rw (wrapping_add_small t.mmap.map_start size h) refl

  do_mmap_plain :
      (get_file : ℕ → Option ℕ) (t : TaskMemory p s) (start len : ℕ) (prot : ProtFlags)
      (fd offset : ℕ)
      → prot.prot_exec ≡ false
      → Heap.contains t.heap start ≡ false
      → let flags : MMapFlags = record { map_fixed = false; map_anonymous = true } in
        let q : Request = record { prot = prot; flags = flags; file = none; offset = offset } in
        do_mmap p s get_file t start len prot flags true fd offset
        ≡ map_anywhere p s t (p.align_up_4k len) q
  unfolding do_mmap
  do_mmap_plain get_file t start len prot fd offset plain out = elim (Bool-cases (start == 0)) [
    | inl null ↦ ground arith
    | inr given ↦ ground arith
  ]

  -- An anonymous mapping that is neither fixed nor executable, at an address outside the heap, of
  -- a task whose regions end where the next free range begins, where the address space maps the
  -- new range, which ends a frame below 2 ^ 64, gives the start of the free range and the address
  -- space that has the mapping; the new region covers the rounded length from there on, every
  -- other address keeps its region, and the regions again end where the next free range begins.
  pub do_mmap_anonymous :
      (get_file : ℕ → Option ℕ) (t : TaskMemory p s) (start len : ℕ) (prot : ProtFlags)
      (fd offset : ℕ) (space : s.Space)
      → s.map_area t.space t.mmap.map_start
          (frame_up p (t.mmap.map_start + p.align_up_4k len))
          (from_prot prot)
        ≡ some space
      → IsBelow t.mmap
      → prot.prot_exec ≡ false
      → Heap.contains t.heap start ≡ false
      → t.mmap.map_start + p.align_up_4k len + frame_size p ≤ usize_mod
      → let flags : MMapFlags = record { map_fixed = false; map_anonymous = true } in
        let q : Request = record { prot = prot; flags = flags; file = none; offset = offset } in
        (t' : TaskMemory p s) × (do_mmap p s get_file t start len prot flags true fd offset
          ≡ ok (t.mmap.map_start, t'))
        × (t'.space ≡ space)
        × Placed t.mmap (p.align_up_4k len) q t'.mmap
  do_mmap_anonymous get_file t start len prot fd offset space maps b plain out room =
      let flags : MMapFlags = record { map_fixed = false; map_anonymous = true } in
      let q : Request = record { prot = prot; flags = flags; file = none; offset = offset } in
      let size = p.align_up_4k len in
      let pos = frame_size-pos p in
      let up = frame_up-bounds p (t.mmap.map_start + size) room in
      let end = frame_up p (t.mmap.map_start + size) in
      let e =
        place_ok t (record t.mmap { map_start = end }) t.mmap.map_start end size q space maps in
      (
        record t {
          mmap =
              add_region (record t.mmap { map_start = end })
                (new_region t.mmap.map_start size (wrapping_sub end t.mmap.map_start) q);
          space = space;
        },
        do_mmap_plain get_file t start len prot fd offset plain out
            ∙ (map_anywhere_lem t size q (omega arith) ∙ e),
        refl,
        Placed-next t.mmap size end q b (omega arith) (omega arith),
      )
