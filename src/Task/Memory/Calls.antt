-- ===== src/Task/Memory/Calls.antt =====
-- The calls of common/task/task/src/syscall/mmap.rs that change the regions of a task. The address
-- space is the crate `ptable`'s and is a parameter, as is the table of descriptors. A call that
-- fails changes nothing before it fails.
use domains.Prelude.{
  ℕ, zero, suc, ◌+◌, ◌-◌, ◌/◌, Option, none, some, Bool, not, ◌&&◌, ◌||◌, ◌==◌, ltb, is_some,
  if◌then◌else◌, Outcome, ok, err, ◌>>=◌, ok_or, unwrap, ebadf, einval,
}
use domains.Task.Memory.Regions.{
  Paging, ProtFlags, MMapFlags, MMapRegion, MMapInfo, wrapping_add, wrapping_sub, covers, change,
  add_region, get_region, remove_region, set_prot, set_flags, frame_size, alloc, split,
}
use domains.Task.Memory.Heap
use domains.Task.Memory.Heap.{HeapInfo}

-- `MappingFlags`, by the three permissions that `from_prot` chooses beside `USER`.
pub record MappingFlags : Type 0 where
  pub readable : Bool
  pub writable : Bool
  pub executable : Bool

unfoldable pub from_prot : ProtFlags → MappingFlags
from_prot prot_flags = record {
  readable = prot_flags.prot_read;
  writable = prot_flags.prot_write;
  executable = prot_flags.prot_exec;
}

-- `VmSpace`, by the calls over it: `map` and `protect` take a range of addresses.
pub record AddressSpace : Type 1 where
  pub Space : Type 0
  pub map_area : Space → ℕ → ℕ → MappingFlags → Option Space
  pub unmap : Space → ℕ → Option Space
  pub protect : Space → ℕ → ℕ → MappingFlags → Option Space

-- What a call asks a new mapping to be.
pub record Request : Type 0 where
  pub prot : ProtFlags
  pub flags : MMapFlags
  pub file : Option ℕ
  pub offset : ℕ

unfoldable pub new_region : ℕ → ℕ → ℕ → Request → MMapRegion
new_region start len map_len q = record {
  start = start;
  len = len;
  map_len = map_len;
  prot = q.prot;
  flags = q.flags;
  fd = q.file;
  offset = q.offset;
}

-- A region that a fixed mapping takes over.
unfoldable pub take_over : Request → MMapRegion → MMapRegion
take_over q region =
    let region' = set_flags q.flags (set_prot q.prot region) in
    record region' { offset = q.offset; fd = q.file }

module _ (p : Paging) where
  -- A fixed mapping of `[start, start + len)` in a region: what is left of the region before and
  -- after it stays.
  unfoldable pub replace_region : MMapInfo → MMapRegion → ℕ → ℕ → Request → Outcome MMapInfo
  replace_region mmap region start len q =
      let (left, right) = split p region start in
      let (middle, rest) = split p right (wrapping_add start len) in
      remove_region mmap region.start >>= λ mmap₁.
      let mmap₂ = add_region mmap₁ left in
      if ltb (wrapping_add start len) (wrapping_add right.start right.map_len)
      then ok (add_region (add_region mmap₂ rest) (take_over q middle))
      else ok (add_region mmap₂ (take_over q right))

  module _ (s : AddressSpace) where
    open s use {Space}

    pub record TaskMemory : Type 0 where
      pub mmap : MMapInfo
      pub heap : HeapInfo
      pub space : Space

    -- The end of `do_mmap`: the region joins the others and its range is mapped.
    unfoldable pub place : TaskMemory → MMapInfo → ℕ → ℕ → ℕ → Request → Outcome (ℕ × TaskMemory)
    place t mmap start end len q =
        unwrap (s.map_area t.space start end (from_prot q.prot)) >>= λ space. ok (
          start,
          record t {
            mmap = add_region mmap (new_region start len (wrapping_sub end start) q);
            space = space;
          },
        )

    -- The three ways to choose the range, `start` and `len` being aligned.
    unfoldable pub map_exec : TaskMemory → ℕ → ℕ → Request → Outcome (ℕ × TaskMemory)
    map_exec t start len q =
        if ltb t.heap.start start
        then err einval
        else if is_some (get_region t.mmap start)
        then err einval
        else (let from = if start == 0 then 4096 else start in
            place t t.mmap from (wrapping_add from len) len q)

    unfoldable pub map_at : TaskMemory → ℕ → ℕ → Request → Outcome (ℕ × TaskMemory)
    map_at t start len q =
        if ltb t.heap.start start then err einval else elim (get_region t.mmap start) [
          | some region ↦ replace_region t.mmap region start len q >>= λ mmap.
              ok (start, record t { mmap = mmap })
          | none ↦ place t t.mmap start (wrapping_add start len) len q
        ]

    unfoldable pub map_anywhere : TaskMemory → ℕ → Request → Outcome (ℕ × TaskMemory)
    map_anywhere t len q =
        let (start, mmap) = alloc p t.mmap len in place t mmap start mmap.map_start len q

    -- `valid_type` tells whether the type bits of the flags name a type.
    unfoldable pub do_mmap :
        (ℕ → Option ℕ)
        → TaskMemory
        → ℕ
        → ℕ
        → ProtFlags
        → MMapFlags
        → Bool
        → ℕ
        → ℕ
        → Outcome (ℕ × TaskMemory)
    do_mmap get_file t start len prot flags valid_type fd offset =
        if not valid_type || ((start == 0) && flags.map_fixed)
        then err einval
        else if Heap.contains t.heap start && Heap.contains t.heap (wrapping_add start len)
        then ok (start, t)
        else (if flags.map_anonymous
            then ok none
            else ok_or (get_file fd) ebadf >>= (λ file. ok (some file)))
          >>= λ file.
              let q : Request = record {
                prot = prot;
                flags = flags;
                file = file;
                offset = offset;
              } in
              let from = p.align_down_4k start in
              let size = p.align_up_4k len in
              if prot.prot_exec
              then map_exec t from size q
              else if flags.map_fixed
              then map_at t from size q
              else map_anywhere t size q

    unfoldable pub do_munmap : TaskMemory → ℕ → ℕ → Outcome (ℕ × TaskMemory)
    do_munmap t start len = ok_or (get_region t.mmap start) einval >>= λ region.
        if not (region.start == start) || not (len == region.len)
        then err einval
        else (unwrap (s.unmap t.space start) >>= λ space.
            remove_region t.mmap start >>= λ mmap. ok (0, record t { mmap = mmap; space = space }))

    -- The loop of `do_mprotect` over `n` frames.
    unfoldable pub protect_frames : Space → ℕ → ℕ → MappingFlags → Outcome Space
    protect_frames space addr zero flags = ok space
    protect_frames space addr (suc n) flags =
        unwrap (s.protect space addr (wrapping_add addr (frame_size p)) flags) >>= λ space'.
        protect_frames space' (wrapping_add addr (frame_size p)) n flags

    -- `(addr_start..addr_end).step_by(FRAME_SIZE)` has as many steps as frames begin in the range.
    unfoldable pub do_mprotect : TaskMemory → ℕ → ℕ → ProtFlags → Outcome (ℕ × TaskMemory)
    do_mprotect t addr len prot =
        let from = p.align_down_4k addr in
        let to = p.align_up_4k (wrapping_add addr len) in
        let steps = (to - from + (frame_size p - 1)) / frame_size p in
        ok_or (get_region t.mmap addr) einval >>= λ _.
        let mmap = record t.mmap {
          regions = change (covers addr) (set_prot prot) t.mmap.regions;
        } in
        protect_frames t.space from steps (from_prot prot) >>= λ space.
        ok (0, record t { mmap = mmap; space = space })

    unfoldable pub vdso_reserve_user_vaddr :
        TaskMemory → ℕ → ProtFlags → MMapFlags → Outcome (ℕ × TaskMemory)
    vdso_reserve_user_vaddr t len prot flags =
        let size = p.align_up_4k len in
        let (start, mmap) = alloc p t.mmap size in
        let q : Request = record { prot = prot; flags = flags; file = none; offset = 0 } in
        if size == 0
        then err einval
        else ok (start, record t { mmap = add_region mmap (new_region start size size q) })
