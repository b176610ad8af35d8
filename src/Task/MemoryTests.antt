-- ===== src/Task/MemoryTests.antt =====
-- Regions and the heap of a task on concrete values, and the claims at them.
use domains.Prelude.{
  ℕ, ◌+◌, ◌*◌, ◌/◌, ◌^◌, ◌≡◌, refl, [], ◌∷◌, none, some, true, false, ok, arith, ltb, if◌then◌else◌,
}
use domains.Task.Memory.Regions.{
  Paging, ProtFlags, MMapFlags, MMapRegion, covers, find, get_region, split, frame_size,
  wrapping_add,
}
use domains.Task.Memory.Heap
use domains.Task.Memory.Heap.{HeapInfo, extend_heap, Extended, extend_heap_lem}
use domains.Task.Memory.Lookup.{Halves, split-Halves}
use domains.Task.Memory.Calls.{AddressSpace, TaskMemory, Request, do_mmap}
use domains.Task.Memory.Mapped.{IsBelow, Placed, do_mmap_anonymous}

abbrev paging : Paging
paging = record {
  frame_bits = 12;
  process_heap_max = 2 ^ 36;
  align_up_4k = λ n. (n + 4095) / 4096 * 4096;
  align_down_4k = λ n. n / 4096 * 4096;
}

-- An address space by the number of its changes, which has room for three mappings.
abbrev counting : AddressSpace
counting = record {
  Space = ℕ;
  map_area = λ n start end flags. if ltb n 3 then some (n + 1) else none;
  unmap = λ n _. some (n + 1);
  protect = λ n _ _ _. some (n + 1);
}

abbrev data_prot : ProtFlags
data_prot = record { prot_read = true; prot_write = true; prot_exec = false }

abbrev read_only : ProtFlags
read_only = record data_prot { prot_write = false }

abbrev anonymous : MMapFlags
anonymous = record { map_fixed = false; map_anonymous = true }

-- Two frames at the start of the free range.
abbrev region : MMapRegion
region = record {
  start = 2 ^ 36;
  len = 8192;
  map_len = 8192;
  prot = data_prot;
  flags = anonymous;
  fd = none;
  offset = 0;
}

abbrev heap : HeapInfo
heap = record { current = 2 ^ 20; start = 2 ^ 20; end = 2 ^ 20 + 4096 }

abbrev memory : TaskMemory paging counting
memory = record {
  mmap = record { map_start = 2 ^ 36 + 8192; regions = region ∷ [] };
  heap = heap;
  space = 0;
}

memory-IsBelow : IsBelow memory.mmap
memory-IsBelow = record { fits = omega arith; ends = (omega arith, tt) }

region_found : get_region memory.mmap (2 ^ 36) ≡ some region
unfolding get_region find covers wrapping_add
region_found = refl

second_page_too : get_region memory.mmap (2 ^ 36 + 8191) ≡ some region
unfolding get_region find covers wrapping_add
second_page_too = refl

outside_heap : Heap.contains heap 0 ≡ false
unfolding Heap.contains
outside_heap = refl

do_mmap_anonymous_example :
    let q : Request = record { prot = data_prot; flags = anonymous; file = none; offset = 0 } in
    (t' : TaskMemory paging counting) × (do_mmap paging counting
        (λ _. none)
        memory
        0
        5000
        data_prot
        anonymous
        true
        0
        0
      ≡ ok (2 ^ 36 + 8192, t'))
    × (t'.space ≡ 1)
    × Placed paging counting memory.mmap 8192 q t'.mmap
unfolding frame_size
do_mmap_anonymous_example =
    do_mmap_anonymous paging counting (λ _. none) memory 0 5000 data_prot 0 0 1 refl memory-IsBelow
      refl outside_heap (omega arith)

split-Halves_example :
    let (left, right) = split paging region (2 ^ 36 + 4096) in Halves region left right
split-Halves_example =
    split-Halves paging region (2 ^ 36 + 4096) (omega arith) (omega arith) (omega arith)
      (omega arith)
