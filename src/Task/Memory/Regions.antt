-- ===== src/Task/Memory/Regions.antt =====
-- `MMapInfo` and `MMapRegion` of common/task/task/src/resource.rs. A `usize` that may wrap is taken
-- modulo 2 ^ 64. `FRAME_SIZE`, `PROCESS_HEAP_MAX` and the functions of the crate `memory_addr` are
-- parameters.
use domains.Prelude.{
  ℕ, ◌+◌, ◌-◌, ◌%◌, ◌^◌, List, [], ◌∷◌, ◌++◌, Option, none, some, Bool, ◌&&◌, ltb, leb,
  if◌then◌else◌, Outcome, ok, panic, position, remove_at,
}

pub record Paging : Type 0 where
  -- `FRAME_SIZE` is two to this power, so the mask `!(FRAME_SIZE - 1)` takes a remainder away.
  pub frame_bits : ℕ
  pub process_heap_max : ℕ
  pub align_up_4k : ℕ → ℕ
  pub align_down_4k : ℕ → ℕ

-- `ProtFlags` and `MMapFlags`, by the flags that the calls ask for.
pub record ProtFlags : Type 0 where
  pub prot_read : Bool
  pub prot_write : Bool
  pub prot_exec : Bool

pub record MMapFlags : Type 0 where
  pub map_fixed : Bool
  pub map_anonymous : Bool

pub record MMapRegion : Type 0 where
  pub start : ℕ
  pub len : ℕ
  pub map_len : ℕ
  pub prot : ProtFlags
  pub flags : MMapFlags
  pub fd : Option ℕ
  pub offset : ℕ

pub record MMapInfo : Type 0 where
  pub map_start : ℕ
  pub regions : List MMapRegion

abbrev pub usize_mod : ℕ
usize_mod = 2 ^ 64

-- Addition and subtraction of a release build.
unfoldable pub wrapping_add : ℕ → ℕ → ℕ
wrapping_add a b = (a + b) % usize_mod

unfoldable pub wrapping_sub : ℕ → ℕ → ℕ
wrapping_sub a b = (a + usize_mod - b) % usize_mod

-- The test of the three methods that look a region up.
unfoldable pub covers : ℕ → MMapRegion → Bool
unfolding wrapping_add
covers addr region = leb region.start addr && ltb addr (wrapping_add region.start region.len)

-- `Iterator::find`
unfoldable pub find : {A : Type 0} → (A → Bool) → List A → Option A
find p [] = none
find p (x ∷ xs) = let later = find p xs in if p x then some x else later

-- `Iterator::find` on mutable references, followed by a change of what it finds.
unfoldable pub change : {A : Type 0} → (A → Bool) → (A → A) → List A → List A
change p f [] = []
change p f (x ∷ xs) = let later = change p f xs in if p x then f x ∷ xs else x ∷ later

unfoldable pub add_region : MMapInfo → MMapRegion → MMapInfo
add_region mmap region = record mmap { regions = mmap.regions ++ (region ∷ []) }

unfoldable pub get_region : MMapInfo → ℕ → Option MMapRegion
unfolding find
get_region mmap addr = find (covers addr) mmap.regions

unfoldable pub remove_region : MMapInfo → ℕ → Outcome MMapInfo
remove_region mmap addr = elim (position (covers addr) mmap.regions) [
  | some index ↦ ok (record mmap { regions = remove_at mmap.regions index })
  | none ↦ panic
]

unfoldable pub set_prot : ProtFlags → MMapRegion → MMapRegion
set_prot prot region = record region { prot = prot }

unfoldable pub set_flags : MMapFlags → MMapRegion → MMapRegion
set_flags flags region = record region { flags = flags }

module _ (p : Paging) where
  unfoldable pub frame_size : ℕ
  frame_size = 2 ^ p.frame_bits

  -- `(n + FRAME_SIZE - 1) & !(FRAME_SIZE - 1)`
  unfoldable pub frame_up : ℕ → ℕ
  unfolding frame_size wrapping_add
  frame_up n = let m = wrapping_add n (frame_size - 1) in m - m % frame_size

  unfoldable pub new : MMapInfo
  new = record { map_start = p.process_heap_max; regions = [] }

  -- The start of the range, and the state, whose `map_start` is the range's end.
  unfoldable pub alloc : MMapInfo → ℕ → ℕ × MMapInfo
  alloc mmap len =
      (mmap.map_start, record mmap { map_start = frame_up (wrapping_add mmap.map_start len) })

  unfoldable pub split : MMapRegion → ℕ → MMapRegion × MMapRegion
  unfolding wrapping_add wrapping_sub
  split region addr =
      let len₁ = wrapping_sub addr region.start in
      let len₂ = wrapping_sub (wrapping_add region.start region.len) addr in
      (
        record region { len = len₁; map_len = p.align_up_4k len₁ },
        record region {
          start = addr;
          len = len₂;
          map_len = p.align_up_4k len₂;
          offset = wrapping_add region.offset len₁;
        },
      )
