-- ===== src/Task/Memory/Heap.antt =====
-- `HeapInfo` of common/task/task/src/resource.rs and `Task::extend_heap` of task.rs, which is the
-- whole of `brk`. The address space is a parameter: `map_area` maps a range of addresses.
use domains.Prelude.{
  ℕ, ◌+◌, ◌-◌, ◌<◌, ◌≤◌, ◌≡◌, ◌⊎◌, inl, inr, refl, Bool, true, false, ◌&&◌, Option, none, some, ltb,
  leb, if◌then◌else◌, Outcome, ok, panic, arith, Bool-cases,
}
use native.Mathlib.Nat.{mod-lt, one-le-pow}
use domains.Task.Memory.Regions.{Paging, frame_size, frame_up, wrapping_add, usize_mod}

pub record HeapInfo : Type 0 where
  pub current : ℕ
  pub start : ℕ
  pub end : ℕ

unfoldable pub new : ℕ → ℕ → HeapInfo
new start end = record { current = start; start = start; end = end }

unfoldable pub contains : HeapInfo → ℕ → Bool
contains heap addr = leb heap.start addr && ltb addr heap.end

module _ (p : Paging) {Space : Type 0} (map_area : Space → ℕ → ℕ → Option Space) where
  unfoldable pub extend_heap : HeapInfo → Space → ℕ → Outcome (ℕ × HeapInfo × Space)
  unfolding wrapping_add
  extend_heap heap space addr =
      let addition = frame_up p (addr - heap.end) in
      let end = wrapping_add heap.end addition in
      if ltb addr heap.end
      then ok (addr, record heap { current = addr }, space)
      else elim (map_area space heap.end end) [
        | some space' ↦ ok (addr, record heap { current = addr; end = end }, space')
        | none ↦ panic
      ]

pub frame_size-pos : (p : Paging) → 0 < frame_size p
unfolding frame_size
frame_size-pos p = omega (arith, one-le-pow p.frame_bits 2 (omega arith))

pub wrapping_add_small : (a b : ℕ) → a + b < usize_mod → wrapping_add a b ≡ a + b
unfolding wrapping_add
wrapping_add_small a b h = omega arith

-- Rounding up to whole frames adds less than a frame.
pub frame_up-bounds :
    (p : Paging) (n : ℕ)
    → n + frame_size p ≤ usize_mod
    → (n ≤ frame_up p n) × (frame_up p n < n + frame_size p)
unfolding frame_up wrapping_add
frame_up-bounds p n h =
    let pos = frame_size-pos p in
    let m = n + (frame_size p - 1) in let below = mod-lt m pos in omega (arith, pos, below)

module _ (p : Paging) {Space : Type 0} (map_area : Space → ℕ → ℕ → Option Space) where
  -- What a `brk` to `addr` leaves.
  pub record Extended (heap : HeapInfo) (addr : ℕ) (heap' : HeapInfo) : Type 0 where
    pub current : heap'.current ≡ addr
    pub start : heap'.start ≡ heap.start
    pub grown : heap.end ≤ heap'.end
    pub holds : addr ≤ heap'.end
    pub tight : (heap'.end ≡ heap.end) ⊎ (heap'.end < addr + frame_size p)

  extend_far :
      (heap : HeapInfo) (space : Space) (addr : ℕ) {space' : Space}
      → ltb addr heap.end ≡ false
      → map_area space heap.end (wrapping_add heap.end (frame_up p (addr - heap.end))) ≡ some space'
      → extend_heap p map_area heap space addr
        ≡ ok (
          addr,
          record heap {
            current = addr;
            end = wrapping_add heap.end (frame_up p (addr - heap.end));
          },
          space',
        )
  unfolding extend_heap
  extend_far heap space addr far maps = rw (far, maps, extend_heap)

  extend_near :
      (heap : HeapInfo) (space : Space) (addr : ℕ)
      → ltb addr heap.end ≡ true
      → extend_heap p map_area heap space addr ≡ ok (addr, record heap { current = addr }, space)
  unfolding extend_heap
  extend_near heap space addr near = rw (near, extend_heap)

  -- Where the address space can map every range and the address lies a frame below 2 ^ 64, brk
  -- answers with the address that it was given and makes it the current end; the space of the heap
  -- keeps its start, never shrinks, reaches up to the address, and grows by less than a frame
  -- beyond it.
  pub extend_heap_lem :
      (heap : HeapInfo) (space : Space) (addr : ℕ)
      → ((s : Space) (a b : ℕ) → (s' : Space) × (map_area s a b ≡ some s'))
      → addr + frame_size p ≤ usize_mod
      → (heap' : HeapInfo) × (space' : Space) × (extend_heap p map_area heap space addr
          ≡ ok (addr, heap', space'))
        × Extended heap addr heap'
  extend_heap_lem heap space addr maps h = elim (Bool-cases (ltb addr heap.end)) [
    | inl near ↦ (
      _,
      _,
      extend_near heap space addr near,
      record {
        current = refl;
        start = refl;
        grown = omega arith;
        holds = ground arith;
        tight = inl refl;
      },
    )
    | inr far ↦
        let end = wrapping_add heap.end (frame_up p (addr - heap.end)) in
        let (space', e) = maps space heap.end end in
        let above : heap.end ≤ addr = ground arith in
        let b = frame_up-bounds p (addr - heap.end) (omega arith) in
        let sum : end ≡ heap.end + frame_up p (addr - heap.end) =
          wrapping_add_small heap.end _ (omega arith) in
        (
          _,
          _,
          extend_far heap space addr far e,
          record {
            current = refl;
            start = refl;
            grown = omega arith;
            holds = omega arith;
            tight = inr (omega arith);
          },
        )
  ]
