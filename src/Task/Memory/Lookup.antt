-- ===== src/Task/Memory/Lookup.antt =====
-- Which region an address belongs to, after a change of the list of regions.
use domains.Prelude.{
  ℕ, zero, suc, ◌+◌, ◌-◌, ◌<◌, ◌≤◌, ◌≡◌, ◌≢◌, refl, List, [], ◌∷◌, ◌++◌, none, some, Bool, false,
  ◌&&◌, ◌||◌, ltb, leb, if◌then◌else◌, ok, position, remove_at, arith, Bool-cases, inl, inr,
}
use mathlib.Core.Option
use domains.Task.Memory.Heap.{wrapping_add_small}
use domains.Task.Memory.Regions.{
  MMapRegion, MMapInfo, Paging, ProtFlags, covers, find, change, add_region, get_region,
  remove_region, set_prot, split, wrapping_add, wrapping_sub, usize_mod,
}

pub find-append :
    {A : Type 0} (p : A → Bool) (xs : List A) (x : A)
    → find p (xs ++ (x ∷ []))
      ≡ (elim (find p xs) [ some y ↦ some y | none ↦ if p x then some x else none ])
unfolding find
find-append p [] x = refl
find-append p (y ∷ xs) x = ground (arith, find-append p xs x)

-- What `p` finds does not change where an element that `p` does not accept goes away.
find-remove_at :
    {A : Type 0} (p q : A → Bool) (xs : List A) (i : ℕ) (x : A)
    → position q xs ≡ some i
    → find q xs ≡ some x
    → p x ≡ false
    → find p (remove_at xs i) ≡ find p xs
unfolding find position
find-remove_at p q [] i x e f h = ground arith
find-remove_at p q (y ∷ xs) zero x e f h = ground arith
find-remove_at p q (y ∷ xs) (suc i) x e f h = elim (Bool-cases (q y)) [
  | inl here ↦ ground arith
  | inr later ↦ ground (arith, find-remove_at p q xs i x)
]

pub find_of_position :
    {A : Type 0} (q : A → Bool) (xs : List A) (x : A)
    → find q xs ≡ some x
    → (i : ℕ) × (position q xs ≡ some i)
unfolding find position
find_of_position q [] x f = ground arith
find_of_position q (y ∷ xs) x f = elim (Bool-cases (q y)) [
  | inl here ↦ (0, ground arith)
  | inr later ↦ let (i, e) = find_of_position q xs x (ground arith) in (suc i, ground arith)
]

-- A change of the first element that `q` accepts, which `p` does not notice: `p` finds the changed
-- element where it stops at the same index, and else what it found before.
pub find-change_same :
    {A : Type 0} (p q : A → Bool) (f : A → A) (xs : List A) (i : ℕ)
    → ((x : A) → p (f x) ≡ p x)
    → position p xs ≡ some i
    → position q xs ≡ some i
    → find p (change q f xs) ≡ Option.map f (find p xs)
unfolding find change position
find-change_same p q f [] i same e e' = ground arith
find-change_same p q f (y ∷ xs) zero same e e' = ground (arith, same y)
find-change_same p q f (y ∷ xs) (suc i) same e e' =
    ground (arith, same y, find-change_same p q f xs i same)

pub find-change_other :
    {A : Type 0} (p q : A → Bool) (f : A → A) (xs : List A)
    → ((x : A) → p (f x) ≡ p x)
    → position p xs ≢ position q xs
    → find p (change q f xs) ≡ find p xs
unfolding find change position
find-change_other p q f [] same ne = refl
find-change_other p q f (y ∷ xs) same ne = elim (Bool-cases (p y)) [
  | inl here ↦ elim (Bool-cases (q y)) [
    | inl both ↦ absurd (ne (ground arith))
    | inr only ↦ ground arith
  ]
  | inr later ↦ elim (Bool-cases (q y)) [
    | inl only ↦ ground (arith, same y)
    | inr neither ↦ ground (arith, find-change_other p q f xs same (λ e. ne (ground arith)))
  ]
]

pub covers-set_prot :
    (addr : ℕ) (prot : ProtFlags) (r : MMapRegion) → covers addr (set_prot prot r) ≡ covers addr r
unfolding covers set_prot
covers-set_prot addr prot r = refl

-- A region that is added is found by the addresses that no earlier region covers.
pub get_region-add_region :
    (mmap : MMapInfo) (region : MMapRegion) (addr : ℕ)
    → get_region (add_region mmap region) addr ≡ (elim (get_region mmap addr) [
      | some y ↦ some y
      | none ↦ if covers addr region then some region else none
    ])
unfolding get_region add_region
get_region-add_region mmap region addr = find-append (covers addr) mmap.regions region

-- Removing the region of an address succeeds, and no address that this region does not cover
-- belongs to another region afterwards.
pub remove_region_lem :
    (mmap : MMapInfo) (addr : ℕ) {region : MMapRegion}
    → get_region mmap addr ≡ some region
    → (mmap' : MMapInfo) × (remove_region mmap addr ≡ ok mmap')
      × (mmap'.map_start ≡ mmap.map_start)
      × ((other : ℕ) → covers other region ≡ false → get_region mmap' other ≡ get_region mmap other)
unfolding get_region remove_region
remove_region_lem mmap addr {region} f =
    let (i, e) = find_of_position (covers addr) mmap.regions region f in
    (
      _,
      rw (e, remove_region) refl,
      refl,
      (λ other h. find-remove_at (covers other) (covers addr) mmap.regions i region e f h),
    )

-- Both parts of a region that is split at one of its addresses, or at its start: together they
-- cover what the region did, no address twice, and each address keeps its place in the file.
pub record Halves (region : MMapRegion) (left right : MMapRegion) : Type 0 where
  pub either : (x : ℕ) → covers x region ≡ (covers x left || covers x right)
  pub not_both : (x : ℕ) → (covers x left && covers x right) ≡ false
  pub left_offset : left.offset ≡ region.offset
  pub left_start : left.start ≡ region.start
  pub right_offset : right.offset + region.start ≡ region.offset + right.start

wrapping_sub_small : (a b : ℕ) → b ≤ a → a < usize_mod → wrapping_sub a b ≡ a - b
unfolding wrapping_sub
wrapping_sub_small a b h small = omega arith

pub covers_flat :
    (x : ℕ) (r : MMapRegion)
    → r.start + r.len < usize_mod
    → covers x r ≡ (leb r.start x && ltb x (r.start + r.len))
unfolding covers
covers_flat x r fits = rw (wrapping_add_small r.start r.len fits) refl

-- A split of a region at one of its addresses, where neither the addresses nor the places in the
-- file reach 2 ^ 64, cuts it into two: each address of the region is covered by just one of the
-- parts, and its place in the file stays the same.
pub split-Halves :
    (p : Paging) (region : MMapRegion) (addr : ℕ)
    → region.start ≤ addr
    → addr < region.start + region.len
    → region.start + region.len < usize_mod
    → region.offset + region.len < usize_mod
    → let (left, right) = split p region addr in Halves region left right
unfolding split
split-Halves p region addr from to fits fits_file =
    let (left, right) = split p region addr in
    let len₁ = wrapping_sub_small addr region.start from (omega arith) in
    let whole = wrapping_add_small region.start region.len fits in
    let len₂ = wrapping_sub_small (region.start + region.len) addr (omega arith) fits in
    let end : wrapping_sub (wrapping_add region.start region.len) addr
        ≡ region.start + region.len - addr =
      rw whole len₂ in
    let offset = wrapping_add_small region.offset (addr - region.start) (omega arith) in
    let inside = λ (x : ℕ). covers_flat x region fits in
    let below = λ (x : ℕ). covers_flat x left (omega arith) in
    let above = λ (x : ℕ). covers_flat x right (omega arith) in
    record {
      either = λ x. ground (arith, inside x, below x, above x);
      not_both = λ x. ground (arith, inside x, below x, above x);
      left_offset = refl;
      left_start = refl;
      right_offset = omega arith;
    }
