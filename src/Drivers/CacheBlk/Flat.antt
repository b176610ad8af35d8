-- ===== src/Drivers/CacheBlk/Flat.antt =====
-- A page is its bytes in a row: what the loops over its blocks copy is a slice of them.
use domains.Prelude.{
  ℕ, ◌≡◌, refl, sym, ap, ap₂, ◌∙◌, zero, suc, ◌+◌, ◌-◌, ◌*◌, ◌/◌, ◌%◌, ◌≤◌, ◌<◌, min, List, [], ◌∷◌,
  ◌++◌, true, length, take, drop, leb, ◌==◌, ok, All, arith, Bool-cases, inl, inr, length-append,
  length-drop, drop-nil, drop_of_length-le,
}
use domains.Drivers.CacheBlk.Page.{PageCache, block_size, copy_out, copy_to}

-- The bytes of the blocks.
unfoldable pub concat : PageCache → List ℕ
concat [] = []
concat (slice ∷ slices) = slice ++ concat slices

-- Blocks of the length that a block has.
abbrev pub IsWhole : PageCache → Type 0
IsWhole = All (λ (slice : List ℕ). length slice ≡ block_size)

pub drop-append :
    (n : ℕ) (xs ys : List ℕ) → drop n (xs ++ ys) ≡ drop n xs ++ drop (n - length xs) ys
drop-append zero [] ys = ground arith
drop-append zero (x ∷ xs) ys = ground arith
drop-append (suc n) [] ys = ground arith
drop-append (suc n) (x ∷ xs) ys =
    drop-append n xs ys ∙ ap (λ k. drop n xs ++ drop k ys) (omega arith)

pub take-split : (n : ℕ) (xs ys : List ℕ) → take n (xs ++ ys) ≡ take n xs ++ take (n - length xs) ys
take-split zero xs ys = ground arith
take-split (suc n) [] ys = ground arith
take-split (suc n) (x ∷ xs) ys =
    ap (◌∷◌ x) (take-split n xs ys ∙ ap (λ k. take n xs ++ take k ys) (omega arith))

take-min : (n : ℕ) (xs : List ℕ) → take (min (length xs) n) xs ≡ take n xs
take-min zero xs = let e : min (length xs) 0 ≡ 0 = omega arith in ap (λ k. take k xs) e
take-min (suc n) [] = ground arith
take-min (suc n) (x ∷ xs) =
    let e : min (suc (length xs)) (suc n) ≡ suc (min (length xs) n) = omega arith in
    ap (λ k. take k (x ∷ xs)) e ∙ ap (◌∷◌ x) (take-min n xs)

-- The slice of two lists in a row, the first of which it begins in.
slice-append :
    (at len : ℕ) (xs ys : List ℕ)
    → at ≤ length xs
    → take len (drop at (xs ++ ys))
      ≡ take (min (length xs - at) len) (drop at xs) ++ take (len - min (length xs - at) len) ys
slice-append at len xs ys le =
    let d = length-drop at xs in
    let none_left : at - length xs ≡ 0 = omega arith in
    let e : drop at (xs ++ ys) ≡ drop at xs ++ ys =
      drop-append at xs ys ∙ ap (λ k. drop at xs ++ drop k ys) none_left in
    let rest_len : len - length (drop at xs) ≡ len - min (length xs - at) len = omega arith in
    let front : take len (drop at xs) ≡ take (min (length xs - at) len) (drop at xs) =
      sym (take-min len (drop at xs)) ∙ ap (λ k. take (min k len) (drop at xs)) d in
    ap (take len) e ∙ take-split len (drop at xs) ys ∙ ap₂ (λ zs k. zs ++ take k ys) front rest_len

-- What is copied out is the slice of the bytes.
pub copy_out_lem :
    (slices : PageCache) (start_offset len : ℕ)
    → IsWhole slices
    → start_offset < block_size
    → start_offset + len ≤ length (concat slices)
    → copy_out slices start_offset len ≡ ok (take len (drop start_offset (concat slices)))
unfolding copy_out concat
copy_out_lem [] start_offset len whole lt fits = let nothing : len ≡ 0 = omega arith in ground arith
copy_out_lem (slice ∷ slices) start_offset len (size, whole) lt fits =
    let l = length-append slice (concat slices) in
    let n : ℕ = min (block_size - start_offset) len in
    let others = copy_out_lem slices 0 (len - n) whole (omega arith) (omega arith) in
    elim (Bool-cases (len == 0)) [
      | inl nothing ↦ let zero_len : len ≡ 0 = ground arith in rw (nothing) (rw (zero_len) refl)
      | inr some_bytes ↦
          let within : leb (start_offset + n) (length slice) ≡ true = ground arith in
          let e = slice-append start_offset len slice (concat slices) (omega arith) in
          let m : min (length slice - start_offset) len ≡ n = omega arith in
          rw (some_bytes, within, others)
            (ap ok (
              sym (
                e
                ∙ ap (λ k. take k (drop start_offset slice) ++ take (len - k) (concat slices)) m)))
    ]

-- Whole blocks are so many bytes.
pub drop-concat :
    (k : ℕ) (page : PageCache)
    → IsWhole page
    → concat (drop k page) ≡ drop (k * block_size) (concat page)
unfolding concat
drop-concat zero page whole = refl
drop-concat (suc k) [] whole = sym (drop-nil ℕ (suc k * block_size))
drop-concat (suc k) (slice ∷ page) (size, whole) =
    let e = drop-append (suc k * block_size) slice (concat page) in
    let gone : drop (suc k * block_size) slice ≡ [] =
      drop_of_length-le (suc k * block_size) slice (omega arith) in
    let left : suc k * block_size - length slice ≡ k * block_size = omega arith in
    drop-concat k page whole ∙ sym (e ∙ ap₂ (λ zs n. zs ++ drop n (concat page)) gone left)

pub drop-IsWhole : (k : ℕ) (page : PageCache) → IsWhole page → IsWhole (drop k page)
drop-IsWhole zero page whole = whole
drop-IsWhole (suc k) [] whole = tt
drop-IsWhole (suc k) (slice ∷ page) (size, whole) = drop-IsWhole k page whole

pub drop-drop : (a b : ℕ) (xs : List ℕ) → drop a (drop b xs) ≡ drop (b + a) xs
drop-drop a zero xs = let e : a ≡ 0 + a = omega arith in ap (λ k. drop k xs) e
drop-drop a (suc b) [] = drop-nil ℕ a ∙ sym (drop-nil ℕ (suc b + a))
drop-drop a (suc b) (x ∷ xs) =
    let e : suc (b + a) ≡ suc b + a = omega arith in drop-drop a b xs ∙ ap (λ k. drop k (x ∷ xs)) e

-- On a page of whole blocks, a copy_to of a range that lies in the page goes from block to block
-- and gives just the slice of the bytes of the blocks in a row.
pub copy_to_lem :
    (page : PageCache) (offset len : ℕ)
    → IsWhole page
    → offset + len ≤ length (concat page)
    → copy_to page offset len ≡ ok (take len (drop offset (concat page)))
unfolding copy_to
copy_to_lem page offset len whole fits =
    let k : ℕ = offset / block_size in
    let at : ℕ = offset % block_size in
    let e = drop-concat k page whole in
    let l = length-drop (k * block_size) (concat page) in
    let l' : length (concat (drop k page)) ≡ length (concat page) - k * block_size =
      ap length e ∙ l in
    let back : k * block_size + at ≡ offset = omega arith in
    copy_out_lem (drop k page) at len (drop-IsWhole k page whole) (omega arith) (omega arith)
    ∙ ap (λ xs. ok (take len (drop at xs))) e
    ∙ ap (λ xs. ok (take len xs))
        (drop-drop at (k * block_size) (concat page) ∙ ap (λ j. drop j (concat page)) back)
