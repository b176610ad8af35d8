-- ===== src/Drivers/CacheBlk/Written.antt =====
-- What is written into a page: the loop over its blocks patches the bytes in a row, and what is read
-- there again is what was written.
use domains.Prelude.{
  ℕ, ◌≡◌, refl, sym, ap, ap₂, ◌∙◌, ◌+◌, ◌-◌, ◌≤◌, ◌<◌, min, List, [], ◌∷◌, ◌++◌, true, length, take,
  drop, leb, ◌==◌, Outcome, ok, arith, Bool-cases, inl, inr, length-append, length-drop,
  length-take, drop_of_length-le, take_of_length-le, take-append-drop,
}
use mathlib.Core.List.{append_assoc, append-nil}
use domains.Drivers.CacheBlk.Page.{PageCache, block_size, patch, copy_in}
use domains.Drivers.CacheBlk.Flat.{concat, IsWhole, drop-append, take-split}

pub length-patch :
    (slice bytes : List ℕ) (at : ℕ)
    → at + length bytes ≤ length slice
    → length (patch slice at bytes) ≡ length slice
length-patch slice bytes at fits =
    let a = length-append (take at slice ++ bytes) (drop (at + length bytes) slice) in
    let b = length-append (take at slice) bytes in
    let c = length-take at slice in let d = length-drop (at + length bytes) slice in omega arith

-- A patch that stays in the first of two lists, one that goes on to the end of it and into the other.
patch-left :
    (xs ys bytes : List ℕ) (at : ℕ)
    → at + length bytes ≤ length xs
    → patch (xs ++ ys) at bytes ≡ patch xs at bytes ++ ys
patch-left xs ys bytes at fits =
    let none_taken : at - length xs ≡ 0 = omega arith in
    let none_left : at + length bytes - length xs ≡ 0 = omega arith in
    let front : take at (xs ++ ys) ≡ take at xs =
      take-split at xs ys
      ∙ ap (λ k. take at xs ++ take k ys) none_taken
      ∙ append-nil (take at xs) in
    let back : drop (at + length bytes) (xs ++ ys) ≡ drop (at + length bytes) xs ++ ys =
      drop-append (at + length bytes) xs ys
      ∙ ap (λ k. drop (at + length bytes) xs ++ drop k ys) none_left in
    ap₂ (λ us vs. us ++ bytes ++ vs) front back
    ∙ sym (append_assoc (take at xs ++ bytes) (drop (at + length bytes) xs) ys)

patch-across :
    (xs ys bytes : List ℕ) (at n : ℕ)
    → at + n ≡ length xs
    → n ≤ length bytes
    → patch (xs ++ ys) at bytes ≡ patch xs at (take n bytes) ++ patch ys 0 (drop n bytes)
patch-across xs ys bytes at n e le =
    let none_taken : at - length xs ≡ 0 = omega arith in
    let front : take at (xs ++ ys) ≡ take at xs =
      take-split at xs ys
      ∙ ap (λ k. take at xs ++ take k ys) none_taken
      ∙ append-nil (take at xs) in
    let gone : drop (at + length bytes) xs ≡ [] =
      drop_of_length-le (at + length bytes) xs (omega arith) in
    let l = length-drop n bytes in
    let t = length-take n bytes in
    let left : at + length bytes - length xs ≡ 0 + length (drop n bytes) = omega arith in
    let back : drop (at + length bytes) (xs ++ ys) ≡ drop (0 + length (drop n bytes)) ys =
      drop-append (at + length bytes) xs ys ∙ ap₂ (λ us k. us ++ drop k ys) gone left in
    let gone' : drop (at + length (take n bytes)) xs ≡ [] =
      drop_of_length-le (at + length (take n bytes)) xs (omega arith) in
    let end = drop (0 + length (drop n bytes)) ys in
    let part = take at xs ++ take n bytes in
    let whole : take at xs ++ bytes ≡ part ++ drop n bytes =
      ap (λ bs. take at xs ++ bs) (sym (take-append-drop n bytes))
      ∙ sym (append_assoc (take at xs) (take n bytes) (drop n bytes)) in
    let right : patch xs at (take n bytes) ≡ part = ap (λ us. part ++ us) gone' ∙ append-nil part in
    ap₂ (λ us vs. us ++ bytes ++ vs) front back
    ∙ ap (λ us. us ++ end) whole
    ∙ append_assoc part (drop n bytes) end
    ∙ ap (λ us. us ++ (drop n bytes ++ end)) (sym right)

patch-empty : (xs buf : List ℕ) (at : ℕ) → length buf ≡ 0 → patch xs at buf ≡ xs
patch-empty xs (b ∷ buf) at none_left = absurd (omega arith)
patch-empty xs [] at none_left =
    let here : at + 0 ≡ at = omega arith in
    ap₂ (λ us k. us ++ drop k xs) (append-nil (take at xs)) here ∙ take-append-drop at xs

-- A patch of two lists in a row, by the part of it that falls into the first.
patch-append :
    (xs ys buf : List ℕ) (at : ℕ)
    → at ≤ length xs
    → patch xs at (take (min (length xs - at) (length buf)) buf)
        ++ patch ys 0 (drop (min (length xs - at) (length buf)) buf)
      ≡ patch (xs ++ ys) at buf
patch-append xs ys buf at le =
    let n : ℕ = min (length xs - at) (length buf) in
    let d = length-drop n buf in
    elim (Bool-cases (leb (at + length buf) (length xs))) [
      | inl inside ↦
          let all : take n buf ≡ buf = take_of_length-le n buf (ground arith) in
          let kept : patch ys 0 (drop n buf) ≡ ys = patch-empty ys (drop n buf) 0 (ground arith) in
          ap₂ (λ us vs. patch xs at us ++ vs) all kept
          ∙ sym (patch-left xs ys buf at (ground arith))
      | inr across ↦ sym (patch-across xs ys buf at n (ground arith) (ground arith))
    ]

-- What the loop leaves: whole blocks, whose bytes are patched.
abbrev pub Patched : PageCache → ℕ → List ℕ → Outcome PageCache → Type 0
Patched slices at buf o =
    (left : PageCache) × (o ≡ ok left) × IsWhole left × (concat left ≡ patch (concat slices) at buf)

pub copy_in-Patched :
    (slices : PageCache) (start_offset : ℕ) (buf : List ℕ)
    → IsWhole slices
    → start_offset < block_size
    → start_offset + length buf ≤ length (concat slices)
    → Patched slices start_offset buf (copy_in slices start_offset buf)
unfolding copy_in concat
copy_in-Patched [] start_offset buf whole lt fits =
    let nothing : length buf ≡ 0 = omega arith in
    ([], ground arith, tt, sym (patch-empty [] buf start_offset nothing))
copy_in-Patched (slice ∷ slices) start_offset buf (size, whole) lt fits =
    let l = length-append slice (concat slices) in
    let n : ℕ = min (block_size - start_offset) (length buf) in
    let d = length-drop n buf in
    let t = length-take n buf in
    let (left, e, w, c) = copy_in-Patched slices 0 (drop n buf) whole (omega arith) (omega arith) in
    let m : min (length slice - start_offset) (length buf) ≡ n = omega arith in
    let joined : patch slice start_offset (take n buf) ++ patch (concat slices) 0 (drop n buf)
        ≡ patch (slice ++ concat slices) start_offset buf =
      ap (λ k. patch slice start_offset (take k buf) ++ patch (concat slices) 0 (drop k buf))
        (sym m)
      ∙ patch-append slice (concat slices) buf start_offset (omega arith) in
    elim (Bool-cases (length buf == 0)) [
      | inl nothing ↦ (
        slice ∷ slices,
        rw (nothing) refl,
        (size, whole),
        sym (patch-empty (slice ++ concat slices) buf start_offset (ground arith)),
      )
      | inr some_bytes ↦
          let within : leb (start_offset + n) (length slice) ≡ true = ground arith in
          let size' : length (patch slice start_offset (take n buf)) ≡ length slice =
            length-patch slice (take n buf) start_offset (omega arith) in
          (
            patch slice start_offset (take n buf) ∷ left,
            rw (some_bytes, within, e) refl,
            (size' ∙ size, w),
            ap (λ us. patch slice start_offset (take n buf) ++ us) c ∙ joined,
          )
    ]
