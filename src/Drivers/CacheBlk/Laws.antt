-- ===== src/Drivers/CacheBlk/Laws.antt =====
-- What `copy_from` writes, and that `copy_to` reads it again.
use domains.Prelude.{
  ℕ, ◌≡◌, refl, sym, ap, ap₂, ◌∙◌, zero, suc, ◌+◌, ◌-◌, ◌*◌, ◌/◌, ◌%◌, ◌≤◌, List, [], ◌∷◌, ◌++◌,
  length, take, drop, ok, arith, length-drop, length-take, drop_of_length-le, take_of_length-le,
  take-append, take-nil,
}
use mathlib.Core.List.{append_assoc}
use domains.Drivers.CacheBlk.Page.{PageCache, block_size, copy_to, patch, copy_from}
use domains.Drivers.CacheBlk.Flat.{
  concat, IsWhole, drop-append, take-split, drop-concat, drop-IsWhole, drop-drop, copy_to_lem,
}
use domains.Drivers.CacheBlk.Written.{copy_in-Patched, length-patch}

take-add : (a b : ℕ) (xs : List ℕ) → take (a + b) xs ≡ take a xs ++ take b (drop a xs)
take-add zero b xs = let e : 0 + b ≡ b = omega arith in ap (λ k. take k xs) e
take-add (suc a) b [] = take-nil ℕ (suc a + b) ∙ sym (take-nil ℕ b)
take-add (suc a) b (x ∷ xs) =
    let e : suc a + b ≡ suc (a + b) = omega arith in
    ap (λ k. take k (x ∷ xs)) e ∙ ap (◌∷◌ x) (take-add a b xs)

-- A patch of what lies behind `b` bytes.
patch-drop :
    (b at : ℕ) (xs buf : List ℕ) → take b xs ++ patch (drop b xs) at buf ≡ patch xs (b + at) buf
patch-drop b at xs buf =
    let e : b + (at + length buf) ≡ b + at + length buf = omega arith in
    let back = drop-drop (at + length buf) b xs ∙ ap (λ k. drop k xs) e in
    sym (append_assoc (take b xs) (take at (drop b xs) ++ buf) (drop (at + length buf) (drop b xs)))
    ∙ ap₂ (λ us vs. us ++ vs) (sym (append_assoc (take b xs) (take at (drop b xs)) buf)) back
    ∙ ap (λ us. us ++ buf ++ drop (b + at + length buf) xs) (sym (take-add b at xs))

concat-append : (xs ys : PageCache) → concat (xs ++ ys) ≡ concat xs ++ concat ys
unfolding concat
concat-append [] ys = refl
concat-append (x ∷ xs) ys =
    ap (λ us. x ++ us) (concat-append xs ys) ∙ sym (append_assoc x (concat xs) (concat ys))

take-concat :
    (k : ℕ) (page : PageCache)
    → IsWhole page
    → concat (take k page) ≡ take (k * block_size) (concat page)
unfolding concat
take-concat zero page whole = refl
take-concat (suc k) [] whole = sym (take-nil ℕ (suc k * block_size))
take-concat (suc k) (slice ∷ page) (size, whole) =
    let all : take (suc k * block_size) slice ≡ slice =
      take_of_length-le (suc k * block_size) slice (omega arith) in
    let left : suc k * block_size - length slice ≡ k * block_size = omega arith in
    ap (λ us. slice ++ us) (take-concat k page whole)
    ∙ sym (
        take-split (suc k * block_size) slice (concat page)
        ∙ ap₂ (λ us n. us ++ take n (concat page)) all left)

take-IsWhole : (k : ℕ) (xs ys : PageCache) → IsWhole xs → IsWhole ys → IsWhole (take k xs ++ ys)
take-IsWhole zero xs ys h g = g
take-IsWhole (suc k) [] ys h g = g
take-IsWhole (suc k) (x ∷ xs) ys (size, h) g = (size, take-IsWhole k xs ys h g)

-- A slice of the bytes that were just put there.
read_patched :
    (xs buf : List ℕ) (at : ℕ)
    → at ≤ length xs
    → take (length buf) (drop at (patch xs at buf)) ≡ buf
read_patched xs buf at le =
    let end = drop (at + length buf) xs in
    let l = length-take at xs in
    let gone : drop at (take at xs) ≡ [] = drop_of_length-le at (take at xs) (omega arith) in
    let none_left : at - length (take at xs) ≡ 0 = omega arith in
    let behind : drop at (patch xs at buf) ≡ buf ++ end =
      ap (drop at) (append_assoc (take at xs) buf end)
      ∙ drop-append at (take at xs) (buf ++ end)
      ∙ ap₂ (λ us k. us ++ drop k (buf ++ end)) gone none_left in
    ap (take (length buf)) behind ∙ take-append buf end

-- On a page of whole blocks, a copy_from into a range that lies in the page succeeds, leaves whole
-- blocks whose bytes in a row have the buffer there and are else the same, and a copy_to of the
-- range then gives the buffer.
pub copy_from_lem :
    (page : PageCache) (offset : ℕ) (buf : List ℕ)
    → IsWhole page
    → offset + length buf ≤ length (concat page)
    → (page' : PageCache) × (copy_from page offset buf ≡ ok page')
      × IsWhole page'
      × (concat page' ≡ patch (concat page) offset buf)
      × (copy_to page' offset (length buf) ≡ ok buf)
unfolding copy_from
copy_from_lem page offset buf whole fits =
    let k : ℕ = offset / block_size in
    let at : ℕ = offset % block_size in
    let e = drop-concat k page whole in
    let l = length-drop (k * block_size) (concat page) in
    let l' : length (concat (drop k page)) ≡ length (concat page) - k * block_size =
      ap length e ∙ l in
    let back : k * block_size + at ≡ offset = omega arith in
    let (left, done, w, c) =
      copy_in-Patched (drop k page) at buf (drop-IsWhole k page whole) (omega arith)
        (omega arith) in
    let bytes : concat (take k page ++ left) ≡ patch (concat page) offset buf =
      concat-append (take k page) left
      ∙ ap₂ (λ us vs. us ++ vs) (take-concat k page whole) (c ∙ ap (λ us. patch us at buf) e)
      ∙ patch-drop (k * block_size) at (concat page) buf
      ∙ ap (λ j. patch (concat page) j buf) back in
    let w' = take-IsWhole k page left whole w in
    let size = length-patch (concat page) buf offset fits in
    let size' : length (concat (take k page ++ left)) ≡ length (concat page) =
      ap length bytes ∙ size in
    (
      take k page ++ left,
      rw (done) refl,
      w',
      bytes,
      copy_to_lem (take k page ++ left) offset (length buf) w' (omega arith)
          ∙ ap (λ us. ok (take (length buf) (drop offset us))) bytes
          ∙ ap ok (read_patched (concat page) buf offset (omega arith)),
    )
