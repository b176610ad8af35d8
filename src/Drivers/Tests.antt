-- ===== src/Drivers/Tests.antt =====
-- A page of two blocks.
use domains.Prelude.{
  ℕ, ◌≡◌, ◌≤◌, ◌+◌, refl, List, [], ◌∷◌, replicate, take, drop, length, ok, arith,
}
use domains.Drivers.CacheBlk.Page.{PageCache, copy_to, copy_from, patch}
use domains.Drivers.CacheBlk.Flat.{concat, IsWhole, copy_to_lem}
use domains.Drivers.CacheBlk.Laws.{copy_from_lem}

abbrev two_blocks : PageCache
two_blocks = replicate 512 7 ∷ replicate 512 8 ∷ []

fits : 510 + 4 ≤ length (concat two_blocks)
unfolding concat
fits = omega arith

copy_to_lem_example : copy_to two_blocks 510 4 ≡ ok (take 4 (drop 510 (concat two_blocks)))
copy_to_lem_example = copy_to_lem two_blocks 510 4 (refl, (refl, tt)) fits

abbrev four : List ℕ
four = 1 ∷ 2 ∷ 3 ∷ 4 ∷ []

copy_from_lem_example :
    (page' : PageCache) × (copy_from two_blocks 510 four ≡ ok page')
    × IsWhole page'
    × (concat page' ≡ patch (concat two_blocks) 510 four)
    × (copy_to page' 510 4 ≡ ok four)
copy_from_lem_example = copy_from_lem two_blocks 510 four (refl, (refl, tt)) fits
