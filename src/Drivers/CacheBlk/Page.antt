-- ===== src/Drivers/CacheBlk/Page.antt =====
-- `PageCache` of drivers/cache_blk/cache_blk/src/lib.rs: a page as a list of blocks. The loops go from
-- block to block, so they recurse on the blocks from the first one on; a block that is missing or too
-- short is an index out of bounds.
use domains.Prelude.{
  ℕ, ◌+◌, ◌-◌, ◌/◌, ◌%◌, min, List, [], ◌∷◌, ◌++◌, length, take, drop, leb, if◌then◌else◌, ◌==◌,
  Outcome, ok, panic, ◌>>=◌,
}

abbrev pub PageCache : Type 0
PageCache = List (List ℕ)

abbrev pub block_size : ℕ
block_size = 512

-- The bytes that the loop of `copy_to` puts into the rest of the buffer, `len` bytes long.
unfoldable pub copy_out : PageCache → ℕ → ℕ → Outcome (List ℕ)
copy_out [] start_offset len = if len == 0 then ok [] else panic
copy_out (slice ∷ slices) start_offset len =
    let copy_len = min (block_size - start_offset) len in
    let others = copy_out slices 0 (len - copy_len) in
    if len == 0
    then ok []
    else if leb (start_offset + copy_len) (length slice)
    then others >>= (λ (bytes : List ℕ). ok (take copy_len (drop start_offset slice) ++ bytes))
    else panic

unfoldable pub copy_to : PageCache → ℕ → ℕ → Outcome (List ℕ)
copy_to page offset len = copy_out (drop (offset / block_size) page) (offset % block_size) len

-- A block with `bytes` written at `at`.
abbrev pub patch : List ℕ → ℕ → List ℕ → List ℕ
patch slice at bytes = take at slice ++ bytes ++ drop (at + length bytes) slice

-- The blocks that the loop of `copy_from` leaves.
unfoldable pub copy_in : PageCache → ℕ → List ℕ → Outcome PageCache
copy_in [] start_offset buf = if length buf == 0 then ok [] else panic
copy_in (slice ∷ slices) start_offset buf =
    let copy_len = min (block_size - start_offset) (length buf) in
    let others = copy_in slices 0 (drop copy_len buf) in
    if length buf == 0
    then ok (slice ∷ slices)
    else if leb (start_offset + copy_len) (length slice)
    then others >>= (λ (left : PageCache). ok (patch slice start_offset (take copy_len buf) ∷ left))
    else panic

unfoldable pub copy_from : PageCache → ℕ → List ℕ → Outcome PageCache
copy_from page offset buf =
    copy_in (drop (offset / block_size) page) (offset % block_size) buf
    >>= (λ (left : PageCache). ok (take (offset / block_size) page ++ left))
