-- ===== src/Vfs/EventFd/Bytes.antt =====
-- `u64::to_ne_bytes` and `from_ne_bytes` on the two targets, which are little-endian.
use domains.Prelude.{
  ℕ, zero, suc, ◌+◌, ◌*◌, ◌/◌, ◌%◌, ◌^◌, ◌-◌, ◌<◌, ◌≡◌, refl, List, [], ◌∷◌, length, arith,
}

-- The lowest `n` bytes of a number, lowest first.
unfoldable pub to_bytes : ℕ → ℕ → List ℕ
to_bytes zero v = []
to_bytes (suc n) v = (v % 256) ∷ to_bytes n (v / 256)

unfoldable pub from_bytes : List ℕ → ℕ
from_bytes [] = 0
from_bytes (b ∷ bs) = b + 256 * from_bytes bs

abbrev pub u64_mod : ℕ
u64_mod = 2 ^ 64

-- `u64::MAX`
abbrev pub u64_max : ℕ
u64_max = 2 ^ 64 - 1

unfoldable pub to_ne_bytes : ℕ → List ℕ
unfolding to_bytes
to_ne_bytes v = to_bytes 8 v

unfoldable pub from_ne_bytes : List ℕ → ℕ
unfolding from_bytes
from_ne_bytes bs = from_bytes bs

pub length-to_ne_bytes : (v : ℕ) → length (to_ne_bytes v) ≡ 8
unfolding to_ne_bytes
length-to_ne_bytes v = refl

pub from_ne_bytes-to_ne_bytes : (v : ℕ) → v < u64_mod → from_ne_bytes (to_ne_bytes v) ≡ v
unfolding from_ne_bytes to_ne_bytes
from_ne_bytes-to_ne_bytes v h = omega arith
