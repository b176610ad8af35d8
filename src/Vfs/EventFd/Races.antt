-- ===== src/Vfs/EventFd/Races.antt =====
-- Two readers of one event counter at once. Each looks at the counter under one lock and changes it
-- under a second one, so both may look before either changes it.
use domains.Prelude.{ℕ, ◌≡◌, ◌≢◌, List, ◌++◌, true, false, drop, arith}
use domains.Vfs.EventFd.Bytes.{to_ne_bytes, u64_max}
use domains.Vfs.EventFd.Counter.{EventFd, Kernel, go, read_look, read_commit}

-- The looks of two readers, then their commits.
unfoldable pub race : EventFd → ℕ → ℕ → List ℕ → List ℕ → List ℕ × List ℕ × EventFd
unfolding read_commit
race e val₁ val₂ buf₁ buf₂ =
    let (out₁, n₁, e₁) = read_commit e val₁ buf₁ in
    let (out₂, n₂, e₂) = read_commit e₁ val₂ buf₂ in (out₁, out₂, e₂)

-- On a plain counter that is not zero, two readers that both look before either commits are both
-- let through and both give the whole count to their users.
pub race_reads_twice :
    (k : Kernel) (e : EventFd) (buf₁ buf₂ : List ℕ)
    → e.count ≢ 0
    → e.semaphore ≡ false
    → (read_look k e ≡ (go e.count, e))
      × (race e e.count e.count buf₁ buf₂ ≡ (
        to_ne_bytes e.count ++ drop 8 buf₁,
        to_ne_bytes e.count ++ drop 8 buf₂,
        record e { count = 0 },
      ))
unfolding race read_look
race_reads_twice k e buf₁ buf₂ h plain = ground arith

-- On a semaphore that holds 1, two readers that both look before either commits are both let
-- through, and the counter wraps to u64::MAX.
pub race_underflow :
    (k : Kernel) (e : EventFd) (buf₁ buf₂ : List ℕ)
    → e.count ≡ 1
    → e.semaphore ≡ true
    → (read_look k e ≡ (go 1, e)) × ((race e 1 1 buf₁ buf₂).2.count ≡ u64_max)
unfolding race read_look
race_underflow k e buf₁ buf₂ h sem = ground arith
