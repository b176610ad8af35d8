-- ===== src/Task/Futex/Requeue.antt =====
-- What a requeue moves.
use domains.Prelude.{
  ℕ, zero, suc, ◌+◌, ◌-◌, ◌<◌, ◌≡◌, ◌≢◌, refl, sym, List, [], ◌∷◌, ◌++◌, none, some, false, length,
  take, drop, ◌==◌, if◌then◌else◌, min, arith, inl, inr, length-take, Option-cases,
}
use domains.Prelude.Map.{lookup, insert, remove}
use domains.Prelude.{drop_of_length-le, take_of_length-le, take-nil, drop-nil}
use mathlib.Core.List.{append-nil}
use domains.Task.Futex.Entries.{entry-insert, entry-remove, entry-none, entry-some}
use domains.Task.Futex.Queue.{FutexWaiter, FutexMap, entry, requeue, settle}

-- How many waiters of a queue stay.
abbrev pub stays : ℕ → List FutexWaiter → ℕ
stays num ws = length ws - min num (length ws)

settle_from :
    (m : FutexMap) (to from : ℕ) (left moved : List FutexWaiter)
    → to ≢ from
    → entry m from ≡ []
    → entry (settle m to from left moved) from ≡ left
unfolding settle
settle_from m to from [] moved ne e = ground (arith, entry-insert m to from (entry m to ++ moved))
settle_from m to from (w ∷ left) moved ne e =
    ground (arith, entry-insert (insert to (entry m to ++ moved) m) from from (w ∷ left))

settle_to :
    (m : FutexMap) (to from j : ℕ) (left moved : List FutexWaiter)
    → j ≢ from
    → entry (settle m to from left moved) j ≡ (if to == j then entry m to ++ moved else entry m j)
unfolding settle
settle_to m to from j [] moved ne = entry-insert m to j (entry m to ++ moved)
settle_to m to from j (w ∷ left) moved ne = ground (
  arith,
  entry-insert (insert to (entry m to ++ moved) m) from j (w ∷ left),
  entry-insert m to j (entry m to ++ moved),
)

settle_self :
    (m : FutexMap) (futex k : ℕ) (ws moved : List FutexWaiter)
    → 0 < k
    → k < length ws
    → entry (settle m futex futex (take k ws) moved) futex ≡ take k ws
unfolding settle
settle_self m futex zero ws moved p h = elim p [ ]
settle_self m futex (suc k) [] moved p h = elim h [ ]
settle_self m futex (suc k) (w ∷ ws) moved p h =
    ground
      (arith, entry-insert (insert futex (entry m futex ++ moved) m) futex futex (w ∷ take k ws))

requeue-some :
    (m : FutexMap) (to num from : ℕ) {ws : List FutexWaiter}
    → lookup from m ≡ some ws
    → num ≢ 0
    → requeue m to num from ≡ (
      min num (length ws),
      settle (remove from m) to from (take (stays num ws) ws) (drop (stays num ws) ws),
    )
unfolding requeue
requeue-some m to num from e busy =
    let test : (num == 0) ≡ false = ground arith in rw (test, e, requeue)

requeue_idle : (m : FutexMap) (to from : ℕ) → requeue m to 0 from ≡ (0, m)
unfolding requeue
requeue_idle m to from = refl

requeue-none :
    (m : FutexMap) (to num from : ℕ) → lookup from m ≡ none → requeue m to num from ≡ (0, m)
unfolding requeue
requeue-none m to num from e = ground arith

-- A requeue to another futex moves the last waiters of the queue, as many as num allows, in order
-- to the end of the other queue, gives their number, and leaves every third futex alone.
pub requeue_lem :
    (m : FutexMap) (to num from : ℕ)
    → to ≢ from
    → let (n, m') = requeue m to num from in
      let ws = entry m from in
      (n ≡ min num (length ws))
      × (entry m' from ≡ take (stays num ws) ws)
      × (entry m' to ≡ entry m to ++ drop (stays num ws) ws)
      × ((other : ℕ) → other ≢ to → other ≢ from → entry m' other ≡ entry m other)
requeue_lem m to zero from ne = rw requeue_idle (
  omega arith,
  sym (
      take_of_length-le (length (entry m from) - min 0 (length (entry m from))) (entry m from)
        (omega arith)),
  ground
      (arith, drop_of_length-le (stays 0 (entry m from)) (entry m from), append-nil (entry m to)),
  λ other n₁ n₂. refl,
)
requeue_lem m to (suc num) from ne = elim (Option-cases (lookup from m)) [
  | inl e ↦
      rw (requeue-none m to (suc num) from e, entry-none m from e)
        (
          omega arith,
          sym (take-nil FutexWaiter _),
          ground (arith, drop-nil FutexWaiter (0 - min (suc num) 0), append-nil (entry m to)),
          λ other n₁ n₂. refl,
        )
  | inr (ws, e) ↦
      rw (requeue-some m to (suc num) from e (omega arith), entry-some m from e)
        (
          refl,
          settle_from (remove from m) to from _ _ ne ground (arith, entry-remove m from from),
          ground (
            arith,
            settle_to (remove from m) to from to (take (stays (suc num) ws) ws)
                (drop (stays (suc num) ws) ws),
            entry-remove m from to,
          ),
          λ other n₁ n₂. ground (
            arith,
            settle_to (remove from m) to from other (take (stays (suc num) ws) ws)
                (drop (stays (suc num) ws) ws),
            entry-remove m from other,
          ),
        )
]

-- A requeue of a futex to itself that moves some waiters but not the whole queue loses those that
-- it counts as moved: only the others are still queued.
pub requeue_self_loses :
    (m : FutexMap) (futex num : ℕ)
    → 0 < num
    → num < length (entry m futex)
    → let (n, m') = requeue m futex num futex in
      (n ≡ num)
      × (entry m' futex ≡ take (length (entry m futex) - num) (entry m futex))
      × (length (entry m' futex) + num ≡ length (entry m futex))
requeue_self_loses m futex num pos h = elim (Option-cases (lookup futex m)) [
  | inl e ↦ ground (arith, entry-none m futex e)
  | inr (ws, e) ↦
      let shorter : num < length ws = rw (entry-some m futex e) at h in
      let least : min num (length ws) ≡ num = omega arith in
      rw (requeue-some m futex num futex e (omega arith), entry-some m futex e, least)
        (
          refl,
          settle_self (remove futex m) futex (length ws - num) ws (drop (length ws - num) ws)
              (omega arith) (omega arith),
          ground (
            arith,
            settle_self (remove futex m) futex (length ws - num) ws (drop (length ws - num) ws),
            length-take (length ws - num) ws,
          ),
        )
]
