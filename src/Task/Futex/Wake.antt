-- ===== src/Task/Futex/Wake.antt =====
-- Which waiters a wake takes, in which order, and what it leaves behind.
use domains.Prelude.{
  ℕ, zero, suc, ◌≡◌, ◌≢◌, refl, ap, List, [], ◌∷◌, none, some, true, false, length, take, drop,
  if◌then◌else◌, min, Outcome, ok, err, panic, AlienError, arith, Bool-cases, inl, inr, All,
  take-nil, drop-nil,
}
use domains.Prelude.Map.{lookup, insert, lookup-insert}
use domains.Prelude.{Option-cases}
use domains.Task.Futex.Entries.{entry-insert, entry-none, entry-some}
use domains.Task.Futex.Queue.{
  FutexWaiter, FutexMap, Woken, wants, keep, count_one, wake_one, wake_list, wake, entry,
}

-- The waiters of a queue that a bitset addresses, in order, and the others.
unfoldable pub matching : ℕ → List FutexWaiter → List FutexWaiter
matching bitset [] = []
matching bitset (w ∷ ws) =
    let rest = matching bitset ws in if wants w bitset then w ∷ rest else rest

unfoldable pub others : ℕ → List FutexWaiter → List FutexWaiter
others bitset [] = []
others bitset (w ∷ ws) = let rest = others bitset ws in if wants w bitset then rest else w ∷ rest

unfoldable pub tids_of : List FutexWaiter → List ℕ
tids_of [] = []
tids_of (w ∷ ws) = elim w.task [ none ↦ tids_of ws | some tid ↦ tid ∷ tids_of ws ]

-- Every waiter of a queue still has its task: the state that the calls keep as long as no wake fails.
abbrev pub HasTask : FutexWaiter → Type 0
HasTask w = (tid : ℕ) × (w.task ≡ some tid)

-- What a wake of at most `num` waiters does to a queue.
pub record WakesFirst (num bitset : ℕ) (ws : List FutexWaiter) (r : Woken) : Type 0 where
  pub counted : r.result ≡ ok (min num (length (matching bitset ws)))
  pub woken : r.tids ≡ tids_of (take num (matching bitset ws))
  pub left : matching bitset r.queue ≡ drop num (matching bitset ws)
  pub untouched : others bitset r.queue ≡ others bitset ws
  pub alive : All HasTask r.queue

wake-some :
    (wake_up : ℕ → Outcome (Unit {0})) (m : FutexMap) (futex num bitset : ℕ) {ws : List FutexWaiter}
    → lookup futex m ≡ some ws
    → wake wake_up m futex num bitset
      ≡ (let r = wake_list wake_up num bitset ws in (r.result, r.tids, insert futex r.queue m))
unfolding wake
wake-some wake_up m futex num bitset e = rw (e, wake)

module _ (wake_up : ℕ → Outcome (Unit {0})) (wakes : (tid : ℕ) → wake_up tid ≡ ok tt) where
  step_hit :
      (num bitset : ℕ) (w : FutexWaiter) (ws : List FutexWaiter) (r : Woken)
      → HasTask w
      → wants w bitset ≡ true
      → WakesFirst num bitset ws r
      → WakesFirst (suc num) bitset (w ∷ ws) (wake_one wake_up w ws r)
  unfolding wake_one matching others tids_of
  step_hit num bitset w ws r (tid, has) hit h =
      let one : wake_one wake_up w ws r
          ≡ record r { result = count_one tid r.result; tids = tid ∷ r.tids } =
        rw (has, wakes tid, wake_one) in
      rw one (record {
        counted = ground (arith, h.counted);
        woken = ground (arith, h.woken);
        left = ground (arith, h.left);
        untouched = ground (arith, h.untouched);
        alive = h.alive;
      })

  step_miss :
      (num bitset : ℕ) (w : FutexWaiter) (ws : List FutexWaiter) (r : Woken)
      → HasTask w
      → wants w bitset ≡ false
      → WakesFirst num bitset ws r
      → WakesFirst num bitset (w ∷ ws) (keep w r)
  unfolding keep matching others
  step_miss num bitset w ws r has miss h = record {
    counted = rw miss h.counted;
    woken = rw miss h.woken;
    left = rw miss h.left;
    untouched = rw miss (ap (◌∷◌ w) h.untouched);
    alive = (has, h.alive);
  }

  wake_list-WakesFirst :
      (num bitset : ℕ) (ws : List FutexWaiter)
      → All HasTask ws
      → WakesFirst num bitset ws (wake_list wake_up num bitset ws)
  unfolding wake_list
  wake_list-WakesFirst num bitset [] h =
      unfold matching tids_of in
      record {
        counted = ground arith;
        woken = ground (arith, take-nil FutexWaiter num);
        left = ground (arith, drop-nil FutexWaiter num);
        untouched = refl;
        alive = tt;
      }
  wake_list-WakesFirst zero bitset (w ∷ ws) h = record {
    counted = ground arith;
    woken = unfold tids_of in refl;
    left = refl;
    untouched = refl;
    alive = h;
  }
  wake_list-WakesFirst (suc num) bitset (w ∷ ws) h = elim (Bool-cases (wants w bitset)) [
    | inl hit ↦
        rw (hit, wake_list)
          (step_hit num bitset w ws _ h.0 hit (wake_list-WakesFirst num bitset ws h.1))
    | inr miss ↦
        rw (miss, wake_list)
          (step_miss (suc num) bitset w ws _ h.0 miss
            (wake_list-WakesFirst (suc num) bitset ws h.1))
  ]

  wake-none :
      (m : FutexMap) (futex num bitset : ℕ)
      → lookup futex m ≡ none
      → wake wake_up m futex num bitset ≡ (ok 0, [], m)
  unfolding wake
  wake-none m futex num bitset e = rw (e, wake)

  -- Where every wake of a task succeeds and every queued waiter has its task, a wake of at most
  -- num waiters wakes, in the order in which they came, the first waiters that the bitset
  -- addresses, gives their number, takes just those out of the queue, and leaves every other futex
  -- alone.
  pub wake_lem :
      (m : FutexMap) (futex num bitset : ℕ)
      → All HasTask (entry m futex)
      → let (result, tids, m') = wake wake_up m futex num bitset in
        (result ≡ ok (min num (length (matching bitset (entry m futex)))))
        × (tids ≡ tids_of (take num (matching bitset (entry m futex))))
        × (matching bitset (entry m' futex) ≡ drop num (matching bitset (entry m futex)))
        × (others bitset (entry m' futex) ≡ others bitset (entry m futex))
        × ((other : ℕ) → other ≢ futex → entry m' other ≡ entry m other)
  wake_lem m futex num bitset h = elim (Option-cases (lookup futex m)) [
    | inl e ↦
        rw (wake-none m futex num bitset e, entry-none m futex e)
          (unfold matching others tids_of in
            (
              ground arith,
              ground (arith, take-nil FutexWaiter num),
              ground (arith, drop-nil FutexWaiter num),
              refl,
              λ other ne. refl,
            ))
    | inr (ws, e) ↦
        let r = wake_list wake_up num bitset ws in
        let w = wake_list-WakesFirst num bitset ws (rw (entry-some m futex e) at h) in
        rw (wake-some wake_up m futex num bitset e, entry-some m futex e)
          (
            w.counted,
            w.woken,
            ground (arith, w.left, entry-insert m futex futex r.queue),
            ground (arith, w.untouched, entry-insert m futex futex r.queue),
            λ other ne. ground (arith, entry-insert m futex other r.queue),
          )
  ]

failed_list :
    (wake_up : ℕ → Outcome (Unit {0})) (num bitset tid : ℕ) (e : AlienError) (w : FutexWaiter)
    (ws : List FutexWaiter)
    → w.task ≡ some tid
    → wants w bitset ≡ true
    → wake_up tid ≡ err e
    → wake_list wake_up (suc num) bitset (w ∷ ws)
      ≡ record { result = err e; tids = tid ∷ []; queue = (record w { task = none }) ∷ ws }
unfolding wake_list
failed_list wake_up num bitset tid e w ws has hit fails = ground (arith, fails)

stuck_list :
    (wake_up : ℕ → Outcome (Unit {0})) (num bitset : ℕ) (w : FutexWaiter) (ws : List FutexWaiter)
    → w.task ≡ none
    → wants w bitset ≡ true
    → wake_list wake_up (suc num) bitset (w ∷ ws)
      ≡ record { result = panic; tids = []; queue = w ∷ ws }
unfolding wake_list
stuck_list wake_up num bitset w ws has hit = ground arith

-- Where the first waiter is addressed and its task cannot be woken, the wake reports the error and
-- leaves the waiter in the queue without its task, and the next wake that reaches it panics.
pub failed_wake_panics :
    (wake_up : ℕ → Outcome (Unit {0})) (m : FutexMap) (futex num bitset tid : ℕ) (e : AlienError)
    (w : FutexWaiter) (ws : List FutexWaiter)
    → lookup futex m ≡ some (w ∷ ws)
    → w.task ≡ some tid
    → wants w bitset ≡ true
    → wake_up tid ≡ err e
    → let (first, _, m') = wake wake_up m futex (suc num) bitset in
      (first ≡ err e)
      × ((wake_up' : ℕ → Outcome (Unit {0})) → (wake wake_up' m' futex (suc num) bitset).0 ≡ panic)
failed_wake_panics wake_up m futex num bitset tid e w ws queued has hit fails =
    let stuck = record w { task = none } in
    let again : lookup futex (insert futex (stuck ∷ ws) m) ≡ some (stuck ∷ ws) =
      ground (arith, lookup-insert futex futex (stuck ∷ ws) m) in
    rw
      (
        wake-some wake_up m futex (suc num) bitset queued,
        failed_list wake_up num bitset tid e w ws has hit fails,
      )
      (
        refl,
        λ wake_up'.
            rw
              (
                wake-some wake_up' (insert futex (stuck ∷ ws) m) futex (suc num) bitset again,
                stuck_list wake_up' num bitset stuck ws refl (unfold wants in hit),
              )
              refl,
      )
