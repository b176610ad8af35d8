-- ===== src/Task/Futex/Queue.antt =====
-- `FutexWaiter` and `FutexWaitManager` of common/task/task/src/futex.rs. `wake_up_wait_task` of the
-- crate `basic` is a parameter; the tids that it is called for are part of the result.
use Prim.Native.Nat.{bit_and}
use domains.Prelude.{
  ℕ, zero, suc, ◌-◌, List, [], ◌∷◌, ◌++◌, Option, none, some, Bool, true, false, not, length, take,
  drop, ◌==◌, if◌then◌else◌, min, Outcome, ok, err, panic,
}
use domains.Prelude.Map.{lookup, insert, remove}

pub record FutexWaiter : Type 0 where
  pub task : Option ℕ
  pub wait_time : Option ℕ
  pub timeout_flag : Bool
  pub bitset : ℕ

-- `FutexWaiter::new`
unfoldable pub new_waiter : ℕ → Option ℕ → Bool → ℕ → FutexWaiter
new_waiter task_tid wait_time timeout_flag bitset = record {
  task = some task_tid;
  wait_time = wait_time;
  timeout_flag = timeout_flag;
  bitset = bitset;
}

abbrev pub FutexMap : Type 0
FutexMap = List (ℕ × List FutexWaiter)

-- The queue of a futex: `entry(futex).or_insert(Vec::new())`.
unfoldable pub entry : FutexMap → ℕ → List FutexWaiter
entry m futex = elim (lookup futex m) [ none ↦ [] | some waiters ↦ waiters ]

unfoldable pub add_waiter : FutexMap → ℕ → FutexWaiter → FutexMap
unfolding entry
add_waiter m futex waiter = insert futex (entry m futex ++ (waiter ∷ [])) m

-- The test of the loop of `wake`.
unfoldable pub wants : FutexWaiter → ℕ → Bool
wants w bitset = not (bit_and w.bitset bitset == 0)

-- How a wake ends: the count, the tids that were woken in order, and the queue.
pub record Woken : Type 0 where
  pub result : Outcome ℕ
  pub tids : List ℕ
  pub queue : List FutexWaiter

unfoldable pub keep : FutexWaiter → Woken → Woken
keep w r = record r { queue = w ∷ r.queue }

unfoldable pub count_one : ℕ → Outcome ℕ → Outcome ℕ
count_one tid (ok n) = ok (suc n)
count_one tid (err e) = err e
count_one tid panic = panic

module _ (wake_up_wait_task : ℕ → Outcome (Unit {0})) where
  -- `waiters[index].wake()` takes the tid out, and `wake_up_wait_task(tid)?` comes before
  -- `waiters.remove(index)`; `rest` is what the loop does after these.
  unfoldable pub wake_one : FutexWaiter → List FutexWaiter → Woken → Woken
  unfolding count_one
  wake_one w ws rest = elim w.task [
    | none ↦ record { result = panic; tids = []; queue = w ∷ ws }
    | some tid ↦ elim (wake_up_wait_task tid) [
      | ok _ ↦ record rest { result = count_one tid rest.result; tids = tid ∷ rest.tids }
      | err e ↦ record { result = err e; tids = tid ∷ []; queue = (record w { task = none }) ∷ ws }
      | panic ↦ record { result = panic; tids = tid ∷ []; queue = (record w { task = none }) ∷ ws }
    ]
  ]

  -- The loop of `wake` from the index where `waiters[index..]` is the list, with `num` wakes left.
  unfoldable pub wake_list : ℕ → ℕ → List FutexWaiter → Woken
  unfolding wake_one keep
  wake_list num bitset [] = record { result = ok 0; tids = []; queue = [] }
  wake_list zero bitset (w ∷ ws) = record { result = ok 0; tids = []; queue = w ∷ ws }
  wake_list (suc num) bitset (w ∷ ws) = elim (wants w bitset) [
    | true ↦ wake_one w ws (wake_list num bitset ws)
    | false ↦ keep w (wake_list (suc num) bitset ws)
  ]

  unfoldable pub wake : FutexMap → ℕ → ℕ → ℕ → Outcome ℕ × List ℕ × FutexMap
  unfolding wake_list
  wake m futex num bitset = elim (lookup futex m) [
    | none ↦ (ok 0, [], m)
    | some waiters ↦
        let r = wake_list num bitset waiters in (r.result, r.tids, insert futex r.queue m)
  ]

-- The end of `requeue`: the moved waiters join the queue of the new futex, and the others, if there
-- are any, go back to the old one.
unfoldable pub settle : FutexMap → ℕ → ℕ → List FutexWaiter → List FutexWaiter → FutexMap
settle m requeue_futex old_futex left moved_waiters =
    let m' = insert requeue_futex (entry m requeue_futex ++ moved_waiters) m in
    if length left == 0 then m' else insert old_futex left m'

unfoldable pub requeue : FutexMap → ℕ → ℕ → ℕ → ℕ × FutexMap
requeue m requeue_futex num old_futex = if num == 0 then (0, m) else elim (lookup old_futex m) [
  | none ↦ (0, m)
  | some waiters ↦
      let move_count = min num (length waiters) in
      let split_index = length waiters - move_count in
      (
        move_count,
        settle (remove old_futex m) requeue_futex old_futex (take split_index waiters)
            (drop split_index waiters),
      )
]
