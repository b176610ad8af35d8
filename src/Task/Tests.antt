-- ===== src/Task/Tests.antt =====
-- Slot vectors, descriptors and futex queues on concrete values, and the claims at them.
use domains.Prelude.{
  ℕ, ◌+◌, ◌-◌, ◌%◌, ◌≡◌, ◌≢◌, refl, List, [], ◌∷◌, Option, none, some, false, length, take, drop,
  ◌&&◌, ◌++◌, min, Outcome, ok, ◌>>=◌, unwrap, arith, if◌then◌else◌, ◌==◌, position,
}
use domains.Task.SlotVec.Defs
use domains.Task.SlotVec.Defs.{SlotVec}
use domains.Task.SlotVec.Count.{IsCounted}
use domains.Task.SlotVec.Slots.{Put, Put-total, put_at_lem, remove_lem, length-iter}
use domains.Task.Fd.Calls.{FdManager, get_file, do_pipe2, do_fcntl, dup_file, dupfd, u32_mod}
use domains.Task.Fd.Table.{Opened, do_pipe2_lem}
use domains.Prelude.Map.{lookup}
use domains.Task.Futex.Queue.{FutexWaiter, FutexMap, entry, wake, requeue, new_waiter}
use domains.Task.Futex.Wake.{matching, others, tids_of, wake_lem}
use domains.Task.Futex.Call.{Caller, u32_max, futex_wait, futex, futex_requeue_private}
use domains.Task.Futex.Protocol.{Requeued, futex_requeue_conserves, futex_wait_lem}
use domains.Task.Futex.Requeue.{requeue_lem, stays}

-- Descriptors 0 and 2 are open, for the inodes 10 and 12.
abbrev table : FdManager
table = record { slots = some 10 ∷ none ∷ some 12 ∷ []; num_occupied = 2 }

lists_with_index : Defs.idxes_and_items table ≡ (0, 10) ∷ (2, 12) ∷ []
unfolding Defs.idxes_and_items Defs.items_from
lists_with_index = refl

Put-total_example : (idx : ℕ) × (v' : SlotVec ℕ) × Put table 99 idx v'
Put-total_example = Put-total table 99 refl

put_at_lem_example :
    let (old, v') = Defs.put_at table 5 99 in
    (old ≡ Defs.get table 5)
    × ((j : ℕ) → Defs.get v' j ≡ (if 5 == j then some 99 else Defs.get table j))
    × IsCounted v'
put_at_lem_example = put_at_lem table 5 99 refl

remove_lem_example :
    let (old, v') = Defs.remove table 2 in
    (old ≡ Defs.get table 2)
    × ((j : ℕ) → Defs.get v' j ≡ (if 2 == j then none else Defs.get table j))
    × IsCounted v'
remove_lem_example = remove_lem table 2 refl

length-iter_example : length (Defs.iter table) ≡ Defs.len table
length-iter_example = length-iter table refl

open_two : get_file table 2 ≡ some 12
unfolding get_file Defs.get
open_two = refl

shut_one : get_file table 1 ≡ none
unfolding get_file Defs.get
shut_one = refl

duplicates_to_lowest : (do_fcntl table 2 dupfd >>= λ out. ok out.0) ≡ ok (12, 1)
unfolding do_fcntl get_file Defs.get dup_file Defs.put position
duplicates_to_lowest = refl

-- A memory is the list of the pairs that were written to it.
abbrev write_pair : List (ℕ × (ℕ × ℕ)) → ℕ → ℕ × ℕ → Option (List (ℕ × (ℕ × ℕ)))
write_pair mem ptr pair = some ((ptr, pair) ∷ mem)

do_pipe2_lem_example :
    (r_fd w_fd : ℕ) × (fds₁ fds₂ : FdManager) × Opened table 20 r_fd fds₁
    × Opened fds₁ 21 w_fd fds₂
    × (r_fd ≢ w_fd)
    × (do_pipe2 write_pair table [] 20 21 4096 ≡ (do
      mem' ← unwrap (write_pair [] 4096 (r_fd % u32_mod, w_fd % u32_mod))
      ok (0, fds₂, mem')))
do_pipe2_lem_example = do_pipe2_lem write_pair table [] 20 21 4096 refl

abbrev waiter : ℕ → ℕ → FutexWaiter
waiter tid bitset = record {
  task = some tid;
  wait_time = none;
  timeout_flag = false;
  bitset = bitset;
}

-- Three waiters at 100, of which the second listens to other bits, and one at 200.
abbrev queues : FutexMap
queues = (100, waiter 1 1 ∷ waiter 2 2 ∷ waiter 3 3 ∷ []) ∷ (200, waiter 4 1 ∷ []) ∷ []

abbrev wakes : ℕ → Outcome (Unit {0})
wakes _ = ok tt

wake_lem_example :
    let (result, tids, m') = wake wakes queues 100 1 1 in
    (result ≡ ok (min 1 (length (matching 1 (entry queues 100)))))
    × (tids ≡ tids_of (take 1 (matching 1 (entry queues 100))))
    × (matching 1 (entry m' 100) ≡ drop 1 (matching 1 (entry queues 100)))
    × (others 1 (entry m' 100) ≡ others 1 (entry queues 100))
    × ((other : ℕ) → other ≢ 100 → entry m' other ≡ entry queues other)
unfolding entry lookup
wake_lem_example =
    wake_lem wakes (λ _. refl) queues 100 1 1 ((1, refl), ((2, refl), ((3, refl), tt)))

requeue_lem_example :
    let (n, m') = requeue queues 200 2 100 in
    let ws = entry queues 100 in
    (n ≡ min 2 (length ws))
    × (entry m' 100 ≡ take (stays 2 ws) ws)
    × (entry m' 200 ≡ entry queues 200 ++ drop (stays 2 ws) ws)
    × ((other : ℕ) → other ≢ 200 → other ≢ 100 → entry m' other ≡ entry queues other)
requeue_lem_example = requeue_lem queues 200 2 100 (λ e. ground arith)

-- Task 9 calls, and every word of its memory is 6.
abbrev caller : Caller
caller = record {
  tid = 9;
  read_value_atomic = λ _. some 6;
  read_timespec = λ _. ok 50;
  now = 1000;
  wait_now = ok tt;
  wake_up_wait_task = λ _. ok tt;
}

futex_wait_lem_example :
    let r = futex caller queues 100 (some futex_wait) 6 0 0 0 in
    let me = new_waiter 9 none false u32_max in
    (r.result ≡ ok 0)
    × ((other : ℕ)
        → entry r.waiters other ≡ (
            if (6 == 6) && (100 == other)
            then entry queues 100 ++ (me ∷ [])
            else entry queues other))
futex_wait_lem_example = futex_wait_lem caller queues 100 6 0 0 6 refl

futex_requeue_conserves_example :
    let r = futex caller queues 100 (some futex_requeue_private) 1 1 200 0 in
    (woken moved : ℕ) × (r.result ≡ ok (moved + woken))
    × (woken ≡ min 1 (length (matching u32_max (entry queues 100))))
    × (moved ≡ min 1 (length (entry queues 100) - woken))
    × (length (entry r.waiters 100) + moved + woken ≡ length (entry queues 100))
    × (length (entry r.waiters 200) ≡ length (entry queues 200) + moved)
    × (left : List FutexWaiter) × Requeued 1 1
        (entry queues 100)
        (entry queues 200)
        left
        r.tids
        (entry r.waiters 100)
        (entry r.waiters 200)
    × ((other : ℕ) → other ≢ 100 → other ≢ 200 → entry r.waiters other ≡ entry queues other)
unfolding entry lookup
futex_requeue_conserves_example =
    futex_requeue_conserves caller queues 100 1 1 200 0 (λ _. refl)
      ((1, refl), ((2, refl), ((3, refl), tt))) (λ e. ground arith)
