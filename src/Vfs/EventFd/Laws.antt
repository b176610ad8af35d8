-- ===== src/Vfs/EventFd/Laws.antt =====
-- The counter of an event file, for calls that no other call interrupts.
use domains.Prelude.{
  ℕ, ◌+◌, ◌-◌, ◌≤◌, ◌<◌, ◌≡◌, ◌≢◌, refl, List, [], ◌∷◌, ◌++◌, none, some, true, false, length, take,
  drop, if◌then◌else◌, ok, err, eagain, arith, take-append, length-append,
}
use domains.Vfs.EventFd.Bytes.{
  to_ne_bytes, from_ne_bytes, u64_max, from_ne_bytes-to_ne_bytes, length-to_ne_bytes,
}
use domains.Vfs.EventFd.Counter.{
  EventFd, Kernel, go, sleep, wake_all, write_check, read, write, poll,
}

-- The counter never reaches `u64::MAX`.
abbrev pub IsBounded : EventFd → Type 0
IsBounded e = e.count < u64_max

sleep-count : (k : Kernel) (e : EventFd) → (sleep k e).1.count ≡ e.count
unfolding sleep
sleep-count k e = ground arith

sleep-ne-go : (k : Kernel) (e : EventFd) (v : ℕ) → (sleep k e).0 ≢ go v
unfolding sleep
sleep-ne-go k e v = ground arith

-- A read that no other call interrupts keeps the counter below u64::MAX.
pub read-IsBounded :
    (k : Kernel) (e : EventFd) (buf : List ℕ) → IsBounded e → IsBounded (read k e buf).1
unfolding read
read-IsBounded k e buf b = ground arith

-- A write that no other call interrupts keeps the counter below u64::MAX.
pub write-IsBounded :
    (k : Kernel) (e : EventFd) (buf : List ℕ) → IsBounded e → IsBounded (write k e buf).1
unfolding write
write-IsBounded k e buf b = ground (arith, sleep-count k e, sleep-ne-go k e)

-- Waking succeeds for every task.
abbrev pub Wakes : Kernel → Type 0
Wakes k = (tid : ℕ) → k.wake_up_wait_task tid ≡ ok tt

wake_all_ok : (k : Kernel) (tids : List ℕ) → Wakes k → wake_all k tids ≡ (ok tt, [])
unfolding wake_all
wake_all_ok k [] w = refl
wake_all_ok k (tid ∷ tids) w = rw (w tid, wake_all) (wake_all_ok k tids w)

write_check_ok :
    (val : ℕ) (rest : List ℕ) → val < u64_max → write_check (to_ne_bytes val ++ rest) ≡ ok val
unfolding write_check
write_check_ok val rest h =
    let long : 8 ≤ length (to_ne_bytes val ++ rest) =
      omega (arith, length-append (to_ne_bytes val) rest, length-to_ne_bytes val) in
    let front : take 8 (to_ne_bytes val ++ rest) ≡ to_ne_bytes val =
      rw (← length-to_ne_bytes val) (take-append (to_ne_bytes val) rest) in
    let same : from_ne_bytes (to_ne_bytes val) ≡ val =
      from_ne_bytes-to_ne_bytes val (omega arith) in
    rw (front, same) (ground arith)

-- A write that fits adds its value, wakes every sleeper and empties the queue.
pub write_adds :
    (k : Kernel) (e : EventFd) (val : ℕ) (rest : List ℕ)
    → Wakes k
    → e.count + val < u64_max
    → write k e (to_ne_bytes val ++ rest)
      ≡ (ok (some 8), record e { count = e.count + val; wait_queue = [] })
unfolding write
write_adds k e val rest w h = ground (arith, write_check_ok val rest, wake_all_ok k e.wait_queue w)

-- A read of a counter that is not zero ends at once: it gives the count and resets it, or, for a
-- semaphore, gives 1 and takes 1 away.
pub read_takes :
    (k : Kernel) (e : EventFd) (buf : List ℕ)
    → IsBounded e
    → e.count ≢ 0
    → 8 ≤ length buf
    → read k e buf ≡ (
        if e.semaphore
        then (ok (some (to_ne_bytes 1 ++ drop 8 buf, 8)), record e { count = e.count - 1 })
        else (ok (some (to_ne_bytes e.count ++ drop 8 buf, 8)), record e { count = 0 }))
unfolding read
read_takes k e buf b h len = ground arith

-- What is written is read: where waking succeeds, on a counter that is no semaphore, a read of at
-- least eight bytes that follows a write of a value that fits gives the old count and the value,
-- added up, if the sum is not zero.
pub read-write :
    (k : Kernel) (e : EventFd) (val : ℕ) (rest buf : List ℕ)
    → Wakes k
    → e.semaphore ≡ false
    → e.count + val < u64_max
    → e.count + val ≢ 0
    → 8 ≤ length buf
    → (read k (write k e (to_ne_bytes val ++ rest)).1 buf).0
      ≡ ok (some (to_ne_bytes (e.count + val) ++ drop 8 buf, 8))
read-write k e val rest buf w plain fits pos len = rw (write_adds k e val rest w fits) (
    ground
      (arith, read_takes k (record e { count = e.count + val; wait_queue = [] }) buf fits pos len))

-- A write of a value below u64::MAX that does not fit fails with EAGAIN on a non-blocking counter,
-- and else puts the caller at the end of the queue; the count stays as it is.
pub write_full :
    (k : Kernel) (e : EventFd) (val tid : ℕ) (rest : List ℕ)
    → val < u64_max
    → u64_max ≤ e.count + val
    → k.current_tid ≡ ok (some tid)
    → k.wait_now ≡ ok tt
    → write k e (to_ne_bytes val ++ rest) ≡ (
        if e.nonblock
        then (err eagain, e)
        else (ok none, record e { wait_queue = e.wait_queue ++ (tid ∷ []) }))
unfolding write sleep
write_full k e val tid rest h full t w = ground (arith, write_check_ok val rest)

-- On a non-blocking counter at u64::MAX - 1, poll shows OUT though every write of a value other
-- than 0 and below u64::MAX fails with EAGAIN.
pub poll_out_full :
    (k : Kernel) (e : EventFd) (val : ℕ) (rest : List ℕ)
    → e.count + 1 ≡ u64_max
    → e.nonblock ≡ true
    → 0 < val
    → val < u64_max
    → ((poll e (true, true)).1 ≡ true) × (write k e (to_ne_bytes val ++ rest) ≡ (err eagain, e))
unfolding write poll
poll_out_full k e val rest c nb pos h = ground (arith, write_check_ok val rest h)

-- A read of a counter that is not zero leaves the queue of sleepers as it is, also where it makes
-- room for a writer that sleeps there.
pub read_wakes_nobody :
    (k : Kernel) (e : EventFd) (buf : List ℕ)
    → e.count ≢ 0
    → (read k e buf).1.wait_queue ≡ e.wait_queue
unfolding read
read_wakes_nobody k e buf h = ground arith
