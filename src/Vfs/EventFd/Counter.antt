-- ===== src/Vfs/EventFd/Counter.antt =====
-- `EventFd` and `EventFdInode` of common/vfs/vfs/src/eventfd.rs. The calls look at the counter under
-- one lock and change it under a later one, so each is a check and a commit. What the crate `basic`
-- answers (`current_tid`, `wait_now`, `wake_up_wait_task`) is a parameter.
use domains.Prelude.{
  ℕ, ◌+◌, ◌-◌, ◌%◌, List, [], ◌∷◌, ◌++◌, Option, none, some, Bool, not, ◌&&◌, length, take, drop,
  ltb, ◌==◌, if◌then◌else◌, Outcome, ok, err, panic, ◌>>=◌, unwrap, eagain, einval,
}
use domains.Vfs.EventFd.Bytes.{to_ne_bytes, from_ne_bytes, u64_mod, u64_max}

-- `EventFdInode`, with the two flags that `EventFd::flags` is asked for.
pub record EventFd : Type 0 where
  pub count : ℕ
  pub nonblock : Bool
  pub semaphore : Bool
  pub wait_queue : List ℕ

pub record Kernel : Type 0 where
  pub current_tid : Outcome (Option ℕ)
  pub wait_now : Outcome (Unit {0})
  pub wake_up_wait_task : ℕ → Outcome (Unit {0})

-- The end of one look at the counter: go on with a value, give up, or sleep and look again.
pub data Look : Type 0 where
  go : ℕ → Look
  stop : Outcome ℕ → Look
  again : Look

module _ (k : Kernel) where
  -- `push_back` of the caller's tid, then `wait_now`.
  unfoldable pub sleep : EventFd → Look × EventFd
  sleep e = elim (k.current_tid >>= unwrap) [
    | ok tid ↦
        let queued = record e { wait_queue = e.wait_queue ++ (tid ∷ []) } in
        elim k.wait_now [
          | ok _ ↦ (again, queued)
          | err x ↦ (stop (err x), queued)
          | panic ↦ (stop panic, queued)
        ]
    | err x ↦ (stop (err x), e)
    | panic ↦ (stop panic, e)
  ]

  -- A round of the loop of `read`, for a buffer of at least eight bytes.
  unfoldable pub read_look : EventFd → Look × EventFd
  unfolding sleep
  read_look e =
      let asleep = sleep e in
      if not (e.count == 0)
      then (go e.count, e)
      else if e.nonblock
      then (stop (err eagain), e)
      else asleep

  -- A round of the loop of `write` of `val`.
  unfoldable pub write_look : EventFd → ℕ → Look × EventFd
  unfolding sleep
  write_look e val =
      let asleep = sleep e in
      if ltb val (u64_max - e.count)
      then (go val, e)
      else if e.nonblock
      then (stop (err eagain), e)
      else asleep

  -- `while let Some(tid) = wait_queue.pop_front() { wake_up_wait_task(tid)?; }`
  unfoldable pub wake_all : List ℕ → Outcome (Unit {0}) × List ℕ
  wake_all [] = (ok tt, [])
  wake_all (tid ∷ tids) = elim (k.wake_up_wait_task tid) [
    | ok _ ↦ wake_all tids
    | err x ↦ (err x, tids)
    | panic ↦ (panic, tids)
  ]

-- What `read` does once it has seen `val` in the counter: the bytes for the user, and the state.
-- A release build wraps where the counter has become 0 in between.
unfoldable pub read_commit : EventFd → ℕ → List ℕ → List ℕ × ℕ × EventFd
read_commit e val buf =
    if e.semaphore
    then (to_ne_bytes 1 ++ drop 8 buf, 8, record e { count = (e.count + u64_mod - 1) % u64_mod })
    else (to_ne_bytes val ++ drop 8 buf, 8, record e { count = 0 })

-- What `write` does once it has seen that `val` fits.
unfoldable pub write_commit : Kernel → EventFd → ℕ → Outcome ℕ × EventFd
unfolding wake_all
write_commit k e val =
    let (woken, rest) = wake_all k e.wait_queue in
    (woken >>= (λ _. ok 8), record e { count = (e.count + val) % u64_mod; wait_queue = rest })

-- The checks of the arguments that precede the loops.
unfoldable pub read_check : List ℕ → Outcome (Unit {0})
read_check buf = if ltb (length buf) 8 then err einval else ok tt

unfoldable pub write_check : List ℕ → Outcome ℕ
write_check buf =
    if ltb (length buf) 8
    then err einval
    else (let val = from_ne_bytes (take 8 buf) in if val == u64_max then err einval else ok val)

-- How `read` goes on after a look; `ok none` is a caller that sleeps.
unfoldable pub read_on : Look → EventFd → List ℕ → Outcome (Option (List ℕ × ℕ)) × EventFd
unfolding read_commit
read_on (go val) e buf = let (bytes, n, e') = read_commit e val buf in (ok (some (bytes, n)), e')
read_on (stop o) e buf = (o >>= (λ _. ok none), e)
read_on again e buf = (ok none, e)

-- `read` by a caller whom no other call interrupts.
unfoldable pub read : Kernel → EventFd → List ℕ → Outcome (Option (List ℕ × ℕ)) × EventFd
unfolding read_look read_on read_check
read k e buf = elim (read_check buf) [
  | ok _ ↦ let (look, e') = read_look k e in read_on look e' buf
  | err x ↦ (err x, e)
  | panic ↦ (panic, e)
]

-- How `write` goes on after a look.
unfoldable pub write_on : Kernel → Look → EventFd → Outcome (Option ℕ) × EventFd
unfolding write_commit
write_on k (go val) e = let (o, e') = write_commit k e val in (o >>= (λ n. ok (some n)), e')
write_on k (stop o) e = (o >>= (λ _. ok none), e)
write_on k again e = (ok none, e)

-- `write` by a caller whom no other call interrupts.
unfoldable pub write : Kernel → EventFd → List ℕ → Outcome (Option ℕ) × EventFd
unfolding write_look write_on write_check
write k e buf = elim (write_check buf) [
  | ok val ↦ let (look, e') = write_look k e val in write_on k look e'
  | err x ↦ (err x, e)
  | panic ↦ (panic, e)
]

-- `poll`, by the two events that it can show.
unfoldable pub poll : EventFd → Bool × Bool → Bool × Bool
poll e (epollin, epollout) = (not (e.count == 0) && epollin, not (e.count == u64_max) && epollout)

-- `eventfd`: `init_val` is a `u32`.
unfoldable pub eventfd : ℕ → Bool → Bool → EventFd
eventfd init_val nonblock semaphore = record {
  count = init_val;
  nonblock = nonblock;
  semaphore = semaphore;
  wait_queue = [];
}
