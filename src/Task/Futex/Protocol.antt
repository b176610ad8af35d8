-- ===== src/Task/Futex/Protocol.antt =====
-- Waiting and waking through the futex call.
use domains.Prelude.{
  ◌&&◌, ◌>>=◌, ℕ, ◌+◌, ◌≡◌, ◌≢◌, refl, ap, ◌∙◌, List, [], ◌∷◌, ◌++◌, none, some, false, ◌==◌,
  if◌then◌else◌, ok, err, eagain, arith, length, take, drop, ◌-◌, All, min, length-drop,
  length-take, length-append,
}
use domains.Task.Futex.Queue.{FutexWaiter, FutexMap, new_waiter, add_waiter, wake, requeue, entry}
use domains.Task.Futex.Entries.{entry-insert}
use domains.Task.Futex.Wake.{HasTask, wake_lem, matching, others, tids_of}
use domains.Task.Futex.Requeue.{requeue_lem, stays}
use domains.Task.Futex.Call.{
  Caller, u32_max, futex, wake_requeue, futex_wait, futex_requeue_private,
}

-- A futex wait without a time limit, on a word that can be read: if the word has changed it fails
-- with EAGAIN and changes no queue; if the word still holds the value, the caller joins the end of
-- the queue of the word, no other queue changes, and the answer is 0 once the scheduler lets the
-- caller go on.
pub futex_wait_lem :
    (c : Caller) (m : FutexMap) (uaddr val uaddr2 val3 u_value : ℕ)
    → c.read_value_atomic uaddr ≡ some u_value
    → let r = futex c m uaddr (some futex_wait) val 0 uaddr2 val3 in
      let me = new_waiter c.tid none false u32_max in
      (r.result ≡ (if u_value == val then c.wait_now >>= (λ _. ok 0) else err eagain))
      × ((other : ℕ)
          → entry r.waiters other ≡ (
              if (u_value == val) && (uaddr == other)
              then entry m uaddr ++ (me ∷ [])
              else entry m other))
unfolding futex add_waiter
futex_wait_lem c m uaddr val uaddr2 val3 u_value reads =
    let me = new_waiter c.tid none false u32_max in
    (
      ground arith,
      (λ other. ground (arith, entry-insert m uaddr other (entry m uaddr ++ (me ∷ [])))),
    )

length-matching-others :
    (bitset : ℕ) (ws : List FutexWaiter)
    → length (matching bitset ws) + length (others bitset ws) ≡ length ws
unfolding matching others
length-matching-others bitset [] = omega arith
length-matching-others bitset (w ∷ ws) = ground (arith, length-matching-others bitset ws)

-- A wake makes a queue shorter by as many waiters as it reports.
length-wake :
    (c : Caller) (m : FutexMap) (futex_ num : ℕ)
    → ((tid : ℕ) → c.wake_up_wait_task tid ≡ ok tt)
    → All HasTask (entry m futex_)
    → let (_, _, m') = wake c.wake_up_wait_task m futex_ num u32_max in
      length (entry m' futex_) + min num (length (matching u32_max (entry m futex_)))
      ≡ length (entry m futex_)
length-wake c m futex_ num wakes h =
    let w = wake_lem c.wake_up_wait_task wakes m futex_ num u32_max h in
    let m' = (wake c.wake_up_wait_task m futex_ num u32_max).2 in
    omega (
      arith,
      length-matching-others u32_max (entry m futex_),
      length-matching-others u32_max (entry m' futex_),
      ap length w.2,
      ap length w.3,
      length-drop num (matching u32_max (entry m futex_)),
    )

wake_requeue_ok :
    (c : Caller) (m : FutexMap) (uaddr val val2 uaddr2 : ℕ) {res : ℕ}
    → (wake c.wake_up_wait_task m uaddr val u32_max).0 ≡ ok res
    → wake_requeue c m uaddr val val2 uaddr2 ≡ (
        let (_, tids, m') = wake c.wake_up_wait_task m uaddr val u32_max in
        let (res2, m'') = requeue m' uaddr2 val2 uaddr in
        record { result = ok (res2 + res); tids = tids; waiters = m'' })
unfolding wake_requeue
wake_requeue_ok c m uaddr val val2 uaddr2 e = rw (e, wake_requeue)

-- What a requeue call leaves of the queue that it is called on, `left` by its wakes.
pub record Requeued (val val2 : ℕ) (ws ws2 left : List FutexWaiter) (tids : List ℕ)
    (from to : List FutexWaiter) : Type 0 where
  pub woken : tids ≡ tids_of (take val (matching u32_max ws))
  pub waiting : matching u32_max left ≡ drop val (matching u32_max ws)
  pub untouched : others u32_max left ≡ others u32_max ws
  pub stay : from ≡ take (stays val2 left) left
  pub moved : to ≡ ws2 ++ drop (stays val2 left) left

-- A requeue call to another futex, where every wake of a task succeeds and every waiter has its
-- task, loses no waiter: it wakes, in the order in which they came, the first val of the waiters
-- that a plain wake addresses, and no other; of the queue that this leaves, in which every other
-- waiter is, the last val2 move in order to the end of the other queue and the rest stay; it
-- answers with the sum of the two numbers, the lengths of the two queues change by just those, and
-- every third futex keeps its queue.
pub futex_requeue_conserves :
    (c : Caller) (m : FutexMap) (uaddr val val2 uaddr2 val3 : ℕ)
    → ((tid : ℕ) → c.wake_up_wait_task tid ≡ ok tt)
    → All HasTask (entry m uaddr)
    → uaddr2 ≢ uaddr
    → let r = futex c m uaddr (some futex_requeue_private) val val2 uaddr2 val3 in
      let ws = entry m uaddr in
      (woken moved : ℕ) × (r.result ≡ ok (moved + woken))
      × (woken ≡ min val (length (matching u32_max ws)))
      × (moved ≡ min val2 (length ws - woken))
      × (length (entry r.waiters uaddr) + moved + woken ≡ length ws)
      × (length (entry r.waiters uaddr2) ≡ length (entry m uaddr2) + moved)
      × (left : List FutexWaiter) × Requeued val val2 ws
          (entry m uaddr2)
          left
          r.tids
          (entry r.waiters uaddr)
          (entry r.waiters uaddr2)
      × ((other : ℕ) → other ≢ uaddr → other ≢ uaddr2 → entry r.waiters other ≡ entry m other)
unfolding futex
futex_requeue_conserves c m uaddr val val2 uaddr2 val3 wakes h ne =
    let w = wake_lem c.wake_up_wait_task wakes m uaddr val u32_max h in
    let m' = (wake c.wake_up_wait_task m uaddr val u32_max).2 in
    let q = requeue_lem m' uaddr2 val2 uaddr ne in
    let ws = entry m' uaddr in
    let shorter = length-wake c m uaddr val wakes h in
    let front = ap length q.1 ∙ length-take (stays val2 ws) ws in
    let back = ap length q.2 ∙ length-append (entry m' uaddr2) (drop (stays val2 ws) ws) in
    let kept = ap length (w.4 uaddr2 ne) in
    let cut = length-drop (stays val2 ws) ws in
    rw (wake_requeue_ok c m uaddr val val2 uaddr2 w.0) (
      min val (length (matching u32_max (entry m uaddr))),
      min val2 (length ws),
      ap ok (ap (λ k. k + min val (length (matching u32_max (entry m uaddr)))) q.0),
      refl,
      omega (arith, shorter),
      omega (arith, front, shorter),
      omega (arith, back, kept, cut),
      ws,
      record {
        woken = w.1;
        waiting = w.2;
        untouched = w.3;
        stay = q.1;
        moved = q.2 ∙ ap (λ (to : List FutexWaiter). to ++ drop (stays val2 ws) ws) (w.4 uaddr2 ne);
      },
      λ other from to. q.3 other to from ∙ w.4 other from,
    )
