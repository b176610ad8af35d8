-- ===== src/Task/Futex/Call.antt =====
-- The futex call, common/task/task/src/syscall/futex.rs. What it reads of the calling task's memory,
-- the clock and the scheduler are parameters.
use domains.Prelude.{
  ℕ, ◌%◌, ◌+◌, ◌-◌, ◌^◌, List, [], Option, none, some, false, not, ◌==◌, if◌then◌else◌, Outcome, ok,
  err, panic, ◌>>=◌, eagain, einval, enosys,
}
use domains.Task.Futex.Queue.{FutexMap, new_waiter, add_waiter, wake, requeue}

-- `FutexOp`, by the operations that the call handles.
pub data FutexOp : Type 0 where
  futex_wait futex_wait_private futex_wake futex_wake_private : FutexOp
  futex_cmp_requeue_pi_private futex_requeue_private : FutexOp
  futex_wait_bitset_private futex_wake_bitset_private unsupported : FutexOp

pub record Caller : Type 0 where
  pub tid : ℕ
  pub read_value_atomic : ℕ → Option ℕ
  pub read_timespec : ℕ → Outcome ℕ
  pub now : ℕ
  pub wait_now : Outcome (Unit {0})
  pub wake_up_wait_task : ℕ → Outcome (Unit {0})

-- What a call leaves: its result, the tids that it woke, and the queues.
pub record Done : Type 0 where
  pub result : Outcome ℕ
  pub tids : List ℕ
  pub waiters : FutexMap

abbrev pub u32_max : ℕ
u32_max = 2 ^ 32 - 1

abbrev pub fails : Outcome ℕ → FutexMap → Done
fails o m = record { result = o; tids = []; waiters = m }

module _ (c : Caller) where
  -- The macro `wait!` and the `Ok(0)` after the match. The flag is new and nothing sets it.
  unfoldable pub wait : FutexMap → ℕ → Option ℕ → ℕ → Done
  wait m uaddr wait_time bitset = record {
    result = c.wait_now >>= (λ _. ok 0);
    tids = [];
    waiters = add_waiter m uaddr (new_waiter c.tid wait_time false bitset);
  }

  -- `wait_time` of the two waiting operations: `now` is added by the plain one only.
  unfoldable pub deadline : ℕ → ℕ → Outcome (Option ℕ)
  deadline val2 offset =
      if val2 == 0
      then ok none
      else c.read_timespec val2 >>= (λ clock. ok (some ((clock + offset) % 2 ^ 64)))

  -- The part that the two waiting operations share.
  unfoldable pub wait_if : FutexMap → ℕ → ℕ → ℕ → ℕ → ℕ → Done
  unfolding wait deadline
  wait_if m uaddr val val2 offset bitset = elim (c.read_value_atomic uaddr) [
    | none ↦ fails panic m
    | some u_value ↦
        if not (u_value == val) then fails (err eagain) m else elim (deadline val2 offset) [
          | ok wait_time ↦ wait m uaddr wait_time bitset
          | err e ↦ fails (err e) m
          | panic ↦ fails panic m
        ]
  ]

  unfoldable pub wake_only : FutexMap → ℕ → ℕ → ℕ → Done
  wake_only m uaddr val bitset =
      let (result, tids, m') = wake c.wake_up_wait_task m uaddr val bitset in
      record { result = result; tids = tids; waiters = m' }

  -- Wake `val` waiters, then move `val2` of the others.
  unfoldable pub wake_requeue : FutexMap → ℕ → ℕ → ℕ → ℕ → Done
  wake_requeue m uaddr val val2 uaddr2 =
      let (result, tids, m') = wake c.wake_up_wait_task m uaddr val u32_max in
      elim result [
        | ok res ↦
            let (res2, m'') = requeue m' uaddr2 val2 uaddr in
            record { result = ok (res2 + res); tids = tids; waiters = m'' }
        | err e ↦ record { result = err e; tids = tids; waiters = m' }
        | panic ↦ record { result = panic; tids = tids; waiters = m' }
      ]

  unfoldable pub cmp_requeue : FutexMap → ℕ → ℕ → ℕ → ℕ → ℕ → Done
  cmp_requeue m uaddr val val2 uaddr2 val3 = elim (c.read_value_atomic uaddr) [
    | none ↦ fails panic m
    | some u_value ↦
        if not (u_value == val3) then fails (err eagain) m else wake_requeue m uaddr val val2 uaddr2
  ]

  -- `none` is a number that names no operation.
  unfoldable pub futex : FutexMap → ℕ → Option FutexOp → ℕ → ℕ → ℕ → ℕ → Done
  unfolding wait_if wake_only cmp_requeue
  futex m uaddr none val val2 uaddr2 val3 = fails (err einval) m
  futex m uaddr (some futex_wait) val val2 uaddr2 val3 = wait_if m uaddr val val2 c.now u32_max
  futex m uaddr (some futex_wait_private) val val2 uaddr2 val3 =
      wait_if m uaddr val val2 c.now u32_max
  futex m uaddr (some futex_cmp_requeue_pi_private) val val2 uaddr2 val3 =
      cmp_requeue m uaddr val val2 uaddr2 val3
  futex m uaddr (some futex_requeue_private) val val2 uaddr2 val3 =
      wake_requeue m uaddr val val2 uaddr2
  futex m uaddr (some futex_wake) val val2 uaddr2 val3 = wake_only m uaddr val u32_max
  futex m uaddr (some futex_wake_private) val val2 uaddr2 val3 = wake_only m uaddr val u32_max
  futex m uaddr (some futex_wait_bitset_private) val val2 uaddr2 val3 =
      wait_if m uaddr val val2 0 val3
  futex m uaddr (some futex_wake_bitset_private) val val2 uaddr2 val3 = wake_only m uaddr val val3
  futex m uaddr (some unsupported) val val2 uaddr2 val3 = fails (err enosys) m
