-- ===== src/Task/Process/Exit.antt =====
-- The end of a process: `do_exit` of common/task/task/src/syscall/exit.rs. The memory of the caller,
-- the futex queues and the last call of the scheduler are its surroundings.
use domains.Prelude.{
  ℕ, ◌%◌, ◌*◌, List, [], ◌∷◌, some, ◌==◌, if◌then◌else◌, Outcome, ok, err, panic, ◌>>=◌, unwrap,
}
use domains.Prelude.Map.{insert}
use domains.Task.Futex.Queue.{FutexMap}
use domains.Task.Futex.Call.{Caller, futex, futex_wake}
use domains.Task.Process.State.{Task, System, zombie, terminated, update, current_task, remove_task}
use domains.Task.Process.Groups.{Current}

-- The loop over the children: each gets `init` as its parent, and `init` gets it as a child.
unfoldable pub adopt_one : ℕ → ℕ → ℕ → System → System
adopt_one init key child s =
    update (update s child (λ (t : Task). record t { parent = some init })) init
      (λ (t : Task). record t { children = insert key child t.children })

unfoldable pub adopt : ℕ → List (ℕ × ℕ) → System → System
adopt init [] s = s
adopt init ((key, child) ∷ children) s = adopt init children (adopt_one init key child s)

unfoldable pub leave_children : ℕ → Task → System → System
leave_children init me s =
    update (adopt init me.children s) me.tid (λ (t : Task). record t { children = [] })

-- The statuses and the code of the exiting task: `(exit_code & 0xff) << 8`, which the 32 bits of a
-- negative code give as well.
unfoldable pub end_task : ℕ → System → Task → ℕ → System
end_task init s me exit_code =
    let left = leave_children init me s in
    let coded =
      update left me.tid
        (λ (t : Task). record t { status = zombie; exit_code = exit_code % 256 * 256 }) in
    let gone = remove_task coded me.tid in
    update gone me.tid (λ (t : Task). record t { status = terminated })

pub record Surroundings {ℓ} (M : Type ℓ) : Type ℓ where
  pub caller : Caller
  pub write_val : M → ℕ → ℕ → Outcome M
  pub exit_now : Outcome (Unit {0})

-- What an exit leaves.
pub record Exited {ℓ} (M : Type ℓ) : Type ℓ where
  pub result : Outcome ℕ
  pub system : System
  pub memory : M
  pub waiters : FutexMap
  pub woken : List ℕ

module _ {ℓ} {M : Type ℓ} (w : Surroundings M) where
  -- With `clear_child_tid`: write a zero there and wake one waiter. The answer of the futex call
  -- is dropped, a panic of it is not.
  unfoldable pub clear_tid : ℕ → M → FutexMap → Outcome (M × FutexMap × List ℕ)
  clear_tid address memory waiters =
      if address == 0 then ok (memory, waiters, []) else elim (w.write_val memory address 0) [
        | ok memory' ↦
            let woke = futex w.caller waiters address (some futex_wake) 1 0 0 0 in
            elim woke.result [
              | ok _ ↦ ok (memory', woke.waiters, woke.tids)
              | err _ ↦ ok (memory', woke.waiters, woke.tids)
              | panic ↦ panic
            ]
        | err _ ↦ panic
        | panic ↦ panic
      ]

  unfoldable pub do_exit : ℕ → System → Current → M → FutexMap → ℕ → Outcome (Exited M)
  do_exit init s current memory waiters exit_code =
      unwrap (current_task s current) >>= (λ (me : Task).
        if me.pid == 1
        then panic
        else clear_tid me.clear_child_tid memory waiters >>= (λ after.
          let (memory', waiters', woken) = after in
          ok (record {
            result = w.exit_now >>= (λ _. ok 0);
            system = end_task init s me exit_code;
            memory = memory';
            waiters = waiters';
            woken = woken;
          })))
