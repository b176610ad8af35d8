-- ===== src/Vfs/CounterTests.antt =====
-- Event counters on concrete values, and the claims at them.
use domains.Prelude.{
  ℕ, ◌-◌, ◌≡◌, refl, List, [], ◌∷◌, ◌++◌, some, true, false, drop, ok, arith, ◌^◌,
}
use domains.Vfs.EventFd.Bytes.{to_ne_bytes, from_ne_bytes}
use domains.Vfs.EventFd.Counter.{EventFd, Kernel, read, write, eventfd}
use domains.Vfs.EventFd.Laws.{Wakes, read_takes, read-write, write_adds}

-- A kernel in which task 7 runs and every call of the scheduler succeeds.
abbrev seven : Kernel
seven = record { current_tid = ok (some 7); wait_now = ok tt; wake_up_wait_task = λ _. ok tt }

seven-Wakes : Wakes seven
seven-Wakes tid = refl

abbrev plain : EventFd
plain = record { count = 3; nonblock = false; semaphore = false; wait_queue = 4 ∷ 5 ∷ [] }

abbrev semaphore_one : EventFd
semaphore_one = record plain { count = 1; semaphore = true }

abbrev full : EventFd
full = record plain { count = 2 ^ 64 - 2; nonblock = true }

abbrev room : List ℕ
room = 0 ∷ 0 ∷ 0 ∷ 0 ∷ 0 ∷ 0 ∷ 0 ∷ 0 ∷ []

three_little_endian : from_ne_bytes (3 ∷ 1 ∷ 0 ∷ 0 ∷ 0 ∷ 0 ∷ 0 ∷ 0 ∷ []) ≡ 259
unfolding from_ne_bytes
three_little_endian = refl

starts_at_init_val : eventfd 3 false false ≡ record plain { wait_queue = [] }
unfolding eventfd
starts_at_init_val = refl

write_adds_example :
    write seven plain (to_ne_bytes 9 ++ [])
    ≡ (ok (some 8), record plain { count = 12; wait_queue = [] })
write_adds_example = write_adds seven plain 9 [] seven-Wakes (omega arith)

read_takes_example :
    read seven semaphore_one room
    ≡ (ok (some (to_ne_bytes 1 ++ drop 8 room, 8)), record semaphore_one { count = 0 })
read_takes_example =
    read_takes seven semaphore_one room (omega arith) (λ e. ground arith) (omega arith)

read-write_example :
    (read seven (write seven plain (to_ne_bytes 9 ++ [])).1 room).0
    ≡ ok (some (to_ne_bytes 12 ++ drop 8 room, 8))
read-write_example =
    read-write seven plain 9 [] room seven-Wakes refl (omega arith) (λ e. ground arith)
      (omega arith)
