-- ===== src/Syscall/Select.antt =====
-- The system calls that wait for events, common/syscall/syscall/src/fs/basic.rs. Between two rounds
-- of a loop the processor is given up; the rounds are counted by fuel.
use domains.Prelude.{
  ℕ, ◌+◌, ◌*◌, ◌-◌, ◌/◌, ◌%◌, ◌^◌, List, ◌++◌, Option, none, some, Bool, true, false, not, ◌&&◌,
  ltb, leb, ◌==◌, min, take, drop, suc, zero, ok, err, panic, if◌then◌else◌, einval,
}
use domains.Prelude.Act.{Act, done, reject, result, ◌>>=◌, ◌>>◌}
use domains.Syscall.Domains.{TaskDomain, VfsDomain, Abi, PollFd, TimeSpec, see}
use domains.Syscall.Links.{outcome_of}

-- `get_bit` and `set_bit` of the crate `bit_field`, in words.
unfoldable pub get_bit : ℕ → ℕ → Bool
get_bit word i = word / 2 ^ i % 2 == 1

unfoldable pub set_bit : ℕ → ℕ → Bool → ℕ
set_bit word i value =
    if get_bit word i
    then (if value then word else word - 2 ^ i)
    else if value
    then word + 2 ^ i
    else word

-- `expect` on the result of a call.
unfoldable pub expected : {S A : Type 0} → Act S A → Act S A
expected m s =
    let (o, s') = m s in elim o [ ok x ↦ (ok x, s') | err e ↦ (panic, s') | panic ↦ (panic, s') ]

-- A loop that runs until a round has an answer.
unfoldable pub rounds : {S : Type 0} → Act S (Option ℕ) → ℕ → Act S (Option ℕ)
rounds round zero = done none
rounds round (suc fuel) =
    let later = rounds round fuel in
    round >>= λ answer. elim answer [ some n ↦ done (some n) | none ↦ later ]

-- `SelectArgs`
pub record SelectArgs : Type 0 where
  pub nfds : ℕ
  pub readfds : ℕ
  pub writefds : ℕ
  pub exceptfds : ℕ
  pub timeout : ℕ
  pub sigmask : ℕ

module _ {S Seek Attr Event : Type 0} (a : Abi S Seek Attr) (vfs : VfsDomain S Seek Attr Event)
    (task_domain : TaskDomain S) where
  -- One descriptor of a set: the new mask, and how many were ready so far.
  unfoldable pub poll_bit : ℕ → ℕ → ℕ → ℕ × ℕ → Act S (ℕ × ℕ)
  unfolding expected set_bit get_bit
  poll_bit event ori_fds i (fds_mask, set) =
      if get_bit ori_fds i
      then (task_domain.get_fd i >>= λ inode_id.
          expected (vfs.vfs_poll inode_id event) >>= λ events.
          if a.has_event events event
          then done (set_bit fds_mask i true, set + 1)
          else done (set_bit fds_mask i false, set))
      else done (fds_mask, set)

  -- `for i in 0..nfds`, the next being `i` with `more` to come.
  unfoldable pub poll_bits : ℕ → ℕ → ℕ → ℕ → ℕ × ℕ → Act S (ℕ × ℕ)
  poll_bits event ori_fds i zero found = done found
  poll_bits event ori_fds i (suc more) found =
      poll_bit event ori_fds i found >>= poll_bits event ori_fds (i + 1) more

  -- One of the three sets, if the caller gives it.
  unfoldable pub poll_set : ℕ → ℕ → ℕ → ℕ → ℕ → Act S ℕ
  unfolding poll_bits
  poll_set event fds ori_fds nfds set =
      if not (fds == 0)
      then (poll_bits event ori_fds 0 nfds (ori_fds, set) >>= λ found.
          task_domain.write_val_to_user a.u64 fds found.0 >> done found.1)
      else done set

  unfoldable pub read_set : ℕ → Act S ℕ
  read_set fds = if not (fds == 0) then task_domain.read_val_from_user a.u64 fds else done 0

  -- The end of the wait, and whether the caller waits at all.
  abbrev pub wait_time : Option TimeSpec → S → Option ℕ
  wait_time none s = none
  wait_time (some time_spec) s = some ((a.to_clock time_spec + a.to_clock (a.now s)) % 2 ^ 64)

  abbrev pub timeout_is_zero : Option TimeSpec → Bool
  timeout_is_zero none = false
  timeout_is_zero (some time_spec) = time_spec.tv_sec == 0 && time_spec.tv_nsec == 0

  unfoldable pub overdue : Option ℕ → Act S (Option ℕ)
  overdue none = done none
  overdue (some time) =
      see a.now >>= λ now. done (if leb time (a.to_clock now) then some 0 else none)

  unfoldable pub select_round : SelectArgs → ℕ → ℕ × ℕ × ℕ → Option ℕ → Bool → Act S (Option ℕ)
  unfolding poll_set overdue
  select_round args nfds (ori_readfds, ori_writefds, ori_exceptfds) time zero_timeout = do
    reads ← poll_set a.poll_in args.readfds ori_readfds nfds 0
    writes ← poll_set a.poll_out args.writefds ori_writefds nfds reads
    set ← poll_set a.poll_err args.exceptfds ori_exceptfds nfds writes
    if ltb 0 set
        then done (some set)
        else if zero_timeout
        then done (some 0)
        else a.yield_now >> overdue time

  -- `none` where the fuel has run out.
  unfoldable pub select_common : ℕ → SelectArgs → Option TimeSpec → Act S (Option ℕ)
  unfolding rounds select_round read_set
  select_common fuel args timeout = do
    reject (leb a.max_fd_num args.nfds) einval
    time ← see (wait_time timeout)
    ori_readfds ← read_set args.readfds
    ori_writefds ← read_set args.writefds
    ori_exceptfds ← read_set args.exceptfds
    rounds
        (select_round args (min args.nfds 64) (ori_readfds, ori_writefds, ori_exceptfds) time
          (timeout_is_zero timeout))
        fuel

  unfoldable pub sys_pselect6 : ℕ → SelectArgs → Act S (Option ℕ)
  unfolding select_common
  sys_pselect6 fuel args = do
    timeout ←
        if not (args.timeout == 0)
        then (task_domain.read_val_from_user a.timespec args.timeout >>= λ t. done (some t))
        else done none
    select_common fuel args timeout

  unfoldable pub sys_select : ℕ → ℕ → ℕ → ℕ → ℕ → ℕ → Act S (Option ℕ)
  unfolding select_common
  sys_select fuel nfds readfds writefds exceptfds timeout = do
    limit ←
        if not (timeout == 0)
        then (task_domain.read_val_from_user a.timeval timeout >>= λ time_val.
            done (some (record { tv_sec = time_val.0; tv_nsec = time_val.1 * 1000 % 2 ^ 64 })))
        else done none
    select_common fuel
        (record {
          nfds = nfds;
          readfds = readfds;
          writefds = writefds;
          exceptfds = exceptfds;
          timeout = 0;
          sigmask = 0;
        })
        limit

  -- One entry of the array of `ppoll`, which goes back into its place.
  abbrev pub entry_at : List ℕ → ℕ → PollFd
  entry_at fds idx = a.pollfd.from_bytes (drop (idx * a.pollfd.size) fds)

  abbrev pub put_entry : List ℕ → ℕ → PollFd → List ℕ
  put_entry fds idx pfd =
      take (idx * a.pollfd.size) fds
      ++ a.pollfd.as_bytes pfd
      ++ drop ((idx + 1) * a.pollfd.size) fds

  unfoldable pub poll_fd : ℕ → List ℕ × ℕ → Act S (List ℕ × ℕ)
  unfolding outcome_of
  poll_fd idx (fds, res) =
      let pfd = entry_at fds idx in
      outcome_of (task_domain.get_fd pfd.fd) >>= λ found. elim found [
        | ok file ↦ vfs.vfs_poll file (a.to_vfs_events pfd.events) >>= λ event. done (
          put_entry fds idx (record pfd { revents = a.to_poll_events event }),
          (if not (a.no_events event) then res + 1 else res),
        )
        | err e ↦ done (put_entry fds idx (record pfd { revents = a.epoll_err }), res + 1)
        | panic ↦ result panic
      ]

  unfoldable pub poll_fds : ℕ → ℕ → List ℕ × ℕ → Act S (List ℕ × ℕ)
  poll_fds idx zero found = done found
  poll_fds idx (suc more) found = poll_fd idx found >>= poll_fds (idx + 1) more

  unfoldable pub ppoll_wait : ℕ → ℕ → Act S (Option ℕ)
  ppoll_wait timeout sigmask =
      if sigmask == a.from_poll_sigmask
      then (if timeout == 2 ^ 64 - 1
          then done none
          else see (
              wait_time
                (some (record { tv_sec = timeout / 1000; tv_nsec = timeout % 1000 * 1000000 }))))
      else if not (timeout == 0)
      then (task_domain.read_val_from_user a.timespec timeout >>= λ time_spec.
          see (wait_time (some time_spec)))
      else done none

  -- A round over the array as the last one left it.
  unfoldable pub ppoll_round : ℕ → ℕ → Option ℕ → List ℕ → Act S (List ℕ × Option ℕ)
  unfolding poll_fds overdue
  ppoll_round fds_ptr nfds time fds = do
    found ← poll_fds 0 nfds (fds, 0)
    late ← overdue time
    if ltb 0 found.1
        then (task_domain.copy_to_user fds_ptr found.0 >> done (found.0, some found.1))
        else elim late [
          | some n ↦ done (found.0, some n)
          | none ↦ a.yield_now >> done (found.0, none)
        ]

  unfoldable pub ppoll_loop : ℕ → ℕ → ℕ → Option ℕ → List ℕ → Act S (Option ℕ)
  unfolding ppoll_round
  ppoll_loop zero fds_ptr nfds time fds = done none
  ppoll_loop (suc fuel) fds_ptr nfds time fds = ppoll_round fds_ptr nfds time fds >>= λ out.
      elim out.1 [ some n ↦ done (some n) | none ↦ ppoll_loop fuel fds_ptr nfds time out.0 ]

  unfoldable pub sys_ppoll : ℕ → ℕ → ℕ → ℕ → ℕ → Act S (Option ℕ)
  unfolding ppoll_wait ppoll_loop
  sys_ppoll fuel fds_ptr nfds timeout sigmask = do
    fds ← task_domain.copy_from_user fds_ptr (a.pollfd.size * nfds)
    time ← ppoll_wait timeout sigmask
    ppoll_loop fuel fds_ptr nfds time fds
