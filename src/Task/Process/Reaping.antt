-- ===== src/Task/Process/Reaping.antt =====
-- The passes of `do_wait4`: what each answers and leaves, and which of them answers.
use domains.Prelude.{
  ℕ, ◌≡◌, none, some, true, false, ◌&&◌, if◌then◌else◌, ok, arith, Bool-cases, Outcome-cases, inl,
  inr, ◌∙◌, ap,
}
use domains.Prelude.Map.{remove}
use domains.Task.Process.State.{Task, System, update, current_task}
use domains.Task.Process.Groups.{Current}
use domains.Task.Process.Wait.{
  WaitOptions, is_terminated, filter_exit_task, drop_task, Kernel, answer, again, reap, unwrap_bool,
  store_code, try_reap, or_later, wait_round,
}
use domains.Task.Process.WaitLaws.{IsWanted, filter_exit_task-some}

-- What a pass leaves of the system when it answers with the child `t` of `me`.
unfoldable pub left_by : System → Task → Task → WaitOptions → System
left_by s me t options =
    if options.wnowait
    then s
    else drop_task (update s me.tid (λ (x : Task). record x { children = remove t.pid x.children }))
        t.tid

module _ {ℓ} {M : Type ℓ} (k : Kernel M) (options : WaitOptions) where
  reap-answer :
      (s s' : System) (m m' : M) (me t : Task) (n : ℕ)
      → reap k s m me t options ≡ ok (answer n s' m')
      → (n ≡ t.pid) × (s' ≡ left_by s me t options) × (m' ≡ m)
  unfolding reap left_by
  reap-answer s s' m m' me t n e = elim (Bool-cases options.wnowait) [
    | inl later ↦ (ground arith, ground arith, ground arith)
    | inr now ↦ elim (Outcome-cases (k.remove_task t.tid)) [
      | inl (_, done) ↦ (ground arith, ground arith, ground arith)
      | inr (inl (x, failed)) ↦ absurd (ground arith)
      | inr (inr failed) ↦ absurd (ground arith)
    ]
  ]

  pub try_reap-answer :
      (s s' : System) (m m' : M) (me t : Task) (pointer n : ℕ)
      → try_reap k s m me t pointer options ≡ ok (answer n s' m')
      → (is_terminated t.status ≡ true)
        × (k.is_task_exit t.tid ≡ ok true)
        × (store_code k m pointer t.exit_code ≡ ok m')
        × (n ≡ t.pid)
        × (s' ≡ left_by s me t options)
  unfolding try_reap unwrap_bool
  try_reap-answer s s' m m' me t pointer n e = elim (Outcome-cases (k.is_task_exit t.tid)) [
    | inr (inl (x, failed)) ↦ absurd (ground arith)
    | inr (inr failed) ↦ absurd (ground arith)
    | inl (exited, known) ↦ elim (Bool-cases (is_terminated t.status && exited)) [
      | inr early ↦ absurd (ground arith)
      | inl ended ↦ elim (Outcome-cases (store_code k m pointer t.exit_code)) [
        | inr (inl (x, failed)) ↦ absurd (ground arith)
        | inr (inr failed) ↦ absurd (ground arith)
        | inl (m'', stored) ↦
            let (a, b, c) = reap-answer s s' m'' m' me t n (ground arith) in
            (ground arith, ground arith, stored ∙ ap ok (ground arith), a, b)
      ]
    ]
  ]

  -- Without WNOHANG, a pass of do_wait4 that answers gives the pid of a child that the caller
  -- waits for, that is terminated and that the scheduler has let go, has stored the exit code of
  -- it, and, but with WNOWAIT, has taken it from the children of the caller and from the store.
  pub wait_round-answer :
      (s s' : System) (m m' : M) (current : Current) (me : Task) (pid pointer n : ℕ)
      → current_task s current ≡ some me
      → options.wnohang ≡ false
      → wait_round k s m current pid pointer options ≡ ok (answer n s' m')
      → (t : Task) × IsWanted s pid me.children t
        × (is_terminated t.status ≡ true)
        × (k.is_task_exit t.tid ≡ ok true)
        × (store_code k m pointer t.exit_code ≡ ok m')
        × (n ≡ t.pid)
        × (s' ≡ left_by s me t options)
  unfolding wait_round or_later
  wait_round-answer s s' m m' current me pid pointer n here stays e =
      elim (Outcome-cases (filter_exit_task s me pid)) [
        | inr (inl (x, failed)) ↦ absurd (ground arith)
        | inr (inr failed) ↦ absurd (ground arith)
        | inl (none, found) ↦ absurd (ground arith)
        | inl (some t, found) ↦
            let (wanted, _) = filter_exit_task-some s me t pid found in
            elim (Outcome-cases (try_reap k s m me t pointer options)) [
              | inr (inl (x, failed)) ↦ absurd (ground arith)
              | inr (inr failed) ↦ absurd (ground arith)
              | inl (again, tried) ↦ absurd (ground arith)
              | inl (answer p x y, tried) ↦
                  let same : try_reap k s m me t pointer options ≡ ok (answer n s' m') =
                    ground arith in
                  let (ended, off, stored, a, b) = try_reap-answer s s' m m' me t pointer n same in
                  (t, wanted, ended, off, stored, a, b)
            ]
      ]
