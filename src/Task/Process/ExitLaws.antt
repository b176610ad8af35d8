-- ===== src/Task/Process/ExitLaws.antt =====
-- What an exit leaves: the children are init's, the task has ended, and the tree is a tree.
use mathlib.Core.Path.{subst⁻¹}
use domains.Prelude.{
  ℕ, ◌≡◌, ◌≢◌, refl, sym, [], none, some, ◌==◌, arith, Option-cases, Bool-cases, inl, inr, ◌∙◌, ap,
  All, All-map,
}
use domains.Task.Process.State.{Task, System, get, update}
use domains.Task.Process.Sessions.{get-update-inv}
use domains.Task.Process.Exit.{adopt, leave_children}
use domains.Prelude.{ok, ◌*◌, ◌%◌, Outcome-cases}
use domains.Task.Futex.Queue.{FutexMap}
use domains.Prelude.Map.{lookup-remove}
use domains.Task.Process.Groups.{Current}
use domains.Task.Process.State.{zombie, terminated, current_task, find_task, remove_task, IsKeyed}
use domains.Task.Process.Targets.{current_task-get}
use domains.Task.Process.Exit.{Surroundings, Exited, end_task, clear_tid, do_exit}
use domains.Task.Process.Family.{IsChild, IsFamily}
use domains.Task.Process.Handover.{
  leave_children-IsChild, leave_children-IsFamily, update-IsChild, update-IsFamily, get-remove_task,
  remove_task-IsFamily,
}

module _ (init code : ℕ) (s : System) (me : Task) (h : IsFamily s)
    (here : get s me.tid ≡ some me) where
  end_task-IsFamily : IsFamily (end_task init s me code)
  unfolding end_task
  end_task-IsFamily =
      let coded : Task → Task =
        λ (t : Task). record t { status = zombie; exit_code = code % 256 * 256 } in
      let left = leave_children init me s in
      update-IsFamily (remove_task (update left me.tid coded) me.tid) me.tid
        (λ (t : Task). record t { status = terminated }) (λ _. refl) (λ _. refl)
        (remove_task-IsFamily (update left me.tid coded) me.tid (
          update-IsFamily left me.tid coded (λ _. refl) (λ _. refl)
            (leave_children-IsFamily init me s h here)))

  end_task-IsChild : All (λ (x : ℕ × ℕ). IsChild (end_task init s me code) init x.1) me.children
  unfolding end_task
  end_task-IsChild =
      let coded : Task → Task =
        λ (t : Task). record t { status = zombie; exit_code = code % 256 * 256 } in
      let left = leave_children init me s in
      All-map
        (λ (x : ℕ × ℕ) y.
          let (t, ht, pt) = update-IsChild left me.tid coded (λ _. refl) init x.1 y in
          update-IsChild (remove_task (update left me.tid coded) me.tid) me.tid
            (λ (t : Task). record t { status = terminated }) (λ _. refl) init x.1
            (t, get-remove_task (update left me.tid coded) me.tid x.1 ∙ ht, pt))
        me.children (leave_children-IsChild init me s h here)

-- The task that a change is for.
update_at :
    (s : System) (tid : ℕ) (f : Task → Task) (t : Task)
    → get (update s tid f) tid ≡ some t
    → (t0 : Task) × (get s tid ≡ some t0) × (t ≡ f t0)
update_at s tid f t e =
    let (t0, h0, w) = get-update-inv s tid tid f t e in
    elim w [ inl (_, same) ↦ (t0, h0, same) | inr (other, _) ↦ absurd (other refl) ]

-- The exiting task at the end.
pub record IsEnded (code : ℕ) (t : Task) : Type 0 where
  pub childless : t.children ≡ []
  pub ended : t.status ≡ terminated
  pub coded : t.exit_code ≡ code % 256 * 256

end_task-IsEnded :
    (init code : ℕ) (s : System) (me t : Task)
    → get (end_task init s me code) me.tid ≡ some t
    → IsEnded code t
unfolding end_task leave_children
end_task-IsEnded init code s me t e =
    let coded : Task → Task =
      λ (t : Task). record t { status = zombie; exit_code = code % 256 * 256 } in
    let last : Task → Task = λ (t : Task). record t { status = terminated } in
    let clear : Task → Task = λ (t : Task). record t { children = [] } in
    let left = leave_children init me s in
    let (t1, h1, e1) = update_at (remove_task (update left me.tid coded) me.tid) me.tid last t e in
    let (t2, h2, e2) =
      update_at left me.tid coded t1
        (sym (get-remove_task (update left me.tid coded) me.tid me.tid) ∙ h1) in
    let (t3, h3, e3) = update_at (adopt init me.children s) me.tid clear t2 h2 in
    record { childless = ground arith; ended = ground arith; coded = ground arith }

-- An exited task is in the table no more.
end_task-unlisted :
    (init code : ℕ) (s : System) (me : Task) → find_task (end_task init s me code) me.tid ≡ none
unfolding end_task find_task update remove_task
end_task-unlisted init code s me =
    ground (arith, lookup-remove me.tid me.tid (leave_children init me s).manager)

do_exit-ok {ℓ} :
    {M : Type ℓ} (w : Surroundings M) (init : ℕ) (s : System) (current : Current) (memory : M)
    (waiters : FutexMap) (code : ℕ) (r : Exited M)
    → do_exit w init s current memory waiters code ≡ ok r
    → (me : Task) × (current_task s current ≡ some me)
      × (me.pid ≢ 1)
      × (r.system ≡ end_task init s me code)
unfolding do_exit
do_exit-ok w init s current memory waiters code r e = elim (Option-cases (current_task s current)) [
  | inl gone ↦ absurd (ground arith)
  | inr (me, here) ↦ elim (Bool-cases (me.pid == 1)) [
    | inl first ↦ absurd (ground arith)
    | inr other ↦ elim (Outcome-cases (clear_tid w me.clear_child_tid memory waiters)) [
      | inl (after, cleared) ↦ (me, here, ground arith, ground arith)
      | inr (inl (x, failed)) ↦ absurd (ground arith)
      | inr (inr failed) ↦ absurd (ground arith)
    ]
  ]
]

-- Where every task stands under its tid, an exit keeps the tree: every child that a task lists is
-- in the store and has that task as its parent.
pub do_exit-IsFamily {ℓ} :
    {M : Type ℓ} (w : Surroundings M) (init : ℕ) (s : System) (current : Current) (memory : M)
    (waiters : FutexMap) (code : ℕ) (r : Exited M)
    → IsKeyed s
    → IsFamily s
    → do_exit w init s current memory waiters code ≡ ok r
    → IsFamily r.system
do_exit-IsFamily w init s current memory waiters code r keyed h e =
    let (me, here, _, left) = do_exit-ok w init s current memory waiters code r e in
    subst⁻¹ IsFamily left
      (end_task-IsFamily init code s me h (current_task-get s current me keyed here))

-- Where every task stands under its tid and the children are a tree, an exit that does not panic
-- is not one of process 1, takes the caller out of the table of tasks, leaves it terminated,
-- without children, with the low byte of the code in the second byte of its exit code, and makes
-- init the parent of every child that it had.
pub do_exit-IsEnded {ℓ} :
    {M : Type ℓ} (w : Surroundings M) (init : ℕ) (s : System) (current : Current) (memory : M)
    (waiters : FutexMap) (code : ℕ) (r : Exited M)
    → IsKeyed s
    → IsFamily s
    → do_exit w init s current memory waiters code ≡ ok r
    → (me : Task) × (current_task s current ≡ some me)
      × (me.pid ≢ 1)
      × (find_task r.system me.tid ≡ none)
      × ((t : Task) → get r.system me.tid ≡ some t → IsEnded code t)
      × All (λ (x : ℕ × ℕ). IsChild r.system init x.1) me.children
do_exit-IsEnded w init s current memory waiters code r keyed h e =
    let (me, here, other, left) = do_exit-ok w init s current memory waiters code r e in
    (
      me,
      here,
      other,
      ap (λ (x : System). find_task x me.tid) left ∙ end_task-unlisted init code s me,
      (λ t at.
          end_task-IsEnded init code s me t (ap (λ (x : System). get x me.tid) (sym left) ∙ at)),
      subst⁻¹ (λ (x : System). All (λ (y : ℕ × ℕ). IsChild x init y.1) me.children) left
          (end_task-IsChild init code s me h (current_task-get s current me keyed here)),
    )
