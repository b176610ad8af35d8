-- ===== src/Task/Process/Targets.antt =====
-- Whom the calls of Groups.antt act on.
use mathlib.Core.Path.{subst, subst⁻¹}
use domains.Prelude.{
  ℕ, ◌≡◌, sym, none, some, ◌||◌, ◌==◌, ok, err, panic, arith, Option-cases, Bool-cases, inl, inr,
  ◌⊎◌, ◌∙◌, ap, Outcome-cases,
}
use domains.Prelude.Map.{lookup}
use domains.Task.Process.State.{
  find_task, Task, System, get, current_task, find_task_by_pid, find_task_by_pid-get, IsKeyed,
}
use domains.Task.Process.Groups.{Current, new_group, target_of, child_of, join_group, do_set_pgid}

pub find_task_by_pid-keyed :
    (s : System) (pid : ℕ) (t : Task)
    → IsKeyed s
    → find_task_by_pid s pid ≡ some t
    → get s t.tid ≡ some t
find_task_by_pid-keyed s pid t keyed found =
    let (k, at, _) = find_task_by_pid-get s pid found in
    subst (λ (n : ℕ). get s n ≡ some t) (sym (keyed k t at)) at

pub current_task-get :
    (s : System) (current : Current) (t : Task)
    → IsKeyed s
    → current_task s current ≡ some t
    → get s t.tid ≡ some t
unfolding current_task find_task
current_task-get s (ok (some tid)) t keyed h = elim (Option-cases (lookup tid s.manager)) [
  | inl gone ↦ absurd (ground arith)
  | inr (u, there) ↦
      let at : get s tid ≡ some t = ground arith in
      subst (λ (n : ℕ). get s n ≡ some t) (sym (keyed tid t at)) at
]
current_task-get s (ok none) t keyed h = absurd (ground arith)
current_task-get s (err e) t keyed h = absurd (ground arith)
current_task-get s panic t keyed h = absurd (ground arith)

-- Only a child of the caller passes, and it passes as it is.
pub child_of-ok :
    (s : System) (me t target : Task)
    → child_of s me t ≡ ok target
    → (target ≡ t)
      × (p : ℕ) × (parent : Task) × (t.parent ≡ some p)
      × (get s p ≡ some parent)
      × (parent.tid ≡ me.tid)
unfolding child_of
child_of-ok s me t target h = elim (Option-cases t.parent) [
  | inl orphan ↦ absurd (ground arith)
  | inr (p, has) ↦ elim (Option-cases (get s p)) [
    | inl gone ↦ absurd (ground arith)
    | inr (parent, there) ↦ (ground arith, p, parent, has, there, ground arith)
  ]
]

-- `do_set_pgid` acts on the caller or on a child of the caller.
pub target_of-ok :
    (s : System) (me target : Task) (pid : ℕ)
    → target_of s me pid ≡ ok target
    → (target ≡ me) ⊎ (find_task_by_pid s pid ≡ some target) × (child_of s me target ≡ ok target)
unfolding target_of
target_of-ok s me target pid e = elim (Bool-cases ((pid == 0) || (pid == me.pid))) [
  | inl self ↦ inl (ground arith)
  | inr other ↦ elim (Option-cases (find_task_by_pid s pid)) [
    | inl gone ↦ absurd (ground arith)
    | inr (t, found) ↦
        let child : child_of s me t ≡ ok target = ground arith in
        let (same, _, _, _, _, _) = child_of-ok s me t target child in
        inr (found ∙ ap some (sym same), ap (child_of s me) same ∙ child)
  ]
]

pub target_of-get :
    (s : System) (me target : Task) (pid : ℕ)
    → IsKeyed s
    → get s me.tid ≡ some me
    → target_of s me pid ≡ ok target
    → get s target.tid ≡ some target
target_of-get s me target pid keyed here e = elim (target_of-ok s me target pid e) [
  | inl self ↦ subst⁻¹ (λ (t : Task). get s t.tid ≡ some t) self here
  | inr (found, _) ↦ find_task_by_pid-keyed s pid target keyed found
]

-- When `do_set_pgid` answers, the caller is known, and it has joined the target to the group.
pub do_set_pgid-ok :
    (s s' : System) (current : Current) (pid pgid z : ℕ)
    → do_set_pgid s current pid pgid ≡ ok (z, s')
    → (me : Task) × (target : Task) × (current_task s current ≡ some me)
      × (target_of s me pid ≡ ok target)
      × (join_group s target (new_group target pgid) ≡ ok (z, s'))
unfolding do_set_pgid
do_set_pgid-ok s s' current pid pgid z e = elim (Option-cases (current_task s current)) [
  | inl gone ↦ absurd (ground arith)
  | inr (me, here) ↦ elim (Outcome-cases (target_of s me pid)) [
    | inl (target, t) ↦ (me, target, here, t, ground arith)
    | inr (inl (x, t)) ↦ absurd (ground arith)
    | inr (inr t) ↦ absurd (ground arith)
  ]
]
