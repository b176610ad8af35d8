-- ===== src/Task/Process/GroupLaws.antt =====
-- What `do_set_pgid` and `do_set_sid` keep.
use mathlib.Core.Path.{subst, subst⁻¹}
use domains.Prelude.{ℕ, ◌≡◌, ◌≢◌, some, ◌==◌, ok, arith, Bool-cases, inl, inr, ◌⊎◌, ◌∙◌, ap}
use domains.Task.Process.State.{
  Task, System, get, current_task, find_task_by_pid, get-update, IsKeyed,
}
use domains.Task.Process.Groups.{Current, new_group, target_of, do_set_pgid}
use domains.Task.Process.Sessions.{IsSessions, join_group-cases, join_group-IsSessions}
use domains.Task.Process.Targets.{
  current_task-get, target_of-get, target_of-ok, child_of-ok, do_set_pgid-ok,
}

-- Where every task stands under its tid, do_set_pgid keeps that every process group lies in one
-- session: tasks of the same process, members of the same group, and the process that a group is
-- called after with its members.
pub do_set_pgid-IsSessions :
    (s s' : System) (current : Current) (pid pgid z : ℕ)
    → IsKeyed s
    → IsSessions s
    → do_set_pgid s current pid pgid ≡ ok (z, s')
    → IsSessions s'
do_set_pgid-IsSessions s s' current pid pgid z keyed h e =
    let (me, target, here, t, joined) = do_set_pgid-ok s s' current pid pgid z e in
    let new : ℕ = new_group target pgid in
    elim (join_group-cases s target new z s' joined) [
      | inl same ↦ subst⁻¹ IsSessions same h
      | inr (l, found, same, _, e') ↦ subst⁻¹ IsSessions e' (
          join_group-IsSessions s target l new h
            (target_of-get s me target pid keyed (current_task-get s current me keyed here) t) found
            same)
    ]

-- `parent.upgrade()` of `t` is `me`.
abbrev pub IsChildOf : System → Task → Task → Type 0
IsChildOf s me t =
    (p : ℕ) × (parent : Task) × (t.parent ≡ some p)
    × (get s p ≡ some parent)
    × (parent.tid ≡ me.tid)

-- What lets `me` move `t` into a group: it is itself or a child of its own, no session leader, and
-- the process that the group is called after is in its session.
abbrev pub MayJoin : System → Task → Task → ℕ → Type 0
MayJoin s me t new =
    ((t ≡ me) ⊎ IsChildOf s me t)
    × (t.session_id ≢ t.pid)
    × (leader : Task) × (find_task_by_pid s new ≡ some leader)
    × (leader.session_id ≡ t.session_id)

allowed :
    (s : System) (me target : Task) (pid : ℕ)
    → target_of s me pid ≡ ok target
    → (target ≡ me) ⊎ IsChildOf s me target
allowed s me target pid aim = elim (target_of-ok s me target pid aim) [
  | inl self ↦ inl self
  | inr (_, child) ↦
      let (_, p, parent, has, there, same) = child_of-ok s me target target child in
      inr (p, parent, has, there, same)
]

-- Where every task stands under its tid, a do_set_pgid that succeeds leaves a task as it was, or
-- the task is the caller or a child of the caller, leads no session, has the session of the
-- process that the group is called after, and nothing of it but its group has changed.
pub do_set_pgid_only :
    (s s' : System) (current : Current) (pid pgid z j : ℕ) (t : Task)
    → IsKeyed s
    → do_set_pgid s current pid pgid ≡ ok (z, s')
    → get s j ≡ some t
    → (get s' j ≡ some t)
      ⊎ (me : Task) × (current_task s current ≡ some me)
        × MayJoin s me t (new_group t pgid)
        × (get s' j ≡ some (record t { process_group = new_group t pgid }))
do_set_pgid_only s s' current pid pgid z j t keyed e at =
    let (me, target, here, aim, joined) = do_set_pgid-ok s s' current pid pgid z e in
    let new : ℕ = new_group target pgid in
    let f : Task → Task = λ (x : Task). record x { process_group = new } in
    elim (join_group-cases s target new z s' joined) [
      | inl same ↦ inl (ap (λ (x : System). get x j) same ∙ at)
      | inr (l, found, same, no_leader, e') ↦
          let moved = ap (λ (x : System). get x j) e' ∙ get-update s j target.tid f in
          elim (Bool-cases (target.tid == j)) [
            | inl hit ↦
                let there =
                  target_of-get s me target pid keyed (current_task-get s current me keyed here)
                    aim in
                let is_t : target ≡ t = ground arith in
                let may : MayJoin s me target new =
                  (allowed s me target pid aim, no_leader, l, found, same) in
                let now : get s' j ≡ some (f target) = ground arith in
                inr (
                  subst
                    (λ (x : Task).
                      (m : Task) × (current_task s current ≡ some m)
                      × MayJoin s m x (new_group x pgid)
                      × (get s' j ≡ some (record x { process_group = new_group x pgid })))
                    is_t (me, here, may, now))
            | inr other ↦ inl (ground arith)
          ]
    ]

-- No other task belongs to the process `me` or to a group that is called after it.
abbrev pub IsAlone : System → Task → Type 0
IsAlone s me =
    (j : ℕ) (t : Task)
    → get s j ≡ some t
    → j ≢ me.tid
    → (t.pid ≢ me.pid) × (t.process_group ≢ me.pid)
