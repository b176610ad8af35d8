-- ===== src/Task/Process/Sessions.antt =====
-- Every process group lies in one session: an invariant of the calls of Groups.antt.
use mathlib.Core.Path.{subst₂}
use domains.Prelude.{
  ℕ, ◌≡◌, ◌≢◌, refl, some, ◌==◌, ok, arith, Option-cases, Bool-cases, inl, inr, ◌⊎◌,
}
use domains.Task.Process.State.{
  Task, System, get, update, find_task_by_pid, get-update, find_task_by_pid-get,
}
use domains.Task.Process.Groups.{join_group}

-- The tasks of a process are in one session, and so are the process that a group is called after
-- and the members of the group.
pub record IsInSession (t u : Task) : Type 0 where
  pub same_pid : t.pid ≡ u.pid → t.session_id ≡ u.session_id
  pub of_leader : t.pid ≡ u.process_group → t.session_id ≡ u.session_id
  pub same_group : t.process_group ≡ u.process_group → t.session_id ≡ u.session_id

abbrev pub IsSessions : System → Type 0
IsSessions s = (i j : ℕ) (t u : Task) → get s i ≡ some t → get s j ≡ some u → IsInSession t u

-- What `join_group` does when it answers.
pub join_group-cases :
    (s : System) (target : Task) (new z : ℕ) (s' : System)
    → join_group s target new ≡ ok (z, s')
    → (s' ≡ s)
      ⊎ (leader : Task) × (find_task_by_pid s new ≡ some leader)
        × (leader.session_id ≡ target.session_id)
        × (target.session_id ≢ target.pid)
        × (s' ≡ update s target.tid (λ (t : Task). record t { process_group = new }))
unfolding join_group
join_group-cases s target new z s' h = elim (Option-cases (find_task_by_pid s new)) [
  | inl e ↦ inl (ground arith)
  | inr (leader, e) ↦ elim (Bool-cases (target.process_group == new)) [
    | inl same ↦ inl (ground arith)
    | inr moved ↦ inr (leader, e, ground arith, ground arith, ground arith)
  ]
]

-- A task after a change of the one under `tid`.
pub get-update-inv :
    (s : System) (tid j : ℕ) (f : Task → Task) (u : Task)
    → get (update s tid f) j ≡ some u
    → (t : Task) × (get s j ≡ some t) × ((tid ≡ j) × (u ≡ f t) ⊎ (tid ≢ j) × (u ≡ t))
get-update-inv s tid j f u h =
    let e = get-update s j tid f in
    elim (Option-cases (get s j)) [
      | inl gone ↦ absurd (ground arith)
      | inr (t, here) ↦ elim (Bool-cases (tid == j)) [
        | inl same ↦ (t, here, inl (ground arith, ground arith))
        | inr other ↦ (t, here, inr (ground arith, ground arith))
      ]
    ]

-- A task `t` joins the group of `l`: what it is to another task `u` comes from what `l` is to it.
module _ (t u l : Task) (new : ℕ) (named : l.pid ≡ new) (same : l.session_id ≡ t.session_id) where
  join-left : IsInSession t u → IsInSession l u → IsInSession (record t { process_group = new }) u
  join-left h hl = record {
    same_pid = h.same_pid;
    of_leader = h.of_leader;
    same_group = ground arith;
  }

  join-right :
      IsInSession u t
      → IsInSession u l
      → IsInSession l u
      → IsInSession u (record t { process_group = new })
  join-right h hl hr = record {
    same_pid = h.same_pid;
    of_leader = ground arith;
    same_group = ground arith;
  }

pub IsInSession-same : (t : Task) → IsInSession t t
IsInSession-same t = record { same_pid = λ _. refl; of_leader = λ _. refl; same_group = λ _. refl }

pub join_group-IsSessions :
    (s : System) (target l : Task) (new : ℕ)
    → IsSessions s
    → get s target.tid ≡ some target
    → find_task_by_pid s new ≡ some l
    → l.session_id ≡ target.session_id
    → IsSessions (update s target.tid (λ (t : Task). record t { process_group = new }))
join_group-IsSessions s target l new h here found same i j t' u' ht hu =
    let f : Task → Task = λ (t : Task). record t { process_group = new } in
    let (k, hl, pid) = find_task_by_pid-get s new found in
    let (t, gt, wt) = get-update-inv s target.tid i f t' ht in
    let (u, gu, wu) = get-update-inv s target.tid j f u' hu in
    elim wt [
      | inl (a, b) ↦ elim wu [
        | inl (c, d) ↦
            subst₂ IsInSession (ground arith) (ground arith) (IsInSession-same (f target))
        | inr (c, d) ↦
            subst₂ IsInSession (ground arith) (ground arith) (
              join-left target u l new pid same (h target.tid j target u here gu) (h k j l u hl gu))
      ]
      | inr (a, b) ↦ elim wu [
        | inl (c, d) ↦ subst₂ IsInSession (ground arith) (ground arith) (
            join-right target t l new pid same (h i target.tid t target gt here) (h i k t l gt hl)
              (h k i l t hl gt))
        | inr (c, d) ↦ subst₂ IsInSession (ground arith) (ground arith) (h i j t u gt gu)
      ]
    ]
