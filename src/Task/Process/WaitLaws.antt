-- ===== src/Task/Process/WaitLaws.antt =====
-- What `do_wait4` answers: a child that has ended, the error of a caller without such a child, and
-- the first pass that has an answer.
use domains.Prelude.{
  ℕ, ◌≡◌, refl, List, [], ◌∷◌, some, true, false, ◌||◌, ◌==◌, ok, err, echild, arith, Option-cases,
  Bool-cases, inl, inr, get_elem?, All, suc, ◌↔◌,
}
use domains.Task.Process.State.{Task, System, get}
use domains.Task.Process.Wait.{
  any_child, is_terminated, matching, first_terminated, filter_exit_task,
}

-- The caller waits for this one of its children.
abbrev pub IsWanted : System → ℕ → List (ℕ × ℕ) → Task → Type 0
IsWanted s pid children t =
    (i : ℕ) × (key : ℕ) × (c : ℕ) × (get_elem? children i ≡ some (key, c))
    × (get s c ≡ some t)
    × (((t.pid == pid) || (pid == any_child)) ≡ true)

IsWanted-cons :
    (s : System) (pid : ℕ) (x : ℕ × ℕ) (children : List (ℕ × ℕ)) (t : Task)
    → IsWanted s pid children t
    → IsWanted s pid (x ∷ children) t
IsWanted-cons s pid x children t (i, key, c, at, here, fits) = (suc i, key, c, at, here, fits)

-- What `first_terminated` finds among the wanted children.
first_terminated-IsWanted :
    (s : System) (pid : ℕ) (children : List (ℕ × ℕ)) (t : Task)
    → first_terminated (matching s pid children) ≡ some t
    → IsWanted s pid children t × (is_terminated t.status ≡ true)
unfolding matching first_terminated
first_terminated-IsWanted s pid [] t h = absurd (ground arith)
first_terminated-IsWanted s pid ((key, c) ∷ children) t h = elim (Option-cases (get s c)) [
  | inl gone ↦
      let (w, e) = first_terminated-IsWanted s pid children t (ground arith) in
      (IsWanted-cons s pid (key, c) children t w, e)
  | inr (u, here) ↦ elim (Bool-cases ((u.pid == pid) || (pid == any_child))) [
    | inr other ↦
        let (w, e) = first_terminated-IsWanted s pid children t (ground arith) in
        (IsWanted-cons s pid (key, c) children t w, e)
    | inl fits ↦ elim (Bool-cases (is_terminated u.status)) [
      | inr alive ↦
          let (w, e) = first_terminated-IsWanted s pid children t (ground arith) in
          (IsWanted-cons s pid (key, c) children t w, e)
      | inl ended ↦
          let same : u ≡ t = ground arith in
          ((0, key, c, refl, ground arith, ground arith), ground arith)
    ]
  ]
]

-- No child of the store is a wanted one.
abbrev pub NoneWanted : System → ℕ → List (ℕ × ℕ) → Type 0
NoneWanted s pid children =
    All
      (λ (x : ℕ × ℕ).
        (t : Task) → get s x.1 ≡ some t → ((t.pid == pid) || (pid == any_child)) ≡ false)
      children

matching-none :
    (s : System) (pid : ℕ) (children : List (ℕ × ℕ))
    → matching s pid children ≡ []
    → NoneWanted s pid children
unfolding matching
matching-none s pid [] h = tt
matching-none s pid ((key, c) ∷ children) h = elim (Option-cases (get s c)) [
  | inl gone ↦ (λ t e. absurd (ground arith), matching-none s pid children (ground arith))
  | inr (u, here) ↦ elim (Bool-cases ((u.pid == pid) || (pid == any_child))) [
    | inl fits ↦ absurd (ground arith)
    | inr other ↦ (
      λ t e. let same : u ≡ t = ground arith in ground arith,
      matching-none s pid children (ground arith),
    )
  ]
]

NoneWanted-matching :
    (s : System) (pid : ℕ) (children : List (ℕ × ℕ))
    → NoneWanted s pid children
    → matching s pid children ≡ []
unfolding matching
NoneWanted-matching s pid [] h = refl
NoneWanted-matching s pid ((key, c) ∷ children) (a, h) = elim (Option-cases (get s c)) [
  | inl gone ↦ ground (arith, NoneWanted-matching s pid children h)
  | inr (u, here) ↦ let other = a u here in ground (arith, NoneWanted-matching s pid children h)
]

-- The search of do_wait4 fails with ECHILD exactly if no child of the caller that is in the store
-- is one that the call waits for.
pub filter_exit_task-none :
    (s : System) (me : Task) (pid : ℕ)
    → (filter_exit_task s me pid ≡ err echild) ↔ NoneWanted s pid me.children
unfolding filter_exit_task
filter_exit_task-none s me pid = (
  λ e. matching-none s pid me.children (ground arith),
  λ h. ground (arith, NoneWanted-matching s pid me.children h),
)

pub filter_exit_task-some :
    (s : System) (me t : Task) (pid : ℕ)
    → filter_exit_task s me pid ≡ ok (some t)
    → IsWanted s pid me.children t × (is_terminated t.status ≡ true)
unfolding filter_exit_task
filter_exit_task-some s me t pid e = first_terminated-IsWanted s pid me.children t (ground arith)
