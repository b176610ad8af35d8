-- ===== src/Task/ProcessTests.antt =====
-- The calls on processes at small systems.
use domains.Prelude.{ℕ, ◌≡◌, refl, List, [], ◌∷◌, Option, none, some, ok, arith, inl, inr, ◌⊎◌}
use domains.Prelude.Map.{lookup, insert}
use domains.Task.Process.State.{
  Task, System, ready, get, update, modify, current_task, find_task, find_task_by_pid, first_of_pid,
  IsKeyed,
}
use domains.Task.Process.Groups.{do_set_pgid, target_of, child_of, join_group, new_group}
use domains.Task.Process.Sessions.{IsSessions}
use domains.Task.Process.GroupLaws.{do_set_pgid-IsSessions, do_set_pgid_only, MayJoin}

abbrev task : ℕ → ℕ → Option ℕ → List (ℕ × ℕ) → Task
task tid group parent children = record {
  tid = tid;
  pid = tid;
  process_group = group;
  session_id = 1;
  status = ready;
  parent = parent;
  children = children;
  exit_code = 0;
  clear_child_tid = 0;
  umask = 0;
  cwd = 0;
  root = 0;
}

-- init, a shell of its, and a child of that.
abbrev pub first : Task
first = task 1 1 none ((2, 2) ∷ [])

abbrev pub shell : Task
shell = task 2 1 (some 1) ((3, 3) ∷ [])

abbrev pub child : Task
child = task 3 1 (some 2) []

abbrev pub family : System
family = record {
  tasks = (1, first) ∷ (2, shell) ∷ (3, child) ∷ [];
  manager = (1, tt) ∷ (2, tt) ∷ (3, tt) ∷ [];
}

pub one_of :
    (i : ℕ) (t : Task)
    → get family i ≡ some t
    → ((i ≡ 1) × (t ≡ first)) ⊎ ((i ≡ 2) × (t ≡ shell)) ⊎ ((i ≡ 3) × (t ≡ child))
unfolding get lookup
one_of i t h = ground arith

pub family-IsKeyed : IsKeyed family
family-IsKeyed i t h = elim (one_of i t h) [
  | inl (a, b) ↦ ground arith
  | inr (inl (a, b)) ↦ ground arith
  | inr (inr (a, b)) ↦ ground arith
]

one_session : (i : ℕ) (t : Task) → get family i ≡ some t → t.session_id ≡ 1
one_session i t h = elim (one_of i t h) [
  | inl (a, b) ↦ ground arith
  | inr (inl (a, b)) ↦ ground arith
  | inr (inr (a, b)) ↦ ground arith
]

family-IsSessions : IsSessions family
family-IsSessions i j t u ht hu =
    let a = one_session i t ht in
    let b = one_session j u hu in
    record {
      same_pid = λ _. ground arith;
      of_leader = λ _. ground arith;
      same_group = λ _. ground arith;
    }

-- The shell moves its child into a group of the child's own.
abbrev moved : System
moved = update family 3 (λ (t : Task). record t { process_group = 3 })

moves : do_set_pgid family (ok (some 2)) 3 0 ≡ ok (0, moved)
unfolding do_set_pgid target_of child_of join_group current_task find_task find_task_by_pid
    first_of_pid get lookup update modify insert
moves = refl

do_set_pgid-IsSessions_example : IsSessions moved
do_set_pgid-IsSessions_example =
    do_set_pgid-IsSessions family moved (ok (some 2)) 3 0 0 family-IsKeyed family-IsSessions moves

do_set_pgid_only_example :
    (get moved 3 ≡ some child)
    ⊎ (me : Task) × (current_task family (ok (some 2)) ≡ some me)
      × MayJoin family me child (new_group child 0)
      × (get moved 3 ≡ some (record child { process_group = new_group child 0 }))
unfolding get lookup
do_set_pgid_only_example =
    do_set_pgid_only family moved (ok (some 2)) 3 0 0 3 child family-IsKeyed moves refl

-- The child opens a session of its own.
abbrev parted : System
parted = update family 3 (λ (t : Task). record t { session_id = 3; process_group = 3 })
