-- ===== src/Task/WaitTests.antt =====
-- A wait, an exit and a clone in a small family of processes.
use mathlib.Core.Path.{subst₂, sym}
use domains.Prelude.{ℕ, ◌≡◌, refl, [], ◌∷◌, none, some, true, false, ok, panic, inl, inr, All}
use domains.Prelude.Map.{lookup, insert, remove}
use domains.Task.Process.State.{
  Task, System, terminated, get, update, modify, current_task, find_task,
}
use domains.Task.Process.Wait.{
  WaitOptions, any_child, is_terminated, matching, first_terminated, filter_exit_task, drop_task,
  Kernel, answer, again, reap, unwrap_bool, store_code, try_reap, or_later, wait_round,
}
use domains.Task.Process.WaitLaws.{IsWanted}
use domains.Task.Process.Reaping.{left_by, wait_round-answer}
use domains.Task.Process.Exit.{Surroundings, Exited, end_task, clear_tid, do_exit}
use domains.Task.Process.Family.{IsChild, IsFamily}
use domains.Task.Process.ExitLaws.{do_exit-IsFamily}
use domains.Task.Process.Clone.{CloneArgs, new_task, place, add_task, do_clone}
use domains.Task.Process.CloneLaws.{do_clone-IsFamily}
use domains.Task.ProcessTests.{first, shell, child, family, one_of, family-IsKeyed}

-- The child has ended, and the shell collects it.
abbrev kernel : Kernel ℕ
kernel = record {
  is_task_exit = λ _. ok true;
  remove_task = λ _. ok tt;
  sole = λ _ _. true;
  write_val = λ _ _ code. ok code;
}

abbrev plain : WaitOptions
plain = record { wnohang = false; wnowait = false }

abbrev dead : Task
dead = record child { status = terminated; exit_code = 256 }

abbrev ended : System
ended = record family { tasks = (1, first) ∷ (2, shell) ∷ (3, dead) ∷ [] }

abbrev collected : System
collected = record ended { tasks = (1, first) ∷ (2, record shell { children = [] }) ∷ [] }

collects : wait_round kernel ended 0 (ok (some 2)) any_child 8 plain ≡ ok (answer 3 collected 256)
unfolding wait_round filter_exit_task matching first_terminated try_reap unwrap_bool store_code reap
    or_later drop_task current_task find_task get lookup update modify insert remove
collects = refl

waits : wait_round kernel family 0 (ok (some 2)) any_child 8 plain ≡ ok again
unfolding wait_round filter_exit_task matching first_terminated or_later current_task find_task get
    lookup
waits = refl

here : current_task ended (ok (some 2)) ≡ some shell
unfolding current_task find_task get lookup
here = refl

wait_round-answer_example :
    (t : Task) × IsWanted ended any_child shell.children t
    × (is_terminated t.status ≡ true)
    × (kernel.is_task_exit t.tid ≡ ok true)
    × (store_code kernel 0 8 t.exit_code ≡ ok 256)
    × (3 ≡ t.pid)
    × (collected ≡ left_by ended shell t plain)
wait_round-answer_example =
    wait_round-answer kernel plain ended collected 0 256 (ok (some 2)) shell any_child 8 3 here refl
      collects

-- The shell exits.
family-IsFamily : IsFamily family
unfolding get lookup
family-IsFamily i p h = elim (one_of i p h) [
  | inl (a, b) ↦
      subst₂ (λ (j : ℕ) (q : Task). All (λ (x : ℕ × ℕ). IsChild family j x.1) q.children) (sym a)
        (sym b) ((shell, refl, refl), tt)
  | inr (inl (a, b)) ↦
      subst₂ (λ (j : ℕ) (q : Task). All (λ (x : ℕ × ℕ). IsChild family j x.1) q.children) (sym a)
        (sym b) ((child, refl, refl), tt)
  | inr (inr (a, b)) ↦
      subst₂ (λ (j : ℕ) (q : Task). All (λ (x : ℕ × ℕ). IsChild family j x.1) q.children) (sym a)
        (sym b) tt
]

abbrev surroundings : Surroundings ℕ
surroundings = record {
  caller = record {
    tid = 2;
    read_value_atomic = λ _. none;
    read_timespec = λ _. panic;
    now = 0;
    wait_now = ok tt;
    wake_up_wait_task = λ _. ok tt;
  };
  write_val = λ _ _ v. ok v;
  exit_now = ok tt;
}

abbrev exited : Exited ℕ
exited = record {
  result = ok 0;
  system = end_task 1 family shell 7;
  memory = 0;
  waiters = [];
  woken = [];
}

exits : do_exit surroundings 1 family (ok (some 2)) 0 [] 7 ≡ ok exited
unfolding do_exit clear_tid current_task find_task get lookup
exits = refl

do_exit-IsFamily_example : IsFamily exited.system
do_exit-IsFamily_example =
    do_exit-IsFamily surroundings 1 family (ok (some 2)) 0 [] 7 exited family-IsKeyed
      family-IsFamily exits

-- The shell makes another child.
abbrev forks : CloneArgs
forks = record {
  clone_parent = false;
  clone_thread = false;
  clone_child_cleartid = false;
  ctid = 0;
}

abbrev cloned : System
cloned = add_task (place family shell forks (new_task shell forks 4)) (new_task shell forks 4)

clones : do_clone family (ok (some 2)) forks true (some 4) ≡ ok (4, cloned)
unfolding do_clone current_task find_task get lookup
clones = refl

unused : get family 4 ≡ none
unfolding get lookup
unused = refl

do_clone-IsFamily_example : IsFamily cloned
do_clone-IsFamily_example =
    do_clone-IsFamily family cloned (ok (some 2)) forks true (some 4) 4 family-IsFamily unused
      clones
