-- ===== src/Syscall/Waiting.antt =====
-- How long the waiting calls run.
use domains.Prelude.{
  ℕ, ◌≡◌, refl, Option, none, some, Bool, true, false, is_some, suc, ltb, if◌then◌else◌, arith,
}
use domains.Prelude.Act.{Act, done}
use domains.Prelude.Triple.{Answers, bind-Answers, then-Answers, done-Answers}
use domains.Syscall.Domains.{TaskDomain, VfsDomain, Abi, TimeSpec}
use domains.Syscall.Select.{SelectArgs, rounds, select_round, select_common, timeout_is_zero}

abbrev pub HasAnswer : Option ℕ → Type 0
HasAnswer o = is_some o ≡ true

if-HasAnswer :
    {S : Type 0} (b : Bool) {m n : Act S (Option ℕ)}
    → Answers HasAnswer m
    → Answers HasAnswer n
    → Answers HasAnswer (if b then m else n)
if-HasAnswer true h k = h
if-HasAnswer false h k = k

-- A round that always has an answer is the only one.
rounds-Answers :
    {S : Type 0} (round : Act S (Option ℕ)) (fuel : ℕ)
    → Answers HasAnswer round
    → Answers HasAnswer (rounds round (suc fuel))
unfolding rounds
rounds-Answers {S} round fuel h = bind-Answers HasAnswer HasAnswer h (found fuel)
  where
    found :
        (fuel : ℕ) (o : Option ℕ)
        → HasAnswer o
        → Answers HasAnswer (elim o as (λ _. Act S (Option ℕ)) [
          | some n ↦ done (some n)
          | none ↦ rounds round fuel
        ])
    found fuel none e = absurd (ground arith)
    found fuel (some n) e = done-Answers HasAnswer (some n) refl

module _ {S Seek Attr Event : Type 0} (a : Abi S Seek Attr) (vfs : VfsDomain S Seek Attr Event)
    (task_domain : TaskDomain S) where
  select_round-Answers :
      (args : SelectArgs) (nfds : ℕ) (sets : ℕ × ℕ × ℕ) (time : Option ℕ) (zero : Bool)
      → zero ≡ true
      → Answers HasAnswer (select_round a vfs task_domain args nfds sets time zero)
  unfolding select_round
  select_round-Answers args nfds (r, v, e) time false zero = absurd (ground arith)
  select_round-Answers args nfds (r, v, e) time true zero = then-Answers HasAnswer _ (λ reads.
      then-Answers HasAnswer _ (λ writes. then-Answers HasAnswer _ (λ set.
        if-HasAnswer (ltb 0 set) (done-Answers HasAnswer (some set) refl)
          (done-Answers HasAnswer (some 0) refl))))

  -- A select or pselect6 with a time limit of zero that does not fail has its answer in the first
  -- round of its loop.
  pub select_common-zero :
      (fuel : ℕ) (args : SelectArgs) (time_spec : TimeSpec)
      → timeout_is_zero a vfs task_domain (some time_spec) ≡ true
      → Answers HasAnswer (select_common a vfs task_domain (suc fuel) args (some time_spec))
  unfolding select_common
  select_common-zero fuel args time_spec zero = then-Answers HasAnswer _ (λ x.
      then-Answers HasAnswer _ (λ time. then-Answers HasAnswer _ (λ r.
        then-Answers HasAnswer _ (λ v.
          then-Answers HasAnswer _
            (λ e. rounds-Answers _ fuel (select_round-Answers args _ (r, v, e) time _ zero))))))
