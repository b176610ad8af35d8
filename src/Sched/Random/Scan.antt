-- ===== src/Sched/Random/Scan.antt =====
-- What the loop of `fetch_task` of the random scheduler finds.
use domains.Prelude.{
  All-map, ℕ, suc, ◌+◌, ◌≤◌, ◌<◌, ◌≡◌, refl, ◌∙◌, [], ◌∷◌, Option, none, some, true, false, ◌&&◌,
  get_elem?, ltb, arith, Bool-cases, inl, inr, All, take,
}
use domains.Sched.Info.{TaskInfo, allows}
use domains.Sched.Random.{Tasks, scan}

-- The task of a list that beats `bound` the most, at its index.
pub data Best (cpu_id : ℕ) (tasks : Tasks) (bound : ℕ) : Option ℕ → Type 0 where
  nobody :
      All (λ u. (allows u cpu_id && ltb u.nice bound) ≡ false) tasks → Best cpu_id tasks bound none
  found :
      (i : ℕ) (t : TaskInfo)
      → get_elem? tasks i ≡ some t
      → allows t cpu_id ≡ true
      → t.nice < bound
      → All (λ u. allows u cpu_id ≡ true → t.nice ≤ u.nice) tasks
      → All (λ u. allows u cpu_id ≡ true → t.nice < u.nice) (take i tasks)
      → Best cpu_id tasks bound (some i)

-- What the loop gives: the best index shifted by the counter, or what it began with.
abbrev pub shifted : ℕ → Option ℕ → Option ℕ → Option ℕ
shifted idx res none = res
shifted idx res (some i) = some (idx + i)

-- The index in a list with one more task in front, which is the best only without another.
abbrev on : Option ℕ → Option ℕ
on none = none
on (some i) = some (suc i)

abbrev here_or_on : Option ℕ → Option ℕ
here_or_on none = some 0
here_or_on (some i) = some (suc i)

shifted-on : (idx : ℕ) (res o : Option ℕ) → shifted (idx + 1) res o ≡ shifted idx res (on o)
shifted-on idx res none = refl
shifted-on idx res (some i) = ground arith

shifted-here_or_on :
    (idx : ℕ) (res o : Option ℕ) → shifted (idx + 1) (some idx) o ≡ shifted idx res (here_or_on o)
shifted-here_or_on idx res none = ground arith
shifted-here_or_on idx res (some i) = ground arith

pub shifted-start : (o : Option ℕ) → shifted 0 none o ≡ o
shifted-start none = refl
shifted-start (some i) = ground arith

scan_end : (cpu_id idx bound : ℕ) (res : Option ℕ) → scan cpu_id [] idx bound res ≡ res
unfolding scan
scan_end cpu_id idx bound res = refl

scan_better :
    (cpu_id : ℕ) (u : TaskInfo) (tasks : Tasks) (idx bound : ℕ) (res : Option ℕ)
    → (allows u cpu_id && ltb u.nice bound) ≡ true
    → scan cpu_id (u ∷ tasks) idx bound res ≡ scan cpu_id tasks (idx + 1) u.nice (some idx)
unfolding scan
scan_better cpu_id u tasks idx bound res e = rw (e, scan)

scan_worse :
    (cpu_id : ℕ) (u : TaskInfo) (tasks : Tasks) (idx bound : ℕ) (res : Option ℕ)
    → (allows u cpu_id && ltb u.nice bound) ≡ false
    → scan cpu_id (u ∷ tasks) idx bound res ≡ scan cpu_id tasks (idx + 1) bound res
unfolding scan
scan_worse cpu_id u tasks idx bound res e = rw (e, scan)

-- A task in front that beats the bound: the best of the rest under its own `nice`, or itself.
Best-better :
    (cpu_id : ℕ) (u : TaskInfo) (tasks : Tasks) (bound : ℕ)
    → (allows u cpu_id && ltb u.nice bound) ≡ true
    → (o : Option ℕ) → Best cpu_id tasks u.nice o
    → Best cpu_id (u ∷ tasks) bound (here_or_on o)
Best-better cpu_id u tasks bound b none (nobody a) =
    found 0 u refl (ground arith) (ground arith)
      (
        (λ _. ground arith),
        All-map {P = λ t. (allows t cpu_id && ltb t.nice u.nice) ≡ false} (λ t e p. ground arith)
            tasks a,
      )
      tt
Best-better cpu_id u tasks bound b (some _) (found i t g p lt a f) =
    found (suc i) t g p (ground arith) ((λ _. ground arith), a) ((λ _. lt), f)

Best-worse :
    (cpu_id : ℕ) (u : TaskInfo) (tasks : Tasks) (bound : ℕ)
    → (allows u cpu_id && ltb u.nice bound) ≡ false
    → (o : Option ℕ) → Best cpu_id tasks bound o
    → Best cpu_id (u ∷ tasks) bound (on o)
Best-worse cpu_id u tasks bound b none (nobody a) = nobody (b, a)
Best-worse cpu_id u tasks bound b (some _) (found i t g p lt a f) =
    found (suc i) t g p lt ((λ q. ground arith), a) ((λ q. ground arith), f)

pub scan-Best :
    (cpu_id : ℕ) (tasks : Tasks) (idx bound : ℕ) (res : Option ℕ)
    → (o : Option ℕ) × Best cpu_id tasks bound o
      × (scan cpu_id tasks idx bound res ≡ shifted idx res o)
scan-Best cpu_id [] idx bound res = (none, nobody tt, scan_end cpu_id idx bound res)
scan-Best cpu_id (u ∷ tasks) idx bound res =
    elim (Bool-cases (allows u cpu_id && ltb u.nice bound)) [
      | inl better ↦
          let (o, best, e) = scan-Best cpu_id tasks (idx + 1) u.nice (some idx) in
          (
            here_or_on o,
            Best-better cpu_id u tasks bound better o best,
            scan_better cpu_id u tasks idx bound res better ∙ (e ∙ shifted-here_or_on idx res o),
          )
      | inr worse ↦
          let (o, best, e) = scan-Best cpu_id tasks (idx + 1) bound res in
          (
            on o,
            Best-worse cpu_id u tasks bound worse o best,
            scan_worse cpu_id u tasks idx bound res worse ∙ (e ∙ shifted-on idx res o),
          )
    ]
