-- ===== src/Prelude/Triple.antt =====
-- What holds after a call where something held before it, and what holds of an answer.
use mathlib.Core.Path.{◌≡◌, refl}
use domains.Prelude.Failure.{Outcome, ok, err, panic, AlienError}
use domains.Prelude.Act.{Act, done, ◌>>=◌}

-- What holds of every answer of a call.
abbrev pub IfOk : {A : Type 0} → (A → Type 0) → Outcome A → Type 0
IfOk P (ok x) = P x
IfOk P (err e) = Unit {0}
IfOk P panic = Unit {0}

any : {A : Type 0} (o : Outcome A) → IfOk (λ _. Unit {0}) o
any (ok x) = tt
any (err e) = tt
any panic = tt

module _ {S : Type 0} where
  pub record Triple {A : Type 0} (Pre : S → Type 0) (m : Act S A) (Post : Outcome A → S → Type 0)
      : Type 0 where
    pub holds : (s : S) → Pre s → Post (m s).0 (m s).1

  after :
      {A B : Type 0} (s : S) (p : Outcome A × S) (next : A → Act S B) (Mid : Outcome A → S → Type 0)
      (Post : Outcome B → S → Type 0)
      → Mid p.0 p.1
      → ((x : A) → Triple (Mid (ok x)) (next x) Post)
      → ((e : AlienError) (t : S) → Mid (err e) t → Post (err e) t)
      → ((t : S) → Mid panic t → Post panic t)
      → Post (((λ (_ : S). p) >>= next) s).0 (((λ (_ : S). p) >>= next) s).1
  unfolding ◌>>=◌
  after s (ok x, s') next Mid Post h second on_err on_panic = (second x).holds s' h
  after s (err e, s') next Mid Post h second on_err on_panic = on_err e s' h
  after s (panic, s') next Mid Post h second on_err on_panic = on_panic s' h

  pub bind-Triple :
      {A B : Type 0} {Pre : S → Type 0} {m : Act S A} {next : A → Act S B}
      {Mid : Outcome A → S → Type 0} {Post : Outcome B → S → Type 0}
      → Triple Pre m Mid
      → ((x : A) → Triple (Mid (ok x)) (next x) Post)
      → ((e : AlienError) (t : S) → Mid (err e) t → Post (err e) t)
      → ((t : S) → Mid panic t → Post panic t)
      → Triple Pre (m >>= next) Post
  unfolding ◌>>=◌
  bind-Triple {m = m} {next} {Mid} {Post} first second on_err on_panic = record {
    holds = λ s h. after s (m s) next Mid Post (first.holds s h) second on_err on_panic;
  }

  pub record Answers {A : Type 0} (P : A → Type 0) (m : Act S A) : Type 0 where
    pub answer : (s : S) → IfOk P (m s).0

  answered :
      {A B : Type 0} (s : S) (p : Outcome A × S) (P : A → Type 0) (Q : B → Type 0)
      (next : A → Act S B)
      → IfOk P p.0
      → ((x : A) → P x → Answers Q (next x))
      → IfOk Q (((λ (_ : S). p) >>= next) s).0
  unfolding ◌>>=◌
  answered s (ok x, s') P Q next h second = (second x h).answer s'
  answered s (err e, s') P Q next h second = tt
  answered s (panic, s') P Q next h second = tt

  pub bind-Answers :
      {A B : Type 0} (P : A → Type 0) (Q : B → Type 0) {m : Act S A} {next : A → Act S B}
      → Answers P m
      → ((x : A) → P x → Answers Q (next x))
      → Answers Q (m >>= next)
  unfolding ◌>>=◌
  bind-Answers P Q {m} {next} first second = record {
    answer = λ s. answered s (m s) P Q next (first.answer s) second;
  }

  -- Nothing is asked of the first call.
  pub then-Answers :
      {A B : Type 0} (Q : B → Type 0) (m : Act S A) {next : A → Act S B}
      → ((x : A) → Answers Q (next x))
      → Answers Q (m >>= next)
  then-Answers Q m {next} second =
      bind-Answers (λ _. Unit {0}) Q (record { answer = λ s. any (m s).0 }) (λ x _. second x)

  pub done-Answers : {A : Type 0} (P : A → Type 0) (x : A) → P x → Answers P (done x)
  done-Answers P x h = record { answer = λ s. h }

  same_after :
      {A B : Type 0} (s : S) (p : Outcome A × S) (P : A → Type 0) (next next' : A → Act S B)
      → IfOk P p.0
      → ((x : A) → P x → (t : S) → next x t ≡ next' x t)
      → ((λ (_ : S). p) >>= next) s ≡ ((λ (_ : S). p) >>= next') s
  unfolding ◌>>=◌
  same_after s (ok x, s') P next next' h second = second x h s'
  same_after s (err e, s') P next next' h second = refl
  same_after s (panic, s') P next next' h second = refl

  -- Two calls that go on alike after every answer.
  pub bind-same :
      {A B : Type 0} (P : A → Type 0) {m : Act S A} {next next' : A → Act S B}
      → Answers P m
      → ((x : A) → P x → (t : S) → next x t ≡ next' x t)
      → (s : S) → (m >>= next) s ≡ (m >>= next') s
  unfolding ◌>>=◌
  bind-same P {m} {next} {next'} first second s =
      same_after s (m s) P next next' (first.answer s) second

  pub nothing-Answers : {A : Type 0} (m : Act S A) → Answers (λ _. Unit {0}) m
  nothing-Answers m = record { answer = λ s. any (m s).0 }
