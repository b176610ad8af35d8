-- ===== src/Syscall/Steps.antt =====
-- The steps of a system call that opens a file for itself: before the opening, between it and the
-- closing, and after that.
use domains.Prelude.{
  ℕ, ◌≡◌, refl, sym, ◌∙◌, ap, List, Bool, true, false, if◌then◌else◌, arith, inl, inr, Outcome, ok,
  err, panic, AlienError, Outcome-cases,
}
use mathlib.Core.Path.{subst}
use domains.Prelude.Act.{Act, done, reject, result, state_of, ◌>>=◌}
use domains.Prelude.Triple.{Triple, bind-Triple}
use domains.Syscall.Domains.{Abi, str}
use domains.Syscall.Links.{outcome_of}
use domains.Syscall.Balance.{View, Same, Leaves, Before, During, Ends}

module _ {S : Type 0} (v : View S) where
  open v use {File, file_at, IsSound, HasRoom}

  after :
      {A B : Type 0} (s : S) (next : A → Act S B) (p : Outcome A × S)
      → Same v s p.1
      → (IsSound s → IsSound p.1)
      → (HasRoom s → HasRoom p.1)
      → ((x : A) → Leaves v (next x))
      → Same v s (state_of ((λ (_ : S). p) >>= next) s)
        × (IsSound s → IsSound (state_of ((λ (_ : S). p) >>= next) s))
        × (HasRoom s → HasRoom (state_of ((λ (_ : S). p) >>= next) s))
  unfolding ◌>>=◌
  after s next (ok x, s') a b c second =
      let h = second x in
      (λ j. h.same s' j ∙ a j, λ i. h.keeps_sound s' (b i), λ r. h.keeps_room s' (c r))
  after s next (err e, s') a b c second = (a, b, c)
  after s next (panic, s') a b c second = (a, b, c)

  pub bind-Leaves :
      {A B : Type 0} {m : Act S A} {next : A → Act S B}
      → Leaves v m
      → ((x : A) → Leaves v (next x))
      → Leaves v (m >>= next)
  unfolding ◌>>=◌
  bind-Leaves {m = m} {next} first second = record {
    same = λ s.
        (after s next (m s) (first.same s) (first.keeps_sound s) (first.keeps_room s) second).0;
    keeps_sound = λ s.
        (after s next (m s) (first.same s) (first.keeps_sound s) (first.keeps_room s) second).1;
    keeps_room = λ s.
        (after s next (m s) (first.same s) (first.keeps_sound s) (first.keeps_room s) second).2;
  }

  -- A call that leaves the state.
  pub result-Leaves : {A : Type 0} (o : Outcome A) → Leaves v (result o)
  result-Leaves o = record { same = λ s j. refl; keeps_sound = λ s h. h; keeps_room = λ s h. h }

  pub done-Leaves : {A : Type 0} (x : A) → Leaves v (done x)
  done-Leaves x = result-Leaves (ok x)

  pub reject-Leaves : (b : Bool) (e : AlienError) → Leaves v (reject b e)
  reject-Leaves true e = record {
    same = λ s j. refl;
    keeps_sound = λ s h. h;
    keeps_room = λ s h. h;
  }
  reject-Leaves false e = record {
    same = λ s j. refl;
    keeps_sound = λ s h. h;
    keeps_room = λ s h. h;
  }

  pub if-Leaves :
      {A : Type 0} (b : Bool) {m n : Act S A}
      → Leaves v m
      → Leaves v n
      → Leaves v (if b then m else n)
  if-Leaves true h k = h
  if-Leaves false h k = k

  pub str-Leaves :
      {Seek Attr : Type 0} (a : Abi S Seek Attr) (bytes : List ℕ) (len : ℕ)
      → Leaves v (str a bytes len)
  unfolding str
  str-Leaves a bytes len = record {
    same = λ s j. refl;
    keeps_sound = λ s h. h;
    keeps_room = λ s h. h;
  }

  pub outcome-state : {A : Type 0} (m : Act S A) (s : S) → state_of (outcome_of m) s ≡ state_of m s
  unfolding outcome_of
  outcome-state m s = elim (Outcome-cases (m s).0) [
    | inl (x, e) ↦ ground arith
    | inr (inl (x, e)) ↦ ground arith
    | inr (inr e) ↦ ground arith
  ]

  pub at_err :
      (A : Type 0) (strict : Bool) (s₀ s : S) (e : AlienError)
      → Same v s₀ s
      → Ends v {A = A} strict s₀ (err e) s
  at_err A true s₀ s e h = h
  at_err A false s₀ s e h = tt

  module _ {A B : Type 0} (strict : Bool) (s₀ : S) where
    pub before :
        {m : Act S A} {next : A → Act S B}
        → Leaves v m
        → ((x : A) → Triple (Before v s₀) (next x) (Ends v strict s₀))
        → Triple (Before v s₀) (m >>= next) (Ends v strict s₀)
    before first second =
        bind-Triple {Mid = λ o s. Before v s₀ s}
          (record { holds = λ s (h, r). (λ j. first.same s j ∙ h j, first.keeps_room s r) }) second
          (λ e s h. at_err B strict s₀ s e h.0) (λ s h. tt)

    pub finally :
        {m : Act S A} {next : A → Act S B}
        → Leaves v m
        → ((x : A) → Triple (Same v s₀) (next x) (Ends v strict s₀))
        → Triple (Same v s₀) (m >>= next) (Ends v strict s₀)
    finally first second =
        bind-Triple {Mid = λ o s. Same v s₀ s} (record { holds = λ s h j. first.same s j ∙ h j })
          second (λ e s h. at_err B strict s₀ s e h) (λ s h. tt)

  -- Between the opening and the closing.
  between_after :
      {A : Type 0} {m : Act S A} (s₀ : S) (id : ℕ) (s : S)
      → Leaves v m
      → During v s₀ id s
      → During v s₀ id (state_of m s)
  between_after s₀ id s first (above, free, sound, others) =
      (above, free, first.keeps_sound s sound, λ j away. first.same s j ∙ others j away)

  pub between :
      {A B : Type 0} (s₀ : S) (id : ℕ) {m : Act S A} {next : A → Act S B}
      → Leaves v m
      → ((x : A) → Triple (During v s₀ id) (next x) (Ends v false s₀))
      → Triple (During v s₀ id) (m >>= next) (Ends v false s₀)
  between s₀ id first second =
      bind-Triple {Mid = λ o s. During v s₀ id s}
        (record { holds = λ s h. between_after s₀ id s first h }) second (λ e s h. tt) (λ s h. tt)

  pub done-Same :
      {A : Type 0} (strict : Bool) (s₀ : S) (x : A) → Triple (Same v s₀) (done x) (Ends v strict s₀)
  done-Same strict s₀ x = record { holds = λ s h. h }

  -- `outcome_of` leaves what the call leaves, and does not fail.
  outcome-Leaves : {A : Type 0} {m : Act S A} → Leaves v m → Leaves v (outcome_of m)
  outcome-Leaves {m = m} h = record {
    same = λ s j. ap (λ (t : S). file_at t j) (outcome-state m s) ∙ h.same s j;
    keeps_sound = λ s i. subst IsSound (sym (outcome-state m s)) (h.keeps_sound s i);
    keeps_room = λ s r. subst HasRoom (sym (outcome-state m s)) (h.keeps_room s r);
  }

  abbrev NoError : {A : Type 0} → Outcome A → Type 0
  NoError (err e) = ⊥
  NoError o = Unit {0}

  answered : {A : Type 0} (s : S) (p : Outcome A × S) → NoError (outcome_of (λ (_ : S). p) s).0
  unfolding outcome_of
  answered s (ok x, s') = tt
  answered s (err e, s') = tt
  answered s (panic, s') = tt

  no_error : {A : Type 0} (m : Act S A) (s : S) → NoError (outcome_of m s).0
  unfolding outcome_of
  no_error m s = answered s (m s)

  module _ {B : Type 0} (strict : Bool) (s₀ : S) (id : ℕ) where
    pub between_outcome :
        {A : Type 0} {m : Act S A} {next : Outcome A → Act S B}
        → Leaves v m
        → ((x : Outcome A) → Triple (During v s₀ id) (next x) (Ends v strict s₀))
        → Triple (During v s₀ id) (outcome_of m >>= next) (Ends v strict s₀)
    between_outcome {m = m} first second =
        bind-Triple {Mid = λ o s. During v s₀ id s × NoError o}
          (record { holds = λ s h. (between_after s₀ id s (outcome-Leaves first) h, no_error m s) })
          (λ x. record { holds = λ s h. (second x).holds s h.0 }) (λ e s h. absurd h.1) (λ s h. tt)
