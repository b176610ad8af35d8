-- ===== src/Prelude/Ids.antt =====
-- A state that gives out ids: a map by ids and the next id, as two views of it. The calls on such a
-- state are sequences, and so are the proofs that they keep what the ids stand for.
use mathlib.Core.Path.{◌≡◌, refl, sym, ap, ◌∙◌, subst}
use mathlib.Core.Logic.{inl, inr}
use mathlib.Core.List.{List}
use mathlib.Core.Option.{Option, none, some}
use Prim.Native.Nat.{ℕ, ◌+◌, ◌^◌, ◌≤◌, ◌<◌}
use native.Mathlib.Omega.{arith}
use domains.Prelude.Failure.{Outcome, ok, err, panic}
use domains.Prelude.Map.{lookup, lookup-insert, insert}
use domains.Prelude.Tests.{◌==◌, Bool-cases}
use domains.Prelude.Act.{Act, done, expect, state_of, ◌>>=◌}

module _ {S V : Type 0} (table : S → List (ℕ × V)) (next_id : S → ℕ) where
  -- The ids in use were given out.
  abbrev pub IsFresh : S → Type 0
  IsFresh s = (j : ℕ) (x : V) → lookup j (table s) ≡ some x → j < next_id s

module _ {S V : Type 0} (table : S → List (ℕ × V)) (next_id : S → ℕ) where
  pub IsFresh-same :
      (s s' : S)
      → IsFresh table next_id s
      → table s' ≡ table s
      → next_id s' ≡ next_id s
      → IsFresh table next_id s'
  IsFresh-same s s' f e i j x h =
      let h' : lookup j (table s) ≡ some x = ap (lookup j) (sym e) ∙ h in
      let lt = f j x h' in omega arith

  pub IsFresh-insert :
      (s s' : S) (x : V)
      → IsFresh table next_id s
      → table s' ≡ insert (next_id s) x (table s)
      → next_id s' ≡ next_id s + 1
      → IsFresh table next_id s'
  IsFresh-insert s s' x f e i j y h =
      let l = lookup-insert j (next_id s) x (table s) in
      elim (Bool-cases (next_id s == j)) [
        | inl new ↦ ground arith
        | inr old ↦ let below = f j y (ground arith) in omega arith
      ]

module _ {S V : Type 0} (table : S → List (ℕ × V)) (next_id : S → ℕ) (Inv : S → Type 0) where
  -- From `s` to `s'` at most `b` ids are given out, and `k` goes on naming what it names.
  pub record Extends (k b : ℕ) (s s' : S) : Type 0 where
    pub grows : next_id s ≤ next_id s'
    pub bounded : next_id s' ≤ next_id s + b
    pub fresh : Inv s'
    pub kept : (x : V) → lookup k (table s) ≡ some x → lookup k (table s') ≡ some x

  module _ (k : ℕ) where
    pub record Keeps {A : Type 0} (b : ℕ) (m : Act S A) : Type 0 where
      pub extends : (s : S) → Inv s → next_id s + b < 2 ^ 64 → Extends k b s (state_of m s)

    pub Extends-same :
        (b : ℕ) (s s' : S) → Inv s' → table s' ≡ table s → next_id s' ≡ next_id s → Extends k b s s'
    Extends-same b s s' f e i = record {
      grows = omega arith;
      bounded = omega arith;
      fresh = f;
      kept = λ x h. ap (lookup k) e ∙ h;
    }

    pub Extends-more : (a b : ℕ) (s s' : S) → Extends k a s s' → a ≤ b → Extends k b s s'
    Extends-more a b s s' h le = record {
      grows = h.grows;
      bounded = let c = h.bounded in omega arith;
      fresh = h.fresh;
      kept = h.kept;
    }

    pub Extends-trans :
        (a b : ℕ) (s s' s'' : S) → Extends k a s s' → Extends k b s' s'' → Extends k (a + b) s s''
    Extends-trans a b s s' s'' g h = record {
      grows = let c = g.grows in let d = h.grows in omega arith;
      bounded = let c = g.bounded in let d = h.bounded in omega arith;
      fresh = h.fresh;
      kept = λ x e. h.kept x (g.kept x e);
    }

    -- A new entry under the next id.
    pub Extends-insert :
        (s s' : S) (x : V)
        → IsFresh table next_id s
        → Inv s'
        → table s' ≡ insert (next_id s) x (table s)
        → next_id s' ≡ next_id s + 1
        → Extends k 1 s s'
    Extends-insert s s' x f inv e i = record {
      grows = omega arith;
      bounded = omega arith;
      fresh = inv;
      kept = λ y h.
          let below = f k y h in let l = lookup-insert k (next_id s) x (table s) in ground arith;
    }

    -- A call that has answered is followed by the next, one that has failed by nothing.
    after :
        {A B : Type 0} (a b : ℕ) (s : S) (next : A → Act S B) (p : Outcome A × S)
        → next_id s + (a + b) < 2 ^ 64
        → Extends k a s p.1
        → ((x : A) → Keeps b (next x))
        → Extends k (a + b) s (state_of ((λ _. p) >>= next) s)
    unfolding ◌>>=◌
    after a b s next (ok x, s') lt h second =
        let up = h.bounded in
        Extends-trans a b s s' (state_of (next x) s') h
          ((second x).extends s' h.fresh (omega arith))
    after a b s next (err e, s') lt h second = Extends-more a (a + b) s s' h (omega arith)
    after a b s next (panic, s') lt h second = Extends-more a (a + b) s s' h (omega arith)

    pub bind-Keeps :
        {A B : Type 0} (a b : ℕ) {m : Act S A} {next : A → Act S B}
        → Keeps a m
        → ((x : A) → Keeps b (next x))
        → Keeps (a + b) (m >>= next)
    unfolding ◌>>=◌
    bind-Keeps a b {m} {next} first second = record {
      extends = λ s f lt. after a b s next (m s) lt (first.extends s f (omega arith)) second;
    }

    -- A step that gives out no id, and the rest.
    pub pass :
        {A B : Type 0} {b : ℕ} {m : Act S A} {next : A → Act S B}
        → Keeps 0 m
        → ((x : A) → Keeps b (next x))
        → Keeps b (m >>= next)
    pass {b = b} {m} {next} first second =
        subst (λ (c : ℕ). Keeps c (m >>= next)) (omega arith) (bind-Keeps 0 b first second)

    pub weaken : {A : Type 0} {m : Act S A} → Keeps 0 m → Keeps 1 m
    weaken {m = m} h = record {
      extends =
          λ s f lt. Extends-more 0 1 s (state_of m s) (h.extends s f (omega arith)) (omega arith);
    }

    -- A step that leaves the map and the next id.
    pub aside-Keeps :
        {A : Type 0} {m : Act S A}
        → ((s : S) → Inv s → Inv (state_of m s))
        → ((s : S) → table (state_of m s) ≡ table s)
        → ((s : S) → next_id (state_of m s) ≡ next_id s)
        → Keeps 0 m
    aside-Keeps {m = m} inv e i = record {
      extends = λ s f lt. Extends-same 0 s (state_of m s) (inv s f) (e s) (i s);
    }

    pub done-Keeps : {A : Type 0} (a : A) → Keeps 0 (done a)
    done-Keeps a = aside-Keeps (λ _ f. f) (λ _. refl) (λ _. refl)

    pub expect-Keeps : {A : Type 0} (o : Option A) → Keeps 0 (expect o)
    expect-Keeps none = aside-Keeps (λ _ f. f) (λ _. refl) (λ _. refl)
    expect-Keeps (some a) = aside-Keeps (λ _ f. f) (λ _. refl) (λ _. refl)
