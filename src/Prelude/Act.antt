-- ===== src/Prelude/Act.antt =====
-- A call on a state: it leaves a state also where it fails or panics, since the domains catch the
-- panics of their calls.
use mathlib.Core.Path.{◌≡◌, ap}
use mathlib.Core.Bool.{Bool, true, false}
use mathlib.Core.Option.{Option, none, some}
use domains.Prelude.Failure.{Outcome, ok, err, panic, AlienError}

abbrev pub Act {ℓ κ} : Type ℓ → Type κ → Type (ℓ ⊔ κ)
Act S A = S → Outcome A × S

module _ {ℓ κ} {S : Type ℓ} {A : Type κ} where
  abbrev pub done : A → Act S A
  done a s = (ok a, s)

  abbrev pub fail : AlienError → Act S A
  fail e s = (err e, s)

  -- A plain result, and a value that is unwrapped.
  abbrev pub result : Outcome A → Act S A
  result o s = (o, s)

  abbrev pub expect : Option A → Act S A
  expect none s = (panic, s)
  expect (some a) s = (ok a, s)

  abbrev pub state_of : Act S A → S → S
  state_of m s = (m s).1

-- `if refused { return Err(e); }`
abbrev pub reject {ℓ} : {S : Type ℓ} → Bool → AlienError → Act S (Unit {0})
reject true e s = (err e, s)
reject false e s = (ok tt, s)

infixl 5 ◌>>=◌ ◌>>◌
unfoldable pub ◌>>=◌ {ℓ κ κ'} :
    {S : Type ℓ} {A : Type κ} {B : Type κ'} → Act S A → (A → Act S B) → Act S B
(m >>= next) s =
    let (o, s') = m s in elim o [ ok a ↦ next a s' | err e ↦ (err e, s') | panic ↦ (panic, s') ]

abbrev pub ◌>>◌ {ℓ κ κ'} : {S : Type ℓ} {A : Type κ} {B : Type κ'} → Act S A → Act S B → Act S B
m >> next = m >>= (λ _. next)

-- A call that has answered is followed by the next one.
pub bind-ok {ℓ κ κ'} :
    {S : Type ℓ} {A : Type κ} {B : Type κ'} (m : Act S A) (next : A → Act S B) (s s' : S) (x : A)
    → m s ≡ (ok x, s')
    → (m >>= next) s ≡ next x s'
unfolding ◌>>=◌
bind-ok {S = S} {A} m next s s' x e = ap (λ (p : Outcome A × S). ((λ (_ : S). p) >>= next) s) e

pub bind-panic {ℓ κ κ'} :
    {S : Type ℓ} {A : Type κ} {B : Type κ'} (m : Act S A) (next : A → Act S B) (s s' : S)
    → m s ≡ (panic, s')
    → (m >>= next) s ≡ (panic, s')
unfolding ◌>>=◌
bind-panic {S = S} {A} m next s s' e = ap (λ (p : Outcome A × S). ((λ (_ : S). p) >>= next) s) e

pub bind-err {ℓ κ κ'} :
    {S : Type ℓ} {A : Type κ} {B : Type κ'} (m : Act S A) (next : A → Act S B) (s s' : S)
    (x : AlienError)
    → m s ≡ (err x, s')
    → (m >>= next) s ≡ (err x, s')
unfolding ◌>>=◌
bind-err {S = S} {A} m next s s' x e = ap (λ (p : Outcome A × S). ((λ (_ : S). p) >>= next) s) e
