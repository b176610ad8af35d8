-- ===== src/Prelude/Failure.antt =====
-- `AlienResult<T>`, with the panics of `unwrap`, `assert!` and slice indexing written out.
use mathlib.Core.Path.{◌≡◌, refl}
use mathlib.Core.Logic.{◌⊎◌, inl, inr}
use mathlib.Core.Option.{Option, none, some}

-- The error numbers that the code under src names.
pub data AlienError : Type 0 where
  eagain ebadf echild efault einval enospc enosys enotdir eperm erange espipe esrch : AlienError

pub data Outcome {ℓ} (A : Type ℓ) : Type ℓ where
  ok : A → Outcome A
  err : AlienError → Outcome A
  panic : Outcome A

-- `?` on a result: errors and panics pass.
infixl 5 ◌>>=◌
abbrev pub ◌>>=◌ {ℓ κ} : {A : Type ℓ} {B : Type κ} → Outcome A → (A → Outcome B) → Outcome B
panic >>= next = panic
err x >>= next = err x
ok value >>= next = next value

-- `o.ok_or(e)?`
abbrev pub ok_or {ℓ} : {A : Type ℓ} → Option A → AlienError → Outcome A
ok_or none e = err e
ok_or (some a) e = ok a

-- `o.unwrap()`
abbrev pub unwrap {ℓ} : {A : Type ℓ} → Option A → Outcome A
unwrap none = panic
unwrap (some a) = ok a

pub Outcome-cases {ℓ} :
    {A : Type ℓ} (o : Outcome A)
    → ((a : A) × (o ≡ ok a)) ⊎ ((e : AlienError) × (o ≡ err e)) ⊎ (o ≡ panic)
Outcome-cases (ok a) = inl (a, refl)
Outcome-cases (err e) = inr (inl (e, refl))
Outcome-cases panic = inr (inr refl)
