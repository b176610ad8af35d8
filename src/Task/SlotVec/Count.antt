-- ===== src/Task/SlotVec/Count.antt =====
-- The count of occupied slots of a `SlotVec`, and what the changes of its slots do to it.
use domains.Prelude.{
  ℕ, zero, suc, ◌+◌, ◌-◌, ◌≤◌, ◌<◌, ◌≡◌, ◌≢◌, refl, List, [], ◌∷◌, ◌++◌, Option, none, some, true,
  false, length, set, get_or, replicate, position, is_none, is_some, leb, if◌then◌else◌, arith,
  length-append, length-replicate, get_or-append, get_or-replicate, get_or_beyond,
}
use domains.Task.SlotVec.Defs.{SlotVec, get, grown}

pub below_of_leb : (n i : ℕ) → leb n i ≡ false → i < n
below_of_leb n i h = ground arith

module _ {T : Type 0} where
  -- The number of occupied slots.
  abbrev pub occupied : List (Option T) → ℕ
  occupied [] = 0
  occupied (none ∷ xs) = occupied xs
  occupied (some x ∷ xs) = suc (occupied xs)

  abbrev pub IsCounted : SlotVec T → Type 0
  IsCounted v = v.num_occupied ≡ occupied v.slots

  pub occupied-append : (xs ys : List (Option T)) → occupied (xs ++ ys) ≡ occupied xs + occupied ys
  occupied-append [] ys = omega arith
  occupied-append (none ∷ xs) ys = occupied-append xs ys
  occupied-append (some x ∷ xs) ys = omega (arith, occupied-append xs ys)

  pub occupied-append_replicate :
      (xs : List (Option T)) (n : ℕ) → occupied (xs ++ replicate n none) ≡ occupied xs
  occupied-append_replicate (none ∷ xs) n = occupied-append_replicate xs n
  occupied-append_replicate (some x ∷ xs) n = omega (arith, occupied-append_replicate xs n)
  occupied-append_replicate [] zero = refl
  occupied-append_replicate [] (suc n) = occupied-append_replicate [] n

  pub occupied-le : (xs : List (Option T)) → occupied xs ≤ length xs
  occupied-le [] = omega arith
  occupied-le (none ∷ xs) = omega (arith, occupied-le xs)
  occupied-le (some x ∷ xs) = omega (arith, occupied-le xs)

  pub one : Option T → ℕ
  one none = 0
  one (some x) = 1

  pub one-none : (o : Option T) → is_none o ≡ true → one o ≡ 0
  unfolding one
  one-none none h = refl
  one-none (some x) h = cc

  pub one-some : (x : T) → one (some x) ≡ 1
  unfolding one
  one-some x = refl

  pub occupied-set :
      (xs : List (Option T)) (i : ℕ) (o : Option T)
      → i < length xs
      → occupied (set xs i o) + one (get_or xs i none) ≡ occupied xs + one o
  unfolding one
  occupied-set [] i o h = elim h [ ]
  occupied-set (none ∷ xs) zero none h = refl
  occupied-set (none ∷ xs) zero (some y) h = omega arith
  occupied-set (some x ∷ xs) zero none h = omega arith
  occupied-set (some x ∷ xs) zero (some y) h = refl
  occupied-set (none ∷ xs) (suc i) o h = occupied-set xs i o (omega arith)
  occupied-set (some x ∷ xs) (suc i) o h = omega (arith, occupied-set xs i o (omega arith))

  -- A vector with a free slot has a first one.
  pub position-is_none_total :
      (xs : List (Option T)) → occupied xs ≢ length xs → (i : ℕ) × (position is_none xs ≡ some i)
  unfolding position
  position-is_none_total [] h = absurd (h refl)
  position-is_none_total (none ∷ xs) h = (0, refl)
  position-is_none_total (some x ∷ xs) h =
      let (i, e) = position-is_none_total xs (λ e. h (omega arith)) in (suc i, rw e)

  pub full_slot :
      (xs : List (Option T)) (j : ℕ)
      → occupied xs ≡ length xs
      → j < length xs
      → get_or xs j none ≢ none
  full_slot [] j e h = elim h [ ]
  full_slot (none ∷ xs) j e h = absurd (omega (arith, occupied-le xs))
  full_slot (some x ∷ xs) zero e h = λ p. cc
  full_slot (some x ∷ xs) (suc j) e h = full_slot xs j (omega arith) (omega arith)

  pub get-slots : (v : SlotVec T) (j : ℕ) → get v j ≡ get_or v.slots j none
  unfolding get
  get-slots v j = ground (arith, get_or_beyond v.slots j none)

  pub get_or-resize :
      (xs : List (Option T)) (n j : ℕ) → get_or (xs ++ replicate n none) j none ≡ get_or xs j none
  get_or-resize xs n j = ground (
    arith,
    get_or-append xs (replicate n none) j none,
    get_or-replicate {A = Option T} n (j - length xs) none,
    get_or_beyond xs j none,
  )

  pub get_or-grown :
      (xs : List (Option T)) (idx j : ℕ) → get_or (grown xs idx) j none ≡ get_or xs j none
  unfolding grown
  get_or-grown xs idx j = ground (arith, get_or-resize xs (idx + 1 - length xs) j)

  pub length-grown : (xs : List (Option T)) (idx : ℕ) → idx < length (grown xs idx)
  unfolding grown
  length-grown xs idx = ground (
    arith,
    length-append xs (replicate (idx + 1 - length xs) none),
    length-replicate {A = Option T} (idx + 1 - length xs) none,
  )

  pub occupied-grown : (xs : List (Option T)) (idx : ℕ) → occupied (grown xs idx) ≡ occupied xs
  unfolding grown
  occupied-grown xs idx = ground (arith, occupied-append_replicate xs (idx + 1 - length xs))

  -- The count follows a slot that is filled or emptied.
  pub counted-fill :
      (xs : List (Option T)) (idx : ℕ) (item : T) (n : ℕ)
      → idx < length xs
      → n ≡ occupied xs
      → (if is_none (get_or xs idx none) then n + 1 else n) ≡ occupied (set xs idx (some item))
  unfolding one
  counted-fill xs idx item n h c = ground (arith, occupied-set xs idx (some item) h)

  pub counted-clear :
      (xs : List (Option T)) (idx : ℕ) (n : ℕ)
      → idx < length xs
      → n ≡ occupied xs
      → (if is_some (get_or xs idx none) then n - 1 else n) ≡ occupied (set xs idx none)
  unfolding one
  counted-clear xs idx n h c = ground (arith, occupied-set xs idx none h)
