-- ===== src/Prelude/Lists.antt =====
-- Lists measured and indexed by native numbers, under the library's names.
use Prim.Native.Nat.{ℕ, zero, suc, ◌+◌, ◌-◌, ◌≤◌, ◌<◌, min}
use mathlib.Core.Path.{◌≡◌, refl, ap}
use mathlib.Core.Logic.{◌≢◌}
use mathlib.Core.Bool.{Bool, true, false}
use mathlib.Core.List.{List, [], ◌∷◌, ◌++◌}
use mathlib.Core.Option
use mathlib.Core.Option.{Option, none, some}
use native.Mathlib.Omega.{arith}
use domains.Prelude.Tests.{if◌then◌else◌, ◌==◌, ltb}

module _ {ℓ} {A : Type ℓ} where
  abbrev pub length : List A → ℕ
  length [] = 0
  length (x ∷ xs) = suc (length xs)

  abbrev pub get_elem? : List A → ℕ → Option A
  get_elem? [] i = none
  get_elem? (x ∷ xs) zero = some x
  get_elem? (x ∷ xs) (suc i) = get_elem? xs i

  abbrev pub get_or : List A → ℕ → A → A
  get_or [] i d = d
  get_or (x ∷ xs) zero d = x
  get_or (x ∷ xs) (suc i) d = get_or xs i d

  -- A write out of bounds changes nothing.
  abbrev pub set : List A → ℕ → A → List A
  set [] i v = []
  set (x ∷ xs) zero v = v ∷ xs
  set (x ∷ xs) (suc i) v = x ∷ set xs i v

  abbrev pub take : ℕ → List A → List A
  take zero ys = []
  take (suc k) [] = []
  take (suc k) (y ∷ ys) = y ∷ take k ys

  abbrev pub drop : ℕ → List A → List A
  drop zero xs = xs
  drop (suc n) [] = []
  drop (suc n) (x ∷ xs) = drop n xs

  abbrev pub replicate : ℕ → A → List A
  replicate zero a = []
  replicate (suc n) a = a ∷ replicate n a

  -- `Vec::remove` of an index in bounds.
  abbrev pub remove_at : List A → ℕ → List A
  remove_at [] i = []
  remove_at (x ∷ xs) zero = xs
  remove_at (x ∷ xs) (suc i) = x ∷ remove_at xs i

  -- `iter().position(p)`
  unfoldable pub position : (A → Bool) → List A → Option ℕ
  position p [] = none
  position p (x ∷ xs) = if p x then some 0 else Option.map suc (position p xs)

  -- `iter().any(p)`
  unfoldable pub any : (A → Bool) → List A → Bool
  any p [] = false
  any p (x ∷ xs) = let rest = any p xs in if p x then true else rest

module _ {ℓ} {A : Type ℓ} where
  pub length-append : (xs ys : List A) → length (xs ++ ys) ≡ length xs + length ys
  length-append [] ys = omega arith
  length-append (x ∷ xs) ys = omega (arith, length-append xs ys)

  pub length-set : (xs : List A) (i : ℕ) (v : A) → length (set xs i v) ≡ length xs
  length-set [] i v = refl
  length-set (x ∷ xs) zero v = refl
  length-set (x ∷ xs) (suc i) v = ap suc (length-set xs i v)

  pub length-replicate : (n : ℕ) (a : A) → length (replicate n a) ≡ n
  length-replicate zero a = refl
  length-replicate (suc n) a = ap suc (length-replicate n a)

  pub length-take : (n : ℕ) (xs : List A) → length (take n xs) ≡ min n (length xs)
  length-take zero xs = omega arith
  length-take (suc n) [] = omega arith
  length-take (suc n) (x ∷ xs) = omega (arith, length-take n xs)

  pub length-drop : (n : ℕ) (xs : List A) → length (drop n xs) ≡ length xs - n
  length-drop zero xs = omega arith
  length-drop (suc n) [] = omega arith
  length-drop (suc n) (x ∷ xs) = omega (arith, length-drop n xs)

  pub take-append-drop : (n : ℕ) (xs : List A) → take n xs ++ drop n xs ≡ xs
  take-append-drop zero xs = refl
  take-append-drop (suc n) [] = refl
  take-append-drop (suc n) (x ∷ xs) = ap (◌∷◌ x) (take-append-drop n xs)

  pub take_of_length-le : (k : ℕ) (ys : List A) → length ys ≤ k → take k ys ≡ ys
  take_of_length-le (suc m) [] h = refl
  take_of_length-le zero [] h = refl
  take_of_length-le zero (y ∷ ys) h = elim h [ ]
  take_of_length-le (suc m) (y ∷ ys) h =
      let shorter : length ys ≤ m = omega arith in ap (◌∷◌ y) (take_of_length-le m ys shorter)

  pub take-append : (xs ys : List A) → take (length xs) (xs ++ ys) ≡ xs
  take-append [] ys = refl
  take-append (x ∷ xs) ys = ap (◌∷◌ x) (take-append xs ys)

  pub drop_of_length-le : (n : ℕ) (xs : List A) → length xs ≤ n → drop n xs ≡ []
  drop_of_length-le zero [] h = refl
  drop_of_length-le zero (x ∷ xs) h = absurd (omega arith)
  drop_of_length-le (suc n) [] h = refl
  drop_of_length-le (suc n) (x ∷ xs) h = drop_of_length-le n xs (omega arith)

  pub get_elem?_beyond : (xs : List A) (i : ℕ) → length xs ≤ i → get_elem? xs i ≡ none
  get_elem?_beyond [] i h = refl
  get_elem?_beyond (x ∷ xs) zero h = absurd (omega arith)
  get_elem?_beyond (x ∷ xs) (suc i) h = get_elem?_beyond xs i (omega arith)

  pub get_elem?-eq-get_or :
      (xs : List A) (i : ℕ) (d : A) → i < length xs → get_elem? xs i ≡ some (get_or xs i d)
  get_elem?-eq-get_or [] i d h = absurd (omega arith)
  get_elem?-eq-get_or (x ∷ xs) zero d h = refl
  get_elem?-eq-get_or (x ∷ xs) (suc i) d h = get_elem?-eq-get_or xs i d (omega arith)

  -- The condition is in the statement, so that rewriting by it has no premise but the bound.
  pub get_or-set :
      (xs : List A) (i j : ℕ) (v d : A)
      → i < length xs
      → get_or (set xs i v) j d ≡ (if i == j then v else get_or xs j d)
  get_or-set [] i j v d h = absurd (omega arith)
  get_or-set (x ∷ xs) zero zero v d h = refl
  get_or-set (x ∷ xs) zero (suc j) v d h = ground arith
  get_or-set (x ∷ xs) (suc i) zero v d h = ground arith
  get_or-set (x ∷ xs) (suc i) (suc j) v d h = ground (arith, get_or-set xs i j v d)

  pub get_or-append :
      (xs ys : List A) (j : ℕ) (d : A)
      → get_or (xs ++ ys) j d
        ≡ (if ltb j (length xs) then get_or xs j d else get_or ys (j - length xs) d)
  get_or-append [] ys j d = ground arith
  get_or-append (x ∷ xs) ys zero d = ground arith
  get_or-append (x ∷ xs) ys (suc j) d = ground (arith, get_or-append xs ys j d)

  pub get_or-replicate : (n j : ℕ) (d : A) → get_or (replicate n d) j d ≡ d
  get_or-replicate zero j d = refl
  get_or-replicate (suc n) zero d = refl
  get_or-replicate (suc n) (suc j) d = get_or-replicate n j d

  pub get_or_beyond : (xs : List A) (j : ℕ) (d : A) → length xs ≤ j → get_or xs j d ≡ d
  get_or_beyond [] j d h = refl
  get_or_beyond (x ∷ xs) zero d h = absurd (omega arith)
  get_or_beyond (x ∷ xs) (suc j) d h = get_or_beyond xs j d (omega arith)

  pub position-some :
      (p : A → Bool) (xs : List A) (i : ℕ) (d : A)
      → position p xs ≡ some i
      → (i < length xs) × (p (get_or xs i d) ≡ true)
  unfolding position
  position-some p [] i d h = cc
  position-some p (x ∷ xs) zero d h = (omega arith, ground arith)
  position-some p (x ∷ xs) (suc i) d h = ground (arith, position-some p xs i d)

  -- What `position` finds is the first index whose element passes.
  pub position_first :
      (p : A → Bool) (xs : List A) (i j : ℕ) (d : A)
      → position p xs ≡ some i
      → j < i
      → p (get_or xs j d) ≡ false
  unfolding position
  position_first p [] i j d h hj = cc
  position_first p (x ∷ xs) zero j d h hj = elim hj [ ]
  position_first p (x ∷ xs) (suc i) zero d h hj = ground arith
  position_first p (x ∷ xs) (suc i) (suc j) d h hj = ground (arith, position_first p xs i j d)

  pub position-none :
      (p : A → Bool) (xs : List A) (i : ℕ) (d : A)
      → position p xs ≡ none
      → i < length xs
      → p (get_or xs i d) ≡ false
  unfolding position
  position-none p [] i d h hi = absurd (omega arith)
  position-none p (x ∷ xs) zero d h hi = ground arith
  position-none p (x ∷ xs) (suc i) d h hi = position-none p xs i d (ground arith) (omega arith)

  pub take-cons : (n : ℕ) (x : A) (xs : List A) → n ≢ 0 → take n (x ∷ xs) ≡ x ∷ take (n - 1) xs
  take-cons zero x xs h = absurd (h refl)
  take-cons (suc n) x xs h = ap (λ k. x ∷ take k xs) (omega arith)

pub take-nil {ℓ} : (A : Type ℓ) (n : ℕ) → take {A = A} n [] ≡ []
take-nil A zero = refl
take-nil A (suc n) = refl

-- A predicate on every element, by recursion, which the tactics read and build.
abbrev pub All {ℓ κ} : {A : Type ℓ} → (A → Type κ) → List A → Type κ
All P [] = Unit
All P (x ∷ xs) = P x × All P xs

pub All-map {ℓ κ κ'} :
    {A : Type ℓ} {P : A → Type κ} {Q : A → Type κ'}
    → ((x : A) → P x → Q x)
    → (xs : List A) → All P xs
    → All Q xs
All-map f [] a = tt
All-map f (x ∷ xs) (a, rest) = (f x a, All-map f xs rest)

pub drop-nil {ℓ} : (A : Type ℓ) (n : ℕ) → drop {A = A} n [] ≡ []
drop-nil A zero = refl
drop-nil A (suc n) = refl

module _ {ℓ} {A : Type ℓ} where
  -- A list, and the list without the element at an index, by the two parts round it.
  pub get_elem?_split :
      (xs : List A) (i : ℕ) {x : A}
      → get_elem? xs i ≡ some x
      → xs ≡ take i xs ++ (x ∷ drop (suc i) xs)
  get_elem?_split [] i h = cc
  get_elem?_split (y ∷ ys) zero {x} h = ground arith
  get_elem?_split (y ∷ ys) (suc i) h = ap (◌∷◌ y) (get_elem?_split ys i h)

  pub remove_at_split : (xs : List A) (i : ℕ) → remove_at xs i ≡ take i xs ++ drop (suc i) xs
  remove_at_split [] zero = refl
  remove_at_split [] (suc i) = refl
  remove_at_split (y ∷ ys) zero = refl
  remove_at_split (y ∷ ys) (suc i) = ap (◌∷◌ y) (remove_at_split ys i)

  pub position-take :
      (p : A → Bool) (xs : List A) (i : ℕ)
      → position p xs ≡ some i
      → All (λ x. p x ≡ false) (take i xs)
  unfolding position
  position-take p xs zero h = tt
  position-take p [] (suc i) h = tt
  position-take p (x ∷ xs) (suc i) h = (ground arith, position-take p xs i (ground arith))

  pub position-none-All :
      (p : A → Bool) (xs : List A) → position p xs ≡ none → All (λ x. p x ≡ false) xs
  unfolding position
  position-none-All p [] h = tt
  position-none-All p (x ∷ xs) h = (ground arith, position-none-All p xs (ground arith))

  pub position_elem :
      (p : A → Bool) (xs : List A) (i : ℕ)
      → position p xs ≡ some i
      → (x : A) × (get_elem? xs i ≡ some x) × (p x ≡ true)
  unfolding position
  position_elem p [] i h = cc
  position_elem p (x ∷ xs) zero h = (x, refl, ground arith)
  position_elem p (x ∷ xs) (suc i) h = position_elem p xs i (ground arith)
