-- ===== src/Task/Process/Family.antt =====
-- The tree of processes: who is a child of whom, and that an exit keeps it.
use mathlib.Core.Path.{subst}
use domains.Prelude.{
  ℕ, ◌≡◌, ◌≢◌, sym, List, [], ◌∷◌, some, ◌==◌, if◌then◌else◌, arith, Bool-cases, inl, inr, ◌⊎◌, ◌∙◌,
  ap, All, All-map,
}
use domains.Prelude.Map.{insert, All-insert}
use domains.Task.Process.State.{Task, System, get, update, get-update}
use domains.Task.Process.Sessions.{get-update-inv}
use domains.Task.Process.Exit.{adopt_one, adopt}

-- The task under `c` is in the store and has the one under `i` as its parent.
abbrev pub IsChild : System → ℕ → ℕ → Type 0
IsChild s i c = (t : Task) × (get s c ≡ some t) × (t.parent ≡ some i)

-- All the children of the task under `i` are.
abbrev pub IsParent : System → ℕ → Type 0
IsParent s i = (p : Task) → get s i ≡ some p → All (λ (x : ℕ × ℕ). IsChild s i x.1) p.children

abbrev pub IsFamily : System → Type 0
IsFamily s = (i : ℕ) → IsParent s i

-- A task of the store with one of two parents.
abbrev pub HasParent : System → ℕ → ℕ → ℕ → Type 0
HasParent s a b c = (t : Task) × (get s c ≡ some t) × ((t.parent ≡ some a) ⊎ (t.parent ≡ some b))

-- What a change does to the parent and to the children of each task.
pub get-update-some :
    (s : System) (tid j : ℕ) (f : Task → Task) (t : Task)
    → get s j ≡ some t
    → get (update s tid f) j ≡ some (if tid == j then f t else t)
get-update-some s tid j f t h = ground (arith, get-update s j tid f)

-- No task has a parent besides the two.
own :
    (s : System) (me init i : ℕ)
    → i ≢ me
    → i ≢ init
    → (a b : Task) (j : ℕ) → get s j ≡ some a
    → get s j ≡ some b
    → (a.parent ≡ some me) ⊎ (a.parent ≡ some init)
    → b.parent ≢ some i
own s me init i no_me no_init a b j ha hb (inl e) e' =
    let same : a ≡ b = ground arith in ground arith
own s me init i no_me no_init a b j ha hb (inr e) e' =
    let same : a ≡ b = ground arith in ground arith

module _ (init k c : ℕ) (s : System) where
  adopt_one-parent :
      (j : ℕ) (t : Task)
      → get s j ≡ some t
      → (t' : Task) × (get (adopt_one init k c s) j ≡ some t')
        × (t'.parent ≡ (if c == j then some init else t.parent))
  unfolding adopt_one
  adopt_one-parent j t h =
      let f : Task → Task = λ (x : Task). record x { parent = some init } in
      let g : Task → Task = λ (x : Task). record x { children = insert k c x.children } in
      let u : Task = if c == j then f t else t in
      (
        (if init == j then g u else u),
        get-update-some (update s c f) init j g u (get-update-some s c j f t h),
        ground arith,
      )

  adopt_one-children :
      (i : ℕ) (p' : Task)
      → get (adopt_one init k c s) i ≡ some p'
      → (p : Task) × (get s i ≡ some p)
        × (p'.children ≡ (if init == i then insert k c p.children else p.children))
  unfolding adopt_one
  adopt_one-children i p' h =
      let f : Task → Task = λ (x : Task). record x { parent = some init } in
      let g : Task → Task = λ (x : Task). record x { children = insert k c x.children } in
      let (p1, h1, w1) = get-update-inv (update s c f) init i g p' h in
      let (p, h0, w0) = get-update-inv s c i f p1 h1 in
      let same : p1.children ≡ p.children = elim w0 [
        | inl (a, b) ↦ ground arith
        | inr (a, b) ↦ ground arith
      ] in
      elim w1 [ inl (a, b) ↦ (p, h0, ground arith) | inr (a, b) ↦ (p, h0, ground arith) ]

  -- A step of the loop keeps every child but those of `me`, whose children it gives away.
  adopt_one-IsChild :
      (me i : ℕ)
      → i ≢ me
      → HasParent s me init c
      → (j : ℕ) → IsChild s i j
      → IsChild (adopt_one init k c s) i j
  adopt_one-IsChild me i other (tc, hc, pc) j (t, ht, pt) =
      let (t', ht', pt') = adopt_one-parent j t ht in
      elim (Bool-cases (init == i)) [
        | inl is_init ↦ (t', ht', ground arith)
        | inr no_init ↦
            let apart : c ≢ j = λ same.
              own s me init i other (ground arith) tc t j (ap (get s) (sym same) ∙ hc) ht pc pt in
            (t', ht', ground arith)
      ]

  adopt_one-IsParent :
      (me i : ℕ) → i ≢ me → HasParent s me init c → IsParent s i → IsParent (adopt_one init k c s) i
  adopt_one-IsParent me i other (tc, hc, pc) h p' at =
      let (p, hp, eq) = adopt_one-children i p' at in
      let kept =
        All-map (λ (x : ℕ × ℕ) a. adopt_one-IsChild me i other (tc, hc, pc) x.1 a) p.children
          (h p hp) in
      elim (Bool-cases (init == i)) [
        | inl is_init ↦
            let (t0, h0, e0) = adopt_one-parent c tc hc in
            let new : IsChild (adopt_one init k c s) i c = (t0, h0, ground arith) in
            let eq' : insert k c p.children ≡ p'.children = ground arith in
            subst (All (λ (x : ℕ × ℕ). IsChild (adopt_one init k c s) i x.1)) eq' (
              All-insert (λ (x : ℕ × ℕ). IsChild (adopt_one init k c s) i x.1) k c p.children new
                kept)
        | inr no_init ↦
            let eq' : p.children ≡ p'.children = ground arith in
            subst (All (λ (x : ℕ × ℕ). IsChild (adopt_one init k c s) i x.1)) eq' kept
      ]

  -- A child of `me` or `init` stays one.
  adopt_one-HasParent :
      (me j : ℕ) → HasParent s me init j → HasParent (adopt_one init k c s) me init j
  adopt_one-HasParent me j (t, ht, pt) =
      let (t', ht', pt') = adopt_one-parent j t ht in
      elim (Bool-cases (c == j)) [
        | inl same ↦ (t', ht', inr (ground arith))
        | inr other ↦ elim pt [
          | inl of_me ↦ (t', ht', inl (ground arith))
          | inr of_init ↦ (t', ht', inr (ground arith))
        ]
      ]

abbrev pub Remaining : System → ℕ → ℕ → List (ℕ × ℕ) → Type 0
Remaining s me init = All (λ (x : ℕ × ℕ). HasParent s me init x.1)

adopt_one-Remaining :
    (init k c : ℕ) (s : System) (me : ℕ) (children : List (ℕ × ℕ))
    → Remaining s me init children
    → Remaining (adopt_one init k c s) me init children
adopt_one-Remaining init k c s me [] h = tt
adopt_one-Remaining init k c s me ((_, j) ∷ children) (a, h) =
    (adopt_one-HasParent init k c s me j a, adopt_one-Remaining init k c s me children h)

-- The whole loop.
pub adopt-IsParent :
    (init me i : ℕ) (children : List (ℕ × ℕ)) (s : System)
    → i ≢ me
    → Remaining s me init children
    → IsParent s i
    → IsParent (adopt init children s) i
unfolding adopt
adopt-IsParent init me i [] s other h f = f
adopt-IsParent init me i ((k, c) ∷ children) s other (a, h) f =
    adopt-IsParent init me i children (adopt_one init k c s) other
      (adopt_one-Remaining init k c s me children h) (adopt_one-IsParent init k c s me i other a f)

-- A child of `init` stays one, and at the end every child of the list is one.
module _ (init : ℕ) where
  keep-IsChild : (k c j : ℕ) (s : System) → IsChild s init j → IsChild (adopt_one init k c s) init j
  keep-IsChild k c j s (t, ht, pt) =
      let (t', ht', pt') = adopt_one-parent init k c s j t ht in (t', ht', ground arith)

  adopt-kept :
      (j : ℕ) (children : List (ℕ × ℕ)) (s : System)
      → IsChild s init j
      → IsChild (adopt init children s) init j
  unfolding adopt
  adopt-kept j [] s h = h
  adopt-kept j ((k, c) ∷ children) s h =
      adopt-kept j children (adopt_one init k c s) (keep-IsChild k c j s h)

  pub adopt-IsChild :
      (me : ℕ) (children : List (ℕ × ℕ)) (s : System)
      → Remaining s me init children
      → All (λ (x : ℕ × ℕ). IsChild (adopt init children s) init x.1) children
  unfolding adopt
  adopt-IsChild me [] s h = tt
  adopt-IsChild me ((k, c) ∷ children) s ((t, ht, pt), h) =
      let (t', ht', pt') = adopt_one-parent init k c s c t ht in
      let first : IsChild (adopt_one init k c s) init c = (t', ht', ground arith) in
      (
        adopt-kept c children (adopt_one init k c s) first,
        adopt-IsChild me children (adopt_one init k c s)
            (adopt_one-Remaining init k c s me children h),
      )
