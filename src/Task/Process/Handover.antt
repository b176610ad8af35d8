-- ===== src/Task/Process/Handover.antt =====
-- The steps of an exit that keep the tree of processes: the handover of the children and the changes
-- of other fields.
use mathlib.Core.Path.{subst}
use domains.Prelude.{
  ℕ, ◌≡◌, ◌≢◌, refl, sym, [], some, ◌==◌, if◌then◌else◌, arith, inl, inr, All, All-map,
}
use domains.Task.Process.State.{Task, System, get, update}
use domains.Task.Process.Sessions.{get-update-inv}
use domains.Task.Process.Exit.{adopt, leave_children}
use domains.Task.Process.State.{remove_task}
use domains.Task.Process.Family.{
  IsChild, IsParent, IsFamily, Remaining, get-update-some, adopt-IsParent, adopt-IsChild,
}

pub clear-IsChild :
    (s : System) (me i j : ℕ)
    → IsChild s i j
    → IsChild (update s me (λ (t : Task). record t { children = [] })) i j
clear-IsChild s me i j (t, ht, pt) =
    let f : Task → Task = λ (t : Task). record t { children = [] } in
    ((if me == j then f t else t), get-update-some s me j f t ht, ground arith)

-- A change of the children of one task leaves the others' families.
pub clear-IsFamily :
    (s : System) (me : ℕ)
    → ((i : ℕ) → i ≢ me → IsParent s i)
    → IsFamily (update s me (λ (t : Task). record t { children = [] }))
clear-IsFamily s me h i p at =
    let f : Task → Task = λ (t : Task). record t { children = [] } in
    let (p0, h0, w) = get-update-inv s me i f p at in
    elim w [
      | inl (a, b) ↦
          let none_left : [] ≡ p.children = ground arith in
          subst (All (λ (x : ℕ × ℕ). IsChild (update s me f) i x.1)) none_left tt
      | inr (a, b) ↦
          let kept =
            All-map (λ (x : ℕ × ℕ) y. clear-IsChild s me i x.1 y) p0.children
              (h i (λ x. a (sym x)) p0 h0) in
          subst (All (λ (x : ℕ × ℕ). IsChild (update s me f) i x.1)) (ground arith) kept
    ]

pub IsFamily-Remaining :
    (init : ℕ) (me : Task) (s : System)
    → IsFamily s
    → get s me.tid ≡ some me
    → Remaining s me.tid init me.children
IsFamily-Remaining init me s h here =
    All-map (λ (x : ℕ × ℕ) (y : IsChild s me.tid x.1). let (t, ht, pt) = y in (t, ht, inl pt))
      me.children (h me.tid me here)

pub leave_children-IsChild :
    (init : ℕ) (me : Task) (s : System)
    → IsFamily s
    → get s me.tid ≡ some me
    → All (λ (x : ℕ × ℕ). IsChild (leave_children init me s) init x.1) me.children
unfolding leave_children
leave_children-IsChild init me s h here =
    All-map (λ (x : ℕ × ℕ) y. clear-IsChild (adopt init me.children s) me.tid init x.1 y)
      me.children (adopt-IsChild init me.tid me.children s (IsFamily-Remaining init me s h here))

-- An exit hands the children on and leaves a tree.
pub leave_children-IsFamily :
    (init : ℕ) (me : Task) (s : System)
    → IsFamily s
    → get s me.tid ≡ some me
    → IsFamily (leave_children init me s)
unfolding leave_children
leave_children-IsFamily init me s h here =
    let mine = IsFamily-Remaining init me s h here in
    clear-IsFamily (adopt init me.children s) me.tid
      (λ i other. adopt-IsParent init me.tid i me.children s other mine (h i))

-- A change of a task that leaves its parent and its children leaves the tree.
module _ (s : System) (me : ℕ) (f : Task → Task)
    (same_parent : (t : Task) → (f t).parent ≡ t.parent) where
  pub update-IsChild : (i j : ℕ) → IsChild s i j → IsChild (update s me f) i j
  update-IsChild i j (t, ht, pt) =
      let p = same_parent t in
      ((if me == j then f t else t), get-update-some s me j f t ht, ground arith)

  pub update-IsFamily :
      ((t : Task) → (f t).children ≡ t.children) → IsFamily s → IsFamily (update s me f)
  update-IsFamily same_children h i p at =
      let (p0, h0, w) = get-update-inv s me i f p at in
      let c = same_children p0 in
      let eq : p0.children ≡ p.children = elim w [
        | inl (a, b) ↦ ground arith
        | inr (a, b) ↦ ground arith
      ] in
      subst (All (λ (x : ℕ × ℕ). IsChild (update s me f) i x.1)) eq
        (All-map (λ (x : ℕ × ℕ) y. update-IsChild i x.1 y) p0.children (h i p0 h0))

-- The table of tasks is no part of the tree.
pub get-remove_task : (s : System) (tid j : ℕ) → get (remove_task s tid) j ≡ get s j
unfolding get remove_task
get-remove_task s tid j = refl

pub remove_task-IsFamily : (s : System) (tid : ℕ) → IsFamily s → IsFamily (remove_task s tid)
unfolding get remove_task
remove_task-IsFamily s tid h = h
