-- ===== src/Task/Process/CloneLaws.antt =====
-- A new task joins the tree and the group of its maker.
use mathlib.Core.Path.{subst, subst⁻¹}
use domains.Prelude.{
  ℕ, ◌≡◌, refl, ap, ◌∙◌, [], Option, none, some, Bool, false, if◌then◌else◌, ◌==◌, ok, arith,
  Option-cases, Bool-cases, inl, inr, All, All-map,
}
use domains.Prelude.Map.{insert, lookup-insert, All-insert}
use domains.Task.Process.State.{Task, System, get, update, current_task}
use domains.Task.Process.Sessions.{get-update-inv}
use domains.Task.Process.Groups.{Current}
use domains.Task.Process.Clone.{CloneArgs, new_task, put_task, place, add_task, do_clone}
use domains.Task.Process.Family.{IsChild, IsFamily, get-update-some}

get-put_task :
    (s : System) (t : Task) (j : ℕ)
    → get (put_task s t) j ≡ (if t.tid == j then some t else get s j)
unfolding get put_task
get-put_task s t j = lookup-insert j t.tid t s.tasks

module _ (s : System) (new : Task) (fresh : get s new.tid ≡ none) where
  put_task-IsChild : (i j : ℕ) → IsChild s i j → IsChild (put_task s new) i j
  put_task-IsChild i j (t, ht, pt) =
      let e = get-put_task s new j in
      elim (Bool-cases (new.tid == j)) [
        | inl same ↦ let at : new.tid ≡ j = ground arith in absurd (ground (arith, ap (get s) at))
        | inr other ↦ (t, ground arith, pt)
      ]

  put_task-IsFamily : new.children ≡ [] → IsFamily s → IsFamily (put_task s new)
  put_task-IsFamily childless h i p at =
      let e = get-put_task s new i in
      elim (Bool-cases (new.tid == i)) [
        | inl same ↦
            let none_yet : [] ≡ p.children = ground arith in
            subst (All (λ (x : ℕ × ℕ). IsChild (put_task s new) i x.1)) none_yet tt
        | inr other ↦
            All-map (λ (x : ℕ × ℕ) y. put_task-IsChild i x.1 y) p.children (h i p (ground arith))
      ]

listed :
    (s : System) (me key c i j : ℕ) (t : Task)
    → get s j ≡ some t
    → t.parent ≡ some i
    → IsChild (update s me (λ (t : Task). record t { children = insert key c t.children })) i j
listed s me key c i j t ht pt =
    let f : Task → Task = λ (t : Task). record t { children = insert key c t.children } in
    ((if me == j then f t else t), get-update-some s me j f t ht, ground arith)

-- A task that has its parent gets into the children of it.
list_child-IsFamily :
    (s : System) (me key c : ℕ)
    → IsFamily s
    → IsChild s me c
    → IsFamily (update s me (λ (t : Task). record t { children = insert key c t.children }))
list_child-IsFamily s me key c h new i p at =
    let f : Task → Task = λ (t : Task). record t { children = insert key c t.children } in
    let (p0, h0, w) = get-update-inv s me i f p at in
    let keep =
      λ (x : ℕ × ℕ) (y : IsChild s i x.1). let (t, ht, pt) = y in listed s me key c i x.1 t ht pt in
    let kept = All-map keep p0.children (h i p0 h0) in
    elim w [
      | inl (same, e) ↦
          let (t, ht, pt) = new in
          let there : IsChild (update s me f) i c =
            listed s me key c i c t ht (pt ∙ ap some same) in
          let e' : insert key c p0.children ≡ p.children = ground arith in
          subst (All (λ (x : ℕ × ℕ). IsChild (update s me f) i x.1)) e'
            (All-insert (λ (x : ℕ × ℕ). IsChild (update s me f) i x.1) key c p0.children there kept)
      | inr (other, e) ↦
          let e' : p0.children ≡ p.children = ground arith in
          subst (All (λ (x : ℕ × ℕ). IsChild (update s me f) i x.1)) e' kept
    ]

place-IsFamily :
    (s : System) (me : Task) (args : CloneArgs) (new : Task)
    → IsFamily s
    → get s new.tid ≡ none
    → new.children ≡ []
    → (args.clone_parent ≡ false → new.parent ≡ some me.tid)
    → IsFamily (place s me args new)
unfolding place
place-IsFamily s me args new h fresh childless parented =
    let first = put_task-IsFamily s new fresh childless h in
    elim (Bool-cases args.clone_parent) [
      | inl parent ↦ rw (parent) first
      | inr own ↦
          let here = get-put_task s new new.tid in
          let child : IsChild (put_task s new) me.tid new.tid = (new, ground arith, parented own) in
          rw (own) (list_child-IsFamily (put_task s new) me.tid new.pid new.tid first child)
    ]

new_task-parent :
    (me : Task) (args : CloneArgs) (tid : ℕ)
    → args.clone_parent ≡ false
    → (new_task me args tid).parent ≡ some me.tid
unfolding new_task
new_task-parent me args tid own = ground arith

new_task-new :
    (me : Task) (args : CloneArgs) (tid : ℕ)
    → ((new_task me args tid).tid ≡ tid) × ((new_task me args tid).children ≡ [])
unfolding new_task
new_task-new me args tid = (refl, refl)

add_task-IsFamily : (s : System) (t : Task) → IsFamily s → IsFamily (add_task s t)
unfolding get add_task
add_task-IsFamily s t h = h

do_clone-ok :
    (s s' : System) (current : Current) (args : CloneArgs) (is_signal : Bool) (id : Option ℕ)
    (tid : ℕ)
    → do_clone s current args is_signal id ≡ ok (tid, s')
    → (me : Task) × (current_task s current ≡ some me)
      × (id ≡ some tid)
      × (s' ≡ add_task (place s me args (new_task me args tid)) (new_task me args tid))
unfolding do_clone
do_clone-ok s s' current args is_signal none tid e = elim (Option-cases (current_task s current)) [
  | inl gone ↦ absurd (ground arith)
  | inr (me, here) ↦ absurd (ground arith)
]
do_clone-ok s s' current args is_signal (some n) tid e =
    elim (Option-cases (current_task s current)) [
      | inl gone ↦ absurd (ground arith)
      | inr (me, here) ↦ (me, here, ground arith, ground arith)
    ]

-- A clone that answers with a tid that no task of the store has keeps the tree: every child that a
-- task lists is in the store and has that task as its parent.
pub do_clone-IsFamily :
    (s s' : System) (current : Current) (args : CloneArgs) (is_signal : Bool) (id : Option ℕ)
    (tid : ℕ)
    → IsFamily s
    → get s tid ≡ none
    → do_clone s current args is_signal id ≡ ok (tid, s')
    → IsFamily s'
do_clone-IsFamily s s' current args is_signal id tid h fresh e =
    let (me, _, _, made) = do_clone-ok s s' current args is_signal id tid e in
    let new = new_task me args tid in
    let (same, childless) = new_task-new me args tid in
    subst⁻¹ IsFamily made (
      add_task-IsFamily (place s me args new) new (
        place-IsFamily s me args new h (ap (get s) same ∙ fresh) childless
          (new_task-parent me args tid)))
