-- ===== src/Generic/Keeps.antt =====
-- What a call leaves of the ids: those in use stay below the next one, and an id names the dentry
-- that it named before.
use domains.Prelude.{ℕ, ◌≡◌, refl, ◌+◌, ◌^◌, ◌<◌, List, Option, Outcome, ok, err, panic, arith}
use domains.Prelude.Map.{lookup}
use domains.Prelude.Act.{Act, done, expect, state_of, ◌>>=◌}
use domains.Prelude.Ids as Ids
use domains.Generic.Core.{Names}
use domains.Generic.State.{
  Fs, call, see, change, dentry_at, fetch_add, issued, issue, str, fs_domain,
}

module _ {W D : Type 0} where
  abbrev table : Fs W D → List (ℕ × D)
  table s = s.dentry_map

  abbrev next_id : Fs W D → ℕ
  next_id s = s.inode_index

  abbrev pub IsFresh : Fs W D → Type 0
  IsFresh s = Ids.IsFresh table next_id s

  abbrev pub Extends : ℕ → ℕ → Fs W D → Fs W D → Type 0
  Extends k b s s' = Ids.Extends table next_id IsFresh k b s s'

module _ {W D : Type 0} (k : ℕ) where
  abbrev pub Keeps : {A : Type 0} → ℕ → Act (Fs W D) A → Type 0
  Keeps b m = Ids.Keeps table next_id IsFresh k b m

  pub Extends-same :
      (b : ℕ) (s s' : Fs W D)
      → IsFresh s
      → s'.dentry_map ≡ s.dentry_map
      → s'.inode_index ≡ s.inode_index
      → Extends k b s s'
  Extends-same = λ b s s' f e i.
      Ids.Extends-same table next_id IsFresh k b s s' (Ids.IsFresh-same table next_id s s' f e i) e
        i

  pub bind-Keeps :
      {A B : Type 0} (a b : ℕ) {m : Act (Fs W D) A} {next : A → Act (Fs W D) B}
      → Keeps a m
      → ((x : A) → Keeps b (next x))
      → Keeps (a + b) (m >>= next)
  bind-Keeps a b first second = Ids.bind-Keeps table next_id IsFresh k a b first second

  pub pass :
      {A B : Type 0} {b : ℕ} {m : Act (Fs W D) A} {next : A → Act (Fs W D) B}
      → Keeps 0 m
      → ((x : A) → Keeps b (next x))
      → Keeps b (m >>= next)
  pass first second = Ids.pass table next_id IsFresh k first second

  pub weaken : {A : Type 0} {m : Act (Fs W D) A} → Keeps 0 m → Keeps 1 m
  weaken h = Ids.weaken table next_id IsFresh k h

  pub done-Keeps : {A : Type 0} (a : A) → Keeps 0 (done a)
  done-Keeps a = Ids.done-Keeps table next_id IsFresh k a

  pub expect-Keeps : {A : Type 0} (o : Option A) → Keeps 0 (expect o)
  expect-Keeps o = Ids.expect-Keeps table next_id IsFresh k o

  -- The steps that leave the dentries and the ids.
  pub call-Keeps : {A : Type 0} (m : Act W A) → Keeps 0 (call m)
  unfolding call
  call-Keeps m = record { extends = λ s f lt. Extends-same 0 s (state_of (call m) s) f refl refl }

  pub see-Keeps : {A : Type 0} (g : W → A) → Keeps 0 (see g)
  see-Keeps g = record { extends = λ s f lt. Extends-same 0 s s f refl refl }

  pub change-Keeps : (g : W → W) → Keeps 0 (change g)
  change-Keeps g = record {
    extends = λ s f lt. Extends-same 0 s (record s { world = g s.world }) f refl refl;
  }

  pub dentry_at-Keeps : (inode : ℕ) → Keeps 0 (dentry_at inode)
  unfolding dentry_at
  dentry_at-Keeps inode = record {
    extends = λ s f lt. (expect-Keeps (lookup inode s.dentry_map)).extends s f lt;
  }

  pub str-Keeps : (n : Names) (name : List ℕ) → Keeps 0 (str n name)
  unfolding str
  str-Keeps n name = record { extends = λ s f lt. Extends-same 0 s s f refl refl }

  pub fs_domain-Keeps : (n : Names) (name : List ℕ) → Keeps 0 (fs_domain n name)
  unfolding fs_domain
  fs_domain-Keeps n name = record { extends = λ s f lt. Extends-same 0 s s f refl refl }

  -- An id is given out, whether the dentry for it is made or not.
  fetch_add-Extends :
      (s : Fs W D) (w : W) → IsFresh s → s.inode_index + 1 < 2 ^ 64 → Extends k 1 s (fetch_add s w)
  fetch_add-Extends s w f lt = record {
    grows = omega arith;
    bounded = omega arith;
    fresh = λ j x h. let below = f j x h in omega arith;
    kept = λ x h. h;
  }

  issued-Extends :
      (s : Fs W D) (p : Outcome D × W)
      → IsFresh s
      → s.inode_index + 1 < 2 ^ 64
      → Extends k 1 s (issued s p).1
  unfolding issued
  issued-Extends s (err e, w) f lt = fetch_add-Extends s w f lt
  issued-Extends s (panic, w) f lt = fetch_add-Extends s w f lt
  issued-Extends s (ok dentry, w) f lt =
      let s' = (issued s (ok dentry, w)).1 in
      let i : s'.inode_index ≡ s.inode_index + 1 = omega arith in
      Ids.Extends-insert table next_id IsFresh k s s' dentry f
        (Ids.IsFresh-insert table next_id s s' dentry f refl i) refl i

  pub issue-Keeps : (make : Act W D) → Keeps 1 (issue make)
  unfolding issue
  issue-Keeps make = record { extends = λ s f lt. issued-Extends s (make s.world) f lt }
