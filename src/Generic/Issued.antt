-- ===== src/Generic/Issued.antt =====
-- The ids that the calls give out for new dentries.
use domains.Prelude.{
  ℕ, ◌≡◌, ◌+◌, ◌^◌, ◌<◌, ◌≤◌, List, Option, none, some, arith, Option-cases, inl, inr, Outcome, ok,
  err, panic,
}
use domains.Prelude.Map.{lookup, lookup-insert}
use domains.Prelude.Act.{Act, state_of, ◌>>=◌}
use domains.Generic.Core.{Dentries, Inodes, Names}
use domains.Generic.State.{Fs, issue, issued}
use domains.Generic.Keeps.{Keeps, Extends, IsFresh, dentry_at-Keeps, str-Keeps, call-Keeps}
use domains.Generic.InodeLaws.{
  found_or_inserted-Keeps, create-Keeps, link-Keeps, symlink-Keeps, lookup-Keeps,
}
use domains.Generic.Inodes as On

-- An id that was not in use names a dentry now.
pub record IsNew {W D : Type 0} (s s' : Fs W D) (id : ℕ) : Type 0 where
  pub unused : lookup id s.dentry_map ≡ none
  pub names : (x : D) × (lookup id s'.dentry_map ≡ some x)
  pub others : (j : ℕ) (x : D) → lookup j s.dentry_map ≡ some x → lookup j s'.dentry_map ≡ some x

module _ {W D : Type 0} where
  -- A call that gives out the next id.
  record Issues (m : Act (Fs W D) ℕ) : Type 0 where
    given :
        (s : Fs W D) (id : ℕ)
        → IsFresh s
        → s.inode_index + 1 < 2 ^ 64
        → (m s).0 ≡ ok id
        → (id ≡ s.inode_index) × (x : D) × (lookup id (state_of m s).dentry_map ≡ some x)

  issued-given :
      (s : Fs W D) (p : Outcome D × W) (id : ℕ)
      → (issued s p).0 ≡ ok id
      → (id ≡ s.inode_index) × (x : D) × (lookup id (issued s p).1.dentry_map ≡ some x)
  unfolding issued
  issued-given s (ok x, w) id e =
      let l = lookup-insert id s.inode_index x s.dentry_map in (ground arith, x, ground arith)
  issued-given s (err f, w) id e = absurd (ground arith)
  issued-given s (panic, w) id e = absurd (ground arith)

  issue-Issues : (make : Act W D) → Issues (issue make)
  unfolding issue
  issue-Issues make = record { given = λ s id f lt e. issued-given s (make s.world) id e }

  -- After a step that gives out no id.
  following :
      {A : Type 0} (s : Fs W D) (next : A → Act (Fs W D) ℕ) (p : Outcome A × Fs W D) (k id : ℕ)
      → s.inode_index + 1 < 2 ^ 64
      → Extends k 0 s p.1
      → ((x : A) → Issues (next x))
      → (((λ (_ : Fs W D). p) >>= next) s).0 ≡ ok id
      → (id ≡ s.inode_index)
        × (x : D) × (lookup id (((λ (_ : Fs W D). p) >>= next) s).1.dentry_map ≡ some x)
  unfolding ◌>>=◌
  following s next (ok x, s') k id lt h second e =
      let (up, down) : (s'.inode_index ≤ s.inode_index + 0) × (s.inode_index ≤ s'.inode_index) =
        (h.bounded, h.grows) in
      let (a, y, c) = (second x).given s' id h.fresh (omega arith) e in (omega arith, y, c)
  following s next (err f, s') k id lt h second e = absurd (ground arith)
  following s next (panic, s') k id lt h second e = absurd (ground arith)

  then-Issues :
      {A : Type 0} {m : Act (Fs W D) A} {next : A → Act (Fs W D) ℕ}
      → Keeps 0 0 m
      → ((x : A) → Issues (next x))
      → Issues (m >>= next)
  unfolding ◌>>=◌
  then-Issues {m = m} {next} first second = record {
    given =
        λ s id f lt e. following s next (m s) 0 id lt (first.extends s f (omega arith)) second e;
  }

  -- What is given out under a fresh id is new.
  Issues-IsNew :
      (m : Act (Fs W D) ℕ) (s : Fs W D) (id : ℕ)
      → Issues m
      → ((k : ℕ) → Keeps k 1 m)
      → IsFresh s
      → s.inode_index + 1 < 2 ^ 64
      → (m s).0 ≡ ok id
      → IsNew s (state_of m s) id
  Issues-IsNew m s id h keeps f lt e =
      let (a, x, c) = h.given s id f lt e in
      record {
        unused = elim (Option-cases (lookup id s.dentry_map)) [
          | inl free ↦ free
          | inr (y, used) ↦ let below = f id y used in absurd (omega arith)
        ];
        names = (x, c);
        others = λ j y at. ((keeps j).extends s f lt).kept y at;
      }

module _ {W D I Attr Stat : Type 0} (d : Dentries W D I) (i : Inodes W I Attr Stat)
    (n : Names) where
  create-Issues :
      (parent : ℕ) (bytes : List ℕ) (ty perm : ℕ) (rdev : Option ℕ)
      → Issues (On.create d i n parent bytes ty perm rdev)
  unfolding On.create
  create-Issues parent bytes ty perm rdev = then-Issues (dentry_at-Keeps 0 parent) (λ x0.
      then-Issues (call-Keeps 0 _) (λ x1.
        then-Issues (str-Keeps 0 n bytes)
          (λ x2. then-Issues (call-Keeps 0 _) (λ x3. issue-Issues _))))

  -- A create of a file-system domain that answers, where all ids in use were given out and the ids
  -- do not reach 2 ^ 64, gives an id that named nothing, which then names a dentry, and every
  -- other id names what it named.
  pub create-IsNew :
      (parent : ℕ) (bytes : List ℕ) (ty perm : ℕ) (rdev : Option ℕ) (s : Fs W D) (id : ℕ)
      → IsFresh s
      → s.inode_index + 1 < 2 ^ 64
      → (On.create d i n parent bytes ty perm rdev s).0 ≡ ok id
      → IsNew s (state_of (On.create d i n parent bytes ty perm rdev) s) id
  create-IsNew parent bytes ty perm rdev s id f lt e =
      Issues-IsNew (On.create d i n parent bytes ty perm rdev) s id
        (create-Issues parent bytes ty perm rdev)
        (λ k. create-Keeps d i n k parent bytes ty perm rdev) f lt e

  link-Issues : (parent : ℕ) (bytes : List ℕ) (src : ℕ) → Issues (On.link d i n parent bytes src)
  unfolding On.link
  link-Issues parent bytes src = then-Issues (dentry_at-Keeps 0 parent) (λ x0.
      then-Issues (str-Keeps 0 n bytes) (λ x1. then-Issues (dentry_at-Keeps 0 src) (λ x2.
        then-Issues (call-Keeps 0 _) (λ x3.
          then-Issues (call-Keeps 0 _)
            (λ x4. then-Issues (call-Keeps 0 _) (λ x5. issue-Issues _))))))

  pub link-IsNew :
      (parent : ℕ) (bytes : List ℕ) (src : ℕ) (s : Fs W D) (id : ℕ)
      → IsFresh s
      → s.inode_index + 1 < 2 ^ 64
      → (On.link d i n parent bytes src s).0 ≡ ok id
      → IsNew s (state_of (On.link d i n parent bytes src) s) id
  link-IsNew parent bytes src s id f lt e =
      Issues-IsNew (On.link d i n parent bytes src) s id (link-Issues parent bytes src)
        (λ k. link-Keeps d i n k parent bytes src) f lt e

  symlink-Issues :
      (parent : ℕ) (bytes target : List ℕ) → Issues (On.symlink d i n parent bytes target)
  unfolding On.symlink
  symlink-Issues parent bytes target = then-Issues (dentry_at-Keeps 0 parent) (λ x0.
      then-Issues (str-Keeps 0 n bytes) (λ x1. then-Issues (str-Keeps 0 n target) (λ x2.
        then-Issues (call-Keeps 0 _) (λ x3. then-Issues (call-Keeps 0 _) (λ x4. issue-Issues _)))))

  pub symlink-IsNew :
      (parent : ℕ) (bytes target : List ℕ) (s : Fs W D) (id : ℕ)
      → IsFresh s
      → s.inode_index + 1 < 2 ^ 64
      → (On.symlink d i n parent bytes target s).0 ≡ ok id
      → IsNew s (state_of (On.symlink d i n parent bytes target) s) id
  symlink-IsNew parent bytes target s id f lt e =
      Issues-IsNew (On.symlink d i n parent bytes target) s id (symlink-Issues parent bytes target)
        (λ k. symlink-Keeps d i n k parent bytes target) f lt e

  lookup-Issues : (parent : ℕ) (bytes : List ℕ) → Issues (On.lookup d i n parent bytes)
  unfolding On.lookup
  lookup-Issues parent bytes = then-Issues (dentry_at-Keeps 0 parent) (λ x0.
      then-Issues (str-Keeps 0 n bytes) (λ x1.
        then-Issues (call-Keeps 0 _)
          (λ x2. then-Issues (found_or_inserted-Keeps d i n 0 x0 x1 x2) (λ x3. issue-Issues _))))

  -- A lookup of a file-system domain that answers, where all ids in use were given out and the ids
  -- do not reach 2 ^ 64, gives an id that named nothing, which then names a dentry, and every
  -- other id names what it named.
  pub lookup-IsNew :
      (parent : ℕ) (bytes : List ℕ) (s : Fs W D) (id : ℕ)
      → IsFresh s
      → s.inode_index + 1 < 2 ^ 64
      → (On.lookup d i n parent bytes s).0 ≡ ok id
      → IsNew s (state_of (On.lookup d i n parent bytes) s) id
  lookup-IsNew parent bytes s id f lt e =
      Issues-IsNew (On.lookup d i n parent bytes) s id (lookup-Issues parent bytes)
        (λ k. lookup-Keeps d i n k parent bytes) f lt e
