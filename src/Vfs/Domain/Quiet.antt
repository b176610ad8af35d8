-- ===== src/Vfs/Domain/Quiet.antt =====
-- The calls of the VFS domain that leave its maps and ids: all but those that open or close.
use domains.Prelude.{
  ℕ, ◌≡◌, refl, ◌∙◌, List, Option, none, some, Bool, true, false, Outcome, ok, err, panic,
  AlienError, if◌then◌else◌,
}
use domains.Prelude.Map.{lookup}
use domains.Prelude.Act.{Act, done, fail, expect, reject, result, state_of, ◌>>=◌}
use domains.Vfs.Domain.Core.{Words}
use domains.Vfs.Domain.State.{Vfs, call, see, change, get_file, file_or_einval, slice, str}

-- The maps of a state, without its world.
pub record Maps (F M : Type 0) : Type 0 where
  pub vfs_map : List (ℕ × F)
  pub vfs_map_shadow : List (ℕ × Unit {0})
  pub inode_id : ℕ
  pub kfiles : List (ℕ × M)

module _ {W F M : Type 0} where
  abbrev pub maps : Vfs W F M → Maps F M
  maps s = record {
    vfs_map = s.vfs_map;
    vfs_map_shadow = s.vfs_map_shadow;
    inode_id = s.inode_id;
    kfiles = s.kfiles;
  }

  pub record Quiet {A : Type 0} (m : Act (Vfs W F M) A) : Type 0 where
    pub same : (s : Vfs W F M) → maps (state_of m s) ≡ maps s

  after :
      {A B : Type 0} (s : Vfs W F M) (next : A → Act (Vfs W F M) B) (p : Outcome A × Vfs W F M)
      → maps p.1 ≡ maps s
      → ((x : A) → Quiet (next x))
      → maps (state_of ((λ (_ : Vfs W F M). p) >>= next) s) ≡ maps s
  unfolding ◌>>=◌
  after s next (ok x, s') h second = (second x).same s' ∙ h
  after s next (err e, s') h second = h
  after s next (panic, s') h second = h

  pub bind-Quiet :
      {A B : Type 0} {m : Act (Vfs W F M) A} {next : A → Act (Vfs W F M) B}
      → Quiet m
      → ((x : A) → Quiet (next x))
      → Quiet (m >>= next)
  unfolding ◌>>=◌
  bind-Quiet {m = m} {next} first second = record {
    same = λ s. after s next (m s) (first.same s) second;
  }

  pub done-Quiet : {A : Type 0} (a : A) → Quiet (done a)
  done-Quiet a = record { same = λ _. refl }

  pub fail-Quiet : {A : Type 0} (e : AlienError) → Quiet (fail {A = A} e)
  fail-Quiet e = record { same = λ _. refl }

  pub result-Quiet : {A : Type 0} (o : Outcome A) → Quiet (result o)
  result-Quiet o = record { same = λ _. refl }

  pub expect-Quiet : {A : Type 0} (o : Option A) → Quiet (expect o)
  expect-Quiet none = record { same = λ _. refl }
  expect-Quiet (some a) = record { same = λ _. refl }

  pub reject-Quiet : (b : Bool) (e : AlienError) → Quiet (reject b e)
  reject-Quiet true e = record { same = λ _. refl }
  reject-Quiet false e = record { same = λ _. refl }

  pub if-Quiet :
      {A : Type 0} (b : Bool) {m n : Act (Vfs W F M) A}
      → Quiet m
      → Quiet n
      → Quiet (if b then m else n)
  if-Quiet true h k = h
  if-Quiet false h k = k

  pub call-Quiet : {A : Type 0} (m : Act W A) → Quiet (call m)
  unfolding call
  call-Quiet m = record { same = λ _. refl }

  pub see-Quiet : {A : Type 0} (g : W → A) → Quiet (see g)
  see-Quiet g = record { same = λ _. refl }

  pub change-Quiet : (g : W → W) → Quiet (change g)
  change-Quiet g = record { same = λ _. refl }

  pub get_file-Quiet : (inode : ℕ) → Quiet (get_file inode)
  unfolding get_file
  get_file-Quiet inode = record { same = λ s. (expect-Quiet (lookup inode s.vfs_map)).same s }

  pub file_or_einval-Quiet : (inode : ℕ) → Quiet (file_or_einval inode)
  unfolding file_or_einval
  file_or_einval-Quiet inode = record { same = λ _. refl }

  pub slice-Quiet : (bytes : List ℕ) (len : ℕ) → Quiet (slice bytes len)
  unfolding slice
  slice-Quiet bytes len = record { same = λ _. refl }

  pub str-Quiet : (w : Words) (bytes : List ℕ) (len : ℕ) → Quiet (str w bytes len)
  unfolding str
  str-Quiet w bytes len = record { same = λ _. refl }

  -- A step on an open file, and what follows.
  pub on_file :
      {B : Type 0} (inode : ℕ) {next : F → Act (Vfs W F M) B}
      → ((file : F) → Quiet (next file))
      → Quiet (get_file inode >>= next)
  on_file inode second = bind-Quiet (get_file-Quiet inode) second

  pub on_start :
      {B : Type 0} (inode : ℕ) {next : F → Act (Vfs W F M) B}
      → ((file : F) → Quiet (next file))
      → Quiet (file_or_einval inode >>= next)
  on_start inode second = bind-Quiet (file_or_einval-Quiet inode) second

  pub then_call :
      {A B : Type 0} (m : Act W A) {next : A → Act (Vfs W F M) B}
      → ((x : A) → Quiet (next x))
      → Quiet (call m >>= next)
  then_call m second = bind-Quiet (call-Quiet m) second

  pub then_see :
      {A B : Type 0} (g : W → A) {next : A → Act (Vfs W F M) B}
      → ((x : A) → Quiet (next x))
      → Quiet (see g >>= next)
  then_see g second = bind-Quiet (see-Quiet g) second

  pub then_str :
      {B : Type 0} (w : Words) (bytes : List ℕ) (len : ℕ) {next : List ℕ → Act (Vfs W F M) B}
      → ((x : List ℕ) → Quiet (next x))
      → Quiet (str w bytes len >>= next)
  then_str w bytes len second = bind-Quiet (str-Quiet w bytes len) second
