-- ===== src/Syscall/Balance.antt =====
-- The open files before and after the system calls that open a file for themselves alone: what the
-- calls promise of the domains, and what holds between an opening and the closing.
use domains.Prelude.{
  ℕ, ◌≡◌, ◌≤◌, List, Option, none, Bool, true, false, ◌==◌, if◌then◌else◌, Outcome, ok, err, panic,
}
use domains.Prelude.Act.{Act, state_of}
use domains.Syscall.Domains.{TaskDomain, VfsDomain, Pod}

-- The open files as the VFS domain holds them: `IsSound` says that its maps agree, `HasRoom` that
-- there is an id left besides.
pub record View (S : Type 0) : Type 1 where
  pub File : Type 0
  pub file_at : S → ℕ → Option File
  pub IsSound : S → Type 0
  pub HasRoom : S → Type 0
  pub sound : (s : S) → HasRoom s → IsSound s

module _ {S : Type 0} (v : View S) where
  open v use {File, file_at, IsSound, HasRoom}

  abbrev pub Same : S → S → Type 0
  Same s s' = (j : ℕ) → file_at s' j ≡ file_at s j

  -- A call that leaves the open files.
  pub record Leaves {A : Type 0} (m : Act S A) : Type 0 where
    pub same : (s : S) → Same s (state_of m s)
    pub keeps_sound : (s : S) → IsSound s → IsSound (state_of m s)
    pub keeps_room : (s : S) → HasRoom s → HasRoom (state_of m s)

  -- What an opening does: a new file under an id above the first four, or nothing.
  abbrev pub Opened : S → Outcome ℕ → S → Type 0
  Opened s (ok id) s' =
      (4 ≤ id)
      × (file_at s id ≡ none)
      × IsSound s'
      × ((j : ℕ) → (id == j) ≡ false → file_at s' j ≡ file_at s j)
  Opened s (err e) s' = Same s s'
  Opened s panic s' = Same s s'

  -- What a closing does, whatever it answers.
  abbrev pub Closed : ℕ → S → S → Type 0
  Closed id s s' = (j : ℕ) → file_at s' j ≡ (if id == j then none else file_at s j)

  -- What the calls promise of the domains that they run on.
  pub record Promises {Seek Attr Event : Type 0} (vfs : VfsDomain S Seek Attr Event)
      (task_domain : TaskDomain S) : Type 1 where
    pub opens :
        (root : ℕ) (path : List ℕ) (len mode flags : ℕ) (s : S)
        → HasRoom s
        → Opened s
            (vfs.vfs_open root path len mode flags s).0
            (state_of (vfs.vfs_open root path len mode flags) s)
    pub closes : (id : ℕ) (s : S) → 4 ≤ id → IsSound s → Closed id s (state_of (vfs.vfs_close id) s)
    pub getattr : (id : ℕ) → Leaves (vfs.vfs_getattr id)
    pub statfs : (id : ℕ) → Leaves (vfs.vfs_statfs id)
    pub ftruncate : (id len : ℕ) → Leaves (vfs.vfs_ftruncate id len)
    pub read_string :
        (path : ℕ) (buf : List ℕ) → Leaves (task_domain.read_string_from_user path buf)
    pub fs_info : Leaves task_domain.fs_info
    pub get_fd : (fd : ℕ) → Leaves (task_domain.get_fd fd)
    pub copy_to_user :
        (address : ℕ) (bytes : List ℕ) → Leaves (task_domain.copy_to_user address bytes)
    pub write_val :
        {A : Type 0} (pod : Pod A) (address : ℕ) (x : A)
        → Leaves (task_domain.write_val_to_user pod address x)

  -- Before the opening, between it and the closing, and after that, seen from the state `s₀` at the
  -- start.
  abbrev pub Before : S → S → Type 0
  Before s₀ s = Same s₀ s × HasRoom s

  abbrev pub During : S → ℕ → S → Type 0
  During s₀ id s =
      (4 ≤ id)
      × (file_at s₀ id ≡ none)
      × IsSound s
      × ((j : ℕ) → (id == j) ≡ false → file_at s j ≡ file_at s₀ j)

  -- At the end all is as it was; on an error where `strict`; a panic promises nothing.
  abbrev pub Ends : {A : Type 0} → Bool → S → Outcome A → S → Type 0
  Ends strict s₀ (ok x) s = Same s₀ s
  Ends true s₀ (err e) s = Same s₀ s
  Ends false s₀ (err e) s = Unit {0}
  Ends strict s₀ panic s = Unit {0}
