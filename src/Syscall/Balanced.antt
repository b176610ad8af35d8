-- ===== src/Syscall/Balanced.antt =====
-- The system calls that open a file for themselves leave the open files as they were.
use domains.Prelude.{ℕ, List, Bool, true, false, refl}
use domains.Prelude.Act.{Act, ◌>>=◌}
use domains.Prelude.Triple.{Triple}
use domains.Syscall.Domains.{TaskDomain, VfsDomain, Abi, str}
use domains.Syscall.Paths.{user_path_at, sys_faccessat, sys_fstatat}
use domains.Syscall.Links.{sys_truncate, sys_statfs}
use domains.Syscall.Balance.{View, Leaves, Promises, Before, Ends}
use domains.Syscall.Steps.{
  bind-Leaves, done-Leaves, reject-Leaves, result-Leaves, if-Leaves, str-Leaves, before, finally,
  between, between_outcome, done-Same,
}
use domains.Syscall.Opening.{opening, closing, closing_outcome}

module _ {S Seek Attr Event : Type 0} (v : View S) (a : Abi S Seek Attr)
    (vfs : VfsDomain S Seek Attr Event) (task_domain : TaskDomain S)
    (promises : Promises v vfs task_domain) where
  open v use {HasRoom}

  user_path_at-Leaves : (fd : ℕ) (path : List ℕ) → Leaves v (user_path_at a vfs task_domain fd path)
  unfolding user_path_at
  user_path_at-Leaves fd path =
      if-Leaves v _
        (if-Leaves v _ (bind-Leaves v promises.fs_info (λ x. done-Leaves v _))
          (bind-Leaves v (promises.get_fd fd) (λ x. done-Leaves v _)))
        (done-Leaves v _)

  -- A path of the user is read, and the directory found from which it goes.
  with_path :
      {B : Type 0} (strict : Bool) (s₀ : S) (fd path len : ℕ) {next : List ℕ × ℕ → ℕ × ℕ → Act S B}
      → ((tmp : List ℕ × ℕ) (roots : ℕ × ℕ)
          → Triple (Before v s₀) (next tmp roots) (Ends v strict s₀))
      → Triple
          (Before v s₀)
          (task_domain.read_string_from_user path (a.new_uninit len) >>= (λ tmp.
            str a tmp.0 tmp.1
            >>= (λ name. user_path_at a vfs task_domain fd name >>= (λ roots. next tmp roots))))
          (Ends v strict s₀)
  with_path strict s₀ fd path len rest =
      before v strict s₀ (promises.read_string path (a.new_uninit len)) (λ tmp.
        before v strict s₀ (str-Leaves v a tmp.0 tmp.1)
          (λ name. before v strict s₀ (user_path_at-Leaves fd name) (λ roots. rest tmp roots)))

  sys_faccessat-Ends :
      (s₀ : S) (dirfd path mode flag : ℕ)
      → Triple (Before v s₀) (sys_faccessat a vfs task_domain dirfd path mode flag) (Ends v true s₀)
  unfolding sys_faccessat
  sys_faccessat-Ends s₀ dirfd path mode flag = before v true s₀ (reject-Leaves v _ _) (λ x.
      with_path true s₀ dirfd path 256 (λ tmp roots.
        opening v vfs task_domain promises true s₀ roots.1 tmp.0 tmp.1 0 0
          (λ id. closing v vfs task_domain promises true s₀ id (λ y. done-Same v true s₀ 0))))

  sys_fstatat-Ends :
      (s₀ : S) (dirfd path statbuf flags : ℕ)
      → Triple
          (Before v s₀)
          (sys_fstatat a vfs task_domain dirfd path statbuf flags)
          (Ends v false s₀)
  unfolding sys_fstatat
  sys_fstatat-Ends s₀ dirfd path statbuf flags = before v false s₀ (reject-Leaves v _ _) (λ x.
      with_path false s₀ dirfd path 256 (λ tmp roots.
        opening v vfs task_domain promises false s₀ roots.1 tmp.0 tmp.1 0 _ (λ id.
          between v s₀ id (promises.getattr id) (λ stat.
            between v s₀ id (promises.copy_to_user statbuf _) (λ y.
              closing v vfs task_domain promises false s₀ id (λ z. done-Same v false s₀ 0))))))

  sys_truncate-Ends :
      (s₀ : S) (path len : ℕ)
      → Triple (Before v s₀) (sys_truncate a vfs task_domain path len) (Ends v true s₀)
  unfolding sys_truncate
  sys_truncate-Ends s₀ path len = before v true s₀ (reject-Leaves v _ _) (λ x.
      with_path true s₀ a.at_fdcwd path 256 (λ tmp roots.
        opening v vfs task_domain promises true s₀ roots.1 tmp.0 tmp.1 0 a.o_rdwr (λ id.
          between_outcome v true s₀ id (promises.ftruncate id len) (λ res.
            closing_outcome v vfs task_domain promises true s₀ id
              (λ y. finally v true s₀ (result-Leaves v res) (λ z. done-Same v true s₀ 0))))))

  sys_statfs-Ends :
      (s₀ : S) (path statbuf : ℕ)
      → Triple (Before v s₀) (sys_statfs a vfs task_domain path statbuf) (Ends v true s₀)
  unfolding sys_statfs
  sys_statfs-Ends s₀ path statbuf = before v true s₀ (reject-Leaves v _ _) (λ x.
      with_path true s₀ a.at_fdcwd path 256 (λ tmp roots.
        opening v vfs task_domain promises true s₀ roots.1 tmp.0 tmp.1 0 a.o_rdonly (λ id.
          between_outcome v true s₀ id (promises.statfs id) (λ res.
            closing_outcome v vfs task_domain promises true s₀ id (λ y.
              finally v true s₀ (result-Leaves v res) (λ stat.
                finally v true s₀ (promises.write_val a.fs_stat statbuf _)
                  (λ z. done-Same v true s₀ 0)))))))

  -- The same, for a state in which an id is left.
  at_start :
      {A : Type 0} (strict : Bool) (s : S) {m : Act S A}
      → HasRoom s
      → Triple (Before v s) m (Ends v strict s)
      → Ends v strict s (m s).0 (m s).1
  at_start strict s room h = h.holds s ((λ j. refl), room)

  pub sys_faccessat-balanced :
      (s : S) (dirfd path mode flag : ℕ)
      → HasRoom s
      → Ends v true s
          (sys_faccessat a vfs task_domain dirfd path mode flag s).0
          (sys_faccessat a vfs task_domain dirfd path mode flag s).1
  sys_faccessat-balanced s dirfd path mode flag room =
      at_start true s room (sys_faccessat-Ends s dirfd path mode flag)

  -- Over domains that keep their promises, and where an id is left, an fstatat that answers leaves
  -- the open files as they were.
  pub sys_fstatat-balanced :
      (s : S) (dirfd path statbuf flags : ℕ)
      → HasRoom s
      → Ends v false s
          (sys_fstatat a vfs task_domain dirfd path statbuf flags s).0
          (sys_fstatat a vfs task_domain dirfd path statbuf flags s).1
  sys_fstatat-balanced s dirfd path statbuf flags room =
      at_start false s room (sys_fstatat-Ends s dirfd path statbuf flags)

  -- Over domains that keep their promises, and where an id is left, a truncate that answers or
  -- fails with an error leaves the open files as they were: it closes what it opened.
  pub sys_truncate-balanced :
      (s : S) (path len : ℕ)
      → HasRoom s
      → Ends v true s
          (sys_truncate a vfs task_domain path len s).0
          (sys_truncate a vfs task_domain path len s).1
  sys_truncate-balanced s path len room = at_start true s room (sys_truncate-Ends s path len)

  pub sys_statfs-balanced :
      (s : S) (path statbuf : ℕ)
      → HasRoom s
      → Ends v true s
          (sys_statfs a vfs task_domain path statbuf s).0
          (sys_statfs a vfs task_domain path statbuf s).1
  sys_statfs-balanced s path statbuf room = at_start true s room (sys_statfs-Ends s path statbuf)
