-- ===== src/Vfs/Domain/SpecialLaws.antt =====
-- The flags of open files and the interests of epoll files, as the calls of the VFS domain set and
-- give them.
use domains.Prelude.{
  ℕ, ◌≡◌, refl, ◌∙◌, ap, ◌%◌, ◌^◌, List, Option, none, some, Bool, true, false, Outcome, ok, arith,
  ◌==◌, ==_refl, if◌then◌else◌, Bool-cases, inl, inr,
}
use domains.Prelude.Map.{lookup, insert, lookup-insert, lookup-remove}
use domains.Prelude.Act.{state_of, expect, bind-ok, ◌>>=◌}
use domains.Vfs.Domain.Core.{
  Words, Files, Kinds, Fcntl64Cmd, EpollCtlOp, epoll_ctl_add, epoll_ctl_del, epoll_ctl_mod, f_getfd,
  f_setfd,
}
use domains.Vfs.Domain.State.{Vfs, get_file}
use domains.Vfs.Domain.Special.{
  do_fcntl, fcntl_command, ctl, do_poll_ctl, change_interest, interest_changed,
}

bit : (n : ℕ) → ok (if (if n % 2 == 0 then false else true) then 1 else 0) ≡ ok (n % 2)
bit n = ap ok (ground arith)

module _ {W F D I Seek Attr : Type 0} (w : Words) (f : Files W F D I w.Flags Seek Attr) where
  -- The files hold the flags that they are given.
  abbrev pub HoldsFlags : F → Type 0
  HoldsFlags file =
      (flag : w.Flags) (x : W) → f.get_open_flag file (f.set_open_flag file flag x) ≡ flag

module _ (w : Words) where
  abbrev new_flag : w.Flags → ℕ → w.Flags
  new_flag flag args =
      if args % 2 == 0 then w.difference flag w.o_cloexec else w.union flag w.o_cloexec

  contains-new_flag :
      (flag : w.Flags) (args : ℕ)
      → w.contains (new_flag flag args) w.o_cloexec ≡ (if args % 2 == 0 then false else true)
  contains-new_flag flag args = elim (Bool-cases (args % 2 == 0)) [
    | inl clear ↦ rw (clear) (w.contains_taken flag)
    | inr set ↦ rw (set) (w.contains_added flag w.o_cloexec)
  ]

module _ {W F M D I Seek Attr : Type 0} (w : Words) (f : Files W F D I w.Flags Seek Attr) where
  -- A call with a known command on an open file.
  command-lem :
      (inode cmd args : ℕ) (c : Fcntl64Cmd) (s : Vfs W F M) (file : F)
      → w.fcntl_cmd (cmd % 2 ^ 32) ≡ some c
      → lookup inode s.vfs_map ≡ some file
      → do_fcntl w f inode cmd args s ≡ fcntl_command w f file c args s
  unfolding do_fcntl get_file
  command-lem inode cmd args c s file known open_file =
      let one : expect (w.fcntl_cmd (cmd % 2 ^ 32)) s ≡ (ok c, s) = rw (known) refl in
      let two : get_file {F = F} inode s ≡ (ok file, s) = rw (open_file) refl in
      bind-ok (expect (w.fcntl_cmd (cmd % 2 ^ 32))) _ s s c one
      ∙ bind-ok (get_file inode) _ s s file two

  -- The file with its new flags.
  abbrev with_flag : F → w.Flags → Vfs W F M → Vfs W F M
  with_flag file flag s = record s { world = f.set_open_flag file flag s.world }

  setfd-lem :
      (file : F) (args : ℕ) (s : Vfs W F M)
      → fcntl_command w f file f_setfd args s
        ≡ (ok 0, with_flag file (new_flag w (f.get_open_flag file s.world) args) s)
  unfolding fcntl_command ◌>>=◌
  setfd-lem file args s = elim (Bool-cases (args % 2 == 0)) [
    | inl clear ↦ rw (clear) refl
    | inr set ↦ rw (set) refl
  ]

  getfd-lem :
      (file : F) (args : ℕ) (s : Vfs W F M) (b : Bool)
      → w.contains (f.get_open_flag file s.world) w.o_cloexec ≡ b
      → fcntl_command w f file f_getfd args s ≡ (ok (if b then 1 else 0), s)
  unfolding fcntl_command ◌>>=◌
  getfd-lem file args s true e = rw (e) refl
  getfd-lem file args s false e = rw (e) refl

  -- On an open file that holds the flags that it is given, F_SETFD answers 0, and an F_GETFD right
  -- after it answers the lowest bit of the number set.
  pub do_fcntl-cloexec :
      (inode set_cmd get_cmd args unused : ℕ) (s : Vfs W F M) (file : F)
      → w.fcntl_cmd (set_cmd % 2 ^ 32) ≡ some f_setfd
      → w.fcntl_cmd (get_cmd % 2 ^ 32) ≡ some f_getfd
      → HoldsFlags w f file
      → lookup inode s.vfs_map ≡ some file
      → ((do_fcntl w f inode set_cmd args s).0 ≡ ok 0)
        × ((do_fcntl w f inode get_cmd unused (state_of (do_fcntl w f inode set_cmd args) s)).0
            ≡ ok (args % 2))
  do_fcntl-cloexec inode set_cmd get_cmd args unused s file sets gets holds open_file =
      let flag = new_flag w (f.get_open_flag file s.world) args in
      let s' = with_flag file flag s in
      let set : do_fcntl w f inode set_cmd args s ≡ (ok 0, s') =
        command-lem inode set_cmd args f_setfd s file sets open_file ∙ setfd-lem file args s in
      let b = if args % 2 == 0 then false else true in
      let has : w.contains (f.get_open_flag file s'.world) w.o_cloexec ≡ b =
        ap (λ (x : w.Flags). w.contains x w.o_cloexec) (holds flag s.world)
        ∙ contains-new_flag w (f.get_open_flag file s.world) args in
      let get : do_fcntl w f inode get_cmd unused s' ≡ (ok (if b then 1 else 0), s') =
        command-lem inode get_cmd unused f_getfd s' file gets open_file
        ∙ getfd-lem file unused s' b has in
      rw (set, state_of) (refl, ap (λ (p : Outcome ℕ × Vfs W F M). p.0) get ∙ bit args)

-- The interest in a descriptor after an operation.
abbrev pub wanted : EpollCtlOp → ℕ → ℕ → ℕ → Option ℕ → Option ℕ
wanted epoll_ctl_add fd event x before = if fd == x then some event else before
wanted epoll_ctl_mod fd event x before = if fd == x then some event else before
wanted epoll_ctl_del fd event x before = if fd == x then none else before

lookup-ctl :
    (op : EpollCtlOp) (fd event x : ℕ) (interest : List (ℕ × ℕ))
    → lookup x (ctl op fd event interest) ≡ wanted op fd event x (lookup x interest)
unfolding ctl
lookup-ctl epoll_ctl_add fd event x interest = lookup-insert x fd event interest
lookup-ctl epoll_ctl_mod fd event x interest = lookup-insert x fd event interest
lookup-ctl epoll_ctl_del fd event x interest = lookup-remove x fd interest

module _ {W F M D Fl : Type 0} (k : Kinds W F D M Fl) where
  poll_ctl_computes :
      (w : Words) (inode op fd event : ℕ) (c : EpollCtlOp) (s : Vfs W F M) (file : F) (e : ℕ)
      (interest : List (ℕ × ℕ))
      → w.epoll_ctl_op op ≡ some c
      → lookup inode s.vfs_map ≡ some file
      → k.as_epoll file ≡ some e
      → lookup e s.interests ≡ some interest
      → do_poll_ctl k w inode op fd event s
        ≡ (ok tt, record s { interests = insert e (ctl c fd event interest) s.interests })
  unfolding do_poll_ctl get_file change_interest interest_changed
  poll_ctl_computes w inode op fd event c s file e interest known open_file epoll there =
      let one : get_file {F = F} inode s ≡ (ok file, s) = rw (open_file) refl in
      let two : expect (w.epoll_ctl_op op) s ≡ (ok c, s) = rw (known) refl in
      let three : expect (k.as_epoll file) s ≡ (ok e, s) = rw (epoll) refl in
      bind-ok (get_file inode) _ s s file one
      ∙ (bind-ok (expect (w.epoll_ctl_op op)) _ s s c two
          ∙ (bind-ok (expect (k.as_epoll file)) _ s s e three ∙ rw (there) refl))

  -- An epoll_ctl with a known operation on an open epoll file answers, sets the interest in the
  -- descriptor where it adds or modifies and takes it away where it deletes, and leaves the
  -- interests in other descriptors and of other epoll files.
  pub do_poll_ctl-lem :
      (w : Words) (inode op fd event : ℕ) (c : EpollCtlOp) (s : Vfs W F M) (file : F) (e : ℕ)
      (interest : List (ℕ × ℕ))
      → w.epoll_ctl_op op ≡ some c
      → lookup inode s.vfs_map ≡ some file
      → k.as_epoll file ≡ some e
      → lookup e s.interests ≡ some interest
      → ((do_poll_ctl k w inode op fd event s).0 ≡ ok tt)
        × (after : List (ℕ × ℕ)) × (lookup e
              (state_of (do_poll_ctl k w inode op fd event) s).interests
            ≡ some after)
        × ((x : ℕ) → lookup x after ≡ wanted c fd event x (lookup x interest))
        × ((other : ℕ)
            → (e == other) ≡ false
            → lookup other (state_of (do_poll_ctl k w inode op fd event) s).interests
              ≡ lookup other s.interests)
  do_poll_ctl-lem w inode op fd event c s file e interest known open_file epoll there =
      let after = ctl c fd event interest in
      let done_so : do_poll_ctl k w inode op fd event s
          ≡ (ok tt, record s { interests = insert e after s.interests }) =
        poll_ctl_computes w inode op fd event c s file e interest known open_file epoll there in
      rw (done_so, state_of)
        (
          refl,
          after,
          lookup-insert e e after s.interests ∙ rw (==_refl e) refl,
          λ x. lookup-ctl c fd event x interest,
          λ other away. lookup-insert other e after s.interests ∙ rw (away) refl,
        )
