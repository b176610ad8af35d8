-- ===== src/Vfs/Domain/SpecialKeeps.antt =====
-- The calls of the VFS domain that open files: what they keep.
use domains.Prelude.{
  ℕ, Bool, ◌≡◌, refl, ◌+◌, ◌≤◌, ◌<◌, ◌^◌, List, [], none, Outcome, ok, err, panic, arith,
}
use domains.Prelude.Map.{insert}
use domains.Prelude.Act.{Act, state_of, ◌>>=◌}
use domains.Prelude.Ids as Ids
use domains.Vfs.Domain.Core.{Words, Files, Kinds, Tree}
use domains.Vfs.Domain.State.{Vfs, call}
use domains.Vfs.Domain.Quiet.{done-Quiet, expect-Quiet}
use domains.Vfs.Domain.QuietCalls.{opened-Quiet}
use domains.Vfs.Domain.Keeps.{
  Keeps, Extends, Agree, table, next_id, Quiet-Keeps, bind-Keeps, pass, special-Extends,
  insert_special_file-Keeps, insert_dentry-Keeps,
}
use domains.Vfs.Domain.Paths as At
use domains.Vfs.Domain.Special as Special

module _ {W F D M Fl : Type 0} (k : Kinds W F D M Fl) (strict : Bool) where
  pub at_most :
      {A : Type 0} (i a b : ℕ) {m : Act (Vfs W F M) A}
      → Keeps k strict i a m
      → a ≤ b
      → Keeps k strict i b m
  at_most i a b {m} h le = record {
    extends = λ s f lt.
        Ids.Extends-more table next_id (Agree k strict) i a b s (state_of m s)
          (h.extends s f (omega arith)) le;
  }

  -- Two files, neither a kernel file.
  ends-Keeps :
      (i : ℕ) (ends : F × F)
      → k.inode_id ends.0 ≡ none
      → k.inode_id ends.1 ≡ none
      → Keeps k strict i 2 (Special.insert_ends {M = M} k ends)
  unfolding Special.insert_ends
  ends-Keeps i ends first second =
      bind-Keeps k strict i 1 1 (insert_special_file-Keeps k strict i ends.0 first) (λ r.
        bind-Keeps k strict i 1 0 (insert_special_file-Keeps k strict i ends.1 second)
          (λ v. Quiet-Keeps k strict i (done-Quiet (r, v))))

  aside :
      (i : ℕ) (s : Vfs W F M) (w : W)
      → Agree k strict s
      → Extends k strict i 1 s (record s { world = w })
  aside i s w h =
      Ids.Extends-same table next_id (Agree k strict) i 1 s (record s { world = w }) h refl refl

  -- The pipe is made in the world first.
  made :
      (i : ℕ) (s : Vfs W F M) (p : Outcome (F × F) × W)
      → ((ends : F × F) → p.0 ≡ ok ends → (k.inode_id ends.0 ≡ none) × (k.inode_id ends.1 ≡ none))
      → Agree k strict s
      → s.inode_id + 2 < 2 ^ 64
      → Extends k strict i 2 s (
          state_of
            ((λ (z : Vfs W F M). (p.0, record z { world = p.1 })) >>= Special.insert_ends k)
            s)
  unfolding ◌>>=◌
  made i s (ok ends, w) special h lt =
      let (first, second) = special ends refl in
      let two = (ends-Keeps i ends first second).extends (record s { world = w }) h lt in
      record { grows = two.grows; bounded = two.bounded; fresh = two.fresh; kept = two.kept }
  made i s (err e, w) special h lt =
      Ids.Extends-same table next_id (Agree k strict) i 2 s (record s { world = w }) h refl refl
  made i s (panic, w) special h lt =
      Ids.Extends-same table next_id (Agree k strict) i 2 s (record s { world = w }) h refl refl

  pub do_pipe2-Keeps : (i flags : ℕ) → Keeps k strict i 2 (Special.do_pipe2 k flags)
  unfolding Special.do_pipe2 call ◌>>=◌
  do_pipe2-Keeps i flags = record {
    extends = λ s h lt.
        made i s (k.make_pipe_file s.world) (λ ends e. k.inode_id-make_pipe_file s.world ends e) h
          lt;
  }

  pub do_socket-Keeps : (i socket_id : ℕ) → Keeps k strict i 1 (Special.do_socket k socket_id)
  unfolding Special.do_socket Special.net_stack
  do_socket-Keeps i socket_id =
      pass k strict i (record { same = λ s. (expect-Quiet _).same s })
        (λ x.
          insert_special_file-Keeps k strict i (k.socket_file socket_id)
            (k.inode_id-socket_file socket_id))

  pub do_poll_create-Keeps : (i flags : ℕ) → Keeps k strict i 1 (Special.do_poll_create k flags)
  unfolding Special.do_poll_create
  do_poll_create-Keeps i flags = record {
    extends = λ s h lt.
        let one =
          special-Extends k strict i (record s { interests = insert s.inode_id [] s.interests })
            (k.epoll_file s.inode_id) (k.inode_id-epoll_file s.inode_id) h lt in
        record { grows = one.grows; bounded = one.bounded; fresh = one.fresh; kept = one.kept };
  }

  inserted-Extends :
      (i : ℕ) (s : Vfs W F M) (p : Outcome F × W)
      → ((file : F) → p.0 ≡ ok file → k.inode_id file ≡ none)
      → Agree k strict s
      → s.inode_id + 1 < 2 ^ 64
      → Extends k strict i 1 s (Special.insert_unwrapped k (p.0, record s { world = p.1 })).1
  unfolding Special.insert_unwrapped
  inserted-Extends i s (ok file, w) special h lt =
      let one = special-Extends k strict i (record s { world = w }) file (special file refl) h lt in
      record { grows = one.grows; bounded = one.bounded; fresh = one.fresh; kept = one.kept }
  inserted-Extends i s (err e, w) special h lt = aside i s w h
  inserted-Extends i s (panic, w) special h lt = aside i s w h

  pub do_eventfd-Keeps :
      (i init_val flags : ℕ) → Keeps k strict i 1 (Special.do_eventfd k init_val flags)
  unfolding Special.do_eventfd call
  do_eventfd-Keeps i init_val flags = record {
    extends = λ s h lt.
        inserted-Extends i s (k.eventfd init_val flags s.world)
          (λ file e. k.inode_id-eventfd init_val flags s.world file e) h lt;
  }

module _ {W F M D I Seek Attr P Sb Stat : Type 0} (w : Words) (f : Files W F D I w.Flags Seek Attr)
    (t : Tree W D I P w.Flags Sb Stat) (k : Kinds W F D M w.Flags) (strict : Bool) where
  pub vfs_open-Keeps :
      (i root : ℕ) (path : List ℕ) (len mode flags : ℕ)
      → Keeps k strict i 1 (At.vfs_open w f t k root path len mode flags)
  unfolding At.vfs_open
  vfs_open-Keeps i root path len mode flags =
      pass k strict i (opened-Quiet w f t root path len mode flags)
        (λ dentry. insert_dentry-Keeps k strict i dentry _)
