-- ===== src/Syscall/Instance.antt =====
-- The VFS domain of Vfs/Domain keeps the promises that the system calls ask for, with a task domain
-- that lives in its world.
use domains.Prelude.{
  ℕ, false, ◌≡◌, refl, sym, ◌∙◌, ap, ◌+◌, ◌≤◌, ◌<◌, ◌^◌, none, arith, Outcome, ok, err, panic,
}
use mathlib.Core.Path.{subst, subst⁻¹}
use domains.Prelude.Map.{lookup, lookup-insert}
use domains.Prelude.Act.{Act, done, state_of, ◌>>=◌}
use domains.Vfs.Domain.Core.{Words, Files, Kinds, Tree}
use domains.Vfs.Domain.State.{
  Vfs, call, insert_dentry, remove_file, entered, stored, new_kernel_file, get_or_insert, fetch_add,
}
use domains.Vfs.Domain.Quiet.{Quiet, Maps, maps, call-Quiet}
use domains.Vfs.Domain.QuietCalls.{
  opened-Quiet, vfs_getattr-Quiet, vfs_statfs-Quiet, vfs_ftruncate-Quiet,
}
use domains.Vfs.Domain.Sound.{IsSound, empty-kfiles}
use domains.Vfs.Domain.Closing.{remove_file-IsWithout}
use domains.Vfs.Domain.Keeps.{stored-Extends}
use domains.Vfs.Domain.Calls as On
use domains.Vfs.Domain.Paths as At
use domains.Vfs.Domain.Special as Special
use domains.Syscall.Domains.{TaskDomain, VfsDomain, FsStat}
use domains.Syscall.Balance.{View, Leaves, Opened, Closed, Promises}

-- A task domain of the world, seen from the kernel's state.
abbrev pub of_world : {W F M : Type 0} → TaskDomain W → TaskDomain (Vfs W F M)
of_world task = record {
  get_fd = λ fd. call (task.get_fd fd);
  add_fd = λ file. call (task.add_fd file);
  remove_fd = λ fd. call (task.remove_fd fd);
  do_dup = λ fd new. call (task.do_dup fd new);
  do_fcntl = λ fd cmd. call (task.do_fcntl fd cmd);
  fs_info = call task.fs_info;
  set_cwd = λ inode. call (task.set_cwd inode);
  copy_from_user = λ address len. call (task.copy_from_user address len);
  copy_to_user = λ address bytes. call (task.copy_to_user address bytes);
  read_string_from_user = λ address buf. call (task.read_string_from_user address buf);
  read_val_from_user = λ pod address. call (task.read_val_from_user pod address);
  write_val_to_user = λ pod address x. call (task.write_val_to_user pod address x);
}

module _ {W F M D I Seek Attr P Sb : Type 0} (w : Words) (f : Files W F D I w.Flags Seek Attr)
    (t : Tree W D I P w.Flags Sb FsStat) (k : Kinds W F D M w.Flags) where
  abbrev pub vfs_domain : VfsDomain (Vfs W F M) Seek Attr ℕ
  vfs_domain = record {
    vfs_poll = On.vfs_poll w f;
    vfs_ioctl = On.vfs_ioctl f;
    vfs_open = At.vfs_open w f t k;
    vfs_close = On.vfs_close k;
    vfs_getattr = On.vfs_getattr f;
    vfs_statfs = On.vfs_statfs f t;
    vfs_read_at = On.vfs_read_at f;
    vfs_read = On.vfs_read f;
    vfs_write_at = On.vfs_write_at f;
    vfs_write = On.vfs_write f;
    vfs_fsync = On.vfs_fsync f;
    vfs_lseek = On.vfs_lseek f;
    vfs_inode_type = On.vfs_inode_type f t;
    vfs_readdir = On.vfs_readdir f;
    vfs_get_path = On.vfs_get_path f t;
    vfs_ftruncate = On.vfs_ftruncate f;
    vfs_update_atime = On.vfs_update_atime f t;
    vfs_update_mtime = On.vfs_update_mtime f t;
    vfs_rename = At.vfs_rename w f t;
    vfs_unlink = At.vfs_unlink w f t;
    vfs_linkat = At.vfs_linkat w f t;
    vfs_symlinkat = At.vfs_symlinkat w f t;
    vfs_readlinkat = At.vfs_readlinkat w f t;
    do_fcntl = Special.do_fcntl w f;
    do_poll_create = Special.do_poll_create k;
    do_poll_ctl = Special.do_poll_ctl k w;
    do_eventfd = Special.do_eventfd k;
  }

module _ {W F D M Fl : Type 0} (k : Kinds W F D M Fl) where
  abbrev pub Settled : Maps F M → Type 0
  Settled s = IsSound k false s × (4 ≤ s.inode_id)

  abbrev pub Roomy : Maps F M → Type 0
  Roomy s = Settled s × (s.inode_id + 1 < 2 ^ 64)

  abbrev pub view : View (Vfs W F M)
  view = record {
    File = F;
    file_at = λ s j. lookup j s.vfs_map;
    IsSound = λ s. Settled (maps s);
    HasRoom = λ s. Roomy (maps s);
    sound = λ s h. h.0;
  }

  pub Quiet-Leaves : {A : Type 0} {m : Act (Vfs W F M) A} → Quiet m → Leaves view m
  Quiet-Leaves {m = m} q = record {
    same = λ s j. ap (λ (x : Maps F M). lookup j x.vfs_map) (q.same s);
    keeps_sound = λ s h. subst Settled (sym (q.same s)) h;
    keeps_room = λ s h. subst Roomy (sym (q.same s)) h;
  }

  stored-Opened :
      (s : Vfs W F M) (dentry : D) (p : Outcome M × W)
      → Roomy (maps s)
      → Opened view s
          (entered k s.inode_id (stored k dentry s.inode_id p (fetch_add s))).0
          (entered k s.inode_id (stored k dentry s.inode_id p (fetch_add s))).1
  unfolding entered stored
  stored-Opened s dentry (ok meta, w) ((sound, above), lt) =
      let one = stored-Extends k false 0 s dentry (ok meta, w) sound lt in
      let up = one.grows in
      (
        above,
        (sound.unused s.inode_id (omega arith)).0,
        (one.fresh, omega arith),
        λ j away.
            let l = lookup-insert j s.inode_id (k.kernel_file meta dentry s.inode_id) s.vfs_map in
            l ∙ rw (away) refl,
      )
  stored-Opened s dentry (err e, w) h = λ j. refl
  stored-Opened s dentry (panic, w) h = λ j. refl

  insert_dentry-Opened :
      (s : Vfs W F M) (dentry : D) (flags : Fl)
      → Roomy (maps s)
      → Opened view s (insert_dentry k dentry flags s).0 (state_of (insert_dentry k dentry flags) s)
  unfolding insert_dentry new_kernel_file get_or_insert
  insert_dentry-Opened s dentry flags h =
      let ((sound, above), lt) = h in
      let free : lookup s.inode_id s.kfiles ≡ none =
        empty-kfiles k false (maps s) s.inode_id sound (sound.unused s.inode_id (omega arith)).0 in
      rw (free, state_of) (stored-Opened s dentry (k.new_meta dentry flags s.world) h)

  -- `vfs_close` leaves the state that `remove_file` does.
  close_of :
      (p : Outcome (Unit {0}) × Vfs W F M) (s : Vfs W F M)
      → state_of
          ((λ (_ : Vfs W F M). p) >>= (λ (_ : Unit {0}). done {S = Vfs W F M} {A = Unit {0}} tt))
          s
        ≡ p.1
  unfolding ◌>>=◌
  close_of (ok tt, s') s = refl
  close_of (err x, s') s = refl
  close_of (panic, s') s = refl

  vfs_close-Closed :
      (id : ℕ) (s : Vfs W F M)
      → 4 ≤ id
      → Settled (maps s)
      → Closed view id s (state_of (On.vfs_close k id) s)
  unfolding On.vfs_close ◌>>=◌
  vfs_close-Closed id s le (sound, above) =
      let (answers, without) = remove_file-IsWithout k false id s sound le in
      subst⁻¹ (Closed view id s) (close_of (remove_file k id s) s) without.file

  over_same :
      (s s' : Vfs W F M) (p : Outcome ℕ × Vfs W F M)
      → maps s' ≡ maps s
      → Opened view s' p.0 p.1
      → Opened view s p.0 p.1
  over_same s s' (ok id, s2) same (above, free, sound, others) =
      let look : (j : ℕ) → lookup j s'.vfs_map ≡ lookup j s.vfs_map =
        λ (j : ℕ). ap (λ (x : Maps F M). lookup j x.vfs_map) same in
      (above, sym (look id) ∙ free, sound, λ j away. others j away ∙ look j)
  over_same s s' (err e, s2) same h = λ j. h j ∙ ap (λ (x : Maps F M). lookup j x.vfs_map) same
  over_same s s' (panic, s2) same h = λ j. h j ∙ ap (λ (x : Maps F M). lookup j x.vfs_map) same

  -- Before an opening stands a call that leaves the maps.
  open_after :
      (s : Vfs W F M) (flags : Fl) (p : Outcome D × Vfs W F M)
      → maps p.1 ≡ maps s
      → Roomy (maps s)
      → Opened view s
          (((λ (_ : Vfs W F M). p) >>= (λ dentry. insert_dentry k dentry flags)) s).0
          (((λ (_ : Vfs W F M). p) >>= (λ dentry. insert_dentry k dentry flags)) s).1
  unfolding ◌>>=◌
  open_after s flags (ok dentry, s') same h =
      over_same s s' (insert_dentry k dentry flags s') same
        (insert_dentry-Opened s' dentry flags (subst Roomy (sym same) h))
  open_after s flags (err e, s') same h = λ j. ap (λ (x : Maps F M). lookup j x.vfs_map) same
  open_after s flags (panic, s') same h = λ j. ap (λ (x : Maps F M). lookup j x.vfs_map) same

module _ {W F M D I Seek Attr P Sb : Type 0} (w : Words) (f : Files W F D I w.Flags Seek Attr)
    (t : Tree W D I P w.Flags Sb FsStat) (k : Kinds W F D M w.Flags) (task : TaskDomain W) where
  abbrev quiet : {A : Type 0} {m : Act (Vfs W F M) A} → Quiet m → Leaves (view k) m
  quiet q = Quiet-Leaves k q

  -- The VFS domain, over any file systems, keeps the promises that the system calls ask for: an
  -- opening that answers gives an unused id above the first four and leaves the other open files,
  -- one that does not answers for no change, a closing takes the one file away, whatever it
  -- answers, and getattr, statfs, ftruncate and the calls of a task domain in its world leave the
  -- open files; a state promises it as long as its maps agree, up to ids that removals which
  -- panicked left in the shadow, and for openings an id is left below 2 ^ 64.
  pub vfs_domain-Promises : Promises (view k) (vfs_domain {M = M} w f t k) (of_world task)
  unfolding At.vfs_open ◌>>=◌
  vfs_domain-Promises = record {
    opens = λ root path len mode flags s h.
        open_after k s (w.from_bits_truncate flags) (At.opened w f t root path len mode flags s)
          ((opened-Quiet w f t root path len mode flags).same s) h;
    closes = λ id s le h. vfs_close-Closed k id s le h;
    getattr = λ id. quiet (vfs_getattr-Quiet w f id);
    statfs = λ id. quiet (vfs_statfs-Quiet w f t id);
    ftruncate = λ id len. quiet (vfs_ftruncate-Quiet w f id len);
    read_string = λ path buf. quiet (call-Quiet _);
    fs_info = quiet (call-Quiet _);
    get_fd = λ fd. quiet (call-Quiet _);
    copy_to_user = λ address bytes. quiet (call-Quiet _);
    write_val = λ pod address x. quiet (call-Quiet _);
  }
