-- ===== src/Vfs/Domain/Keeps.antt =====
-- What a call of the VFS domain leaves: maps that agree, and under an id the file that it named.
use domains.Prelude.{
  ℕ, Bool, true, ◌≡◌, refl, sym, ap, ◌+◌, ◌≤◌, ◌<◌, ◌^◌, List, none, Outcome, ok, err, panic, arith,
  ◌≢◌, ltb, Bool-cases, inl, inr,
}
use mathlib.Core.Path.{subst}
use domains.Prelude.Map.{lookup}
use domains.Prelude.Act.{Act, state_of, ◌>>=◌}
use domains.Prelude.Ids as Ids
use domains.Vfs.Domain.Core.{Kinds}
use domains.Vfs.Domain.State.{
  Vfs, fetch_add, insert_special_file, new_kernel_file, get_or_insert, stored, entered,
  insert_dentry, remove_file,
}
use domains.Vfs.Domain.Quiet.{Maps, maps, Quiet, done-Quiet}
use domains.Vfs.Domain.Sound.{IsSound, IsSound-IsFresh, empty-kfiles, special_comes, kernel_comes}
use domains.Vfs.Domain.Closing.{
  DropsAnswer, drop_ends, drop_ends-true, IsWithout-IsSound, remove_file-IsWithout,
}
use domains.Vfs.Domain.Calls as On

module _ {W F M : Type 0} where
  abbrev pub table : Vfs W F M → List (ℕ × F)
  table s = s.vfs_map

  abbrev pub next_id : Vfs W F M → ℕ
  next_id s = s.inode_id

module _ {W F D M Fl : Type 0} (k : Kinds W F D M Fl) (strict : Bool) where
  abbrev pub Agree : Vfs W F M → Type 0
  Agree s = IsSound k strict (maps s)

  abbrev pub Keeps : {A : Type 0} → ℕ → ℕ → Act (Vfs W F M) A → Type 0
  Keeps i b m = Ids.Keeps table next_id Agree i b m

  abbrev pub Extends : ℕ → ℕ → Vfs W F M → Vfs W F M → Type 0
  Extends i b s s' = Ids.Extends table next_id Agree i b s s'

  pub Quiet-Keeps : {A : Type 0} (i : ℕ) {m : Act (Vfs W F M) A} → Quiet m → Keeps i 0 m
  Quiet-Keeps i {m} q =
      Ids.aside-Keeps table next_id Agree i (λ s h. subst (IsSound k strict) (sym (q.same s)) h)
        (λ s. ap (λ (x : Maps F M). x.vfs_map) (q.same s))
        (λ s. ap (λ (x : Maps F M). x.inode_id) (q.same s))

  pub bind-Keeps :
      {A B : Type 0} (i a b : ℕ) {m : Act (Vfs W F M) A} {next : A → Act (Vfs W F M) B}
      → Keeps i a m
      → ((x : A) → Keeps i b (next x))
      → Keeps i (a + b) (m >>= next)
  bind-Keeps i a b first second = Ids.bind-Keeps table next_id Agree i a b first second

  pub pass :
      {A B : Type 0} (i : ℕ) {b : ℕ} {m : Act (Vfs W F M) A} {next : A → Act (Vfs W F M) B}
      → Quiet m
      → ((x : A) → Keeps i b (next x))
      → Keeps i b (m >>= next)
  pass i first second = Ids.pass table next_id Agree i (Quiet-Keeps i first) second

  -- A file that is no kernel file.
  pub special-Extends :
      (i : ℕ) (s : Vfs W F M) (file : F)
      → k.inode_id file ≡ none
      → Agree s
      → s.inode_id + 1 < 2 ^ 64
      → Extends i 1 s (state_of (insert_special_file file) s)
  unfolding insert_special_file
  special-Extends i s file special h lt =
      let s' = state_of (insert_special_file file) s in
      let e : s'.inode_id ≡ s.inode_id + 1 = omega arith in
      Ids.Extends-insert table next_id Agree i s s' file (IsSound-IsFresh k strict s h)
        (special_comes k strict (maps s) (maps s') file h special refl refl refl e) refl e

  pub insert_special_file-Keeps :
      (i : ℕ) (file : F) → k.inode_id file ≡ none → Keeps i 1 (insert_special_file file)
  insert_special_file-Keeps i file special = record {
    extends = λ s h lt. special-Extends i s file special h lt;
  }

  -- An id that is given out for nothing.
  advanced-Extends :
      (i : ℕ) (s : Vfs W F M) (w : W)
      → Agree s
      → s.inode_id + 1 < 2 ^ 64
      → Extends i 1 s (record (fetch_add s) { world = w })
  advanced-Extends i s w h lt = record {
    grows = omega arith;
    bounded = omega arith;
    fresh = record { slot = h.slot; unused = λ j le. h.unused j (omega arith) };
    kept = λ x e. e;
  }

  -- The new data is made, and with it the file enters.
  pub stored-Extends :
      (i : ℕ) (s : Vfs W F M) (dentry : D) (p : Outcome M × W)
      → Agree s
      → s.inode_id + 1 < 2 ^ 64
      → Extends i 1 s (entered k s.inode_id (stored k dentry s.inode_id p (fetch_add s))).1
  unfolding entered stored
  stored-Extends i s dentry (ok meta, w) h lt =
      let s' = (entered k s.inode_id (stored k dentry s.inode_id (ok meta, w) (fetch_add s))).1 in
      let file = k.kernel_file meta dentry s.inode_id in
      let e : s'.inode_id ≡ s.inode_id + 1 = omega arith in
      Ids.Extends-insert table next_id Agree i s s' file (IsSound-IsFresh k strict s h)
        (kernel_comes k strict (maps s) (maps s') file meta h
          (k.inode_id-kernel_file meta dentry s.inode_id) refl refl refl e)
        refl e
  stored-Extends i s dentry (err x, w) h lt = advanced-Extends i s w h lt
  stored-Extends i s dentry (panic, w) h lt = advanced-Extends i s w h lt

  pub insert_dentry-Keeps :
      (i : ℕ) (dentry : D) (flags : Fl) → Keeps i 1 (insert_dentry k dentry flags)
  unfolding insert_dentry new_kernel_file get_or_insert
  insert_dentry-Keeps i dentry flags = record {
    extends = λ s h lt.
        let free : lookup s.inode_id s.kfiles ≡ none =
          empty-kfiles k strict (maps s) s.inode_id h (h.unused s.inode_id (omega arith)).0 in
        rw (free, state_of) (stored-Extends i s dentry (k.new_meta dentry flags s.world) h lt);
  }

  -- A closing keeps all other files, and the first four also then.
  pub remove_file-Keeps :
      (i inode : ℕ)
      → (strict ≡ true → DropsAnswer k)
      → (4 ≤ inode → i ≢ inode)
      → Keeps i 0 (remove_file k inode)
  unfolding remove_file
  remove_file-Keeps i inode drops other = record {
    extends = λ s h lt. elim (Bool-cases (ltb inode 4)) [
      | inl first ↦ rw (first, state_of) (Ids.Extends-same table next_id Agree i 0 s s h refl refl)
      | inr later ↦
          let le : 4 ≤ inode = ground arith in
          let away = other le in
          let (answers, w) = remove_file-IsWithout k strict inode s h le in
          record {
            grows = let e = w.next in omega arith;
            bounded = let e = w.next in omega arith;
            fresh =
                IsWithout-IsSound k strict (drop_ends k (lookup inode s.vfs_map) s.world) inode
                  (maps s) (maps (state_of (remove_file k inode) s))
                  (λ e. drop_ends-true k (lookup inode s.vfs_map) s.world (drops e)) h w;
            kept = λ x e. let there = w.file i in ground arith;
          }
    ];
  }

  pub vfs_close-Keeps :
      (i inode : ℕ)
      → (strict ≡ true → DropsAnswer k)
      → (4 ≤ inode → i ≢ inode)
      → Keeps i 0 (On.vfs_close k inode)
  unfolding On.vfs_close
  vfs_close-Keeps i inode drops other =
      bind-Keeps i 0 0 (remove_file-Keeps i inode drops other) (λ x. Quiet-Keeps i (done-Quiet tt))
