-- ===== src/Generic/Tests.antt =====
-- A file-system domain over a file system that knows one directory and makes what it is asked for.
use domains.Prelude.{
  ℕ, ◌≡◌, refl, ◌+◌, List, [], ◌∷◌, none, some, true, false, ok, arith, length, All,
}
use domains.Prelude.Map.{lookup}
use domains.Prelude.Act.{Act, state_of, ◌>>=◌}
use domains.Generic.Core.{Dentries, Inodes, Blocks, Names}
use domains.Generic.State.{Fs, call, dentry_at, issue, issued, str}
use domains.Generic.Keeps.{IsFresh}
use domains.Generic.Run.{Call, drops, call_drop_inode, call_create, call_lookup}
use domains.Generic.Sequences.{perform_all, perform_all-kept, root_stays}
use domains.Generic.Issued.{IsNew, create-IsNew}
use domains.Generic.Inodes.{create, link, symlink, inode_at, found_or_inserted}
use domains.Generic.Inodes as On

-- The state counts the inodes; a dentry is the number of its inode.
abbrev next : Act ℕ ℕ
next w = (ok w, w + 1)

abbrev dentries : Dentries ℕ ℕ ℕ
dentries = record {
  name = λ _ _. [];
  path = λ _ _. [];
  parent = λ _ _. none;
  inode = λ x w. (ok x, w);
  find = λ _ _ w. (ok none, w);
  insert = λ _ _ x w. (ok x, w);
  remove = λ _ _ w. (ok none, w);
  set_parent = λ _ _ w. w;
  to_mount_point = λ _ _ w. (ok tt, w);
  mount_point = λ _ _. none;
  clear_mount_point = λ _ w. w;
}

abbrev inodes : Inodes ℕ ℕ ℕ ℕ
inodes = record {
  read_at = λ _ _ buf w. (ok (buf, 0), w);
  write_at = λ _ _ buf w. (ok (length buf), w);
  readdir = λ _ _ w. (ok none, w);
  poll = λ _ mask w. (ok mask, w);
  ioctl = λ _ _ _ w. (ok 0, w);
  flush = λ _ w. (ok tt, w);
  fsync = λ _ w. (ok tt, w);
  rmdir = λ _ _ w. (ok tt, w);
  node_perm = λ _ _. 0;
  create = λ _ _ _ _ _. next;
  link = λ _ _ x w. (ok x, w);
  unlink = λ _ _ w. (ok tt, w);
  symlink = λ _ _ _. next;
  lookup = λ _ _. next;
  readlink = λ _ buf w. (ok (buf, 0), w);
  set_attr = λ _ _ w. (ok tt, w);
  get_attr = λ _ w. (ok 0, w);
  inode_type = λ _ _. 0;
  truncate = λ _ _ w. (ok tt, w);
  rename_to = λ _ _ _ _ _ w. (ok tt, w);
  update_time = λ _ _ _ w. (ok tt, w);
}

abbrev blocks : Blocks ℕ ℕ ℕ ℕ ℕ
blocks = record {
  get_super_block = λ _ w. (ok 0, w);
  sync_fs = λ _ _ w. (ok tt, w);
  stat_fs = λ _ w. (ok 0, w);
  super_type = λ _ _. 0;
  magic = λ _ _. 0;
  i_mount = λ _ _ w. (ok 5, w);
  kill_sb = λ _ w. (ok tt, w);
  fs_flag = 0;
  fs_name = [];
  mount_func = none;
}

abbrev names : Names
names = record { is_utf8 = λ _. true; is_fs_domain = λ _. true }

-- Mounted: the root, inode 5, is dentry 0.
abbrev mounted : Fs ℕ ℕ
mounted = record {
  dentry_map = (0, 5) ∷ [];
  inode_index = 1;
  parent_dentry_map = [];
  root = some 5;
  magic = some 0;
  world = 6;
}

mounted-IsFresh : IsFresh mounted
unfolding lookup
mounted-IsFresh j x h = ground arith

root_here : lookup 0 mounted.dentry_map ≡ some 5
unfolding lookup
root_here = refl

-- A file is made, looked up, and the first of its ids given back.
abbrev calls : List (Call ℕ)
calls = call_create 0 [] 0 0 none ∷ call_lookup 0 [] ∷ call_drop_inode 1 ∷ []

calls_keep : All (λ c. drops c 0 ≡ false) calls
unfolding drops
calls_keep = (refl, (refl, (refl, tt)))

perform_all-kept_example :
    lookup 0 (perform_all dentries inodes blocks names calls mounted).dentry_map ≡ some 5
perform_all-kept_example =
    perform_all-kept dentries inodes blocks names calls 0 mounted 5 calls_keep mounted-IsFresh
      (omega arith) root_here

root_stays_example :
    lookup 0 (perform_all dentries inodes blocks names calls mounted).dentry_map ≡ some 5
root_stays_example =
    root_stays dentries inodes blocks names calls mounted 5 mounted-IsFresh (omega arith) root_here

creates : (create dentries inodes names 0 [] 0 0 none mounted).0 ≡ ok 1
unfolding create dentry_at call str issue issued lookup ◌>>=◌
creates = refl

create-IsNew_example :
    IsNew mounted (state_of (create dentries inodes names 0 [] 0 0 none) mounted) 1
create-IsNew_example =
    create-IsNew dentries inodes names 0 [] 0 0 none mounted 1 mounted-IsFresh (omega arith) creates

looks_up : (On.lookup dentries inodes names 0 [] mounted).0 ≡ ok 1
unfolding On.lookup found_or_inserted dentry_at call str issue issued lookup ◌>>=◌
looks_up = refl
