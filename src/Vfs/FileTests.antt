-- ===== src/Vfs/FileTests.antt =====
-- Files on concrete values, and the claims at them.
use domains.Prelude.{
  ℕ, ◌+◌, ◌≡◌, refl, List, [], ◌∷◌, ◌++◌, true, false, Outcome, ok, einval, arith, length, take,
  drop,
}
use domains.Vfs.Tests.{linux}
use domains.Vfs.File.Calls.{
  InodeCalls, forward, backward, from_current, from_end, KernelFile, is_readable, is_writable, seek,
  new_offset, checked_add_signed,
}
use domains.Vfs.File.Laws.{Sought, seek-Sought}

-- An inode in memory, by its bytes.
abbrev bytes_at : List ℕ → ℕ → List ℕ → Outcome (List ℕ × ℕ)
bytes_at inode offset buf =
    let found = take (length buf) (drop offset inode) in
    ok (found ++ drop (length found) buf, length found)

abbrev in_memory : InodeCalls
in_memory = record {
  Inode = List ℕ;
  read_at = bytes_at;
  write_at = λ inode offset buf.
      ok (length buf, take offset inode ++ (buf ++ drop (offset + length buf) inode));
  flush = λ inode. ok inode;
  fsync = λ inode. ok inode;
  st_size = λ inode. ok (length inode);
  truncate = λ inode len. ok (take len inode);
  invalid = einval;
}

abbrev five : List ℕ
five = 10 ∷ 11 ∷ 12 ∷ 13 ∷ 14 ∷ []

abbrev opened : KernelFile linux
opened = record { pos = 1; open_flag = (false, false) }

can_read : is_readable linux opened ≡ true
unfolding is_readable
can_read = refl

cannot_write : is_writable linux opened ≡ false
unfolding is_writable
cannot_write = refl

seeks_before_end :
    seek linux in_memory opened five (from_end (backward 2)) ≡ ok (3, record opened { pos = 3 })
unfolding seek new_offset checked_add_signed
seeks_before_end = refl

seek-Sought_example :
    Sought linux in_memory opened five 5
      (from_current (forward 3))
      (seek linux in_memory opened five (from_current (forward 3)))
seek-Sought_example =
    seek-Sought linux in_memory opened five (from_current (forward 3)) 5 refl (omega arith)
      (omega arith) tt
