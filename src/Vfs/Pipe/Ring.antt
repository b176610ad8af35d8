-- ===== src/Vfs/Pipe/Ring.antt =====
-- `PipeInodeData` of common/vfs/vfs/src/pipe.rs. `PIPE_BUF` of the crate `basic` is a parameter.
use domains.Prelude.{
  ℕ, zero, suc, ◌+◌, ◌-◌, ◌%◌, List, [], ◌∷◌, Option, none, some, Bool, false, get_or, set,
  replicate, leb, ◌==◌, if◌then◌else◌,
}

-- `read_wait` and `write_wait` are weak references to the files of the two ends, by a number each.
pub record PipeInodeData : Type 0 where
  pub buf : List ℕ
  pub head : ℕ
  pub tail : ℕ
  pub read_wait : Option ℕ
  pub write_wait : Option ℕ

-- A `Weak::upgrade` that succeeds: the file is still there.
unfoldable pub upgrades : (ℕ → Bool) → Option ℕ → Bool
upgrades alive none = false
upgrades alive (some file) = alive file

unfoldable pub is_write_wait : (ℕ → Bool) → PipeInodeData → Bool
unfolding upgrades
is_write_wait alive d = upgrades alive d.write_wait

unfoldable pub is_read_wait : (ℕ → Bool) → PipeInodeData → Bool
unfolding upgrades
is_read_wait alive d = upgrades alive d.read_wait

unfoldable pub is_empty : PipeInodeData → Bool
is_empty d = d.head == d.tail

module _ (pipe_buf : ℕ) where
  unfoldable pub is_full : PipeInodeData → Bool
  is_full d = ((d.tail + 1) % pipe_buf) == d.head

  unfoldable pub available_read : PipeInodeData → ℕ
  available_read d = if leb d.head d.tail then d.tail - d.head else pipe_buf - d.head + d.tail

  unfoldable pub available_write : PipeInodeData → ℕ
  available_write d =
      if leb d.head d.tail then pipe_buf - d.tail + d.head - 1 else d.head - d.tail - 1

  -- One round of the loop of `write`.
  unfoldable pub put_byte : PipeInodeData → ℕ → PipeInodeData
  put_byte d byte = record d { buf = set d.buf d.tail byte; tail = (d.tail + 1) % pipe_buf }

  -- `write`, over the bytes `buf[count..]`.
  unfoldable pub write : PipeInodeData → List ℕ → ℕ → ℕ × PipeInodeData
  write d [] count = (count, d)
  write d (byte ∷ bytes) count =
      let rest = write (put_byte d byte) bytes (count + 1) in if is_full d then (count, d) else rest

  -- One round of the loop of `read`: the state after it.
  unfoldable pub drop_byte : PipeInodeData → PipeInodeData
  drop_byte d = record d { head = (d.head + 1) % pipe_buf }

  -- `read` into a buffer of the given length: the bytes that it stores there, and the state.
  unfoldable pub read : PipeInodeData → ℕ → List ℕ × PipeInodeData
  read d zero = ([], d)
  read d (suc room) =
      let rest = read (drop_byte d) room in
      if is_empty d then ([], d) else (get_or d.buf d.head 0 ∷ rest.0, rest.1)

  -- `PipeInode::new`
  unfoldable pub new : PipeInodeData
  new = record {
    buf = replicate pipe_buf 0;
    head = 0;
    tail = 0;
    read_wait = none;
    write_wait = none;
  }

unfoldable pub set_reader : PipeInodeData → ℕ → PipeInodeData
set_reader d reader = record d { read_wait = some reader }

unfoldable pub set_sender : PipeInodeData → ℕ → PipeInodeData
set_sender d sender = record d { write_wait = some sender }
