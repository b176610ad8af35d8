-- ===== src/Vfs/Pipe/Inode.antt =====
-- `PipeInode::{read_at, write_at, poll}`, `PipeFile` and `make_pipe_file` of
-- common/vfs/vfs/src/pipe.rs. The two loops give up the processor until they can go on: a round of
-- a loop is a function of the state that it finds under the lock.
use domains.Prelude.{
  ℕ, List, [], ◌∷◌, ◌++◌, Option, none, some, Bool, not, ◌&&◌, length, take, drop, ltb, ◌==◌,
  if◌then◌else◌, min, Outcome, err, espipe, enosys,
}
use domains.Vfs.Flags.{OpenFlags}
use domains.Vfs.Pipe.Ring
use domains.Vfs.Pipe.Ring.{
  PipeInodeData, available_read, available_write, is_write_wait, is_read_wait, set_reader,
  set_sender,
}

-- What one round of a waiting loop ends in: a result, or `yield_now` and another round.
pub data Turn (A : Type 0) : Type 0 where
  done : A → Turn A
  suspend : Turn A

-- `VfsPollEvents`, by the flags that this file names.
pub record PollEvents : Type 0 where
  pub input : Bool
  pub output : Bool
  pub hup : Bool
  pub error : Bool

module _ (pipe_buf : ℕ) (alive : ℕ → Bool) (d : PipeInodeData) where
  -- A round of `read_at`: the user's buffer, the count and the state.
  unfoldable pub read_turn : List ℕ → Turn (List ℕ × ℕ × PipeInodeData)
  read_turn user_buf =
      let available = available_read pipe_buf d in
      let (bytes, d') = Ring.read pipe_buf d (min available (length user_buf)) in
      if available == 0
      then (if not (is_write_wait alive d) then done (user_buf, 0, d) else suspend)
      else done (bytes ++ drop (length bytes) user_buf, length bytes, d')

  -- A round of `write_at`: the count and the state.
  unfoldable pub write_turn : List ℕ → Turn (ℕ × PipeInodeData)
  write_turn user_buf =
      let available = available_write pipe_buf d in
      let written = Ring.write pipe_buf d (take (min available (length user_buf)) user_buf) 0 in
      if available == 0
      then (if not (is_read_wait alive d) then done (0, d) else suspend)
      else done written

  unfoldable pub poll : PollEvents → PollEvents
  poll event =
      let is_reader = is_read_wait alive d in
      let is_sender = is_write_wait alive d in
      record {
        input = event.input && ltb 0 (available_read pipe_buf d);
        output = event.output && ltb 0 (available_write pipe_buf d);
        hup = is_reader && not is_sender;
        error = not is_reader && is_sender;
      }

-- What a round finds: which files are alive, and the pipe.
abbrev pub World : Type 0
World = (ℕ → Bool) × PipeInodeData

-- The whole loops, over the states that their rounds find one after another; `none` is a loop that
-- still waits after the last of them.
unfoldable pub read_at : ℕ → List World → List ℕ → Option (List ℕ × ℕ × PipeInodeData)
read_at pipe_buf [] user_buf = none
read_at pipe_buf ((alive, d) ∷ later) user_buf = elim (read_turn pipe_buf alive d user_buf) [
  | done out ↦ some out
  | suspend ↦ read_at pipe_buf later user_buf
]

unfoldable pub write_at : ℕ → List World → List ℕ → Option (ℕ × PipeInodeData)
write_at pipe_buf [] user_buf = none
write_at pipe_buf ((alive, d) ∷ later) user_buf = elim (write_turn pipe_buf alive d user_buf) [
  | done out ↦ some out
  | suspend ↦ write_at pipe_buf later user_buf
]

-- `make_pipe_file`: the shared inode, with the two files recorded as its ends.
unfoldable pub make_pipe_file : ℕ → ℕ → ℕ → PipeInodeData
make_pipe_file pipe_buf reader sender = set_sender (set_reader (Ring.new pipe_buf) reader) sender

module _ (o : OpenFlags) where
  -- The flags with which `make_pipe_file` opens the two files.
  unfoldable pub reader_flags : o.Flags
  reader_flags = o.rdonly

  unfoldable pub sender_flags : o.Flags
  sender_flags = o.wronly

  -- `PipeFile::is_readable` and `is_writable`.
  unfoldable pub is_readable : o.Flags → Bool
  is_readable open_flag = o.contains open_flag (o.union o.rdonly o.rdwr)

  unfoldable pub is_writable : o.Flags → Bool
  is_writable open_flag = o.contains open_flag (o.union o.wronly o.rdwr)

-- `PipeFile::{read, write}` do nothing for an empty buffer, whatever the pipe's state.
unfoldable pub file_read : ℕ → List World → List ℕ → Option (List ℕ × ℕ × Option PipeInodeData)
unfolding read_at
file_read pipe_buf worlds [] = some ([], 0, none)
file_read pipe_buf worlds (x ∷ xs) = elim (read_at pipe_buf worlds (x ∷ xs)) [
  | none ↦ none
  | some (user_buf, count, d) ↦ some (user_buf, count, some d)
]

unfoldable pub file_write : ℕ → List World → List ℕ → Option (ℕ × Option PipeInodeData)
unfolding write_at
file_write pipe_buf worlds [] = some (0, none)
file_write pipe_buf worlds (x ∷ xs) = elim (write_at pipe_buf worlds (x ∷ xs)) [
  | none ↦ none
  | some (count, d) ↦ some (count, some d)
]

-- `PipeFile::{seek, get_attr}`.
unfoldable pub seek : ℕ → Outcome ℕ
seek pos = err espipe

unfoldable pub get_attr : Outcome ℕ
get_attr = err enosys
