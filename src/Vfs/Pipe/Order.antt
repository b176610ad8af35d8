-- ===== src/Vfs/Pipe/Order.antt =====
-- The bytes that pass through a pipe: any interleaving of the rounds of readers and writers.
use domains.Prelude.{
  ℕ, ◌<◌, ◌≡◌, List, [], ◌++◌, Bool, length, take, drop, min, arith, take_of_length-le, length-take,
  take-append, length-replicate,
}
use mathlib.Core.List.{append-nil, append_assoc}
use domains.Vfs.Pipe.Ring
use domains.Vfs.Pipe.Ring.{
  PipeInodeData, available_read, available_write, is_write_wait, is_read_wait, set_reader,
  set_sender,
}
use domains.Vfs.Pipe.Inode.{done, read_turn, write_turn, make_pipe_file}
use domains.Vfs.Pipe.Queue.{IsRing, contents}
use domains.Vfs.Pipe.Loops.{write-Wrote, read-Took}

module _ {pipe_buf : ℕ} {d : PipeInodeData} (alive : ℕ → Bool) (r : IsRing pipe_buf d) where
  -- On a well-formed ring, a round of read_at that ends keeps the ring well formed, gives the
  -- smaller of the available bytes and the length of the buffer, and has moved just that many
  -- bytes from the front of the queue to the front of the buffer.
  pub read_turn_lem :
      (user_buf : List ℕ) {buf' : List ℕ} {n : ℕ} {d' : PipeInodeData}
      → read_turn pipe_buf alive d user_buf ≡ done (buf', n, d')
      → IsRing pipe_buf d'
        × (n ≡ min (available_read pipe_buf d) (length user_buf))
        × (contents pipe_buf d ≡ take n buf' ++ contents pipe_buf d')
  unfolding read_turn
  read_turn_lem user_buf e =
      let room = min (available_read pipe_buf d) (length user_buf) in
      let bytes = (Ring.read pipe_buf d room).0 in
      ground (arith, read-Took pipe_buf room r, take-append bytes (drop (length bytes) user_buf))

  -- On a well-formed ring, a round of write_at that ends keeps the ring well formed, gives the
  -- smaller of the free room and the length of the buffer, and has added just that many first
  -- bytes of the buffer to the end of the queue.
  pub write_turn_lem :
      (user_buf : List ℕ) {n : ℕ} {d' : PipeInodeData}
      → write_turn pipe_buf alive d user_buf ≡ done (n, d')
      → IsRing pipe_buf d'
        × (n ≡ min (available_write pipe_buf d) (length user_buf))
        × (contents pipe_buf d' ≡ contents pipe_buf d ++ take n user_buf)
  unfolding write_turn
  write_turn_lem user_buf e =
      let room = min (available_write pipe_buf d) (length user_buf) in
      ground (
        arith,
        write-Wrote pipe_buf (take room user_buf) 0 r,
        length-take room user_buf,
        take_of_length-le (available_write pipe_buf d) (take room user_buf),
        append-nil (contents pipe_buf d),
      )

-- A pipe with what its writers have put in and its readers have taken out so far.
pub record Traffic : Type 0 where
  pub pipe : PipeInodeData
  pub sent : List ℕ
  pub received : List ℕ

-- A finished round of some reader or writer, whichever files are alive at that moment.
pub data Step (pipe_buf : ℕ) (s : Traffic) : Traffic → Type 0 where
  wrote :
      (alive : ℕ → Bool) (user_buf : List ℕ) (n : ℕ) (d' : PipeInodeData)
      → write_turn pipe_buf alive s.pipe user_buf ≡ done (n, d')
      → Step pipe_buf s (record s { pipe = d'; sent = s.sent ++ take n user_buf })
  took :
      (alive : ℕ → Bool) (user_buf buf' : List ℕ) (n : ℕ) (d' : PipeInodeData)
      → read_turn pipe_buf alive s.pipe user_buf ≡ done (buf', n, d')
      → Step pipe_buf s (record s { pipe = d'; received = s.received ++ take n buf' })

pub data Reach (pipe_buf : ℕ) (s : Traffic) : Traffic → Type 0 where
  here : Reach pipe_buf s s
  next : {t u : Traffic} → Reach pipe_buf s t → Step pipe_buf t u → Reach pipe_buf s u

pub record InOrder (pipe_buf : ℕ) (s : Traffic) : Type 0 where
  pub ring : IsRing pipe_buf s.pipe
  pub order : s.sent ≡ s.received ++ contents pipe_buf s.pipe

Step-InOrder :
    {pipe_buf : ℕ} {s t : Traffic} → Step pipe_buf s t → InOrder pipe_buf s → InOrder pipe_buf t
Step-InOrder {pipe_buf} {s} (wrote alive user_buf n d' e) h =
    let w = write_turn_lem alive h.ring user_buf e in
    record { ring = w.0; order = rw (h.order, w.2, append_assoc) }
Step-InOrder {pipe_buf} {s} (took alive user_buf buf' n d' e) h =
    let w = read_turn_lem alive h.ring user_buf e in
    record { ring = w.0; order = rw (h.order, w.2, append_assoc) }

start-InOrder :
    (pipe_buf reader sender : ℕ)
    → 0 < pipe_buf
    → InOrder pipe_buf
        (record { pipe = make_pipe_file pipe_buf reader sender; sent = []; received = [] })
unfolding make_pipe_file set_reader set_sender Ring.new available_read
start-InOrder pipe_buf reader sender pos = record {
  ring = record { sized = length-replicate pipe_buf 0; head_in = pos; tail_in = pos };
  order = ground arith;
}

-- From a pipe as make_pipe_file makes it, over a ring of at least one cell, after any finished
-- rounds of readers and writers in any order, the bytes written are, in order, the bytes read
-- followed by those that the ring still holds, and the ring is well formed.
pub Reach-InOrder :
    (pipe_buf reader sender : ℕ) {s : Traffic}
    → 0 < pipe_buf
    → Reach pipe_buf
        (record { pipe = make_pipe_file pipe_buf reader sender; sent = []; received = [] })
        s
    → InOrder pipe_buf s
Reach-InOrder pipe_buf reader sender pos here = start-InOrder pipe_buf reader sender pos
Reach-InOrder pipe_buf reader sender pos (next path st) =
    Step-InOrder st (Reach-InOrder pipe_buf reader sender pos path)
