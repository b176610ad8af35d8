-- ===== src/Vfs/Pipe/Waiting.antt =====
-- When the loops of a pipe wait and when they end, what `poll` says, and which end can do what.
use domains.Prelude.{
  ℕ, ◌<◌, ◌≡◌, ◌≢◌, ◌↔◌, refl, List, [], ◌∷◌, none, Bool, true, false, length, ◌==◌, arith, All,
}
use domains.Vfs.Flags.{OpenFlags}
use domains.Vfs.Pipe.Ring.{
  PipeInodeData, available_read, available_write, is_write_wait, is_read_wait,
}
use domains.Vfs.Pipe.Inode.{
  Turn, done, suspend, read_turn, write_turn, read_at, write_at, World, poll, PollEvents,
  reader_flags, sender_flags, is_readable, is_writable,
}
use domains.Vfs.Pipe.Queue.{IsRing}
use domains.Vfs.Pipe.Order.{write_turn_lem, read_turn_lem}

done_of_ne : {A : Type 0} (t : Turn A) → t ≢ suspend → (a : A) × (t ≡ done a)
done_of_ne (done a) h = (a, refl)
done_of_ne suspend h = absurd (h refl)

module _ (pipe_buf : ℕ) where
  -- A round that makes a reader wait: nothing to read, and a writer is left.
  abbrev pub Starved : World → Type 0
  Starved (alive, d) = (available_read pipe_buf d ≡ 0) × (is_write_wait alive d ≡ true)

  -- A round that makes a writer wait: no room, and a reader is left.
  abbrev pub Stuffed : World → Type 0
  Stuffed (alive, d) = (available_write pipe_buf d ≡ 0) × (is_read_wait alive d ≡ true)

  -- A read of a pipe still waits after some rounds exactly if every one of them found the ring
  -- empty and a writer alive.
  pub read_at_waits :
      (worlds : List World) (user_buf : List ℕ)
      → (read_at pipe_buf worlds user_buf ≡ none) ↔ All Starved worlds
  unfolding read_at read_turn
  read_at_waits [] user_buf = (λ _. tt, λ _. refl)
  read_at_waits ((alive, d) ∷ later) user_buf =
      let ih = read_at_waits later user_buf in
      ((λ e. ground (arith, ih.0)), (λ h. ground (arith, ih.1)))

  -- A write to a pipe still waits after some rounds exactly if every one of them found no free
  -- room and a reader alive.
  pub write_at_waits :
      (worlds : List World) (user_buf : List ℕ)
      → (write_at pipe_buf worlds user_buf ≡ none) ↔ All Stuffed worlds
  unfolding write_at write_turn
  write_at_waits [] user_buf = (λ _. tt, λ _. refl)
  write_at_waits ((alive, d) ∷ later) user_buf =
      let ih = write_at_waits later user_buf in
      ((λ e. ground (arith, ih.0)), (λ h. ground (arith, ih.1)))

  read_ready :
      (alive : ℕ → Bool) (d : PipeInodeData) (user_buf : List ℕ)
      → (available_read pipe_buf d == 0) ≡ false
      → (buf' : List ℕ) × (n : ℕ) × (d' : PipeInodeData) × (read_turn pipe_buf alive d user_buf
          ≡ done (buf', n, d'))
  unfolding read_turn
  read_ready alive d user_buf e =
      let (out, h) = done_of_ne (read_turn pipe_buf alive d user_buf) (λ s. ground arith) in
      (out.0, out.1, out.2, h)

  write_ready :
      (alive : ℕ → Bool) (d : PipeInodeData) (user_buf : List ℕ)
      → (available_write pipe_buf d == 0) ≡ false
      → (n : ℕ) × (d' : PipeInodeData) × (write_turn pipe_buf alive d user_buf ≡ done (n, d'))
  unfolding write_turn
  write_ready alive d user_buf e =
      let (out, h) = done_of_ne (write_turn pipe_buf alive d user_buf) (λ s. ground arith) in
      (out.0, out.1, h)

  abbrev pub all_events : PollEvents
  all_events = record { input = true; output = true; hup = true; error = true }

  -- Where poll shows IN on a well-formed ring, a read into a buffer that is not empty ends in this
  -- round, with at least one byte.
  pub poll_honest_in :
      (alive : ℕ → Bool) (d : PipeInodeData) (user_buf : List ℕ)
      → IsRing pipe_buf d
      → 0 < length user_buf
      → (poll pipe_buf alive d all_events).input ≡ true
      → (buf' : List ℕ) × (n : ℕ) × (d' : PipeInodeData) × (read_turn pipe_buf alive d user_buf
          ≡ done (buf', n, d'))
        × (0 < n)
  unfolding poll
  poll_honest_in alive d user_buf r pos shown =
      let (buf', n, d', e) = read_ready alive d user_buf (ground arith) in
      (buf', n, d', e, ground (arith, read_turn_lem alive r user_buf e))

  -- Where poll shows OUT on a well-formed ring, a write of a buffer that is not empty ends in this
  -- round, with at least one byte.
  pub poll_honest_out :
      (alive : ℕ → Bool) (d : PipeInodeData) (user_buf : List ℕ)
      → IsRing pipe_buf d
      → 0 < length user_buf
      → (poll pipe_buf alive d all_events).output ≡ true
      → (n : ℕ) × (d' : PipeInodeData) × (write_turn pipe_buf alive d user_buf ≡ done (n, d'))
        × (0 < n)
  unfolding poll
  poll_honest_out alive d user_buf r pos shown =
      let (n, d', e) = write_ready alive d user_buf (ground arith) in
      (n, d', e, ground (arith, write_turn_lem alive r user_buf e))

-- The file that make_pipe_file opens for reading passes is_readable exactly if the flag for
-- reading holds that for reading and writing, and the file for writing passes is_writable exactly
-- if its flag holds that one.
pub ends_usable :
    (o : OpenFlags)
    → (is_readable o (reader_flags o) ≡ o.contains o.rdonly o.rdwr)
      × (is_writable o (sender_flags o) ≡ o.contains o.wronly o.rdwr)
unfolding is_readable reader_flags is_writable sender_flags
ends_usable o = (rw (o.contains-union, o.contains_self), rw (o.contains-union, o.contains_self))
