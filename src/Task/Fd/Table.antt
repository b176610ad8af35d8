-- ===== src/Task/Fd/Table.antt =====
-- What the calls of `Fd.Calls` do to the table of descriptors.
use domains.Prelude.{
  ℕ, ◌%◌, ◌<◌, ◌≡◌, ◌≢◌, Option, none, some, ok, err, ◌>>=◌, unwrap, ebadf, arith, ◌==◌,
  if◌then◌else◌,
}
use domains.Task.SlotVec.Count.{IsCounted}
use domains.Task.SlotVec.Slots.{Put-total, put_at_lem, remove_lem}
use domains.Task.Fd.Calls.{
  FdManager, get_file, add_file, remove_file, add_file_to_fd, remove_fd, do_dup, do_pipe2, u32_mod,
}

-- A new descriptor `fd` for `file`: the lowest that was free, and nothing else changes.
pub record Opened (fds : FdManager) (file fd : ℕ) (fds' : FdManager) : Type 0 where
  pub was_free : get_file fds fd ≡ none
  pub lowest : (j : ℕ) → j < fd → get_file fds j ≢ none
  pub reads : (j : ℕ) → get_file fds' j ≡ (if fd == j then some file else get_file fds j)
  pub counted : IsCounted fds'

-- A descriptor that is opened next is another one.
Opened-distinct :
    {fds fds₁ fds₂ : FdManager} {r w r_fd w_fd : ℕ}
    → Opened fds r r_fd fds₁
    → Opened fds₁ w w_fd fds₂
    → r_fd ≢ w_fd
Opened-distinct {r_fd = r_fd} {w_fd = w_fd} o₁ o₂ e = ground (arith, o₁.reads w_fd, o₂.was_free)

-- On a table whose count is right, `add_file` always gives a descriptor.
pub add_file_total :
    (fds : FdManager) (file : ℕ)
    → IsCounted fds
    → (fd : ℕ) × (fds' : FdManager) × (add_file fds file ≡ ok (fd, fds')) × Opened fds file fd fds'
unfolding add_file get_file
add_file_total fds file c =
    let (fd, fds', p) = Put-total fds file c in
    (
      fd,
      fds',
      rw p.placed,
      record { was_free = p.free; lowest = p.lowest; reads = p.reads; counted = p.counted },
    )

-- On a table whose count is right, dup of an open descriptor gives the lowest free descriptor,
-- which then stands for the same file, and changes no other.
pub do_dup_lem :
    (fds : FdManager) (old_fd : ℕ) {file : ℕ}
    → IsCounted fds
    → get_file fds old_fd ≡ some file
    → (fd : ℕ) × (fds' : FdManager) × (do_dup fds old_fd none ≡ ok (fd, fds'))
      × Opened fds file fd fds'
unfolding do_dup
do_dup_lem fds old_fd {file} c opened =
    let (fd, fds', e, o) = add_file_total fds file c in (fd, fds', rw opened e, o)

-- On a table whose count is right, dup of an open descriptor to a given one makes that one stand
-- for the same file, whatever it stood for before, changes no other, and keeps the count right.
pub do_dup_to :
    (fds : FdManager) (old_fd new_fd : ℕ) {file : ℕ}
    → IsCounted fds
    → get_file fds old_fd ≡ some file
    → (fds' : FdManager) × (do_dup fds old_fd (some new_fd) ≡ ok (new_fd, fds'))
      × ((j : ℕ) → get_file fds' j ≡ (if new_fd == j then some file else get_file fds j))
      × IsCounted fds'
unfolding do_dup add_file_to_fd get_file
do_dup_to fds old_fd new_fd {file} c opened =
    let p = put_at_lem fds new_fd file c in (_, rw opened, p.1, p.2)

do_dup_closed :
    (fds : FdManager) (old_fd : ℕ) (new_fd : Option ℕ)
    → get_file fds old_fd ≡ none
    → do_dup fds old_fd new_fd ≡ err ebadf
unfolding do_dup
do_dup_closed fds old_fd none h = rw h
do_dup_closed fds old_fd (some new_fd) h = rw h

-- On a table whose count is right, a close of an open descriptor gives the inode that it stood
-- for, frees it, changes no other, and keeps the count right.
pub remove_fd_lem :
    (fds : FdManager) (fd : ℕ) {file : ℕ}
    → IsCounted fds
    → get_file fds fd ≡ some file
    → (fds' : FdManager) × (remove_fd fds fd ≡ ok (file, fds'))
      × ((j : ℕ) → get_file fds' j ≡ (if fd == j then none else get_file fds j))
      × IsCounted fds'
unfolding remove_fd remove_file get_file
remove_fd_lem fds fd c h = let p = remove_lem fds fd c in (_, rw (p.0, h), p.1, p.2)

-- On a table whose count is right and a descriptor that is not open, dup in either form and a
-- close fail with EBADF.
pub closed_fails :
    (fds : FdManager) (fd : ℕ) (new_fd : Option ℕ)
    → IsCounted fds
    → get_file fds fd ≡ none
    → (do_dup fds fd new_fd ≡ err ebadf) × (remove_fd fds fd ≡ err ebadf)
unfolding remove_fd remove_file get_file
closed_fails fds fd new_fd c h =
    let p = remove_lem fds fd c in (do_dup_closed fds fd new_fd h, rw (p.0, h))

-- On a table whose count is right, pipe2 opens two different descriptors, first the lowest free
-- one for the reader and then the next lowest for the writer, and writes the pair, each cut to 32
-- bits, to the user; where that write fails the call panics.
pub do_pipe2_lem :
    {Mem : Type 0} (write_pair : Mem → ℕ → ℕ × ℕ → Option Mem) (fds : FdManager) (mem : Mem)
    (r w pipe_ptr : ℕ)
    → IsCounted fds
    → (r_fd w_fd : ℕ) × (fds₁ fds₂ : FdManager) × Opened fds r r_fd fds₁
      × Opened fds₁ w w_fd fds₂
      × (r_fd ≢ w_fd)
      × (do_pipe2 write_pair fds mem r w pipe_ptr ≡ (do
        mem' ← unwrap (write_pair mem pipe_ptr (r_fd % u32_mod, w_fd % u32_mod))
        ok (0, fds₂, mem')))
unfolding do_pipe2
do_pipe2_lem write_pair fds mem r w pipe_ptr c =
    let (r_fd, fds₁, e₁, o₁) = add_file_total fds r c in
    let (w_fd, fds₂, e₂, o₂) = add_file_total fds₁ w o₁.counted in
    (r_fd, w_fd, fds₁, fds₂, o₁, o₂, Opened-distinct o₁ o₂, rw (e₁, e₂))
