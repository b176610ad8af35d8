-- ===== src/Vfs/Pipe/Loops.antt =====
-- What the loops of `PipeInodeData::write` and `read` do to the queue of bytes.
use domains.Prelude.{
  ℕ, zero, suc, ◌+◌, ◌≡◌, refl, ap, ◌∙◌, min, List, [], ◌∷◌, ◌++◌, true, false, length, get_or,
  take, arith, Bool-cases, inl, inr,
}
use mathlib.Core.List.{append-nil, append_assoc}
use domains.Prelude.{take-nil}
use domains.Vfs.Pipe.Ring.{
  PipeInodeData, is_empty, is_full, available_read, available_write, put_byte, write, drop_byte,
  read,
}
use domains.Vfs.Pipe.Queue.{
  IsRing, contents, available_sum, is_full_iff, is_empty_iff, available-drop, available-put,
  contents-drop, contents-put, drop_byte-IsRing, put_byte-IsRing,
}

module _ (pipe_buf : ℕ) where
  -- What the loop of `write` has done when it stops.
  pub record Wrote (d : PipeInodeData) (src : List ℕ) (count : ℕ) (out : ℕ × PipeInodeData)
      : Type 0 where
    pub ring : IsRing pipe_buf out.1
    pub counted : out.0 ≡ count + min (length src) (available_write pipe_buf d)
    pub bytes :
        contents pipe_buf out.1 ≡ contents pipe_buf d ++ take (available_write pipe_buf d) src
    pub readers : out.1.read_wait ≡ d.read_wait
    pub writers : out.1.write_wait ≡ d.write_wait

  full_Wrote :
      (src : List ℕ) {d : PipeInodeData} (count : ℕ)
      → IsRing pipe_buf d
      → is_full pipe_buf d ≡ true
      → Wrote d src count (count, d)
  full_Wrote src {d} count r full =
      let none_left : available_write pipe_buf d ≡ 0 = ground (arith, is_full_iff pipe_buf r) in
      record {
        ring = r;
        counted = omega arith;
        bytes = rw (none_left, append-nil);
        readers = refl;
        writers = refl;
      }

  step_Wrote :
      (x : ℕ) (src : List ℕ) {d : PipeInodeData} (count : ℕ) {out : ℕ × PipeInodeData}
      → IsRing pipe_buf d
      → is_full pipe_buf d ≡ false
      → Wrote (put_byte pipe_buf d x) src (count + 1) out
      → Wrote d (x ∷ src) count out
  unfolding put_byte
  step_Wrote x src {d} count r room w =
      let fewer : available_write pipe_buf d
          ≡ suc (available_write pipe_buf (put_byte pipe_buf d x)) =
        omega (
          arith,
          available-put pipe_buf x r room,
          available_sum pipe_buf r,
          available_sum pipe_buf (put_byte-IsRing pipe_buf x r),
        ) in
      record {
        ring = w.ring;
        counted = omega (arith, w.counted);
        bytes = rw (w.bytes, fewer, contents-put pipe_buf x r room, append_assoc);
        readers = w.readers;
        writers = w.writers;
      }

  pub write-Wrote :
      (src : List ℕ) {d : PipeInodeData} (count : ℕ)
      → IsRing pipe_buf d
      → Wrote d src count (write pipe_buf d src count)
  unfolding write
  write-Wrote [] {d} count r = record {
    ring = r;
    counted = omega arith;
    bytes = rw (take-nil, append-nil);
    readers = refl;
    writers = refl;
  }
  write-Wrote (x ∷ src) {d} count r = elim (Bool-cases (is_full pipe_buf d)) [
    | inl full ↦ rw full (full_Wrote (x ∷ src) count r full)
    | inr room ↦
        rw room (
          step_Wrote x src count r room
            (write-Wrote src (count + 1) (put_byte-IsRing pipe_buf x r)))
  ]

  -- What the loop of `read` has done when it stops.
  pub record Took (d : PipeInodeData) (room : ℕ) (out : List ℕ × PipeInodeData) : Type 0 where
    pub ring : IsRing pipe_buf out.1
    pub counted : length out.0 ≡ min room (available_read pipe_buf d)
    pub bytes : contents pipe_buf d ≡ out.0 ++ contents pipe_buf out.1
    pub readers : out.1.read_wait ≡ d.read_wait
    pub writers : out.1.write_wait ≡ d.write_wait

  empty_Took :
      (room : ℕ) {d : PipeInodeData} → IsRing pipe_buf d → is_empty d ≡ true → Took d room ([], d)
  empty_Took room {d} r done =
      let none_left : available_read pipe_buf d ≡ 0 = ground (arith, is_empty_iff pipe_buf r) in
      record { ring = r; counted = omega arith; bytes = refl; readers = refl; writers = refl }

  step_Took :
      (room : ℕ) {d : PipeInodeData} {out : List ℕ × PipeInodeData}
      → IsRing pipe_buf d
      → is_empty d ≡ false
      → Took (drop_byte pipe_buf d) room out
      → Took d (suc room) (get_or d.buf d.head 0 ∷ out.0, out.1)
  unfolding drop_byte
  step_Took room {d} r more t = record {
    ring = t.ring;
    counted = omega (arith, t.counted, available-drop pipe_buf r more);
    bytes = contents-drop pipe_buf r more ∙ ap (◌∷◌ (get_or d.buf d.head 0)) t.bytes;
    readers = t.readers;
    writers = t.writers;
  }

  pub read-Took :
      (room : ℕ) {d : PipeInodeData} → IsRing pipe_buf d → Took d room (read pipe_buf d room)
  unfolding read
  read-Took zero {d} r = record {
    ring = r;
    counted = omega arith;
    bytes = refl;
    readers = refl;
    writers = refl;
  }
  read-Took (suc room) {d} r = elim (Bool-cases (is_empty d)) [
    | inl done ↦ rw done (empty_Took (suc room) r done)
    | inr more ↦ rw more (step_Took room r more (read-Took room (drop_byte-IsRing pipe_buf r)))
  ]
