-- ===== src/Vfs/Pipe/Queue.antt =====
-- The ring of a pipe as the queue of the bytes that it holds, oldest first.
use domains.Prelude.{
  ℕ, zero, suc, ◌+◌, ◌-◌, ◌%◌, ◌<◌, ◌≡◌, ◌≢◌, refl, sym, ap, ap₂, ◌∙◌, List, [], ◌∷◌, ◌++◌, false,
  length, get_or, set, ltb, ◌==◌, if◌then◌else◌, arith, ltb→lt, length-set, get_or-set, Bool-cases,
  inl, inr,
}
use native.Mathlib.Nat.{mod-add-mod, mod-eq_of_lt, mod-eq-sub-mod}
use domains.Vfs.Pipe.Ring.{
  PipeInodeData, is_empty, is_full, available_read, available_write, put_byte, drop_byte,
}

-- The state that `PipeInode::new` starts and every operation keeps.
pub record IsRing (pipe_buf : ℕ) (d : PipeInodeData) : Type 0 where
  pub sized : length d.buf ≡ pipe_buf
  pub head_in : d.head < pipe_buf
  pub tail_in : d.tail < pipe_buf

module _ (pipe_buf : ℕ) where
  -- Less than two rounds: the remainder is a subtraction.
  mod_wrap :
      (a : ℕ)
      → a < pipe_buf + pipe_buf
      → a % pipe_buf ≡ (if ltb a pipe_buf then a else a - pipe_buf)
  mod_wrap a h = elim (Bool-cases (ltb a pipe_buf)) [
    | inl below ↦ rw below (mod-eq_of_lt (ltb→lt _ _ below))
    | inr above ↦ rw above (
        mod-eq-sub-mod {n = a} {m = pipe_buf} (ground arith)
        ∙ mod-eq_of_lt {n = a - pipe_buf} {m = pipe_buf} (ground arith))
  ]

  step_lem :
      {i : ℕ}
      → i < pipe_buf
      → (i + 1) % pipe_buf ≡ (if ltb (i + 1) pipe_buf then i + 1 else i + 1 - pipe_buf)
  step_lem {i} h = mod_wrap (i + 1) (omega arith)

  -- The `n` bytes from index `i` on.
  abbrev pub stored : List ℕ → ℕ → ℕ → List ℕ
  stored buf i zero = []
  stored buf i (suc n) = get_or buf i 0 ∷ stored buf ((i + 1) % pipe_buf) n

  abbrev pub contents : PipeInodeData → List ℕ
  contents d = stored d.buf d.head (available_read pipe_buf d)

  length-stored : (buf : List ℕ) (i n : ℕ) → length (stored buf i n) ≡ n
  length-stored buf i zero = refl
  length-stored buf i (suc n) = ap suc (length-stored buf ((i + 1) % pipe_buf) n)

  -- The two counts of free and used bytes make up all but one cell of the ring.
  pub available_sum :
      {d : PipeInodeData}
      → IsRing pipe_buf d
      → available_read pipe_buf d + available_write pipe_buf d + 1 ≡ pipe_buf
  unfolding available_read available_write
  available_sum r = ground arith

  pub is_full_iff :
      {d : PipeInodeData}
      → IsRing pipe_buf d
      → is_full pipe_buf d ≡ (available_write pipe_buf d == 0)
  unfolding is_full available_write
  is_full_iff {d} r = ground (arith, step_lem r.tail_in)

  pub is_empty_iff :
      {d : PipeInodeData} → IsRing pipe_buf d → is_empty d ≡ (available_read pipe_buf d == 0)
  unfolding is_empty available_read
  is_empty_iff r = ground arith

  pub put_byte-IsRing :
      {d : PipeInodeData} (x : ℕ) → IsRing pipe_buf d → IsRing pipe_buf (put_byte pipe_buf d x)
  unfolding put_byte
  put_byte-IsRing {d} x r = ground (arith, length-set d.buf d.tail x)

  pub drop_byte-IsRing :
      {d : PipeInodeData} → IsRing pipe_buf d → IsRing pipe_buf (drop_byte pipe_buf d)
  unfolding drop_byte
  drop_byte-IsRing {d} r = ground arith

  pub available-put :
      {d : PipeInodeData} (x : ℕ)
      → IsRing pipe_buf d
      → is_full pipe_buf d ≡ false
      → available_read pipe_buf (put_byte pipe_buf d x) ≡ suc (available_read pipe_buf d)
  unfolding put_byte available_read is_full
  available-put {d} x r h = ground (arith, step_lem r.tail_in)

  pub available-drop :
      {d : PipeInodeData}
      → IsRing pipe_buf d
      → is_empty d ≡ false
      → available_read pipe_buf d ≡ suc (available_read pipe_buf (drop_byte pipe_buf d))
  unfolding drop_byte available_read is_empty
  available-drop {d} r h = ground (arith, step_lem r.head_in)

  -- Fewer than a whole round of steps do not come back to the start.
  step_apart : (i n : ℕ) → i < pipe_buf → suc n < pipe_buf → (i + suc n) % pipe_buf ≢ i
  step_apart i n hi hn = ground (arith, mod_wrap (i + suc n))

  -- Writing to the cell after the last of `n` bytes makes them `n + 1`.
  stored-set :
      (buf : List ℕ) (x n i t : ℕ)
      → length buf ≡ pipe_buf
      → i < pipe_buf
      → n < pipe_buf
      → t ≡ (i + n) % pipe_buf
      → stored (set buf t x) i (suc n) ≡ stored buf i n ++ (x ∷ [])
  stored-set buf x zero i t sized hi hn e = ground (arith, mod_wrap (i + 0), get_or-set buf i i x 0)
  stored-set buf x (suc n) i t sized hi hn e =
      ap₂ ◌∷◌ (ground (arith, mod_wrap (i + suc n), step_apart i n hi, get_or-set buf t i x 0)) (
        stored-set buf x n ((i + 1) % pipe_buf) t sized (omega arith) (omega arith)
          (e ∙ ap (λ a. a % pipe_buf) (omega arith) ∙ sym (mod-add-mod (i + 1) pipe_buf n)))

  -- The tail stands just after the bytes that the ring holds.
  tail_lem :
      {d : PipeInodeData}
      → IsRing pipe_buf d
      → d.tail ≡ (d.head + available_read pipe_buf d) % pipe_buf
  unfolding available_read
  tail_lem {d} r = ground (arith, mod_wrap (d.head + available_read pipe_buf d))

  pub contents-put :
      {d : PipeInodeData} (x : ℕ)
      → IsRing pipe_buf d
      → is_full pipe_buf d ≡ false
      → contents (put_byte pipe_buf d x) ≡ contents d ++ (x ∷ [])
  contents-put {d} x r h = rw (available-put x r h) (
      unfold put_byte in
      stored-set d.buf x (available_read pipe_buf d) d.head d.tail r.sized r.head_in
        (omega (arith, available_sum r)) (tail_lem r))

  pub contents-drop :
      {d : PipeInodeData}
      → IsRing pipe_buf d
      → is_empty d ≡ false
      → contents d ≡ get_or d.buf d.head 0 ∷ contents (drop_byte pipe_buf d)
  contents-drop {d} r h = rw (available-drop r h) (unfold drop_byte in refl)
