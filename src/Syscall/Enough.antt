-- ===== src/Syscall/Enough.antt =====
-- The loop of `sys_sendfile` ends by itself: its fuel is never the reason.
use domains.Prelude.{
  ℕ, ◌≡◌, refl, ◌+◌, ◌≤◌, ◌%◌, ◌^◌, List, Option, Bool, true, false, not, ltb, ◌==◌, suc, zero,
  length, if◌then◌else◌, arith,
}
use domains.Prelude.Act.{Act}
use domains.Prelude.Triple.{bind-same, nothing-Answers}
use domains.Syscall.Domains.{VfsDomain}
use domains.Syscall.Sendfile.{send_loop, max_count}
use domains.Syscall.Amounts.{ReadsFit, InBuffer, read_block-Answers}

if-same :
    {S A : Type 0} (b : Bool) (x y y' : Act S A) (s : S)
    → (b ≡ false → y s ≡ y' s)
    → (if b then x else y) s ≡ (if b then x else y') s
if-same true x y y' s h = refl
if-same false x y y' s h = h refl

module _ {S Seek Attr Event : Type 0} (vfs : VfsDomain S Seek Attr Event) where
  -- The loop of sendfile ends by itself: with as much fuel as there are bytes wanted, a further
  -- unit of fuel changes nothing, where reads fill at most the buffers that they are handed, for a
  -- buffer of 512 bytes and a count of at most 0x7ffff000.
  pub send_loop-enough :
      (fuel in_file out_file count total : ℕ) (offset : Option ℕ) (buf : List ℕ) (s : S)
      → ReadsFit vfs
      → length buf ≡ 512
      → count ≤ max_count
      → count ≤ total + fuel
      → send_loop vfs (suc fuel) in_file out_file count total offset buf s
        ≡ send_loop vfs fuel in_file out_file count total offset buf s
  unfolding send_loop
  send_loop-enough zero in_file out_file count total offset buf s fit l cap enough =
      let over : ltb total count ≡ false = ground arith in rw (over) refl
  send_loop-enough (suc fuel) in_file out_file count total offset buf s fit l cap enough =
      if-same (not (ltb total count)) _ _ _ s (λ more.
        bind-same (InBuffer vfs buf) (read_block-Answers vfs in_file offset buf fit)
          (λ out (le, same) t. if-same (out.0.1 == 0) _ _ _ t (λ something.
            bind-same _ (nothing-Answers (vfs.vfs_write out_file out.0.0 out.0.1))
              (λ w h u. if-same (not (w == out.0.1)) _ _ _ u (λ all_written.
                send_loop-enough fuel in_file out_file count ((total + out.0.1) % 2 ^ 64) out.1
                  out.0.0 u fit (omega arith) cap (ground arith)))
              t))
          s)
