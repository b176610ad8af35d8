-- ===== src/Sched/Info.antt =====
-- `TaskSchedulingInfo` of the crate `task_meta`, by the fields that the schedulers read.
use Prim.Native.Nat.{bit_and}
use domains.Prelude.{ℕ, ◌^◌, ◌-◌, Bool, not, ◌==◌}

-- `nice` is an `i8`, kept as the number that is larger by 128, so `i8::MAX` is 255.
pub record TaskInfo : Type 0 where
  pub tid : ℕ
  pub nice : ℕ
  pub cpus_allowed : ℕ

abbrev pub nice_max : ℕ
nice_max = 255

-- `usize::MAX`
abbrev pub usize_max : ℕ
usize_max = 2 ^ 64 - 1

-- `info.cpus_allowed & (1 << cpu_id) != 0`
unfoldable pub allows : TaskInfo → ℕ → Bool
allows info cpu_id = not (bit_and info.cpus_allowed (2 ^ cpu_id) == 0)
