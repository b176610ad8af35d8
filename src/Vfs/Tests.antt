-- ===== src/Vfs/Tests.antt =====
-- Pipes and event counters on concrete values, and the claims at them.
use domains.Prelude.{
  ℕ, ◌+◌, ◌≡◌, ◌↔◌, refl, [], ◌∷◌, ◌++◌, none, some, Bool, true, false, ◌&&◌, ◌||◌, All, take, min,
  arith, if◌then◌else◌,
}
use domains.Vfs.Flags.{OpenFlags}
use domains.Vfs.Pipe.Ring
use domains.Vfs.Pipe.Ring.{
  PipeInodeData, available_read, available_write, is_full, set_reader, set_sender, upgrades,
  is_write_wait, is_read_wait, is_empty, put_byte, drop_byte,
}
use domains.Vfs.Pipe.Inode.{
  Turn, done, suspend, read_turn, write_turn, read_at, write_at, World, make_pipe_file, is_readable,
  is_writable, reader_flags, sender_flags, file_read, file_write, seek, get_attr,
}
use domains.Vfs.Pipe.Inode
use domains.Vfs.Pipe.Queue.{IsRing, contents, available_sum}
use domains.Vfs.Pipe.Order.{
  Traffic, Reach, here, next, wrote, took, InOrder, read_turn_lem, write_turn_lem, Reach-InOrder,
}
use domains.Vfs.Pipe.Waiting.{Stuffed, all_events, write_at_waits}

-- A ring of four cells that holds 5 and then 7, round its end.
abbrev wrapped : PipeInodeData
wrapped = record {
  buf = 7 ∷ 0 ∷ 0 ∷ 5 ∷ [];
  head = 3;
  tail = 1;
  read_wait = some 1;
  write_wait = some 2;
}

abbrev drained : PipeInodeData
drained = record wrapped { head = 1 }

abbrev filled : PipeInodeData
filled = record wrapped { buf = 7 ∷ 9 ∷ 0 ∷ 5 ∷ []; tail = 2 }

abbrev everyone : ℕ → Bool
everyone _ = true

wrapped-IsRing : IsRing 4 wrapped
wrapped-IsRing = record { sized = refl; head_in = omega arith; tail_in = omega arith }

reads_round_the_end :
    read_turn 4 everyone wrapped (0 ∷ 0 ∷ 0 ∷ []) ≡ done (5 ∷ 7 ∷ 0 ∷ [], 2, drained)
unfolding read_turn Ring.read available_read is_empty drop_byte
reads_round_the_end = refl

writes_until_full : write_turn 4 everyone wrapped (9 ∷ 8 ∷ []) ≡ done (1, filled)
unfolding write_turn Ring.write available_write is_full put_byte
writes_until_full = refl

read_turn_lem_example :
    IsRing 4 drained
    × (2 ≡ min (available_read 4 wrapped) 3)
    × (contents 4 wrapped ≡ take 2 (5 ∷ 7 ∷ 0 ∷ []) ++ contents 4 drained)
read_turn_lem_example = read_turn_lem everyone wrapped-IsRing (0 ∷ 0 ∷ 0 ∷ []) reads_round_the_end

write_turn_lem_example :
    IsRing 4 filled
    × (1 ≡ min (available_write 4 wrapped) 2)
    × (contents 4 filled ≡ contents 4 wrapped ++ take 1 (9 ∷ 8 ∷ []))
write_turn_lem_example = write_turn_lem everyone wrapped-IsRing (9 ∷ 8 ∷ []) writes_until_full

available_sum_example : available_read 4 wrapped + available_write 4 wrapped + 1 ≡ 4
available_sum_example = available_sum 4 wrapped-IsRing

-- A pipe of four cells, after a write of three bytes and a read of two.
abbrev opened : PipeInodeData
opened = record {
  buf = 0 ∷ 0 ∷ 0 ∷ 0 ∷ [];
  head = 0;
  tail = 0;
  read_wait = some 1;
  write_wait = some 2;
}

abbrev written : PipeInodeData
written = record opened { buf = 1 ∷ 2 ∷ 3 ∷ 0 ∷ []; tail = 3 }

abbrev half_read : PipeInodeData
half_read = record written { head = 2 }

opens : make_pipe_file 4 1 2 ≡ opened
unfolding make_pipe_file set_reader set_sender Ring.new
opens = refl

first_write : write_turn 4 everyone (make_pipe_file 4 1 2) (1 ∷ 2 ∷ 3 ∷ 4 ∷ []) ≡ done (3, written)
unfolding write_turn Ring.write available_write make_pipe_file set_reader set_sender Ring.new
    is_full put_byte
first_write = refl

then_read : read_turn 4 everyone written (0 ∷ 0 ∷ []) ≡ done (1 ∷ 2 ∷ [], 2, half_read)
unfolding read_turn Ring.read available_read is_empty drop_byte
then_read = refl

abbrev traffic : Traffic
traffic = record { pipe = half_read; sent = 1 ∷ 2 ∷ 3 ∷ []; received = 1 ∷ 2 ∷ [] }

traffic-Reach : Reach 4 (record { pipe = make_pipe_file 4 1 2; sent = []; received = [] }) traffic
traffic-Reach =
    next (next here (wrote everyone (1 ∷ 2 ∷ 3 ∷ 4 ∷ []) 3 written first_write))
      (took everyone (0 ∷ 0 ∷ []) (1 ∷ 2 ∷ []) 2 half_read then_read)

Reach-InOrder_example : InOrder 4 traffic
Reach-InOrder_example = Reach-InOrder 4 1 2 (omega arith) traffic-Reach

write_at_waits_example :
    (write_at 4 ((everyone, filled) ∷ (everyone, wrapped) ∷ []) (9 ∷ []) ≡ none)
    ↔ All (Stuffed 4) ((everyone, filled) ∷ (everyone, wrapped) ∷ [])
write_at_waits_example = write_at_waits 4 ((everyone, filled) ∷ (everyone, wrapped) ∷ []) (9 ∷ [])

shows_in : (Inode.poll 4 everyone wrapped (all_events 4)).input ≡ true
unfolding Inode.poll available_read
shows_in = refl

shows_out : (Inode.poll 4 everyone wrapped (all_events 4)).output ≡ true
unfolding Inode.poll available_write
shows_out = refl

-- The two bits of the access mode, as Linux numbers them.
abbrev pub Bits : Type 0
Bits = Bool × Bool

abbrev pub holds : Bits → Bits → Bool
holds (a, b) (c, d) = (if c then a else true) && (if d then b else true)

abbrev pub joined : Bits → Bits → Bits
joined (a, b) (c, d) = (a || c, b || d)

pub holds-joined : (a b c : Bits) → holds a (joined b c) ≡ (holds a b && holds a c)
holds-joined (a, b) (c, d) (e, f) = ground arith

pub holds_self : (a : Bits) → holds a a ≡ true
holds_self (a, b) = ground arith

abbrev pub linux : OpenFlags
linux = record {
  flags = record {
    Flags = Bits;
    contains = holds;
    union = joined;
    contains-union = holds-joined;
    contains_self = holds_self;
  };
  rdonly = (false, false);
  wronly = (true, false);
  rdwr = (false, true);
}
