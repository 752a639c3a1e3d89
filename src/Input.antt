-- ===== src/Input.antt =====
-- The keyboard character queue, src/kernel/input.c: a ring of 64 cells between the keyboard interrupt
-- (producer) and the foreground loop (consumer), with indices that run on and wrap at 2 ^ 32.
pub mod Queue
pub mod Refine
pub mod Typing
mod Tests
use wig_osx.Base.{
  ℕ, ◌+◌, ◌-◌, ◌%◌, ◌≡◌, Bool, true, false, Option, none, some, List, [], ◌∷◌, leb, ◌==◌,
  if◌then◌else◌, bit_and, uint32_max, add32, sub32, update,
}
use Queue.{Op, put, get, Reply, accepted, read}

-- `INPUT_QUEUE_CAPACITY` and `INPUT_QUEUE_INDEX_MASK`.
abbrev pub queue_capacity : ℕ
queue_capacity = 64

abbrev pub queue_index_mask : ℕ
queue_index_mask = queue_capacity - 1

-- The file's static variables.
pub record Input : Type 0 where
  pub queue : ℕ → ℕ
  pub head : ℕ
  pub tail : ℕ
  pub dropped_character_count : ℕ

unfoldable pub initialize : Input → Input
initialize s = record s { head = 0; tail = 0; dropped_character_count = 0 }

unfoldable pub enqueue_character : Input → ℕ → Bool × Input
enqueue_character s ascii =
    if leb queue_capacity (sub32 s.head s.tail)
    then (
      false,
      record s {
        dropped_character_count =
            if s.dropped_character_count == uint32_max
            then s.dropped_character_count
            else add32 s.dropped_character_count 1;
      },
    )
    else (
      true,
      record s {
        queue = update s.queue (bit_and s.head queue_index_mask) ascii;
        head = add32 s.head 1;
      },
    )

-- `none` for `false`. `out_is_null` says whether the caller's pointer is `NULL`.
unfoldable pub try_read_character : Input → Bool → Option (ℕ × Input)
try_read_character s out_is_null =
    if out_is_null
    then none
    else if s.tail == s.head
    then none
    else some (s.queue (bit_and s.tail queue_index_mask), record s { tail = add32 s.tail 1 })

unfoldable pub get_pending_character_count : Input → ℕ
get_pending_character_count s = sub32 s.head s.tail

unfoldable pub get_dropped_character_count : Input → ℕ
get_dropped_character_count s = s.dropped_character_count

-- One operation on the queue, with what it answers.
taken : Input → Option (ℕ × Input) → Reply × Input
taken s none = (read none, s)
taken s (some (c, t)) = (read (some c), t)

unfoldable pub step : Op → Input → Reply × Input
unfolding taken
step (put c) s = let (b, t) = enqueue_character s c in (accepted b, t)
step get s = taken s (try_read_character s false)

-- The answers to a sequence of operations, in whatever order the two sides make them, and the end.
unfoldable pub run : List Op → Input → List Reply × Input
run [] s = ([], s)
run (o ∷ os) s = let (r, t) = step o s in let (rs, u) = run os t in (r ∷ rs, u)
