-- ===== src/Maestro/Headers.antt =====
-- The header of a note: how the objects of its type and command are stored.
use mathlib.Core.Path.{ap₂}
use msg_perf_tool.Base.{ℕ, ◌^◌, ◌<◌, ◌≡◌, ◌∙◌, ◌%◌, ◌/◌, lt→ltb, ◌++◌, Bytes, arith}
use msg_perf_tool.Maestro.Msgpack.{Msgpack, IsLawful, int64_object, positive_integer}
use msg_perf_tool.Maestro.Note.{as_note, null, zeroed}
use msg_perf_tool.Maestro.Message.{Message, IsMessage, type_of, command_of}
use msg_perf_tool.Maestro.Assign.{State, success, Memory, pointer_of, assign_type, assign_command}
use msg_perf_tool.Maestro.Deserialize.{next_object, header}

-- The state behind the header, with no payload yet.
abbrev pub entered : ℕ → ℕ → Bytes → State
entered t c rest = record { rest = rest; note = as_note t c null }

-- A positive integer stored into the type also sets the command to its high half.
pub assign_type-positive :
    (w : ℕ) (s : State)
    → w < 2 ^ 64
    → assign_type (positive_integer w) s
      ≡ (record s { note = as_note (w % 2 ^ 32) (w / 2 ^ 32) null }, success)
unfolding assign_type
assign_type-positive w s h = ground arith

-- One stored into the command also sets the low half of the pointer to its high half.
pub assign_command-positive :
    (t w : ℕ) (rest : Bytes)
    → w < 2 ^ 64
    → assign_command (positive_integer w) (entered t 0 rest)
      ≡ (record { rest = rest; note = as_note t (w % 2 ^ 32) (pointer_of (w / 2 ^ 32)) }, success)
unfolding assign_command
assign_command-positive t w rest h = ground arith

pub assign_type-small :
    (t : ℕ) (s : State)
    → t < 2 ^ 7
    → assign_type (positive_integer t) s ≡ (record s { note = as_note t 0 null }, success)
assign_type-small t s h =
    assign_type-positive t s (omega arith)
    ∙ ap₂ (λ a b. (record s { note = as_note a b null }, success)) (omega arith) (omega arith)

pub header_bounds :
    (msg : Message) → IsMessage msg → (type_of msg < 2 ^ 7) × (command_of msg < 2 ^ 32)
header_bounds (Message.set_request opt value) ok = omega arith
header_bounds (Message.ping_request sec usec) ok = omega arith
header_bounds (Message.plain_request c) ok = (omega arith, ok.0)
header_bounds (Message.ping_response s elapsed) ok = omega arith
header_bounds (Message.stats_response s stats) ok = omega arith
header_bounds (Message.plain_response c s) ok = (omega arith, ok.0)
header_bounds (Message.notification c s message) ok = (omega arith, ok.0)

module _ (m : Msgpack) (mem : Memory) (law : IsLawful m) where
  -- The header of a note whose command is any non-negative integer.
  pub header-positive :
      (t w : ℕ) (rest : Bytes)
      → t < 2 ^ 7
      → w < 2 ^ 63
      → header m mem (record { rest = m.pack_int8 t ++ (m.pack_int64 w ++ rest); note = zeroed })
        ≡ (record { rest = rest; note = as_note t (w % 2 ^ 32) (pointer_of (w / 2 ^ 32)) }, success)
  unfolding header
  header-positive t w rest ht hw =
      let positive : int64_object w ≡ positive_integer w = rw (lt→ltb w (2 ^ 63) hw) in
      rw
        (
          law.int8 t ht (m.pack_int64 w ++ rest),
          next_object,
          assign_type-small t (record { rest = m.pack_int64 w ++ rest; note = zeroed }) ht,
          law.int64 w (omega arith) rest,
          next_object,
          positive,
        )
        (assign_command-positive t w rest (omega arith))

  pub header_lem :
      (t c : ℕ) (rest : Bytes)
      → t < 2 ^ 7
      → c < 2 ^ 32
      → header m mem (record { rest = m.pack_int8 t ++ (m.pack_int64 c ++ rest); note = zeroed })
        ≡ (entered t c rest, success)
  unfolding pointer_of
  header_lem t c rest ht hc =
      let low : c % 2 ^ 32 ≡ c = omega arith in
      let high : c / 2 ^ 32 ≡ 0 = omega arith in
      header-positive t c rest ht (omega arith)
      ∙ ap₂ (λ a b. (record { rest = rest; note = as_note t a (pointer_of b) }, success)) low high
