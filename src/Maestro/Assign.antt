-- ===== src/Maestro/Assign.antt =====
-- Storing unpacked objects into a note: maestro_deserialize.c. A step runs on the part of the input that is not yet read
-- and on the note as it stands, which also a failed run leaves behind.
use msg_perf_tool.Base.{
  ℕ, ◌/◌, ◌%◌, ◌^◌, ◌==◌, if◌then◌else◌, Option, none, some, [], ◌∷◌, Bytes, c_string, terminated,
  le_bytes, le_value, overlay,
}
use msg_perf_tool.Maestro.Msgpack.{
  Object, boolean, positive_integer, negative_integer, float, str, unsupported,
}
use msg_perf_tool.Maestro.Note.{Note, Payload, Pointer, null, wild, block, StatsReply}

-- The failures by the text that the code puts into the status.
pub data Error : Type 0 where
  unsupported_type no_memory : Error
  missing_note_type invalid_note_type missing_command : Error
  missing_set_command missing_set_value missing_ping_timestamp : Error
  missing_response_id missing_response_name missing_notification_id missing_notification_name :
      Error
  missing_elapsed missing_child_count missing_role missing_roleinfo missing_stat_type : Error
  missing_perf_timestamp missing_perf_count missing_perf_rate missing_perf_latency : Error
  missing_message : Error

-- `crashed`: the code wrote outside an object, or through a pointer to none.
pub data Status : Type 0 where
  success : Status
  failed : Error → Status
  crashed : Status

pub record State : Type 0 where
  pub rest : Bytes
  pub note : Note

abbrev pub Step : Type 0
Step = State → State × Status

-- The rest of a function that returns at the first failure.
abbrev pub and_then : State × Status → Step → State × Status
and_then (s, success) k = k s
and_then (s, failed e) k = (s, failed e)
and_then (s, crashed) k = (s, crashed)

infixl 5 ◌>>◌
abbrev pub ◌>>◌ : Step → Step → Step
(a >> b) s = and_then (a s) b

-- The bytes that `maestro_deserialize_note_assign` stores for an object: a `bool`, a 64-bit word,
-- or what `snprintf` with `%.*s` prints; `none` for the types it refuses.
unfoldable pub written : Object → Option Bytes
unfolding le_bytes c_string
written (boolean b) = some ((if b then 1 else 0) ∷ [])
written (positive_integer w) = some (le_bytes 8 w)
written (negative_integer w) = some (le_bytes 8 w)
written (float w) = some (le_bytes 8 w)
written (str s) = some (terminated (c_string s))
written (unsupported t) = none

pub data Assigned : Type 0 where
  stored : Bytes → Assigned
  refused : Assigned
  overrun : Assigned

-- `maestro_deserialize_note_assign` at the start of a region of memory. The code does not know how
-- long the region is.
unfoldable pub assign : Object → Bytes → Assigned
unfolding written overlay
assign o region = elim (written o) [
  | none ↦ refused
  | some bs ↦ elim (overlay bs region) [ none ↦ overrun | some r ↦ stored r ]
]

-- The allocations of a string.
pub data Site : Type 0 where
  at_id at_name at_role at_roleinfo at_timestamp at_value at_message : Site

-- What the run gets from the gru library and from the representation of objects: the payload and
-- the buffers that `gru_alloc` returns, and what `via.str.size` reads in an object that is no
-- string.
pub record Memory : Type 0 where
  pub payload : Option Payload
  pub alloc : Site → ℕ → Option Bytes
  pub stray : Object → ℕ

unfoldable pub pointer_of : ℕ → Pointer
pointer_of bits = if bits == 0 then null else wild

-- Storing into `note->type`, the start of a zeroed note of 16 bytes.
unfoldable pub assign_type : Object → Step
unfolding assign pointer_of le_bytes le_value
assign_type o s = elim (assign o (le_bytes 16 0)) [
  | stored r ↦
      let v = le_value r in
      let header : Note = record {
        type = v % 2 ^ 32;
        command = v / 2 ^ 32 % 2 ^ 32;
        payload = pointer_of (v / 2 ^ 64);
      } in
      (record s { note = header }, success)
  | refused ↦ (s, failed unsupported_type)
  | overrun ↦ (s, crashed)
]

-- Storing into `note->command`, four bytes before the pointer, which is null until then.
unfoldable pub assign_command : Object → Step
unfolding assign pointer_of le_bytes le_value
assign_command o s = elim (assign o (le_bytes 12 s.note.command)) [
  | stored r ↦
      let v = le_value r in
      let note : Note = record (s.note) {
        command = v % 2 ^ 32;
        payload = pointer_of (v / 2 ^ 32);
      } in
      (record s { note = note }, success)
  | refused ↦ (s, failed unsupported_type)
  | overrun ↦ (s, crashed)
]

-- A member of the payload is written through the note's pointer.
unfoldable pub with_payload : (Payload → Pointer × Status) → Step
with_payload f s = elim s.note.payload [
  | null ↦ (s, crashed)
  | wild ↦ (s, crashed)
  | block p ↦ let (q, st) = f p in (record s { note = record (s.note) { payload = q } }, st)
]

-- Storing into a member of 64 bits (or of 32 with the padding behind it): its value before, and
-- the payload with a new one.
unfoldable pub store_word : Object → ℕ → (ℕ → Payload) → Payload → Pointer × Status
unfolding assign le_bytes le_value
store_word o old put p = elim (assign o (le_bytes 8 old)) [
  | stored r ↦ (block (put (le_value r)), success)
  | refused ↦ (block p, failed unsupported_type)
  | overrun ↦ (block p, crashed)
]

-- A string member: the buffer is allocated for `via.str.size + 1` bytes and then stored into.
unfoldable pub store_text : Object → Option Bytes → (Option Bytes → Payload) → Pointer × Status
unfolding assign
store_text o none put = (block (put none), failed no_memory)
store_text o (some region) put = elim (assign o region) [
  | stored r ↦ (block (put (some r)), success)
  | refused ↦ (block (put (some region)), failed unsupported_type)
  | overrun ↦ (block (put (some region)), crashed)
]

abbrev pub with_stats : Payload → StatsReply → Payload
with_stats p s = record p { stats = s }
