-- ===== src/Maestro/Note.antt =====
-- The notes of the protocol and the functions that build them: maestro_note.h, maestro_note.c.
use msg_perf_tool.Base.{
  ℕ, ◌==◌, if◌then◌else◌, Bool, true, false, Option, none, some, Bytes, Outcome, done, fault, ◌>>=◌,
}

-- `maestro_request_type`
abbrev pub type_request : ℕ
type_request = 0

abbrev pub type_response : ℕ
type_response = 1

abbrev pub type_notification : ℕ
type_notification = 2

-- `maestro_payload_stats_reply_t` with its `maestro_payload_stats_perf_t`. A string is the buffer
-- that the pointer leads to, `none` the null pointer; a `double` is its 64-bit pattern.
pub record StatsReply : Type 0 where
  pub child_count : ℕ
  pub role : Option Bytes
  pub roleinfo : Option Bytes
  pub stat_type : ℕ
  pub timestamp : Option Bytes
  pub count : ℕ
  pub rate : ℕ
  pub latency : ℕ

-- `maestro_payload_t`. The views of the union stand side by side; `id` and `name`, which lie at the
-- same place in a response and in a notification, stand once.
pub record Payload : Type 0 where
  pub id : Option Bytes
  pub name : Option Bytes
  pub elapsed : ℕ
  pub stats : StatsReply
  pub message : Option Bytes
  pub opt : ℕ
  pub value : Option Bytes
  pub sec : ℕ
  pub usec : ℕ

-- The member `payload`: null, an address that is no allocation, or an allocation.
pub data Pointer : Type 0 where
  null : Pointer
  wild : Pointer
  block : Payload → Pointer

-- `maestro_note_t`; the enumerations are numbers, as they come off the wire.
pub record Note : Type 0 where
  pub type : ℕ
  pub command : ℕ
  pub payload : Pointer

abbrev pub as_note : ℕ → ℕ → Pointer → Note
as_note type command payload = record { type = type; command = command; payload = payload }

abbrev pub zeroed : Note
zeroed = as_note 0 0 null

-- Reading through the pointer.
unfoldable pub payload_of : Note → Outcome Payload
payload_of n = elim n.payload [ null ↦ fault | wild ↦ fault | block p ↦ done p ]

-- Writing through it.
unfoldable pub update : Note → (Payload → Payload) → Outcome Note
unfolding payload_of
update n f = payload_of n >>= λ p. done (record n { payload = block (f p) })

-- `maestro_note_payload_prepare`, given what `gru_alloc` returns; the flag is its result.
unfoldable pub payload_prepare : Option Payload → Note → Note × Bool
payload_prepare none n = (record n { payload = null }, false)
payload_prepare (some p) n = (record n { payload = block p }, true)

-- `maestro_note_payload_cleanup`: the payload and the strings in it are given back.
unfoldable pub payload_cleanup : Note → Outcome Note
payload_cleanup n = elim n.payload [
  | null ↦ done n
  | wild ↦ fault
  | block p ↦ done (record n { payload = null })
]

-- `strdup` is the C library's; it returns null when there is no memory.
module _ (strdup : Bytes → Option Bytes) where
  -- A member that responses and notifications share, written for each type that the note has.
  set_shared : Note → (Payload → Payload) → Outcome Note
  unfolding update
  set_shared n f = do
    n ← if n.type == type_response then update n f else done n
    if n.type == type_notification then update n f else done n

  unfoldable pub response_set_id : Note → Bytes → Outcome Note
  unfolding set_shared
  response_set_id n id = set_shared n (λ p. record p { id = strdup id })

  unfoldable pub response_set_name : Note → Bytes → Outcome Note
  unfolding set_shared
  response_set_name n name = set_shared n (λ p. record p { name = strdup name })

  unfoldable pub notification_set_message : Note → Bytes → Outcome Note
  unfolding update
  notification_set_message n message = update n (λ p. record p { message = strdup message })

  -- `maestro_note_set_opt` ignores whether the payload could be prepared.
  unfoldable pub set_opt : Option Payload → Note → ℕ → Bytes → Outcome Note
  unfolding update payload_prepare
  set_opt mem n opt value =
      update (payload_prepare mem n).0 (λ p. record p { opt = opt; value = strdup value })

  unfoldable pub stats_set_role : Note → Bytes → Outcome Note
  unfolding update
  stats_set_role n role =
      update n (λ p. record p { stats = record (p.stats) { role = strdup role } })

  unfoldable pub stats_set_roleinfo : Note → Bytes → Outcome Note
  unfolding update
  stats_set_roleinfo n roleinfo =
      update n (λ p. record p { stats = record (p.stats) { roleinfo = strdup roleinfo } })

  unfoldable pub stats_set_perf_ts : Note → Bytes → Outcome Note
  unfolding update
  stats_set_perf_ts n ts =
      update n (λ p. record p { stats = record (p.stats) { timestamp = strdup ts } })

unfoldable pub ping_set_ts : Note → ℕ → ℕ → Outcome Note
unfolding update
ping_set_ts n sec usec = update n (λ p. record p { sec = sec; usec = usec })

unfoldable pub ping_set_elapsed : Note → ℕ → Outcome Note
unfolding update
ping_set_elapsed n elapsed = update n (λ p. record p { elapsed = elapsed })

unfoldable pub set_type : Note → ℕ → Note
set_type n type = record n { type = type }

unfoldable pub set_cmd : Note → ℕ → Note
set_cmd n command = record n { command = command }

unfoldable pub stats_set_child_count : Note → ℕ → Outcome Note
unfolding update
stats_set_child_count n count =
    update n (λ p. record p { stats = record (p.stats) { child_count = count } })

unfoldable pub stats_set_stat_type : Note → ℕ → Outcome Note
unfolding update
stats_set_stat_type n stat_type =
    update n (λ p. record p { stats = record (p.stats) { stat_type = stat_type } })

unfoldable pub stats_set_perf_count : Note → ℕ → Outcome Note
unfolding update
stats_set_perf_count n count =
    update n (λ p. record p { stats = record (p.stats) { count = count } })

unfoldable pub stats_set_perf_rate : Note → ℕ → Outcome Note
unfolding update
stats_set_perf_rate n rate = update n (λ p. record p { stats = record (p.stats) { rate = rate } })

unfoldable pub stats_set_perf_latency : Note → ℕ → Outcome Note
unfolding update
stats_set_perf_latency n latency =
    update n (λ p. record p { stats = record (p.stats) { latency = latency } })
