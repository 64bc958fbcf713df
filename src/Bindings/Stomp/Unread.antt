-- ===== src/Bindings/Stomp/Unread.antt =====
-- What a player makes of the messages that come over STOMP.
use msg_perf_tool.Base.{
  ℕ, ◌≡◌, refl, ap, ◌∙◌, if◌then◌else◌, inl, inr, Bool, true, none, some, List, [], ◌++◌,
  Option-cases, Bytes, done,
}
use msg_perf_tool.Content
use msg_perf_tool.Content.{Content, empty, IsValid}
use msg_perf_tool.Content.Random.{Allocates}
use msg_perf_tool.Vmsl.{vmsl_success, has_data}
use msg_perf_tool.Handlers.{Callback}
use msg_perf_tool.Handlers.Lists.{pointers, run-pointers}
use msg_perf_tool.Maestro.Msgpack.{Msgpack, IsLawful}
use msg_perf_tool.Maestro.Note.{Payload, zeroed, payload_cleanup}
use msg_perf_tool.Maestro.Message.{IsSender}
use msg_perf_tool.Maestro.Assign.{Error, failed}
use msg_perf_tool.Maestro.Deserialize.{
  deserialize_note, deserialize_bytes, input_of, header, next_object,
}
use msg_perf_tool.Maestro.Sheet.{Sheet, PlayerInfo, Resources}
use msg_perf_tool.Maestro.Sheet.Answers.{Copies, sender_of}
use msg_perf_tool.Maestro.Player.{handle}
use msg_perf_tool.Maestro.Player.Replay.{handle_note-malformed, reset-IsValid}
use msg_perf_tool.Bindings.{Options, takes_latency}
use msg_perf_tool.Bindings.Stomp.{arrived, Reception, run_if, receive}

input_of-empty :
    (m : Msgpack) (r : Resources) (c : Content) → c.size ≡ 0 → input_of m r.request c ≡ []
unfolding input_of
input_of-empty m r c z = elim (Option-cases c.bytes) [
  | inl e ↦ rw e refl
  | inr (region, e) ↦ rw (e, z) refl
]

-- The note that is read in no bytes.
nothing_read :
    (m : Msgpack) (r : Resources)
    → m.unpack_next [] ≡ none
    → deserialize_bytes m r.request []
      ≡ (record { rest = []; note = zeroed }, failed Error.missing_note_type)
unfolding deserialize_bytes header next_object
nothing_read m r e = rw (e, deserialize_bytes, header, next_object) refl

empty_read :
    (m : Msgpack) (r : Resources) (c : Content)
    → m.unpack_next [] ≡ none
    → c.size ≡ 0
    → deserialize_note m r.request c
      ≡ (record { rest = []; note = zeroed }, failed Error.missing_note_type)
unfolding deserialize_note
empty_read m r c e z =
    ap (deserialize_bytes m r.request) (input_of-empty m r c z) ∙ nothing_read m r e

-- A message that arrives over STOMP is never looked at: the receive succeeds and calls the handlers
-- before a receive twice, and from the buffer that has been reset, which it leaves as it is, the player
-- reads no note, so that it neither changes its state nor answers.
pub arrived-unread :
    (opt : Options) (ctime : ℕ) (before : List Callback) (bytes : Bytes) (m : Msgpack) {S : Type 0}
    (sheet : Sheet S) (info : PlayerInfo) (r : Resources) (law : IsLawful m) (blank : Payload)
    (clear : Bool) (st : S) (buffer : Content)
    → m.unpack_next [] ≡ none
    → IsValid buffer
    → r.payload ≡ some blank
    → Copies r.strdup
    → Allocates r.alloc
    → IsSender (sender_of info)
    → (c : Content) × (x : Reception) × (Content.reset buffer ≡ done c)
      × (receive opt true ctime (some (pointers before)) (arrived bytes) c ≡ done x)
      × (x.stat ≡ vmsl_success)
      × (x.called ≡ before ++ before)
      × (handle m sheet info r (record { stat = x.stat; clear = clear; content = x.content }) st
          ≡ done (st, []))
unfolding receive run_if handle has_data payload_cleanup
arrived-unread opt ctime before bytes m sheet info r law blank clear st buffer none_read ok there
      copies allocs who =
    let (c, wiped, _, z) = reset-IsValid buffer buffer.capacity refl ok in
    (
      c,
      record {
        stat = vmsl_success;
        content = c;
        created = if takes_latency opt then some ctime else none;
        called = before ++ before;
      },
      wiped,
      rw (run-pointers before) refl,
      refl,
      refl,
      (handle_note-malformed m sheet info r law blank clear st c
          (record { rest = []; note = zeroed }) Error.missing_note_type zeroed there copies allocs
          who (empty_read m r c none_read z) refl).1,
    )
