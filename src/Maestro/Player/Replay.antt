-- ===== src/Maestro/Player/Replay.antt =====
-- What the loop of the player does with the notes that arrive.
use msg_perf_tool.Base.{
  ℕ, zero, suc, ◌+◌, ◌≤◌, ◌≡◌, refl, ap, ◌∙◌, sym, if◌then◌else◌, Bool, true, false, some, List, [],
  ◌∷◌, ◌++◌, Bytes, Outcome, done, unended, ◌>>=◌, >>=-eq, >>=-eq-done, done-injective, arith, ◌≢◌,
  take-length, length, replicate, overlay, overlay_full, length-replicate, ne→==,
}
use msg_perf_tool.Content
use msg_perf_tool.Content.{Content, empty, IsValid}
use msg_perf_tool.Content.Random.{Allocates}
use msg_perf_tool.Vmsl.{stat_error}
use msg_perf_tool.Maestro.Command
use msg_perf_tool.Maestro.Msgpack.{Msgpack, IsLawful}
use msg_perf_tool.Maestro.Note.{Note, Payload, payload_cleanup, type_response}
use msg_perf_tool.Maestro.Assign.{Memory, State, Error, success, failed}
use msg_perf_tool.Maestro.Deserialize.{deserialize_note, input_of}
use msg_perf_tool.Maestro.Headers.{header_bounds, header_lem}
use msg_perf_tool.Maestro.Message.{
  Message, IsMessage, IsSender, type_of, command_of, body_pieces, joined, wire,
}
use msg_perf_tool.Maestro.RoundTrip.{exactly}
use msg_perf_tool.Maestro.Sheet.{Sheet, PlayerInfo, Resources, sheet_play}
use msg_perf_tool.Maestro.Sheet.Answers.{Copies, sender_of, sheet_play-malformed}
use msg_perf_tool.Maestro.Player.{
  Round, Delivery, reads_header, leaves_status, sent, handle_note, handle, run,
}

-- A delivery that is handled, with the memory there is at that time.
pub record Arrival : Type 0 where
  pub resources : Resources
  pub delivery : Delivery

-- The deliveries of the rounds, up to the first round that is cancelled or whose receive fails.
unfoldable pub arrivals : (ℕ → Round) → ℕ → ℕ → Content → Outcome (List Arrival)
unfolding stat_error
arrivals round zero n buffer = unended
arrivals round (suc k) n buffer =
    let next : Outcome (List Arrival) = (do
      buffer ← Content.reset buffer
      let d = (round n).receive buffer
      let later : Outcome (List Arrival) = (do
        notes ← arrivals round k (suc n) d.content
        done (record { resources = (round n).resources; delivery = d } ∷ notes))
      if stat_error d.stat then done [] else later) in
    if (round n).cancelled then done [] else next

-- A valid buffer that is wiped is valid and holds nothing.
pub reset-IsValid :
    (c : Content) (n : ℕ)
    → c.capacity ≡ n
    → IsValid c
    → (c' : Content) × (Content.reset c ≡ done c') × IsValid c' × (c'.size ≡ 0)
unfolding Content.reset
reset-IsValid c zero z v =
    (record c { size = 0 }, rw z refl, record { owned = v.owned; fits = omega arith }, refl)
reset-IsValid c (suc n) z v =
    let (region, e, l) = v.owned in
    let wiped : overlay (replicate (suc n) 0) region ≡ some (replicate (suc n) 0) =
      overlay_full (replicate (suc n) 0) region (l ∙ z ∙ sym (length-replicate (suc n) 0)) in
    (
      record c { bytes = some (replicate (suc n) 0); size = 0 },
      rw (z, e, ne→== (suc n) 0 (omega arith), wiped) refl,
      record {
        owned = (replicate (suc n) 0, refl, length-replicate (suc n) 0 ∙ sym z);
        fits = omega arith;
      },
      refl,
    )

module _ (m : Msgpack) {S : Type 0} (sheet : Sheet S) (info : PlayerInfo) where
  -- The deliveries are handled one after the other, and what they send goes out in their order.
  unfoldable pub replay : List Arrival → S → Outcome (S × List Content)
  replay [] st = done (st, [])
  replay (a ∷ notes) st = do
    (st, out) ← handle m sheet info a.resources a.delivery st
    (st, outs) ← replay notes st
    done (st, out ++ outs)

  ends_or_follows :
      (over : Bool) (notes : List Arrival) (st : S) (next : Outcome (List Arrival))
      (follows : Outcome (S × List Content))
      → (if over then done [] else next) ≡ done notes
      → (next ≡ done notes → follows ≡ replay notes st)
      → (if over then done (st, []) else follows) ≡ replay notes st
  unfolding replay
  ends_or_follows true notes st next follows e h = ap (λ l. replay l st) (done-injective e)
  ends_or_follows false notes st next follows e h = h e

  run-replay :
      (round : ℕ → Round) (k n : ℕ) (st : S) (buffer : Content) (notes : List Arrival)
      → arrivals round k n buffer ≡ done notes
      → run m sheet info round k n st buffer ≡ replay notes st
  unfolding run arrivals replay
  run-replay round zero n st buffer notes e = cc
  run-replay round (suc k) n st buffer notes e =
      ends_or_follows (round n).cancelled notes st _ _ e (λ e.
        let (b, wiped, e) = >>=-eq-done (Content.reset buffer) _ e in
        let d = (round n).receive b in
        let a : Arrival = record { resources = (round n).resources; delivery = d } in
        rw wiped (
          ends_or_follows (stat_error d.stat) notes st _ _ e (λ e.
            let (rest, later, e) = >>=-eq-done (arrivals round k (suc n) d.content) _ e in
            >>=-eq (handle m sheet info (round n).resources d st) _ _ (λ (st, out).
              ap (λ o. o >>= λ (st, outs). done (st, out ++ outs))
                (run-replay round k (suc n) st d.content rest later))
            ∙ ap (λ l. replay l st) (done-injective e))))

-- The buffer stays valid in the hands of the messaging layer.
abbrev pub Keeps : (ℕ → Round) → Type 0
Keeps round = (n : ℕ) (c : Content) → IsValid c → IsValid ((round n).receive c).content

ends_within :
    (over : Bool) (k : ℕ) (next : Outcome (List Arrival))
    → ((notes : List Arrival) × (length notes ≤ suc k) × (next ≡ done notes))
    → (notes : List Arrival) × (length notes ≤ suc k)
      × ((if over then done [] else next) ≡ done notes)
ends_within true k next h = ([], omega arith, refl)
ends_within false k next h = h

arrivals-ends :
    (round : ℕ → Round) (k n : ℕ) (buffer : Content)
    → IsValid buffer
    → Keeps round
    → (round (n + k)).cancelled ≡ true
    → (notes : List Arrival) × (length notes ≤ k) × (arrivals round (suc k) n buffer ≡ done notes)
unfolding arrivals
arrivals-ends round zero n buffer v keeps e =
    let c : (round n).cancelled ≡ true = ap (λ j. (round j).cancelled) (omega arith) ∙ e in
    ([], omega arith, rw c refl)
arrivals-ends round (suc k) n buffer v keeps e =
    let (b, wiped, v', _) = reset-IsValid buffer _ refl v in
    let d = (round n).receive b in
    let (rest, short, later) =
      arrivals-ends round k (suc n) d.content (keeps n b v') keeps
        (ap (λ j. (round j).cancelled) (omega arith) ∙ e) in
    ends_within (round n).cancelled k _ (
      rw wiped (
        ends_within (stat_error d.stat) k _ (
          record { resources = (round n).resources; delivery = d } ∷ rest,
          omega arith,
          rw later refl,
        )))

module _ (m : Msgpack) {S : Type 0} (sheet : Sheet S) (info : PlayerInfo) where
  -- When the player is cancelled before round `j` and the messaging layer keeps the buffer valid, the
  -- loop ends: it handles at most `j` deliveries, those of its rounds, one after the other from the
  -- state that it starts in, and sends what they send in that order.
  pub run-ends :
      (round : ℕ → Round) (j : ℕ) (st : S) (buffer : Content)
      → IsValid buffer
      → Keeps round
      → (round j).cancelled ≡ true
      → (notes : List Arrival) × (length notes ≤ j)
        × (arrivals round (suc j) 0 buffer ≡ done notes)
        × (run m sheet info round (suc j) 0 st buffer ≡ replay m sheet info notes st)
  run-ends round j st buffer v keeps e =
      let (notes, short, all) =
        arrivals-ends round j 0 buffer v keeps (ap (λ n. (round n).cancelled) (omega arith) ∙ e) in
      (notes, short, all, run-replay m sheet info round (suc j) 0 st buffer notes all)

  -- With a lawful msgpack and memory for the response, the protocol error that the player makes of a
  -- request that cannot be read never goes out: reading the request has set the status, and the player
  -- returns before it sends. The state stays as it was.
  pub handle_note-malformed :
      (r : Resources) (law : IsLawful m) (blank : Payload) (clear : Bool) (st : S)
      (request : Content) (s : State) (e : Error) (cleaned : Note)
      → r.payload ≡ some blank
      → Copies r.strdup
      → Allocates r.alloc
      → IsSender (sender_of info)
      → deserialize_note m r.request request ≡ (s, failed e)
      → payload_cleanup s.note ≡ done cleaned
      → (sheet_play m r sheet info st request empty
          ≡ done (
            st,
            exactly (wire m (Message.plain_response Command.protocol_error (sender_of info))),
          ))
        × (handle_note m sheet info r clear st request ≡ done (st, []))
  unfolding handle_note leaves_status
  handle_note-malformed r law blank clear st request s e cleaned there copies allocs who read gone =
      let answered =
        sheet_play-malformed m r blank there copies law sheet st info request empty s e cleaned
          allocs who read gone in
      (answered, rw (answered, there, read) refl)

  -- In a message that is no response there is no such header.
  pub reads_header-wire :
      (law : IsLawful m) (mem : Memory) (msg : Message)
      → IsMessage msg
      → type_of msg ≢ type_response
      → reads_header m mem (exactly (wire m msg)) ≡ true
  unfolding reads_header input_of
  reads_header-wire law mem msg ok ne =
      let b = header_bounds msg ok in
      rw
        (
          take-length (wire m msg),
          header_lem m mem law (type_of msg) (command_of msg) (joined (body_pieces m msg)) b.0 b.1,
          ne→== (type_of msg) type_response ne,
        )
        refl

  -- A request that the player's sheet answers with a message is answered by just this message, when the
  -- request can be read and nothing else has gone wrong.
  pub handle_note-answered :
      (r : Resources) (st st' : S) (request : Content) (s : State) (bytes : Bytes) (blank : Payload)
      → r.payload ≡ some blank
      → deserialize_note m r.request request ≡ (s, success)
      → reads_header m r.request request ≡ true
      → sheet_play m r sheet info st request empty ≡ done (st', exactly bytes)
      → handle_note m sheet info r true st request ≡ done (st', exactly bytes ∷ [])
  unfolding handle_note leaves_status sent
  handle_note-answered r st st' request s bytes blank there read header_read answered =
      rw (answered, there, read, header_read) refl
