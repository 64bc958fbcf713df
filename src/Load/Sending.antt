-- ===== src/Load/Sending.antt =====
-- The loops that send: naive_sender.c and rate_sender.c of src/worker.
use msg_perf_tool.Base.{
  ℕ, ◌+◌, ◌-◌, ◌*◌, ◌/◌, ◌%◌, ◌^◌, ltb, ◌==◌, if◌then◌else◌, Bool, true, false, Option, none, some,
  List, [], ◌∷◌, ◌++◌, Outcome, done, ◌>>=◌,
}
use msg_perf_tool.Content.{Content}
use msg_perf_tool.Vmsl.{stat_error}
use msg_perf_tool.Worker.Clone.{worker_failure, worker_success}
use msg_perf_tool.Daemon.Options.{WorkerOptions}
use msg_perf_tool.Load.{Time, Snapshot, Clock, worker_check}
use msg_perf_tool.Load.Turns.{turns}

-- What a turn gets from outside: whether the process is interrupted, the function of the payload
-- strategy on the buffer, what `send` returns, the time, and whether the report can be written.
pub record Turn : Type 0 where
  pub interrupted : Bool
  pub load : Content → Content
  pub stat : ℕ
  pub now : Time
  pub written : Bool

-- The variables of a sender, what it has sent, the counts of its samples, the snapshots that it has
-- put in its queue, and the microseconds that it has slept.
pub record Sender : Type 0 where
  pub snapshot : Snapshot
  pub last_count : ℕ
  pub last_sample : Time
  pub round : ℕ
  pub content : Content
  pub sent : List Content
  pub samples : List ℕ
  pub queued : List Snapshot
  pub slept : List ℕ

-- A message goes out.
unfoldable pub count_message : Turn → Sender → Sender
count_message t s =
    let content = t.load s.content in
    record s {
      content = content;
      sent = s.sent ++ content ∷ [];
      snapshot = record (s.snapshot) { count = (s.snapshot.count + 1) % 2 ^ 64; now = t.now };
    }

-- `snapshot->count - last_count` of two `uint64_t`.
abbrev pub processed : Sender → ℕ
processed s = (s.snapshot.count + (2 ^ 64 - s.last_count)) % 2 ^ 64

abbrev pub sampled : Sender → Sender
sampled s = record s {
  samples = s.samples ++ processed s ∷ [];
  last_count = s.snapshot.count;
  last_sample = s.snapshot.now;
}

module _ (o : WorkerOptions) (clock : Clock) (turn : ℕ → Turn) where
  -- The sample of `naive_sender_start`, every 10 seconds; the flag is false if the report fails.
  unfoldable pub naive_sample : Turn → Sender → Sender × Bool
  naive_sample t s =
      let s' = sampled s in
      if clock.reaches 10 s.last_sample s.snapshot.now
      then if t.written
        then (record s' { queued = s.queued ++ s.snapshot ∷ [] }, true)
        else (s, false)
      else (s, true)

  -- The sleep after as many messages as the throttle.
  unfoldable pub throttled : Sender → Sender
  throttled s =
      let round = (s.round + 1) % 2 ^ 64 in
      let wait = (2 ^ 32 + 1000000 - s.snapshot.now.usec) % 2 ^ 32 in
      if ltb 0 o.throttle
      then if round == o.throttle
        then record s { slept = s.slept ++ wait ∷ []; round = 0 }
        else record s { round = round }
      else s

  -- The body of the loop of `naive_sender_start`; the flag is false where it breaks off.
  unfoldable pub naive_step : ℕ → Sender → Sender × Bool
  unfolding stat_error count_message naive_sample throttled
  naive_step n s =
      let (s', there) = naive_sample (turn n) (count_message (turn n) s) in
      if stat_error (turn n).stat
      then (record s { content = (turn n).load s.content }, false)
      else if there
      then (throttled s', true)
      else (s', false)

  -- 1000000 / rate, where there is one.
  abbrev interval : ℕ
  interval = if o.rate == 0 then 0 else 1000000 / o.rate

  -- The sample of `rate_sender_start`, every second; it is only computed.
  unfoldable pub rate_sample : Sender → Sender
  rate_sample s =
      let s' = sampled s in if clock.reaches 1 s.last_sample s.snapshot.now then s' else s

  -- The estimate of the next message's time, and the sleep up to it.
  unfoldable pub paced : Sender → Sender
  paced s =
      let eta = clock.add_microseconds s.snapshot.eta interval in
      let diff = clock.milli s.snapshot.now eta in
      let s' : Sender = record s { snapshot = record (s.snapshot) { eta = eta } } in
      if ltb 0 diff
      then record s' { slept = s.slept ++ ((diff % 2 ^ 32) * 1000) % 2 ^ 32 ∷ [] }
      else s'

  -- The body of the loop of `rate_sender_start`.
  unfoldable pub rate_step : ℕ → Sender → Sender × Bool
  unfolding stat_error count_message rate_sample paced
  rate_step n s =
      let s' = rate_sample (count_message (turn n) s) in
      if stat_error (turn n).stat
      then (record s { content = (turn n).load s.content }, false)
      else (paced (record s' { queued = s'.queued ++ s'.snapshot ∷ [] }), true)

  abbrev pub goes_on : ℕ → Sender → Bool
  goes_on n s = worker_check o (turn n).interrupted s.snapshot

  -- The loops on fuel.
  unfoldable pub naive_loop : ℕ → Sender → Outcome Sender
  unfolding worker_check naive_step turns
  naive_loop k s = turns goes_on naive_step k 0 s

  unfoldable pub rate_loop : ℕ → Sender → Outcome Sender
  unfolding worker_check rate_step turns
  rate_loop k s = turns goes_on rate_step k 0 s

  -- A sender before its first message.
  abbrev pub fresh : Time → Content → Sender
  fresh start content = record {
    snapshot = record { count = 0; start = start; now = start; eta = start };
    last_count = 0;
    last_sample = start;
    round = 0;
    content = content;
    sent = [];
    samples = [];
    queued = [];
    slept = [];
  }

-- What the start of a sender gets from outside: whether there is a messaging context, what `start`
-- returns, whether there is a queue, the buffer of the payload strategy, and the time.
pub record Opening : Type 0 where
  pub initialised : Bool
  pub start_stat : ℕ
  pub queue : Bool
  pub content : Option Content
  pub begun : Time

-- The start of both senders, up to the loop.
unfoldable pub open_sender : Opening → Option (Time × Content)
unfolding stat_error
open_sender p =
    if p.initialised
    then if stat_error p.start_stat
      then none
      else if p.queue
      then elim p.content [ none ↦ none | some content ↦ some (p.begun, content) ]
      else none
    else none

module _ (o : WorkerOptions) (clock : Clock) (turn : ℕ → Turn) (p : Opening) where
  -- A sender: it fails if it cannot be opened, and succeeds at the end of its loop.
  unfoldable pub run_sender :
      (Sender → Outcome Sender) → Option (Time × Content) → Outcome (ℕ × Option Sender)
  run_sender loop none = done (worker_failure, none)
  run_sender loop (some (begun, content)) = do
    s ← loop (fresh o clock turn begun content)
    done (worker_success, some s)

  -- `naive_sender_start`
  unfoldable pub naive_sender_start : ℕ → Outcome (ℕ × Option Sender)
  unfolding run_sender open_sender naive_loop
  naive_sender_start k = run_sender (naive_loop o clock turn k) (open_sender p)

  -- `rate_sender_start`
  unfoldable pub rate_sender_start : ℕ → Outcome (ℕ × Option Sender)
  unfolding run_sender open_sender rate_loop
  rate_sender_start k = run_sender (rate_loop o clock turn k) (open_sender p)
