-- ===== src/Load/Receiving.antt =====
-- The loops that receive: naive_receiver.c and rate_receiver.c of src/worker.
use msg_perf_tool.Base.{
  ℕ, ◌+◌, ◌-◌, ◌/◌, ◌%◌, ◌^◌, ◌==◌, if◌then◌else◌, Bool, true, false, Option, none, some, List, [],
  ◌∷◌, ◌++◌, Bytes, Outcome, done, ◌>>=◌,
}
use msg_perf_tool.Content
use msg_perf_tool.Content.{Content, empty}
use msg_perf_tool.Vmsl.{stat_error, has_data, vmsl_no_timestamp}
use msg_perf_tool.Worker.Snapshots.{has_flag}
use msg_perf_tool.Worker.Clone.{worker_failure, worker_success}
use msg_perf_tool.Daemon.Options.{WorkerOptions}
use msg_perf_tool.Load.{Time, Snapshot, Clock, worker_check}
use msg_perf_tool.Load.Turns.{turns}

-- What a turn gets from outside: whether the process is interrupted, what `receive` makes of the
-- buffer and returns, the time, and whether each report can be written.
pub record Turn : Type 0 where
  pub interrupted : Bool
  pub receive : Content → Content
  pub stat : ℕ
  pub now : Time
  pub latency_written : Bool
  pub written : Bool

-- The variables of a receiver, the messages whose latency it has written, the counts of its samples,
-- the snapshots that it has put in its queue, and the number of its sleeps.
pub record Receiver : Type 0 where
  pub snapshot : Snapshot
  pub last_count : ℕ
  pub last_sample : Time
  pub content : Content
  pub latencies : List (Content × Time)
  pub samples : List ℕ
  pub queued : List Snapshot
  pub sleeps : ℕ

abbrev pub with_sample : Receiver → Receiver
with_sample s = record s {
  samples = s.samples ++ (s.snapshot.count + (2 ^ 64 - s.last_count)) % 2 ^ 64 ∷ [];
  last_count = s.snapshot.count;
  last_sample = s.snapshot.now;
}

-- A message is counted.
unfoldable pub count_received : Receiver → Receiver
count_received s = record s {
  snapshot = record (s.snapshot) { count = (s.snapshot.count + 1) % 2 ^ 64 };
}

-- The body of both loops up to the count of a message, which `counted` goes on from. An error without
-- a time stamp is passed over, and the time is not read.
unfoldable pub receive_step :
    (Turn → Receiver → Receiver × Bool) → Turn → Receiver → Receiver × Bool
unfolding stat_error has_data count_received
receive_step counted t s =
    let s = record s { content = t.receive s.content } in
    let timed : Receiver = record s { snapshot = record (s.snapshot) { now = t.now } } in
    let arrived = counted t (count_received timed) in
    if stat_error t.stat
    then if has_flag t.stat vmsl_no_timestamp then (s, true) else (s, false)
    else if has_data t.stat
    then arrived
    else (record timed { sleeps = timed.sleeps + 1 }, true)

module _ (o : WorkerOptions) (clock : Clock) (turn : ℕ → Turn) where
  -- The sample of `naive_receiver_start`; the flag is false if its report fails.
  unfoldable pub naive_sample : Turn → Receiver → Receiver × Bool
  naive_sample t s =
      let s' = with_sample s in
      if clock.reaches 10 s.last_sample s.snapshot.now
      then if t.written
        then (record s' { queued = s.queued ++ s.snapshot ∷ [] }, true)
        else (s, false)
      else (s, true)

  -- What `naive_receiver_start` does with a message.
  unfoldable pub naive_counted : Turn → Receiver → Receiver × Bool
  unfolding naive_sample
  naive_counted t s =
      let s' : Receiver = record s { latencies = s.latencies ++ (s.content, t.now) ∷ [] } in
      if t.latency_written then naive_sample t s' else (s, false)

  -- 1000000 / rate, where there is one.
  abbrev interval : ℕ
  interval = if o.rate == 0 then 0 else 1000000 / o.rate

  -- What `rate_receiver_start` does with a message.
  unfoldable pub rate_counted : Turn → Receiver → Receiver × Bool
  rate_counted t s =
      let s' = with_sample s in
      let s' = if clock.reaches 1 s.last_sample s.snapshot.now then s' else s in
      let eta = clock.add_microseconds s'.snapshot.eta interval in
      (
        record s' {
          queued = s'.queued ++ s'.snapshot ∷ [];
          snapshot = record (s'.snapshot) { eta = eta };
        },
        true,
      )

  abbrev pub goes_on : ℕ → Receiver → Bool
  goes_on n s = worker_check o (turn n).interrupted s.snapshot

  -- The loops on fuel.
  unfoldable pub naive_loop : ℕ → Receiver → Outcome Receiver
  unfolding worker_check receive_step naive_counted turns
  naive_loop k s = turns goes_on (λ n. receive_step naive_counted (turn n)) k 0 s

  unfoldable pub rate_loop : ℕ → Receiver → Outcome Receiver
  unfolding worker_check receive_step rate_counted turns
  rate_loop k s = turns goes_on (λ n. receive_step rate_counted (turn n)) k 0 s

-- A receiver before its first message.
abbrev pub fresh : Time → Content → Receiver
fresh start content = record {
  snapshot = record { count = 0; start = start; now = start; eta = start };
  last_count = 0;
  last_sample = start;
  content = content;
  latencies = [];
  samples = [];
  queued = [];
  sleeps = 0;
}

-- What the start of a receiver gets from outside: whether there is a messaging context, what `start`
-- and `subscribe` return, whether there is a queue, memory, and the time.
pub record Opening : Type 0 where
  pub initialised : Bool
  pub start_stat : ℕ
  pub subscribe_stat : ℕ
  pub queue : Bool
  pub alloc : ℕ → Option Bytes
  pub begun : Time

-- The start of both receivers, up to the loop.
unfoldable pub open_receiver : WorkerOptions → Opening → Option (Time × Content)
unfolding stat_error Content.init
open_receiver o p =
    let (content, there) = Content.init p.alloc empty o.message_size in
    if p.initialised
    then if stat_error p.start_stat
      then none
      else if stat_error p.subscribe_stat
      then none
      else if p.queue
      then if there then some (p.begun, content) else none
      else none
    else none

-- A receiver: it fails if it cannot be opened, and succeeds at the end of its loop.
unfoldable pub run_receiver :
    (Receiver → Outcome Receiver) → Option (Time × Content) → Outcome (ℕ × Option Receiver)
run_receiver loop none = done (worker_failure, none)
run_receiver loop (some (begun, content)) = do
  s ← loop (fresh begun content)
  done (worker_success, some s)

module _ (o : WorkerOptions) (clock : Clock) (turn : ℕ → Turn) (p : Opening) where
  -- `naive_receiver_start`
  unfoldable pub naive_receiver_start : ℕ → Outcome (ℕ × Option Receiver)
  unfolding run_receiver open_receiver naive_loop
  naive_receiver_start k = run_receiver (naive_loop o clock turn k) (open_receiver o p)

  -- `rate_receiver_start`
  unfoldable pub rate_receiver_start : ℕ → Outcome (ℕ × Option Receiver)
  unfolding run_receiver open_receiver rate_loop
  rate_receiver_start k = run_receiver (rate_loop o clock turn k) (open_receiver o p)
