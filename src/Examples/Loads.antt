-- ===== src/Examples/Loads.antt =====
-- The loops of senders and receivers at concrete tests.
use msg_perf_tool.Base.{
  ℕ, ◌≡◌, ◌≤◌, refl, true, false, some, length, done, unended, arith, if◌then◌else◌, ◌==◌, ◌+◌,
}
use msg_perf_tool.Content.{empty}
use msg_perf_tool.Vmsl.{stat_error}
use msg_perf_tool.Worker.Clone.{worker_success}
use msg_perf_tool.Daemon.Options.{WorkerOptions, Duration}
use msg_perf_tool.Load.{Time, Clock}
use msg_perf_tool.Load.Turns.{Final}
use msg_perf_tool.Load.Sending
use msg_perf_tool.Load.Sending.{
  Sender, Opening, naive_step, naive_loop, naive_sender_start, open_sender,
}
use msg_perf_tool.Load.Receiving
use msg_perf_tool.Load.Receiving.{Receiver}
use msg_perf_tool.Load.Accounts.{HasSent, Within, naive_loop-ends, naive_sender_start-all}
use msg_perf_tool.Load.Stalling.{naive_loop-stalls}
use msg_perf_tool.Examples.Daemons.{options}

abbrev counted : WorkerOptions
counted = record options { duration = Duration.message_count 2; throttle = 1 }

abbrev timed : WorkerOptions
timed = record options { duration = Duration.test_time 9 }

abbrev clock : Clock
clock = record { reaches = λ n a b. true; add_microseconds = λ t n. t; milli = λ a b. 0 }

abbrev start : Time
start = record { sec = 5; usec = 6 }

-- The second send fails.
abbrev shaky : ℕ → Sending.Turn
shaky n = record {
  interrupted = false;
  load = λ c. record c { size = 3 };
  stat = if n == 1 then 0 else 1;
  now = start;
  written = true;
}

abbrev steady : ℕ → Sending.Turn
steady n = record {
  interrupted = false;
  load = λ c. record c { size = 3 };
  stat = 1;
  now = start;
  written = true;
}

abbrev opening : Opening
opening = record {
  initialised = true;
  start_stat = 1;
  queue = true;
  content = some empty;
  begun = start;
}

naive_loop-ends_example :
    (s : Sender) × (naive_loop counted clock shaky 3 (Sending.fresh counted clock shaky start empty)
      ≡ done s)
    × HasSent s.snapshot.count s
    × (s.snapshot.count ≤ 2)
    × Final (Sending.goes_on counted clock shaky) (naive_step counted clock shaky) (Within 2) s
naive_loop-ends_example = naive_loop-ends counted clock shaky 2 start empty refl (omega arith)

naive_sender_start-all_example :
    (s : Sender) × (naive_sender_start counted clock steady opening 3
      ≡ done (worker_success, some s))
    × (s.snapshot.count ≡ 2)
    × (length s.sent ≡ 2)
unfolding open_sender stat_error
naive_sender_start-all_example =
    naive_sender_start-all counted clock steady opening 2 start empty refl (omega arith) refl
      (λ n. (refl, refl, refl))

abbrev unstamped : ℕ → Receiving.Turn
unstamped n = record {
  interrupted = false;
  receive = λ c. c;
  stat = 4;
  now = record { sec = 100 + n; usec = 0 };
  latency_written = true;
  written = true;
}

naive_loop-stalls_example :
    Receiving.naive_loop timed clock unstamped 50 (Receiving.fresh start empty) ≡ unended
unfolding stat_error
naive_loop-stalls_example =
    naive_loop-stalls timed clock unstamped (λ n. refl) (λ n. refl) (λ n. refl) 9 50
      (Receiving.fresh start empty) refl (omega arith)
