-- ===== src/Load/Stalling.antt =====
-- A receiver of messages without a time stamp.
use msg_perf_tool.Base.{ℕ, zero, suc, ◌≤◌, ◌≡◌, refl, true, false, le→leb, unended}
use msg_perf_tool.Vmsl.{stat_error, vmsl_no_timestamp}
use msg_perf_tool.Worker.Snapshots.{has_flag}
use msg_perf_tool.Daemon.Options.{WorkerOptions, test_time}
use msg_perf_tool.Load.{Clock, worker_check}
use msg_perf_tool.Load.Turns.{turns}
use msg_perf_tool.Load.Receiving.{Turn, Receiver, receive_step, naive_counted, naive_loop, goes_on}

module _ (o : WorkerOptions) (clock : Clock) (turn : ℕ → Turn)
    (quiet : (n : ℕ) → (turn n).interrupted ≡ false)
    (fails : (n : ℕ) → stat_error (turn n).stat ≡ true)
    (unstamped : (n : ℕ) → has_flag (turn n).stat vmsl_no_timestamp ≡ true) where
  stalls :
      (end k n : ℕ) (s : Receiver)
      → o.duration ≡ test_time end
      → s.snapshot.now.sec ≤ end
      → turns (goes_on o clock turn) (λ n. receive_step (naive_counted o clock turn) (turn n)) k n s
        ≡ unended
  unfolding turns receive_step worker_check
  stalls end zero n s e early = refl
  stalls end (suc k) n s e early =
      rw (quiet n, e, le→leb s.snapshot.now.sec end early, fails n, unstamped n)
        (stalls end k (suc n) (record s { content = (turn n).receive s.content }) e early)

  -- A test of a receiver that is to end at a given second never ends while the process is not
  -- interrupted and each `receive` fails for want of a time stamp: no turn reads the clock, and the
  -- time that is compared with the end stays what it was, not after the end.
  pub naive_loop-stalls :
      (end k : ℕ) (s : Receiver)
      → o.duration ≡ test_time end
      → s.snapshot.now.sec ≤ end
      → naive_loop o clock turn k s ≡ unended
  unfolding naive_loop
  naive_loop-stalls end k s e early = stalls end k 0 s e early
