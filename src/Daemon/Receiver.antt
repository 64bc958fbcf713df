-- ===== src/Daemon/Receiver.antt =====
-- The daemon that receives: receiverd_worker.c of src/applications/mpt-daemons/receiver. Its handlers
-- of set, start, stop, halt and failure are those of the daemon that sends, line by line.
use msg_perf_tool.Base.{
  ℕ, ◌+◌, ◌%◌, ◌^◌, ltb, if◌then◌else◌, Bool, true, Option, none, some, List, [], ◌∷◌, Bytes,
  Outcome, done, ◌>>=◌,
}
use msg_perf_tool.Maestro.Command
use msg_perf_tool.Maestro.Note.{Note, set_cmd}
use msg_perf_tool.Maestro.Sheet.{Play, Instrument, Sheet, sheet_new, set_location}
use msg_perf_tool.Worker.Snapshots.{WorkerInfo}
use msg_perf_tool.Worker.Table.{list_count, list_is_running}
use msg_perf_tool.Daemon.Common.{Daemon, Outside, handle_flush, handle_ping}
use msg_perf_tool.Daemon.Sender
use msg_perf_tool.Daemon.Sender.{listed, instrument, total_count, total_rate, fill_stats, add_all}

-- The latencies in milliseconds, a `uint64_t` sum.
unfoldable pub total_latency : Outside → List WorkerInfo → ℕ → ℕ
total_latency e [] n = n
total_latency e (w ∷ ws) n = total_latency e ws ((n + e.latency_of w.snapshot) % 2 ^ 64)

-- `a > b` of two `int64_t` patterns.
abbrev pub above_signed : ℕ → ℕ → Bool
above_signed a b = ltb ((b + 2 ^ 63) % 2 ^ 64) ((a + 2 ^ 63) % 2 ^ 64)

-- `receiverd_worker_eval_latency`: `elapsed` is the time of the test in seconds. The result is whether
-- the test goes on.
unfoldable pub eval_latency : ℕ → ℕ → ℕ → Bool
eval_latency limit latency elapsed =
    if above_signed latency limit then above_signed 90 elapsed else true

module _ (e : Outside) where
  -- "receiver"
  abbrev pub receiver_role : Bytes
  receiver_role = b'r' ∷ b'e' ∷ b'c' ∷ b'e' ∷ b'i' ∷ b'v' ∷ b'e' ∷ b'r' ∷ 0 ∷ []

  -- `receiverd_handle_stats`
  unfoldable pub handle_receiver_stats : Play Daemon
  unfolding set_cmd list_is_running list_count total_count total_rate total_latency fill_stats
  handle_receiver_stats st request response info =
      let ws = listed st.manager.workers in
      let children = list_count st.manager in
      let filled : Outcome (Daemon × Note) = (do
        response ←
            fill_stats e receiver_role children (total_count ws 0) (total_rate e ws e.no_rate)
              (e.mean (total_latency e ws 0) children) (set_cmd response Command.stats)
        done (st, response)) in
      if list_is_running st.manager
      then filled
      else done (st, set_cmd response Command.internal_error)

  -- `receiverd_handle_set`, `receiverd_handle_start`, `receiverd_handle_stop`,
  -- `receiverd_handle_test_failed` and `receiverd_handle_halt`
  unfoldable pub handle_receiver_set : Play Daemon
  handle_receiver_set = Sender.handle_sender_set e

  unfoldable pub handle_receiver_start : Play Daemon
  handle_receiver_start = Sender.handle_start

  unfoldable pub handle_receiver_stop : Play Daemon
  handle_receiver_stop = Sender.handle_stop e

  unfoldable pub handle_receiver_test_failed : Play Daemon
  handle_receiver_test_failed = Sender.handle_test_failed e

  unfoldable pub handle_receiver_halt : Play Daemon
  handle_receiver_halt = Sender.handle_halt e

  -- The instruments of `receiverd_new_sheet`, in the order in which they are added.
  abbrev pub receiver_instruments : List (Instrument Daemon)
  receiver_instruments =
      instrument e Command.start_receiver handle_receiver_start
      ∷ instrument e Command.stop_receiver handle_receiver_stop
      ∷ instrument e Command.flush handle_flush
      ∷ instrument e Command.set handle_receiver_set
      ∷ instrument e Command.ping (handle_ping e)
      ∷ instrument e Command.stats handle_receiver_stats
      ∷ instrument e Command.halt handle_receiver_halt
      ∷ instrument e Command.notify_fail handle_receiver_test_failed
      ∷ []

  -- `receiverd_new_sheet`
  unfoldable pub new_receiver_sheet : Bool → Bool → List Bytes → Option (Sheet Daemon)
  unfolding sheet_new set_location add_all
  new_receiver_sheet there list topics = elim (sheet_new there list) [
    | none ↦ none
    | some s ↦ some (add_all e (set_location s 3 topics 1) receiver_instruments)
  ]
