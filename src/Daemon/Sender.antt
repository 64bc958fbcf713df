-- ===== src/Daemon/Sender.antt =====
-- The daemon that sends: senderd_worker.c of src/applications/mpt-daemons/sender. Its handlers, and its
-- sheet.
use msg_perf_tool.Base.{
  ℕ, ◌+◌, ◌%◌, ◌^◌, ◌==◌, if◌then◌else◌, Bool, true, false, ◌||◌, Option, none, some, List, [], ◌∷◌,
  ◌++◌, Bytes, le_value, take, Outcome, done, fault, ◌>>=◌, within_fuel,
}
use msg_perf_tool.Maestro.Command
use msg_perf_tool.Maestro.Note.{
  Note, payload_of, set_cmd, type_notification, stats_set_child_count, stats_set_role,
  stats_set_roleinfo, stats_set_stat_type, stats_set_perf_ts, stats_set_perf_count,
  stats_set_perf_rate, stats_set_perf_latency,
}
use msg_perf_tool.Maestro.Sheet.{Play, Instrument, Sheet, sheet_new, set_location, add_instrument}
use msg_perf_tool.Worker.Snapshots.{WorkerInfo}
use msg_perf_tool.Worker.Table.{Manager, list_count, list_is_running}
use msg_perf_tool.Worker.Stop
use msg_perf_tool.Daemon.Options.{handle_set}
use msg_perf_tool.Daemon.Common.{Daemon, Outside, handle_flush, handle_ping}

-- `senderd_handle_start`
unfoldable pub handle_start : Play Daemon
unfolding set_cmd list_is_running
handle_start st request response info =
    if st.started || list_is_running st.manager
    then done (st, set_cmd response Command.internal_error)
    else done (record st { started = true }, set_cmd response Command.ok)

-- The sums over the snapshots of the list; a count is the first member of its snapshot.
unfoldable pub count_of : Bytes → ℕ
count_of s = le_value (take 8 s)

unfoldable pub total_count : List WorkerInfo → ℕ → ℕ
unfolding count_of
total_count [] n = n
total_count (w ∷ ws) n = total_count ws ((n + count_of w.snapshot) % 2 ^ 64)

unfoldable pub total_rate : Outside → List WorkerInfo → ℕ → ℕ
total_rate e [] n = n
total_rate e (w ∷ ws) n = total_rate e ws (e.add_rate n (e.rate_of w.snapshot))

abbrev pub listed : Option (List WorkerInfo) → List WorkerInfo
listed none = []
listed (some ws) = ws

-- `MAESTRO_STAT_PERF`
abbrev pub stat_perf : ℕ
stat_perf = 0

module _ (e : Outside) where
  -- `senderd_handle_set`
  unfoldable pub handle_sender_set : Play Daemon
  handle_sender_set st request response info = do
    (options, response) ← handle_set e.gru request response st.options
    done (record st { options = options }, response)

  -- The manager after `worker_manager_stop` or `worker_manager_abort`, where there is a list.
  unfoldable pub ended_by :
      (Manager → Option (Manager × List Stop.Signal)) → Daemon → Outcome Daemon
  unfolding list_is_running
  ended_by stop st =
      if list_is_running st.manager
      then (do
        (m, sent) ← within_fuel (stop st.manager)
        done (record st { manager = m; signals = st.signals ++ sent }))
      else done st

  -- `senderd_handle_stop`
  unfoldable pub handle_stop : Play Daemon
  unfolding set_cmd ended_by
  handle_stop st request response info = do
    st ←
        ended_by (Stop.stop e.size e.arrivals e.fuel e.can_signal e.poll)
          (record st { started = false })
    done (st, set_cmd response Command.ok)

  -- The message of the request goes to the log.
  unfoldable pub log_message : Note → Outcome (Unit {0})
  unfolding payload_of
  log_message n = do
    p ← payload_of n
    if n.type == type_notification then done tt else if e.printable p then done tt else fault

  -- `senderd_handle_test_failed`
  unfoldable pub handle_test_failed : Play Daemon
  unfolding set_cmd log_message ended_by list_is_running
  handle_test_failed st request response info = do
    _ ← if list_is_running st.manager then log_message request else done tt
    st ←
        ended_by (Stop.abort e.size e.arrivals e.fuel e.can_signal e.poll)
          (record st { started = false })
    done (st, set_cmd response Command.ok)

  -- `senderd_handle_halt`
  unfoldable pub handle_halt : Play Daemon
  unfolding set_cmd handle_stop
  handle_halt st request response info = do
    (st, response) ← handle_stop st request response info
    done (record st { halt = true }, set_cmd response Command.ok)

  -- The members of a stats reply, in the order in which they are written.
  unfoldable pub fill_stats : Bytes → ℕ → ℕ → ℕ → ℕ → Note → Outcome Note
  fill_stats role children count rate latency response = do
    response ← stats_set_child_count response children
    response ← stats_set_role e.strdup response role
    response ← stats_set_roleinfo e.strdup response e.role_info
    response ← stats_set_stat_type response stat_perf
    response ← stats_set_perf_ts e.strdup response e.clock
    response ← stats_set_perf_count response count
    response ← stats_set_perf_rate response rate
    stats_set_perf_latency response latency

  -- "sender"
  abbrev pub sender_role : Bytes
  sender_role = b's' ∷ b'e' ∷ b'n' ∷ b'd' ∷ b'e' ∷ b'r' ∷ 0 ∷ []

  -- `senderd_handle_stats`; the latency is the `double` 0.
  unfoldable pub handle_stats : Play Daemon
  unfolding set_cmd list_is_running list_count total_count total_rate fill_stats
  handle_stats st request response info =
      let ws = listed st.manager.workers in
      let filled : Outcome (Daemon × Note) = (do
        response ←
            fill_stats sender_role (list_count st.manager) (total_count ws 0)
              (total_rate e ws e.no_rate) 0 (set_cmd response Command.stats)
        done (st, response)) in
      if list_is_running st.manager
      then filled
      else done (st, set_cmd response Command.internal_error)

  abbrev pub instrument : ℕ → Play Daemon → Instrument Daemon
  instrument command play = record { command = command; play = play }

  -- The instruments of `senderd_new_sheet`, in the order in which they are added.
  abbrev pub sender_instruments : List (Instrument Daemon)
  sender_instruments =
      instrument Command.start_sender handle_start
      ∷ instrument Command.stop_sender handle_stop
      ∷ instrument Command.flush handle_flush
      ∷ instrument Command.set handle_sender_set
      ∷ instrument Command.ping (handle_ping e)
      ∷ instrument Command.stats handle_stats
      ∷ instrument Command.halt handle_halt
      ∷ instrument Command.notify_fail handle_test_failed
      ∷ []

  unfoldable pub add_all : Sheet Daemon → List (Instrument Daemon) → Sheet Daemon
  add_all s [] = s
  add_all s (i ∷ is) = add_all (add_instrument s i) is

  -- `senderd_new_sheet`, with the topics of its location; the memory of the instruments is there.
  unfoldable pub new_sheet : Bool → Bool → List Bytes → Option (Sheet Daemon)
  unfolding sheet_new set_location add_instrument add_all
  new_sheet there list topics = elim (sheet_new there list) [
    | none ↦ none
    | some s ↦ some (add_all (set_location s 3 topics 1) sender_instruments)
  ]
