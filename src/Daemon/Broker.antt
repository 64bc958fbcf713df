-- ===== src/Daemon/Broker.antt =====
-- The daemon that inspects a broker: the handlers of brokerd_worker.c in
-- src/applications/mpt-daemons/broker. It has no workers.
use msg_perf_tool.Base.{
  if◌then◌else◌, Bool, true, false, Option, none, some, List, [], ◌∷◌, Bytes, done, ◌>>=◌,
}
use msg_perf_tool.Maestro.Command
use msg_perf_tool.Maestro.Note.{set_cmd}
use msg_perf_tool.Maestro.Sheet.{Play, Instrument, Sheet, sheet_new, set_location}
use msg_perf_tool.Daemon.Common.{Daemon, Outside, handle_flush, handle_ping}
use msg_perf_tool.Daemon.Sender.{instrument, add_all, handle_sender_set}

-- `brokerd_handle_flush`, given whether the files of the inspection can be flushed.
unfoldable pub handle_broker_flush : Bool → Play Daemon
unfolding set_cmd handle_flush
handle_broker_flush flushed st request response info = do
  (st, response) ← handle_flush st request response info
  let command =
      if st.started then (if flushed then Command.ok else Command.internal_error) else Command.ok
  done (st, set_cmd response command)

-- `brokerd_handle_start`
unfoldable pub handle_broker_start : Play Daemon
unfolding set_cmd
handle_broker_start st request response info =
    if st.started
    then done (st, set_cmd response Command.internal_error)
    else done (record st { started = true }, set_cmd response Command.ok)

-- `brokerd_handle_stop`
unfoldable pub handle_broker_stop : Play Daemon
unfolding set_cmd
handle_broker_stop st request response info =
    done (record st { started = false }, set_cmd response Command.ok)

-- `brokerd_handle_halt`
unfoldable pub handle_broker_halt : Play Daemon
unfolding set_cmd handle_broker_stop
handle_broker_halt st request response info = do
  (st, response) ← handle_broker_stop st request response info
  done (record st { halt = true }, set_cmd response Command.ok)

-- `brokerd_handle_stats`
unfoldable pub handle_broker_stats : Play Daemon
unfolding set_cmd
handle_broker_stats st request response info = done (st, set_cmd response Command.ok)

module _ (e : Outside) (flushed : Bool) where
  -- The instruments of `brokerd_new_sheet`, in the order in which they are added.
  abbrev pub broker_instruments : List (Instrument Daemon)
  broker_instruments =
      instrument e Command.start_inspector handle_broker_start
      ∷ instrument e Command.stop_inspector handle_broker_stop
      ∷ instrument e Command.flush (handle_broker_flush flushed)
      ∷ instrument e Command.set (handle_sender_set e)
      ∷ instrument e Command.ping (handle_ping e)
      ∷ instrument e Command.stats handle_broker_stats
      ∷ instrument e Command.halt handle_broker_halt
      ∷ []

  -- `brokerd_new_sheet`
  unfoldable pub new_broker_sheet : Bool → Bool → List Bytes → Option (Sheet Daemon)
  unfolding sheet_new set_location add_all
  new_broker_sheet there list topics = elim (sheet_new there list) [
    | none ↦ none
    | some s ↦ some (add_all e (set_location s 3 topics 1) broker_instruments)
  ]
