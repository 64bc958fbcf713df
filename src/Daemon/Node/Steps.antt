-- ===== src/Daemon/Node/Steps.antt =====
-- What holds in every state that a daemon reaches, whatever requests it plays between the steps of its
-- main loop.
use msg_perf_tool.Base.{
  ℕ, ◌+◌, ◌%◌, ◌^◌, ◌≡◌, sym, ap, ◌∙◌, inl, inr, Bool-cases, Bool, ◌||◌, true, false, if◌then◌else◌,
  Option, none, some, List, [], ◌∷◌, ◌++◌, ◌==◌, Outcome, done, >>=-eq-done, done-injective,
  within_fuel, within_fuel-done, arith,
}
use mathlib.Core.Path.{subst}
use msg_perf_tool.Maestro.Command
use msg_perf_tool.Maestro.Note.{Note, payload_of, ping_set_elapsed, set_cmd, type_request}
use msg_perf_tool.Maestro.Sheet.{Play, Instrument, PlayerInfo, play_first, can_play}
use msg_perf_tool.Worker.Table.{Manager, list_count, list_is_running, list_clean}
use msg_perf_tool.Worker.Watchdog.{sigint}
use msg_perf_tool.Worker.Stop
use msg_perf_tool.Worker.Stop.{sigterm, Stopped, do_stop, finish, stop_walk}
use msg_perf_tool.Daemon.Common.{Daemon, Outside, handle_flush, handle_ping}
use msg_perf_tool.Daemon.Options.{handle_set}
use msg_perf_tool.Daemon.Sender.{
  handle_start, handle_sender_set, handle_stop, handle_test_failed, handle_halt, handle_stats,
  ended_by, log_message, sender_instruments, fill_stats, sender_role, total_count, total_rate,
  listed,
}
use msg_perf_tool.Daemon.Receiver.{
  handle_receiver_set, handle_receiver_start, handle_receiver_stop, handle_receiver_test_failed,
  handle_receiver_halt, handle_receiver_stats, receiver_instruments, receiver_role, total_latency,
}
use msg_perf_tool.Daemon.Node.{Kind, sends, receives, instruments_of, Phase, idle}

-- The lock of the list is given back between steps, and a test that is to be started at the head of the
-- main loop finds no list of workers.
pub record IsSound (phase : Phase) (d : Daemon) : Type 0 where
  pub unlocked : d.manager.locked ≡ false
  pub fresh : phase ≡ idle → d.started ≡ true → d.manager.workers ≡ none

true≢false : {b : Bool} → b ≡ true → b ≡ false → ⊥
true≢false p q = cc

-- A function of an instrument that keeps the invariant.
abbrev pub Keeps : Play Daemon → Type 0
Keeps play =
    (phase : Phase) (st st' : Daemon) (request response r : Note) (info : PlayerInfo)
    → play st request response info ≡ done (st', r)
    → IsSound phase st
    → IsSound phase st'

abbrev pub AllKeep : List (Instrument Daemon) → Type 0
AllKeep [] = Unit {0}
AllKeep (i ∷ is) = Keeps i.play × AllKeep is

-- Playing a request keeps the invariant.
pub play_first-IsSound :
    (is : List (Instrument Daemon)) (phase : Phase) (st st' : Daemon) (request response r : Note)
    (info : PlayerInfo) (b : Bool)
    → AllKeep is
    → play_first is info st request response ≡ done (st', r, b)
    → IsSound phase st
    → IsSound phase st'
unfolding play_first
play_first-IsSound [] phase st st' request response r info b k e s =
    subst (IsSound phase) (ap (λ (p : Daemon × Note × Bool). p.0) (done-injective e)) s
play_first-IsSound (i ∷ is) phase st st' request response r info b (k, ks) e s =
    elim (Bool-cases (can_play i request)) [
      | inl hit ↦
          let ((st1, r1), played, e) =
            >>=-eq-done (i.play st request response info) _ (rw hit at e) in
          k phase st st' request response r1 info
            (played ∙ ap (λ (p : Daemon × Note × Bool). done (p.0, r1)) (done-injective e)) s
      | inr miss ↦ play_first-IsSound is phase st st' request response r info b ks (rw miss at e) s
    ]

-- The state that a run leaves, when it changes neither the list nor the flag.
same_lem :
    (phase : Phase) (st st' : Daemon)
    → st'.manager ≡ st.manager
    → st'.started ≡ st.started
    → IsSound phase st
    → IsSound phase st'
same_lem phase st st' m b s = record {
  unlocked = ap (λ x. x.locked) m ∙ s.unlocked;
  fresh = λ p on. ap (λ x. x.workers) m ∙ s.fresh p (sym b ∙ on);
}

abbrev done_with : Daemon → Note → Outcome (Daemon × Note)
done_with st r = done (st, r)

result_of : (a b : Daemon) (x y : Note) → done_with a x ≡ done_with b y → a ≡ b
result_of a b x y e = ap (λ (p : Daemon × Note). p.0) (done-injective e)

handle_flush-Keeps : Keeps handle_flush
unfolding handle_flush
handle_flush-Keeps phase st st' request response r info e s =
    subst (IsSound phase) (result_of st st' _ _ e) s

no_list : (b : Bool) (m : Manager) → b || list_is_running m ≡ false → m.workers ≡ none
unfolding list_is_running
no_list b m e = ground arith

handle_start-Keeps : Keeps handle_start
unfolding handle_start
handle_start-Keeps phase st st' request response r info e s =
    elim (Bool-cases (st.started || list_is_running st.manager)) [
      | inl busy ↦ subst (IsSound phase) (result_of st st' _ _ (rw busy at e)) s
      | inr free ↦
          subst (IsSound phase) (result_of (record st { started = true }) st' _ _ (rw free at e))
            (record { unlocked = s.unlocked; fresh = λ p on. no_list st.started st.manager free })
    ]

module _ (e : Outside) where
  handle_ping-Keeps : Keeps (handle_ping e)
  unfolding handle_ping
  handle_ping-Keeps phase st st' request response r info h s =
      let (p, there, h) = >>=-eq-done (payload_of request) _ h in
      let created =
        if request.type == type_request then (p.sec, p.usec) else e.gru.overlaid_ping p in
      let (n, set, h) =
        >>=-eq-done (ping_set_elapsed (set_cmd response Command.ping) (e.elapsed created)) _ h in
      subst (IsSound phase) (result_of st st' n r h) s

  handle_set-Keeps : Keeps (handle_sender_set e)
  unfolding handle_sender_set
  handle_set-Keeps phase st st' request response r info h s =
      let (changed, set, h) = >>=-eq-done (handle_set e.gru request response st.options) _ h in
      subst (IsSound phase) (result_of (record st { options = changed.0 }) st' changed.1 r h)
        (record { unlocked = s.unlocked; fresh = s.fresh })

  handle_stats-Keeps : Keeps (handle_stats e)
  unfolding handle_stats
  handle_stats-Keeps phase st st' request response r info h s =
      let ws = listed st.manager.workers in
      let filled =
        fill_stats e (sender_role e) (list_count st.manager) (total_count ws 0)
          (total_rate e ws e.no_rate) 0 (set_cmd response Command.stats) in
      elim (Bool-cases (list_is_running st.manager)) [
        | inl on ↦
            let (n, done_, h) = >>=-eq-done filled _ (rw on at h) in
            subst (IsSound phase) (result_of st st' n r h) s
        | inr off ↦ subst (IsSound phase) (result_of st st' _ r (rw off at h)) s
      ]

  finish-unlocked :
      (signal : ℕ) (m m' : Manager) (s : Option Stopped) (sent : List Stop.Signal)
      → finish e.size e.arrivals e.fuel e.can_signal e.poll signal m s ≡ some (m', sent)
      → m'.locked ≡ false
  unfolding finish list_clean
  finish-unlocked signal m m' none sent h = cc
  finish-unlocked signal m m' (some x) sent h = ground arith

  -- Stopping the workers gives the lock back.
  do_stop-unlocked :
      (signal : ℕ) (m m' : Manager) (sent : List Stop.Signal)
      → do_stop e.size e.arrivals e.fuel e.can_signal e.poll signal m ≡ some (m', sent)
      → m'.locked ≡ false
  unfolding do_stop
  do_stop-unlocked signal m m' sent h =
      finish-unlocked signal m m'
        (stop_walk e.size e.arrivals e.fuel e.can_signal e.poll signal (listed m.workers)) sent h

  ended_by-unlocked :
      (stop : Manager → Option (Manager × List Stop.Signal)) (st st' : Daemon)
      → ((m m' : Manager) (sent : List Stop.Signal) → stop m ≡ some (m', sent) → m'.locked ≡ false)
      → st.manager.locked ≡ false
      → ended_by e stop st ≡ done st'
      → (st'.manager.locked ≡ false) × (st'.started ≡ st.started)
  unfolding ended_by
  ended_by-unlocked stop st st' frees u h = elim (Bool-cases (list_is_running st.manager)) [
    | inl on ↦
        let (stopped, run, h) = >>=-eq-done (within_fuel (stop st.manager)) _ (rw on at h) in
        let (m, sent) = stopped in
        let same : record st { manager = m; signals = st.signals ++ sent } ≡ st' =
          done-injective h in
        (
          ap (λ x. x.manager.locked) (sym same)
              ∙ frees st.manager m sent (within_fuel-done (stop st.manager) run),
          ap (λ x. x.started) (sym same),
        )
    | inr off ↦
        let same : st ≡ st' = done-injective (rw off at h) in
        (ap (λ x. x.manager.locked) (sym same) ∙ u, ap (λ x. x.started) (sym same))
  ]

  -- `worker_manager_stop` gives the lock back.
  pub stop-unlocked :
      (m m' : Manager) (sent : List Stop.Signal)
      → Stop.stop e.size e.arrivals e.fuel e.can_signal e.poll m ≡ some (m', sent)
      → m'.locked ≡ false
  unfolding Stop.stop
  stop-unlocked m m' sent h = do_stop-unlocked sigint m m' sent h

  abort-unlocked :
      (m m' : Manager) (sent : List Stop.Signal)
      → Stop.abort e.size e.arrivals e.fuel e.can_signal e.poll m ≡ some (m', sent)
      → m'.locked ≡ false
  unfolding Stop.abort
  abort-unlocked m m' sent h =
      do_stop-unlocked sigterm (record m { errors = (m.errors + 1) % 2 ^ 32 }) m' sent h

  -- A state whose test has been ended has nothing to start.
  pub ended_lem :
      (phase : Phase) (st : Daemon)
      → st.manager.locked ≡ false
      → st.started ≡ false
      → IsSound phase st
  ended_lem phase st u off = record { unlocked = u; fresh = λ p on. absurd (true≢false on off) }

  handle_stop-Keeps : Keeps (handle_stop e)
  unfolding handle_stop
  handle_stop-Keeps phase st st' request response r info h s =
      let off : Daemon = record st { started = false } in
      let (d, run, h) =
        >>=-eq-done (ended_by e (Stop.stop e.size e.arrivals e.fuel e.can_signal e.poll) off) _ h in
      let (u, b) = ended_by-unlocked _ off d stop-unlocked s.unlocked run in
      subst (IsSound phase) (result_of d st' _ r h) (ended_lem phase d u b)

  handle_test_failed-Keeps : Keeps (handle_test_failed e)
  unfolding handle_test_failed
  handle_test_failed-Keeps phase st st' request response r info h s =
      let off : Daemon = record st { started = false } in
      let (x, logged, h) =
        >>=-eq-done (if list_is_running st.manager then log_message e request else done tt) _ h in
      let (d, run, h) =
        >>=-eq-done (ended_by e (Stop.abort e.size e.arrivals e.fuel e.can_signal e.poll) off) _
          h in
      let (u, b) = ended_by-unlocked _ off d abort-unlocked s.unlocked run in
      subst (IsSound phase) (result_of d st' _ r h) (ended_lem phase d u b)

  handle_halt-Keeps : Keeps (handle_halt e)
  unfolding handle_halt
  handle_halt-Keeps phase st st' request response r info h s =
      let (stopped, run, h) = >>=-eq-done (handle_stop e st request response info) _ h in
      let s' = handle_stop-Keeps phase st stopped.0 request response stopped.1 info run s in
      subst (IsSound phase) (result_of (record (stopped.0) { halt = true }) st' _ r h)
        (record { unlocked = s'.unlocked; fresh = s'.fresh })

  sender_instruments-AllKeep : AllKeep (sender_instruments e)
  sender_instruments-AllKeep = (
    handle_start-Keeps,
    (
      handle_stop-Keeps,
      (
        handle_flush-Keeps,
        (
          handle_set-Keeps,
          (
            handle_ping-Keeps,
            (handle_stats-Keeps, (handle_halt-Keeps, (handle_test_failed-Keeps, tt))),
          ),
        ),
      ),
    ),
  )

  handle_receiver_stats-Keeps : Keeps (handle_receiver_stats e)
  unfolding handle_receiver_stats
  handle_receiver_stats-Keeps phase st st' request response r info h s =
      let ws = listed st.manager.workers in
      let children = list_count st.manager in
      let filled =
        fill_stats e (receiver_role e) children (total_count ws 0) (total_rate e ws e.no_rate)
          (e.mean (total_latency e ws 0) children) (set_cmd response Command.stats) in
      elim (Bool-cases (list_is_running st.manager)) [
        | inl on ↦
            let (n, filling, h) = >>=-eq-done filled _ (rw on at h) in
            subst (IsSound phase) (result_of st st' n r h) s
        | inr off ↦ subst (IsSound phase) (result_of st st' _ r (rw off at h)) s
      ]

  receiver_instruments-AllKeep : AllKeep (receiver_instruments e)
  unfolding handle_receiver_set handle_receiver_start handle_receiver_stop
      handle_receiver_test_failed handle_receiver_halt
  receiver_instruments-AllKeep = (
    handle_start-Keeps,
    (
      handle_stop-Keeps,
      (
        handle_flush-Keeps,
        (
          handle_set-Keeps,
          (
            handle_ping-Keeps,
            (handle_receiver_stats-Keeps, (handle_halt-Keeps, (handle_test_failed-Keeps, tt))),
          ),
        ),
      ),
    ),
  )

  -- Every instrument of a daemon's sheet keeps the invariant.
  pub instruments_of-AllKeep : (k : Kind) → AllKeep (instruments_of e k)
  unfolding instruments_of
  instruments_of-AllKeep sends = sender_instruments-AllKeep
  instruments_of-AllKeep receives = receiver_instruments-AllKeep
