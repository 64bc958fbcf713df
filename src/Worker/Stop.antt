-- ===== src/Worker/Stop.antt =====
-- The end of a test: `worker_manager_do_stop` of worker_manager.c and its two callers.
use msg_perf_tool.Base.{
  ℕ, zero, suc, ◌+◌, ◌%◌, ◌^◌, ◌==◌, if◌then◌else◌, ◌≡◌, ◌≢◌, ◌↔◌, ◌⊎◌, inl, inr, Bool-cases, refl,
  ap, ◌∙◌, Bool, true, false, Option, none, some, List, [], ◌∷◌, ◌++◌, arith,
}
use msg_perf_tool.Worker.Ipc.{Received}
use msg_perf_tool.Worker.Snapshots.{WorkerInfo, Report, update_snapshot}
use msg_perf_tool.Worker.Table.{Manager, list_clean}
use msg_perf_tool.Worker.Watchdog.{sigint}
use msg_perf_tool.Worker.Watching.{Completes, all_written, reports_in}

abbrev pub sigkill : ℕ
sigkill = 9

abbrev pub sigterm : ℕ
sigterm = 15

-- What a `waitpid` of the retry loop returns: 0, the child, or -1.
pub data Poll : Type 0 where
  unchanged : Poll
  ended : Poll
  failed : Poll

-- A process and the signal that was sent to it.
abbrev pub Signal : Type 0
Signal = ℕ × ℕ

-- One answer of the loop, `rest` the answers that follow.
unfoldable pub after_poll : Poll → ℕ → Bool → Bool
after_poll ended retry again = false
after_poll failed retry again = false
after_poll unchanged retry again = if retry == 0 then true else again

-- The `do … while` loop over `retry`, from answer `k` on: whether it ends by killing the child.
unfoldable pub gives_up : (ℕ → Poll) → ℕ → ℕ → Bool
gives_up poll zero k = false
gives_up poll (suc retry) k =
    let again = gives_up poll retry (suc k) in after_poll (poll k) retry again

abbrev pub retries : ℕ
retries = 10

-- All of the next answers are 0.
abbrev pub AllUnchanged : (ℕ → Poll) → ℕ → ℕ → Type 0
AllUnchanged poll zero k = Unit {0}
AllUnchanged poll (suc n) k = (poll k ≡ unchanged) × AllUnchanged poll n (suc k)

-- What the walk sends and writes.
pub record Stopped : Type 0 where
  pub signals : List Signal
  pub reports : List Report

-- `can_signal child` is whether `kill` succeeds, `poll child` the answers of `waitpid`.
module _ (size : ℕ) (arrivals : ℕ → ℕ → Received) (fuel : ℕ) (can_signal : ℕ → Bool)
    (poll : ℕ → ℕ → Poll) (signal : ℕ) where
  -- The signals for one child that `kill` reaches.
  unfoldable pub signals_of : WorkerInfo → List Signal
  signals_of w =
      (w.child, signal)
      ∷ (if gives_up (poll w.child) retries 0 then (w.child, sigkill) ∷ [] else [])

  -- One node: a child that `kill` does not reach is passed over, its queue too.
  unfoldable pub stop_one :
      WorkerInfo → Option (WorkerInfo × List Report) → Option Stopped → Option Stopped
  stop_one w u none = none
  stop_one w u (some rest) =
      if can_signal w.child
      then elim u [
        | none ↦ none
        | some (w', new) ↦
            some (record { signals = signals_of w ++ rest.signals; reports = new ++ rest.reports })
      ]
      else some (record rest { signals = (w.child, signal) ∷ rest.signals })

  unfoldable pub stop_walk : List WorkerInfo → Option Stopped
  stop_walk [] = some (record { signals = []; reports = [] })
  stop_walk (w ∷ ws) = stop_one w (update_snapshot size arrivals fuel w) (stop_walk ws)

  abbrev listed_in : Option (List WorkerInfo) → List WorkerInfo
  listed_in none = []
  listed_in (some ws) = ws

  -- What is left after the walk.
  unfoldable pub finish : Manager → Option Stopped → Option (Manager × List Signal)
  finish m none = none
  finish m (some s) =
      some (list_clean (record m { locked = false; reports = m.reports ++ s.reports }), s.signals)

  -- `worker_manager_do_stop`: the walk under the lock, then the list is cleaned.
  unfoldable pub do_stop : Manager → Option (Manager × List Signal)
  do_stop m = finish m (stop_walk (listed_in m.workers))

  -- The signals for a list of children.
  abbrev pub all_signals : List WorkerInfo → List Signal
  all_signals [] = []
  all_signals (w ∷ ws) = signals_of w ++ all_signals ws

  stop_one-some :
      (w : WorkerInfo) (u : Option (WorkerInfo × List Report)) (rest : Stopped)
      → can_signal w.child ≡ true
      → u ≢ none
      → stop_one w u (some rest)
        ≡ some (record {
          signals = signals_of w ++ rest.signals;
          reports = reports_in u ++ rest.reports;
        })
  unfolding stop_one
  stop_one-some w none rest reach ne = absurd (ne refl)
  stop_one-some w (some (w', new)) rest reach ne = rw reach refl

  stop_walk-all :
      (ws : List WorkerInfo)
      → ((c : ℕ) → can_signal c ≡ true)
      → Completes size arrivals fuel ws
      → stop_walk ws
        ≡ some (record { signals = all_signals ws; reports = all_written size arrivals fuel ws })
  unfolding stop_walk
  stop_walk-all [] reach all = refl
  stop_walk-all (w ∷ ws) reach (one, all) =
      rw (stop_walk-all ws reach all)
        (stop_one-some w (update_snapshot size arrivals fuel w) _ (reach w.child) one)

  -- The result of a stop, with its signals as the code puts them together.
  pub do_stop-signals :
      (m : Manager) (ws : List WorkerInfo)
      → m.workers ≡ some ws
      → ((c : ℕ) → can_signal c ≡ true)
      → Completes size arrivals fuel ws
      → do_stop m
        ≡ some (
          record m {
            workers = none;
            locked = false;
            reports = m.reports ++ all_written size arrivals fuel ws;
          },
          all_signals ws,
        )
  unfolding do_stop finish list_clean
  do_stop-signals m ws l reach all =
      ap (finish m) (ap stop_walk (ap listed_in l) ∙ stop_walk-all ws reach all)

after_poll-last : (p : Poll) → (after_poll p 0 false ≡ true) ↔ ((p ≡ unchanged) × Unit {0})
unfolding after_poll
after_poll-last unchanged = ground arith
after_poll-last ended = ground arith
after_poll-last failed = ground arith

after_poll-more :
    (p : Poll) (n : ℕ) (again : Bool)
    → (after_poll p (suc n) again ≡ true) ↔ ((p ≡ unchanged) × (again ≡ true))
unfolding after_poll
after_poll-more unchanged n again = ground arith
after_poll-more ended n again = ground arith
after_poll-more failed n again = ground arith

-- A child is killed after its retries exactly if it did not change in any of them.
pub gives_up-unchanged :
    (poll : ℕ → Poll) (n k : ℕ) → (gives_up poll (suc n) k ≡ true) ↔ AllUnchanged poll (suc n) k
unfolding gives_up
gives_up-unchanged poll zero k = after_poll-last (poll k)
gives_up-unchanged poll (suc n) k =
    let (to, from) = gives_up-unchanged poll n (suc k) in
    let (first, last) = after_poll-more (poll k) n (gives_up poll (suc n) (suc k)) in
    ((λ e. let (u, r) = first e in (u, to r)), (λ (u, r). last (u, from r)))

-- The signals that a list of children is sent: each gets the signal, and after it SIGKILL if and only if
-- the first ten answers to the question about it are that it has not changed.
abbrev pub AreSent : (ℕ → ℕ → Poll) → ℕ → List WorkerInfo → List Signal → Type 0
AreSent poll signal [] signals = signals ≡ []
AreSent poll signal (w ∷ ws) signals =
    (rest : List Signal) × AreSent poll signal ws rest
    × ((AllUnchanged (poll w.child) 10 0
          × (signals ≡ (w.child, signal) ∷ (w.child, sigkill) ∷ rest))
        ⊎ ((AllUnchanged (poll w.child) 10 0 → ⊥) × (signals ≡ (w.child, signal) ∷ rest)))

module _ (size : ℕ) (arrivals : ℕ → ℕ → Received) (fuel : ℕ) (can_signal : ℕ → Bool)
    (poll : ℕ → ℕ → Poll) (signal : ℕ) where
  abbrev all_of : List WorkerInfo → List Signal
  all_of = all_signals size arrivals fuel can_signal poll signal

  all_signals-AreSent : (ws : List WorkerInfo) → AreSent poll signal ws (all_of ws)
  unfolding signals_of
  all_signals-AreSent [] = refl
  all_signals-AreSent (w ∷ ws) =
      let (to, from) = gives_up-unchanged (poll w.child) 9 0 in
      (
        all_of ws,
        all_signals-AreSent ws,
        elim (Bool-cases (gives_up (poll w.child) retries 0)) [
          | inl e ↦ inl (to e, rw e refl)
          | inr e ↦ inr ((λ u. let wrong = from u in cc), rw e refl)
        ],
      )

  -- When the updates end and `kill` reaches every child, stopping a test sends the signal to each
  -- child in the order of the list, followed by SIGKILL exactly for a child that has not changed in any
  -- of ten looks; it writes all reports, gives the lock back and leaves no list.
  pub do_stop-all :
      (m : Manager) (ws : List WorkerInfo)
      → m.workers ≡ some ws
      → ((c : ℕ) → can_signal c ≡ true)
      → Completes size arrivals fuel ws
      → (signals : List Signal) × AreSent poll signal ws signals
        × (do_stop size arrivals fuel can_signal poll signal m
            ≡ some (
              record m {
                workers = none;
                locked = false;
                reports = m.reports ++ all_written size arrivals fuel ws;
              },
              signals,
            ))
  do_stop-all m ws l reach all = (
    all_of ws,
    all_signals-AreSent ws,
    do_stop-signals size arrivals fuel can_signal poll signal m ws l reach all,
  )

-- `worker_manager_stop`
unfoldable pub stop :
    (ℕ)
    → (ℕ → ℕ → Received)
    → ℕ
    → (ℕ → Bool)
    → (ℕ → ℕ → Poll)
    → Manager
    → Option (Manager × List Signal)
unfolding do_stop
stop size arrivals fuel can_signal poll m = do_stop size arrivals fuel can_signal poll sigint m

-- `worker_manager_abort`, which counts as a failure.
unfoldable pub abort :
    ℕ
    → (ℕ → ℕ → Received)
    → ℕ
    → (ℕ → Bool)
    → (ℕ → ℕ → Poll)
    → Manager
    → Option (Manager × List Signal)
unfolding do_stop
abort size arrivals fuel can_signal poll m =
    do_stop size arrivals fuel can_signal poll sigterm
      (record m { errors = (m.errors + 1) % 2 ^ 32 })
