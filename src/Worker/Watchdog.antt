-- ===== src/Worker/Watchdog.antt =====
-- The watchdog of worker_manager.c: it reads every child's queue, asks the handlers about the
-- children that run, and takes those that have ended off the list.
use msg_perf_tool.Base.{
  ℕ, ◌≡◌, ap, zero, suc, ◌+◌, ◌%◌, ◌^◌, ltb, ◌==◌, if◌then◌else◌, not, Bool, true, false, ◌&&◌,
  Option, none, some, List, [], ◌∷◌, ◌++◌,
}
use msg_perf_tool.Worker.Ipc.{Received}
use msg_perf_tool.Worker.Snapshots.{WorkerInfo, Report, update_snapshot, has_flag}
use msg_perf_tool.Worker.Table.{Manager, list_count, list_is_running, list_lock, list_unlock}

abbrev pub sigint : ℕ
sigint = 2

-- What `waitpid` with `WNOHANG` says of a child: no change, or how it ended. A call that fails
-- leaves the status zero, which reads as an exit.
pub data Wait : Type 0 where
  running : Wait
  exited : ℕ → Wait
  signaled : ℕ → Wait
  stopped : ℕ → Wait
  other : Wait

-- `worker_handler_t`, with null functions as `none`. What `print` shows is no state of the manager.
pub record Handler : Type 0 where
  pub flags : ℕ
  pub eval : Option (WorkerInfo → Bool)
  pub print : Option (WorkerInfo → Bool)

abbrev pub handle_eval : ℕ
handle_eval = 1

abbrev pub handle_print : ℕ
handle_print = 2

-- What becomes of a running child: it stays, or the watchdog returns false, with the lock held or
-- given back.
pub data Verdict : Type 0 where
  stays : Verdict
  returns_locked : Verdict
  returns_unlocked : Verdict

unfoldable pub ask_eval : Handler → WorkerInfo → Verdict
ask_eval h w =
    if has_flag h.flags handle_eval
    then elim h.eval [
      | none ↦ returns_locked
      | some eval ↦ if eval w then stays else returns_unlocked
    ]
    else stays

unfoldable pub ask : Handler → WorkerInfo → Verdict
unfolding ask_eval
ask h w =
    if has_flag h.flags handle_print
    then elim h.print [ none ↦ returns_locked | some print ↦ ask_eval h w ]
    else ask_eval h w

-- The count of failures after a child has ended: a signal other than SIGINT adds one.
unfoldable pub count_end : Wait → ℕ → ℕ
count_end (signaled sig) errors = if sig == sigint then errors else (errors + 1) % 2 ^ 32
count_end (stopped sig) errors = if sig == sigint then errors else (errors + 1) % 2 ^ 32
count_end running errors = errors
count_end (exited status) errors = errors
count_end other errors = errors

-- The walk over the list: the children that stay, the failures, the reports, and the result.
pub record Walked : Type 0 where
  pub kept : List WorkerInfo
  pub errors : ℕ
  pub reports : List Report
  pub locked : Bool
  pub result : Bool

abbrev pub keep : WorkerInfo → Walked → Walked
keep w r = record r { kept = w ∷ r.kept }

abbrev pub report : List Report → Walked → Walked
report new r = record r { reports = new ++ r.reports }

abbrev pub map_walk : (Walked → Walked) → Option Walked → Option Walked
map_walk f none = none
map_walk f (some r) = some (f r)

-- The manager after a walk over its list.
abbrev pub walked : Manager → Option Walked → Option (Manager × Bool)
walked m none = none
walked m (some r) = some (
  record m {
    workers = some r.kept;
    errors = r.errors;
    reports = m.reports ++ r.reports;
    locked = r.locked;
  },
  r.result,
)

-- What follows the verdict on a running child; `rest` is the walk over the list behind it.
unfoldable pub settle :
    Verdict → WorkerInfo → List WorkerInfo → ℕ → List Report → Option Walked → Option Walked
settle stays w ws errors new rest = map_walk (λ r. keep w (report new r)) rest
settle returns_locked w ws errors new rest =
    some (record { kept = w ∷ ws; errors = errors; reports = new; locked = true; result = false })
settle returns_unlocked w ws errors new rest =
    some (record { kept = w ∷ ws; errors = errors; reports = new; locked = false; result = false })

-- One node of the list: the update of its snapshot, then the answer of `waitpid`.
unfoldable pub visit :
    Handler
    → List WorkerInfo
    → ℕ
    → Option Walked
    → Option (WorkerInfo × List Report)
    → Wait
    → Option Walked
unfolding ask settle
visit h ws errors rest none wait = none
visit h ws errors rest (some (w, new)) running = settle (ask h w) w ws errors new rest
visit h ws errors rest (some (w, new)) _ = map_walk (report new) rest

-- `size`, `arrivals` and `fuel` are those of the update of a snapshot; `wait child` is the answer
-- of this round's `waitpid`.
module _ (size : ℕ) (arrivals : ℕ → ℕ → Received) (fuel : ℕ) (h : Handler) (wait : ℕ → Wait) where
  -- The loop of `worker_manager_watchdog` with the count of failures so far.
  unfoldable pub walk : List WorkerInfo → ℕ → Option Walked
  walk [] errors =
      some (record { kept = []; errors = errors; reports = []; locked = false; result = true })
  walk (w ∷ ws) errors =
      let rest = walk ws (count_end (wait w.child) errors) in
      visit h ws errors rest (update_snapshot size arrivals fuel w) (wait w.child)

  -- `worker_manager_watchdog`: the lock is taken for the walk.
  unfoldable pub watchdog : Manager → Option (Manager × Bool)
  unfolding list_lock list_unlock
  watchdog m = elim m.workers [
    | none ↦ some (list_unlock (list_lock m), true)
    | some ws ↦ walked m (walk ws m.errors)
  ]

  pub watchdog_list :
      (m : Manager) (ws : List WorkerInfo)
      → m.workers ≡ some ws
      → watchdog m ≡ walked m (walk ws m.errors)
  unfolding watchdog
  watchdog_list m ws e =
      ap
        (λ l. elim l [
          | none ↦ some (list_unlock (list_lock m), true)
          | some ws ↦ walked m (walk ws m.errors)
        ])
        e

  pub watchdog_no_list :
      (m : Manager) → m.workers ≡ none → watchdog m ≡ some (record m { locked = false }, true)
  unfolding watchdog list_lock list_unlock
  watchdog_no_list m e =
      ap
        (λ l. elim l [
          | none ↦ some (list_unlock (list_lock m), true)
          | some ws ↦ walked m (walk ws m.errors)
        ])
        e

-- The rounds of `worker_manager_watchdog_loop`: `wait n` are the answers of round `n`. `none` is a
-- loop that has not ended.
module _ (size : ℕ) (arrivals : ℕ → ℕ → Received) (fuel : ℕ) (h : Handler)
    (wait : ℕ → ℕ → Wait) where
  unfoldable pub rounds : ℕ → ℕ → Manager → Option Manager
  unfolding list_count list_is_running
  rounds zero n m = none
  rounds (suc k) n m =
      let next : Option Manager = elim (watchdog size arrivals fuel h (wait n) m) [
        | none ↦ none
        | some (m', true) ↦ rounds k (suc n) m'
        | some (m', false) ↦ some m'
      ] in
      if list_is_running m && ltb 0 (list_count m) then next else some m

  -- `worker_manager_watchdog_loop`; the flag is false if it reports failed children at its end.
  unfoldable pub watchdog_loop : ℕ → Manager → Option (Manager × Bool)
  watchdog_loop k m = elim (rounds k 0 m) [
    | none ↦ none
    | some m' ↦ some (m', not (ltb 0 m'.errors))
  ]
