-- ===== src/Worker/Watching.antt =====
-- What a round of the watchdog does to the list.
use msg_perf_tool.Base.{
  ℕ, ◌≤◌, if◌then◌else◌, ◌≡◌, ◌≢◌, refl, ap, ◌∙◌, Bool, true, false, Option, none, some, List, [],
  ◌∷◌, ◌++◌, arith, length,
}
use msg_perf_tool.Worker.Ipc.{Received}
use msg_perf_tool.Worker.Snapshots.{WorkerInfo, Report, update_snapshot}
use msg_perf_tool.Worker.Table.{Manager}
use msg_perf_tool.Worker.Watchdog.{
  Wait, running, Handler, stays, ask, count_end, Walked, settle, visit, walked, watchdog_list, walk,
  watchdog,
}

abbrev pub is_running : Wait → Bool
is_running running = true
is_running _ = false

abbrev pub worker_of : WorkerInfo → Option (WorkerInfo × List Report) → WorkerInfo
worker_of w none = w
worker_of w (some (w', new)) = w'

abbrev pub reports_in : Option (WorkerInfo × List Report) → List Report
reports_in none = []
reports_in (some (w', new)) = new

-- The handler lets every running child go on, as that of the daemons does, which has no flag.
abbrev pub LetsRun : Handler → Type 0
LetsRun h = (w : WorkerInfo) → ask h w ≡ stays

visit-LetsRun :
    (h : Handler) (w : WorkerInfo) (ws : List WorkerInfo) (errors : ℕ) (r : Walked)
    (u : Option (WorkerInfo × List Report)) (wait : Wait)
    → LetsRun h
    → u ≢ none
    → visit h ws errors (some r) u wait
      ≡ some (record r {
        kept = if is_running wait then worker_of w u ∷ r.kept else r.kept;
        reports = reports_in u ++ r.reports;
      })
unfolding visit settle
visit-LetsRun h w ws errors r none wait lets ne = absurd (ne refl)
visit-LetsRun h w ws errors r (some (w', new)) running lets ne = rw (lets w')
visit-LetsRun h w ws errors r (some (w', new)) _ lets ne = refl

module _ (size : ℕ) (arrivals : ℕ → ℕ → Received) (fuel : ℕ) where
  -- What one update makes of a worker, and what it writes, where it ends.
  abbrev pub updated : WorkerInfo → WorkerInfo
  updated w = worker_of w (update_snapshot size arrivals fuel w)

  abbrev pub written : WorkerInfo → List Report
  written w = reports_in (update_snapshot size arrivals fuel w)

  -- The updates of all workers of the list end.
  abbrev pub Completes : List WorkerInfo → Type 0
  Completes [] = Unit {0}
  Completes (w ∷ ws) = (update_snapshot size arrivals fuel w ≢ none) × Completes ws

  -- The workers that still run, updated, in their order.
  abbrev pub survivors : (ℕ → Wait) → List WorkerInfo → List WorkerInfo
  survivors wait [] = []
  survivors wait (w ∷ ws) =
      if is_running (wait w.child) then updated w ∷ survivors wait ws else survivors wait ws

  -- The count after the children that have ended.
  abbrev pub failures : (ℕ → Wait) → List WorkerInfo → ℕ → ℕ
  failures wait [] errors = errors
  failures wait (w ∷ ws) errors = failures wait ws (count_end (wait w.child) errors)

  abbrev pub all_written : List WorkerInfo → List Report
  all_written [] = []
  all_written (w ∷ ws) = written w ++ all_written ws

  walk-survivors :
      (h : Handler) (wait : ℕ → Wait) (ws : List WorkerInfo) (errors : ℕ)
      → LetsRun h
      → Completes ws
      → walk size arrivals fuel h wait ws errors
        ≡ some (record {
          kept = survivors wait ws;
          errors = failures wait ws errors;
          reports = all_written ws;
          locked = false;
          result = true;
        })
  unfolding walk
  walk-survivors h wait [] errors lets all = refl
  walk-survivors h wait (w ∷ ws) errors lets (one, all) =
      let rest = walk-survivors h wait ws (count_end (wait w.child) errors) lets all in
      rw rest (
        visit-LetsRun h w ws errors _ (update_snapshot size arrivals fuel w) (wait w.child) lets
          one)

  -- One round, when the updates end and the handler lets the children run: the watchdog succeeds
  -- with the lock given back, keeps exactly the workers that still run, with their new snapshots
  -- and in their order, counts the failures of the others, and appends all reports.
  pub watchdog-survivors :
      (h : Handler) (wait : ℕ → Wait) (m : Manager) (ws : List WorkerInfo)
      → LetsRun h
      → m.workers ≡ some ws
      → Completes ws
      → watchdog size arrivals fuel h wait m
        ≡ some (
          record m {
            workers = some (survivors wait ws);
            errors = failures wait ws m.errors;
            reports = m.reports ++ all_written ws;
            locked = false;
          },
          true,
        )
  watchdog-survivors h wait m ws lets l all =
      watchdog_list size arrivals fuel h wait m ws l
      ∙ ap (walked m) (walk-survivors h wait ws m.errors lets all)

  pub length-survivors :
      (wait : ℕ → Wait) (ws : List WorkerInfo) → length (survivors wait ws) ≤ length ws
  length-survivors wait [] = omega arith
  length-survivors wait (w ∷ ws) = ground (arith, length-survivors wait ws)

  pub survivors-none :
      (wait : ℕ → Wait) (ws : List WorkerInfo)
      → ((c : ℕ) → is_running (wait c) ≡ false)
      → survivors wait ws ≡ []
  survivors-none wait [] gone = refl
  survivors-none wait (w ∷ ws) gone = rw (gone w.child) (survivors-none wait ws gone)
