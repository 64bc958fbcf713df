-- ===== src/Worker/Rounds.antt =====
-- When the loop of the watchdog ends.
use native.Mathlib.Nat.{mod-eq_of_lt}
use native.Mathlib.Decide.{dec_lt}
use msg_perf_tool.Base.{
  ℕ, zero, suc, ◌+◌, ◌^◌, ◌≤◌, ◌<◌, ltb, lt→ltb, ◌≡◌, ◌≢◌, refl, sym, ◌∙◌, if◌then◌else◌,
  Bool-cases, Option, none, ◌⊎◌, inl, inr, ◌↔◌, not, Bool, true, false, some, List, [], ◌∷◌, ◌++◌,
  arith, length,
}
use msg_perf_tool.Worker.Ipc.{Received, sysv, wq_has_data}
use msg_perf_tool.Worker.Snapshots.{WorkerInfo, Report, reports_of, read_next, update_snapshot}
use msg_perf_tool.Worker.Table.{Manager, list_count, list_is_running}
use msg_perf_tool.Worker.Watchdog.{Wait, Handler, rounds, watchdog_loop}
use msg_perf_tool.Worker.Watching.{
  is_running, worker_of, Completes, survivors, failures, all_written, LetsRun, watchdog-survivors,
  length-survivors, survivors-none,
}

-- The queue of the worker exists.
abbrev pub IsOpen : WorkerInfo → Type 0
IsOpen w = w.queue ≢ sysv false

abbrev pub AllOpen : List WorkerInfo → Type 0
AllOpen [] = Unit {0}
AllOpen (w ∷ ws) = IsOpen w × AllOpen ws

module _ (size : ℕ) (arrivals : ℕ → ℕ → Received) (fuel : ℕ) where
  count-length :
      (m : Manager) (ws : List WorkerInfo)
      → m.workers ≡ some ws
      → length ws < 2 ^ 32
      → (list_is_running m ≡ true) × (list_count m ≡ length ws)
  unfolding list_count list_is_running
  count-length m ws l small = (rw l, rw (l, mod-eq_of_lt small))

  written_from-queue :
      (w w' : WorkerInfo) (new : List Report) (b : Bool) (rest : Option (WorkerInfo × List Report))
      → w'.queue ≡ w.queue
      → (worker_of w' rest).queue ≡ w.queue
      → (worker_of w (
          if b
          then elim rest [ none ↦ none | some (last, reports) ↦ some (last, new ++ reports) ]
          else some (w', []))).queue
        ≡ w.queue
  written_from-queue w w' new true none e r = refl
  written_from-queue w w' new true (some (last, reports)) e r = r
  written_from-queue w w' new false rest e r = e

  -- An update keeps the queue.
  updated-queue :
      (k : ℕ) (w : WorkerInfo) → (worker_of w (update_snapshot size arrivals k w)).queue ≡ w.queue
  unfolding update_snapshot
  updated-queue zero w = refl
  updated-queue (suc k) w =
      let (stat, s) = read_next size arrivals w in
      let w' : WorkerInfo = record w { snapshot = s; reads = suc w.reads } in
      written_from-queue w w' (reports_of w.flags s) (wq_has_data stat)
        (update_snapshot size arrivals k w') refl (updated-queue k w')

  -- The updates of the workers whose queue exists end.
  abbrev pub OpenComplete : Type 0
  OpenComplete = (w : WorkerInfo) → IsOpen w → update_snapshot size arrivals fuel w ≢ none

  AllOpen-Completes :
      (ws : List WorkerInfo) → OpenComplete → AllOpen ws → Completes size arrivals fuel ws
  AllOpen-Completes [] all opened = tt
  AllOpen-Completes (w ∷ ws) all (o, opened) = (all w o, AllOpen-Completes ws all opened)

  survivors-AllOpen :
      (wait : ℕ → Wait) (ws : List WorkerInfo)
      → AllOpen ws
      → AllOpen (survivors size arrivals fuel wait ws)
  survivors-AllOpen wait [] opened = tt
  survivors-AllOpen wait (w ∷ ws) (o, opened) = elim (Bool-cases (is_running (wait w.child))) [
    | inl e ↦ rw e ((λ q. o (sym (updated-queue fuel w) ∙ q)), survivors-AllOpen wait ws opened)
    | inr e ↦ rw e (survivors-AllOpen wait ws opened)
  ]

  module _ (h : Handler) (wait : ℕ → ℕ → Wait) (last : ℕ) (lets : LetsRun h) (all : OpenComplete)
      (gone : (n c : ℕ) → last ≤ n → is_running (wait n c) ≡ false) where
    -- A round that is still to come, or an empty list.
    abbrev IsDue : ℕ → ℕ → List WorkerInfo → Type 0
    IsDue k n ws = ((ws ≡ []) × (0 < k)) ⊎ ((last + 2 ≤ k + n) × (n ≤ last))

    survivors-IsDue :
        (k n : ℕ) (w : WorkerInfo) (ws : List WorkerInfo)
        → IsDue (suc k) n (w ∷ ws)
        → IsDue k (suc n) (survivors size arrivals fuel (wait n) (w ∷ ws))
    survivors-IsDue k n w ws (inl (e, p)) = cc
    survivors-IsDue k n w ws (inr (far, near)) = elim (dec_lt n last) [
      | yes p ↦ inr (omega arith, omega arith)
      | no p ↦ inl (
        survivors-none size arrivals fuel (wait n) (w ∷ ws) (λ c. gone n c (omega arith)),
        omega arith,
      )
    ]

    -- The manager after one round.
    abbrev round : ℕ → Manager → List WorkerInfo → Manager
    round n m ws = record m {
      workers = some (survivors size arrivals fuel (wait n) ws);
      errors = failures size arrivals fuel (wait n) ws m.errors;
      reports = m.reports ++ all_written size arrivals fuel ws;
      locked = false;
    }

    rounds-step :
        (k n : ℕ) (m : Manager) (w : WorkerInfo) (ws : List WorkerInfo)
        → m.workers ≡ some (w ∷ ws)
        → length (w ∷ ws) < 2 ^ 32
        → AllOpen (w ∷ ws)
        → rounds size arrivals fuel h wait (suc k) n m
          ≡ rounds size arrivals fuel h wait k (suc n) (round n m (w ∷ ws))
    unfolding rounds
    rounds-step k n m w ws l small opened =
        let (on, count) = count-length m (w ∷ ws) l small in
        rw (
          on,
          count,
          lt→ltb 0 (length (w ∷ ws)) (omega arith),
          watchdog-survivors size arrivals fuel h (wait n) m (w ∷ ws) lets l
              (AllOpen-Completes (w ∷ ws) all opened),
        )

    rounds-end :
        (k n : ℕ) (m : Manager) (ws : List WorkerInfo)
        → m.workers ≡ some ws
        → length ws < 2 ^ 32
        → AllOpen ws
        → IsDue k n ws
        → (m' : Manager) × (rounds size arrivals fuel h wait k n m ≡ some m')
          × (m'.workers ≡ some [])
    unfolding rounds
    rounds-end zero n m ws l small opened (inl (e, p)) = absurd (omega arith)
    rounds-end zero n m ws l small opened (inr (far, near)) = absurd (omega arith)
    rounds-end (suc k) n m [] l small opened due =
        let (on, count) = count-length m [] l (omega arith) in (m, rw (on, count), l)
    rounds-end (suc k) n m (w ∷ ws) l small opened due =
        let (m', e, l') =
          rounds-end k (suc n) (round n m (w ∷ ws)) (survivors size arrivals fuel (wait n) (w ∷ ws))
            refl (omega (arith, length-survivors size arrivals fuel (wait n) (w ∷ ws)))
            (survivors-AllOpen (wait n) (w ∷ ws) opened) (survivors-IsDue k n w ws due) in
        (m', rounds-step k n m w ws l small opened ∙ e, l')

    -- The loop ends: when the updates of workers with a queue end, all workers of the list have
    -- one, the handler lets the children run, and no child runs from round `last` on,
    -- `worker_manager_watchdog_loop` returns within `last + 2` rounds with an empty list, and it
    -- reports failed children exactly if the count of failures is not 0.
    pub watchdog_loop-ends :
        (m : Manager) (ws : List WorkerInfo)
        → m.workers ≡ some ws
        → length ws < 2 ^ 32
        → AllOpen ws
        → (m' : Manager) × (b : Bool) × (watchdog_loop size arrivals fuel h wait (last + 2) m
            ≡ some (m', b))
          × (m'.workers ≡ some [])
          × ((b ≡ true) ↔ (m'.errors ≡ 0))
    unfolding watchdog_loop
    watchdog_loop-ends m ws l small opened =
        let (m', e, l') =
          rounds-end (last + 2) 0 m ws l small opened (inr (omega arith, omega arith)) in
        (
          m',
          not (ltb 0 m'.errors),
          rw (e, watchdog_loop),
          l',
          ((λ h. ground arith), λ h. ground arith),
        )
