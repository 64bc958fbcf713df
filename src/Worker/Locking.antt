-- ===== src/Worker/Locking.antt =====
-- When the watchdog gives the lock of the list back.
use msg_perf_tool.Base.{
  ℕ, ◌≡◌, ◌≢◌, ◌∙◌, sym, ◌++◌, ◌⊎◌, refl, Bool, true, false, Option, none, some, List, [], ◌∷◌,
  arith,
}
use msg_perf_tool.Worker.Ipc.{Received}
use msg_perf_tool.Worker.Snapshots.{WorkerInfo, Report, update_snapshot, has_flag}
use msg_perf_tool.Worker.Table.{Manager}
use msg_perf_tool.Worker.Watchdog.{
  Wait, running, Handler, handle_eval, handle_print, Verdict, stays, returns_locked,
  returns_unlocked, ask, count_end, Walked, keep, report, map_walk, settle, visit, walked, walk,
  watchdog, watchdog_list,
}

-- Every flag of the handler has its function.
pub record IsComplete (h : Handler) : Type 0 where
  pub eval : (has_flag h.flags handle_eval ≡ false) ⊎ ((f : WorkerInfo → Bool) × (h.eval ≡ some f))
  pub print :
      (has_flag h.flags handle_print ≡ false) ⊎ ((f : WorkerInfo → Bool) × (h.print ≡ some f))

ask-ne-locked : (h : Handler) (w : WorkerInfo) → IsComplete h → ask h w ≢ returns_locked
unfolding ask
ask-ne-locked h w ok = ground arith

abbrev IsUnlocked : Option Walked → Type 0
IsUnlocked none = Unit {0}
IsUnlocked (some r) = r.locked ≡ false

-- The two functions that the walk maps over its rest keep the lock as it is.
map_walk-IsUnlocked :
    (r : Option Walked) (f : Walked → Walked)
    → ((x : Walked) → (f x).locked ≡ x.locked)
    → IsUnlocked r
    → IsUnlocked (map_walk f r)
map_walk-IsUnlocked none f same u = tt
map_walk-IsUnlocked (some x) f same u = same x ∙ u

settle-IsUnlocked :
    (v : Verdict) (w : WorkerInfo) (ws : List WorkerInfo) (errors : ℕ) (new : List Report)
    (rest : Option Walked)
    → v ≢ returns_locked
    → IsUnlocked rest
    → IsUnlocked (settle v w ws errors new rest)
unfolding settle
settle-IsUnlocked stays w ws errors new rest ne u =
    map_walk-IsUnlocked rest (λ r. keep w (report new r)) (λ x. refl) u
settle-IsUnlocked returns_locked w ws errors new rest ne u = absurd (ne refl)
settle-IsUnlocked returns_unlocked w ws errors new rest ne u = refl

visit-IsUnlocked :
    (h : Handler) (ws : List WorkerInfo) (errors : ℕ) (rest : Option Walked)
    (u : Option (WorkerInfo × List Report)) (wait : Wait)
    → IsComplete h
    → IsUnlocked rest
    → IsUnlocked (visit h ws errors rest u wait)
unfolding visit
visit-IsUnlocked h ws errors rest none wait ok u = tt
visit-IsUnlocked h ws errors rest (some (w, new)) running ok u =
    settle-IsUnlocked (ask h w) w ws errors new rest (ask-ne-locked h w ok) u
visit-IsUnlocked h ws errors rest (some (w, new)) _ ok u =
    map_walk-IsUnlocked rest (report new) (λ x. refl) u

module _ (size : ℕ) (arrivals : ℕ → ℕ → Received) (fuel : ℕ) (h : Handler) (wait : ℕ → Wait) where
  walk-IsUnlocked :
      (ws : List WorkerInfo) (errors : ℕ)
      → IsComplete h
      → IsUnlocked (walk size arrivals fuel h wait ws errors)
  unfolding walk
  walk-IsUnlocked [] errors ok = refl
  walk-IsUnlocked (w ∷ ws) errors ok =
      visit-IsUnlocked h ws errors _ (update_snapshot size arrivals fuel w) (wait w.child) ok
        (walk-IsUnlocked ws (count_end (wait w.child) errors) ok)

  walked-unlocked :
      (m m' : Manager) (b : Bool) (r : Option Walked)
      → IsUnlocked r
      → walked m r ≡ some (m', b)
      → m'.locked ≡ false
  walked-unlocked m m' b none u e = cc
  walked-unlocked m m' b (some r) u e = ground arith

  -- With a handler that has a function for each of its flags, a watchdog that returns on a list of
  -- workers has given the lock back, whatever its result.
  pub watchdog-unlocked :
      (m m' : Manager) (ws : List WorkerInfo) (b : Bool)
      → IsComplete h
      → m.workers ≡ some ws
      → watchdog size arrivals fuel h wait m ≡ some (m', b)
      → m'.locked ≡ false
  watchdog-unlocked m m' ws b ok l e =
      walked-unlocked m m' b (walk size arrivals fuel h wait ws m.errors)
        (walk-IsUnlocked ws m.errors ok) (sym (watchdog_list size arrivals fuel h wait m ws l) ∙ e)

  -- With the print flag and no function, a first child that runs and whose update ends makes the
  -- watchdog return false with the lock held.
  pub watchdog-stays_locked :
      (m : Manager) (w w' : WorkerInfo) (ws : List WorkerInfo) (new : List Report)
      → has_flag h.flags handle_print ≡ true
      → h.print ≡ none
      → m.workers ≡ some (w ∷ ws)
      → update_snapshot size arrivals fuel w ≡ some (w', new)
      → wait w.child ≡ running
      → watchdog size arrivals fuel h wait m
        ≡ some (
          record m { workers = some (w' ∷ ws); reports = m.reports ++ new; locked = true },
          false,
        )
  unfolding walk visit settle ask
  watchdog-stays_locked m w w' ws new flag e l u r =
      watchdog_list size arrivals fuel h wait m (w ∷ ws) l ∙ simp (u, r, flag, e)
