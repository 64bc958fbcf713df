-- ===== src/Daemon/Node/Reach.antt =====
-- The states that a daemon reaches, by the steps of its main loop and by the requests that it plays in
-- between, in any order.
use msg_perf_tool.Base.{
  ℕ, zero, suc, ltb, ◌≡◌, refl, sym, ap, ◌∙◌, inl, inr, Bool-cases, Bool, ◌&&◌, true, false,
  if-holds, Option, none, some, Option-cases, List, [], ◌++◌, done, >>=-eq-done, done-injective,
  within_fuel, within_fuel-done,
}
use mathlib.Core.Path.{subst}
use mathlib.Core.Option.{some-injective}
use msg_perf_tool.Maestro.Note.{Note}
use msg_perf_tool.Maestro.Sheet.{PlayerInfo, play_first}
use msg_perf_tool.Worker.Snapshots.{WorkerInfo}
use msg_perf_tool.Worker.Table.{Manager, list_count, list_is_running, list_init, list_append}
use msg_perf_tool.Worker.Watchdog.{watchdog, watchdog_no_list}
use msg_perf_tool.Worker.Locking.{IsComplete, watchdog-unlocked}
use msg_perf_tool.Worker.Clone
use msg_perf_tool.Worker.Clone.{
  Registered, registered, refused, returns, Round, clone, clone_from, clone_listed, register,
  enlist, info_new, worker_child,
}
use Prim.Native.Nat.{bit_or}
use msg_perf_tool.Worker.Stop
use msg_perf_tool.Daemon.Common.{Daemon, Outside}
use msg_perf_tool.Daemon.Node.{
  Node, Phase, idle, watching, closing, returning, ended, Tick, Kind, flags_of, evaluates,
  handler_of, instruments_of, worker_error, is_child, launched, launch, idle_step, watched,
  watch_step, close_step, main_step,
}
use msg_perf_tool.Daemon.Node.Steps.{
  IsSound, ended_lem, stop-unlocked, play_first-IsSound, instruments_of-AllKeep,
}

-- A step: of the main loop, or a request that is played.
pub data Step (e : Outside) (k : Kind) : Node → Node → Type 0 where
  main : (t : Tick) (n n' : Node) → main_step e k t n ≡ done n' → Step e k n n'
  request :
      (phase : Phase) (d d' : Daemon) (info : PlayerInfo) (request response r : Note) (b : Bool)
      → play_first (instruments_of e k) info d request response ≡ done (d', r, b)
      → Step e k (record { daemon = d; phase = phase }) (record { daemon = d'; phase = phase })

pub data Reach (e : Outside) (k : Kind) (n : Node) : Node → Type 0 where
  here : Reach e k n n
  next : {p q : Node} → Reach e k n p → Step e k p q → Reach e k n q

abbrev pub Sound : Node → Type 0
Sound n = IsSound n.phase n.daemon

-- What `clone_from` makes of a round.
abbrev continued : Manager → Registered → (Manager → Clone.Cloned) → Clone.Cloned
continued m r rest = elim r [
  | registered m' ↦ rest m'
  | refused sent ↦ record { manager = m; signals = sent; result = Clone.worker_failure }
  | returns ret ↦ record { manager = m; signals = []; result = ret }
]

-- The start of the workers leaves the lock alone.
abbrev LeavesLock : Manager → Registered → Type 0
LeavesLock m (registered m') = m'.locked ≡ m.locked
LeavesLock m (refused sent) = Unit {0}
LeavesLock m (returns ret) = Unit {0}

enlist-LeavesLock :
    (r : Round) (m : Manager) (w : Option WorkerInfo) (sent : List Stop.Signal)
    → LeavesLock m (enlist r m (w, sent))
unfolding enlist list_append
enlist-LeavesLock r m none sent = tt
enlist-LeavesLock r m (some w) sent = elim (Option-cases m.workers) [
  | inl e ↦ rw e tt
  | inr (ws, e) ↦ rw e (elim (Bool-cases r.appended) [ inl a ↦ rw a refl | inr a ↦ rw a tt ])
]

register-LeavesLock : (r : Round) (flags : ℕ) (m : Manager) → LeavesLock m (register r flags m)
unfolding register
register-LeavesLock r flags m =
    elim r.fork
      as (λ f. LeavesLock m (elim f [
        | Clone.in_child wret ↦ returns (bit_or wret worker_child)
        | Clone.in_parent pid ↦ enlist r m (info_new r flags pid)
      ])) [
        | Clone.in_child wret ↦ tt
        | Clone.in_parent pid ↦
            enlist-LeavesLock r m (info_new r flags pid).0 (info_new r flags pid).1
      ]

list_init-locked : (there : Bool) (m : Manager) → (list_init there m).0.locked ≡ m.locked
unfolding list_init
list_init-locked there m = elim (Option-cases m.workers) [
  | inl e ↦ rw e (if-holds {A = Manager × Bool} (λ r. r.0.locked ≡ m.locked) there _ _ refl refl)
  | inr (ws, e) ↦ rw e refl
]

module _ (flags : ℕ) where
  after_round :
      (m : Manager) (r : Registered) (rest : Manager → Clone.Cloned)
      → LeavesLock m r
      → ((m' : Manager) → (rest m').manager.locked ≡ m'.locked)
      → (continued m r rest).manager.locked ≡ m.locked
  after_round m (registered m') rest same h = h m' ∙ same
  after_round m (refused sent) rest same h = refl
  after_round m (returns ret) rest same h = refl

  clone_from-locked :
      (round : ℕ → Round) (k i : ℕ) (m : Manager)
      → (clone_from flags round k i m).manager.locked ≡ m.locked
  unfolding clone_from
  clone_from-locked round zero i m = refl
  clone_from-locked round (suc k) i m =
      after_round m (register (round i) flags m) (clone_from flags round k (suc i))
        (register-LeavesLock (round i) flags m) (clone_from-locked round k (suc i))

  clone_listed-locked :
      (o : Clone.Outside) (count : ℕ) (m : Manager) (there : Bool)
      → (clone_listed flags o count (m, there)).manager.locked ≡ m.locked
  unfolding clone_listed
  clone_listed-locked o count m there =
      let Same : Clone.Cloned → Type 0 = λ c. c.manager.locked ≡ m.locked in
      if-holds Same there _ _
        (if-holds Same o.dumped _ _
          (if-holds Same o.writer _ _ (clone_from-locked o.round count 0 m) refl) refl)
        refl

  clone-locked :
      (o : Clone.Outside) (count : ℕ) (m : Manager)
      → (clone flags o count m).manager.locked ≡ m.locked
  unfolding clone
  clone-locked o count m =
      let listed = list_init o.list (record m { errors = 0 }) in
      clone_listed-locked o count listed.0 listed.1
      ∙ list_init-locked o.list (record m { errors = 0 })

abbrev some_with : Manager → Bool → Option (Manager × Bool)
some_with m b = some (m, b)

module _ (e : Outside) (k : Kind) where
  busy_lem :
      (phase : Phase) (d : Daemon) → (phase ≡ idle → ⊥) → d.manager.locked ≡ false → IsSound phase d
  busy_lem phase d off u = record { unlocked = u; fresh = λ p on. absurd (off p) }

  launched-Sound :
      (d : Daemon) (c : Clone.Cloned) → c.manager.locked ≡ false → Sound (launched e k d c)
  unfolding launched
  launched-Sound d c u =
      let d' : Daemon = record d { manager = c.manager; signals = d.signals ++ c.signals } in
      if-holds Sound (is_child c.result) _ _ (busy_lem ended d' (λ p. cc) u) (
        if-holds Sound (worker_error c.result) _ _
          (ended_lem e idle (record d' { started = false }) u refl)
          (busy_lem (watching (evaluates k d.options)) d' (λ p. cc) u))

  launch-Sound : (t : Tick) (d : Daemon) → d.manager.locked ≡ false → Sound (launch e k t d)
  unfolding launch
  launch-Sound t d u =
      if-holds Sound t.logged _ _
        (launched-Sound d (clone (flags_of k) t.start d.options.parallel_count d.manager)
          (clone-locked (flags_of k) t.start d.options.parallel_count d.manager ∙ u))
        (ended_lem e idle (record d { started = false }) u refl)

  idle_step-Sound : (t : Tick) (d : Daemon) → IsSound idle d → Sound (idle_step e k t d)
  unfolding idle_step
  idle_step-Sound t d s =
      let over = busy_lem ended d (λ p. cc) s.unlocked in
      if-holds Sound d.halt _ _ over (
        if-holds Sound d.started _ _
          (elim (Option-cases t.binding) [
            | inl off ↦ rw off (if-holds Sound t.printable _ _ over s)
            | inr (b, on) ↦ rw on (launch-Sound t d s.unlocked)
          ])
          s)

  watched-Sound :
      (d : Daemon) (evaluating : Bool) (m : Manager) (b : Bool)
      → m.locked ≡ false
      → Sound (watched e k d evaluating (m, b))
  watched-Sound d evaluating m true u =
      busy_lem (watching evaluating) (record d { manager = m }) (λ p. cc) u
  watched-Sound d evaluating m false u = busy_lem closing (record d { manager = m }) (λ p. cc) u

  handler_of-IsComplete : (d : Daemon) (evaluating : Bool) → IsComplete (handler_of e d evaluating)
  unfolding handler_of
  handler_of-IsComplete d false = record { eval = inl refl; print = inl refl }
  handler_of-IsComplete d true = record { eval = inr (_, refl); print = inl refl }

  watchdog-frees :
      (t : Tick) (d : Daemon) (evaluating : Bool) (m m' : Manager) (b : Bool)
      → watchdog e.size e.arrivals e.fuel (handler_of e d evaluating) t.wait m ≡ some (m', b)
      → m'.locked ≡ false
  watchdog-frees t d evaluating m m' b h = elim (Option-cases m.workers) [
    | inl off ↦
        let same : some_with (record m { locked = false }) true ≡ some_with m' b =
          sym (watchdog_no_list e.size e.arrivals e.fuel (handler_of e d evaluating) t.wait m off)
          ∙ h in
        ap (λ (p : Manager × Bool). p.0.locked)
          (sym (some-injective (record m { locked = false }, true) (m', b) same))
    | inr (ws, on) ↦
        watchdog-unlocked e.size e.arrivals e.fuel (handler_of e d evaluating) t.wait m m' ws b
          (handler_of-IsComplete d evaluating) on h
  ]

  main_step-Sound :
      (t : Tick) (phase : Phase) (d : Daemon) (n' : Node)
      → main_step e k t (record { daemon = d; phase = phase }) ≡ done n'
      → IsSound phase d
      → Sound n'
  unfolding main_step watch_step close_step
  main_step-Sound t idle d n' h s = subst Sound (done-injective h) (idle_step-Sound t d s)
  main_step-Sound t (watching evaluating) d n' h s =
      let running = list_is_running d.manager && ltb 0 (list_count d.manager) in
      elim (Bool-cases running) [
        | inl on ↦
            let round =
              watchdog e.size e.arrivals e.fuel (handler_of e d evaluating) t.wait d.manager in
            let (r, run, h) = >>=-eq-done (within_fuel round) _ (rw on at h) in
            subst Sound (done-injective h) (
              watched-Sound d evaluating r.0 r.1
                (watchdog-frees t d evaluating d.manager r.0 r.1 (within_fuel-done round run)))
        | inr off ↦
            subst Sound (done-injective (rw off at h)) (busy_lem closing d (λ p. cc) s.unlocked)
      ]
  main_step-Sound t closing d n' h s =
      let run = Stop.stop e.size e.arrivals e.fuel e.can_signal e.poll d.manager in
      let (r, stopped, h) = >>=-eq-done (within_fuel run) _ h in
      subst Sound (done-injective h) (
        busy_lem returning (record d { manager = r.0; signals = d.signals ++ r.1 }) (λ p. cc)
          (stop-unlocked e d.manager r.0 r.1 (within_fuel-done run stopped)))
  main_step-Sound t returning d n' h s =
      subst Sound (done-injective h)
        (ended_lem e idle (record d { started = false }) s.unlocked refl)
  main_step-Sound t ended d n' h s = subst Sound (done-injective h) s

  Step-Sound : {n n' : Node} → Step e k n n' → Sound n → Sound n'
  Step-Sound (main t n n' h) s = main_step-Sound t n.phase n.daemon n' h s
  Step-Sound (request phase d d' info asked response r b h) s =
      play_first-IsSound (instruments_of e k) phase d d' asked response r info b
        (instruments_of-AllKeep e k) h s

  -- In every state that a daemon that sends or receives reaches from a state of this kind, by the steps of its
  -- main loop and by requests that it plays between them, the lock of the list of workers is given back,
  -- and at the head of the main loop a test that is to be started finds no list of workers.
  pub Reach-Sound : {n n' : Node} → Reach e k n n' → Sound n → Sound n'
  Reach-Sound here s = s
  Reach-Sound (next r st) s = Step-Sound st (Reach-Sound r s)
