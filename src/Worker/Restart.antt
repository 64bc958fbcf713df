-- ===== src/Worker/Restart.antt =====
-- That a test is started only once: the list that a start leaves behind.
use mathlib.Core.Path.{subst}
use msg_perf_tool.Base.{
  ℕ, zero, suc, ◌≡◌, ◌≢◌, refl, sym, ap, if◌then◌else◌, Bool, true, false, Option, none, some, List,
  [], Option-cases, Bool-cases, inl, inr,
}
use msg_perf_tool.Worker.Snapshots.{WorkerInfo}
use msg_perf_tool.Worker.Table.{Manager, list_init, list_append}
use msg_perf_tool.Worker.Stop.{Signal}
use msg_perf_tool.Worker.Clone.{
  in_child, in_parent, Round, Registered, registered, refused, returns, info_new, enlist, register,
  Cloned, Outside, clone_from, clone_listed, clone, worker_failure,
}

module _ (flags : ℕ) where
  -- A round that registers a worker leaves a list.
  abbrev IsListed : Registered → Type 0
  IsListed (registered m) = m.workers ≢ none
  IsListed (refused sent) = Unit {0}
  IsListed (returns wret) = Unit {0}

  enlist-IsListed :
      (r : Round) (m : Manager) (u : Option WorkerInfo × List Signal) → IsListed (enlist r m u)
  unfolding enlist list_append
  enlist-IsListed r m (none, sent) = tt
  enlist-IsListed r m (some w, sent) = elim (Option-cases m.workers) [
    | inl e ↦ rw e tt
    | inr (ws, e) ↦ elim (Bool-cases r.appended) [
      | inl a ↦ rw (e, a) (λ q. cc)
      | inr a ↦ rw (e, a) tt
    ]
  ]

  register-IsListed : (r : Round) (m : Manager) → IsListed (register r flags m)
  unfolding register enlist
  register-IsListed r m =
      elim r.fork as (λ f. IsListed (register (record r { fork = f }) flags m)) [
        | in_child wret ↦ tt
        | in_parent pid ↦ enlist-IsListed r m (info_new r flags pid)
      ]

  after_round-listed :
      (next : Manager → Cloned) (m : Manager) (x : Registered)
      → m.workers ≢ none
      → IsListed x
      → ((m' : Manager) → m'.workers ≢ none → (next m').manager.workers ≢ none)
      → let after : Cloned = elim x [
        | registered m' ↦ next m'
        | refused sent ↦ record { manager = m; signals = sent; result = worker_failure }
        | returns wret ↦ record { manager = m; signals = []; result = wret }
      ] in
        after.manager.workers ≢ none
  after_round-listed next m (registered m') h l keeps = keeps m' l
  after_round-listed next m (refused sent) h l keeps = h
  after_round-listed next m (returns wret) h l keeps = h

  clone_from-listed :
      (round : ℕ → Round) (k i : ℕ) (m : Manager)
      → m.workers ≢ none
      → (clone_from flags round k i m).manager.workers ≢ none
  unfolding clone_from
  clone_from-listed round zero i m h = h
  clone_from-listed round (suc k) i m h =
      after_round-listed (λ m'. clone_from flags round k (suc i) m') m (register (round i) flags m)
        h (register-IsListed (round i) m) (λ m' l. clone_from-listed round k (suc i) m' l)

  branch-listed :
      (b : Bool) (x y : Cloned)
      → x.manager.workers ≢ none
      → y.manager.workers ≢ none
      → (if b then x else y).manager.workers ≢ none
  branch-listed true x y hx hy = hx
  branch-listed false x y hx hy = hy

  clone_listed-listed :
      (o : Outside) (n : ℕ) (x : Manager × Bool)
      → x.0.workers ≢ none
      → (clone_listed flags o n x).manager.workers ≢ none
  unfolding clone_listed
  clone_listed-listed o n (m, there) h =
      branch-listed there _ _
        (branch-listed o.dumped _ _
          (branch-listed o.writer _ _ (clone_from-listed o.round n 0 m h) h) h)
        h

  list_init-listed : (m : Manager) → (list_init true m).0.workers ≢ none
  unfolding list_init
  list_init-listed m = elim (Option-cases m.workers) [
    | inl e ↦ rw e (λ q. cc)
    | inr (ws, e) ↦ rw e (λ q. cc)
  ]

  list_init-refused : (b : Bool) (m : Manager) → m.workers ≢ none → list_init b m ≡ (m, false)
  unfolding list_init
  list_init-refused b m h = elim (Option-cases m.workers) [
    | inl e ↦ absurd (h e)
    | inr (ws, e) ↦ rw e refl
  ]

  clone-listed :
      (o : Outside) (n : ℕ) (m : Manager)
      → o.list ≡ true
      → (clone flags o n m).manager.workers ≢ none
  unfolding clone
  clone-listed o n m list =
      let start : Manager = record m { errors = 0 } in
      clone_listed-listed o n (list_init o.list start)
        (subst (λ b. (list_init b start).0.workers ≢ none) (sym list) (list_init-listed start))

  -- Unless the memory for its list is missing, `worker_manager_clone` works only once: when it has
  -- returned, with a success or with any failure, another call on what it left fails, sends no
  -- signal and keeps the list.
  pub clone-once :
      (o o' : Outside) (n n' : ℕ) (m : Manager)
      → o.list ≡ true
      → let left = (clone flags o n m).manager in
        clone flags o' n' left
        ≡ record { manager = record left { errors = 0 }; signals = []; result = worker_failure }
  unfolding clone clone_listed
  clone-once o o' n n' m list = ap (clone_listed flags o' n') (
      list_init-refused o'.list (record (clone flags o n m).manager { errors = 0 })
        (clone-listed o n m list))
