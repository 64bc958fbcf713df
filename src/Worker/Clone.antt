-- ===== src/Worker/Clone.antt =====
-- The start of a test: `worker_info_new` of worker_info.c and `worker_manager_clone` of
-- worker_manager.c. What the calls of each round return is an argument.
use Prim.Native.Nat.{bit_or}
use msg_perf_tool.Base.{
  ℕ, zero, suc, ◌-◌, ◌^◌, if◌then◌else◌, Bool, Option, none, some, List, [], ◌∷◌, ◌++◌, Bytes,
}
use msg_perf_tool.Worker.Ipc.{Queue}
use msg_perf_tool.Worker.Snapshots.{WorkerInfo}
use msg_perf_tool.Worker.Table.{Manager, list_init, list_append}
use msg_perf_tool.Worker.Stop.{Signal, sigkill}

-- `worker_ret_t`
abbrev pub worker_failure : ℕ
worker_failure = 0

abbrev pub worker_success : ℕ
worker_success = 1

abbrev pub worker_child : ℕ
worker_child = 2

-- What `fork` returns: 0, with what the worker returns at its end, or a process. A `fork` that
-- fails returns -1, which the code takes for a process.
pub data Fork : Type 0 where
  in_child : ℕ → Fork
  in_parent : ℕ → Fork

-- -1 as a `pid_t`.
abbrev pub no_process : ℕ
no_process = 2 ^ 32 - 1

-- What one round gets from outside: the process, the memory of the information with the bytes of
-- its snapshot, the name, the queue, and whether the list can be extended.
pub record Round : Type 0 where
  pub fork : Fork
  pub memory : Option Bytes
  pub named : Bool
  pub queue : Option Queue
  pub appended : Bool

-- `worker_info_new`, with the signals that it sends.
unfoldable pub info_new : Round → ℕ → ℕ → Option WorkerInfo × List Signal
info_new r flags child = elim r.memory [
  | none ↦ (none, [])
  | some bytes ↦
      if r.named
      then elim r.queue [
        | none ↦ (none, (child, sigkill) ∷ [])
        | some q ↦ (
          some (record { child = child; flags = flags; queue = q; snapshot = bytes; reads = 0 }),
          [],
        )
      ]
      else (none, (child, sigkill) ∷ [])
]

-- How a round ends.
pub data Registered : Type 0 where
  registered : Manager → Registered
  refused : List Signal → Registered
  returns : ℕ → Registered

-- The end of a round, given what `worker_info_new` returned.
unfoldable pub enlist : Round → Manager → Option WorkerInfo × List Signal → Registered
unfolding list_append
enlist r m (none, sent) = refused sent
enlist r m (some w, sent) =
    let (m', there) = list_append r.appended w m in
    if there then registered m' else refused (sent ++ (w.child, sigkill) ∷ [])

unfoldable pub register : Round → ℕ → Manager → Registered
unfolding info_new
register r flags m = elim r.fork [
  | in_child wret ↦ returns (bit_or wret worker_child)
  | in_parent pid ↦ enlist r m (info_new r flags pid)
]

-- What `worker_manager_clone` leaves behind in its process, and what it returns.
pub record Cloned : Type 0 where
  pub manager : Manager
  pub signals : List Signal
  pub result : ℕ

-- What a call gets from outside: the memory of the list, whether the dump of the options and the
-- report writer succeed, and its rounds.
pub record Outside : Type 0 where
  pub list : Bool
  pub dumped : Bool
  pub writer : Bool
  pub round : ℕ → Round

module _ (flags : ℕ) where
  -- The loop over the workers, from round `i` on.
  unfoldable pub clone_from : (ℕ → Round) → ℕ → ℕ → Manager → Cloned
  unfolding register
  clone_from round zero i m = record { manager = m; signals = []; result = worker_success }
  clone_from round (suc k) i m = elim (register (round i) flags m) [
    | registered m' ↦ clone_from round k (suc i) m'
    | refused sent ↦ record { manager = m; signals = sent; result = worker_failure }
    | returns wret ↦ record { manager = m; signals = []; result = wret }
  ]

  -- What follows the list.
  unfoldable pub clone_listed : Outside → ℕ → Manager × Bool → Cloned
  clone_listed o count (m, there) =
      let failure : Cloned = record { manager = m; signals = []; result = worker_failure } in
      let forked = clone_from o.round count 0 m in
      if there then if o.dumped then if o.writer then forked else failure else failure else failure

  -- `worker_manager_clone`; `count` is `parallel_count`.
  unfoldable pub clone : Outside → ℕ → Manager → Cloned
  unfolding list_init
  clone o count m = clone_listed o count (list_init o.list (record m { errors = 0 }))
