-- ===== src/Worker/Table.antt =====
-- The manager's state: the list of workers of worker_list.c with its lock, and the count of failed
-- children. A null list is `none`; `gru_list_append` puts a node at the end.
use msg_perf_tool.Base.{
  ℕ, ◌%◌, ◌^◌, if◌then◌else◌, Bool, true, false, Option, none, some, List, [], ◌∷◌, ◌++◌, length,
}
use msg_perf_tool.Worker.Snapshots.{WorkerInfo, Report}

pub record Manager : Type 0 where
  pub workers : Option (List WorkerInfo)
  pub errors : ℕ
  pub locked : Bool
  pub reports : List Report

-- `worker_list_init`, given whether the list can be allocated. A list that is there is refused.
unfoldable pub list_init : Bool → Manager → Manager × Bool
list_init there m = elim m.workers [
  | some ws ↦ (m, false)
  | none ↦ if there then (record m { workers = some [] }, true) else (m, false)
]

-- `worker_list_clean`: the list and the workers in it are given back.
unfoldable pub list_clean : Manager → Manager
list_clean m = record m { workers = none }

-- `worker_list_append`, given whether `gru_list_append` succeeds.
unfoldable pub list_append : Bool → WorkerInfo → Manager → Manager × Bool
list_append there w m = elim m.workers [
  | none ↦ (m, false)
  | some ws ↦ if there then (record m { workers = some (ws ++ w ∷ []) }, true) else (m, false)
]

-- `worker_list_count`, a `uint32_t`.
unfoldable pub list_count : Manager → ℕ
list_count m = elim m.workers [ none ↦ 0 | some ws ↦ length ws % 2 ^ 32 ]

-- `worker_list_is_running`
unfoldable pub list_is_running : Manager → Bool
list_is_running m = elim m.workers [ none ↦ false | some ws ↦ true ]

-- `worker_list_lock` of a mutex that is free, and `worker_list_unlock`. Where another thread holds the
-- mutex the call waits; these are the states after it has got it.
unfoldable pub list_lock : Manager → Manager
list_lock m = record m { locked = true }

unfoldable pub list_unlock : Manager → Manager
list_unlock m = record m { locked = false }
