-- ===== src/Handlers.antt =====
-- The handlers of the messaging layer: src/common/vmslh.c. A list of them holds pointers to
-- callbacks, which may be null; functions and payloads are addresses.
pub mod Lists
use msg_perf_tool.Base.{
  ℕ, zero, suc, ◌==◌, if◌then◌else◌, Bool, true, false, Option, none, some, List, [], ◌∷◌, ◌++◌,
  length, Outcome, done, fault, ◌>>=◌,
}

-- `vmslh_callback_t`
pub record Callback : Type 0 where
  pub call : ℕ
  pub payload : ℕ

abbrev pub next_place : Option ℕ → Option ℕ
next_place none = none
next_place (some i) = some (suc i)

-- The walk of `vmslh_by_addr`: the place of the first callback with the function.
unfoldable pub find : ℕ → List (Option Callback) → Option ℕ
find call [] = none
find call (none ∷ hs) = next_place (find call hs)
find call (some c ∷ hs) =
    let rest = next_place (find call hs) in if c.call == call then some 0 else rest

-- What `vmslh_by_addr` does with the place that the walk found: the list that it leaves and the
-- place of the callback that it returns.
unfoldable pub wrapper_at :
    Option Callback → Bool → List (Option Callback) → Option ℕ → List (Option Callback) × Option ℕ
wrapper_at memory appended hs (some i) = (hs, some i)
wrapper_at memory false hs none = (hs, none)
wrapper_at none true hs none = (hs ++ none ∷ [], none)
wrapper_at (some c) true hs none = (hs ++ some c ∷ [], some (length hs))

-- `vmslh_by_addr`, given what `gru_alloc` returns and whether `gru_list_append` succeeds.
unfoldable pub by_addr :
    Option Callback → Bool → ℕ → List (Option Callback) → List (Option Callback) × Option ℕ
by_addr memory appended call hs = wrapper_at memory appended hs (find call hs)

-- A write through the pointer at a place of the list.
unfoldable pub set_place : ℕ → Callback → List (Option Callback) → List (Option Callback)
set_place i c [] = []
set_place zero c (h ∷ hs) = some c ∷ hs
set_place (suc i) c (h ∷ hs) = h ∷ set_place i c hs

-- The end of `vmslh_add`: the callback is filled in.
unfoldable pub fill_in :
    Callback → List (Option Callback) × Option ℕ → List (Option Callback) × Bool
unfolding set_place
fill_in c (hs, none) = (hs, false)
fill_in c (hs, some i) = (set_place i c hs, true)

-- `vmslh_add`
unfoldable pub add :
    Option Callback → Bool → ℕ → ℕ → List (Option Callback) → List (Option Callback) × Bool
unfolding fill_in by_addr
add memory appended call payload hs =
    fill_in (record { call = call; payload = payload }) (by_addr memory appended call hs)

-- `vmslh_run` on a list that is there: the calls in their order.
unfoldable pub run : List (Option Callback) → Outcome (List Callback)
run [] = done []
run (none ∷ hs) = fault
run (some c ∷ hs) = run hs >>= λ cs. done (c ∷ cs)
