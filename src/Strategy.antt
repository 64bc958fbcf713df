-- ===== src/Strategy.antt =====
-- The payload strategies: pl_fixed_strategy.c and pl_variable_strategy.c of
-- src/common/strategies/payload. The static variables of each file are its state.
pub mod Sizes
use msg_perf_tool.Base.{
  ℕ, ◌+◌, ◌-◌, ◌*◌, ◌/◌, ◌%◌, ◌^◌, ltb, if◌then◌else◌, Bool, true, false, Option, Bytes, Outcome,
  done, ◌>>=◌,
}
use msg_perf_tool.Content.{Content, init, release, fill, rfill}

-- `pl_fixed_init`; the state is `initial_size`.
unfoldable pub fixed_init : (ℕ → Option Bytes) → Content → ℕ → Outcome (ℕ × Content × Bool)
fixed_init alloc c size =
    let (c', there) = init alloc c size in
    if there
    then (fill c' b'd' >>= λ filled. done (size, filled, true))
    else done (size, release c', false)

-- `pl_fixed_load` returns the size that it was set up with.
unfoldable pub fixed_load : ℕ → Content → Content × ℕ
fixed_load initial_size c = (c, initial_size)

-- `pl_fixed_cleanup` and `pl_variable_cleanup`
unfoldable pub cleanup : Content → Content
unfolding release
cleanup c = release c

-- The static variables of pl_variable_strategy.c.
pub record Variable : Type 0 where
  pub initial_size : ℕ
  pub lower_bound : ℕ
  pub upper_bound : ℕ
  pub limit : ℕ

-- `a - b` of two `size_t`.
abbrev pub sub64 : ℕ → ℕ → ℕ
sub64 a b = (a + 2 ^ 64 - b) % 2 ^ 64

-- The bounds that `pl_variable_init` computes.
unfoldable pub variable_bounds : ℕ → Variable
variable_bounds size =
    if ltb 100 size
    then (let bound = size / 100 * 5 % 2 ^ 64 in
        let lower = sub64 size bound in
        let upper = (size + bound) % 2 ^ 64 in
        record {
          initial_size = size;
          lower_bound = lower;
          upper_bound = upper;
          limit = sub64 upper lower;
        })
    else let lower = sub64 size 1 in
      let upper = (size + 1) % 2 ^ 64 in
      record {
        initial_size = size;
        lower_bound = lower;
        upper_bound = upper;
        limit = sub64 upper lower;
      }

-- `pl_variable_init`
unfoldable pub variable_init :
    (ℕ → Option Bytes) → (ℕ → ℕ) → Content → ℕ → Outcome (Variable × Content × Bool)
variable_init alloc rand c size =
    let v = variable_bounds size in
    let (c', there) = init alloc c v.upper_bound in
    if there
    then (rfill rand c' >>= λ filled. done (v, filled, true))
    else done (v, release c', false)

-- `pl_variable_load`, given what `rand` returns: the size of the next message is set in the buffer,
-- and the result is the size that the strategy was set up with.
unfoldable pub variable_load : Variable → ℕ → Content → Content × ℕ
variable_load v rand c =
    (record c { size = (v.lower_bound + rand % v.limit) % 2 ^ 64 }, v.initial_size)
