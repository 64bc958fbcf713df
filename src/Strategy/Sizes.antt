-- ===== src/Strategy/Sizes.antt =====
-- The sizes of the messages that the strategies deliver.
use native.Mathlib.Nat.{mod-lt, mod-eq_of_lt}
use msg_perf_tool.Base.{
  ℕ, suc, ◌+◌, ◌-◌, ◌*◌, ◌/◌, ◌%◌, ◌^◌, ◌≤◌, ◌<◌, ◌≡◌, refl, Bool-cases, if◌then◌else◌, inl, inr,
  ltb, true, Option, some, Bytes, done, fault, arith, replicate,
}
use msg_perf_tool.Content.{Content, IsValid, fill}
use msg_perf_tool.Content.Filling.{fill-replicate, fill_with-zero}
use msg_perf_tool.Content.Random.{AllAlphanumeric, Allocates, init_lem, rfill_alphanumeric}
use msg_perf_tool.Strategy.{variable_bounds, variable_init, variable_load, fixed_init}

-- The bounds, where nothing wraps.
variable_bounds-large :
    (size : ℕ)
    → 100 < size
    → size < 2 ^ 63
    → ((variable_bounds size).lower_bound ≡ size - size / 100 * 5)
      × ((variable_bounds size).upper_bound ≡ size + size / 100 * 5)
      × ((variable_bounds size).limit ≡ size / 100 * 5 + size / 100 * 5)
unfolding variable_bounds
variable_bounds-large size h k = ground arith

variable_bounds-small :
    (size : ℕ)
    → 0 < size
    → size ≤ 100
    → ((variable_bounds size).lower_bound ≡ size - 1)
      × ((variable_bounds size).upper_bound ≡ size + 1)
      × ((variable_bounds size).limit ≡ 2)
unfolding variable_bounds
variable_bounds-small size h k = ground arith

-- How far the size of a message may be off.
abbrev pub spread : ℕ → ℕ
spread size = if ltb 100 size then size / 100 * 5 else 1

variable_bounds-spread :
    (size : ℕ)
    → 0 < size
    → size < 2 ^ 63
    → ((variable_bounds size).lower_bound ≡ size - spread size)
      × ((variable_bounds size).upper_bound ≡ size + spread size)
      × ((variable_bounds size).limit ≡ spread size + spread size)
variable_bounds-spread size p k = elim (Bool-cases (ltb 100 size)) [
  | inl h ↦ rw h (variable_bounds-large size (ground arith) k)
  | inr h ↦ rw h (variable_bounds-small size p (ground arith))
]

pub spread_bounds : (size : ℕ) → 0 < size → (0 < spread size) × (spread size ≤ size)
spread_bounds size p = ground arith

-- A buffer that was filled for messages of `size` bytes.
abbrev pub IsFilledFor : ℕ → Content → Type 0
IsFilledFor size c = IsValid c × (c.capacity ≡ size + spread size)

-- With memory there, `pl_variable_init` for messages of a size that is not 0 and below 2 ^ 63
-- succeeds with a valid buffer of digits and letters, whose capacity is the size and its spread,
-- whatever `rand` returns.
pub variable_init-filled :
    (alloc : ℕ → Option Bytes) (rand : ℕ → ℕ) (c : Content) (size : ℕ)
    → Allocates alloc
    → 0 < size
    → size < 2 ^ 63
    → (filled : Content) × (text : Bytes) × (filled.bytes ≡ some text)
      × AllAlphanumeric text
      × IsFilledFor size filled
      × (variable_init alloc rand c size ≡ done (variable_bounds size, filled, true))
unfolding variable_init
variable_init-filled alloc rand c size allocs p k =
    let upper = (variable_bounds size).upper_bound in
    let (region, got, l) = allocs upper in
    let b = variable_bounds-spread size p k in
    let last = size + spread size - 1 in
    let (text, all, n, e) =
      rfill_alphanumeric rand (record { bytes = some region; capacity = upper; size = 0 }) region
        last refl (omega (arith, b.1)) (omega (arith, b.1)) (omega (arith, spread_bounds size p)) in
    (
      record { bytes = some text; capacity = upper; size = suc last },
      text,
      refl,
      all,
      (record { owned = (text, refl, omega (arith, b.1)); fits = omega (arith, b.1) }, b.1),
      rw (init_lem alloc c upper region got, e),
    )

-- On a buffer that was filled for messages of a size that is not 0 and below 2 ^ 63, each
-- `pl_variable_load` sets a size at most `spread` below and less than `spread` above that size,
-- whatever `rand` returns, and the buffer stays valid: no message is longer than it.
pub variable_load-bounds :
    (size r : ℕ) (c : Content)
    → 0 < size
    → size < 2 ^ 63
    → IsFilledFor size c
    → let loaded = (variable_load (variable_bounds size) r c).0 in
      IsValid loaded × (size - spread size ≤ loaded.size) × (loaded.size < size + spread size)
unfolding variable_load
variable_load-bounds size r c p k (valid, room) =
    let v = variable_bounds size in
    let n = (v.lower_bound + r % v.limit) % 2 ^ 64 in
    let b = variable_bounds-spread size p k in
    let s = spread_bounds size p in
    let offset : r % v.limit < v.limit = mod-lt r (omega (arith, b.2, s.0)) in
    let exact : n ≡ v.lower_bound + r % v.limit = mod-eq_of_lt (omega (arith, b.0, b.2, s.1)) in
    let low : size - spread size ≤ n = omega (arith, b.0) in
    let high : n < size + spread size = omega (arith, b.0, b.2, s.1) in
    (record { owned = valid.owned; fits = omega arith }, low, high)

-- With memory there, `pl_fixed_init` for a size that is not 0 and fits a `size_t` succeeds with a
-- buffer of exactly that size, filled with the letter d.
pub fixed_init-filled :
    (alloc : ℕ → Option Bytes) (c : Content) (k : ℕ)
    → Allocates alloc
    → suc k < 2 ^ 64
    → fixed_init alloc c (suc k)
      ≡ done (
        suc k,
        record { bytes = some (replicate (suc k) b'd'); capacity = suc k; size = suc k },
        true,
      )
unfolding fixed_init
fixed_init-filled alloc c k allocs small =
    let (region, got, l) = allocs (suc k) in
    rw (
      init_lem alloc c (suc k) region got,
      fill-replicate (record { bytes = some region; capacity = suc k; size = 0 }) region b'd' k refl
          l refl small,
    )

-- With memory there, `pl_fixed_init` for size 0 writes outside its buffer.
pub fixed_init-zero :
    (alloc : ℕ → Option Bytes) (c : Content) → Allocates alloc → fixed_init alloc c 0 ≡ fault
unfolding fixed_init fill
fixed_init-zero alloc c allocs =
    let (region, got, l) = allocs 0 in
    rw (
      init_lem alloc c 0 region got,
      fill_with-zero (λ _. b'd') (record { bytes = some region; capacity = 0; size = 0 }) region
          refl refl (omega arith),
    )
