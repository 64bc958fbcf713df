-- ===== src/Content/Random.antt =====
-- The random fill of a message buffer, and the copy into one.
use msg_perf_tool.Base.{
  ℕ, zero, suc, ◌%◌, ◌^◌, ◌≤◌, ◌<◌, ◌≡◌, ◌⊎◌, some, [], ◌∷◌, arith, length, Option, true, Bytes,
  overlay_full, done,
}
use msg_perf_tool.Content.{Content, init, rfill, dict, copy}
use msg_perf_tool.Content.Filling.{bytes_from, length-bytes_from, fill_with_lem}

-- A digit or an ASCII letter.
abbrev pub IsAlphanumeric : ℕ → Type 0
IsAlphanumeric c =
    ((b'0' ≤ c) × (c ≤ b'9')) ⊎ (((b'A' ≤ c) × (c ≤ b'Z')) ⊎ ((b'a' ≤ c) × (c ≤ b'z')))

abbrev pub AllAlphanumeric : Bytes → Type 0
AllAlphanumeric [] = Unit {0}
AllAlphanumeric (c ∷ cs) = IsAlphanumeric c × AllAlphanumeric cs

dict-IsAlphanumeric : (k : ℕ) → k < 62 → IsAlphanumeric (dict k)
unfolding dict
dict-IsAlphanumeric k h = ground arith

bytes_from-AllAlphanumeric :
    (rand : ℕ → ℕ) (n k : ℕ) → AllAlphanumeric (bytes_from (λ i. dict (rand i % 62)) n k)
bytes_from-AllAlphanumeric rand n zero = tt
bytes_from-AllAlphanumeric rand n (suc k) =
    (dict-IsAlphanumeric (rand n % 62) (omega arith), bytes_from-AllAlphanumeric rand (suc n) k)

-- Whatever `rand` returns, `msg_content_data_rfill` on a buffer whose region has its capacity,
-- which is not 0 and fits a `size_t`, stays inside the region, fills it with digits and letters,
-- and sets the size to the capacity.
pub rfill_alphanumeric :
    (rand : ℕ → ℕ) (c : Content) (region : Bytes) (k : ℕ)
    → c.bytes ≡ some region
    → length region ≡ suc k
    → c.capacity ≡ suc k
    → suc k < 2 ^ 64
    → (text : Bytes) × AllAlphanumeric text
      × (length text ≡ suc k)
      × (rfill rand c ≡ done (record c { bytes = some text; size = suc k }))
unfolding rfill
rfill_alphanumeric rand c region k e l n small = (
  bytes_from (λ i. dict (rand i % 62)) 0 (suc k),
  bytes_from-AllAlphanumeric rand 0 (suc k),
  length-bytes_from (λ i. dict (rand i % 62)) 0 (suc k),
  fill_with_lem (λ i. dict (rand i % 62)) c region k e l n small,
)

-- `gru_alloc` succeeds and returns as many bytes as asked for.
abbrev pub Allocates : (ℕ → Option Bytes) → Type 0
Allocates alloc = (n : ℕ) → (region : Bytes) × (alloc n ≡ some region) × (length region ≡ n)

-- When the memory is there, `msg_content_data_copy` succeeds, whatever the buffer was, and leaves
-- in it exactly the source: these bytes, with their length as the capacity and the size.
pub copy_lem :
    (alloc : ℕ → Option Bytes) (c : Content) (source : Bytes)
    → Allocates alloc
    → copy alloc c source
      ≡ done (record { bytes = some source; capacity = length source; size = length source }, true)
unfolding copy
copy_lem alloc c source h =
    let (region, e, l) = h (length source) in rw (e, copy, overlay_full source region l)

-- With memory there, `msg_content_data_init` drops what the buffer held and leaves an empty message
-- in a region of the size that was asked for.
pub init_lem :
    (alloc : ℕ → Option Bytes) (c : Content) (n : ℕ) (region : Bytes)
    → alloc n ≡ some region
    → init alloc c n ≡ (record { bytes = some region; capacity = n; size = 0 }, true)
unfolding init
init_lem alloc c n region e = rw (e, init)
