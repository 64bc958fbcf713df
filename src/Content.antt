-- ===== src/Content.antt =====
-- The message buffers of src/common/msg_content_data.c. The bytes that `gru_alloc` and `rand`
-- deliver (the C library and the gru library) are arguments of the operations.
pub mod Filling
pub mod Random
use msg_perf_tool.Base.{
  ℕ, zero, suc, ◌+◌, ◌-◌, ◌%◌, ◌^◌, ◌≤◌, ◌≡◌, Bool, true, false, Option, none, some, [], ◌∷◌,
  length, replicate, Bytes, overlay, set_at, Outcome, done, fault, ◌>>=◌, checked, ◌==◌, ltb,
  if◌then◌else◌,
}

-- `msg_content_data_t`; `none` is a null pointer. The time stamp `created` is left out: no function
-- of this file uses it.
pub record Content : Type 0 where
  pub bytes : Option Bytes
  pub capacity : ℕ
  pub size : ℕ

abbrev pub empty : Content
empty = record { bytes = none; capacity = 0; size = 0 }

-- The buffer owns `capacity` bytes and holds at most that many.
pub record IsValid (c : Content) : Type 0 where
  pub owned : (region : Bytes) × (c.bytes ≡ some region) × (length region ≡ c.capacity)
  pub fits : c.size ≤ c.capacity

-- `msg_content_data_release`
unfoldable pub release : Content → Content
release c = empty

-- `msg_content_data_new`: `header` is what the first allocation returns.
unfoldable pub new : Option Content → (ℕ → Option Bytes) → ℕ → Option Content
new none alloc n = none
new (some c) alloc n = elim (alloc n) [
  | none ↦ none
  | some region ↦ some (record c { bytes = some region; capacity = n })
]

-- `msg_content_data_init`; the flag is the success of `status`, which `gru_alloc` sets.
unfoldable pub init : (ℕ → Option Bytes) → Content → ℕ → Content × Bool
unfolding release
init alloc c n = elim (alloc n) [
  | none ↦ (release c, false)
  | some region ↦ (record (release c) { bytes = some region; capacity = n }, true)
]

write_all : Content → Bytes → Outcome Bytes
write_all c bs = checked c.bytes >>= λ region. checked (overlay bs region)

-- `msg_content_data_reset`: `bzero` of the whole capacity; of nothing at a null pointer.
unfoldable pub reset : Content → Outcome Content
unfolding write_all
reset c = if c.capacity == 0 then done (record c { size = 0 }) else (do
  region ← write_all c (replicate c.capacity 0)
  done (record c { bytes = some region; size = 0 }))

-- `msg_content_data_copy`
unfoldable pub copy : (ℕ → Option Bytes) → Content → Bytes → Outcome (Content × Bool)
unfolding release
copy alloc c source = elim (alloc (length source)) [
  | none ↦ done (release c, false)
  | some region ↦ (do
    written ← checked (overlay source region)
    done (record { bytes = some written; capacity = length source; size = length source }, true))
]

-- The loops of `fill` and `rfill`: `byte i` is what they store at `i`, from `i` down to 1.
unfoldable pub fill_down : (ℕ → ℕ) → ℕ → Bytes → Outcome Bytes
fill_down byte zero region = done region
fill_down byte (suc i) region = checked (set_at region (suc i) (byte (suc i))) >>= fill_down byte i

-- `capacity - 1` of a `size_t`, which wraps at 0.
abbrev pub last_index : ℕ → ℕ
last_index capacity = (capacity + 2 ^ 64 - 1) % 2 ^ 64

unfoldable pub fill_with : (ℕ → ℕ) → Content → Outcome Content
unfolding fill_down
fill_with byte c = do
  region ← checked c.bytes
  region ← fill_down byte (last_index c.capacity) region
  region ← checked (set_at region 0 (byte 0))
  done (record c { bytes = some region; size = c.capacity })

-- `msg_content_data_fill`
unfoldable pub fill : Content → ℕ → Outcome Content
unfolding fill_with
fill c v = fill_with (λ _. v) c

-- `dict[k]` of `msg_content_data_rfill`: the digits, the capital and the small letters.
unfoldable pub dict : ℕ → ℕ
dict k = if ltb k 10 then b'0' + k else if ltb k 36 then b'A' + (k - 10) else b'a' + (k - 36)

-- `msg_content_data_rfill`; `rand i` is the value that `rand` returns for the byte at `i`.
unfoldable pub rfill : (ℕ → ℕ) → Content → Outcome Content
unfolding fill_with dict
rfill rand c = fill_with (λ i. dict (rand i % 62)) c
