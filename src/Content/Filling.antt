-- ===== src/Content/Filling.antt =====
-- What the filling loops of a message buffer leave in it.
use msg_perf_tool.Base.{
  ℕ, zero, suc, ◌+◌, ◌-◌, ◌^◌, ◌≤◌, ◌<◌, ◌≡◌, refl, sym, ap, ◌∙◌, some, [], ◌∷◌, ◌++◌, arith,
  length, replicate, Bytes, set_at, set_at_outside, done, fault,
}
use mathlib.Core.List.{append-nil}
use msg_perf_tool.Content.{Content, fill_down, fill_with, fill, last_index}

-- The bytes `byte n`, `byte (n + 1)`, …, `k` of them.
abbrev pub bytes_from : (ℕ → ℕ) → ℕ → ℕ → Bytes
bytes_from byte n zero = []
bytes_from byte n (suc k) = byte n ∷ bytes_from byte (suc n) k

pub length-bytes_from : (byte : ℕ → ℕ) (n k : ℕ) → length (bytes_from byte n k) ≡ k
length-bytes_from byte n zero = refl
length-bytes_from byte n (suc k) = ap suc (length-bytes_from byte (suc n) k)

bytes_from-snoc :
    (byte : ℕ → ℕ) (n k m : ℕ) (back : Bytes)
    → m ≡ n + k
    → bytes_from byte n k ++ byte m ∷ back ≡ bytes_from byte n (suc k) ++ back
bytes_from-snoc byte n zero m back h = ap (λ j. byte j ∷ back) (h ∙ omega arith)
bytes_from-snoc byte n (suc k) m back h =
    ap (◌∷◌ (byte n)) (bytes_from-snoc byte (suc n) k m back (omega arith))

-- One round of the loop, at the last byte of `front`.
set_last :
    (front back : Bytes) (i b v : ℕ)
    → length front ≡ suc i
    → (rest : Bytes) × (length rest ≡ i)
      × (set_at (b ∷ front ++ back) (suc i) v ≡ some (b ∷ rest ++ v ∷ back))
unfolding set_at
set_last (x ∷ []) back zero b v h = ([], refl, refl)
set_last [] back i b v h = absurd (omega arith)
set_last (x ∷ y ∷ front) back zero b v h = absurd (omega arith)
set_last (x ∷ front) back (suc i) b v h =
    let (rest, l, e) = set_last front back i x v (omega arith) in (x ∷ rest, ap suc l, rw e)

-- The loop from `i` down keeps the first byte and what stands behind `i`.
fill_down_lem :
    (byte : ℕ → ℕ) (i b : ℕ) (front back : Bytes)
    → length front ≡ i
    → fill_down byte i (b ∷ front ++ back) ≡ done (b ∷ bytes_from byte 1 i ++ back)
unfolding fill_down
fill_down_lem byte zero b [] back h = refl
fill_down_lem byte zero b (f ∷ front) back h = absurd (omega arith)
fill_down_lem byte (suc i) b front back h =
    let (rest, l, e) = set_last front back i b (byte (suc i)) h in
    rw e (
      fill_down_lem byte i b rest (byte (suc i) ∷ back) l
      ∙ ap (λ bs. done (b ∷ bs)) (bytes_from-snoc byte 1 i (suc i) back (omega arith)))

-- Both fills store `byte i` at each place `i` of the buffer.
pub fill_with_lem :
    (byte : ℕ → ℕ) (c : Content) (region : Bytes) (k : ℕ)
    → c.bytes ≡ some region
    → length region ≡ suc k
    → c.capacity ≡ suc k
    → suc k < 2 ^ 64
    → fill_with byte c ≡ done (record c { bytes = some (bytes_from byte 0 (suc k)); size = suc k })
unfolding fill_with set_at
fill_with_lem byte c [] k e l n small = absurd (omega arith)
fill_with_lem byte c (b ∷ region) k e l n small =
    let last : last_index c.capacity ≡ k = omega arith in
    let loop : fill_down byte k (b ∷ region) ≡ done (b ∷ bytes_from byte 1 k) =
      ap (λ r. fill_down byte k (b ∷ r)) (sym (append-nil region))
      ∙ fill_down_lem byte k b region [] (omega arith)
      ∙ ap (λ r. done (b ∷ r)) (append-nil (bytes_from byte 1 k)) in
    rw (e, last, loop, n)

bytes_from-replicate : (v n k : ℕ) → bytes_from (λ _. v) n k ≡ replicate k v
bytes_from-replicate v n zero = refl
bytes_from-replicate v n (suc k) = ap (◌∷◌ v) (bytes_from-replicate v (suc n) k)

-- `msg_content_data_fill` on a buffer whose region has its capacity, which is not 0 and fits a
-- `size_t`, fills the whole region with the byte, sets the size to the capacity, and stays inside
-- the region.
pub fill-replicate :
    (c : Content) (region : Bytes) (v k : ℕ)
    → c.bytes ≡ some region
    → length region ≡ suc k
    → c.capacity ≡ suc k
    → suc k < 2 ^ 64
    → fill c v ≡ done (record c { bytes = some (replicate (suc k) v); size = suc k })
unfolding fill
fill-replicate c region v k e l n small =
    fill_with_lem (λ _. v) c region k e l n small
    ∙ ap (λ bs. done (record c { bytes = some bs; size = suc k }))
        (bytes_from-replicate v 0 (suc k))

fill_down_outside :
    (byte : ℕ → ℕ) (i : ℕ) (region : Bytes)
    → length region ≤ i
    → 0 < i
    → fill_down byte i region ≡ fault
unfolding fill_down
fill_down_outside byte zero region h p = absurd (omega arith)
fill_down_outside byte (suc i) region h p = rw (set_at_outside region (suc i) (byte (suc i)) h)

-- On a buffer of capacity 0 both fills write outside the region: `capacity - 1` wraps to the
-- largest `size_t`, which indexes no byte.
pub fill_with-zero :
    (byte : ℕ → ℕ) (c : Content) (region : Bytes)
    → c.bytes ≡ some region
    → c.capacity ≡ 0
    → length region < 2 ^ 64 - 1
    → fill_with byte c ≡ fault
unfolding fill_with
fill_with-zero byte c region e n small =
    rw (e, fill_down_outside byte (last_index c.capacity) region (omega arith) (omega arith))
