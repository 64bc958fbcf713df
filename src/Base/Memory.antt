-- ===== src/Base/Memory.antt =====
-- Memory as bytes: C strings, little-endian words, and a write over the start of a region.
use Prim.Native.Nat.{ℕ, zero, suc, ◌+◌, ◌*◌, ◌/◌, ◌%◌, ◌^◌, ◌≤◌, ◌<◌}
use mathlib.Core.Path.{◌≡◌, refl, ap}
use mathlib.Core.Logic.{◌≢◌, inl, inr}
use mathlib.Core.Option
use mathlib.Core.Option.{Option, none, some}
use mathlib.Core.List.{List, [], ◌∷◌, ◌++◌}
use native.Mathlib.Omega.{arith}
use msg_perf_tool.Base.Tests.{◌==◌, Bool-cases, if◌then◌else◌}
use msg_perf_tool.Base.Lists.{length}

abbrev pub Bytes : Type 0
Bytes = List ℕ

-- What `strlen` and `%s` see of a buffer: the bytes before the first NUL.
unfoldable pub c_string : Bytes → Bytes
c_string [] = []
c_string (b ∷ bs) = if b == 0 then [] else b ∷ c_string bs

-- No byte of a text is NUL.
abbrev pub IsText : Bytes → Type 0
IsText [] = Unit {0}
IsText (b ∷ bs) = (b ≢ 0) × IsText bs

-- The buffer that holds a text, with its terminator.
abbrev pub terminated : Bytes → Bytes
terminated s = s ++ 0 ∷ []

pub c_string-terminated : (s : Bytes) → IsText s → c_string (terminated s) ≡ s
unfolding c_string
c_string-terminated [] t = refl
c_string-terminated (b ∷ s) (h, t) = ground (arith, c_string-terminated s t)

pub c_string-text : (s : Bytes) → IsText s → c_string s ≡ s
unfolding c_string
c_string-text [] t = refl
c_string-text (b ∷ s) (h, t) = ground (arith, c_string-text s t)

pub c_string-IsText : (s : Bytes) → IsText (c_string s)
unfolding c_string
c_string-IsText [] = tt
c_string-IsText (b ∷ s) = elim (Bool-cases (b == 0)) [
  | inl e ↦ rw e tt
  | inr e ↦ rw e (ground arith, c_string-IsText s)
]

-- The `k` low bytes of a number, the lowest first, as the program's hosts store them.
unfoldable pub le_bytes : ℕ → ℕ → Bytes
le_bytes zero n = []
le_bytes (suc k) n = (n % 256) ∷ le_bytes k (n / 256)

unfoldable pub le_value : Bytes → ℕ
le_value [] = 0
le_value (b ∷ bs) = b + 256 * le_value bs

pub length-le_bytes : (k n : ℕ) → length (le_bytes k n) ≡ k
unfolding le_bytes
length-le_bytes zero n = refl
length-le_bytes (suc k) n = ap suc (length-le_bytes k (n / 256))

pub le_value-le_bytes4 : (n : ℕ) → le_value (le_bytes 4 n) ≡ n % 2 ^ 32
unfolding le_bytes le_value
le_value-le_bytes4 n = omega arith

pub le_value-le_bytes8 : (n : ℕ) → n < 2 ^ 64 → le_value (le_bytes 8 n) ≡ n
unfolding le_bytes le_value
le_value-le_bytes8 n h = omega arith

-- `bs` written over the start of `region`; `none` if it runs past the end.
unfoldable pub overlay : Bytes → Bytes → Option Bytes
overlay [] region = some region
overlay (b ∷ bs) [] = none
overlay (b ∷ bs) (_ ∷ region) = Option.map (◌∷◌ b) (overlay bs region)

pub overlay_full : (bs region : Bytes) → length region ≡ length bs → overlay bs region ≡ some bs
unfolding overlay
overlay_full [] [] h = refl
overlay_full [] (r ∷ region) h = absurd (omega arith)
overlay_full (b ∷ bs) [] h = absurd (omega arith)
overlay_full (b ∷ bs) (r ∷ region) h = rw (overlay_full bs region (omega arith))

pub overlay_short : (bs region : Bytes) → length region < length bs → overlay bs region ≡ none
unfolding overlay
overlay_short [] region h = absurd (omega arith)
overlay_short (b ∷ bs) [] h = refl
overlay_short (b ∷ bs) (r ∷ region) h = rw (overlay_short bs region (omega arith))

-- `region[i] = v`; `none` outside the region.
unfoldable pub set_at : Bytes → ℕ → ℕ → Option Bytes
set_at [] i v = none
set_at (_ ∷ region) zero v = some (v ∷ region)
set_at (b ∷ region) (suc i) v = Option.map (◌∷◌ b) (set_at region i v)

pub set_at_outside : (region : Bytes) (i v : ℕ) → length region ≤ i → set_at region i v ≡ none
unfolding set_at
set_at_outside [] i v h = refl
set_at_outside (b ∷ region) zero v h = absurd (omega arith)
set_at_outside (b ∷ region) (suc i) v h = rw (set_at_outside region i v (omega arith))
