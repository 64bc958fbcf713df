-- ===== src/Daemon/Text.antt =====
-- The numbers that the C library reads in a text: `atol`, and `atoi` as the conversion of its result
-- to 32 bits, which is what the C library of the program's hosts does.
use msg_perf_tool.Base.{
  ℕ, ◌+◌, ◌-◌, ◌*◌, ◌%◌, ◌^◌, ltb, leb, ◌==◌, if◌then◌else◌, Bool, ◌&&◌, ◌||◌, [], ◌∷◌, Bytes,
}

-- `isspace`
abbrev pub is_space : ℕ → Bool
is_space c = (c == 32) || (leb 9 c && leb c 13)

abbrev is_digit : ℕ → Bool
is_digit c = leb b'0' c && leb c b'9'

unfoldable pub skip_spaces : Bytes → Bytes
skip_spaces [] = []
skip_spaces (c ∷ cs) = if is_space c then skip_spaces cs else c ∷ cs

-- The digits up to the first other byte, after `n`.
unfoldable pub digits : ℕ → Bytes → ℕ
digits n [] = n
digits n (c ∷ cs) = if is_digit c then digits (10 * n + (c - b'0')) cs else n

abbrev pub at_most : ℕ → ℕ → ℕ
at_most limit n = if ltb limit n then limit else n

-- What follows the spaces; the result is the pattern of a `long`, at its bounds where it is too far.
unfoldable pub signed_digits : Bytes → ℕ
unfolding digits
signed_digits [] = 0
signed_digits (c ∷ cs) =
    if c == b'-'
    then (2 ^ 64 - at_most (2 ^ 63) (digits 0 cs)) % 2 ^ 64
    else at_most (2 ^ 63 - 1) (digits 0 (if c == b'+' then cs else c ∷ cs))

unfoldable pub atol : Bytes → ℕ
unfolding skip_spaces signed_digits
atol s = signed_digits (skip_spaces s)

unfoldable pub atoi : Bytes → ℕ
unfolding atol
atoi s = atol s % 2 ^ 32

-- An `int` converted to 64 bits.
abbrev pub extend_sign : ℕ → ℕ
extend_sign n = if ltb n (2 ^ 31) then n else n + (2 ^ 64 - 2 ^ 32)
