-- ===== src/Vmsl.antt =====
-- The abstract messaging layer: the results of its functions, vmsl.h of src/common, and the choice of
-- a binding by the scheme of an address, src/api/vmsl_assign.c.
use Prim.Native.Nat.{bit_and}
use msg_perf_tool.Base.{
  ℕ, ◌==◌, if◌then◌else◌, Bool, true, false, Option, none, some, [], ◌∷◌, Bytes, c_string,
}

-- `vmsl_stat_t`
abbrev pub vmsl_error : ℕ
vmsl_error = 0

abbrev pub vmsl_success : ℕ
vmsl_success = 1

abbrev pub vmsl_no_data : ℕ
vmsl_no_data = 2

abbrev pub vmsl_no_timestamp : ℕ
vmsl_no_timestamp = 4

-- `vmsl_stat_error`
unfoldable pub stat_error : ℕ → Bool
stat_error stat = bit_and stat vmsl_success == 0

-- `vmsl_has_data`
unfoldable pub has_data : ℕ → Bool
has_data stat = bit_and stat vmsl_no_data == 0

-- `strncmp(s, prefix, strlen(prefix)) == 0`, up to the terminator of `s`.
unfoldable pub starts : Bytes → Bytes → Bool
starts [] s = true
starts (p ∷ ps) [] = false
starts (p ∷ ps) (c ∷ s) = let rest = starts ps s in if p == c then rest else false

-- The bindings, whose functions fill the table.
pub data Binding : Type 0 where
  proton : Binding
  litestomp : Binding
  paho : Binding

abbrev pub amqp : Bytes
amqp = b'a' ∷ b'm' ∷ b'q' ∷ b'p' ∷ []

abbrev pub stomp : Bytes
stomp = b's' ∷ b't' ∷ b'o' ∷ b'm' ∷ b'p' ∷ []

abbrev pub mqtt : Bytes
mqtt = b'm' ∷ b'q' ∷ b't' ∷ b't' ∷ []

-- The call of a binding's function; it returns false where the build left the protocol out.
unfoldable pub assigned : (Binding → Bool) → Binding → Option Binding
assigned supported b = if supported b then some b else none

-- `vmsl_assign_by_url` on the scheme of the address; `none` is the result false.
unfoldable pub assign_by_url : (Binding → Bool) → Option Bytes → Option Binding
unfolding starts assigned c_string
assign_by_url supported none = none
assign_by_url supported (some scheme) =
    let s = c_string scheme in
    if starts amqp s
    then assigned supported proton
    else if starts stomp s
    then assigned supported litestomp
    else if starts mqtt s
    then assigned supported paho
    else none
