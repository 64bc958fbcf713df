-- ===== src/Bindings.antt =====
-- What the bindings of src/api share: the options of msgctxt.h, the values of the gru library that
-- stand behind an address, and a run of handlers, `vmslh_run` of src/common/vmslh.c, whose functions
-- change what they are given.
pub mod Paho
pub mod Proton
pub mod Stomp
use Prim.Native.Nat.{bit_and}
use msg_perf_tool.Base.{
  ℕ, ◌==◌, if◌then◌else◌, Bool, not, Option, none, some, List, [], ◌∷◌, Bytes, Outcome, done, fault,
  ◌>>=◌,
}
use msg_perf_tool.Handlers.{Callback, add, run}

-- `msg_opt_t`, without the address and the identifier of the connection.
pub record Options : Type 0 where
  pub sends : Bool
  pub statistics : ℕ

-- `MSG_STAT_LATENCY`
abbrev pub stat_latency : ℕ
stat_latency = 1

-- Whether the statistics take the latency.
unfoldable pub takes_latency : Options → Bool
takes_latency o = not (bit_and o.statistics stat_latency == 0)

-- The types of `gru_variant_t`.
pub data Kind : Type 0 where
  integer : Kind
  boolean : Kind
  text : Kind
  double : Kind

-- The gru library's `gru_variant_t` at an address, and 0 for a null pointer: its type, the union read
-- as a number and as a flag, and `gru_variant_equals_str`.
pub record Variants : Type 0 where
  pub kind : ℕ → Kind
  pub inumber : ℕ → ℕ
  pub flag : ℕ → Bool
  pub equals : ℕ → Bytes → Bool

-- An entry of an address's query: `gru_keypair_key_equals`, and the address of the value.
pub record Keypair : Type 0 where
  pub key_equals : Bytes → Bool
  pub pair : ℕ

-- What `vmslh_add` gets from outside, by the entry of the query and the function that is added: memory,
-- and whether the list takes it.
pub record Room : Type 0 where
  pub memory : ℕ → ℕ → Option Callback
  pub appended : ℕ → ℕ → Bool

-- `vmslh_add`, whose result is not looked at.
unfoldable pub add_at : Room → ℕ → ℕ → ℕ → List (Option Callback) → List (Option Callback)
unfolding add
add_at room n call payload hs = (add (room.memory n call) (room.appended n call) call payload hs).0

-- The functions of a list of callbacks, one after the other.
unfoldable pub apply_all {ℓ} : {M : Type ℓ} → (Callback → M → M) → List Callback → M → M
apply_all f [] s = s
apply_all f (c ∷ cs) s = apply_all f cs (f c s)

-- `vmslh_run`
unfoldable pub run_on {ℓ} :
    {M : Type ℓ} → (Callback → M → M) → List (Option Callback) → M → Outcome M
unfolding run apply_all
run_on f hs s = run hs >>= λ cs. done (apply_all f cs s)
