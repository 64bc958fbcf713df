-- ===== src/Bindings/Paho/Latency.antt =====
-- What `paho_send` with the latency makes of the messages of the payload strategies.
use msg_perf_tool.Base.{
  ℕ, zero, suc, ◌+◌, ◌%◌, ◌≤◌, ◌^◌, ◌≡◌, ◌≢◌, refl, ap, ◌<◌, inr, ◌∙◌, ltb, ne→==, true, false,
  Option, none, some, List, [], ◌∷◌, replicate, Bytes, fault, ◌>>=◌, arith,
}
use msg_perf_tool.Content.{Content}
use msg_perf_tool.Content.Random.{AllAlphanumeric, Allocates}
use msg_perf_tool.Strategy.{
  Variable, variable_bounds, variable_init, variable_load, fixed_init, fixed_load,
}
use msg_perf_tool.Strategy.Sizes.{
  variable_init-filled, variable_load-bounds, fixed_init-filled, spread_bounds,
}
use msg_perf_tool.Handlers.{Callback}
use msg_perf_tool.Bindings.{Options, Variants, takes_latency}
use msg_perf_tool.Bindings.Paho.{Setters}
use msg_perf_tool.Bindings.Paho.Transfer.{
  Transport, int_max, ts_size, text_of, serialize_latency_info, send,
}

text_of-alphanumeric : (bs : Bytes) → AllAlphanumeric bs → text_of bs ≡ none
unfolding text_of
text_of-alphanumeric [] h = refl
text_of-alphanumeric (b ∷ bs) (h, all) =
    let apart : b ≢ 0 = ground arith in rw (ne→== b 0 apart, text_of-alphanumeric bs all) refl

replicate-AllAlphanumeric : (n : ℕ) → AllAlphanumeric (replicate n b'd')
replicate-AllAlphanumeric zero = tt
replicate-AllAlphanumeric (suc n) = (inr (inr (omega arith)), replicate-AllAlphanumeric n)

variable_load-bytes :
    (b : Variable) (next : ℕ) (c : Content) → (variable_load b next c).0.bytes ≡ c.bytes
unfolding variable_load
variable_load-bytes b next c = refl

module _ (v : Variants) (a : Setters) (t : Transport) (opt : Options)
    (before after : List (Option Callback)) (on : takes_latency opt ≡ true) where
  send-alphanumeric :
      (c : Content) (text : Bytes)
      → c.bytes ≡ some text
      → AllAlphanumeric text
      → c.size + ts_size ≤ int_max
      → send v a t opt before after c ≡ fault
  unfolding send serialize_latency_info
  send-alphanumeric c text there all small =
      let fits : ltb int_max ((c.size + ts_size) % 2 ^ 64) ≡ false = ground arith in
      rw (on, fits, there, text_of-alphanumeric text all) refl

  fixed-unterminated :
      (alloc : ℕ → Option Bytes) (size : ℕ) (c : Content)
      → Allocates alloc
      → 0 < size
      → size ≤ 2 ^ 29
      → (fixed_init alloc c size >>= λ (n, filled, ok).
          send v a t opt before after (fixed_load n filled).0)
        ≡ fault
  unfolding fixed_load
  fixed-unterminated alloc zero c allocs p small = absurd (omega arith)
  fixed-unterminated alloc (suc k) c allocs p small =
      let text : Bytes = replicate (suc k) b'd' in
      ap (λ o. o >>= λ (n, filled, ok). send v a t opt before after (fixed_load n filled).0)
        (fixed_init-filled alloc c k allocs (omega arith))
      ∙ send-alphanumeric (record { bytes = some text; capacity = suc k; size = suc k }) text refl
          (replicate-AllAlphanumeric (suc k)) (omega arith)

  variable-unterminated :
      (alloc : ℕ → Option Bytes) (rand : ℕ → ℕ) (size next : ℕ) (c : Content)
      → Allocates alloc
      → 0 < size
      → size ≤ 2 ^ 29
      → (variable_init alloc rand c size >>= λ (b, filled, ok).
          send v a t opt before after (variable_load b next filled).0)
        ≡ fault
  variable-unterminated alloc rand size next c allocs p small =
      let (filled, text, there, all, fits, e) =
        variable_init-filled alloc rand c size allocs p (omega arith) in
      let (_, _, high) = variable_load-bounds size next filled p (omega arith) fits in
      let bounded = (spread_bounds size p).1 in
      ap (λ o. o >>= λ (b, filled, ok). send v a t opt before after (variable_load b next filled).0)
        e
      ∙ send-alphanumeric (variable_load (variable_bounds size) next filled).0 text
          (variable_load-bytes (variable_bounds size) next filled ∙ there) all
          (omega (arith, high, bounded))

  -- Where the statistics take the latency and there is memory for the message: for any size from 1 to
  -- 2 ^ 29, `paho_send` of a message that either of the payload strategies has set up and loaded reads
  -- past the end of the message's buffer, whatever the library and the handlers do.
  pub load-send-unterminated :
      (alloc : ℕ → Option Bytes) (rand : ℕ → ℕ) (size next : ℕ) (c : Content)
      → Allocates alloc
      → 0 < size
      → size ≤ 2 ^ 29
      → ((fixed_init alloc c size >>= λ (n, filled, ok).
            send v a t opt before after (fixed_load n filled).0)
          ≡ fault)
        × ((variable_init alloc rand c size >>= λ (b, filled, ok).
              send v a t opt before after (variable_load b next filled).0)
            ≡ fault)
  load-send-unterminated alloc rand size next c allocs p small = (
    fixed-unterminated alloc size c allocs p small,
    variable-unterminated alloc rand size next c allocs p small,
  )
