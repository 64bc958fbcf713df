-- ===== src/Bindings/Paho/Receiving.antt =====
-- The buffer after `paho_receive`, and what one binding's `paho_send` brings into another's buffer.
use msg_perf_tool.Base.{
  ℕ, ◌≤◌, ◌<◌, ◌^◌, ◌≡◌, ◌⊎◌, refl, ap, ◌∙◌, ltb, Bool-cases, inl, inr, false, none, some, List,
  length, Bytes, done, ◌>>=◌, arith,
}
use msg_perf_tool.Content.{Content, IsValid}
use msg_perf_tool.Vmsl.{vmsl_success}
use msg_perf_tool.Handlers.{Callback}
use msg_perf_tool.Handlers.Lists.{pointers, run-pointers}
use msg_perf_tool.Maestro.Msgpack.{Msgpack}
use msg_perf_tool.Maestro.Assign.{Memory}
use msg_perf_tool.Maestro.Deserialize.{input_of}
use msg_perf_tool.Bindings.{Options, takes_latency}
use msg_perf_tool.Bindings.Paho.Transfer.{received, store, time_of, take_message, receive}
use msg_perf_tool.Bindings.Paho.Storing.{store-fits, store-oversized}

module _ (m : Msgpack) (mem : Memory) (read_time : Bytes → ℕ) (opt : Options)
    (before after : List Callback) (plain : takes_latency opt ≡ false) where
  receive_lem :
      (payload : Bytes) (c : Content)
      → receive read_time opt (pointers before) (pointers after) (received (some payload)) c ≡ (
          store payload c >>= λ c.
          done (record { stat = vmsl_success; content = c; created = none }))
  unfolding receive take_message time_of
  receive_lem payload c = rw (run-pointers before, run-pointers after, plain) refl

  -- A message that fits the buffer.
  pub receive-fits :
      (payload : Bytes) (c : Content)
      → IsValid c
      → length payload ≤ c.capacity
      → (c' : Content) × (receive read_time opt
            (pointers before)
            (pointers after)
            (received (some payload))
            c
          ≡ done (record { stat = vmsl_success; content = c'; created = none }))
        × (c'.capacity ≡ c.capacity)
        × IsValid c'
        × (input_of m mem c' ≡ payload)
  receive-fits payload c v h =
      let (c', e, w, cap, holds) = store-fits m mem payload c v h in
      (
        c',
        receive_lem payload c
            ∙ ap
                (λ o. o >>= λ c. done (record { stat = vmsl_success; content = c; created = none }))
                e,
        cap,
        w,
        holds,
      )

  -- Without the latency, `paho_receive` of a message into a valid buffer with room succeeds; either the
  -- message fits the buffer, which stays valid and holds it, or it does not, and the size that is
  -- left lies behind the buffer's end.
  pub receive-IsValid :
      (payload : Bytes) (c : Content)
      → IsValid c
      → 0 < c.capacity
      → c.capacity < 2 ^ 64
      → (c' : Content) × (receive read_time opt
            (pointers before)
            (pointers after)
            (received (some payload))
            c
          ≡ done (record { stat = vmsl_success; content = c'; created = none }))
        × (c'.capacity ≡ c.capacity)
        × (((length payload ≤ c.capacity) × IsValid c' × (input_of m mem c' ≡ payload))
            ⊎ ((c.capacity < length payload) × (c'.capacity < c'.size)))
  receive-IsValid payload c v some_room small =
      elim (Bool-cases (ltb c.capacity (length payload))) [
        | inl long ↦
            let (c', e, cap, size) = store-oversized payload c v some_room (ground arith) small in
            (
              c',
              receive_lem payload c
                  ∙ ap
                      (λ o. o >>= λ c.
                        done (record { stat = vmsl_success; content = c; created = none }))
                      e,
              cap,
              inr (ground arith, ground (arith, cap, size)),
            )
        | inr short ↦
            let h : length payload ≤ c.capacity = ground arith in
            let (c', e, cap, w, holds) = receive-fits payload c v h in
            (c', e, cap, inl (h, w, holds))
      ]
