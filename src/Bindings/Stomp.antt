-- ===== src/Bindings/Stomp.antt =====
-- The binding to LiteStomp, src/api/litestomp/stomp-wrapper.c. What the library returns is an argument;
-- what is given to its `stomp_send`, and the callbacks that are called, are results.
pub mod Unread
use msg_perf_tool.Base.{
  ℕ, ◌+◌, ◌==◌, ltb, if◌then◌else◌, Bool, true, false, ◌&&◌, Option, none, some, List, [], ◌∷◌,
  ◌++◌, length, take, Bytes, Outcome, done, fault, ◌>>=◌,
}
use msg_perf_tool.Content.{Content}
use msg_perf_tool.Vmsl.{vmsl_error, vmsl_success, vmsl_no_data}
use msg_perf_tool.Handlers.{Callback, run}
use msg_perf_tool.Bindings.{Options, takes_latency}
use msg_perf_tool.Bindings.Proton.Transfer.{body_of}

-- What `litestomp_init` gets from outside: memory for the two contexts, the address as a text, the
-- messenger, and whether it takes the address.
pub record Setup : Type 0 where
  pub allocated : Bool
  pub context : Bool
  pub formatted : Bool
  pub messenger : Bool
  pub endpoint : Bool

-- `litestomp_init`: whether there is a context.
unfoldable pub init : Setup → Bool
init s = s.allocated && s.context && s.formatted && s.messenger && s.endpoint

-- `if (handlers) vmslh_run(...)`: the callbacks that are called.
unfoldable pub run_if : Option (List (Option Callback)) → Outcome (List Callback)
unfolding run
run_if none = done []
run_if (some hs) = run hs

-- `litestomp_start`
unfoldable pub start :
    Bool
    → Option (List (Option Callback))
    → Option (List (Option Callback))
    → Outcome (ℕ × List Callback)
unfolding run_if
start connected before_connect after_connect = do
  before ← run_if before_connect
  if connected
      then (run_if after_connect >>= λ after. done (vmsl_success, before ++ after))
      else done (vmsl_error, before)

-- What `litestomp_send` gets from outside: whether a message can be made, its time set, and the message
-- sent.
pub record Sending : Type 0 where
  pub made : Bool
  pub timed : Bool
  pub taken : Bytes → Bool

-- `litestomp_send`: its result, and what is given to `stomp_send`.
unfoldable pub send :
    Sending
    → Option (List (Option Callback))
    → Option (List (Option Callback))
    → Content
    → Outcome (ℕ × List Bytes)
unfolding run_if body_of
send t before_send after_send data_ =
    let formatted : Outcome (ℕ × List Bytes) = (do
      body ← body_of data_
      _ ← run_if before_send
      let kept : Outcome (ℕ × List Bytes) =
          run_if after_send >>= λ _. done (vmsl_success, body ∷ [])
      if t.taken body then kept else done (vmsl_error, body ∷ [])) in
    if t.made && t.timed then formatted else done (vmsl_error, [])

-- `litestomp_subscribe`
unfoldable pub subscribe : Bool → ℕ
subscribe subscribed = if subscribed then vmsl_success else vmsl_error

-- What `stomp_receive` returns; a message with its body.
pub data Receipt : Type 0 where
  refused : Receipt
  nothing : Receipt
  arrived : Bytes → Receipt

-- The result of a receive, the buffer, the time of the message, and the callbacks that were called.
pub record Reception : Type 0 where
  pub stat : ℕ
  pub content : Content
  pub created : Option ℕ
  pub called : List Callback

-- `litestomp_receive`, given whether a message can be made and the time that the library holds. The
-- handlers that stand before a receive are called again behind it.
unfoldable pub receive :
    Options → Bool → ℕ → Option (List (Option Callback)) → Receipt → Content → Outcome Reception
unfolding takes_latency run_if
receive opt made ctime before_receive r c =
    let reception : ℕ → List Callback → Reception =
      λ stat called. record { stat = stat; content = c; created = none; called = called } in
    let received : Outcome Reception =
      (run_if before_receive >>= λ before. elim r [
        | refused ↦ done (reception vmsl_error before)
        | nothing ↦ done (reception (vmsl_success + vmsl_no_data) before)
        | arrived body ↦ (do
          again ← run_if before_receive
          done (record {
            stat = vmsl_success;
            content = c;
            created = if takes_latency opt then some ctime else none;
            called = before ++ again;
          }))
      ]) in
    if made then received else done (reception vmsl_error [])
