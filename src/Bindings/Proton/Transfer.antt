-- ===== src/Bindings/Proton/Transfer.antt =====
-- Connecting, sending and receiving over the Qpid Proton messenger: proton-wrapper.c of
-- src/api/qpid-proton. A context is the state of the messenger, the handlers, and the counters of
-- `proton_receive`, which are static variables.
use msg_perf_tool.Base.{
  ℕ, zero, suc, ◌+◌, ◌==◌, ltb, if◌then◌else◌, Bool, true, false, ◌&&◌, Option, none, some, List,
  length, take, Bytes, overlay, Outcome, done, fault, ◌>>=◌, checked,
}
use msg_perf_tool.Content.{Content}
use msg_perf_tool.Vmsl.{vmsl_error, vmsl_success, vmsl_no_data, vmsl_no_timestamp}
use msg_perf_tool.Handlers.{Callback, run}
use msg_perf_tool.Bindings.{Options, Variants, Room, takes_latency, run_on}
use msg_perf_tool.Bindings.Proton.{
  Envelope, Mail, Messenger, Functions, Addressed, Link, Parameters, Entry, set_default_parameters,
  set_user_parameters, on_message, on_messenger, on_connect,
}

-- The number of messages that are settled together, and of those that are asked for.
abbrev pub window : ℕ
window = 10

abbrev pub limit : ℕ
limit = 1024

-- What `proton_receive` keeps: the messenger, and its counters.
pub record Receiver (S : Type 0) : Type 0 where
  pub messenger : S
  pub cur : ℕ
  pub last_ack : ℕ

-- The result of a receive, what it keeps, the buffer, and the time of the message, where it is set.
pub record Reception (S : Type 0) : Type 0 where
  pub stat : ℕ
  pub receiver : Receiver S
  pub content : Content
  pub created : Option ℕ

-- The handlers of a receive.
pub record Hooks : Type 0 where
  pub before_receive : List (Option Callback)
  pub after_receive : List (Option Callback)
  pub finalize_receive : List (Option Callback)

-- `pn_bytes`: as many bytes of the buffer as its size says.
unfoldable pub body_of : Content → Outcome Bytes
body_of data_ = do
  region ← checked data_.bytes
  if ltb (length region) data_.size then fault else done (take data_.size region)

-- The wait of `proton_stop`: the number of the times that it looks, given what it sees.
unfoldable pub stop_waits : (ℕ → Bool) → ℕ → ℕ → ℕ
stop_waits stopped zero i = i
stop_waits stopped (suc k) i =
    let rest = stop_waits stopped k (suc i) in if stopped i then i else rest

-- Whether a message ends a batch, and the counters go back.
abbrev pub ends_batch : {S : Type 0} → ℕ → Receiver S → Bool
ends_batch nmsgs r = if r.last_ack + window == r.cur then true else nmsgs == 1

module _ {S : Type 0} (pn : Messenger S) (v : Variants) (d : Addressed) (f : Functions S) where
  -- `proton_init`, given whether there is memory for the two contexts.
  unfoldable pub init : Room → Bool → Bool → Options → List Entry → Parameters → Bool × Parameters
  unfolding set_default_parameters set_user_parameters
  init room allocated context opt query p =
      if allocated && context
      then (
        true,
        set_user_parameters pn v d f room opt 1 query (set_default_parameters pn v d f room opt p),
      )
      else (false, p)

  -- `proton_start`, given whether the address can be formatted.
  unfoldable pub start :
      Room → Bool → List (Option Callback) → List (Option Callback) → Link S → Outcome (ℕ × Link S)
  unfolding on_connect run_on run
  start room formatted before_connect after_connect link = do
    link ← run_on (on_connect pn v d f room) before_connect link
    let (err, s) = pn.started link.messenger
    let link : Link S = record link { messenger = s }
    if err
        then done (vmsl_error, link)
        else if formatted
        then (run after_connect >>= λ _. done (vmsl_success, link))
        else done (vmsl_error, link)

  -- `proton_do_send`
  unfoldable pub do_send : Envelope → S → ℕ × S
  do_send msg s =
      let s = pn.put msg s in
      let sent = pn.send s in
      if pn.failed s
      then (vmsl_error, s)
      else if pn.failed sent
      then (vmsl_error, sent)
      else (vmsl_success, sent)

  -- `proton_send`, given what `pn_message` returns, what `rand` returns, and the time.
  unfoldable pub send :
      Envelope
      → ℕ
      → Option ℕ
      → List (Option Callback)
      → List (Option Callback)
      → Content
      → S
      → Outcome (ℕ × S)
  unfolding do_send body_of on_message on_messenger run_on
  send fresh rand now before_send after_send data_ s = do
    body ← body_of data_
    msg ← run_on (on_message pn v d f rand) before_send (record fresh { body = body })
    let (stat, s) = do_send (record msg { created = now }) s
    if stat == vmsl_error
        then done (stat, s)
        else (run_on (on_messenger pn v d f) after_send s >>= λ s. done (vmsl_success, s))

  -- `proton_subscribe`
  unfoldable pub subscribe : S → ℕ × S
  subscribe s =
      let s = pn.subscribe s in
      let (refused, s') = pn.recv 1 (pn.unblock window s) in
      if pn.failed s
      then (vmsl_error, s)
      else if refused && pn.failed s'
      then (vmsl_error, s')
      else (vmsl_success, s')

  -- `proton_do_receive`: whether it succeeds, the message, the messenger and the buffer. Formatting the
  -- body does not touch the messenger, so the look at it afterwards sees what the first one saw.
  unfoldable pub do_receive : Content → S → Outcome (Bool × Mail × S × Content)
  do_receive c s =
      let (mail, s) = pn.get s in
      let stored : Outcome (Bool × Mail × S × Content) = (do
        region ← checked c.bytes
        region ← checked (overlay (pn.format mail c.capacity) region)
        done (
          true,
          mail,
          s,
          record c { bytes = some region; size = pn.formatted mail c.capacity },
        )) in
      if pn.failed s then done (false, mail, s, c) else stored

  -- The settlement at the end of `proton_receive`, after the counter has gone up.
  unfoldable pub conclude : Hooks → ℕ → Receiver S → Outcome (Receiver S)
  unfolding on_messenger run_on
  conclude h nmsgs r =
      let settled : Outcome (Receiver S) =
        run_on (on_messenger pn v d f) h.finalize_receive r.messenger >>= λ s.
        done (record { messenger = s; cur = 0; last_ack = 0 }) in
      if ends_batch nmsgs r then settled else done r

  -- `proton_receive` with a message there: `missing` is the result for a message without a time.
  unfoldable pub deliver : Options → Hooks → ℕ → Receiver S → Content → Outcome (Reception S)
  unfolding takes_latency do_receive conclude on_messenger run_on
  deliver opt h nmsgs r c = do
    s ← run_on (on_messenger pn v d f) h.before_receive r.messenger
    (got, mail, s, c) ← do_receive c s
    let taken : Receiver S = record r { messenger = s }
    let missing : Reception S = record {
      stat = vmsl_error + vmsl_no_timestamp;
      receiver = taken;
      content = c;
      created = none;
    }
    let counted : Option ℕ → Outcome (Reception S) = λ created. (do
      s ← run_on (on_messenger pn v d f) h.after_receive s
      r ← conclude h nmsgs (record taken { messenger = s; cur = r.cur + 1 })
      done (record { stat = vmsl_success; receiver = r; content = c; created = created }))
    if got
        then (if takes_latency opt
            then elim mail.created [ none ↦ done missing | some at ↦ counted (some at) ]
            else counted none)
        else done (record { stat = vmsl_error; receiver = taken; content = c; created = none })

  -- `proton_receive`
  unfoldable pub receive : Options → Hooks → Receiver S → Content → Outcome (Reception S)
  unfolding deliver
  receive opt h r c =
      let (refused, s) = pn.recv limit r.messenger in
      let nothing : ℕ → Receiver S → Outcome (Reception S) =
        λ stat r. done (record { stat = stat; receiver = r; content = c; created = none }) in
      let fetched : Outcome (Reception S) =
        if refused
        then nothing (if pn.failed s then vmsl_error else vmsl_success + vmsl_no_data)
            (record r { messenger = s })
        else if pn.incoming s == 0
        then nothing (vmsl_success + vmsl_no_data) (record { messenger = s; cur = 0; last_ack = 0 })
        else deliver opt h (pn.incoming s) (record { messenger = s; cur = 0; last_ack = 0 }) c in
      if pn.incoming r.messenger == 0 then fetched else deliver opt h (pn.incoming r.messenger) r c
