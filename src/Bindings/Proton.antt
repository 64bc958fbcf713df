-- ===== src/Bindings/Proton.antt =====
-- The binding to the Qpid Proton messenger, src/api/qpid-proton: the handlers of proton-handlers.c,
-- which set up a message and a connection. The messenger is a parameter: its operations are functions
-- of its state. `Transfer` has proton-wrapper.c.
pub mod Transfer
pub mod Holding
pub mod Settling
pub mod Modes
use msg_perf_tool.Base.{
  ℕ, suc, ◌+◌, ◌%◌, ◌^◌, ◌==◌, if◌then◌else◌, Bool, true, false, ◌||◌, Option, none, some, List, [],
  ◌∷◌, ◌++◌, Bytes,
}
use msg_perf_tool.Handlers.{Callback}
use msg_perf_tool.Bindings.{Options, Kind, integer, Variants, Keypair, Room, add_at}
use msg_perf_tool.Bindings.Paho.{
  at_most_once, at_least_once, exactly_once, is_integer, name_qos_mode,
}

-- A message that is sent: the members that the program sets. `created` is `none` where the time cannot
-- be read.
pub record Envelope : Type 0 where
  pub body : Bytes
  pub content_type : Bytes
  pub properties : List (Bytes × Bytes)
  pub ttl : ℕ
  pub durable : Bool
  pub priority : ℕ
  pub created : Option ℕ

-- A message that has arrived; `created` is `none` where its creation time is not positive.
pub record Mail : Type 0 where
  pub body : Bytes
  pub created : Option ℕ

pub data SettleMode : Type 0 where
  sender_settled : SettleMode
  sender_unsettled : SettleMode
  receiver_first : SettleMode
  receiver_second : SettleMode

-- The operations of `pn_messenger_t` on its state. `recv` tells whether its result is not 0, `format` is
-- what `pn_data_format` writes of a body into a buffer of a size, and `formatted` the size that it
-- leaves; `accept` stands for the two calls that accept and settle all that came in, `settle` for the
-- call that settles the last message that went out.
pub record Messenger (S : Type 0) : Type 0 where
  pub started : S → Bool × S
  pub failed : S → Bool
  pub subscribe : S → S
  pub unblock : ℕ → S → S
  pub set_mode : SettleMode → S → S
  pub set_window : ℕ → S → S
  pub put : Envelope → S → S
  pub send : S → S
  pub settle : S → S
  pub incoming : S → ℕ
  pub recv : ℕ → S → Bool × S
  pub get : S → Mail × S
  pub accept : S → S
  pub format : Mail → ℕ → Bytes
  pub formatted : Mail → ℕ → ℕ

-- The addresses of the functions, and what other functions do that a list may hold.
pub record Functions (S : Type 0) : Type 0 where
  pub qos_mode_send : ℕ
  pub qos_mode_recv : ℕ
  pub content_type : ℕ
  pub properties : ℕ
  pub ttl : ℕ
  pub durable : ℕ
  pub priority : ℕ
  pub commit : ℕ
  pub accept : ℕ
  pub other_message : Callback → Envelope → Envelope
  pub other : Callback → S → S

-- What stands at the address of a payload: a text, and a list of properties.
pub record Addressed : Type 0 where
  pub text : ℕ → Bytes
  pub list : ℕ → List (Bytes × Bytes)

-- What the handlers of a connection change: the messenger, and the handlers of what follows.
pub record Link (S : Type 0) : Type 0 where
  pub messenger : S
  pub after_send : List (Option Callback)
  pub finalize_receive : List (Option Callback)

-- The lists and the properties that the parameters of an address fill.
pub record Parameters : Type 0 where
  pub before_connect : List (Option Callback)
  pub before_send : List (Option Callback)
  pub properties : List (Bytes × Bytes)

-- An entry of the query with the address of the text of its value, the properties that are read in it,
-- and the address of their list.
pub record Entry : Type 0 where
  pub keypair : Keypair
  pub value : ℕ
  pub read : List (Bytes × Bytes)
  pub list : ℕ

-- "text/plain"
abbrev pub plain_text : Bytes
plain_text = b't' ∷ b'e' ∷ b'x' ∷ b't' ∷ b'/' ∷ b'p' ∷ b'l' ∷ b'a' ∷ b'i' ∷ b'n' ∷ []

abbrev pub name_content_type : Bytes
name_content_type =
    b'c' ∷ b'o' ∷ b'n' ∷ b't' ∷ b'e' ∷ b'n' ∷ b't' ∷ b'-' ∷ b't' ∷ b'y' ∷ b'p' ∷ b'e' ∷ []

abbrev pub name_application_properties : Bytes
name_application_properties =
    b'a' ∷ b'p' ∷ b'p' ∷ b'l' ∷ b'i' ∷ b'c' ∷ b'a' ∷ b't' ∷ b'i' ∷ b'o' ∷ b'n' ∷ b'-' ∷ b'p' ∷ b'r'
    ∷ b'o' ∷ b'p' ∷ b'e' ∷ b'r' ∷ b't' ∷ b'i' ∷ b'e' ∷ b's' ∷ []

abbrev pub name_ttl : Bytes
name_ttl = b't' ∷ b't' ∷ b'l' ∷ []

abbrev pub name_durable : Bytes
name_durable = b'd' ∷ b'u' ∷ b'r' ∷ b'a' ∷ b'b' ∷ b'l' ∷ b'e' ∷ []

abbrev pub name_priority : Bytes
name_priority = b'p' ∷ b'r' ∷ b'i' ∷ b'o' ∷ b'r' ∷ b'i' ∷ b't' ∷ b'y' ∷ []

module _ {S : Type 0} (pn : Messenger S) (v : Variants) (d : Addressed) (f : Functions S) where
  -- `proton_set_content_type`
  unfoldable pub set_content_type : ℕ → Envelope → Envelope
  set_content_type payload msg = record msg {
    content_type = if payload == 0 then plain_text else d.text payload;
  }

  -- `proton_set_properties`
  unfoldable pub set_properties : ℕ → Envelope → Envelope
  set_properties payload msg = record msg { properties = msg.properties ++ d.list payload }

  -- `proton_set_ttl`
  unfoldable pub set_ttl : ℕ → Envelope → Envelope
  set_ttl payload msg = record msg {
    ttl = if payload == 0 then 5000 else v.inumber payload % 2 ^ 32;
  }

  -- `proton_set_durable`
  unfoldable pub set_durable : ℕ → Envelope → Envelope
  set_durable payload msg = record msg { durable = if payload == 0 then false else v.flag payload }

  -- `proton_set_priority`, given what `rand` returns.
  unfoldable pub set_priority : ℕ → ℕ → Envelope → Envelope
  set_priority rand payload msg = record msg {
    priority = if is_integer (v.kind payload) then v.inumber payload % 256 else rand % 9;
  }

  -- A handler of a message, by its address.
  unfoldable pub on_message : ℕ → Callback → Envelope → Envelope
  unfolding set_content_type set_properties set_ttl set_durable set_priority
  on_message rand c msg =
      if c.call == f.content_type
      then set_content_type c.payload msg
      else if c.call == f.properties
      then set_properties c.payload msg
      else if c.call == f.ttl
      then set_ttl c.payload msg
      else if c.call == f.durable
      then set_durable c.payload msg
      else if c.call == f.priority
      then set_priority rand c.payload msg
      else f.other_message c msg

  -- `proton_commit` and `proton_accept`, by their addresses.
  unfoldable pub on_messenger : Callback → S → S
  on_messenger c s =
      if c.call == f.commit
      then pn.settle s
      else if c.call == f.accept
      then pn.accept s
      else f.other c s

  module _ (room : Room) where
    -- `proton_set_qos_mode_send`
    unfoldable pub set_qos_mode_send : ℕ → Link S → Link S
    unfolding add_at
    set_qos_mode_send payload link =
        if payload == 0 || v.equals payload at_most_once
        then record link { messenger = pn.set_mode sender_settled link.messenger }
        else record link {
          messenger = pn.set_mode sender_unsettled (pn.set_window 1 link.messenger);
          after_send = add_at room 0 f.commit 0 link.after_send;
        }

    -- The end of `proton_set_qos_mode_recv`: the modes that are named.
    unfoldable pub set_receiver_mode : ℕ → Link S → Link S
    set_receiver_mode payload link =
        if v.equals payload at_least_once
        then record link { messenger = pn.set_mode receiver_first link.messenger }
        else if v.equals payload exactly_once
        then record link { messenger = pn.set_mode receiver_second link.messenger }
        else link

    -- `proton_set_qos_mode_recv`; a null payload goes on to the tests of the text.
    unfoldable pub set_qos_mode_recv : ℕ → Link S → Link S
    unfolding add_at set_receiver_mode
    set_qos_mode_recv payload link = set_receiver_mode payload (
        if payload == 0 || v.equals payload at_most_once
        then record link { finalize_receive = add_at room 0 f.accept 0 link.finalize_receive }
        else link)

    -- A handler of a connection, by its address.
    unfoldable pub on_connect : Callback → Link S → Link S
    unfolding set_qos_mode_send set_qos_mode_recv
    on_connect c link =
        if c.call == f.qos_mode_send
        then set_qos_mode_send c.payload link
        else if c.call == f.qos_mode_recv
        then set_qos_mode_recv c.payload link
        else record link { messenger = f.other c link.messenger }

    -- `proton_set_default_parameters`; the defaults are null pointers.
    unfoldable pub set_default_parameters : Options → Parameters → Parameters
    unfolding add_at
    set_default_parameters opt p = record p {
      before_connect =
          add_at room 0 (if opt.sends then f.qos_mode_send else f.qos_mode_recv) 0 p.before_connect;
      before_send =
          add_at room 0 f.content_type 0
            (add_at room 0 f.durable 0 (add_at room 0 f.ttl 0 p.before_send));
    }

    -- `proton_set_parameter_by_name` for the `n`-th entry, given the address of the text of its value,
    -- the properties that are read in it, and the address of their list.
    unfoldable pub set_parameter_by_name :
        Options → ℕ → List (Bytes × Bytes) → ℕ → ℕ → Keypair → Parameters → Parameters
    unfolding add_at
    set_parameter_by_name opt value read list n kp p =
        let put = λ (name : Bytes) (call payload : ℕ) (l : List (Option Callback)).
          if kp.key_equals name then add_at room n call payload l else l in
        record {
          before_connect =
              put name_qos_mode (if opt.sends then f.qos_mode_send else f.qos_mode_recv) kp.pair
                p.before_connect;
          before_send = put name_priority f.priority kp.pair (
              put name_durable f.durable kp.pair (
                put name_ttl f.ttl kp.pair (
                  put name_application_properties f.properties list
                    (put name_content_type f.content_type value p.before_send))));
          properties =
              if kp.key_equals name_application_properties
              then p.properties ++ read
              else p.properties;
        }

    -- `proton_set_user_parameters` on the entries of the query, from the `n`-th on.
    unfoldable pub set_user_parameters : Options → ℕ → List Entry → Parameters → Parameters
    unfolding set_parameter_by_name
    set_user_parameters opt n [] p = p
    set_user_parameters opt n (e ∷ es) p =
        set_user_parameters opt (suc n) es
          (set_parameter_by_name opt e.value e.read e.list n e.keypair p)
