-- ===== src/Examples/Messengers.antt =====
-- The bindings to AMQP and STOMP at concrete messages.
use msg_perf_tool.Base.{
  ℕ, ◌+◌, ◌-◌, ◌<◌, ◌≡◌, ◌⊎◌, inl, refl, true, false, some, List, [], ◌∷◌, done, arith,
}
use msg_perf_tool.Content
use msg_perf_tool.Content.{Content, IsValid}
use msg_perf_tool.Vmsl.{stat_error, vmsl_success}
use msg_perf_tool.Handlers.{Callback}
use msg_perf_tool.Handlers.Lists.{pointers}
use msg_perf_tool.Maestro.Player.{handle}
use msg_perf_tool.Bindings.Proton.{Mail, Messenger, Functions, Addressed, Link}
use msg_perf_tool.Bindings.Proton.Transfer.{window, Receiver, Reception, receive, start}
use msg_perf_tool.Bindings.Proton.Holding.{IsLawful}
use msg_perf_tool.Bindings.Proton.Settling.{IsSettling, hooks, receive-IsSettling}
use msg_perf_tool.Bindings.Proton.Modes.{bare, moded, start-modes}
use msg_perf_tool.Bindings.Stomp
use msg_perf_tool.Bindings.Stomp.{arrived}
use msg_perf_tool.Bindings.Stomp.Unread.{arrived-unread}
use msg_perf_tool.Examples.Codec.{codec, codec-IsLawful, blank, ample-Allocates, next}
use msg_perf_tool.Examples.Players.{info, resources, duplicate-Copies, sender_of-IsSender}
use msg_perf_tool.Examples.Daemons.{sheet, daemon}
use msg_perf_tool.Examples.Failures.{old}
use msg_perf_tool.Examples.Transports.{plain, values, room, room-HasPlaces, small, small-IsValid}

-- The messages that wait and those that are held.
pub record Queue : Type 0 where
  pub waiting : ℕ
  pub held : ℕ

abbrev mail : Mail
mail = record { body = 1 ∷ 2 ∷ []; created = some 5 }

abbrev messenger : Messenger Queue
messenger = record {
  started = λ s. (false, s);
  failed = λ s. false;
  subscribe = λ s. s;
  unblock = λ n s. s;
  set_mode = λ mode s. s;
  set_window = λ n s. s;
  put = λ msg s. s;
  send = λ s. s;
  settle = λ s. s;
  incoming = λ s. s.waiting;
  recv = λ n s. (false, s);
  get = λ s. (mail, record { waiting = s.waiting - 1; held = s.held + 1 });
  accept = λ s. record s { held = 0 };
  format = λ mail n. [];
  formatted = λ mail n. 0;
}

abbrev functions : Functions Queue
functions = record {
  qos_mode_send = 20;
  qos_mode_recv = 21;
  content_type = 22;
  properties = 23;
  ttl = 24;
  durable = 25;
  priority = 26;
  commit = 27;
  accept = 28;
  other_message = λ c msg. msg;
  other = λ c s. s;
}

abbrev addressed : Addressed
addressed = record { text = λ n. []; list = λ n. [] }

abbrev held_of : Queue → ℕ
held_of s = s.held

messenger-IsLawful : IsLawful messenger functions held_of
messenger-IsLawful = record {
  get_incoming = λ s. refl;
  get_held = λ s. omega arith;
  accept_incoming = λ s. refl;
  accept_held = λ s. refl;
  settle_incoming = λ s. refl;
  settle_held = λ s. refl;
  recv_held = λ n s. refl;
  other_incoming = λ c s. refl;
  other_held = λ c s. refl;
  distinct = omega arith;
}

abbrev ninth : Receiver Queue
ninth = record { messenger = record { waiting = 4; held = 9 }; cur = 9; last_ack = 0 }

ninth-IsSettling : IsSettling messenger values addressed functions held_of messenger-IsLawful ninth
ninth-IsSettling = record {
  base = refl;
  below = omega arith;
  counted = omega arith;
  drained = λ h. absurd (omega arith);
}

abbrev accepting : List Callback
accepting = bare 28 ∷ []

receive-IsSettling_example :
    (x : Reception Queue) × (receive messenger values addressed functions plain
        (hooks messenger values addressed functions held_of messenger-IsLawful [] [] accepting
          (inl refl))
        ninth
        small
      ≡ done x)
    × IsValid x.content
    × ((stat_error x.stat ≡ true)
        ⊎ (IsSettling messenger values addressed functions held_of messenger-IsLawful x.receiver
            × (x.receiver.messenger.held < window)))
receive-IsSettling_example =
    receive-IsSettling messenger values addressed functions held_of messenger-IsLawful [] []
      accepting (inl refl) (λ mail n. (omega arith, omega arith)) plain ninth small ninth-IsSettling
      small-IsValid

abbrev link : Link Queue
link = record {
  messenger = record { waiting = 0; held = 0 };
  after_send = pointers [];
  finalize_receive = pointers (old ∷ []);
}

abbrev first : List Callback
first = bare 3 ∷ []

abbrev last : List Callback
last = bare 4 ∷ bare 5 ∷ []

start-modes_example :
    (receiver : Link Queue) × (sender : Link Queue) × (start messenger values addressed functions
        room true
        (pointers (moded messenger values addressed functions room room-HasPlaces first 21 0 last))
        (pointers [])
        link
      ≡ done (vmsl_success, receiver))
    × (receiver.finalize_receive ≡ pointers (old ∷ bare 28 ∷ []))
    × (receiver.after_send ≡ pointers [])
    × (start messenger values addressed functions room true
          (pointers
            (moded messenger values addressed functions room room-HasPlaces first 20 0 last))
          (pointers [])
          link
        ≡ done (vmsl_success, sender))
    × (sender.after_send ≡ pointers [])
    × (sender.finalize_receive ≡ pointers (old ∷ []))
start-modes_example =
    start-modes messenger values addressed functions room room-HasPlaces first last
      ((omega arith, tt), (omega arith, tt))
      ((omega arith, (omega arith, tt)), (omega arith, (omega arith, tt))) 0 [] (old ∷ []) [] link
      (omega arith) (λ s. refl) (omega arith, tt) tt refl refl

arrived-unread_example :
    (c : Content) × (x : Stomp.Reception) × (Content.reset small ≡ done c)
    × (Stomp.receive plain true 6 (some (pointers (old ∷ []))) (arrived (1 ∷ 2 ∷ [])) c ≡ done x)
    × (x.stat ≡ vmsl_success)
    × (x.called ≡ old ∷ old ∷ [])
    × (handle codec sheet info resources
          (record { stat = x.stat; clear = true; content = x.content })
          daemon
        ≡ done (daemon, []))
unfolding codec next
arrived-unread_example =
    arrived-unread plain 6 (old ∷ []) (1 ∷ 2 ∷ []) codec sheet info resources codec-IsLawful blank
      true daemon small refl small-IsValid refl duplicate-Copies ample-Allocates sender_of-IsSender
