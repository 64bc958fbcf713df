-- ===== src/Examples/Prints.antt =====
-- The client that collects what waits in its queue, at concrete messages.
use msg_perf_tool.Base.{
  ℕ, zero, suc, ◌≡◌, refl, some, List, [], ◌∷◌, ◌++◌, replicate, done, fault, arith, terminated,
  c_string,
}
use msg_perf_tool.Maestro.Command
use msg_perf_tool.Maestro.Message.{Message, wire}
use msg_perf_tool.Maestro.Sheet.Answers.{sender_of}
use msg_perf_tool.Worker.Ipc.{Received, message, nothing}
use msg_perf_tool.Client.Collecting.{Inbox, answer, notice, Line, fine, said, noticed}
use msg_perf_tool.Client.Showing.{AllShown}
use msg_perf_tool.Client.Polling.{stats}
use msg_perf_tool.Client.Rounds.{idle, stats_post, IsTurn, stats-heard}
use msg_perf_tool.Examples.Threads.{link, link-IsUp}
use msg_perf_tool.Daemon.Text.{atoi}
use msg_perf_tool.Examples.Codec.{
  codec, codec-IsLawful, ample, ample-Allocates, plenty, plenty-Available, blank,
}
use msg_perf_tool.Examples.Players.{info, sender_of-IsSender}

abbrev received : List Message
received =
    Message.plain_response Command.ok (sender_of info)
    ∷ Message.notification Command.notify_fail (sender_of info) (55 ∷ [])
    ∷ []

arrive : ℕ → Received
arrive zero =
    message (wire codec (Message.plain_response Command.ok (sender_of info)) ++ replicate 8 0)
arrive (suc zero) = message (
    wire codec (Message.notification Command.notify_fail (sender_of info) (55 ∷ []))
    ++ replicate 8 0)
arrive (suc (suc n)) = nothing

abbrev inbox : Inbox
inbox = record { memory = plenty; alloc = ample; arrive = arrive; overlaid = λ p. fault }

received-AllShown : AllShown received
received-AllShown = (
  ((omega arith, omega arith, omega arith, sender_of-IsSender), omega arith),
  (
    (
      (omega arith, sender_of-IsSender, record { text = ground arith; short = omega arith }),
      omega arith,
    ),
    tt,
  ),
)

abbrev printed_lines : List Line
printed_lines =
    answer (some (terminated (sender_of info).name)) (some (terminated (sender_of info).id)) fine
    ∷ notice (some (terminated (sender_of info).name)) (some (terminated (sender_of info).id))
        (some (terminated (55 ∷ [])))
    ∷ []

inbox-IsTurn : IsTurn codec codec-IsLawful inbox blank received
unfolding arrive codec c_string
inbox-IsTurn = record {
  there = refl;
  av = plenty-Available;
  allocates = ample-Allocates;
  shown = received-AllShown;
  arrive = (
    replicate 8 0,
    refl,
    (ground arith),
    refl,
    (replicate 8 0, refl, (ground arith), refl, refl),
  );
}

-- The command for two turns.
stats-heard_example :
    stats codec (λ n. link) (λ n. inbox) (λ n. 3) ([] ∷ (b'2' ∷ []) ∷ (b'1' ∷ []) ∷ []) (idle [])
    ≡ done (
      0,
      printed_lines ++ printed_lines,
      idle (stats_post codec codec-IsLawful ∷ stats_post codec codec-IsLawful ∷ []),
    )
unfolding said noticed atoi
stats-heard_example =
    stats-heard codec codec-IsLawful (λ n. link) (λ n. inbox) (λ n. blank) (λ n. received)
      (λ n. link-IsUp) (λ n. inbox-IsTurn) [] (b'2' ∷ []) (b'1' ∷ []) [] []
