-- ===== src/Examples/Clients.antt =====
-- The client's request and the handlers of the messaging layer at concrete inputs.
use msg_perf_tool.Base.{ℕ, ◌≡◌, refl, true, some, [], ◌∷◌, arith, done, ◌>>=◌, c_string}
use msg_perf_tool.Content.{empty}
use msg_perf_tool.Handlers.{Callback, add, run}
use msg_perf_tool.Handlers.Lists.{pointers, IsDistinct, add-run}
use msg_perf_tool.Maestro.Command
use msg_perf_tool.Maestro.Note.{as_note, block, type_response, set_cmd}
use msg_perf_tool.Maestro.Message.{Message, Represents, wire}
use msg_perf_tool.Maestro.RoundTrip.{exactly}
use msg_perf_tool.Maestro.Sheet.{Sheet, Instrument, sheet_play}
use msg_perf_tool.Maestro.Sheet.Answers.{started, sender_of}
use msg_perf_tool.Maestro.Easy.{easy_request, easy_request-played}
use msg_perf_tool.Examples.Codec.{
  codec, codec-IsLawful, ample, ample-Allocates, blank, plenty-Available,
}
use msg_perf_tool.Examples.Players.{info, resources, mute, duplicate-Copies, sender_of-IsSender}

-- An instrument that acknowledges a halt.
abbrev acknowledge : Instrument ℕ
acknowledge = record {
  command = Command.halt;
  play = λ count request response info. done (count, set_cmd response Command.ok);
}

abbrev acknowledging : Sheet ℕ
acknowledging = record {
  instruments = some (mute ∷ acknowledge ∷ []);
  count = 0;
  topics = [];
  qos = 0;
}

abbrev acknowledged : Message
acknowledged = Message.plain_response Command.ok (sender_of info)

acknowledged-Represents :
    Represents (as_note type_response Command.ok (block (started blank info))) acknowledged
unfolding c_string
acknowledged-Represents = record {
  type = refl;
  command = refl;
  payload = (
    started blank info,
    refl,
    record { id = (112 ∷ 49 ∷ 0 ∷ [], refl, refl); name = (115 ∷ 0 ∷ [], refl, refl) },
  );
}

easy_request-played_example :
    (easy_request codec ample empty Command.halt >>= λ request.
    sheet_play codec resources acknowledging info 7 request empty)
    ≡ done (7, exactly (wire codec acknowledged))
unfolding set_cmd
easy_request-played_example =
    easy_request-played codec resources codec-IsLawful blank blank ample acknowledging 7 7
      (mute ∷ []) [] acknowledge info Command.halt acknowledged type_response Command.ok
      (started blank info) empty empty refl duplicate-Copies plenty-Available refl ample-Allocates
      ample-Allocates (ground arith) refl (ground arith) refl refl acknowledged-Represents
      (omega arith, omega arith, omega arith, sender_of-IsSender)

-- Two handlers, and a new payload for the first.
abbrev first : Callback
first = record { call = 1; payload = 10 }

abbrev second : Callback
second = record { call = 2; payload = 20 }

abbrev renewed : Callback
renewed = record { call = 1; payload = 11 }

both-IsDistinct : IsDistinct (first ∷ second ∷ [])
both-IsDistinct = ((ground arith, tt), (tt, tt))

add-run_example :
    let (hs, added) = add (some first) true 1 11 (pointers (first ∷ second ∷ [])) in
    (added ≡ true) × (run hs ≡ done (renewed ∷ second ∷ []))
add-run_example = add-run renewed first (first ∷ second ∷ [])
