-- ===== src/Daemon/Crashes.antt =====
-- Notes of no known type, which the deserializer accepts without a payload, as requests of a daemon.
use msg_perf_tool.Base.{
  ℕ, ◌^◌, ◌<◌, ◌≡◌, refl, ap, ◌∙◌, ne→==, some, List, [], ◌∷◌, ◌++◌, arith, fault, take-length,
}
use msg_perf_tool.Content.{Content}
use msg_perf_tool.Maestro.Command
use msg_perf_tool.Maestro.Msgpack.{Msgpack, IsLawful}
use msg_perf_tool.Maestro.Note.{
  Payload, as_note, block, null, type_response, type_request, type_notification, payload_of,
}
use msg_perf_tool.Maestro.Assign.{success}
use msg_perf_tool.Maestro.Deserialize.{deserialize_note, deserialize_bytes, input_of, body}
use msg_perf_tool.Maestro.Headers.{entered, header_lem}
use msg_perf_tool.Maestro.RoundTrip.{exactly}
use msg_perf_tool.Maestro.Sheet.{
  Sheet, Instrument, PlayerInfo, Resources, sheet_play, answer, do_play,
}
use msg_perf_tool.Maestro.Sheet.Walk.{NonePlays, play_first-first}
use msg_perf_tool.Maestro.Sheet.Answers.{Copies, started, sheet_play-answer}
use msg_perf_tool.Daemon.Options.{handle_set, set_view}
use msg_perf_tool.Daemon.Common.{Daemon, Outside, handle_ping}
use msg_perf_tool.Daemon.Sender.{handle_sender_set, sender_instruments, instrument}
use msg_perf_tool.Daemon.Requests.{before_set}

-- The bytes of a note that has only a type and a command.
abbrev pub bare : Msgpack → ℕ → ℕ → Content
bare m t c = exactly (m.pack_int8 t ++ (m.pack_int64 c ++ []))

module _ (m : Msgpack) (r : Resources) (law : IsLawful m) where
  deserialize-unknown :
      (t c : ℕ)
      → 2 < t
      → t < 2 ^ 7
      → c < 2 ^ 32
      → deserialize_note m r.request (bare m t c) ≡ (entered t c [], success)
  unfolding deserialize_note deserialize_bytes input_of body
  deserialize-unknown t c above ht hc =
      ap (deserialize_bytes m r.request) (take-length (m.pack_int8 t ++ (m.pack_int64 c ++ [])))
      ∙ rw
          (
            header_lem m r.request law t c [] ht hc,
            ne→== t type_response (omega arith),
            ne→== t type_request (omega arith),
            ne→== t type_notification (omega arith),
          )
          refl

  module _ (blank : Payload) (there : r.payload ≡ some blank) (copies : Copies r.strdup)
      (info : PlayerInfo) (t : ℕ) (above : 2 < t) (small : t < 2 ^ 7) where
    unknown-crashes :
        {S : Type 0} (sheet : Sheet S) (st : S) (c : ℕ) (front back : List (Instrument S))
        (i : Instrument S) (out : Content)
        → c < 2 ^ 32
        → sheet.instruments ≡ some (front ++ i ∷ back)
        → NonePlays c front
        → i.command ≡ c
        → i.play st (as_note t c null) (as_note type_response 0 (block (started blank info))) info
          ≡ fault
        → sheet_play m r sheet info st (bare m t c) out ≡ fault
    unfolding answer do_play
    unknown-crashes sheet st c front back i out hc e h hit played =
        sheet_play-answer m r blank there copies sheet st info (bare m t c) out
        ∙ rw (
          deserialize-unknown t c above small hc,
          e,
          do_play,
          play_first-first front back i info st (as_note t c null) _ h hit,
          played,
        )

    module _ (e : Outside) (sheet : Sheet Daemon)
        (mine : sheet.instruments ≡ some (sender_instruments e)) (st : Daemon) (out : Content) where
      -- With a lawful msgpack and memory for the response, a note of no known type, of which there is
      -- only a type between 3 and 127 and the command of a set or of a ping, crashes the daemon that
      -- sends: the deserializer accepts it without a payload, and the handler reads the payload.
      pub unknown_type_crashes :
          (sheet_play m r sheet info st (bare m t Command.set) out ≡ fault)
          × (sheet_play m r sheet info st (bare m t Command.ping) out ≡ fault)
      unfolding handle_sender_set handle_set set_view handle_ping payload_of
      unknown_type_crashes = (
        unknown-crashes sheet st Command.set (before_set e) _
            (instrument e Command.set (handle_sender_set e)) out (omega arith) mine
            (omega arith, (omega arith, (omega arith, tt))) refl refl,
        unknown-crashes sheet st Command.ping
            (before_set e ++ instrument e Command.set (handle_sender_set e) ∷ []) _
            (instrument e Command.ping (handle_ping e)) out (omega arith) mine
            (omega arith, (omega arith, (omega arith, (omega arith, tt)))) refl refl,
      )
