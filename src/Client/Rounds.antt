-- ===== src/Client/Rounds.antt =====
-- What the client asks and shows in the turns of `maestro_cmd_stats`.
use mathlib.Core.List.{append-nil, append_assoc}
use msg_perf_tool.Base.{
  ℕ, zero, suc, ◌≡◌, refl, List, [], ◌∷◌, ◌++◌, map, length, replicate, Bytes, some, false, done,
  arith,
}
use msg_perf_tool.Content.{Content, empty}
use msg_perf_tool.Content.Random.{Allocates}
use msg_perf_tool.Maestro.Command
use msg_perf_tool.Maestro.Msgpack.{Msgpack, IsLawful}
use msg_perf_tool.Maestro.Note.{Payload}
use msg_perf_tool.Maestro.Message.{Message, wire}
use msg_perf_tool.Maestro.Reads.{Available}
use msg_perf_tool.Maestro.RoundTrip.{exactly}
use msg_perf_tool.Maestro.Easy.{easy_request-wire}
use msg_perf_tool.Daemon.Text.{atoi}
use msg_perf_tool.Client.{
  Topic, Link, Context, all_daemons, connect, send, stop, transmit, without_payload,
}
use msg_perf_tool.Client.Steering.{IsUp}
use msg_perf_tool.Client.Collecting.{Inbox, Line}
use msg_perf_tool.Client.Showing.{shown, AllShown, Arrive, collect-shown}
use msg_perf_tool.Client.Polling.{get_string, collected, stats_times, stats}

-- A client without a connection that has sent these requests.
abbrev pub idle : List (Topic × Content) → Context
idle posts = record { connected = false; posts = posts }

-- What a turn needs: an inbox with memory, and the messages that wait in its queue.
pub record IsTurn (m : Msgpack) (law : IsLawful m) (b : Inbox) (blank : Payload)
    (msgs : List Message) : Type 0 where
  pub there : b.memory.payload ≡ some blank
  pub av : Available b.memory
  pub allocates : Allocates b.alloc
  pub shown : AllShown msgs
  pub arrive : Arrive m law b blank there av allocates 0 msgs

module _ (m : Msgpack) (law : IsLawful m) where
  abbrev pub stats_post : Topic × Content
  stats_post = (all_daemons, exactly (wire m (Message.plain_request Command.stats)))

  -- Over a link that is up, a command without a payload sends its request and closes the connection.
  without_payload-sent :
      (l : Link) (posts : List (Topic × Content))
      → IsUp l
      → without_payload m l all_daemons Command.stats (idle posts)
        ≡ done (0, idle (posts ++ stats_post ∷ []))
  unfolding without_payload connect transmit send stop
  without_payload-sent l posts up =
      rw
        (
          up.cloned,
          up.initialised,
          up.started,
          easy_request-wire m law l.alloc empty Command.stats up.allocates
              (omega arith, omega arith, omega arith),
          up.sends,
        )
        refl

  module _ (l : ℕ → Link) (b : ℕ → Inbox) (blank : ℕ → Payload) (msgs : ℕ → List Message)
      (ups : (n : ℕ) → IsUp (l n)) (turns : (n : ℕ) → IsTurn m law (b n) (blank n) (msgs n)) where
    -- The lines of the turns from the `n`-th on.
    abbrev pub heard : ℕ → ℕ → List Line
    heard zero n = []
    heard (suc k) n = map (shown (blank n)) (msgs n) ++ heard k (suc n)

    abbrev pub enough : ℕ → ℕ
    enough n = suc (length (msgs n))

    stats_times-heard :
        (k n : ℕ) (posts : List (Topic × Content))
        → stats_times m l b enough k n (idle posts)
          ≡ done (0, heard k n, idle (posts ++ replicate k stats_post))
    unfolding stats_times collected
    stats_times-heard zero n posts = rw (append-nil posts) refl
    stats_times-heard (suc k) n posts =
        let t = turns n in
        rw
          (
            without_payload-sent (l n) posts (ups n),
            collect-shown m law (b n) (blank n) t.there t.av t.allocates (msgs n) 0 t.shown
                t.arrive,
            stats_times-heard k (suc n) (posts ++ stats_post ∷ []),
            append_assoc posts (stats_post ∷ []) (replicate k stats_post),
          )
          refl

    -- With a lawful msgpack and memory, over links that are up, where in each turn well-formed
    -- responses and notifications wait, each sent with eight bytes behind it and with them at most as
    -- long as the buffer of 256 bytes, and then nothing: `maestro_cmd_stats` with a count and an interval ends and
    -- succeeds; as many turns as the count says have each sent one request for the statistics to all
    -- daemons and shown the messages that waited, in their order.
    pub stats-heard :
        (word count interval : Bytes) (rest : List Bytes) (posts : List (Topic × Content))
        → stats m l b enough (word ∷ count ∷ interval ∷ rest) (idle posts)
          ≡ done (0, heard (atoi count) 0, idle (posts ++ replicate (atoi count) stats_post))
    unfolding stats get_string
    stats-heard word count interval rest posts = stats_times-heard (atoi count) 0 posts
