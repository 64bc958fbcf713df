-- ===== src/Bindings/Paho/Tables.antt =====
-- The lists of handlers that `paho_init` makes.
use msg_perf_tool.Base.{
  ℕ, suc, ◌≡◌, ap, ◌∙◌, if◌then◌else◌, if-holds, Bool, true, false, ◌&&◌, Option, some, List, [],
  ◌∷◌,
}
use mathlib.Core.Path.{ap₂}
use msg_perf_tool.Handlers.{Callback, add}
use msg_perf_tool.Handlers.Lists.{pointers, put, IsDistinct, put-IsDistinct, add-put}
use msg_perf_tool.Bindings.{Options, Variants, Keypair, Room, add_at}
use msg_perf_tool.Bindings.Paho.{
  Setters, HandlerLists, set_default_parameters, set_parameter_by_name, set_user_parameters,
}
use msg_perf_tool.Bindings.Paho.Transfer.{Setup, init}

-- A list whose callbacks are all there, and in which no function is called twice.
abbrev pub IsTable : List (Option Callback) → Type 0
IsTable hs = (cs : List Callback) × (hs ≡ pointers cs) × IsDistinct cs

pub record AreTables (hs : HandlerLists) : Type 0 where
  pub before_connect : IsTable hs.before_connect
  pub before_send : IsTable hs.before_send

-- There is memory for each callback.
pub record HasPlaces (room : Room) : Type 0 where
  pub memory : (n call : ℕ) → (old : Callback) × (room.memory n call ≡ some old)
  pub appended : (n call : ℕ) → room.appended n call ≡ true

module _ (room : Room) (has : HasPlaces room) where
  pub add_at-IsTable :
      (n call payload : ℕ) (hs : List (Option Callback))
      → IsTable hs
      → IsTable (add_at room n call payload hs)
  unfolding add_at
  add_at-IsTable n call payload hs (cs, e, d) =
      let new : Callback = record { call = call; payload = payload } in
      let (old, there) = has.memory n call in
      (
        put new cs,
        ap (λ l. (add (room.memory n call) (room.appended n call) call payload l).0) e
            ∙ ap₂ (λ o b. (add o b call payload (pointers cs)).0) there (has.appended n call)
            ∙ ap (λ r. r.0) (add-put new old cs),
        put-IsDistinct new cs d,
      )

  maybe_add-IsTable :
      (b : Bool) (n call payload : ℕ) (hs : List (Option Callback))
      → IsTable hs
      → IsTable (if b then add_at room n call payload hs else hs)
  maybe_add-IsTable b n call payload hs h =
      if-holds IsTable b _ _ (add_at-IsTable n call payload hs h) h

  module _ (v : Variants) (a : Setters) (opt : Options) where
    parameter-AreTables :
        (n : ℕ) (kp : Keypair) (hs : HandlerLists)
        → AreTables hs
        → AreTables (set_parameter_by_name v a opt room n kp hs)
    unfolding set_parameter_by_name
    parameter-AreTables n kp hs h = record {
      before_connect =
          maybe_add-IsTable _ n a.clean_session kp.pair _
            (maybe_add-IsTable _ n a.keep_alive kp.pair _ h.before_connect);
      before_send = maybe_add-IsTable _ n a.retained kp.pair _ (
          if-holds IsTable opt.sends _ _ (maybe_add-IsTable _ n a.qos_mode kp.pair _ h.before_send)
            h.before_send);
    }

    user-AreTables :
        (n : ℕ) (kps : List Keypair) (hs : HandlerLists)
        → AreTables hs
        → AreTables (set_user_parameters v a opt room n kps hs)
    unfolding set_user_parameters
    user-AreTables n [] hs h = h
    user-AreTables n (kp ∷ kps) hs h =
        user-AreTables (suc n) kps (set_parameter_by_name v a opt room n kp hs)
          (parameter-AreTables n kp hs h)

    -- Whatever parameters the address names, `paho_init` leaves lists of handlers that are all there and
    -- in which no function stands twice, where it found such lists and there is memory.
    pub init-AreTables :
        (s : Setup) (query : List Keypair) (hs : HandlerLists)
        → AreTables hs
        → AreTables (init v a s opt room query hs).1
    unfolding init set_default_parameters
    init-AreTables s query hs h =
        let defaults = set_default_parameters v a room hs in
        let tables : AreTables defaults = record {
          before_connect =
              add_at-IsTable 0 a.clean_session 0 _
                (add_at-IsTable 0 a.keep_alive 0 hs.before_connect h.before_connect);
          before_send =
              add_at-IsTable 0 a.retained 0 _
                (add_at-IsTable 0 a.qos_mode 0 hs.before_send h.before_send);
        } in
        if-holds (λ (r : Bool × HandlerLists). AreTables r.1) (s.allocated && s.context && s.scheme)
          (true, set_user_parameters v a opt room 1 query defaults) (false, hs)
          (user-AreTables 1 query defaults tables) h
