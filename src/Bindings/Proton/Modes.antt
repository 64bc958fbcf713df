-- ===== src/Bindings/Proton/Modes.antt =====
-- The handlers that `proton_start` leaves for the quality of service that an address asks for.
use msg_perf_tool.Base.{
  ℕ, ◌≡◌, ◌≢◌, refl, ap, ◌∙◌, ◌==◌, eq→==, ne→==, ◌||◌, if◌then◌else◌, Bool-cases, inl, inr, Bool,
  true, false, List, [], ◌∷◌, ◌++◌, done, arith,
}
use mathlib.Core.Path.{ap₂}
use msg_perf_tool.Vmsl.{vmsl_success}
use msg_perf_tool.Handlers.{Callback, add}
use msg_perf_tool.Handlers.Lists.{pointers, put, IsAbsent, run-pointers, add-put}
use msg_perf_tool.Bindings.{Variants, Room, add_at, apply_all, run_on}
use msg_perf_tool.Bindings.Paho.{at_most_once}
use msg_perf_tool.Bindings.Paho.Tables.{HasPlaces}
use msg_perf_tool.Bindings.Proton.{
  Messenger, Functions, Addressed, Link, set_qos_mode_send, set_qos_mode_recv, set_receiver_mode,
  on_connect,
}
use msg_perf_tool.Bindings.Proton.Transfer.{start}

-- The mode is the default, or named so.
abbrev pub is_default : Variants → ℕ → Bool
is_default v payload = payload == 0 || v.equals payload at_most_once

-- A callback without a payload.
abbrev pub bare : ℕ → Callback
bare call = record { call = call; payload = 0 }

put-absent :
    (new : Callback) (cs : List Callback) → IsAbsent new.call cs → put new cs ≡ cs ++ new ∷ []
put-absent new [] h = refl
put-absent new (c ∷ cs) (ne, h) =
    rw (ne→== c.call new.call ne) (ap (λ l. c ∷ l) (put-absent new cs h))

module _ {S : Type 0} (pn : Messenger S) (v : Variants) (d : Addressed) (f : Functions S)
    (room : Room) (has : HasPlaces room) where
  add_lem :
      (call : ℕ) (cs : List Callback) (hs : List _)
      → hs ≡ pointers cs
      → add_at room 0 call 0 hs ≡ pointers (put (bare call) cs)
  unfolding add_at
  add_lem call cs hs e =
      let (old, there) = has.memory 0 call in
      ap (λ l. (add (room.memory 0 call) (room.appended 0 call) call 0 l).0) e
      ∙ ap₂ (λ o b. (add o b call 0 (pointers cs)).0) there (has.appended 0 call)
      ∙ ap (λ r. r.0) (add-put (bare call) old cs)

  receiver_mode-finalize :
      (payload : ℕ) (link : Link S)
      → (set_receiver_mode pn v d f room payload link).finalize_receive ≡ link.finalize_receive
  unfolding set_receiver_mode
  receiver_mode-finalize payload link = ground arith

  recv_lem :
      (payload : ℕ) (link : Link S) (cs : List Callback)
      → link.finalize_receive ≡ pointers cs
      → (set_qos_mode_recv pn v d f room payload link).finalize_receive
        ≡ pointers (if is_default v payload then put (bare f.accept) cs else cs)
  unfolding set_qos_mode_recv
  recv_lem payload link cs e = elim (Bool-cases (is_default v payload)) [
    | inl h ↦ rw h (
        receiver_mode-finalize payload
          (record link { finalize_receive = add_at room 0 f.accept 0 link.finalize_receive })
        ∙ add_lem f.accept cs link.finalize_receive e)
    | inr h ↦ rw h (receiver_mode-finalize payload link ∙ e)
  ]

  recv-after_send :
      (payload : ℕ) (link : Link S)
      → (set_qos_mode_recv pn v d f room payload link).after_send ≡ link.after_send
  unfolding set_qos_mode_recv set_receiver_mode
  recv-after_send payload link = ground arith

  send-finalize :
      (payload : ℕ) (link : Link S)
      → (set_qos_mode_send pn v d f room payload link).finalize_receive ≡ link.finalize_receive
  unfolding set_qos_mode_send
  send-finalize payload link = ground arith

  send_lem :
      (payload : ℕ) (link : Link S) (cs : List Callback)
      → link.after_send ≡ pointers cs
      → (set_qos_mode_send pn v d f room payload link).after_send
        ≡ pointers (if is_default v payload then cs else put (bare f.commit) cs)
  unfolding set_qos_mode_send
  send_lem payload link cs e = elim (Bool-cases (is_default v payload)) [
    | inl h ↦ rw h e
    | inr h ↦ rw h (add_lem f.commit cs link.after_send e)
  ]

  abbrev pub started : Link S → Link S
  started link = record link { messenger = (pn.started link.messenger).1 }

  -- The connection of a link with the handlers before it.
  abbrev pub connected : List Callback → Link S → Link S
  connected cs link = apply_all (on_connect pn v d f room) cs link

  start_lem :
      (cs after_connect : List Callback) (link : Link S)
      → ((s : S) → (pn.started s).0 ≡ false)
      → start pn v d f room true (pointers cs) (pointers after_connect) link
        ≡ done (vmsl_success, started (connected cs link))
  unfolding start run_on
  start_lem cs after_connect link starts =
      rw (run-pointers cs, starts (connected cs link).messenger, run-pointers after_connect) refl

  connected-append :
      (before : List Callback) (c : Callback) (others : List Callback) (link : Link S)
      → connected (before ++ c ∷ others) link
        ≡ connected others (on_connect pn v d f room c (connected before link))
  unfolding apply_all
  connected-append [] c others link = refl
  connected-append (b ∷ before) c others link =
      connected-append before c others (on_connect pn v d f room b link)

  on_connect-other :
      (c : Callback) (link : Link S)
      → c.call ≢ f.qos_mode_recv
      → c.call ≢ f.qos_mode_send
      → on_connect pn v d f room c link ≡ record link { messenger = f.other c link.messenger }
  unfolding on_connect
  on_connect-other c link ne ne' =
      rw (ne→== c.call f.qos_mode_send ne', ne→== c.call f.qos_mode_recv ne) refl

  -- No handler of the connection sets a mode.
  abbrev pub SetsNoMode : List Callback → Type 0
  SetsNoMode cs = IsAbsent f.qos_mode_recv cs × IsAbsent f.qos_mode_send cs

  connected-others :
      (cs : List Callback) (link : Link S)
      → SetsNoMode cs
      → ((connected cs link).finalize_receive ≡ link.finalize_receive)
        × ((connected cs link).after_send ≡ link.after_send)
  unfolding apply_all
  connected-others [] link h = (refl, refl)
  connected-others (c ∷ cs) link ((ne, h), (ne', h')) =
      let other = on_connect-other c link ne ne' in
      let (e, e') = connected-others cs (on_connect pn v d f room c link) (h, h') in
      (e ∙ ap (λ l. l.finalize_receive) other, e' ∙ ap (λ l. l.after_send) other)

  on_connect-recv :
      (payload : ℕ) (link : Link S)
      → f.qos_mode_recv ≢ f.qos_mode_send
      → on_connect pn v d f room (record { call = f.qos_mode_recv; payload = payload }) link
        ≡ set_qos_mode_recv pn v d f room payload link
  unfolding on_connect
  on_connect-recv payload link apart =
      rw (ne→== f.qos_mode_recv f.qos_mode_send apart, eq→== f.qos_mode_recv f.qos_mode_recv refl)
        refl

  on_connect-send :
      (payload : ℕ) (link : Link S)
      → on_connect pn v d f room (record { call = f.qos_mode_send; payload = payload }) link
        ≡ set_qos_mode_send pn v d f room payload link
  unfolding on_connect
  on_connect-send payload link = rw (eq→== f.qos_mode_send f.qos_mode_send refl) refl

  -- The handlers of a connection, one of which sets the mode.
  abbrev pub moded : List Callback → ℕ → ℕ → List Callback → List Callback
  moded before call payload others = before ++ record { call = call; payload = payload } ∷ others

  module _ (before others : List Callback) (none_before : SetsNoMode before)
      (none_after : SetsNoMode others) where
    connected-sets :
        (c : Callback) (link : Link S) (set : Link S → Link S)
        → ((link : Link S) → on_connect pn v d f room c link ≡ set link)
        → (link' : Link S) × ((connected (before ++ c ∷ others) link).finalize_receive
            ≡ (set link').finalize_receive)
          × ((connected (before ++ c ∷ others) link).after_send ≡ (set link').after_send)
          × (link'.finalize_receive ≡ link.finalize_receive)
          × (link'.after_send ≡ link.after_send)
    connected-sets c link set sets =
        let link' = connected before link in
        let e = connected-append before c others link in
        let (kept, kept') = connected-others others (on_connect pn v d f room c link') none_after in
        let (first, first') = connected-others before link none_before in
        (
          link',
          ap (λ l. l.finalize_receive) e ∙ kept ∙ ap (λ l. l.finalize_receive) (sets link'),
          ap (λ l. l.after_send) e ∙ kept' ∙ ap (λ l. l.after_send) (sets link'),
          first,
          first',
        )

    -- Where there is memory for handlers, the messenger starts, the address can be formatted, the
    -- functions of the two modes are two, one handler of the connection sets the mode with a payload
    -- and the others change no list of the link, and no handler of the link has yet the function that
    -- accepts or the one that settles: a receiver's list gets the function that accepts what arrives, at its end, exactly when
    -- the payload is a null pointer or names at-most-once, and a sender's list gets the function that
    -- settles what is sent, at its end, exactly when it is neither. No other handler comes or goes.
    pub start-modes :
        (payload : ℕ) (after_connect finalize after_send : List Callback) (link : Link S)
        → f.qos_mode_recv ≢ f.qos_mode_send
        → ((s : S) → (pn.started s).0 ≡ false)
        → IsAbsent f.accept finalize
        → IsAbsent f.commit after_send
        → link.finalize_receive ≡ pointers finalize
        → link.after_send ≡ pointers after_send
        → (receiver : Link S) × (sender : Link S) × (start pn v d f room true
              (pointers (moded before f.qos_mode_recv payload others))
              (pointers after_connect)
              link
            ≡ done (vmsl_success, receiver))
          × (receiver.finalize_receive
              ≡ pointers
                  (if is_default v payload then finalize ++ bare f.accept ∷ [] else finalize))
          × (receiver.after_send ≡ pointers after_send)
          × (start pn v d f room true
                (pointers (moded before f.qos_mode_send payload others))
                (pointers after_connect)
                link
              ≡ done (vmsl_success, sender))
          × (sender.after_send
              ≡ pointers
                  (if is_default v payload then after_send else after_send ++ bare f.commit ∷ []))
          × (sender.finalize_receive ≡ pointers finalize)
    start-modes payload after_connect finalize after_send link apart starts new new' e e' =
        let receiving = moded before f.qos_mode_recv payload others in
        let sending = moded before f.qos_mode_send payload others in
        let (r, rf, ra, r1, r2) =
          connected-sets (record { call = f.qos_mode_recv; payload = payload }) link
            (set_qos_mode_recv pn v d f room payload) (λ l. on_connect-recv payload l apart) in
        let (s, sf, sa, s1, s2) =
          connected-sets (record { call = f.qos_mode_send; payload = payload }) link
            (set_qos_mode_send pn v d f room payload) (λ l. on_connect-send payload l) in
        (
          started (connected receiving link),
          started (connected sending link),
          start_lem receiving after_connect link starts,
          rf
              ∙ recv_lem payload r finalize (r1 ∙ e)
              ∙ ap (λ l. pointers (if is_default v payload then l else finalize))
                  (put-absent (bare f.accept) finalize new),
          ra ∙ recv-after_send payload r ∙ r2 ∙ e',
          start_lem sending after_connect link starts,
          sa
              ∙ send_lem payload s after_send (s2 ∙ e')
              ∙ ap (λ l. pointers (if is_default v payload then after_send else l))
                  (put-absent (bare f.commit) after_send new'),
          sf ∙ send-finalize payload s ∙ s1 ∙ e,
        )
