-- ===== src/Bindings/Proton/Settling.antt =====
-- The messages that `proton_receive` has taken and not settled.
use msg_perf_tool.Base.{
  ℕ, zero, suc, ◌+◌, ◌-◌, ◌≤◌, ◌<◌, ◌≡◌, ◌≢◌, ◌⊎◌, refl, ◌∙◌, eq→==, ne→==, Bool-cases,
  Option-cases, inl, inr, Bool, true, false, Option, none, some, List, length, Outcome, done, arith,
}
use msg_perf_tool.Content.{Content, IsValid}
use msg_perf_tool.Bindings.Paho.Storing.{overlay_fits}
use msg_perf_tool.Vmsl.{stat_error, vmsl_error, vmsl_success, vmsl_no_data, vmsl_no_timestamp}
use msg_perf_tool.Handlers.{Callback}
use msg_perf_tool.Handlers.Lists.{pointers, run-pointers}
use msg_perf_tool.Bindings.{Options, Variants, takes_latency, apply_all, run_on}
use msg_perf_tool.Bindings.Proton.{Mail, Messenger, Functions, Addressed, on_messenger}
use msg_perf_tool.Bindings.Proton.Transfer.{
  window, limit, Receiver, Reception, Hooks, do_receive, ends_batch, conclude, deliver, receive,
}
use msg_perf_tool.Bindings.Proton.Holding.{IsLawful, Calls, all-incoming, all-held, accepts-held}

decide : (n : ℕ) → (n ≡ 0) ⊎ (n ≢ 0)
decide zero = inl refl
decide (suc n) = inr (omega arith)

module _ {S : Type 0} (pn : Messenger S) (v : Variants) (d : Addressed) (f : Functions S)
    (held : S → ℕ) (law : IsLawful pn f held) where
  -- The counter is that of the messages that are held, or more; it is below the window; and when no
  -- message waits, none is held.
  pub record IsSettling (r : Receiver S) : Type 0 where
    pub base : r.last_ack ≡ 0
    pub below : r.cur < window
    pub counted : held r.messenger ≤ r.cur
    pub drained : pn.incoming r.messenger ≡ 0 → held r.messenger ≡ 0

  unheld-IsSettling :
      (r : Receiver S) → r.last_ack ≡ 0 → r.cur < window → held r.messenger ≡ 0 → IsSettling r
  unheld-IsSettling r base below unheld = record {
    base = base;
    below = below;
    counted = omega (arith, unheld);
    drained = λ w. unheld;
  }

  IsSettling-small : (r : Receiver S) → IsSettling r → IsSettling r × (held r.messenger < window)
  IsSettling-small r is = let c = is.counted in let b = is.below in (is, omega (arith, c, b))

  module _ (before after finalize : List Callback) (calls : Calls f.accept finalize) where
    abbrev pub hooks : Hooks
    hooks = record {
      before_receive = pointers before;
      after_receive = pointers after;
      finalize_receive = pointers finalize;
    }

    -- The end of a receive that took one of `nmsgs` messages.
    conclude-IsSettling :
        (nmsgs : ℕ) (r : Receiver S)
        → r.last_ack ≡ 0
        → r.cur ≤ window
        → held r.messenger ≤ r.cur
        → pn.incoming r.messenger ≡ nmsgs - 1
        → nmsgs ≢ 0
        → (r' : Receiver S) × (conclude pn v d f hooks nmsgs r ≡ done r') × IsSettling r'
    unfolding conclude run_on
    conclude-IsSettling nmsgs r base below counted waits some_there =
        let s = apply_all (on_messenger pn v d f) finalize r.messenger in
        let settled = accepts-held pn v d f held law finalize r.messenger calls in
        elim (Bool-cases (ends_batch nmsgs r)) [
          | inl e ↦ (
            record { messenger = s; cur = 0; last_ack = 0 },
            rw (e, run-pointers finalize) refl,
            record {
              base = refl;
              below = omega arith;
              counted = omega (arith, settled);
              drained = λ _. settled;
            },
          )
          | inr e ↦ (
            r,
            rw e refl,
            record {
              base = base;
              below = ground arith;
              counted = counted;
              drained = λ none_waits. absurd (ground arith);
            },
          )
        ]

    module _
        (fits : (mail : Mail) (n : ℕ)
          → (length (pn.format mail n) ≤ n) × (pn.formatted mail n ≤ n)) where
      do_receive-IsValid :
          (c : Content) (s : S)
          → IsValid c
          → (got : Bool) × (c' : Content) × IsValid c'
            × (do_receive pn v d f c s ≡ done (got, (pn.get s).0, (pn.get s).1, c'))
      unfolding do_receive
      do_receive-IsValid c s ok =
          let (region, there, l) = ok.owned in
          let mail = (pn.get s).0 in
          let (short, small) = fits mail c.capacity in
          let (region', e, l', _) =
            overlay_fits (pn.format mail c.capacity) region (omega (arith, l, short)) in
          elim (Bool-cases (pn.failed (pn.get s).1)) [
            | inl h ↦ (false, c, ok, rw h refl)
            | inr h ↦ (
              true,
              record c { bytes = some region'; size = pn.formatted mail c.capacity },
              record { owned = (region', refl, l' ∙ l); fits = small },
              rw (h, there, e) refl,
            )
          ]

      -- What a receive promises.
      abbrev pub Keeps : Outcome (Reception S) → Type 0
      Keeps o =
          (x : Reception S) × (o ≡ done x)
          × IsValid x.content
          × (stat_error x.stat ≡ false → IsSettling x.receiver)

      deliver-Keeps :
          (opt : Options) (nmsgs : ℕ) (r : Receiver S) (c : Content)
          → IsValid c
          → r.last_ack ≡ 0
          → r.cur < window
          → held r.messenger ≤ r.cur
          → pn.incoming r.messenger ≡ nmsgs
          → nmsgs ≢ 0
          → Keeps (deliver pn v d f opt hooks nmsgs r c)
      unfolding deliver run_on stat_error
      deliver-Keeps opt nmsgs r c ok base below counted waits some_there =
          let s = apply_all (on_messenger pn v d f) before r.messenger in
          let (got, c', ok', e) = do_receive-IsValid c s ok in
          let taken = (pn.get s).1 in
          let s' = apply_all (on_messenger pn v d f) after taken in
          let r' : Receiver S = record { messenger = s'; cur = r.cur + 1; last_ack = r.last_ack } in
          let (kept, concluded, settling) =
            conclude-IsSettling nmsgs r' base (omega (arith, below))
              (omega (
                arith,
                all-held pn v d f held law after taken,
                law.get_held s,
                all-held pn v d f held law before r.messenger,
                counted,
              ))
              (omega (
                arith,
                all-incoming pn v d f held law after taken,
                law.get_incoming s,
                all-incoming pn v d f held law before r.messenger,
                waits,
              ))
              some_there in
          let counted : Option ℕ → Reception S = λ created. record {
            stat = vmsl_success;
            receiver = kept;
            content = c';
            created = created;
          } in
          let missed : ℕ → Reception S = λ stat. record {
            stat = stat;
            receiver = record r { messenger = taken };
            content = c';
            created = none;
          } in
          elim (Bool-cases got) [
            | inl g ↦ elim (Bool-cases (takes_latency opt)) [
              | inl on ↦ elim (Option-cases (pn.get s).0.created) [
                | inl lost ↦ (
                  missed (vmsl_error + vmsl_no_timestamp),
                  rw (run-pointers before, e, g, on, lost) refl,
                  ok',
                  λ h. cc,
                )
                | inr (at, there) ↦ (
                  counted (some at),
                  rw (run-pointers before, e, g, on, there, run-pointers after, concluded) refl,
                  ok',
                  λ _. settling,
                )
              ]
              | inr off ↦ (
                counted none,
                rw (run-pointers before, e, g, off, run-pointers after, concluded) refl,
                ok',
                λ _. settling,
              )
            ]
            | inr g ↦ (missed vmsl_error, rw (run-pointers before, e, g) refl, ok', λ h. cc)
          ]

      -- A receive that gets no message.
      receive-empty :
          (opt : Options) (r : Receiver S) (c : Content)
          → IsSettling r
          → IsValid c
          → pn.incoming r.messenger ≡ 0
          → ((pn.recv limit r.messenger).0 ≡ true)
            ⊎ ((pn.recv limit r.messenger).0 ≡ false
                × pn.incoming (pn.recv limit r.messenger).1 ≡ 0)
          → Keeps (receive pn v d f opt hooks r c)
      unfolding receive stat_error
      receive-empty opt r c is ok waits how =
          let s = (pn.recv limit r.messenger).1 in
          let drained = is.drained in
          let unheld : held s ≡ 0 = law.recv_held limit r.messenger ∙ drained waits in
          let h = eq→== (pn.incoming r.messenger) 0 waits in
          let nothing : ℕ → Receiver S → Reception S =
            λ stat r. record { stat = stat; receiver = r; content = c; created = none } in
          let same : Receiver S = record r { messenger = s } in
          let fresh : Receiver S = record { messenger = s; cur = 0; last_ack = 0 } in
          elim how [
            | inl e ↦ elim (Bool-cases (pn.failed s)) [
              | inl bad ↦ (nothing vmsl_error same, rw (h, e, bad) refl, ok, λ q. cc)
              | inr good ↦ (
                nothing (vmsl_success + vmsl_no_data) same,
                rw (h, e, good) refl,
                ok,
                λ q. unheld-IsSettling same is.base is.below unheld,
              )
            ]
            | inr (e, z) ↦ (
              nothing (vmsl_success + vmsl_no_data) fresh,
              rw (h, e, eq→== (pn.incoming s) 0 z) refl,
              ok,
              λ q. unheld-IsSettling fresh refl (omega arith) unheld,
            )
          ]

      -- A receive that gets messages from the other side.
      receive-fetched :
          (opt : Options) (r : Receiver S) (c : Content)
          → IsSettling r
          → IsValid c
          → pn.incoming r.messenger ≡ 0
          → (pn.recv limit r.messenger).0 ≡ false
          → pn.incoming (pn.recv limit r.messenger).1 ≢ 0
          → Keeps (receive pn v d f opt hooks r c)
      unfolding receive
      receive-fetched opt r c is ok waits e some_there =
          let s = (pn.recv limit r.messenger).1 in
          let drained = is.drained in
          let unheld : held s ≡ 0 = law.recv_held limit r.messenger ∙ drained waits in
          let (x, o, ok', kept) =
            deliver-Keeps opt (pn.incoming s) (record { messenger = s; cur = 0; last_ack = 0 }) c ok
              refl (omega arith) (omega (arith, unheld)) refl some_there in
          (
            x,
            rw (eq→== (pn.incoming r.messenger) 0 waits, e, ne→== (pn.incoming s) 0 some_there) o,
            ok',
            kept,
          )

      -- A receive of a message that waits.
      receive-waiting :
          (opt : Options) (r : Receiver S) (c : Content)
          → IsSettling r
          → IsValid c
          → pn.incoming r.messenger ≢ 0
          → Keeps (receive pn v d f opt hooks r c)
      unfolding receive
      receive-waiting opt r c is ok some_there =
          let (x, o, ok', kept) =
            deliver-Keeps opt (pn.incoming r.messenger) r c ok is.base is.below is.counted refl
              some_there in
          (x, rw (ne→== (pn.incoming r.messenger) 0 some_there) o, ok', kept)

      receive-Keeps :
          (opt : Options) (r : Receiver S) (c : Content)
          → IsSettling r
          → IsValid c
          → Keeps (receive pn v d f opt hooks r c)
      receive-Keeps opt r c is ok =
          let fetched = pn.recv limit r.messenger in
          elim (decide (pn.incoming r.messenger)) [
            | inr some_there ↦ receive-waiting opt r c is ok some_there
            | inl waits ↦ elim (Bool-cases fetched.0) [
              | inl e ↦ receive-empty opt r c is ok waits (inl e)
              | inr e ↦ elim (decide (pn.incoming fetched.1)) [
                | inl z ↦ receive-empty opt r c is ok waits (inr (e, z))
                | inr n ↦ receive-fetched opt r c is ok waits e n
              ]
            ]
          ]

      -- Where what arrives can be settled by the handler of the default mode: from counters that agree
      -- with the messenger, `proton_receive` into a valid buffer returns and keeps the buffer valid;
      -- and either it fails, or the counters agree again, so that fewer than `window` messages are taken
      -- and not settled, and none where no message waits.
      pub receive-IsSettling :
          (opt : Options) (r : Receiver S) (c : Content)
          → IsSettling r
          → IsValid c
          → (x : Reception S) × (receive pn v d f opt hooks r c ≡ done x)
            × IsValid x.content
            × ((stat_error x.stat ≡ true)
                ⊎ (IsSettling x.receiver × (held x.receiver.messenger < window)))
      receive-IsSettling opt r c is ok =
          let (x, e, ok', keeps) = receive-Keeps opt r c is ok in
          (
            x,
            e,
            ok',
            elim (Bool-cases (stat_error x.stat)) [
              | inl bad ↦ inl bad
              | inr good ↦ inr (IsSettling-small x.receiver (keeps good))
            ],
          )
