-- ===== src/Maestro/Player/Stopping.antt =====
-- What the start of the player leaves, and what its stop makes of that.
use msg_perf_tool.Base.{
  ℕ, Bool, true, false, not, ◌&&◌, Option, none, some, List, done, fault, ◌≡◌, ◌⊎◌, refl, ap, ◌∙◌,
  inl, inr, Bool-cases, Option-cases,
}
use msg_perf_tool.Vmsl.{Binding, stat_error, assign_by_url}
use msg_perf_tool.Handlers.{Callback}
use msg_perf_tool.Maestro.Player.Lifecycle.{
  Player, Starting, fresh, has_context, with_will, connect, start, destroy, stop, open_player,
}

-- What is outside lets the start return: there is memory for the player and the lists of its
-- handlers, and the start of a binding returns.
pub record Returns (e : Starting) : Type 0 where
  pub memory : e.memory ≡ true
  pub lists : e.lists ≡ true
  pub begin : (b : Binding) (hs : List (Option Callback)) → (stat : ℕ) × (e.begin b hs ≡ done stat)

-- The stop of a player that is there.
pub stop-has_context :
    (p : Player)
    → ((has_context p ≡ true) × (stop (some p) ≡ done (true, none)))
      ⊎ ((has_context p ≡ false) × (stop (some p) ≡ fault))
unfolding stop destroy
stop-has_context p = elim (Option-cases p.binding) [
  | inl e ↦ inr (rw e refl, rw e refl)
  | inr (b, e) ↦ elim (Bool-cases p.context) [
    | inl c ↦ inl (rw (e, c) refl, rw (e, c) refl)
    | inr c ↦ inr (rw (e, c) refl, rw (e, c) refl)
  ]
]

context_and : (ok created c : Bool) → ok && not c ≡ false → (ok && created) && not c ≡ false
context_and false created c h = refl
context_and true false c h = refl
context_and true true c h = h

no_context : (ok c : Bool) → ok && not c ≡ false → c ≡ false → ok ≡ false
no_context false c h e = refl
no_context true false h e = absurd (cc)
no_context true true h e = absurd (cc)

module _ (will : Callback) where
  start-refused : (p : Player) (e : Starting) → start will e (some p) ≡ done (false, some p)
  unfolding start
  start-refused p e = refl

  -- A connection, with the context where it succeeds.
  connect_lem :
      (e : Starting) (b : Binding) (p : Player)
      → Returns e
      → (ok : Bool) × (p' : Player) × (connect will e b p ≡ done (ok, p'))
        × (p'.binding ≡ p.binding)
        × (ok && not p'.context ≡ false)
  unfolding connect with_will
  connect_lem e b p r = elim (Option-cases (e.init b (with_will will e))) [
    | inl lost ↦ (
      false,
      record p { before_connect = some (with_will will e) },
      rw (connect, r.lists, lost) refl,
      refl,
      refl,
    )
    | inr (hs, made) ↦
        let begin = r.begin in
        let (stat, began) = begin b hs in
        (
          not (stat_error stat),
          record p { before_connect = some hs; context = true },
          rw (connect, r.lists, made, began) refl,
          refl,
          elim (Bool-cases (stat_error stat)) [ inl s ↦ rw s refl | inr s ↦ rw s refl ],
        )
  ]

  start-joins :
      (e : Starting) (b : Binding) (ok : Bool) (p : Player)
      → Returns e
      → e.cloned ≡ true
      → assign_by_url e.supported e.scheme ≡ some b
      → e.identifier ≡ true
      → connect will e b (record fresh { binding = some b }) ≡ done (ok, p)
      → start will e none ≡ done (ok && e.created, some (record p { thread = ok && e.created }))
  unfolding start
  start-joins e b ok p r cloned found named joined =
      rw (r.memory, cloned, found, joined, named) refl

  -- A start that is not refused: what it leaves, with a context where it succeeds.
  start_lem :
      (e : Starting)
      → Returns e
      → (ok : Bool) × (p : Player) × (start will e none ≡ done (ok, some p))
        × (p.thread ≡ ok)
        × (ok && not (has_context p) ≡ false)
  unfolding start
  start_lem e r = elim (Bool-cases e.cloned) [
    | inr bad ↦ (false, fresh, rw (r.memory, bad) refl, refl, refl)
    | inl cloned ↦ elim (Option-cases (assign_by_url e.supported e.scheme)) [
      | inl lost ↦ (false, fresh, rw (r.memory, cloned, lost) refl, refl, refl)
      | inr (b, found) ↦ elim (Bool-cases e.identifier) [
        | inr bad ↦ (
          false,
          record fresh { binding = some b },
          rw (r.memory, cloned, found, bad) refl,
          refl,
          refl,
        )
        | inl named ↦
            let (ok, p, joined, same, context) =
              connect_lem e b (record fresh { binding = some b }) r in
            (
              ok && e.created,
              record p { thread = ok && e.created },
              start-joins e b ok p r cloned found named joined,
              refl,
              rw same (context_and ok e.created p.context context),
            )
      ]
    ]
  ]

  -- Where the start of the binding returns and there is memory for the player and for the lists of its
  -- handlers: a start from no player leaves one, with a
  -- thread exactly where it succeeds, and every further start is refused and changes nothing. Either
  -- the connection has a context, and a stop succeeds and leaves no player, or the start has failed,
  -- and then the stop that a daemon makes reads through a null pointer.
  pub start-stop :
      (e : Starting)
      → Returns e
      → (ok : Bool) × (p : Player) × (start will e none ≡ done (ok, some p))
        × (p.thread ≡ ok)
        × ((e' : Starting) → start will e' (some p) ≡ done (false, some p))
        × (((has_context p ≡ true) × (stop (some p) ≡ done (true, none)))
            ⊎ ((ok ≡ false) × (stop (some p) ≡ fault) × (open_player will e ≡ fault)))
  unfolding open_player
  start-stop e r =
      let (ok, p, started, thread, context) = start_lem e r in
      (
        ok,
        p,
        started,
        thread,
        start-refused p,
        elim (stop-has_context p) [
          | inl there ↦ inl there
          | inr (lost, crashes) ↦
              let failed = no_context ok (has_context p) context lost in
              let e2 : start will e none ≡ done (false, some p) =
                started ∙ ap (λ b. done (b, some p)) failed in
              inr (failed, crashes, rw (e2, crashes) refl)
        ],
      )
