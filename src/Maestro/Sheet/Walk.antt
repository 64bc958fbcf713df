-- ===== src/Maestro/Sheet/Walk.antt =====
-- Which instrument of a sheet plays a request.
use msg_perf_tool.Base.{
  ℕ, ◌≡◌, ◌≢◌, refl, ne→==, eq→==, true, false, List, [], ◌∷◌, ◌++◌, done, ◌>>=◌,
}
use msg_perf_tool.Maestro.Note.{Note}
use msg_perf_tool.Maestro.Sheet.{PlayerInfo, Instrument, play_first}

-- No instrument of the list has the command.
abbrev pub NonePlays : {S : Type 0} → ℕ → List (Instrument S) → Type 0
NonePlays c [] = Unit {0}
NonePlays c (i ∷ is) = (i.command ≢ c) × NonePlays c is

-- The first instrument of the list whose command is that of the request plays it, and no other
-- does: not the instruments in front of it, which have other commands, nor those behind it.
pub play_first-first :
    {S : Type 0} (front back : List (Instrument S)) (i : Instrument S) (info : PlayerInfo) (st : S)
    (request response : Note)
    → NonePlays request.command front
    → i.command ≡ request.command
    → play_first (front ++ i ∷ back) info st request response
      ≡ (i.play st request response info >>= λ (st, r). done (st, r, true))
unfolding play_first
play_first-first [] back i info st request response h e = rw (eq→== _ _ e)
play_first-first (j ∷ front) back i info st request response (a, h) e =
    rw (ne→== _ _ a) (play_first-first front back i info st request response h e)

-- When no instrument has the command of the request, the response and the state are left alone and
-- the request counts as not handled.
pub play_first-none :
    {S : Type 0} (is : List (Instrument S)) (info : PlayerInfo) (st : S) (request response : Note)
    → NonePlays request.command is
    → play_first is info st request response ≡ done (st, response, false)
unfolding play_first
play_first-none [] info st request response h = refl
play_first-none (j ∷ is) info st request response (a, h) =
    rw (ne→== _ _ a) (play_first-none is info st request response h)
