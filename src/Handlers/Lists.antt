-- ===== src/Handlers/Lists.antt =====
-- Adding a handler as the update of a table from functions to payloads.
use mathlib.Core.Path.{subst}
use msg_perf_tool.Base.{
  ℕ, ◌==◌, ne→==, if◌then◌else◌, Bool-cases, inl, inr, ◌≡◌, ◌≢◌, refl, ap, ◌∙◌, true, false, Option,
  none, some, List, [], ◌∷◌, ◌++◌, length, done, fault, arith,
}
use msg_perf_tool.Handlers.{Callback, find, next_place, wrapper_at, fill_in, set_place, add, run}

-- The list with every pointer to a callback.
abbrev pub pointers : List Callback → List (Option Callback)
pointers [] = []
pointers (c ∷ cs) = some c ∷ pointers cs

-- The table with one entry replaced, or added behind the others.
abbrev pub put : Callback → List Callback → List Callback
put new [] = new ∷ []
put new (c ∷ cs) = if c.call == new.call then new ∷ cs else c ∷ put new cs

-- The function is called by none of the handlers; no function is called by two.
abbrev pub IsAbsent : ℕ → List Callback → Type 0
IsAbsent call [] = Unit {0}
IsAbsent call (c ∷ cs) = (c.call ≢ call) × IsAbsent call cs

abbrev pub IsDistinct : List Callback → Type 0
IsDistinct [] = Unit {0}
IsDistinct (c ∷ cs) = IsAbsent c.call cs × IsDistinct cs

-- What the place that the walk found means for the table.
abbrev Agrees : Callback → List Callback → Option ℕ → Type 0
Agrees new cs none = pointers cs ++ some new ∷ [] ≡ pointers (put new cs)
Agrees new cs (some i) = set_place i new (pointers cs) ≡ pointers (put new cs)

Agrees-next :
    (new c : Callback) (cs : List Callback) (o : Option ℕ)
    → (c.call == new.call) ≡ false
    → Agrees new cs o
    → Agrees new (c ∷ cs) (next_place o)
unfolding set_place
Agrees-next new c cs none e h = rw e (ap (◌∷◌ (some c)) h)
Agrees-next new c cs (some i) e h = rw e (ap (◌∷◌ (some c)) h)

find-Agrees : (new : Callback) (cs : List Callback) → Agrees new cs (find new.call (pointers cs))
unfolding find set_place
find-Agrees new [] = refl
find-Agrees new (c ∷ cs) = elim (Bool-cases (c.call == new.call)) [
  | inl e ↦ rw e (rw e refl)
  | inr e ↦ rw e (Agrees-next new c cs (find new.call (pointers cs)) e (find-Agrees new cs))
]

set_place-length :
    (new old : Callback) (hs : List (Option Callback))
    → set_place (length hs) new (hs ++ some old ∷ []) ≡ hs ++ some new ∷ []
unfolding set_place
set_place-length new old [] = refl
set_place-length new old (h ∷ hs) = ap (◌∷◌ h) (set_place-length new old hs)

-- The end of `vmslh_add` by what the walk found.
fill_in-Agrees :
    (new old : Callback) (cs : List Callback) (o : Option ℕ)
    → Agrees new cs o
    → fill_in new (wrapper_at (some old) true (pointers cs) o) ≡ (pointers (put new cs), true)
unfolding fill_in wrapper_at
fill_in-Agrees new old cs none h =
    ap (λ hs. (hs, true)) (set_place-length new old (pointers cs) ∙ h)
fill_in-Agrees new old cs (some i) h = ap (λ hs. (hs, true)) h

-- The table that `vmslh_add` leaves.
pub add-put :
    (new old : Callback) (cs : List Callback)
    → add (some old) true new.call new.payload (pointers cs) ≡ (pointers (put new cs), true)
unfolding add
add-put new old cs = fill_in-Agrees new old cs (find new.call (pointers cs)) (find-Agrees new cs)

pub run-pointers : (cs : List Callback) → run (pointers cs) ≡ done cs
unfolding run
run-pointers [] = refl
run-pointers (c ∷ cs) = rw (run-pointers cs)

-- With memory there, `vmslh_add` succeeds on a list of callbacks, and running the list then calls
-- them in their order, with the payload of the function replaced where it was there and the new
-- callback at the end where it was not.
pub add-run :
    (new old : Callback) (cs : List Callback)
    → let (hs, added) = add (some old) true new.call new.payload (pointers cs) in
      (added ≡ true) × (run hs ≡ done (put new cs))
add-run new old cs =
    let e = add-put new old cs in (ap (λ x. x.1) e, ap (λ x. run x.0) e ∙ run-pointers (put new cs))

put-IsAbsent :
    (new : Callback) (call : ℕ) (cs : List Callback)
    → new.call ≢ call
    → IsAbsent call cs
    → IsAbsent call (put new cs)
put-IsAbsent new call [] ne h = (ne, tt)
put-IsAbsent new call (c ∷ cs) ne (a, h) = elim (Bool-cases (c.call == new.call)) [
  | inl e ↦ rw e (ne, h)
  | inr e ↦ rw e (a, put-IsAbsent new call cs ne h)
]

same : {a b : ℕ} → (a == b) ≡ true → a ≡ b
same e = ground arith

other : {a b : ℕ} → (a == b) ≡ false → b ≢ a
other e = ground arith

pub put-IsDistinct : (new : Callback) (cs : List Callback) → IsDistinct cs → IsDistinct (put new cs)
put-IsDistinct new [] h = (tt, tt)
put-IsDistinct new (c ∷ cs) (a, h) = elim (Bool-cases (c.call == new.call)) [
  | inl e ↦ rw e (subst (λ k. IsAbsent k cs) (same e) a, h)
  | inr e ↦ rw e (put-IsAbsent new c.call cs (other e) a, put-IsDistinct new cs h)
]

-- Each function stays registered at most once: from a list in which no function is called by two
-- handlers, `vmslh_add` makes another such list.
pub add-IsDistinct :
    (new old : Callback) (cs : List Callback)
    → IsDistinct cs
    → (cs' : List Callback) × IsDistinct cs'
      × (add (some old) true new.call new.payload (pointers cs) ≡ (pointers cs', true))
add-IsDistinct new old cs h = (put new cs, put-IsDistinct new cs h, add-put new old cs)

find-IsAbsent : (call : ℕ) (cs : List Callback) → IsAbsent call cs → find call (pointers cs) ≡ none
unfolding find
find-IsAbsent call [] h = refl
find-IsAbsent call (c ∷ cs) (ne, h) = rw (ne→== c.call call ne, find-IsAbsent call cs h)

run-null : (hs : List (Option Callback)) → run (hs ++ none ∷ []) ≡ fault
unfolding run
run-null [] = refl
run-null (none ∷ hs) = refl
run-null (some c ∷ hs) = rw (run-null hs)

-- When there is no memory for a new callback but the list takes the null pointer, `vmslh_add` fails
-- and leaves that pointer in the list: the next run of the handlers crashes.
pub add_no_memory-run :
    (call payload : ℕ) (cs : List Callback)
    → IsAbsent call cs
    → let (hs, added) = add none true call payload (pointers cs) in
      (added ≡ false) × (run hs ≡ fault)
unfolding add fill_in wrapper_at
add_no_memory-run call payload cs h =
    let new : Callback = record { call = call; payload = payload } in
    let e : add none true call payload (pointers cs) ≡ (pointers cs ++ none ∷ [], false) =
      ap (λ o. fill_in new (wrapper_at none true (pointers cs) o)) (find-IsAbsent call cs h) in
    (ap (λ x. x.1) e, ap (λ x. run x.0) e ∙ run-null (pointers cs))
