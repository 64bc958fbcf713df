-- ===== src/Bindings/Proton/Holding.antt =====
-- What the functions of a list do to the messages that wait and to those that are taken and not settled.
use msg_perf_tool.Base.{
  ℕ, ◌+◌, ◌-◌, ◌≤◌, ◌≡◌, ◌≢◌, ◌⊎◌, refl, sym, ◌∙◌, eq→==, ne→==, inl, inr, List, [], ◌∷◌, arith,
}
use msg_perf_tool.Handlers.{Callback}
use msg_perf_tool.Bindings.{Variants, apply_all}
use msg_perf_tool.Bindings.Proton.{Messenger, Functions, Addressed, on_messenger}

-- What the messenger's documentation says of its incoming messages, and of those that are taken and not
-- settled, `held`; other functions of the lists leave both alone.
pub record IsLawful {S : Type 0} (pn : Messenger S) (f : Functions S) (held : S → ℕ) : Type 0 where
  pub get_incoming : (s : S) → pn.incoming (pn.get s).1 ≡ pn.incoming s - 1
  pub get_held : (s : S) → held (pn.get s).1 ≤ held s + 1
  pub accept_incoming : (s : S) → pn.incoming (pn.accept s) ≡ pn.incoming s
  pub accept_held : (s : S) → held (pn.accept s) ≡ 0
  pub settle_incoming : (s : S) → pn.incoming (pn.settle s) ≡ pn.incoming s
  pub settle_held : (s : S) → held (pn.settle s) ≡ held s
  pub recv_held : (n : ℕ) (s : S) → held (pn.recv n s).1 ≡ held s
  pub other_incoming : (c : Callback) (s : S) → pn.incoming (f.other c s) ≡ pn.incoming s
  pub other_held : (c : Callback) (s : S) → held (f.other c s) ≡ held s
  pub distinct : f.accept ≢ f.commit

-- One of the callbacks has the function.
abbrev pub Calls : ℕ → List Callback → Type 0
Calls call [] = ⊥
Calls call (c ∷ cs) = (c.call ≡ call) ⊎ Calls call cs

module _ {S : Type 0} (pn : Messenger S) (v : Variants) (d : Addressed) (f : Functions S)
    (held : S → ℕ) (law : IsLawful pn f held) where
  one-incoming : (c : Callback) (s : S) → pn.incoming (on_messenger pn v d f c s) ≡ pn.incoming s
  unfolding on_messenger
  one-incoming c s =
      ground (arith, law.settle_incoming s, law.accept_incoming s, law.other_incoming c s)

  one-held : (c : Callback) (s : S) → held (on_messenger pn v d f c s) ≤ held s
  unfolding on_messenger
  one-held c s = ground (arith, law.settle_held s, law.accept_held s, law.other_held c s)

  pub all-incoming :
      (cs : List Callback) (s : S)
      → pn.incoming (apply_all (on_messenger pn v d f) cs s) ≡ pn.incoming s
  unfolding apply_all
  all-incoming [] s = refl
  all-incoming (c ∷ cs) s = all-incoming cs (on_messenger pn v d f c s) ∙ one-incoming c s

  pub all-held :
      (cs : List Callback) (s : S) → held (apply_all (on_messenger pn v d f) cs s) ≤ held s
  unfolding apply_all
  all-held [] s = omega arith
  all-held (c ∷ cs) s = omega (arith, all-held cs (on_messenger pn v d f c s), one-held c s)

  accept-held : (c : Callback) (s : S) → c.call ≡ f.accept → held (on_messenger pn v d f c s) ≡ 0
  unfolding on_messenger
  accept-held c s e =
      let ne = law.distinct in
      let apart : c.call ≢ f.commit = λ q. ne (sym e ∙ q) in
      rw (ne→== c.call f.commit apart, eq→== c.call f.accept e) (law.accept_held s)

  -- A list with `proton_accept` in it settles all that is held.
  pub accepts-held :
      (cs : List Callback) (s : S)
      → Calls f.accept cs
      → held (apply_all (on_messenger pn v d f) cs s) ≡ 0
  unfolding apply_all
  accepts-held [] s h = elim h [ ]
  accepts-held (c ∷ cs) s (inl e) =
      omega (arith, all-held cs (on_messenger pn v d f c s), accept-held c s e)
  accepts-held (c ∷ cs) s (inr h) = accepts-held cs (on_messenger pn v d f c s) h
