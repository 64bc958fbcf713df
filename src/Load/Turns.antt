-- ===== src/Load/Turns.antt =====
-- Loops that check a condition and then run a body, which may break: the shape of each loop of
-- src/worker's senders and receivers.
use msg_perf_tool.Base.{
  ℕ, zero, suc, ◌<◌, ◌≡◌, refl, ◌⊎◌, inl, inr, if◌then◌else◌, Bool, true, false, Bool-cases,
  Outcome, done, unended, arith,
}

module _ {S : Type 0} (check : ℕ → S → Bool) (step : ℕ → S → S × Bool) where
  -- What a turn is followed by: the rest of the loop, or its end.
  abbrev goes_on : S × Bool → (S → Outcome S) → Outcome S
  goes_on (s, true) rest = rest s
  goes_on (s, false) rest = done s

  -- The loop on fuel, from turn `n` on.
  unfoldable pub turns : ℕ → ℕ → S → Outcome S
  turns zero n s = unended
  turns (suc k) n s =
      let next = goes_on (step n s) (λ s. turns k (suc n) s) in if check n s then next else done s

  -- A state in which the loop may end: the check fails, or the body has broken off.
  abbrev pub Final : (S → Type 0) → S → Type 0
  Final P s' =
      ((n : ℕ) × (check n s' ≡ false))
      ⊎ ((n : ℕ) × (s : S) × P s × (check n s ≡ true) × (step n s ≡ (s', false)))

  -- Where the check holds, the body keeps the invariant, and it goes on only with a smaller measure.
  abbrev pub Decreases : (S → Type 0) → (S → ℕ) → Type 0
  Decreases P μ =
      (n : ℕ) (s : S)
      → check n s ≡ true
      → P s
      → P (step n s).0 × ((step n s).1 ≡ true → μ (step n s).0 < μ s)

  -- What the loop ends with.
  abbrev pub Ends : (S → Type 0) → Outcome S → Type 0
  Ends P run = (s' : S) × (run ≡ done s') × P s' × Final P s'

  goes_on-Ends :
      (P : S → Type 0) (n : ℕ) (s s' : S) (b : Bool) (rest : S → Outcome S)
      → check n s ≡ true
      → P s
      → step n s ≡ (s', b)
      → P s'
      → (b ≡ true → Ends P (rest s'))
      → Ends P (goes_on (s', b) rest)
  goes_on-Ends P n s s' true rest on p e p' h = h refl
  goes_on-Ends P n s s' false rest on p e p' h = (s', refl, p', inr (n, s, p, on, e))

  -- Fuel above the measure is enough.
  pub turns-Ends :
      (P : S → Type 0) (μ : S → ℕ)
      → Decreases P μ
      → (k n : ℕ) (s : S) → P s
      → μ s < k
      → Ends P (turns k n s)
  unfolding turns
  turns-Ends P μ dec zero n s p enough = absurd (omega arith)
  turns-Ends P μ dec (suc k) n s p enough = elim (Bool-cases (check n s)) [
    | inr off ↦ (s, rw off refl, p, inl (n, off))
    | inl on ↦
        let (p', less) = dec n s on p in
        rw on (
          goes_on-Ends P n s (step n s).0 (step n s).1 (λ s. turns k (suc n) s) on p refl p'
            (λ b. turns-Ends P μ dec k (suc n) (step n s).0 p' (omega (arith, less b))))
  ]
