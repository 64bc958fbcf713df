-- ===== src/Daemon/Inspection/Turns.antt =====
-- How an inspection ends, and what the status of an earlier one makes of it.
use msg_perf_tool.Base.{
  ℕ, zero, suc, ◌+◌, ◌≡◌, ◌≢◌, refl, ap, ◌∙◌, Bool-cases, Option-cases, inl, inr, Bool, false, ◌&&◌,
  Option, none, some, List, [], ◌∷◌, length, done, ◌>>=◌, arith,
}
use msg_perf_tool.Daemon.Options.{WorkerOptions}
use msg_perf_tool.Daemon.Inspection.{
  Report, Turn, Setup, Notice, failed, successful, Inspected, initialize, update, abort_check,
  turns, collect, collect_all,
}

module _ (mb : ℕ → ℕ) (modern : Bool) where
  -- With a status that is no success, no update succeeds, and the status stays so.
  update-sticky :
      (t : Turn) (report : Report)
      → ((update mb modern t false report).0 ≡ false)
        × ((update mb modern t false report).1 ≡ false)
  unfolding update
  update-sticky t report = elim (Option-cases t.time) [
    | inl e ↦ (rw e refl, rw e refl)
    | inr (time, e) ↦ (rw e refl, rw e refl)
  ]

  module _ (o : WorkerOptions) (turn : ℕ → Turn) where
    pub turns-sticky :
        (k n : ℕ) (report : Report)
        → (report' : Report) × (turns mb modern o turn (suc k) n false report
            ≡ done (false, report'))
    unfolding turns
    turns-sticky k n report = elim (Bool-cases (turn n).started) [
      | inl on ↦
          let (wrong, kept) = update-sticky (turn n) report in
          ((update mb modern (turn n) false report).2, rw (on, wrong, kept) refl)
      | inr off ↦ (report, rw off refl)
    ]

    -- The loop ends at the latest with the turn before which the daemon is stopped.
    pub turns-ends :
        (k n : ℕ) (clear : Bool) (report : Report)
        → (turn (n + k)).started ≡ false
        → (r : Bool × Report) × (turns mb modern o turn (suc k) n clear report ≡ done r)
    unfolding turns
    turns-ends zero n clear report off =
        let stopped : (turn n).started ≡ false = ap (λ i. (turn i).started) (omega arith) ∙ off in
        ((clear, report), rw stopped refl)
    turns-ends (suc k) n clear report off =
        let u = update mb modern (turn n) clear report in
        let (r, e) =
          turns-ends k (suc n) (u.1 && (turn n).flushed) u.2
            (ap (λ i. (turn i).started) (omega arith) ∙ off) in
        elim (Bool-cases (turn n).started) [
          | inr idle ↦ ((clear, report), rw idle refl)
          | inl on ↦ elim (Bool-cases u.0) [
            | inr bad ↦ ((u.1, u.2), rw (on, bad) refl)
            | inl good ↦ elim (Bool-cases (abort_check mb modern o turn (turn n))) [
              | inl over ↦ ((u.1, u.2), rw (on, good, over) refl)
              | inr further ↦ (r, rw (on, good, further) e)
            ]
          ]
        ]

    collect-sticky :
        (s : Setup) (k : ℕ)
        → (x : Inspected) × (collect mb modern o turn s (suc k) false ≡ done x)
          × (x.result ≡ false)
          × (x.notice ≢ some successful)
          × (x.clear ≡ false)
    unfolding collect
    collect-sticky s k =
        let (report, e) = turns-sticky k 0 initialize in
        let ended : Option Notice → Report → Inspected = λ notice report. record {
          result = false;
          notice = notice;
          clear = false;
          report = report;
        } in
        elim (Bool-cases s.directory) [
          | inr off ↦ (ended none [], rw off refl, refl, (λ h. cc), refl)
          | inl there ↦ elim (Bool-cases s.opened) [
            | inr off ↦ (ended (some failed) [], rw (there, off) refl, refl, (λ h. cc), refl)
            | inl opened ↦
                elim (Bool-cases
                  (s.context && s.purged && s.capabilities && s.dumped && s.worker_dumped)) [
                    | inr off ↦ (
                      ended (some failed) initialize,
                      rw (there, opened, off) refl,
                      refl,
                      (λ h. cc),
                      refl,
                    )
                    | inl fine ↦ (
                      ended (some failed) report,
                      rw (there, opened, fine, e) refl,
                      refl,
                      (λ h. cc),
                      refl,
                    )
                  ]
          ]
        ]

  -- No inspection succeeds, or says so.
  abbrev pub AllFailed : List Inspected → Type 0
  AllFailed [] = Unit {0}
  AllFailed (x ∷ xs) = (x.result ≡ false) × (x.notice ≢ some successful) × AllFailed xs

  -- Once the status of the daemon that inspects is no success, each later inspection ends at the latest
  -- in its first turn, and fails, whatever the broker answers: nothing ever resets the status.
  pub collect_all-sticky :
      (k : ℕ) (tests : List (WorkerOptions × (ℕ → Turn) × Setup))
      → (xs : List Inspected) × (collect_all mb modern (suc k) tests false ≡ done xs)
        × (length xs ≡ length tests)
        × AllFailed xs
  unfolding collect_all
  collect_all-sticky k [] = ([], refl, refl, tt)
  collect_all-sticky k ((o, turn, s) ∷ tests) =
      let (x, e, wrong, unsaid, kept) = collect-sticky o turn s k in
      let (xs, e', n, all) = collect_all-sticky k tests in
      let later =
        ap (λ c. collect_all mb modern (suc k) tests c >>= λ xs. done (x ∷ xs)) kept
        ∙ ap (λ r. r >>= λ xs. done (x ∷ xs)) e' in
      (
        x ∷ xs,
        ap (λ r. r >>= λ x. collect_all mb modern (suc k) tests x.clear >>= λ xs. done (x ∷ xs)) e
            ∙ later,
        ap suc n,
        (wrong, unsaid, all),
      )
