-- ===== src/Daemon/Inspection/Columns.antt =====
-- The columns of the rows in the report of an inspection.
use msg_perf_tool.Base.{
  ℕ, zero, suc, ◌≡◌, ◌≢◌, ◌⊎◌, refl, ap, sym, ◌∙◌, if◌then◌else◌, Bool-cases, Option-cases, inl,
  inr, Bool, true, false, ◌&&◌, none, some, List, [], ◌∷◌, ◌++◌, replicate, Outcome, done,
  done-injective, arith,
}
use mathlib.Core.Path.{subst}
use mathlib.Core.List.{append_assoc}
use msg_perf_tool.Daemon.Options.{WorkerOptions}
use msg_perf_tool.Daemon.Inspection.{
  Report, comma, moment, Turn, Setup, failed, successful, Inspected, add_header_column, initialize,
  write_osinfo, write_mem, write_java_mem, write_queue_stat, update, abort_check, turns, collect,
}
use msg_perf_tool.Daemon.Inspection.Turns.{turns-ends, turns-sticky}

-- The numbers of cells in the rows of a report, the first of which has begun with `n` cells.
abbrev pub widths : ℕ → Report → List ℕ
widths n [] = []
widths n (i ∷ report) = if i.ends then suc n ∷ widths 0 report else widths (suc n) report

-- The cells of the row that has begun.
abbrev pub pending : ℕ → Report → ℕ
pending n [] = n
pending n (i ∷ report) = if i.ends then pending 0 report else pending (suc n) report

widths-append :
    (n : ℕ) (xs ys : Report) → widths n (xs ++ ys) ≡ widths n xs ++ widths (pending n xs) ys
widths-append n [] ys = refl
widths-append n (i ∷ xs) ys = elim (Bool-cases i.ends) [
  | inl e ↦ rw e (ap (◌∷◌ (suc n)) (widths-append 0 xs ys))
  | inr e ↦ rw e (widths-append (suc n) xs ys)
]

pending-append : (n : ℕ) (xs ys : Report) → pending n (xs ++ ys) ≡ pending (pending n xs) ys
pending-append n [] ys = refl
pending-append n (i ∷ xs) ys = elim (Bool-cases i.ends) [
  | inl e ↦ rw e (pending-append 0 xs ys)
  | inr e ↦ rw e (pending-append (suc n) xs ys)
]

replicate-snoc : (k n : ℕ) → replicate k n ++ n ∷ [] ≡ n ∷ replicate k n
replicate-snoc zero n = refl
replicate-snoc (suc k) n = ap (◌∷◌ n) (replicate-snoc k n)

-- A report of whole rows: the header, and then so many rows of a width.
pub record Rows (width k : ℕ) (report : Report) : Type 0 where
  pub widths_are : widths 0 report ≡ 27 ∷ replicate k width
  pub whole : pending 0 report ≡ 0

initialize-Rows : (width : ℕ) → Rows width 0 initialize
unfolding initialize add_header_column
initialize-Rows width = record { widths_are = refl; whole = refl }

regroup : (xs ys zs ws : Report) → ((xs ++ ys) ++ zs) ++ ws ≡ xs ++ (ys ++ (zs ++ ws))
regroup xs ys zs ws = append_assoc (xs ++ ys) zs ws ∙ append_assoc xs ys (zs ++ ws)

module _ (mb : ℕ → ℕ) (modern : Bool) where
  abbrev pub width : ℕ
  width = if modern then 27 else 23

  -- What a successful update adds.
  abbrev row : ℕ → Turn → Report
  row time t =
      (comma (moment time) ∷ write_osinfo mb modern t.os)
      ++ (write_java_mem mb modern t.mem ++ write_queue_stat mb modern t.queue)

  row-widths :
      (time : ℕ) (t : Turn) → (widths 0 (row time t) ≡ width ∷ []) × (pending 0 (row time t) ≡ 0)
  unfolding write_osinfo write_mem write_java_mem write_queue_stat
  row-widths time t = elim (Bool-cases modern) [
    | inl e ↦ (rw e refl, rw e refl)
    | inr e ↦ (rw e refl, rw e refl)
  ]

  row-Rows :
      (k time : ℕ) (t : Turn) (report : Report)
      → Rows width k report
      → Rows width (suc k) (report ++ row time t)
  row-Rows k time t report h =
      let (one, ended) = row-widths time t in
      record {
        widths_are =
            widths-append 0 report (row time t)
            ∙ ap (λ n. widths 0 report ++ widths n (row time t)) h.whole
            ∙ ap (λ ws. widths 0 report ++ ws) one
            ∙ ap (λ ws. ws ++ width ∷ []) h.widths_are
            ∙ ap (◌∷◌ 27) (replicate-snoc k width);
        whole =
            pending-append 0 report (row time t) ∙ ap (λ n. pending n (row time t)) h.whole ∙ ended;
      }

  -- An update of a status that is a success: it adds a row, or the status is none any more, or the report
  -- stays as it was.
  update-Rows :
      (t : Turn) (k : ℕ) (report : Report)
      → Rows width k report
      → (update mb modern t true report).1 ≡ true
      → (k' : ℕ) × Rows width k' (update mb modern t true report).2
  unfolding update
  update-Rows t k report h kept = elim (Option-cases t.time) [
    | inl e ↦ (k, rw e h)
    | inr (time, e) ↦ elim (Bool-cases t.mem_clear) [
      | inl m ↦ elim (Bool-cases t.queue_clear) [
        | inl q ↦ (
          suc k,
          rw (e, m, q)
              (subst (Rows width (suc k))
                (sym (
                  regroup report (comma (moment time) ∷ write_osinfo mb modern t.os)
                    (write_java_mem mb modern t.mem) (write_queue_stat mb modern t.queue)))
                (row-Rows k time t report h)),
        )
        | inr q ↦ let wrong : false ≡ true = rw (e, m, q) at kept in absurd (cc)
      ]
      | inr m ↦ let wrong : false ≡ true = rw (e, m) at kept in absurd (cc)
    ]
  ]

  update-clear :
      (t : Turn) (report : Report)
      → (update mb modern t true report).0 ≡ true
      → (update mb modern t true report).1 ≡ true
  unfolding update
  update-clear t report h = ground arith

  ended-Rows :
      (t : Turn) (k : ℕ) (report report' : Report)
      → Rows width k report
      → ◌≡◌ {A = Outcome (Bool × Report)}
          (done ((update mb modern t true report).1, (update mb modern t true report).2))
          (done (true, report'))
      → (k' : ℕ) × Rows width k' report'
  ended-Rows t k report report' h e =
      let (k', h') = update-Rows t k report h (ap (λ r. r.0) (done-injective e)) in
      (k', subst (Rows width k') (ap (λ r. r.1) (done-injective e)) h')

  module _ (o : WorkerOptions) (turn : ℕ → Turn) where
    -- The loop never ends as a success with a status that is none.
    turns-failed :
        (fuel n : ℕ) (report report' : Report)
        → turns mb modern o turn fuel n false report ≡ done (true, report')
        → ⊥
    unfolding turns
    turns-failed zero n report report' e = cc
    turns-failed (suc fuel) n report report' e =
        let (r, e') = turns-sticky mb modern o turn fuel n report in
        let wrong : false ≡ true = ap (λ x. x.0) (done-injective (sym e' ∙ e)) in cc

    turns-Rows :
        (fuel n k : ℕ) (report report' : Report)
        → Rows width k report
        → turns mb modern o turn fuel n true report ≡ done (true, report')
        → (k' : ℕ) × Rows width k' report'
    unfolding turns
    turns-Rows zero n k report report' h e = cc
    turns-Rows (suc fuel) n k report report' h e =
        let u = update mb modern (turn n) true report in
        elim (Bool-cases (turn n).started) [
          | inr off ↦
              let same : ◌≡◌ {A = Outcome (Bool × Report)} (done (true, report))
                  (done (true, report')) =
                rw off at e in
              (k, subst (Rows width k) (cc) h)
          | inl on ↦ elim (Bool-cases u.0) [
            | inr bad ↦
                let same : ◌≡◌ {A = Outcome (Bool × Report)} (done (u.1, u.2))
                    (done (true, report')) =
                  rw (on, bad) at e in
                ended-Rows (turn n) k report report' h same
            | inl good ↦ elim (Bool-cases (abort_check mb modern o turn (turn n))) [
              | inl over ↦
                  let same : ◌≡◌ {A = Outcome (Bool × Report)} (done (u.1, u.2))
                      (done (true, report')) =
                    rw (on, good, over) at e in
                  ended-Rows (turn n) k report report' h same
              | inr further ↦
                  let later : turns mb modern o turn fuel (suc n) (u.1 && (turn n).flushed) u.2
                      ≡ done (true, report') =
                    rw (on, good, further) at e in
                  let clear = update-clear (turn n) report good in
                  let (k', h') = update-Rows (turn n) k report h clear in
                  let after =
                    ap (λ c. turns mb modern o turn fuel (suc n) (c && (turn n).flushed) u.2)
                      (sym clear)
                    ∙ later in
                  elim (Bool-cases (turn n).flushed) [
                    | inl f ↦
                        turns-Rows fuel (suc n) k' u.2 report' h'
                          (ap (λ c. turns mb modern o turn fuel (suc n) c u.2) (sym f) ∙ after)
                    | inr f ↦ absurd (
                        turns-failed fuel (suc n) u.2 report'
                          (ap (λ c. turns mb modern o turn fuel (suc n) c u.2) (sym f) ∙ after))
                  ]
            ]
          ]
        ]

    -- What an inspection that says that it was successful leaves in its report.
    abbrev pub WholeRows : Inspected → Type 0
    WholeRows x =
        (x.notice ≢ some successful)
        ⊎ ((k : ℕ) × (widths 0 x.report ≡ 27 ∷ replicate k width) × (pending 0 x.report ≡ 0))

    ended-WholeRows :
        (begun closed clear : Bool) (report : Report) (j : ℕ)
        → turns mb modern o turn (suc j) 0 begun initialize ≡ done (clear, report)
        → WholeRows (record {
          result = clear;
          notice = some (if clear then successful else failed);
          clear = clear && closed;
          report = report;
        })
    ended-WholeRows true closed true report j e =
        let (k, rows) = turns-Rows (suc j) 0 0 initialize report (initialize-Rows width) e in
        inr (k, rows.widths_are, rows.whole)
    ended-WholeRows false closed true report j e =
        absurd (turns-failed (suc j) 0 initialize report e)
    ended-WholeRows begun closed false report j e = inl (λ h. cc)

    -- An inspection that begins with a status of success ends at the latest with the turn before which
    -- the daemon is stopped. Either it does not say that it was successful, or its report has whole rows
    -- only: after the header of 27 columns, rows of 27 cells for a broker of the modern memory model,
    -- and of 23 for any other.
    pub collect-columns :
        (s : Setup) (j : ℕ)
        → (turn j).started ≡ false
        → (x : Inspected) × (collect mb modern o turn s (suc j) true ≡ done x) × WholeRows x
    unfolding collect
    collect-columns s j off =
        let ((clear, report), e) =
          turns-ends mb modern o turn j 0 s.begun initialize
            (ap (λ i. (turn i).started) (omega arith) ∙ off) in
        let said_no : (report : Report) → Inspected = λ report. record {
          result = false;
          notice = some failed;
          clear = s.clear;
          report = report;
        } in
        elim (Bool-cases s.directory) [
          | inr off ↦ (
            record { result = false; notice = none; clear = s.clear; report = [] },
            rw off refl,
            inl (λ h. cc),
          )
          | inl there ↦ elim (Bool-cases s.opened) [
            | inr off ↦ (said_no [], rw (there, off) refl, inl (λ h. cc))
            | inl opened ↦
                elim (Bool-cases
                  (s.context && s.purged && s.capabilities && s.dumped && s.worker_dumped)) [
                    | inr off ↦ (said_no initialize, rw (there, opened, off) refl, inl (λ h. cc))
                    | inl fine ↦ (
                      record {
                        result = clear;
                        notice = some (if clear then successful else failed);
                        clear = clear && s.closed;
                        report = report;
                      },
                      rw (there, opened, fine, e) refl,
                      ended-WholeRows s.begun s.closed clear report j e,
                    )
                  ]
          ]
        ]
