-- ===== src/Load/Accounts.antt =====
-- The accounts of a sender: what it counts is what it sends, and its samples add up.
use msg_perf_tool.Base.{
  ℕ, suc, ◌+◌, ◌-◌, ◌%◌, ◌^◌, ◌≤◌, ◌<◌, ◌≡◌, refl, sym, ap, ◌∙◌, inl, inr, Bool, true, false, ltb,
  if◌then◌else◌, List, [], ◌∷◌, ◌++◌, length, length-append, if-holds, some, done, arith, ltb→lt,
  ◌==◌,
}
use msg_perf_tool.Content.{Content}
use msg_perf_tool.Vmsl.{stat_error}
use msg_perf_tool.Worker.Clone.{worker_success}
use msg_perf_tool.Daemon.Options.{WorkerOptions, message_count}
use msg_perf_tool.Load.{Time, Snapshot, Clock, worker_check}
use msg_perf_tool.Load.Turns.{turns-Ends, Final}
use msg_perf_tool.Load.Sending.{
  Turn, Sender, Opening, fresh, goes_on, count_message, processed, sampled, naive_sample, throttled,
  naive_step, naive_loop, open_sender, run_sender, naive_sender_start,
}

abbrev pub total : List ℕ → ℕ
total [] = 0
total (n ∷ ns) = n + total ns

total-snoc : (ns : List ℕ) (n : ℕ) → total (ns ++ n ∷ []) ≡ total ns + n
total-snoc [] n = omega arith
total-snoc (k ∷ ns) n = ap (◌+◌ k) (total-snoc ns n) ∙ omega arith

if-true {ℓ} : {A : Type ℓ} (b : Bool) (x y : A) → b ≡ true → (if b then x else y) ≡ x
if-true b x y e = rw e refl

if-false {ℓ} : {A : Type ℓ} (b : Bool) (x y : A) → b ≡ false → (if b then x else y) ≡ y
if-false b x y e = rw e refl

-- The sender has sent `c` messages, which is its count, and its samples are the count up to the last
-- of them.
pub record HasSent (c : ℕ) (s : Sender) : Type 0 where
  pub count : s.snapshot.count ≡ c
  pub sent : length s.sent ≡ c
  pub last : s.last_count ≤ c
  pub samples : total s.samples ≡ s.last_count

-- The invariant of a sender of `limit` messages.
abbrev pub Within : ℕ → Sender → Type 0
Within limit s = HasSent s.snapshot.count s × (s.snapshot.count ≤ limit)

count_message-HasSent :
    (c : ℕ) (t : Turn) (s : Sender)
    → c + 1 < 2 ^ 64
    → HasSent c s
    → HasSent (c + 1) (count_message t s)
unfolding count_message
count_message-HasSent c t s small h = record {
  count = omega (arith, h.count);
  sent = length-append s.sent (t.load s.content ∷ []) ∙ omega (arith, h.sent);
  last = omega (arith, h.last);
  samples = h.samples;
}

sampled-HasSent : (c : ℕ) (s : Sender) → c < 2 ^ 64 → HasSent c s → HasSent c (sampled s)
sampled-HasSent c s small h = record {
  count = h.count;
  sent = h.sent;
  last = omega (arith, h.count);
  samples = total-snoc s.samples (processed s) ∙ omega (arith, h.count, h.last, h.samples);
}

module _ (o : WorkerOptions) (clock : Clock) (turn : ℕ → Turn) where
  naive_sample-HasSent :
      (c : ℕ) (t : Turn) (s : Sender)
      → c < 2 ^ 64
      → HasSent c s
      → HasSent c (naive_sample o clock turn t s).0
  unfolding naive_sample
  naive_sample-HasSent c t s small h =
      let h' = sampled-HasSent c s small h in
      if-holds {A = Sender × Bool} (λ r. HasSent c r.0)
        (clock.reaches 10 s.last_sample s.snapshot.now) _ _
        (if-holds {A = Sender × Bool} (λ r. HasSent c r.0) t.written _ _
          (record { count = h'.count; sent = h'.sent; last = h'.last; samples = h'.samples }) h)
        h

  throttled-HasSent : (c : ℕ) (s : Sender) → HasSent c s → HasSent c (throttled o clock turn s)
  unfolding throttled
  throttled-HasSent c s h =
      if-holds (HasSent c) (ltb 0 o.throttle) _ _
        (if-holds (HasSent c) ((s.round + 1) % 2 ^ 64 == o.throttle) _ _
          (record { count = h.count; sent = h.sent; last = h.last; samples = h.samples })
          (record { count = h.count; sent = h.sent; last = h.last; samples = h.samples }))
        h

  -- After a turn: the accounts hold, and where the loop goes on one message more has gone out.
  abbrev Progress : ℕ → ℕ → Sender × Bool → Type 0
  Progress limit c r = (d : ℕ) × HasSent d r.0 × (d ≤ limit) × (r.1 ≡ true → d ≡ c + 1)

  naive_step-Progress :
      (limit c n : ℕ) (s : Sender)
      → limit < 2 ^ 64
      → c < limit
      → HasSent c s
      → Progress limit c (naive_step o clock turn n s)
  unfolding naive_step
  naive_step-Progress limit c n s fits more h =
      let t = turn n in
      let counted = count_message-HasSent c t s (omega arith) h in
      let sample = naive_sample o clock turn t (count_message t s) in
      let h' = naive_sample-HasSent (c + 1) t (count_message t s) (omega arith) counted in
      if-holds (Progress limit c) (stat_error t.stat) _ _
        (
          c,
          record { count = h.count; sent = h.sent; last = h.last; samples = h.samples },
          omega arith,
          λ e. cc,
        )
        (if-holds (Progress limit c) sample.1 _ _
          (c + 1, throttled-HasSent (c + 1) sample.0 h', omega arith, λ e. refl)
          (c + 1, h', omega arith, λ e. refl))

  own : (c : ℕ) (s : Sender) → HasSent c s → HasSent s.snapshot.count s
  own c s h = record {
    count = refl;
    sent = h.sent ∙ sym h.count;
    last = omega (arith, h.last, h.count);
    samples = h.samples;
  }

  worker_check-below :
      (limit : ℕ) (interrupted : Bool) (s : Snapshot)
      → o.duration ≡ message_count limit
      → worker_check o interrupted s ≡ true
      → s.count < limit
  unfolding worker_check
  worker_check-below limit true s e on = cc
  worker_check-below limit false s e on = ltb→lt s.count limit (rw e at on)

  -- A sender of a given number of messages ends within as many turns and one more, whatever happens:
  -- it has sent as many messages as it counts, at most that number, and its samples add up to the
  -- count at the last of them; and it ends where the check of a turn fails or its body breaks off.
  pub naive_loop-ends :
      (limit : ℕ) (start : Time) (content : Content)
      → o.duration ≡ message_count limit
      → limit < 2 ^ 64
      → (s : Sender) × (naive_loop o clock turn (suc limit) (fresh o clock turn start content)
          ≡ done s)
        × HasSent s.snapshot.count s
        × (s.snapshot.count ≤ limit)
        × Final (goes_on o clock turn) (naive_step o clock turn) (Within limit) s
  unfolding naive_loop
  naive_loop-ends limit start content e fits =
      let (s, run, (h, below), final) =
        turns-Ends (goes_on o clock turn) (naive_step o clock turn) (Within limit)
          (λ s. limit - s.snapshot.count)
          (λ n s on (h, below).
            let more = worker_check-below limit (turn n).interrupted s.snapshot e on in
            let (d, h', below', next) =
              naive_step-Progress limit s.snapshot.count n s fits more h in
            (
              (own d (naive_step o clock turn n s).0 h', omega (arith, h'.count)),
              λ b. omega (arith, h'.count, next b),
            ))
          (suc limit) 0 (fresh o clock turn start content)
          (record { count = refl; sent = refl; last = omega arith; samples = refl }, omega arith)
          (omega arith) in
      (s, run, h, below, final)

  -- Nothing goes wrong in any turn.
  abbrev pub AllWell : Type 0
  AllWell =
      (n : ℕ)
      → ((turn n).interrupted ≡ false)
        × (stat_error (turn n).stat ≡ false)
        × ((turn n).written ≡ true)

  naive_sample-on :
      (t : Turn) (s : Sender) → t.written ≡ true → (naive_sample o clock turn t s).1 ≡ true
  unfolding naive_sample
  naive_sample-on t s written =
      if-holds {A = Sender × Bool} (λ r. r.1 ≡ true) (clock.reaches 10 s.last_sample s.snapshot.now)
        _ _ (ap (λ (r : Sender × Bool). r.1) (if-true t.written _ _ written)) refl

  naive_step-on : AllWell → (n : ℕ) (s : Sender) → (naive_step o clock turn n s).1 ≡ true
  unfolding naive_step
  naive_step-on well n s =
      let (quiet, sends, written) = well n in
      let sample = naive_sample o clock turn (turn n) (count_message (turn n) s) in
      ap (λ (r : Sender × Bool). r.1) (if-false (stat_error (turn n).stat) _ _ sends)
      ∙ ap (λ (r : Sender × Bool). r.1)
          (if-true sample.1 _ _ (naive_sample-on (turn n) (count_message (turn n) s) written))

  check-reached :
      (limit : ℕ) (s : Snapshot)
      → o.duration ≡ message_count limit
      → worker_check o false s ≡ false
      → limit ≤ s.count
  unfolding worker_check
  check-reached limit s e off = ground arith

  -- A sender of a given number of messages, 2 ^ 64 - 1 at most, that can be opened, is never
  -- interrupted, and whose sends and reports all succeed, succeeds after it has sent just that many.
  pub naive_sender_start-all :
      (p : Opening) (limit : ℕ) (begun : Time) (content : Content)
      → o.duration ≡ message_count limit
      → limit < 2 ^ 64
      → open_sender p ≡ some (begun, content)
      → AllWell
      → (s : Sender) × (naive_sender_start o clock turn p (suc limit)
          ≡ done (worker_success, some s))
        × (s.snapshot.count ≡ limit)
        × (length s.sent ≡ limit)
  unfolding naive_sender_start run_sender
  naive_sender_start-all p limit begun content e fits opened well =
      let (s, run, h, below, final) = naive_loop-ends limit begun content e fits in
      let full : s.snapshot.count ≡ limit = elim final [
        | inl (n, off) ↦
            let (quiet, _, _) = well n in
            omega (arith, check-reached limit s.snapshot e (rw quiet at off))
        | inr (n, s0, _, _, broke) ↦
            let clash : true ≡ false =
              sym (naive_step-on well n s0) ∙ ap (λ (r : Sender × Bool). r.1) broke in
            cc
      ] in
      (s, rw (opened, run) refl, full, h.sent ∙ full)
