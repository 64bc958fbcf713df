-- ===== src/Worker/Drain.antt =====
-- When `worker_manager_update_snapshot` ends, and what it writes.
use msg_perf_tool.Base.{
  ℕ, zero, suc, ◌<◌, ◌≡◌, refl, sym, ap, ◌∙◌, ltb, ◌⊎◌, inl, inr, true, false, none, some, List, [],
  ◌∷◌, ◌++◌, Bytes, arith, length, overlay_full, length-replicate, replicate, take, take-length,
}
use msg_perf_tool.Worker.Ipc.{
  Queue, sysv, posix, Received, message, nothing, broken, queue_read, wq_has_data, wq_error,
  wq_success, text_of,
}
use msg_perf_tool.Worker.Snapshots.{WorkerInfo, Report, reports_of, read_next, update_snapshot}

module _ (size : ℕ) (arrivals : ℕ → ℕ → Received) where
  -- From the `k`-th read on the child's queue holds these snapshots, in order, and then nothing.
  abbrev pub Holds : ℕ → ℕ → List Bytes → Type 0
  Holds child k [] = arrivals child k ≡ nothing
  Holds child k (s ∷ ss) =
      (arrivals child k ≡ message s) × (length s ≡ size) × Holds child (suc k) ss

  -- The manager's copy after these snapshots.
  abbrev pub after : WorkerInfo → List Bytes → WorkerInfo
  after w [] = record w { reads = suc w.reads }
  after w (s ∷ ss) = after (record w { snapshot = s; reads = suc w.reads }) ss

  abbrev pub all_reports : ℕ → List Bytes → List Report
  all_reports flags [] = []
  all_reports flags (s ∷ ss) = reports_of flags s ++ all_reports flags ss

  -- The queue exists, and the snapshot has its size.
  pub record IsReadable (w : WorkerInfo) : Type 0 where
    pub queue : (w.queue ≡ sysv true) ⊎ (w.queue ≡ posix)
    pub snapshot : length w.snapshot ≡ size

  ltb_irrefl : (n : ℕ) → ltb n n ≡ false
  ltb_irrefl n = ground arith

  text_of-full : (s : Bytes) → length s ≡ size → take size (text_of size s) ≡ s
  text_of-full s l =
      rw (overlay_full s (replicate size 0) (length-replicate size 0 ∙ sym l), ← l) (take-length s)

  queue_read-message :
      (q : Queue) (s dest : Bytes)
      → (q ≡ sysv true) ⊎ (q ≡ posix)
      → length s ≡ size
      → length dest ≡ size
      → queue_read size q size (message s) dest ≡ (wq_success, s)
  unfolding queue_read
  queue_read-message q s dest (inl e) l d =
      rw (e, ltb_irrefl size) (ap (λ bs. (wq_success, bs)) (text_of-full s l))
  queue_read-message q s dest (inr e) l d = rw (e, overlay_full s dest (d ∙ sym l))

  queue_read-nothing :
      (q : Queue) (dest : Bytes)
      → (q ≡ sysv true) ⊎ (q ≡ posix)
      → queue_read size q size nothing dest ≡ (3, dest)
  unfolding queue_read
  queue_read-nothing q dest (inl e) = rw (e, ltb_irrefl size)
  queue_read-nothing q dest (inr e) = rw e

  queue_read-broken :
      (q : Queue) (dest : Bytes) → queue_read size q size broken dest ≡ (wq_error, dest)
  unfolding queue_read
  queue_read-broken (sysv true) dest = rw (ltb_irrefl size)
  queue_read-broken (sysv false) dest = refl
  queue_read-broken posix dest = refl

  read_next-message :
      (w : WorkerInfo) (s : Bytes)
      → IsReadable w
      → arrivals w.child w.reads ≡ message s
      → length s ≡ size
      → read_next size arrivals w ≡ (wq_success, s)
  unfolding read_next
  read_next-message w s r e l = rw (e, queue_read-message w.queue s w.snapshot r.queue l r.snapshot)

  read_next-nothing :
      (w : WorkerInfo)
      → IsReadable w
      → arrivals w.child w.reads ≡ nothing
      → read_next size arrivals w ≡ (3, w.snapshot)
  unfolding read_next
  read_next-nothing w r e = rw (e, queue_read-nothing w.queue w.snapshot r.queue)

  -- When the worker's queue exists and holds whole snapshots and then nothing, and there is more
  -- fuel than snapshots, the update ends. It writes the reports of every snapshot, in the order of
  -- the queue, and keeps the last one.
  pub update_snapshot-fifo :
      (ss : List Bytes) (fuel : ℕ) (w : WorkerInfo)
      → IsReadable w
      → Holds w.child w.reads ss
      → length ss < fuel
      → update_snapshot size arrivals fuel w ≡ some (after w ss, all_reports w.flags ss)
  unfolding update_snapshot wq_has_data
  update_snapshot-fifo ss zero w r h enough = absurd (omega arith)
  update_snapshot-fifo [] (suc fuel) w r h enough = rw (read_next-nothing w r h)
  update_snapshot-fifo (s ∷ ss) (suc fuel) w r (e, l, h) enough =
      let rest =
        update_snapshot-fifo ss fuel (record w { snapshot = s; reads = suc w.reads })
          (record { queue = r.queue; snapshot = l }) h (omega arith) in
      let got = read_next-message w s r e l in rw (got, rest) (rw got)

  -- While every read of the child's queue fails, the update does not end, on any fuel: a failed
  -- read counts as one with data.
  pub update_snapshot-broken :
      (fuel : ℕ) (w : WorkerInfo)
      → ((k : ℕ) → arrivals w.child k ≡ broken)
      → update_snapshot size arrivals fuel w ≡ none
  unfolding update_snapshot read_next wq_has_data
  update_snapshot-broken zero w h = refl
  update_snapshot-broken (suc fuel) w h =
      let rest = update_snapshot-broken fuel (record w { reads = suc w.reads }) h in
      rw (h w.reads, queue_read-broken w.queue w.snapshot, rest)
