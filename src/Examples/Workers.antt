-- ===== src/Examples/Workers.antt =====
-- The worker manager at concrete lists of workers.
use msg_perf_tool.Base.{
  ℕ, zero, suc, ◌≤◌, ◌≡◌, ◌≢◌, ◌↔◌, refl, ◌==◌, if◌then◌else◌, Bool, true, false, inl, inr, none,
  some, List, [], ◌∷◌, Bytes, overlay, arith,
}
use msg_perf_tool.Worker.Ipc.{
  Queue, sysv, posix, Received, message, nothing, queue_read, vqueue_read, pqueue_read, wq_has_data,
}
use msg_perf_tool.Worker.Snapshots.{
  WorkerInfo, latency, flag_receiver, update_snapshot, read_next, reports_of,
}
use msg_perf_tool.Worker.Drain.{update_snapshot-fifo}
use msg_perf_tool.Worker.Table.{Manager}
use msg_perf_tool.Worker.Watchdog.{
  Wait, running, exited, signaled, Handler, ask, ask_eval, settle, visit, walk, count_end, watchdog,
  watchdog_loop,
}
use msg_perf_tool.Worker.Watching.{
  is_running, Completes, LetsRun, watchdog-survivors, updated, all_written,
}
use msg_perf_tool.Worker.Rounds.{AllOpen, OpenComplete, watchdog_loop-ends}
use msg_perf_tool.Worker.Locking.{IsComplete, watchdog-unlocked}
use msg_perf_tool.Worker.Stop.{Poll, Signal, ended, unchanged, AreSent, do_stop, do_stop-all}

-- Snapshots of two bytes, and workers whose queues answer at once that they are empty.
abbrev receiver : WorkerInfo
receiver = record {
  child = 5;
  flags = flag_receiver;
  queue = posix;
  snapshot = 0 ∷ 0 ∷ [];
  reads = 0;
}

abbrev sender : WorkerInfo
sender = record { child = 6; flags = 2; queue = sysv true; snapshot = 0 ∷ 0 ∷ []; reads = 0 }

abbrev quiet : ℕ → ℕ → Received
quiet child k = nothing

abbrev manager : Manager
manager = record {
  workers = some (receiver ∷ sender ∷ []);
  errors = 0;
  locked = false;
  reports = [];
}

quiet_read : (q : Queue) (dest : Bytes) → q ≢ sysv false → queue_read 2 q 2 nothing dest ≡ (3, dest)
unfolding queue_read vqueue_read pqueue_read
quiet_read (sysv true) dest opened = refl
quiet_read (sysv false) dest opened = absurd (opened refl)
quiet_read posix dest opened = refl

quiet_ends : OpenComplete 2 quiet 1
unfolding update_snapshot read_next wq_has_data
quiet_ends w opened = rw (quiet_read w.queue w.snapshot opened) (λ e. cc)

-- Two snapshots wait in the queue of the receiver.
abbrev busy : ℕ → ℕ → Received
busy child k =
    if k == 0 then message (1 ∷ 2 ∷ []) else if k == 1 then message (3 ∷ 4 ∷ []) else nothing

busy_lem :
    update_snapshot 2 busy 3 receiver
    ≡ some (
      record receiver { snapshot = 3 ∷ 4 ∷ []; reads = 3 },
      latency (1 ∷ 2 ∷ []) ∷ latency (3 ∷ 4 ∷ []) ∷ [],
    )
unfolding update_snapshot read_next queue_read vqueue_read pqueue_read wq_has_data reports_of
    overlay
busy_lem = refl

update_snapshot-fifo_example :
    update_snapshot 2 busy 3 receiver
    ≡ some (
      record receiver { snapshot = 3 ∷ 4 ∷ []; reads = 3 },
      latency (1 ∷ 2 ∷ []) ∷ latency (3 ∷ 4 ∷ []) ∷ [],
    )
unfolding reports_of
update_snapshot-fifo_example =
    update_snapshot-fifo 2 busy ((1 ∷ 2 ∷ []) ∷ (3 ∷ 4 ∷ []) ∷ []) 3 receiver
      (record { queue = inr refl; snapshot = refl }) (refl, refl, (refl, refl, refl)) (omega arith)

-- The handler of the daemons.
abbrev tolerant : Handler
tolerant = record { flags = 0; eval = none; print = none }

tolerant-LetsRun : LetsRun tolerant
unfolding ask ask_eval
tolerant-LetsRun w = refl

both_opened : AllOpen (receiver ∷ sender ∷ [])
both_opened = ((λ e. cc), ((λ e. cc), tt))

both_end : Completes 2 quiet 1 (receiver ∷ sender ∷ [])
both_end = (quiet_ends receiver both_opened.0, (quiet_ends sender both_opened.1.0, tt))

-- The receiver runs on, the sender has crashed.
abbrev crash : ℕ → Wait
crash child = if child == 5 then running else signaled 11

watchdog-survivors_example :
    watchdog 2 quiet 1 tolerant crash manager
    ≡ some (
      record manager {
        workers = some (updated 2 quiet 1 receiver ∷ []);
        errors = 1;
        reports = all_written 2 quiet 1 (receiver ∷ sender ∷ []);
      },
      true,
    )
unfolding count_end
watchdog-survivors_example =
    watchdog-survivors 2 quiet 1 tolerant crash manager (receiver ∷ sender ∷ []) tolerant-LetsRun
      refl both_end

-- No child runs from round 1 on.
abbrev later : ℕ → ℕ → Wait
later zero child = crash child
later (suc n) child = exited 0

later_gone : (n c : ℕ) → 1 ≤ n → is_running (later n c) ≡ false
later_gone zero c h = absurd (omega arith)
later_gone (suc n) c h = refl

watchdog_loop-ends_example :
    (m' : Manager) × (b : Bool) × (watchdog_loop 2 quiet 1 tolerant later 3 manager ≡ some (m', b))
    × (m'.workers ≡ some [])
    × ((b ≡ true) ↔ (m'.errors ≡ 0))
watchdog_loop-ends_example =
    watchdog_loop-ends 2 quiet 1 tolerant later 1 tolerant-LetsRun quiet_ends later_gone manager
      (receiver ∷ sender ∷ []) refl (omega arith) both_opened

abbrev strict : Handler
strict = record { flags = 1; eval = some (λ w. false); print = none }

strict-IsComplete : IsComplete strict
strict-IsComplete = record { eval = inr ((λ w. false), refl); print = inl refl }

-- The handler refuses the receiver, and the watchdog returns at once.
refused :
    watchdog 2 quiet 1 strict (λ child. running) manager
    ≡ some (record manager { workers = some (record receiver { reads = 1 } ∷ sender ∷ []) }, false)
unfolding watchdog walk visit settle ask ask_eval update_snapshot read_next queue_read vqueue_read
    pqueue_read wq_has_data
refused = refl

watchdog-unlocked_example : manager.locked ≡ false
watchdog-unlocked_example =
    watchdog-unlocked 2 quiet 1 strict (λ child. running) manager
      (record manager { workers = some (record receiver { reads = 1 } ∷ sender ∷ []) })
      (receiver ∷ sender ∷ []) false strict-IsComplete refl refused

abbrev silent : Handler
silent = record { flags = 2; eval = none; print = none }

-- One child ends and the other one does not.
abbrev stubborn : ℕ → ℕ → Poll
stubborn c k = if c == 5 then ended else unchanged

do_stop-all_example :
    (signals : List Signal) × AreSent stubborn 2 (receiver ∷ sender ∷ []) signals
    × (do_stop 2 quiet 1 (λ c. true) stubborn 2 manager
        ≡ some (
          record manager {
            workers = none;
            reports = all_written 2 quiet 1 (receiver ∷ sender ∷ []);
          },
          signals,
        ))
do_stop-all_example =
    do_stop-all 2 quiet 1 (λ c. true) stubborn 2 manager (receiver ∷ sender ∷ []) refl (λ c. refl)
      both_end
