-- ===== src/Daemon/Inspection.antt =====
-- The inspection of a broker: `brokerd_collect` of brokerd_worker.c in
-- src/applications/mpt-daemons/broker, with the report of src/common/bmic/bmic_writer.c. What the
-- management library returns is an argument; a report is the values that are printed into it.
pub mod Columns
pub mod Turns
use msg_perf_tool.Base.{
  ℕ, zero, suc, ◌+◌, ◌-◌, ◌%◌, ◌^◌, leb, if◌then◌else◌, Bool, true, false, ◌&&◌, Option, none, some,
  List, [], ◌∷◌, ◌++◌, Outcome, done, unended, ◌>>=◌,
}
use msg_perf_tool.Daemon.Options.{WorkerOptions, message_count, test_time}

-- The columns of a report, as its header names them.
pub data Column : Type 0 where
  timestamp : Column
  load : Column
  open_fds : Column
  free_fds : Column
  free_mem : Column
  swap_free : Column
  swap_committed : Column
  eden_initial : Column
  eden_committed : Column
  eden_max : Column
  eden_used : Column
  survivor_initial : Column
  survivor_committed : Column
  survivor_max : Column
  survivor_used : Column
  tenured_initial : Column
  tenured_committed : Column
  tenured_max : Column
  tenured_used : Column
  pm_initial : Column
  pm_committed : Column
  pm_max : Column
  pm_used : Column
  queue_size : Column
  consumers : Column
  ack : Column
  exp : Column

-- What is printed at a place: a column's name, the text of the time, a number, or the load, which is
-- floating point.
pub data Cell : Type 0 where
  title : Column → Cell
  moment : ℕ → Cell
  number : ℕ → Cell
  load_average : ℕ → Cell

-- A cell with what is printed behind it, a comma or the end of the line.
pub record Item : Type 0 where
  pub cell : Cell
  pub ends : Bool

abbrev pub comma : Cell → Item
comma c = record { cell = c; ends = false }

abbrev pub newline : Cell → Item
newline c = record { cell = c; ends = true }

abbrev pub Report : Type 0
Report = List Item

-- `bmic_writer_add_header_column`
unfoldable pub add_header_column : Column → Bool → Report → Report
add_header_column name more report =
    report ++ (if more then comma (title name) else newline (title name)) ∷ []

add_header_columns : List Column → Report → Report
unfolding add_header_column
add_header_columns [] report = report
add_header_columns (c ∷ cs) report = add_header_columns cs (add_header_column c true report)

-- The columns of the header that are followed by others.
abbrev pub inner_columns : List Column
inner_columns =
    Column.timestamp ∷ Column.load ∷ Column.open_fds ∷ Column.free_fds ∷ Column.free_mem
    ∷ Column.swap_free ∷ Column.swap_committed ∷ Column.eden_initial ∷ Column.eden_committed
    ∷ Column.eden_max ∷ Column.eden_used ∷ Column.survivor_initial ∷ Column.survivor_committed
    ∷ Column.survivor_max ∷ Column.survivor_used ∷ Column.tenured_initial ∷ Column.tenured_committed
    ∷ Column.tenured_max ∷ Column.tenured_used ∷ Column.pm_initial ∷ Column.pm_committed
    ∷ Column.pm_max ∷ Column.pm_used ∷ Column.queue_size ∷ Column.consumers ∷ Column.ack ∷ []

-- `bmic_writer_initialize` on a file that could be opened.
unfoldable pub initialize : Report
unfolding add_header_columns add_header_column
initialize = add_header_column Column.exp false (add_header_columns inner_columns [])

-- `bmic_java_os_info_t`, `bmic_java_mem_info_t`, `mpt_java_mem_t` and `bmic_queue_stat_t`
pub record OsInfo : Type 0 where
  pub load : ℕ
  pub open_fd : ℕ
  pub max_fd : ℕ
  pub mem_free : ℕ
  pub swap_free : ℕ
  pub swap_committed : ℕ

pub record MemInfo : Type 0 where
  pub init : ℕ
  pub committed : ℕ
  pub max : ℕ
  pub used : ℕ

pub record JavaMem : Type 0 where
  pub eden : MemInfo
  pub survivor : MemInfo
  pub tenured : MemInfo
  pub metaperm : MemInfo

pub record QueueStat : Type 0 where
  pub queue_size : ℕ
  pub consumer_count : ℕ
  pub msg_ack_count : ℕ
  pub msg_exp_count : ℕ

-- What a turn of the inspection gets from outside: whether the daemon is still started, the time, if it
-- can be written, and whether a failure leaves the status a success; what the management library
-- reads, and whether it leaves the status a success; and whether the report can be flushed, which sets the
-- status where it cannot.
pub record Turn : Type 0 where
  pub started : Bool
  pub time : Option ℕ
  pub time_clear : Bool
  pub now : ℕ
  pub os : OsInfo
  pub mem : JavaMem
  pub mem_clear : Bool
  pub queue : QueueStat
  pub queue_clear : Bool
  pub flushed : Bool

-- What an inspection gets from outside before its loop: whether there is a directory, the report can be
-- opened, the context made, the queue purged, the capabilities read, and the two files of properties
-- written; whether what fails leaves the status a success, and so do all the calls before the loop that do
-- not end the inspection, such as a purge that fails before a reset that succeeds; and whether the
-- notification and the end of the report do after an inspection.
pub record Setup : Type 0 where
  pub directory : Bool
  pub opened : Bool
  pub context : Bool
  pub purged : Bool
  pub capabilities : Bool
  pub dumped : Bool
  pub worker_dumped : Bool
  pub clear : Bool
  pub begun : Bool
  pub closed : Bool

-- The notification at the end of an inspection.
pub data Notice : Type 0 where
  failed : Notice
  successful : Notice

-- What an inspection leaves: its result, the notification, whether the status is a success, and the
-- report.
pub record Inspected : Type 0 where
  pub result : Bool
  pub notice : Option Notice
  pub clear : Bool
  pub report : Report

-- `bmic_writer_osinfo_free_fd`
unfoldable pub free_fd : OsInfo → ℕ
free_fd os = (os.max_fd + 2 ^ 64 - os.open_fd) % 2 ^ 64

-- The gru library's conversion to megabytes, and whether the broker's memory model is the modern one.
module _ (mb : ℕ → ℕ) (modern : Bool) where
  -- `bmic_writer_osinfo`
  unfoldable pub write_osinfo : OsInfo → Report
  unfolding free_fd
  write_osinfo os =
      comma (load_average os.load)
      ∷ comma (number os.open_fd)
      ∷ comma (number (free_fd os))
      ∷ comma (number (mb os.mem_free))
      ∷ comma (number (mb os.swap_free))
      ∷ comma (number (mb os.swap_committed))
      ∷ []

  -- `bmic_write_mem`
  unfoldable pub write_mem : MemInfo → Report
  write_mem mem =
      comma (number (mb mem.init))
      ∷ comma (number (mb mem.committed))
      ∷ comma (number (mb mem.max))
      ∷ comma (number (mb mem.used))
      ∷ []

  -- `bmic_writer_java_mem`
  unfoldable pub write_java_mem : JavaMem → Report
  unfolding write_mem
  write_java_mem mem =
      write_mem mem.eden
      ++ (write_mem mem.survivor
          ++ (write_mem mem.tenured ++ (if modern then write_mem mem.metaperm else [])))

  -- `bmic_writer_queue_stat`
  unfoldable pub write_queue_stat : QueueStat → Report
  write_queue_stat stat =
      comma (number stat.queue_size)
      ∷ comma (number stat.consumer_count)
      ∷ comma (number stat.msg_ack_count)
      ∷ newline (number stat.msg_exp_count)
      ∷ []

  -- `brokerd_update`, given whether the status is a success: its result, the status, and the report.
  unfoldable pub update : Turn → Bool → Report → Bool × Bool × Report
  unfolding write_osinfo write_java_mem write_queue_stat
  update t clear report = elim t.time [
    | none ↦ (false, clear && t.time_clear, report)
    | some time ↦
        let report = report ++ (comma (moment time) ∷ write_osinfo t.os) in
        let with_mem = report ++ write_java_mem t.mem in
        if clear && t.mem_clear
        then if t.queue_clear
          then (true, true, with_mem ++ write_queue_stat t.queue)
          else (false, false, with_mem)
        else (false, false, report)
  ]

  module _ (o : WorkerOptions) (turn : ℕ → Turn) where
    -- `brokerd_abort_check`
    unfoldable pub abort_check : Turn → Bool
    abort_check t = elim o.duration [
      | message_count n ↦ leb n ((t.queue.msg_ack_count + t.queue.msg_exp_count) % 2 ^ 64)
      | test_time end ↦ leb end t.now
    ]

    -- The loop of `brokerd_collect` on fuel, from turn `n` on: the status and the report.
    unfoldable pub turns : ℕ → ℕ → Bool → Report → Outcome (Bool × Report)
    unfolding update abort_check
    turns zero n clear report = unended
    turns (suc k) n clear report =
        let (updated, clear', report') = update (turn n) clear report in
        let later = turns k (suc n) (clear' && (turn n).flushed) report' in
        if (turn n).started
        then if updated
          then if abort_check (turn n) then done (clear', report') else later
          else done (clear', report')
        else done (clear, report)

    -- `brokerd_collect` on fuel, given whether the status is a success. The report is finished in each of
    -- its ends but the first.
    unfoldable pub collect : Setup → ℕ → Bool → Outcome Inspected
    unfolding turns initialize
    collect s fuel clear =
        let failing : Report → Inspected = λ report. record {
          result = false;
          notice = some failed;
          clear = clear && s.clear;
          report = report;
        } in
        let concluded : Bool × Report → Inspected = λ (clear, report). record {
          result = clear;
          notice = some (if clear then successful else failed);
          clear = clear && s.closed;
          report = report;
        } in
        let inspected = turns fuel 0 (clear && s.begun) initialize >>= λ r. done (concluded r) in
        if s.directory
        then if s.opened
          then if s.context && s.purged && s.capabilities && s.dumped && s.worker_dumped
            then inspected
            else done (failing initialize)
          else done (failing [])
        else done (record { result = false; notice = none; clear = clear && s.clear; report = [] })

  -- The inspections that `brokerd_worker_start` makes one after the other, with the status that the first
  -- one leaves to the next.
  unfoldable pub collect_all :
      ℕ → List (WorkerOptions × (ℕ → Turn) × Setup) → Bool → Outcome (List Inspected)
  unfolding collect
  collect_all fuel [] clear = done []
  collect_all fuel ((o, turn, s) ∷ tests) clear = do
    x ← collect o turn s fuel clear
    xs ← collect_all fuel tests x.clear
    done (x ∷ xs)
