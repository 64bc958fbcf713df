-- ===== src/Examples/Inspections.antt =====
-- The inspection of a broker and the reports of a test, at concrete inputs.
use msg_perf_tool.Base.{
  ℕ, ◌≡◌, ◌≢◌, refl, true, false, none, some, List, [], ◌∷◌, length, c_string, done, arith, leb,
}
use msg_perf_tool.Daemon.Inspection.{MemInfo, Turn, Setup, Inspected, collect, collect_all}
use msg_perf_tool.Daemon.Inspection.Columns.{WholeRows, collect-columns}
use msg_perf_tool.Daemon.Inspection.Turns.{AllFailed, collect_all-sticky}
use msg_perf_tool.Reports.{
  Reports, Disk, Naming, latency, throughput, rate, csv, hdr, file_of, file_name, latency_name,
  throughput_name, rate_name, csv_suffix, initialize_writer,
}
use msg_perf_tool.Reports.Formats.{IsFree, opened, initialize-opens}
use msg_perf_tool.Reports.Histograms.{SameRates, histogram_file, initialize-hdr-csv}
use msg_perf_tool.Examples.Daemons.{options}

abbrev mem_info : MemInfo
mem_info = record { init = 1; committed = 2; max = 4; used = 3 }

abbrev turn_at : ℕ → Turn
turn_at n = record {
  started = leb n 2;
  time = some n;
  time_clear = true;
  now = n;
  os = record {
    load = 1;
    open_fd = 20;
    max_fd = 100;
    mem_free = 5;
    swap_free = 6;
    swap_committed = 7;
  };
  mem = record { eden = mem_info; survivor = mem_info; tenured = mem_info; metaperm = mem_info };
  mem_clear = true;
  queue = record { queue_size = n; consumer_count = 1; msg_ack_count = n; msg_exp_count = 0 };
  queue_clear = true;
  flushed = true;
}

abbrev ready : Setup
ready = record {
  directory = true;
  opened = true;
  context = true;
  purged = true;
  capabilities = true;
  dumped = true;
  worker_dumped = true;
  clear = true;
  begun = true;
  closed = true;
}

collect-columns_example :
    (x : Inspected) × (collect (λ n. n) false options turn_at ready 4 true ≡ done x)
    × WholeRows (λ n. n) false options turn_at x
collect-columns_example = collect-columns (λ n. n) false options turn_at ready 3 refl

collect_all-sticky_example :
    (xs : List Inspected) × (collect_all
        (λ n. n)
        true
        4
        ((options, turn_at, ready) ∷ (options, turn_at, ready) ∷ [])
        false
      ≡ done xs)
    × (length xs ≡ 2)
    × AllFailed (λ n. n) true xs
collect_all-sticky_example =
    collect_all-sticky (λ n. n) true 3 ((options, turn_at, ready) ∷ (options, turn_at, ready) ∷ [])

abbrev disk : Disk
disk = record {
  renames = λ name. true;
  opens = λ name. true;
  flushes = λ name. true;
  records = true;
  unlocated = λ name. none;
}

disk-IsFree : IsFree disk
disk-IsFree = record { renames = λ name. refl; opens = λ name. refl; flushes = λ name. refl }

abbrev naming : Naming
naming = record { source = 115 ∷ 101 ∷ 110 ∷ 100 ∷ 0 ∷ []; location = some (47 ∷ 116 ∷ []) }

abbrev unset : Reports
unset = record {
  lat_file = none;
  tp_file = none;
  tpr_file = none;
  histogram = none;
  latency_writer = none;
  throughput_writer = none;
  tpr_writer = none;
}

initialize-opens_example :
    (r' : Reports) × (initialize_writer 255 disk naming csv 6 unset ≡ (true, r'))
    × (file_of latency r' ≡ none)
    × (file_of throughput r'
        ≡ some (opened 255 disk naming (47 ∷ 116 ∷ []) refl disk-IsFree throughput throughput_name))
    × (file_of rate r'
        ≡ some (opened 255 disk naming (47 ∷ 116 ∷ []) refl disk-IsFree rate rate_name))
    × (file_name 255 naming latency_name csv_suffix
        ≢ file_name 255 naming throughput_name csv_suffix)
    × (file_name 255 naming latency_name csv_suffix ≢ file_name 255 naming rate_name csv_suffix)
    × (file_name 255 naming throughput_name csv_suffix ≢ file_name 255 naming rate_name csv_suffix)
unfolding c_string
initialize-opens_example =
    initialize-opens 255 disk naming (47 ∷ 116 ∷ []) refl disk-IsFree 6 unset (omega arith)

initialize-hdr-csv_example :
    (r' : Reports) × (r'' : Reports) × (initialize_writer 255 disk naming hdr 7 unset ≡ (true, r'))
    × (initialize_writer 255 disk naming csv 7 unset ≡ (true, r''))
    × SameRates 255 disk naming (47 ∷ 116 ∷ []) refl disk-IsFree r' r''
    × (r'.lat_file ≡ none)
    × (r'.histogram ≡ some (histogram_file 255 disk naming (47 ∷ 116 ∷ []) refl disk-IsFree))
initialize-hdr-csv_example =
    initialize-hdr-csv 255 disk naming (47 ∷ 116 ∷ []) refl disk-IsFree 7 unset refl
