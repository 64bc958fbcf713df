-- ===== src/Reports/Formats.antt =====
-- The files that the start of a test opens.
use msg_perf_tool.Base.{
  ℕ, ◌+◌, ◌≤◌, ◌≡◌, ◌≢◌, refl, ap, ◌∙◌, if◌then◌else◌, Bool, true, false, some, [], ◌∷◌, Bytes,
  length, c_string, arith,
}
use msg_perf_tool.Reports.{
  Stat, latency, throughput, rate, header, File, csv, Reports, Disk, open_file, write_initialize,
  file_of, set_file, initialized, csv_initialize, nm_latency, nm_throughput, nm_rate, names_stat,
  latency_name, throughput_name, rate_name, csv_suffix, Naming, file_name, csv_block,
  initialize_csv_writer, initialize_writer,
}
use msg_perf_tool.Reports.Names.{heads-ne, names-ne}

-- Every file can be opened, and its header written.
pub record IsFree (d : Disk) : Type 0 where
  pub renames : (name : Bytes) → d.renames name ≡ true
  pub opens : (name : Bytes) → d.opens name ≡ true
  pub flushes : (name : Bytes) → d.flushes name ≡ true

module _ (filename_max : ℕ) (d : Disk) (nm : Naming) where
  module _ (directory : Bytes) (there : nm.location ≡ some directory) (free : IsFree d) where
    -- The file of a report as it is opened, with its header.
    abbrev pub opened : Stat → Bytes → File
    opened stat base = record {
      directory = directory;
      name = file_name filename_max nm base csv_suffix;
      rows = header stat ∷ [];
    }

    abbrev pub step : Stat → Bytes → Bool → (Reports → Reports) → Reports → Reports
    step stat base asked set r =
        if asked then set_file stat (some (opened stat base)) (set r) else r

    pub block_lem :
        (stat : Stat) (base : Bytes) (asked : Bool) (set : Reports → Reports) (r : Reports)
        → csv_block filename_max d nm stat base asked set (true, r)
          ≡ (true, step stat base asked set r)
    unfolding csv_block csv_initialize write_initialize open_file initialized
    block_lem stat base false set r = refl
    block_lem stat base true set r =
        let name = file_name filename_max nm base csv_suffix in
        rw (there, free.renames name, free.opens name, free.flushes name) refl

    -- A step leaves the files of the other reports alone, and opens its own where it is asked.
    kept :
        (s stat : Stat) (base : Bytes) (asked : Bool) (set : Reports → Reports) (r : Reports)
        → file_of s (set_file stat (some (opened stat base)) (set r)) ≡ file_of s r
        → file_of s (step stat base asked set r) ≡ file_of s r
    kept s stat base false set r h = refl
    kept s stat base true set r h = h

    own :
        (stat : Stat) (base : Bytes) (asked : Bool) (set : Reports → Reports) (r : Reports)
        → file_of stat (step stat base asked set r)
          ≡ (if asked then some (opened stat base) else file_of stat r)
    own latency base false set r = refl
    own latency base true set r = refl
    own throughput base false set r = refl
    own throughput base true set r = refl
    own rate base false set r = refl
    own rate base true set r = refl

    -- Where files can be opened and their names fit, the start of a test in the CSV format succeeds: for
    -- each report that is asked for there is a new file in the directory that has its header only, the
    -- others are as they were, and no two names are the same.
    pub initialize-opens :
        (opt : ℕ) (r : Reports)
        → length (c_string nm.source) + 20 ≤ filename_max
        → (r' : Reports) × (initialize_writer filename_max d nm csv opt r ≡ (true, r'))
          × (file_of latency r' ≡ (
              if names_stat opt nm_latency
              then some (opened latency latency_name)
              else file_of latency r))
          × (file_of throughput r' ≡ (
              if names_stat opt nm_throughput
              then some (opened throughput throughput_name)
              else file_of throughput r))
          × (file_of rate r'
              ≡ (if names_stat opt nm_rate then some (opened rate rate_name) else file_of rate r))
          × ((opened latency latency_name).name ≢ (opened throughput throughput_name).name)
          × ((opened latency latency_name).name ≢ (opened rate rate_name).name)
          × ((opened throughput throughput_name).name ≢ (opened rate rate_name).name)
    unfolding initialize_writer initialize_csv_writer
    initialize-opens opt r fits =
        let set_lat : Reports → Reports = λ r. record r { latency_writer = some csv } in
        let set_tp : Reports → Reports = λ r. record r { throughput_writer = some csv } in
        let set_rate : Reports → Reports = λ r. record r { tpr_writer = some csv } in
        let lat = names_stat opt nm_latency in
        let tp = names_stat opt nm_throughput in
        let rt = names_stat opt nm_rate in
        let r1 = step latency latency_name lat set_lat r in
        let r2 = step throughput throughput_name tp set_tp r1 in
        (
          step rate rate_name rt set_rate r2,
          ap
                (λ o.
                  csv_block filename_max d nm rate rate_name rt set_rate
                    (csv_block filename_max d nm throughput throughput_name tp set_tp o))
                (block_lem latency latency_name lat set_lat r)
              ∙ ap (csv_block filename_max d nm rate rate_name rt set_rate)
                  (block_lem throughput throughput_name tp set_tp r1)
              ∙ block_lem rate rate_name rt set_rate r2,
          kept latency rate rate_name rt set_rate r2 refl
              ∙ kept latency throughput throughput_name tp set_tp r1 refl
              ∙ own latency latency_name lat set_lat r,
          kept throughput rate rate_name rt set_rate r2 refl
              ∙ own throughput throughput_name tp set_tp r1
              ∙ ap (λ f. if tp then some (opened throughput throughput_name) else f)
                  (kept throughput latency latency_name lat set_lat r refl),
          own rate rate_name rt set_rate r2
              ∙ ap (λ f. if rt then some (opened rate rate_name) else f)
                  (kept rate throughput throughput_name tp set_tp r1 refl
                    ∙ kept rate latency latency_name lat set_lat r refl),
          names-ne filename_max nm latency_name throughput_name csv_suffix csv_suffix (omega arith)
              (omega arith) (heads-ne b'l' b't' _ _ (omega arith)),
          names-ne filename_max nm latency_name rate_name csv_suffix csv_suffix (omega arith)
              (omega arith) (heads-ne b'l' b'r' _ _ (omega arith)),
          names-ne filename_max nm throughput_name rate_name csv_suffix csv_suffix (omega arith)
              (omega arith) (heads-ne b't' b'r' _ _ (omega arith)),
        )
