-- ===== src/Reports/Histograms.antt =====
-- The start of a test in the format of histograms, and in the CSV format.
use msg_perf_tool.Base.{
  ℕ, ◌≡◌, refl, ap, sym, ◌∙◌, if◌then◌else◌, Bool, true, false, some, [], Bytes,
}
use msg_perf_tool.Reports.{
  hdr_suffix, hdr_initialize, latency, throughput, rate, File, csv, hdr, Reports, Disk, open_file,
  nm_latency, nm_throughput, nm_rate, names_stat, latency_name, throughput_name, rate_name, Naming,
  file_name, csv_block, hdr_block, initialize_csv_writer, initialize_hdr_writer, initialize_writer,
}
use msg_perf_tool.Reports.Formats.{IsFree, step, block_lem}

module _ (filename_max : ℕ) (d : Disk) (nm : Naming) (directory : Bytes)
    (there : nm.location ≡ some directory) (free : IsFree d) where
  -- The files and the functions of the two reports that are not about the latency.
  abbrev pub SameRates : Reports → Reports → Type 0
  SameRates r r' =
      (r.tp_file ≡ r'.tp_file)
      × (r.tpr_file ≡ r'.tpr_file)
      × (r.throughput_writer ≡ r'.throughput_writer)
      × (r.tpr_writer ≡ r'.tpr_writer)

  -- The histogram as it is opened.
  abbrev pub histogram_file : File
  histogram_file = record {
    directory = directory;
    name = file_name filename_max nm latency_name hdr_suffix;
    rows = [];
  }

  abbrev hdr_step : Bool → Reports → Reports
  hdr_step asked r =
      if asked then record r { latency_writer = some hdr; histogram = some histogram_file } else r

  hdr_block_lem :
      (asked : Bool) (r : Reports)
      → d.records ≡ true
      → hdr_block filename_max d nm asked (true, r) ≡ (true, hdr_step asked r)
  unfolding hdr_block hdr_initialize open_file
  hdr_block_lem false r records = refl
  hdr_block_lem true r records =
      let name = file_name filename_max nm latency_name hdr_suffix in
      rw (there, free.renames name, free.opens name, records) refl

  abbrev set_throughput : Reports → Reports
  set_throughput r = record r { throughput_writer = some csv }

  abbrev set_rates : Reports → Reports
  set_rates r = record r { tpr_writer = some csv }

  abbrev both : Bool → Bool → Reports → Reports
  both tp rt r =
      step filename_max d nm directory there free rate rate_name rt set_rates
        (step filename_max d nm directory there free throughput throughput_name tp set_throughput r)

  both-SameRates :
      (tp rt : Bool) (r r' : Reports) → SameRates r r' → SameRates (both tp rt r) (both tp rt r')
  both-SameRates false false r r' h = h
  both-SameRates false true r r' (a, b, c, e) = (a, refl, c, refl)
  both-SameRates true false r r' (a, b, c, e) = (refl, b, refl, e)
  both-SameRates true true r r' h = (refl, refl, refl, refl)

  first-SameRates :
      (lat : Bool) (set : Reports → Reports) (r : Reports)
      → SameRates (set r) r
      → SameRates
          (hdr_step lat r)
          (step filename_max d nm directory there free latency latency_name lat set r)
  first-SameRates false set r h = (refl, refl, refl, refl)
  first-SameRates true set r (a, b, c, e) = (sym a, sym b, sym c, sym e)

  both-histogram : (tp rt : Bool) (r : Reports) → (both tp rt r).histogram ≡ r.histogram
  both-histogram false false r = refl
  both-histogram false true r = refl
  both-histogram true false r = refl
  both-histogram true true r = refl

  both-latency : (tp rt : Bool) (r : Reports) → (both tp rt r).lat_file ≡ r.lat_file
  both-latency false false r = refl
  both-latency false true r = refl
  both-latency true false r = refl
  both-latency true true r = refl

  blocks_lem :
      (tp rt : Bool) (r : Reports)
      → csv_block filename_max d nm rate rate_name rt set_rates
          (csv_block filename_max d nm throughput throughput_name tp set_throughput (true, r))
        ≡ (true, both tp rt r)
  blocks_lem tp rt r =
      ap (csv_block filename_max d nm rate rate_name rt set_rates) (
        block_lem filename_max d nm directory there free throughput throughput_name tp
          set_throughput r)
      ∙ block_lem filename_max d nm directory there free rate rate_name rt set_rates (
          step filename_max d nm directory there free throughput throughput_name tp set_throughput
            r)

  hdr-histogram :
      (lat : Bool) (r : Reports)
      → (hdr_step lat r).histogram ≡ (if lat then some histogram_file else r.histogram)
  hdr-histogram false r = refl
  hdr-histogram true r = refl

  hdr-latency : (lat : Bool) (r : Reports) → (hdr_step lat r).lat_file ≡ r.lat_file
  hdr-latency false r = refl
  hdr-latency true r = refl

  -- Where files can be opened and a histogram has memory, the starts of a test in the format of
  -- histograms and in the CSV format both succeed, and the files and the functions of the throughput and of
  -- the rate are the same; the first opens no file of latencies, but a histogram where the latency is
  -- asked for.
  pub initialize-hdr-csv :
      (opt : ℕ) (r : Reports)
      → d.records ≡ true
      → (r' : Reports) × (r'' : Reports) × (initialize_writer filename_max d nm hdr opt r
          ≡ (true, r'))
        × (initialize_writer filename_max d nm csv opt r ≡ (true, r''))
        × SameRates r' r''
        × (r'.lat_file ≡ r.lat_file)
        × (r'.histogram ≡ (if names_stat opt nm_latency then some histogram_file else r.histogram))
  unfolding initialize_writer initialize_csv_writer initialize_hdr_writer
  initialize-hdr-csv opt r records =
      let set_lat : Reports → Reports = λ r. record r { latency_writer = some csv } in
      let lat = names_stat opt nm_latency in
      let tp = names_stat opt nm_throughput in
      let rt = names_stat opt nm_rate in
      let blocks : Bool × Reports → Bool × Reports = λ o.
        csv_block filename_max d nm rate rate_name rt set_rates
          (csv_block filename_max d nm throughput throughput_name tp set_throughput o) in
      (
        both tp rt (hdr_step lat r),
        both tp rt (step filename_max d nm directory there free latency latency_name lat set_lat r),
        ap blocks (hdr_block_lem lat r records) ∙ blocks_lem tp rt (hdr_step lat r),
        ap blocks
              (block_lem filename_max d nm directory there free latency latency_name lat set_lat r)
            ∙ blocks_lem tp rt
                (step filename_max d nm directory there free latency latency_name lat set_lat r),
        both-SameRates tp rt (hdr_step lat r)
            (step filename_max d nm directory there free latency latency_name lat set_lat r)
            (first-SameRates lat set_lat r (refl, refl, refl, refl)),
        both-latency tp rt (hdr_step lat r) ∙ hdr-latency lat r,
        both-histogram tp rt (hdr_step lat r) ∙ hdr-histogram lat r,
      )
