-- ===== src/Reports.antt =====
-- The reports of a test: the writers of src/common/statistics and the choice of their files and
-- functions in naming_utils.c. The three files of csv_writer.c and the one of hdr_wrapper.c are static
-- variables, and one state here.
pub mod Names
pub mod Formats
pub mod Histograms
use Prim.Native.Nat.{bit_and}
use msg_perf_tool.Base.{
  ℕ, ◌+◌, ◌-◌, ◌/◌, ◌==◌, if◌then◌else◌, Bool, true, false, not, ◌&&◌, Option, none, some, List, [],
  ◌∷◌, ◌++◌, Bytes, take, c_string,
}

-- What a report is about.
pub data Stat : Type 0 where
  latency : Stat
  throughput : Stat
  rate : Stat

-- What is printed as a line. Times are texts with their microseconds, and a rate is floating point.
pub data Row : Type 0 where
  header : Stat → Row
  latency_row : Bytes → ℕ → ℕ → Row
  throughput_row : Bytes → ℕ → ℕ → Row
  rate_row : Bytes → ℕ → Bytes → ℕ → Row

pub record File : Type 0 where
  pub directory : Bytes
  pub name : Bytes
  pub rows : List Row

-- The functions that a writer is given.
pub data Format : Type 0 where
  csv : Format
  nop : Format
  out : Format
  hdr : Format

-- The files that are open, and the functions of the three writers.
pub record Reports : Type 0 where
  pub lat_file : Option File
  pub tp_file : Option File
  pub tpr_file : Option File
  pub histogram : Option File
  pub latency_writer : Option Format
  pub throughput_writer : Option Format
  pub tpr_writer : Option Format

-- What opening a file gets from outside, by its name: whether an older file of the name can be moved away,
-- the file can be opened, and its header flushed; and for a histogram, whether it has memory, and its file where no directory is named.
pub record Disk : Type 0 where
  pub renames : Bytes → Bool
  pub opens : Bytes → Bool
  pub flushes : Bytes → Bool
  pub records : Bool
  pub unlocated : Bytes → Option File

-- `csv_write_open_file`
unfoldable pub open_file : Disk → Bytes → Bytes → Option File
open_file d directory name =
    if d.renames name && d.opens name
    then some (record { directory = directory; name = name; rows = [] })
    else none

-- `csv_write_initialize`
unfoldable pub write_initialize : Disk → Option Bytes → Option Bytes → Option File
unfolding open_file
write_initialize d none name = none
write_initialize d (some directory) none = none
write_initialize d (some directory) (some name) = open_file d directory name

abbrev pub with_row : Row → File → File
with_row row f = record f { rows = f.rows ++ row ∷ [] }

-- The static variable of a report.
abbrev pub file_of : Stat → Reports → Option File
file_of latency r = r.lat_file
file_of throughput r = r.tp_file
file_of rate r = r.tpr_file

abbrev pub set_file : Stat → Option File → Reports → Reports
set_file latency f r = record r { lat_file = f }
set_file throughput f r = record r { tp_file = f }
set_file rate f r = record r { tpr_file = f }

-- What the three `csv_*_writer_initialize` do after the file has been opened, or not.
unfoldable pub initialized : Disk → Stat → Option File → Reports → Bool × Reports
initialized d stat none r = (false, set_file stat none r)
initialized d stat (some f) r =
    (d.flushes f.name, set_file stat (some (with_row (header stat) f)) r)

-- `csv_lat_writer_initialize`, `csv_tp_writer_initialize` and `csv_tpr_writer_initialize`
unfoldable pub csv_initialize : Disk → Stat → Option Bytes → Option Bytes → Reports → Bool × Reports
unfolding write_initialize initialized
csv_initialize d stat directory name r = initialized d stat (write_initialize d directory name) r

-- A line is printed to a report whose file is open.
unfoldable pub print_row : Stat → Row → Reports → Reports
print_row stat row r = elim (file_of stat r) [
  | none ↦ r
  | some f ↦ set_file stat (some (with_row row f)) r
]

-- `csv_lat_writer_write`, given the text of the start, if it can be made, its microseconds, and the
-- latency in milliseconds.
unfoldable pub csv_lat_write : Option Bytes → ℕ → ℕ → Reports → Bool × Reports
unfolding print_row
csv_lat_write none usec milli r = (false, r)
csv_lat_write (some text) usec milli r =
    (true, print_row latency (latency_row text (usec / 1000) milli) r)

-- `csv_tp_writer_write`
unfoldable pub csv_tp_write : Option Bytes → ℕ → ℕ → Reports → Bool × Reports
unfolding print_row
csv_tp_write none count per_second r = (false, r)
csv_tp_write (some text) count per_second r =
    (true, print_row throughput (throughput_row text count per_second) r)

-- `csv_tpr_writer_write`
unfoldable pub csv_tpr_write : Option Bytes → ℕ → Option Bytes → ℕ → Reports → Bool × Reports
unfolding print_row
csv_tpr_write (some eta) eta_usec (some ata) ata_usec r =
    (true, print_row rate (rate_row eta eta_usec ata ata_usec) r)
csv_tpr_write eta eta_usec ata ata_usec r = (false, r)

-- `hdr_wrapper_initialize`
unfoldable pub hdr_initialize : Disk → Option Bytes → Bytes → Reports → Bool × Reports
unfolding open_file
hdr_initialize d directory name r =
    let file : Option File = elim directory [
      | none ↦ d.unlocated name
      | some directory ↦ open_file d directory name
    ] in
    if d.records
    then (elim file [ none ↦ false | some f ↦ true ], record r { histogram = file })
    else (false, r)

-- `report_format_t` and `naming_opt_t`
abbrev pub nm_latency : ℕ
nm_latency = 1

abbrev pub nm_throughput : ℕ
nm_throughput = 2

abbrev pub nm_rate : ℕ
nm_rate = 4

abbrev pub names_stat : ℕ → ℕ → Bool
names_stat opt stat = not (bit_and opt stat == 0)

abbrev pub latency_name : Bytes
latency_name = b'l' ∷ b'a' ∷ b't' ∷ b'e' ∷ b'n' ∷ b'c' ∷ b'y' ∷ []

abbrev pub throughput_name : Bytes
throughput_name = b't' ∷ b'h' ∷ b'r' ∷ b'o' ∷ b'u' ∷ b'g' ∷ b'h' ∷ b'p' ∷ b'u' ∷ b't' ∷ []

abbrev pub rate_name : Bytes
rate_name = b'r' ∷ b'a' ∷ b't' ∷ b'e' ∷ []

abbrev pub csv_suffix : Bytes
csv_suffix = b'.' ∷ b'c' ∷ b's' ∷ b'v' ∷ b'.' ∷ b'g' ∷ b'z' ∷ []

abbrev pub hdr_suffix : Bytes
hdr_suffix = b'.' ∷ b'h' ∷ b'd' ∷ b'r' ∷ []

-- `naming_info_t`
pub record Naming : Type 0 where
  pub source : Bytes
  pub location : Option Bytes

-- `naming_csv_name` and `naming_hdr_name`: `snprintf` keeps all but the last two bytes of the buffer.
unfoldable pub file_name : ℕ → Naming → Bytes → Bytes → Bytes
unfolding c_string
file_name filename_max nm base suffix =
    take (filename_max - 2) (c_string nm.source ++ (b'-' ∷ (base ++ suffix)))

module _ (filename_max : ℕ) (d : Disk) (nm : Naming) where
  abbrev csv_name : Bytes → Bytes
  csv_name base = file_name filename_max nm base csv_suffix

  -- The block of a report in `naming_initialize_csv_writer`, and in `naming_initialize_hdr_writer` for
  -- all but the latency: `set` gives the writer its functions. A step that fails ends the function.
  unfoldable pub csv_block :
      Stat → Bytes → Bool → (Reports → Reports) → Bool × Reports → Bool × Reports
  unfolding csv_initialize file_name
  csv_block stat base asked set (false, r) = (false, r)
  csv_block stat base asked set (true, r) =
      if asked then csv_initialize d stat nm.location (some (csv_name base)) (set r) else (true, r)

  unfoldable pub hdr_block : Bool → Bool × Reports → Bool × Reports
  unfolding hdr_initialize file_name
  hdr_block asked (ok, r) =
      if asked
      then hdr_initialize d nm.location (file_name filename_max nm latency_name hdr_suffix)
          (record r { latency_writer = some hdr })
      else (true, r)

  -- `naming_initialize_csv_writer`
  unfoldable pub initialize_csv_writer : ℕ → Reports → Bool × Reports
  unfolding csv_block
  initialize_csv_writer opt r =
      csv_block rate rate_name (names_stat opt nm_rate) (λ r. record r { tpr_writer = some csv })
        (csv_block throughput throughput_name (names_stat opt nm_throughput)
          (λ r. record r { throughput_writer = some csv })
          (csv_block latency latency_name (names_stat opt nm_latency)
            (λ r. record r { latency_writer = some csv }) (true, r)))

  -- `naming_initialize_hdr_writer`; the functions for the throughput and the rate are those of the CSV
  -- writer.
  unfoldable pub initialize_hdr_writer : ℕ → Reports → Bool × Reports
  unfolding csv_block hdr_block
  initialize_hdr_writer opt r =
      csv_block rate rate_name (names_stat opt nm_rate) (λ r. record r { tpr_writer = some csv })
        (csv_block throughput throughput_name (names_stat opt nm_throughput)
          (λ r. record r { throughput_writer = some csv })
          (hdr_block (names_stat opt nm_latency) (true, r)))

  -- The two writers that open no file.
  abbrev pub assign_all : Format → Reports → Reports
  assign_all f r = record r {
    latency_writer = some f;
    throughput_writer = some f;
    tpr_writer = some f;
  }

  -- `naming_initialize_writer`
  unfoldable pub initialize_writer : Format → ℕ → Reports → Bool × Reports
  unfolding initialize_csv_writer initialize_hdr_writer
  initialize_writer hdr opt r = initialize_hdr_writer opt r
  initialize_writer csv opt r = initialize_csv_writer opt r
  initialize_writer nop opt r = (true, assign_all nop r)
  initialize_writer out opt r = (true, assign_all out r)
