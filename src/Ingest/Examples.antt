-- ===== src/Ingest/Examples.antt =====
-- Runs of the sanitizers at concrete inputs: tests, and instances of the theorems.
use health_beat.Prelude.{ℕ, String, List, [], ◌∷◌, Option, none, some, ◌≡◌, refl, arith}
use health_beat.Prelude.Int.{pos, negsuc}
use health_beat.Ingest.Text.{clean_text, drop_controls, trim_left, trim_right, is_control, is_space}
use health_beat.Ingest.Types.{Float64, nan, infinite, finite, MemoryDetail, DiskIo, Report}
use health_beat.Ingest.Entries.{sanitize_list, accept, unique_name}
use health_beat.Ingest.Ranges.{in_range}
use health_beat.Ingest.Lists.{disk_io_ok, sanitize_disk_io}
use health_beat.Ingest.Timed.{TimeText, sanitize_v4}
use health_beat.Ingest.Sanitized.{Storable, sanitize_v4-Storable}
use health_beat.Ingest.State.{
  SystemState, next_system_state, kills_of, oom_increased, counter_rose, oom_increased-rose,
}
use health_beat.Ingest.Unchanged.{sanitize_disk_io_same}

abbrev disk : String → Float64 → DiskIo
disk name util = record {
  name = name;
  read_iops = finite (pos 1000);
  write_iops = finite (pos 2500);
  read_bps = finite (pos 0);
  write_bps = finite (pos 0);
  util_pct = util;
  await_ms = finite (pos 10);
  queue_depth = finite (pos 0);
}

abbrev disks : List DiskIo
disks =
    disk "sda" (finite (pos 50000))
    ∷ disk " sda " (finite (pos 1000))
    ∷ disk "sdb" nan
    ∷ disk "sdc" (finite (pos 100001))
    ∷ disk "nvme0n1" (finite (pos 100000))
    ∷ []

-- A repeated name, a value that is no number, and one above its range go.
two_stored :
    sanitize_disk_io disks
    ≡ disk "sda" (finite (pos 50000)) ∷ disk "nvme0n1" (finite (pos 100000)) ∷ []
unfolding sanitize_disk_io sanitize_list accept unique_name clean_text drop_controls trim_left
    trim_right is_control is_space disk_io_ok in_range
two_stored = refl

cut_at_rune : clean_text "  aé  " 2 ≡ "a"
unfolding clean_text drop_controls trim_left trim_right is_control is_space
cut_at_rune = refl

-- No time can be read.
abbrev no_times : TimeText
no_times = record { parse = λ s. none; year = λ s. pos 0; format_utc = λ s. "" }

abbrev memory : ℕ → MemoryDetail
memory kills = record {
  available_mb = some (negsuc 0);
  cached_mb = none;
  swap_in_per_s = some infinite;
  swap_out_per_s = none;
  oom_kills = some kills;
}

abbrev report : ℕ → Report
report kills = record {
  cpu_detail = none;
  memory_detail = some (memory kills);
  pressure = none;
  disk_io = disks;
  net_io = [];
  tcp = none;
  temperatures = [];
  raid = [];
  capacity = none;
  processes = none;
  updates = none;
  services = none;
  time_sync = none;
  dns = none;
}

sanitize_v4-Storable_example : Storable no_times (sanitize_v4 no_times (report 3))
sanitize_v4-Storable_example = sanitize_v4-Storable no_times (report 3)

abbrev before : Option SystemState
before = some (record {
  oom_kills = some 2;
  oom_last_increase_at = some 70;
  temperatures = [];
  raid = [];
  capacity = none;
  processes = none;
  updates = none;
  time_sync = none;
  dns = none;
})

oom_increased-rose_example :
    oom_increased before (next_system_state before (report 3) 100)
    ≡ counter_rose before (kills_of (report 3).memory_detail)
oom_increased-rose_example = oom_increased-rose before (report 3) 100 (ground arith)

abbrev good_disks : List DiskIo
good_disks = disk "sda" (finite (pos 50000)) ∷ disk "sdb" (finite (pos 0)) ∷ []

sanitize_disk_io_same_example : sanitize_disk_io good_disks ≡ good_disks
unfolding disk_io_ok in_range is_control is_space
sanitize_disk_io_same_example = sanitize_disk_io_same good_disks (omega arith) (
  (refl, ((((refl, (refl, (refl, tt))), omega arith), (refl, refl)), (refl, refl))),
  ((refl, ((((refl, (refl, (refl, tt))), omega arith), (refl, refl)), (refl, refl))), tt),
)
