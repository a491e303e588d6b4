-- ===== src/Ingest/Lists.antt =====
-- model/ingest_v4.go: the sanitizers of the lists of a report.
use health_beat.Prelude.{ℕ, Bool, not, ◌&&◌, String, List, [], ◌∷◌, none, some, if◌then◌else◌}
use health_beat.Prelude.Int.{ℤ, pos}
use health_beat.Ingest.Text.{clean_text, is_empty}
use health_beat.Ingest.Types.{DiskIo, NetIo, Temperature, Raid, ProcessGroup}
use health_beat.Ingest.Entries.{Rules, sanitize_list, sanitize_each}
use health_beat.Ingest.Ranges.{
  in_range, float_in, int_between, one_of, max_v4_entries, max_count, max_rate, max_iops,
  max_millis, min_celsius, max_celsius, max_swap_mb, percent, zero_ℤ,
}

-- `maxDiskNameBytes`, `maxIfaceNameBytes`, `maxSensorBytes`, `maxStateText`, `maxServiceText`,
-- `maxNTPNameBytes`, `maxDNSAddressBytes`
abbrev pub max_disk_name_bytes : ℕ
max_disk_name_bytes = 64

abbrev pub max_iface_name_bytes : ℕ
max_iface_name_bytes = 32

abbrev pub max_sensor_bytes : ℕ
max_sensor_bytes = 128

abbrev pub max_state_text : ℕ
max_state_text = 32

abbrev pub max_service_text : ℕ
max_service_text = 256

abbrev pub max_ntp_name_bytes : ℕ
max_ntp_name_bytes = 253

abbrev pub max_dns_address_bytes : ℕ
max_dns_address_bytes = 300

unfoldable pub disk_io_ok : DiskIo → Bool
unfolding in_range
disk_io_ok d =
    in_range d.read_iops zero_ℤ max_iops
    && in_range d.write_iops zero_ℤ max_iops
    && in_range d.read_bps zero_ℤ max_rate
    && in_range d.write_bps zero_ℤ max_rate
    && in_range d.util_pct zero_ℤ percent
    && in_range d.await_ms zero_ℤ max_millis
    && in_range d.queue_depth zero_ℤ max_count

abbrev pub disk_io_rules : Rules DiskIo
disk_io_rules = record {
  name = λ d. d.name;
  rename = λ n d. record d { name = n };
  max_bytes = max_disk_name_bytes;
  admits = λ d. if disk_io_ok d then some d else none;
}

-- `sanitizeDiskIO`
unfoldable pub sanitize_disk_io : List DiskIo → List DiskIo
unfolding sanitize_list disk_io_ok
sanitize_disk_io ds = sanitize_list disk_io_rules max_v4_entries [] ds

unfoldable pub net_io_ok : NetIo → Bool
unfolding in_range
net_io_ok n = in_range n.rx_bps zero_ℤ max_rate && in_range n.tx_bps zero_ℤ max_rate

abbrev pub net_io_rules : Rules NetIo
net_io_rules = record {
  name = λ n. n.interface;
  rename = λ m n. record n { interface = m };
  max_bytes = max_iface_name_bytes;
  admits = λ n. if net_io_ok n then some n else none;
}

-- `sanitizeNetIO`
unfoldable pub sanitize_net_io : List NetIo → List NetIo
unfolding sanitize_list net_io_ok
sanitize_net_io ns = sanitize_list net_io_rules max_v4_entries [] ns

abbrev pub temperature_kinds : List String
temperature_kinds = "cpu" ∷ "disk" ∷ "other" ∷ []

unfoldable pub clean_temperature : Temperature → Temperature
unfolding float_in
clean_temperature t = record {
  sensor = t.sensor;
  kind = if one_of temperature_kinds t.kind then t.kind else "other";
  celsius = t.celsius;
  max = float_in t.max min_celsius max_celsius;
  crit = float_in t.crit min_celsius max_celsius;
}

abbrev pub temperature_rules : Rules Temperature
temperature_rules = record {
  name = λ t. t.sensor;
  rename = λ n t. record t { sensor = n };
  max_bytes = max_sensor_bytes;
  admits =
      λ t. if in_range t.celsius min_celsius max_celsius then some (clean_temperature t) else none;
}

-- `sanitizeTemperatures`
unfoldable pub sanitize_temperatures : List Temperature → List Temperature
unfolding sanitize_list in_range clean_temperature
sanitize_temperatures ts = sanitize_list temperature_rules max_v4_entries [] ts

abbrev pub max_raid_devices : ℤ
max_raid_devices = pos 100_000

unfoldable pub clean_raid : Raid → Raid
unfolding clean_text float_in
clean_raid a = record {
  name = a.name;
  level = clean_text a.level max_state_text;
  state = clean_text a.state max_state_text;
  devices = a.devices;
  active = a.active;
  sync_pct = float_in a.sync_pct zero_ℤ percent;
}

unfoldable pub raid_ok : Raid → Bool
unfolding clean_text
raid_ok a =
    not (is_empty (clean_text a.state max_state_text))
    && int_between a.devices zero_ℤ max_raid_devices
    && int_between a.active zero_ℤ max_raid_devices

abbrev pub raid_rules : Rules Raid
raid_rules = record {
  name = λ a. a.name;
  rename = λ n a. record a { name = n };
  max_bytes = max_disk_name_bytes;
  admits = λ a. if raid_ok a then some (clean_raid a) else none;
}

-- `sanitizeRAID`
unfoldable pub sanitize_raid : List Raid → List Raid
unfolding sanitize_list raid_ok clean_raid
sanitize_raid arrays = sanitize_list raid_rules max_v4_entries [] arrays

-- The name of a group as it is stored.
abbrev pub group_name : ProcessGroup → String
group_name g = clean_text g.name 64

unfoldable pub group_ok : ProcessGroup → Bool
unfolding in_range
group_ok g =
    not (is_empty (group_name g))
    && int_between g.number (pos 1) max_count
    && in_range g.cpu_pct zero_ℤ percent
    && in_range g.rss_mb zero_ℤ max_swap_mb

-- `sanitizeProcessGroups`
unfoldable pub sanitize_process_groups : List ProcessGroup → List ProcessGroup
unfolding sanitize_each group_ok
sanitize_process_groups gs =
    sanitize_each (λ g. if group_ok g then some (record g { name = group_name g }) else none) 20 gs
