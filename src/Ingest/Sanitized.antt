-- ===== src/Ingest/Sanitized.antt =====
-- model/ingest_v4.go (`sanitizeV4`): what a sanitized report keeps to.
use health_beat.Prelude.{string_eq}
use health_beat.Ingest.Types.{Report}
use health_beat.Ingest.Ranges.{max_v4_entries}
use health_beat.Ingest.Lists.{disk_io_rules, net_io_rules, temperature_rules, raid_rules}
use health_beat.Ingest.Timed.{TimeText, sanitize_v4}
use health_beat.Ingest.Named.{
  Listed, DiskIoOk, sanitize_disk_io-Listed, NetIoOk, sanitize_net_io-Listed, TemperatureOk,
  sanitize_temperatures-Listed, RaidOk, sanitize_raid-Listed,
}
use health_beat.Ingest.Measured.{
  Holds, CpuOk, cpu-Holds, MemoryOk, memory-Holds, PressureOk, pressure-Holds, TcpOk, tcp-Holds,
  CapacityOk, capacity-Holds, ProcessesOk, processes-Holds,
}
use health_beat.Ingest.Listing.{
  ServicesOk, services-Holds, UpdatesOk, updates-Holds, TimeSyncOk, time_sync-Holds, DnsOk,
  dns-Holds,
}

-- What the server stores of a report.
pub record Storable (t : TimeText) (r : Report) : Type 0 where
  pub cpu : Holds CpuOk r.cpu_detail
  pub memory : Holds MemoryOk r.memory_detail
  pub pressure : Holds PressureOk r.pressure
  pub disk_io : Listed disk_io_rules DiskIoOk max_v4_entries r.disk_io
  pub net_io : Listed net_io_rules NetIoOk max_v4_entries r.net_io
  pub tcp : Holds TcpOk r.tcp
  pub temperatures : Listed temperature_rules TemperatureOk max_v4_entries r.temperatures
  pub raid : Listed raid_rules RaidOk max_v4_entries r.raid
  pub capacity : Holds CapacityOk r.capacity
  pub processes : Holds ProcessesOk r.processes
  pub updates : Holds UpdatesOk r.updates
  pub time_sync : Holds TimeSyncOk r.time_sync
  pub services : Holds (ServicesOk t) r.services
  pub dns : Holds DnsOk r.dns

-- A sanitized report is storable, whatever was received: its lists have at most 64 entries (2000
-- services, 20 groups of processes, 32 time sources, 16 texts or servers of the time and name
-- services); the entries of disks, interfaces, sensors, arrays and services have different names
-- that are not empty; texts that are cleaned have no control characters and at most their number of
-- bytes; rates, times, percentages, temperatures, sizes and counts that the code bounds are finite
-- and within the bounds of their kind, wherever they are given; and a full list of services is not
-- empty.
pub sanitize_v4-Storable : (t : TimeText) (r : Report) → Storable t (sanitize_v4 t r)
unfolding sanitize_v4
sanitize_v4-Storable t r = record {
  cpu = cpu-Holds r.cpu_detail;
  memory = memory-Holds r.memory_detail;
  pressure = pressure-Holds r.pressure;
  disk_io = sanitize_disk_io-Listed r.disk_io;
  net_io = sanitize_net_io-Listed r.net_io;
  tcp = tcp-Holds r.tcp;
  temperatures = sanitize_temperatures-Listed r.temperatures;
  raid = sanitize_raid-Listed r.raid;
  capacity = capacity-Holds r.capacity;
  processes = processes-Holds r.processes;
  updates = updates-Holds t r.updates;
  time_sync = time_sync-Holds t r.time_sync;
  services = services-Holds t r.services;
  dns = dns-Holds r.dns;
}
