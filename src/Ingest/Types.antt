-- ===== src/Ingest/Types.antt =====
-- model/ingest_v4.go: the sections of a report that protocol 4 adds, as they are decoded. A `float64`
-- is not a number, infinite, or a whole number of thousandths.
use health_beat.Prelude.{ℕ, Bool, String, List, Option}
use health_beat.Prelude.Int.{ℤ}

pub data Float64 : Type 0 where
  nan infinite : Float64
  finite : ℤ → Float64

pub record CpuDetail : Type 0 where
  pub io_wait_pct : Option Float64
  pub steal_pct : Option Float64
  pub procs_blocked : Option ℤ

pub record MemoryDetail : Type 0 where
  pub available_mb : Option ℤ
  pub cached_mb : Option ℤ
  pub swap_in_per_s : Option Float64
  pub swap_out_per_s : Option Float64
  pub oom_kills : Option ℕ

pub record PressureStall : Type 0 where
  pub some_10 : Float64
  pub some_60 : Float64
  pub full_10 : Option Float64
  pub full_60 : Option Float64

pub record Pressure : Type 0 where
  pub cpu : Option PressureStall
  pub memory : Option PressureStall
  pub io : Option PressureStall

pub record DiskIo : Type 0 where
  pub name : String
  pub read_iops : Float64
  pub write_iops : Float64
  pub read_bps : Float64
  pub write_bps : Float64
  pub util_pct : Float64
  pub await_ms : Float64
  pub queue_depth : Float64

pub record NetIo : Type 0 where
  pub interface : String
  pub rx_bps : Float64
  pub tx_bps : Float64
  pub rx_errors : ℕ
  pub tx_errors : ℕ
  pub rx_drops : ℕ
  pub tx_drops : ℕ

pub record Tcp : Type 0 where
  pub retrans_pct : Option Float64
  pub established : Option ℤ
  pub time_wait : Option ℤ

pub record Temperature : Type 0 where
  pub sensor : String
  pub kind : String
  pub celsius : Float64
  pub max : Option Float64
  pub crit : Option Float64

pub record Raid : Type 0 where
  pub name : String
  pub level : String
  pub state : String
  pub devices : ℤ
  pub active : ℤ
  pub sync_pct : Option Float64

pub record Capacity : Type 0 where
  pub file_handles : Option ℤ
  pub file_handles_max : Option ℤ
  pub conntrack : Option ℤ
  pub conntrack_max : Option ℤ
  pub tasks : Option ℤ
  pub pid_max : Option ℤ

pub record ProcessGroup : Type 0 where
  pub name : String
  pub number : ℤ  -- Count
  pub cpu_pct : Float64
  pub rss_mb : Float64

pub record Processes : Type 0 where
  pub total : ℤ
  pub zombie : ℤ
  pub top_cpu : List ProcessGroup
  pub top_ram : List ProcessGroup

pub record Updates : Type 0 where
  pub pending : ℤ
  pub security : ℤ
  pub lists_updated_at : String

pub record Service : Type 0 where
  pub name : String
  pub description : String
  pub active : String
  pub sub : String
  pub since : String
  pub restarts : Option ℤ
  pub enabled : String

pub record Services : Type 0 where
  pub full : Bool
  pub items : List Service

pub record TimeSource : Type 0 where
  pub name : String
  pub state : String
  pub reach : Option ℤ
  pub offset_ms : Option Float64

pub record TimeSync : Type 0 where
  pub enabled : Option Bool
  pub synchronized : Option Bool
  pub daemon : String
  pub local_rtc : Option Bool
  pub server : String
  pub server_address : String
  pub configured_servers : List String
  pub stratum : Option ℤ
  pub leap : String
  pub offset_ms : Option Float64
  pub delay_ms : Option Float64
  pub jitter_ms : Option Float64
  pub root_distance_ms : Option Float64
  pub poll_s : Option ℤ
  pub last_sync : String
  pub ignored : Option Bool
  pub sources : List TimeSource

pub record DnsServer : Type 0 where
  pub address : String
  pub interface : String

pub record Dns : Type 0 where
  pub resolver : String
  pub mode : String
  pub current_server : String
  pub current_interface : String
  pub servers : List DnsServer
  pub fallback_servers : List String
  pub search_domains : List String
  pub routing_domains : List String
  pub dnssec : String
  pub dns_over_tls : String
  pub options : List String

-- The sections of protocol 4 in `MetricsIngestRequest`.
pub record Report : Type 0 where
  pub cpu_detail : Option CpuDetail
  pub memory_detail : Option MemoryDetail
  pub pressure : Option Pressure
  pub disk_io : List DiskIo
  pub net_io : List NetIo
  pub tcp : Option Tcp
  pub temperatures : List Temperature
  pub raid : List Raid
  pub capacity : Option Capacity
  pub processes : Option Processes
  pub updates : Option Updates
  pub services : Option Services
  pub time_sync : Option TimeSync
  pub dns : Option Dns
