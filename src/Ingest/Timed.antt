-- ===== src/Ingest/Timed.antt =====
-- model/ingest_v4.go: the sanitizers of the sections that hold times (updates, services, time), of
-- the name service, and of all sections (`sanitizeV4`).
use health_beat.Prelude.{
  ℕ, Bool, true, false, ◌&&◌, ◌||◌, String, List, [], ◌∷◌, Option, none, some, string_eq,
  if◌then◌else◌,
}
use health_beat.Prelude.Int.{ℤ, pos, negsuc, ltb_ℤ}
use health_beat.Ingest.Text.{clean_text, is_empty}
use health_beat.Ingest.Types.{
  Updates, Service, Services, TimeSource, TimeSync, DnsServer, Dns, Report,
}
use health_beat.Ingest.Entries.{Rules, sanitize_list, sanitize_each}
use health_beat.Ingest.Ranges.{
  float_in, int_in, int_between, one_of, accepted, max_count, max_millis, zero_ℤ,
}
use health_beat.Ingest.Lists.{
  sanitize_disk_io, sanitize_net_io, sanitize_temperatures, sanitize_raid, max_state_text,
  max_service_text, max_ntp_name_bytes, max_dns_address_bytes,
}
use health_beat.Ingest.Sections.{
  is_none, unless, sanitize_cpu_detail, sanitize_memory_detail, sanitize_pressure, sanitize_tcp,
  sanitize_capacity, sanitize_processes,
}

-- How the language's `time` reads and prints an RFC 3339 instant is a parameter.
pub record TimeText : Type 0 where
  pub parse : String → Option ℤ  -- seconds since the epoch
  pub year : String → ℤ  -- of the parsed time, with the offset that the text has
  pub format_utc : ℤ → String

abbrev pub formatted : TimeText → String → Option ℤ → String
formatted t s none = ""
formatted t s (some at) = if ltb_ℤ (t.year s) (pos 1970) then "" else t.format_utc at

-- `cleanTime`
unfoldable pub clean_time : TimeText → String → String
clean_time t s = formatted t s (t.parse s)

-- `sanitizeUpdates`
unfoldable pub sanitize_updates : TimeText → Option Updates → Option Updates
unfolding clean_time
sanitize_updates t none = none
sanitize_updates t (some u) =
    if int_between u.pending zero_ℤ (pos 1_000_000) && int_between u.security zero_ℤ (pos 1_000_000)
    then some (record {
      pending = u.pending;
      security = u.security;
      lists_updated_at = clean_time t u.lists_updated_at;
    })
    else none

unfoldable pub clean_service : TimeText → Service → Service
unfolding clean_text clean_time int_in
clean_service t s = record {
  name = s.name;
  description = clean_text s.description max_service_text;
  active = clean_text s.active max_state_text;
  sub = clean_text s.sub max_state_text;
  since = clean_time t s.since;
  restarts = int_in s.restarts zero_ℤ max_count;
  enabled = clean_text s.enabled max_state_text;
}

abbrev pub service_rules : TimeText → Rules Service
service_rules t = record {
  name = λ s. s.name;
  rename = λ n s. record s { name = n };
  max_bytes = max_service_text;
  admits =
      λ s. if is_empty (clean_text s.active max_state_text) then none else some (clean_service t s);
}

abbrev pub max_services : ℕ
max_services = 2000

unfoldable pub clean_services : TimeText → Services → Services
unfolding sanitize_list clean_service clean_text
clean_services t s = record {
  full = s.full;
  items = sanitize_list (service_rules t) max_services [] s.items;
}

abbrev pub no_services : List Service → Bool
no_services [] = true
no_services (s ∷ ss) = false

-- `sanitizeServices`: a full list that is empty is unknown.
unfoldable pub sanitize_services : TimeText → Option Services → Option Services
unfolding clean_services
sanitize_services t none = none
sanitize_services t (some s) =
    unless (s.full && no_services (clean_services t s).items) (clean_services t s)

-- A text that is kept unless it is empty.
abbrev pub kept_text : ℕ → String → Option String
kept_text max s = if is_empty (clean_text s max) then none else some (clean_text s max)

unfoldable pub clean_source : TimeSource → Option TimeSource
unfolding clean_text int_in float_in
clean_source s =
    if is_empty (clean_text s.name max_ntp_name_bytes)
      || is_empty (clean_text s.state max_state_text)
    then none
    else some (record {
      name = clean_text s.name max_ntp_name_bytes;
      state = clean_text s.state max_state_text;
      reach = int_in s.reach zero_ℤ (pos 255);
      offset_ms = float_in s.offset_ms (negsuc 999_999_999) max_millis;
    })

abbrev pub ntp_daemons : List String
ntp_daemons = "timesyncd" ∷ "chrony" ∷ "ntpd" ∷ "none" ∷ []

abbrev pub ntp_leaps : List String
ntp_leaps = "normal" ∷ "insert" ∷ "delete" ∷ "alarm" ∷ []

unfoldable pub clean_time_sync : TimeText → TimeSync → TimeSync
unfolding clean_text clean_time int_in float_in sanitize_each clean_source
clean_time_sync t s = record {
  enabled = s.enabled;
  synchronized = s.synchronized;
  daemon = accepted ntp_daemons s.daemon;
  local_rtc = s.local_rtc;
  server = clean_text s.server max_ntp_name_bytes;
  server_address = clean_text s.server_address 64;
  configured_servers = sanitize_each (kept_text max_ntp_name_bytes) 16 s.configured_servers;
  stratum = int_in s.stratum zero_ℤ (pos 16);
  leap = accepted ntp_leaps s.leap;
  offset_ms = float_in s.offset_ms (negsuc 999_999_999) max_millis;
  delay_ms = float_in s.delay_ms zero_ℤ max_millis;
  jitter_ms = float_in s.jitter_ms zero_ℤ max_millis;
  root_distance_ms = float_in s.root_distance_ms zero_ℤ max_millis;
  poll_s = int_in s.poll_s zero_ℤ (pos 10_000_000);
  last_sync = clean_time t s.last_sync;
  ignored = s.ignored;
  sources = sanitize_each clean_source 32 s.sources;
}

abbrev pub no_entries : {A : Type 0} → List A → Bool
no_entries [] = true
no_entries (x ∷ xs) = false

abbrev pub time_sync_empty : TimeSync → Bool
time_sync_empty s =
    is_none s.enabled
    && is_none s.synchronized
    && is_none s.local_rtc
    && is_none s.ignored
    && is_empty s.server
    && is_empty s.server_address
    && is_none s.stratum
    && is_none s.poll_s
    && is_none s.offset_ms
    && is_none s.delay_ms
    && is_none s.jitter_ms
    && is_none s.root_distance_ms
    && is_empty s.last_sync
    && is_empty s.daemon
    && is_empty s.leap
    && no_entries s.configured_servers
    && no_entries s.sources

-- `sanitizeTimeSync`
unfoldable pub sanitize_time_sync : TimeText → Option TimeSync → Option TimeSync
unfolding clean_time_sync
sanitize_time_sync t none = none
sanitize_time_sync t (some s) = unless (time_sync_empty (clean_time_sync t s)) (clean_time_sync t s)

unfoldable pub clean_server : DnsServer → Option DnsServer
unfolding clean_text
clean_server s =
    if is_empty (clean_text s.address max_dns_address_bytes)
    then none
    else some (record {
      address = clean_text s.address max_dns_address_bytes;
      interface = clean_text s.interface max_state_text;
    })

-- `cleanTextList`
unfoldable pub clean_text_list : ℕ → List String → List String
unfolding sanitize_each clean_text
clean_text_list max texts = sanitize_each (kept_text max) 16 texts

unfoldable pub clean_dns : Dns → Dns
unfolding clean_text sanitize_each clean_server clean_text_list
clean_dns d =
    let current = clean_text d.current_server max_dns_address_bytes in
    record {
      resolver = d.resolver;
      mode = accepted ("stub" ∷ "uplink" ∷ "static" ∷ []) d.mode;
      current_server = current;
      current_interface =
          if is_empty current then "" else clean_text d.current_interface max_state_text;
      servers = sanitize_each clean_server 16 d.servers;
      fallback_servers = clean_text_list max_dns_address_bytes d.fallback_servers;
      search_domains = clean_text_list 253 d.search_domains;
      routing_domains = clean_text_list 253 d.routing_domains;
      dnssec = accepted ("yes" ∷ "no" ∷ "allow-downgrade" ∷ []) d.dnssec;
      dns_over_tls = accepted ("yes" ∷ "no" ∷ "opportunistic" ∷ []) d.dns_over_tls;
      options = clean_text_list 64 d.options;
    }

-- `sanitizeDNS`
unfoldable pub sanitize_dns : Option Dns → Option Dns
unfolding clean_dns
sanitize_dns none = none
sanitize_dns (some d) =
    if one_of ("resolved" ∷ "resolv.conf" ∷ []) d.resolver then some (clean_dns d) else none

-- `sanitizeV4`
unfoldable pub sanitize_v4 : TimeText → Report → Report
unfolding sanitize_cpu_detail sanitize_memory_detail sanitize_pressure sanitize_disk_io
    sanitize_net_io sanitize_tcp sanitize_temperatures sanitize_raid sanitize_capacity
    sanitize_processes sanitize_updates sanitize_services sanitize_time_sync sanitize_dns
sanitize_v4 t r = record {
  cpu_detail = sanitize_cpu_detail r.cpu_detail;
  memory_detail = sanitize_memory_detail r.memory_detail;
  pressure = sanitize_pressure r.pressure;
  disk_io = sanitize_disk_io r.disk_io;
  net_io = sanitize_net_io r.net_io;
  tcp = sanitize_tcp r.tcp;
  temperatures = sanitize_temperatures r.temperatures;
  raid = sanitize_raid r.raid;
  capacity = sanitize_capacity r.capacity;
  processes = sanitize_processes r.processes;
  updates = sanitize_updates t r.updates;
  services = sanitize_services t r.services;
  time_sync = sanitize_time_sync t r.time_sync;
  dns = sanitize_dns r.dns;
}
