-- ===== src/Ingest/Listing.antt =====
-- model/ingest_v4.go: what the sanitized services, updates, time and name service keep to.
use health_beat.Prelude.{
  Bool, true, false, ◌&&◌, [], ◌∷◌, Option, none, some, string_eq, if◌then◌else◌, if-holds, ◌≡◌,
  refl, arith,
}
use health_beat.Prelude.Int.{ℤ, pos, negsuc}
use health_beat.Ingest.Text.{is_empty, clean_text, Clean, clean_text-Clean}
use health_beat.Ingest.Types.{Updates, Services, TimeSync, Dns}
use health_beat.Ingest.Ranges.{
  int_between, Amid, int_between-Amid, InRange, float_in-InRange, Between, int_in-Between, one_of,
  max_millis, zero_ℤ,
}
use health_beat.Ingest.Lists.{max_state_text, max_ntp_name_bytes, max_dns_address_bytes}
use health_beat.Ingest.Sections.{unless}
use health_beat.Ingest.Timed.{
  TimeText, sanitize_updates, service_rules, max_services, clean_services, sanitize_services,
  no_services, clean_time, clean_time_sync, time_sync_empty, sanitize_time_sync, clean_dns,
  sanitize_dns, clean_text_list,
}
use health_beat.Ingest.Named.{Listed}
use health_beat.Ingest.Storable.{
  ServiceOk, clean_services-Listed, Each, TextOk, texts-Each, SourceOk, sources-Each, ServerOk,
  servers-Each,
}
use health_beat.Ingest.Measured.{Holds, unless-Holds}

-- A full list of services is not empty.
abbrev pub ServicesOk : TimeText → Services → Type 0
ServicesOk t s =
    Listed (service_rules t) ServiceOk max_services s.items
    × ((s.full && no_services s.items) ≡ false)

pub services-Holds :
    (t : TimeText) (o : Option Services) → Holds (ServicesOk t) (sanitize_services t o)
unfolding sanitize_services clean_services
services-Holds t none = tt
services-Holds t (some s) = by_test (s.full && no_services (clean_services t s).items) refl
  where
    by_test :
        (b : Bool)
        → (s.full && no_services (clean_services t s).items) ≡ b
        → Holds (ServicesOk t) (unless b (clean_services t s))
    by_test true e = tt
    by_test false e = (clean_services-Listed t s.items, e)

abbrev pub UpdatesOk : Updates → Type 0
UpdatesOk u = Amid zero_ℤ (pos 1_000_000) u.pending × Amid zero_ℤ (pos 1_000_000) u.security

pub updates-Holds : (t : TimeText) (o : Option Updates) → Holds UpdatesOk (sanitize_updates t o)
unfolding sanitize_updates
updates-Holds t none = tt
updates-Holds t (some u) = by_test (in_bounds u.pending && in_bounds u.security) refl
  where
    in_bounds : ℤ → Bool
    in_bounds x = int_between x zero_ℤ (pos 1_000_000)

    by_test :
        (b : Bool)
        → (in_bounds u.pending && in_bounds u.security) ≡ b
        → Holds UpdatesOk (
            if b
            then some (record {
              pending = u.pending;
              security = u.security;
              lists_updated_at = clean_time t u.lists_updated_at;
            })
            else none)
    by_test true e = (
      int_between-Amid u.pending zero_ℤ (pos 1_000_000) (ground (arith, e)),
      int_between-Amid u.security zero_ℤ (pos 1_000_000) (ground (arith, e)),
    )
    by_test false e = tt

abbrev pub TimeSyncOk : TimeSync → Type 0
TimeSyncOk s =
    (Clean max_ntp_name_bytes s.server × Clean 64 s.server_address)
    × ((Each (TextOk max_ntp_name_bytes) 16 s.configured_servers × Each SourceOk 32 s.sources)
        × ((Between zero_ℤ (pos 16) s.stratum × Between zero_ℤ (pos 10_000_000) s.poll_s)
            × (InRange (negsuc 999_999_999) max_millis s.offset_ms
                × (InRange zero_ℤ max_millis s.delay_ms
                    × (InRange zero_ℤ max_millis s.jitter_ms
                        × InRange zero_ℤ max_millis s.root_distance_ms)))))

pub time_sync-Holds :
    (t : TimeText) (o : Option TimeSync) → Holds TimeSyncOk (sanitize_time_sync t o)
unfolding sanitize_time_sync clean_time_sync
time_sync-Holds t none = tt
time_sync-Holds t (some s) =
    unless-Holds TimeSyncOk (time_sync_empty (clean_time_sync t s)) (clean_time_sync t s) (
      (clean_text-Clean s.server max_ntp_name_bytes, clean_text-Clean s.server_address 64),
      (
        (texts-Each max_ntp_name_bytes 16 s.configured_servers, sources-Each 32 s.sources),
        (
          (
            int_in-Between s.stratum zero_ℤ (pos 16),
            int_in-Between s.poll_s zero_ℤ (pos 10_000_000),
          ),
          (
            float_in-InRange s.offset_ms (negsuc 999_999_999) max_millis,
            (
              float_in-InRange s.delay_ms zero_ℤ max_millis,
              (
                float_in-InRange s.jitter_ms zero_ℤ max_millis,
                float_in-InRange s.root_distance_ms zero_ℤ max_millis,
              ),
            ),
          ),
        ),
      ),
    )

abbrev pub DnsOk : Dns → Type 0
DnsOk d =
    ((Clean max_dns_address_bytes d.current_server × Clean max_state_text d.current_interface)
      × Each ServerOk 16 d.servers)
    × (Each (TextOk max_dns_address_bytes) 16 d.fallback_servers
        × (Each (TextOk 253) 16 d.search_domains
            × (Each (TextOk 253) 16 d.routing_domains × Each (TextOk 64) 16 d.options)))

pub dns-Holds : (o : Option Dns) → Holds DnsOk (sanitize_dns o)
unfolding sanitize_dns clean_dns clean_text_list
dns-Holds none = tt
dns-Holds (some d) =
    if-holds (Holds DnsOk) (one_of ("resolved" ∷ "resolv.conf" ∷ []) d.resolver) _ _
      (
        (
          (
            clean_text-Clean d.current_server max_dns_address_bytes,
            if-holds (Clean max_state_text)
                (is_empty (clean_text d.current_server max_dns_address_bytes)) _ _ (tt, omega arith)
                (clean_text-Clean d.current_interface max_state_text),
          ),
          servers-Each 16 d.servers,
        ),
        (
          texts-Each max_dns_address_bytes 16 d.fallback_servers,
          (
            texts-Each 253 16 d.search_domains,
            (texts-Each 253 16 d.routing_domains, texts-Each 64 16 d.options),
          ),
        ),
      )
      tt
