-- ===== src/Ingest/Storable.antt =====
-- model/ingest_v4.go: what the sanitized lists of services, processes, texts, time sources and name
-- servers keep to.
use health_beat.Prelude.{
  ℕ, ◌≤◌, true, false, ◌||◌, String, List, [], none, some, All, length, string_eq, if◌then◌else◌,
  ◌≡◌, refl, subst, arith,
}
use health_beat.Prelude.Int.{pos, negsuc}
use health_beat.Ingest.Text.{clean_text, is_empty, Clean, clean_text-Clean}
use health_beat.Ingest.Types.{ProcessGroup, Service, TimeSource, DnsServer}
use health_beat.Ingest.Entries.{
  sanitize_list, sanitize_list-Stored, sanitize_each, sanitize_each-All,
}
use health_beat.Ingest.Ranges.{
  float_in, int_in, Amid, int_between-Amid, Inside, in_range-Inside, InRange, float_in-InRange,
  Between, int_in-Between, max_count, max_millis, max_swap_mb, percent, zero_ℤ,
}
use health_beat.Ingest.Lists.{
  group_ok, group_name, sanitize_process_groups, max_state_text, max_service_text,
  max_ntp_name_bytes, max_dns_address_bytes,
}
use health_beat.Ingest.Timed.{
  TimeText, clean_service, service_rules, max_services, kept_text, clean_source, clean_server,
}
use health_beat.Ingest.Named.{Listed, tested, passed}

abbrev pub ServiceOk : Service → Type 0
ServiceOk s =
    (Clean max_service_text s.description × Clean max_state_text s.active)
    × ((Clean max_state_text s.sub × Clean max_state_text s.enabled)
        × ((is_empty s.active ≡ false) × Between zero_ℤ max_count s.restarts))

clean_service-ok :
    (t : TimeText) (s : Service)
    → is_empty (clean_text s.active max_state_text) ≡ false
    → ServiceOk (clean_service t s)
unfolding clean_service
clean_service-ok t s h = (
  (clean_text-Clean s.description max_service_text, clean_text-Clean s.active max_state_text),
  (
    (clean_text-Clean s.sub max_state_text, clean_text-Clean s.enabled max_state_text),
    (h, int_in-Between s.restarts zero_ℤ max_count),
  ),
)

pub clean_services-Listed :
    (t : TimeText) (ss : List Service)
    → Listed
        (service_rules t)
        ServiceOk
        max_services
        (sanitize_list (service_rules t) max_services [] ss)
clean_services-Listed t ss =
    sanitize_list-Stored (service_rules t) ServiceOk
      (record {
        renamed = λ n s. refl;
        admitted = λ n x y h.
            let p =
              tested (is_empty (clean_text x.active max_state_text)) (clean_service t x) y h in
            subst ServiceOk p.1 (clean_service-ok t x p.0);
      })
      max_services [] ss

abbrev pub GroupOk : ProcessGroup → Type 0
GroupOk g =
    (Clean 64 g.name × (is_empty g.name ≡ false))
    × (Amid (pos 1) max_count g.number
        × (Inside zero_ℤ percent g.cpu_pct × Inside zero_ℤ max_swap_mb g.rss_mb))

group-ok : (g : ProcessGroup) → group_ok g ≡ true → GroupOk (record g { name = group_name g })
unfolding group_ok
group-ok g h = (
  (clean_text-Clean g.name 64, ground (arith, h)),
  (
    int_between-Amid g.number (pos 1) max_count (ground (arith, h)),
    (
      in_range-Inside g.cpu_pct zero_ℤ percent (ground (arith, h)),
      in_range-Inside g.rss_mb zero_ℤ max_swap_mb (ground (arith, h)),
    ),
  ),
)

-- At most `n` entries, each with the property.
abbrev pub Each : {A : Type 0} → (A → Type 0) → ℕ → List A → Type 0
Each P n xs = (length xs ≤ n) × All P xs

pub sanitize_process_groups-Each :
    (gs : List ProcessGroup) → Each GroupOk 20 (sanitize_process_groups gs)
unfolding sanitize_process_groups
sanitize_process_groups-Each gs =
    sanitize_each-All GroupOk
      (λ g. if group_ok g then some (record g { name = group_name g }) else none) 20 gs
      (λ x y h.
        let p = passed (group_ok x) (record x { name = group_name x }) y h in
        subst GroupOk p.1 (group-ok x p.0))

abbrev pub TextOk : ℕ → String → Type 0
TextOk max s = Clean max s × (is_empty s ≡ false)

pub texts-Each :
    (max n : ℕ) (texts : List String) → Each (TextOk max) n (sanitize_each (kept_text max) n texts)
texts-Each max n texts = sanitize_each-All (TextOk max) (kept_text max) n texts (λ x y h.
    let p = tested (is_empty (clean_text x max)) (clean_text x max) y h in
    subst (TextOk max) p.1 (clean_text-Clean x max, p.0))

abbrev pub SourceOk : TimeSource → Type 0
SourceOk s =
    (TextOk max_ntp_name_bytes s.name × TextOk max_state_text s.state)
    × (Between zero_ℤ (pos 255) s.reach × InRange (negsuc 999_999_999) max_millis s.offset_ms)

cleaned_source : TimeSource → TimeSource
cleaned_source s = record {
  name = clean_text s.name max_ntp_name_bytes;
  state = clean_text s.state max_state_text;
  reach = int_in s.reach zero_ℤ (pos 255);
  offset_ms = float_in s.offset_ms (negsuc 999_999_999) max_millis;
}

pub sources-Each :
    (n : ℕ) (ss : List TimeSource) → Each SourceOk n (sanitize_each clean_source n ss)
unfolding clean_source cleaned_source
sources-Each n ss = sanitize_each-All SourceOk clean_source n ss (λ x y h.
    let p =
      tested
        (is_empty (clean_text x.name max_ntp_name_bytes)
          || is_empty (clean_text x.state max_state_text))
        (cleaned_source x) y h in
    subst SourceOk p.1 (
      (
        (clean_text-Clean x.name max_ntp_name_bytes, ground (arith, p.0)),
        (clean_text-Clean x.state max_state_text, ground (arith, p.0)),
      ),
      (
        int_in-Between x.reach zero_ℤ (pos 255),
        float_in-InRange x.offset_ms (negsuc 999_999_999) max_millis,
      ),
    ))

abbrev pub ServerOk : DnsServer → Type 0
ServerOk s = TextOk max_dns_address_bytes s.address × Clean max_state_text s.interface

pub servers-Each : (n : ℕ) (ss : List DnsServer) → Each ServerOk n (sanitize_each clean_server n ss)
unfolding clean_server
servers-Each n ss = sanitize_each-All ServerOk clean_server n ss (λ x y h.
    let p =
      tested (is_empty (clean_text x.address max_dns_address_bytes))
        (record {
          address = clean_text x.address max_dns_address_bytes;
          interface = clean_text x.interface max_state_text;
        })
        y h in
    subst ServerOk p.1 (
      (clean_text-Clean x.address max_dns_address_bytes, p.0),
      clean_text-Clean x.interface max_state_text,
    ))
