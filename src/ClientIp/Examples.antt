-- ===== src/ClientIp/Examples.antt =====
-- Runs of the resolver at concrete inputs: tests, and instances of the theorems.
use health_beat.Prelude.{
  ℕ, false, String, List, [], ◌∷◌, Option, none, some, get, string_eq, leb, eqb, ◌==◌,
  if◌then◌else◌, any, ◌≡◌, refl,
}
use health_beat.ClientIp.Resolver.{
  Netip, Resolver, Request, parse_addr, trusted, split_commas, hops_of, client_ip, refresh,
}
use health_beat.ClientIp.Forwarded.{client_ip-client, FromPeer, client_ip-FromPeer}
use health_beat.ClientIp.Lookups.{known_after, refresh-get}
use health_beat.Ingest.Text.{trim_left, trim_right, is_space}

-- Three addresses that parse; the first two are in the trusted range 0.
abbrev parse_three : String → Option ℕ
parse_three s =
    if s == "10.0.0.2"
    then some 2
    else if s == "10.0.0.3"
    then some 3
    else if s == "203.0.113.9"
    then some 9
    else none

abbrev print : ℕ → String
print a = if eqb a 2 then "10.0.0.2" else if eqb a 3 then "10.0.0.3" else "203.0.113.9"

abbrev net : Netip
net = record {
  parse_addr = parse_three;
  parse_addr_port = λ s. none;
  plain = λ a. a;
  text = print;
  contains = λ p a. leb a 5;
  compare_le = leb;
  split_host_port = λ s. none;
}

abbrev resolver : Resolver
resolver = record {
  proxies = record { prefixes = 0 ∷ []; hosts = "panel" ∷ [] };
  resolved = [];
  failing = [];
  trigger = false;
}

abbrev header : List String
header = "10.0.0.3, 203.0.113.9 ,10.0.0.3" ∷ []

client_ip-client_example :
    (client_ip net resolver
      (record { remote_addr = "10.0.0.2"; forwarded = "1.2.3.4, 10.0.0.2" ∷ header })).0
    ≡ "203.0.113.9"
unfolding parse_addr trusted hops_of split_commas trim_left trim_right is_space
client_ip-client_example =
    client_ip-client net resolver "10.0.0.2" 2 9 ("1.2.3.4, 10.0.0.2" ∷ []) header ("10.0.0.3" ∷ [])
      " 203.0.113.9 " ("10.0.0.3" ∷ []) refl refl refl refl refl (refl, tt)

abbrev through_proxy : Request
through_proxy = record { remote_addr = "10.0.0.2"; forwarded = header }

client_ip-FromPeer_example : FromPeer net resolver header 2 (client_ip net resolver through_proxy).0
unfolding parse_addr
client_ip-FromPeer_example = client_ip-FromPeer net resolver through_proxy 2 refl

refresh-get_example : get "panel" (refresh net (λ h. some (3 ∷ 2 ∷ [])) resolver).resolved ≡ (
    if any (λ h. h == "panel") resolver.proxies.hosts
    then known_after net (some (3 ∷ 2 ∷ [])) (get "panel" resolver.resolved)
    else get "panel" resolver.resolved)
refresh-get_example = refresh-get net (λ h. some (3 ∷ 2 ∷ [])) "panel" resolver
