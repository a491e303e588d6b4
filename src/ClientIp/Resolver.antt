-- ===== src/ClientIp/Resolver.antt =====
-- clientip/clientip.go: the address of the client of a request, behind trusted proxies. Addresses and
-- prefixes are numbers, and what `net/netip` and the name service do with them is a parameter. The
-- texts of a header are native; Go's `strings.Split` and `strings.TrimSpace` are written out.
use Prim.Native.Char.{Char, code}
use Prim.Native.String.{String}
use health_beat.Prelude.{
  ℕ, ◌*◌, Bool, true, false, not, ◌&&◌, ◌||◌, List, [], ◌∷◌, ◌++◌, Option, none, some, Map, get,
  put, has, values, map, any, sort, nat_eq, string_eq, eqb, if◌then◌else◌,
}
use health_beat.Ingest.Text.{trim_left, trim_right, is_empty}

-- netip.ParseAddr, netip.ParseAddrPort and the address of it, Unmap and WithZone(""), String,
-- Prefix.Contains, Compare (not positive), net.SplitHostPort.
pub record Netip : Type 0 where
  pub parse_addr : String → Option ℕ
  pub parse_addr_port : String → Option ℕ
  pub plain : ℕ → ℕ
  pub text : ℕ → String
  pub contains : ℕ → ℕ → Bool
  pub compare_le : ℕ → ℕ → Bool
  pub split_host_port : String → Option String

pub record Proxies : Type 0 where
  pub prefixes : List ℕ
  pub hosts : List String

-- `trigger`: a refresh has been asked for.
pub record Resolver : Type 0 where
  pub proxies : Proxies
  pub resolved : Map String (List ℕ)
  pub failing : Map String Bool
  pub trigger : Bool

-- The remote address, and the lines of X-Forwarded-For.
pub record Request : Type 0 where
  pub remote_addr : String
  pub forwarded : List String

-- `New`
unfoldable pub new : Proxies → Resolver
new p = record { proxies = p; resolved = []; failing = []; trigger = false }

abbrev pub has_hosts : List String → Bool
has_hosts [] = false
has_hosts (h ∷ hs) = true

abbrev pub member : ℕ → List ℕ → Bool
member a addrs = any (λ b. eqb b a) addrs

-- `parseAddr`
abbrev pub or_port : Netip → Option ℕ → Option ℕ → Option ℕ
or_port n (some a) p = some (n.plain a)
or_port n none (some a) = some (n.plain a)
or_port n none none = none

unfoldable pub parse_addr : Netip → String → Option ℕ
parse_addr n s = or_port n (n.parse_addr s) (n.parse_addr_port s)

-- `trusted`
unfoldable pub trusted : Netip → Resolver → ℕ → Bool
trusted n r addr =
    any (λ p. n.contains p addr) r.proxies.prefixes
    || (has_hosts r.proxies.hosts && any (member addr) (values r.resolved))

-- `strings.Split(line, ",")`
abbrev pub push : Char → List String → List String
push c [] = String.◌∷◌ c String.[] ∷ []
push c (w ∷ ws) = String.◌∷◌ c w ∷ ws

unfoldable pub split_commas : String → List String
split_commas String.[] = "" ∷ []
split_commas (String.◌∷◌ c s) =
    let rest = split_commas s in if eqb (code c) 44 then "" ∷ rest else push c rest

unfoldable pub hops_of : List String → List String
unfolding split_commas
hops_of [] = []
hops_of (line ∷ lines) = split_commas line ++ hops_of lines

-- What reading the hops from the right comes to: an answer, or only trusted proxies.
pub data Read : Type 0 where
  answers : String → Read
  passes : Read

abbrev pub look : Netip → Resolver → String → Option ℕ → Read
look n r peer none = answers peer
look n r peer (some addr) = if trusted n r addr then passes else answers (n.text addr)

abbrev pub trim_space : String → String
trim_space s = trim_right (trim_left s)

abbrev pub or_look : Read → Read → Read
or_look (answers s) here = answers s
or_look passes here = here

-- The loop of `ClientIP`; the hop on the left is read last.
unfoldable pub read_hops : Netip → Resolver → String → List String → Read
unfolding trusted parse_addr trim_left trim_right
read_hops n r peer [] = passes
read_hops n r peer (h ∷ hs) =
    or_look (read_hops n r peer hs) (look n r peer (parse_addr n (trim_space h)))

abbrev pub or_peer : String → Read → String
or_peer peer (answers s) = s
or_peer peer passes = peer

abbrev pub first_line : List String → String
first_line [] = ""
first_line (line ∷ lines) = line

abbrev pub asked : Resolver → Resolver
asked r = record r { trigger = true }

-- `ClientIP` of an address that parses.
unfoldable pub client_of : Netip → Resolver → ℕ → List String → String × Resolver
unfolding trusted read_hops hops_of
client_of n r peer lines =
    if trusted n r peer
    then (or_peer (n.text peer) (read_hops n r (n.text peer) (hops_of lines)), r)
    else (
      n.text peer,
      if has_hosts r.proxies.hosts && not (is_empty (first_line lines)) then asked r else r,
    )

abbrev pub host_only : String → Option String → String
host_only remote (some host) = host
host_only remote none = remote

-- `ClientIP` of a resolver that is there (of a nil one it is the peer).
abbrev pub client_at : Netip → Resolver → Request → Option ℕ → String × Resolver
client_at n r q none = (host_only q.remote_addr (n.split_host_port q.remote_addr), r)
client_at n r q (some peer) = client_of n r peer q.forwarded

unfoldable pub client_ip : Netip → Resolver → Request → String × Resolver
unfolding parse_addr client_of
client_ip n r q = client_at n r q (parse_addr n q.remote_addr)

-- One name of `Refresh`, with what its lookup gives.
abbrev pub record_lookup : Netip → String → Option (List ℕ) → Resolver → Resolver
record_lookup n host none r = record r { failing = put host true r.failing }
record_lookup n host (some addrs) r = record r {
  resolved = put host (sort n.compare_le (map n.plain addrs)) r.resolved;
  failing = put host false r.failing;
}

unfoldable pub refresh_hosts :
    Netip → (String → Option (List ℕ)) → List String → Resolver → Resolver
unfolding put
refresh_hosts n lookup [] r = r
refresh_hosts n lookup (host ∷ hosts) r =
    refresh_hosts n lookup hosts (record_lookup n host (lookup host) r)

-- `Refresh`
unfoldable pub refresh : Netip → (String → Option (List ℕ)) → Resolver → Resolver
unfolding refresh_hosts
refresh n lookup r = refresh_hosts n lookup r.proxies.hosts r

abbrev pub is_true : Option Bool → Bool
is_true none = false
is_true (some b) = b

abbrev pub second : ℕ
second = 1_000_000_000

abbrev pub unresolved : Resolver → String → Bool
unresolved r host = not (has host r.resolved) || is_true (get host r.failing)

-- `nextDelay`
unfoldable pub next_delay : Resolver → ℕ
unfolding has get
next_delay r = if any (unresolved r) r.proxies.hosts then 2 * second else 30 * second
