-- ===== src/ClientIp/Lookups.antt =====
-- clientip/clientip.go (`Refresh`): the addresses of the proxies that are given by name.
use health_beat.Prelude.{
  ℕ, Bool, true, false, ◌||◌, String, List, [], ◌∷◌, Option, none, some, get, map, any, sort, ◌==◌,
  string_eq, if◌then◌else◌, ◌≡◌, refl, ap, ◌∙◌, arith, get-put,
}
use health_beat.ClientIp.Resolver.{Netip, Resolver, record_lookup, refresh_hosts, refresh}

abbrev pub known_after : Netip → Option (List ℕ) → Option (List ℕ) → Option (List ℕ)
known_after n none old = old
known_after n (some addrs) old = some (sort n.compare_le (map n.plain addrs))

record_lookup-get :
    (n : Netip) (host name : String) (got : Option (List ℕ)) (r : Resolver)
    → get name (record_lookup n host got r).resolved
      ≡ (if host == name then known_after n got (get name r.resolved) else get name r.resolved)
record_lookup-get n host name none r = ground arith
record_lookup-get n host name (some addrs) r =
    get-put host name (sort n.compare_le (map n.plain addrs)) r.resolved

known_twice :
    (n : Netip) (got old : Option (List ℕ))
    → known_after n got (known_after n got old) ≡ known_after n got old
known_twice n none old = refl
known_twice n (some addrs) old = refl

combined :
    (n : Netip) (got old : Option (List ℕ)) (b c : Bool)
    → (if c
        then known_after n got (if b then known_after n got old else old)
        else if b
        then known_after n got old
        else old)
      ≡ (if b || c then known_after n got old else old)
combined n got old true true = known_twice n got old
combined n got old true false = refl
combined n got old false true = refl
combined n got old false false = refl

-- The lookup of the name is meant where the names are the same.
same_lookup :
    (n : Netip) (lookup : String → Option (List ℕ)) (host name : String) (old : Option (List ℕ))
    (b : Bool)
    → (host == name) ≡ b
    → (if b then known_after n (lookup host) old else old)
      ≡ (if b then known_after n (lookup name) old else old)
same_lookup n lookup host name old true e =
    ap (λ h. known_after n (lookup h) old) ((string_eq.same_iff host name).0 e)
same_lookup n lookup host name old false e = refl

refresh_hosts-get :
    (n : Netip) (lookup : String → Option (List ℕ)) (name : String) (hosts : List String)
    (r : Resolver)
    → get name (refresh_hosts n lookup hosts r).resolved ≡ (
        if any (λ h. h == name) hosts
        then known_after n (lookup name) (get name r.resolved)
        else get name r.resolved)
unfolding refresh_hosts
refresh_hosts-get n lookup name [] r = refl
refresh_hosts-get n lookup name (host ∷ hosts) r =
    let here = record_lookup-get n host name (lookup host) r in
    let there = refresh_hosts-get n lookup name hosts (record_lookup n host (lookup host) r) in
    let old : Option (List ℕ) = get name r.resolved in
    there
    ∙ ap (λ o. if any (λ h. h == name) hosts then known_after n (lookup name) o else o)
        (here ∙ same_lookup n lookup host name old (host == name) refl)
    ∙ combined n (lookup name) old (host == name) (any (λ h. h == name) hosts)

-- After a refresh, the addresses of a name of the list are those that its lookup gave, without zones
-- and in order, or the last known ones where it failed; those of other names are as before.
pub refresh-get :
    (n : Netip) (lookup : String → Option (List ℕ)) (name : String) (r : Resolver)
    → get name (refresh n lookup r).resolved ≡ (
        if any (λ h. h == name) r.proxies.hosts
        then known_after n (lookup name) (get name r.resolved)
        else get name r.resolved)
unfolding refresh
refresh-get n lookup name r = refresh_hosts-get n lookup name r.proxies.hosts r
