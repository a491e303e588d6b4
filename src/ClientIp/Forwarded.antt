-- ===== src/ClientIp/Forwarded.antt =====
-- clientip/clientip.go (`ClientIP`): what a client can write into X-Forwarded-For does not count.
use health_beat.Prelude.{
  ℕ, Bool, true, false, ◌&&◌, not, Option, none, String, List, [], ◌∷◌, ◌++◌, some, All, Some, ◌⊎◌,
  inl, inr, subst, ◌≡◌, refl, sym, ap, ◌∙◌, if◌then◌else◌, if-true,
}
use health_beat.Ingest.Text.{is_empty}
use health_beat.ClientIp.Resolver.{
  Netip, Resolver, Request, parse_addr, trusted, split_commas, hops_of, Read, answers, passes, look,
  has_hosts, first_line, asked, trim_space, or_look, read_hops, or_peer, client_of, client_at,
  client_ip,
}

append_assoc : (xs ys zs : List String) → (xs ++ ys) ++ zs ≡ xs ++ (ys ++ zs)
append_assoc [] ys zs = refl
append_assoc (x ∷ xs) ys zs = ap (λ l. x ∷ l) (append_assoc xs ys zs)

hops_of-append : (xs ys : List String) → hops_of (xs ++ ys) ≡ hops_of xs ++ hops_of ys
unfolding hops_of
hops_of-append [] ys = refl
hops_of-append (x ∷ xs) ys =
    ap (λ l. split_commas x ++ l) (hops_of-append xs ys)
    ∙ sym (append_assoc (split_commas x) (hops_of xs) (hops_of ys))

module _ (n : Netip) (r : Resolver) (peer : String) where
  abbrev pub TrustedHop : String → Type 0
  TrustedHop h = look n r peer (parse_addr n (trim_space h)) ≡ passes

  read_hops-append :
      (xs ys : List String) (s : String)
      → read_hops n r peer ys ≡ answers s
      → read_hops n r peer (xs ++ ys) ≡ answers s
  unfolding read_hops
  read_hops-append [] ys s h = h
  read_hops-append (x ∷ xs) ys s h =
      ap (λ o. or_look o (look n r peer (parse_addr n (trim_space x)))) (read_hops-append xs ys s h)

  read_hops-trusted : (hs : List String) → All TrustedHop hs → read_hops n r peer hs ≡ passes
  unfolding read_hops
  read_hops-trusted [] h = refl
  read_hops-trusted (x ∷ hs) h =
      ap (λ o. or_look o (look n r peer (parse_addr n (trim_space x)))) (read_hops-trusted hs h.1)
      ∙ h.0

  read_hops-client :
      (client : String) (hs : List String) (a : ℕ)
      → parse_addr n (trim_space client) ≡ some a
      → trusted n r a ≡ false
      → All TrustedHop hs
      → read_hops n r peer (client ∷ hs) ≡ answers (n.text a)
  unfolding read_hops
  read_hops-client client hs a parsed distrusted h =
      ap (λ o. or_look o (look n r peer (parse_addr n (trim_space client))))
        (read_hops-trusted hs h)
      ∙ ap (look n r peer) parsed
      ∙ ap (λ b. if b then passes else answers (n.text a)) distrusted

-- What the client of a trusted peer is, where the last hops of the header are the address of a client
-- that is not trusted and then trusted proxies: that address, whatever hops stand before it, in the
-- same lines or in lines before them.
pub client_ip-client :
    (n : Netip) (r : Resolver) (remote : String) (peer a : ℕ) (forged lines before : List String)
    (client : String) (hs : List String)
    → parse_addr n remote ≡ some peer
    → trusted n r peer ≡ true
    → hops_of lines ≡ before ++ (client ∷ hs)
    → parse_addr n (trim_space client) ≡ some a
    → trusted n r a ≡ false
    → All (TrustedHop n r (n.text peer)) hs
    → (client_ip n r (record { remote_addr = remote; forwarded = forged ++ lines })).0 ≡ n.text a
unfolding client_ip client_of
client_ip-client n r remote peer a forged lines before client hs remote_is trusts hops parsed
      distrusted proxies =
    let q : Request = record { remote_addr = remote; forwarded = forged ++ lines } in
    ap (λ o. (client_at n r q o).0) remote_is
    ∙ ap (λ (p : String × Resolver). p.0) (if-true (trusted n r peer) _ _ trusts)
    ∙ ap (or_peer (n.text peer)) (
        ap (read_hops n r (n.text peer))
          (hops_of-append forged lines ∙ ap (λ l. hops_of forged ++ l) hops)
        ∙ read_hops-append n r (n.text peer) (hops_of forged) (before ++ (client ∷ hs)) (n.text a) (
            read_hops-append n r (n.text peer) before (client ∷ hs) (n.text a)
              (read_hops-client n r (n.text peer) client hs a parsed distrusted proxies)))

-- The text is the address of the hop, which is not trusted.
abbrev pub Reported : Netip → Resolver → String → String → Type 0
Reported n r client hop =
    (a : ℕ) × ((parse_addr n (trim_space hop) ≡ some a)
      × ((trusted n r a ≡ false) × (client ≡ n.text a)))

-- What reading the hops comes to: the peer, or what a hop says.
abbrev Origin : Netip → Resolver → String → List String → Read → Type 0
Origin n r peer hops passes = Unit
Origin n r peer hops (answers s) = (s ≡ peer) ⊎ Some (Reported n r s) hops

read_hops-Origin :
    (n : Netip) (r : Resolver) (peer : String) (hops : List String)
    → Origin n r peer hops (read_hops n r peer hops)
unfolding read_hops
read_hops-Origin n r peer [] = tt
read_hops-Origin n r peer (h ∷ hs) =
    by_read (read_hops n r peer hs) (parse_addr n (trim_space h)) refl
      (read_hops-Origin n r peer hs)
  where
    here :
        (a : ℕ) (b : Bool)
        → parse_addr n (trim_space h) ≡ some a
        → trusted n r a ≡ b
        → Origin n r peer (h ∷ hs) (if b then passes else answers (n.text a))
    here a true parsed is = tt
    here a false parsed is = inr (inl (a, (parsed, (is, refl))))

    by_read :
        (later : Read) (o : Option ℕ)
        → parse_addr n (trim_space h) ≡ o
        → Origin n r peer hs later
        → Origin n r peer (h ∷ hs) (or_look later (look n r peer o))
    by_read (answers s) o parsed (inl e) = inl e
    by_read (answers s) o parsed (inr some_hop) = inr (inr some_hop)
    by_read passes none parsed rest = inl refl
    by_read passes (some a) parsed rest = here a (trusted n r a) parsed refl

-- The client of a peer: the peer itself, or what a trusted one reports.
abbrev pub FromPeer : Netip → Resolver → List String → ℕ → String → Type 0
FromPeer n r lines peer client =
    (client ≡ n.text peer) ⊎ (trusted n r peer ≡ true) × Some (Reported n r client) (hops_of lines)

client_of-FromPeer :
    (n : Netip) (r : Resolver) (peer : ℕ) (lines : List String)
    → FromPeer n r lines peer (client_of n r peer lines).0
unfolding client_of
client_of-FromPeer n r peer lines = by_trust (trusted n r peer) refl
  where
    from_hops :
        (x : Read)
        → Origin n r (n.text peer) (hops_of lines) x
        → trusted n r peer ≡ true
        → FromPeer n r lines peer (or_peer (n.text peer) x)
    from_hops passes h trusts = inl refl
    from_hops (answers s) (inl e) trusts = inl e
    from_hops (answers s) (inr some_hop) trusts = inr (trusts, some_hop)

    by_trust :
        (b : Bool)
        → trusted n r peer ≡ b
        → (λ (p : String × Resolver). FromPeer n r lines peer p.0)
            (if b
              then (or_peer (n.text peer) (read_hops n r (n.text peer) (hops_of lines)), r)
              else (
                n.text peer,
                if has_hosts r.proxies.hosts && not (is_empty (first_line lines))
                    then asked r
                    else r,
              ))
    by_trust true e = from_hops _ (read_hops-Origin n r (n.text peer) (hops_of lines)) e
    by_trust false e = inl refl

-- Where the address of the peer parses, the client is the peer, or the peer is trusted and the
-- client is the address of some hop of the header that is not trusted: no header of a peer that is
-- not trusted changes the client, and a trusted proxy is never taken from the header.
pub client_ip-FromPeer :
    (n : Netip) (r : Resolver) (q : Request) (peer : ℕ)
    → parse_addr n q.remote_addr ≡ some peer
    → FromPeer n r q.forwarded peer (client_ip n r q).0
unfolding client_ip
client_ip-FromPeer n r q peer remote_is =
    subst (λ o. FromPeer n r q.forwarded peer (client_at n r q o).0) (sym remote_is)
      (client_of-FromPeer n r peer q.forwarded)
