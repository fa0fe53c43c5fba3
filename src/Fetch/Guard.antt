-- ===== src/Fetch/Guard.antt =====
-- The guard of server-side fetches: `validate_public_url`, `_read_capped` and `safe_fetch` of
-- backend/app/utils/ssrf.py. `urlparse`, `urljoin`, `ipaddress`, `int`, the resolver and the network are
-- parameters. An address stands for `str(ip)` too. Error texts are data.
use readprism.Url.{UrlParts}
use readprism.Prelude.Text.{Text, codes, text_eq, lower, starts_with, ends_with, rstrip, member}
use readprism.Prelude.{
  length, ℕ, zero, suc, ◌+◌, Bool, true, false, ◌&&◌, ◌||◌, not, Option, none, some, List, [], ◌∷◌,
  ◌++◌, ltb, ◌==◌, if◌then◌else◌, or_else,
}

-- What `_blocked_ip_reason` reads of an address.
pub record Flags : Type 0 where
  pub is_loopback : Bool
  pub is_private : Bool
  pub is_link_local : Bool
  pub is_reserved : Bool
  pub is_multicast : Bool
  pub is_unspecified : Bool
  pub is_global : Bool

pub record Address : Type 0 where
  pub name : Text
  pub flags : Flags
  pub ipv4_mapped : Option Flags

abbrev blocked_flags : Flags → Bool
blocked_flags f =
    f.is_loopback
    || f.is_private
    || f.is_link_local
    || f.is_reserved
    || f.is_multicast
    || f.is_unspecified
    || not f.is_global

-- `_blocked_ip_reason` is not None.
unfoldable pub blocked_ip : Address → Bool
blocked_ip ip = blocked_flags (or_else ip.ipv4_mapped ip.flags)

pub data Unsafe : Type 0 where
  bad_scheme credentials no_host blocked_host blocked_address unresolved cleartext too_large
        too_many_redirects :
      Unsafe

pub data Checked : Type 0 where
  refused : Unsafe → Checked
  passed : List Address → Checked

abbrev pub is_truthy : Option Text → Bool
is_truthy none = false
is_truthy (some []) = false
is_truthy (some (c ∷ t)) = true

abbrev pub allowed_schemes : List Text
allowed_schemes = codes "http" ∷ codes "https" ∷ []

abbrev pub blocked_hostnames : List Text
blocked_hostnames = codes "localhost" ∷ codes "metadata.google.internal" ∷ codes "metadata" ∷ []

-- Python's `int`, `str.isdigit` and `ipaddress.ip_address`.
pub record Parsers : Type 0 where
  pub ip_address : Text → Option Address
  pub ip_of_number : ℕ → Option Address
  pub is_digits : Text → Bool
  pub decimal : Text → Option ℕ
  pub hexadecimal : Text → Option ℕ

module _ (py : Parsers) where
  abbrev ip_of : Option ℕ → Option Address
  ip_of none = none
  ip_of (some n) = py.ip_of_number n

  abbrev or_number : Text → Option Address → Option Address
  or_number host (some ip) = some ip
  or_number host none =
      if py.is_digits host
      then ip_of (py.decimal host)
      else if starts_with (lower host) (codes "0x")
      then ip_of (py.hexadecimal host)
      else none

  -- `_literal_ip`
  unfoldable pub literal_ip : Text → Option Address
  literal_ip host = or_number host (py.ip_address host)

  abbrev pub check_next : Bool → Option Address → Checked → Checked
  check_next exempt none rest = rest
  check_next exempt (some ip) (refused e) =
      if not exempt && blocked_ip ip then refused blocked_address else refused e
  check_next exempt (some ip) (passed ips) =
      if not exempt && blocked_ip ip then refused blocked_address else passed (ip ∷ ips)

  -- The loop over the answers of the resolver.
  unfoldable pub check_addresses : Bool → List Text → Checked
  unfolding blocked_ip
  check_addresses exempt [] = passed []
  check_addresses exempt (a ∷ l) = check_next exempt (py.ip_address a) (check_addresses exempt l)

  abbrev pub some_address : Checked → Checked
  some_address (refused e) = refused e
  some_address (passed []) = refused unresolved
  some_address (passed (ip ∷ ips)) = passed (ip ∷ ips)

  abbrev pub check_answers : Bool → Option (List Text) → Checked
  check_answers exempt none = refused unresolved
  check_answers exempt (some answers) = some_address (check_addresses exempt answers)

  abbrev pub check_literal : Bool → Option Address → Checked → Checked
  check_literal exempt (some ip) rest =
      if not exempt && blocked_ip ip then refused blocked_address else passed (ip ∷ [])
  check_literal exempt none rest = rest

  module _ (resolver : Text → Option (List Text)) (allow_private_hosts : List Text) where
    abbrev pub is_exempt : Text → Bool
    is_exempt host = member (lower host) allow_private_hosts

    unfoldable pub check_host : Text → Checked
    unfolding blocked_ip literal_ip check_addresses
    check_host host =
        let exempt = is_exempt host in
        if not exempt
          && (member (lower host) blocked_hostnames || ends_with (lower host) (codes ".localhost"))
        then refused blocked_host
        else check_literal exempt (literal_ip (lower host)) (check_answers exempt (resolver host))

    abbrev pub host_of : UrlParts → Text
    host_of parsed = rstrip 46 (or_else parsed.hostname [])

    module _ (protected : Bool) (urlparse : Text → UrlParts) where
      unfoldable pub validate_public_url : Text → Checked
      unfolding check_host
      validate_public_url url =
          let parsed = urlparse url in
          if not protected
          then passed []
          else if not (member (lower parsed.scheme) allowed_schemes)
          then refused bad_scheme
          else if is_truthy parsed.username || is_truthy parsed.password
          then refused credentials
          else if not (is_truthy parsed.hostname)
          then refused no_host
          else check_host (host_of parsed)

-- A response, its body in chunks; `content_length` where the header is a number.
pub record Response : Type 0 where
  pub status_code : ℕ
  pub is_redirect : Bool
  pub location : Option Text
  pub content_length : Option ℕ
  pub chunks : List (List ℕ)

abbrev declared_over : ℕ → Option ℕ → Bool
declared_over max_bytes none = false
declared_over max_bytes (some n) = ltb max_bytes n

-- The loop over the chunks, with what is buffered.
unfoldable pub buffer : ℕ → List ℕ → List (List ℕ) → Option (List ℕ)
buffer max_bytes buf [] = some buf
buffer max_bytes buf (c ∷ cs) =
    let rest = buffer max_bytes (buf ++ c) cs in
    if ltb max_bytes (length (buf ++ c)) then none else rest

-- `_read_capped`; `none` is its error.
unfoldable pub read_capped : Response → ℕ → Option (List ℕ)
unfolding buffer
read_capped resp max_bytes =
    if declared_over max_bytes resp.content_length then none else buffer max_bytes [] resp.chunks

-- A connection: the URL asked for, and the address that it is pinned to.
pub record Connection : Type 0 where
  pub url : Text
  pub ip : Option Address

pub record Fetched : Type 0 where
  pub status_code : ℕ
  pub body : List ℕ
  pub permanent_url : Option Text

pub data Result : Type 0 where
  raised : Unsafe → Result
  fetched : Fetched → Result

pub record Options : Type 0 where
  pub require_https : Bool
  pub pin_ip : Bool
  pub max_redirects : ℕ
  pub max_bytes : ℕ

abbrev pub pinned : Bool → List Address → Option Address
pinned true (ip ∷ ips) = some ip
pinned _ _ = none

module _ (validate : Text → Checked) (urljoin : Text → Text → Text)
    (request : Connection → Response) (o : Options) where
  -- The answer of the last hop.
  abbrev pub finish : Text → Text → Bool → Response → Option (List ℕ) → Result
  finish url current moved resp none = raised too_large
  finish url current moved resp (some body) = fetched (record {
    status_code = resp.status_code;
    body = body;
    permanent_url =
        if moved && not (text_eq (rstrip 47 current) (rstrip 47 url)) then some current else none;
  })

  abbrev pub connect : Connection → List Connection × Result → List Connection × Result
  connect c (trace, result) = (c ∷ trace, result)

  -- The loop of `safe_fetch` over its hops, with the connections that it opens.
  unfoldable pub hops : Text → ℕ → Text → Bool → Bool → List Connection × Result
  unfolding read_capped
  hops url zero current saw_redirect all_permanent = ([], raised too_many_redirects)
  hops url (suc n) current saw_redirect all_permanent = elim (validate current) [
    | refused e ↦
        if o.require_https && not (starts_with (lower current) (codes "https://"))
        then ([], raised cleartext)
        else ([], raised e)
    | passed ips ↦
        let c : Connection = record { url = current; ip = pinned o.pin_ip ips } in
        let resp = request c in
        let next =
          hops url n (urljoin current (or_else resp.location [])) true
            (all_permanent && resp.status_code == 301) in
        if o.require_https && not (starts_with (lower current) (codes "https://"))
        then ([], raised cleartext)
        else if resp.is_redirect && is_truthy resp.location
        then connect c next
        else (
          c ∷ [],
          finish url current (saw_redirect && all_permanent) resp (read_capped resp o.max_bytes),
        )
  ]

  unfoldable pub safe_fetch : Text → List Connection × Result
  safe_fetch url = hops url (o.max_redirects + 1) url false true
