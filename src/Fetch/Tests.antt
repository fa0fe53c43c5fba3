-- ===== src/Fetch/Tests.antt =====
-- A small network, and the theorems at it. The parsers are tables for its hosts.
use Prim.Native.String.{String}
use readprism.Url.{UrlParts}
use readprism.Prelude.Text.{Text, codes, text_eq, starts_with, remove_prefix}
use readprism.Prelude.{
  ◌+◌, ◌≡◌, refl, Bool, true, false, Option, none, some, List, [], ◌∷◌, if◌then◌else◌,
}
use readprism.Fetch.Guard.{
  Address, blocked_ip, Checked, refused, passed, Parsers, check_addresses, literal_ip, check_host,
  validate_public_url, Response, buffer, read_capped, Connection, Options, hops, safe_fetch,
  blocked_address, raised,
}
use readprism.Fetch.Hops.{IsFetch, safe_fetch_guarded}

abbrev address : String → Bool → Address
address name is_private = record {
  name = codes name;
  flags = record {
    is_loopback = false;
    is_private = is_private;
    is_link_local = false;
    is_reserved = false;
    is_multicast = false;
    is_unspecified = false;
    is_global = if is_private then false else true;
  };
  ipv4_mapped = none;
}

abbrev outside : Address
outside = address "93.184.216.34" false

abbrev inside : Address
inside = address "10.0.0.1" true

abbrev parsers : Parsers
parsers = record {
  ip_address = λ t.
      if text_eq t outside.name
      then some outside
      else if text_eq t inside.name
      then some inside
      else none;
  ip_of_number = λ n. none;
  is_digits = λ t. false;
  decimal = λ t. none;
  hexadecimal = λ t. none;
}

-- `rebind.example` has a private address beside a public one.
abbrev resolver : Text → Option (List Text)
resolver host =
    if text_eq host (codes "good.example")
    then some (outside.name ∷ [])
    else if text_eq host (codes "rebind.example")
    then some (outside.name ∷ inside.name ∷ [])
    else none

-- `urlparse` for the URLs below, which are a scheme and a host.
abbrev urlparse : Text → UrlParts
urlparse url = record {
  scheme = if starts_with url (codes "https://") then codes "https" else codes "http";
  username = none;
  password = none;
  hostname = some (remove_prefix (remove_prefix url (codes "https://")) (codes "http://"));
  port = none;
  netloc = remove_prefix (remove_prefix url (codes "https://")) (codes "http://");
  path = [];
}

abbrev validate : Text → Checked
validate = validate_public_url parsers resolver [] true urlparse

good_passes : validate (codes "https://good.example.") ≡ passed (outside ∷ [])
unfolding validate_public_url check_host literal_ip check_addresses blocked_ip
good_passes = refl

rebind_refused : validate (codes "https://rebind.example") ≡ refused blocked_address
unfolding validate_public_url check_host literal_ip check_addresses blocked_ip
rebind_refused = refl

-- The good host redirects to the other one.
abbrev request : Connection → Response
request c = record {
  status_code = 301;
  is_redirect = true;
  location = some (codes "https://rebind.example");
  content_length = none;
  chunks = [];
}

abbrev options : Options
options = record { require_https = true; pin_ip = true; max_redirects = 5; max_bytes = 5000000 }

redirect_refused :
    safe_fetch validate (λ base location. location) request options (codes "https://good.example")
    ≡ (
      record { url = codes "https://good.example"; ip = some outside } ∷ [],
      raised blocked_address,
    )
unfolding safe_fetch hops read_capped buffer validate_public_url check_host literal_ip
    check_addresses blocked_ip
redirect_refused = refl

safe_fetch_guarded_example :
    IsFetch validate
      (λ base location. location)
      request
      options
      (5 + 1)
      (safe_fetch validate
        (λ base location. location)
        request
        options
        (codes "https://good.example"))
safe_fetch_guarded_example =
    safe_fetch_guarded validate (λ base location. location) request options
      (codes "https://good.example")
