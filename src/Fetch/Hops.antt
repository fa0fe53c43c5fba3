-- ===== src/Fetch/Hops.antt =====
-- What the guard of server-side fetches keeps out: `validate_public_url` and `safe_fetch` of
-- backend/app/utils/ssrf.py.
use readprism.Url.{UrlParts}
use readprism.Prelude.Text.{Text, codes, lower, starts_with, ends_with, member}
use readprism.Prelude.{
  All, length, ℕ, zero, suc, ◌+◌, ◌≤◌, ◌≡◌, refl, sym, Bool, true, false, ◌&&◌, ◌||◌, not, Option,
  none, some, List, [], ◌∷◌, ◌++◌, ltb, ◌==◌, if◌then◌else◌, or_else, arith, Bool-cases, inl, inr,
}
use readprism.Fetch.Guard.{
  Address, blocked_ip, Checked, refused, passed, Parsers, check_next, check_addresses, literal_ip,
  some_address, is_exempt, check_host, host_of, validate_public_url, Response, buffer, read_capped,
  Connection, Result, raised, fetched, Options, pinned, finish, connect, hops, safe_fetch,
  is_truthy, cleartext, blocked_address, blocked_host, bad_scheme, credentials, no_host,
  check_answers, check_literal, blocked_hostnames, allowed_schemes,
}

-- What was validated is not empty, and none of it is blocked, unless the host is exempt.
abbrev pub IsOpen : Bool → Checked → Type 0
IsOpen exempt (refused e) = Unit
IsOpen exempt (passed ips) =
    (1 ≤ length ips) × All (λ ip. (exempt || not (blocked_ip ip)) ≡ true) ips

-- The same, of a list that may be empty.
abbrev AllOpen : Bool → Checked → Type 0
AllOpen exempt (refused e) = Unit
AllOpen exempt (passed ips) = All (λ ip. (exempt || not (blocked_ip ip)) ≡ true) ips

if-IsOpen :
    (exempt c : Bool) (x y : Checked)
    → (c ≡ true → IsOpen exempt x)
    → (c ≡ false → IsOpen exempt y)
    → IsOpen exempt (if c then x else y)
if-IsOpen exempt true x y h h' = h refl
if-IsOpen exempt false x y h h' = h' refl

module _ (py : Parsers) where
  check_next-AllOpen :
      (exempt : Bool) (o : Option Address) (rest : Checked)
      → AllOpen exempt rest
      → AllOpen exempt (check_next py exempt o rest)
  check_next-AllOpen exempt none rest a = a
  check_next-AllOpen exempt (some ip) (refused e) a =
      elim (Bool-cases (not exempt && blocked_ip ip)) [ inl h ↦ rw h tt | inr h ↦ rw h tt ]
  check_next-AllOpen exempt (some ip) (passed ips) a =
      elim (Bool-cases (not exempt && blocked_ip ip)) [
        | inl h ↦ rw h tt
        | inr h ↦ rw h (ground (arith, h), a)
      ]

  check_addresses-AllOpen :
      (exempt : Bool) (l : List Text) → AllOpen exempt (check_addresses py exempt l)
  unfolding check_addresses
  check_addresses-AllOpen exempt [] = tt
  check_addresses-AllOpen exempt (a ∷ l) =
      check_next-AllOpen exempt (py.ip_address a) (check_addresses py exempt l)
        (check_addresses-AllOpen exempt l)

  some_address-IsOpen :
      (exempt : Bool) (c : Checked) → AllOpen exempt c → IsOpen exempt (some_address py c)
  some_address-IsOpen exempt (refused e) a = tt
  some_address-IsOpen exempt (passed []) a = tt
  some_address-IsOpen exempt (passed (ip ∷ ips)) a = (omega arith, a)

  check_answers-IsOpen :
      (exempt : Bool) (answers : Option (List Text))
      → IsOpen exempt (check_answers py exempt answers)
  check_answers-IsOpen exempt none = tt
  check_answers-IsOpen exempt (some l) =
      some_address-IsOpen exempt (check_addresses py exempt l) (check_addresses-AllOpen exempt l)

  check_literal-IsOpen :
      (exempt : Bool) (o : Option Address) (rest : Checked)
      → IsOpen exempt rest
      → IsOpen exempt (check_literal py exempt o rest)
  check_literal-IsOpen exempt none rest a = a
  check_literal-IsOpen exempt (some ip) rest a =
      if-IsOpen exempt (not exempt && blocked_ip ip) (refused blocked_address) (passed (ip ∷ []))
        (λ h. tt) (λ h. (omega arith, (ground (arith, h), tt)))

  module _ (resolver : Text → Option (List Text)) (allow_private_hosts : List Text) where
    check_host-IsOpen :
        (host : Text)
        → IsOpen
            (is_exempt py resolver allow_private_hosts host)
            (check_host py resolver allow_private_hosts host)
    unfolding check_host
    check_host-IsOpen host =
        let exempt = is_exempt py resolver allow_private_hosts host in
        if-IsOpen exempt
          (not exempt
            && (member (lower host) blocked_hostnames
                || ends_with (lower host) (codes ".localhost")))
          (refused blocked_host)
          (check_literal py exempt (literal_ip py (lower host))
            (check_answers py exempt (resolver host)))
          (λ h. tt)
          (λ h.
            check_literal-IsOpen exempt (literal_ip py (lower host))
              (check_answers py exempt (resolver host))
              (check_answers-IsOpen exempt (resolver host)))

    -- With the protection on, a URL passes only with addresses to connect to, and every one of them is
    -- public, unless the deployment exempts exactly that host.
    pub validate_public_url_public :
        (urlparse : Text → UrlParts) (url : Text)
        → IsOpen
            (is_exempt py resolver allow_private_hosts
              (host_of py resolver allow_private_hosts (urlparse url)))
            (validate_public_url py resolver allow_private_hosts true urlparse url)
    unfolding validate_public_url
    validate_public_url_public urlparse url =
        let parsed = urlparse url in
        let host = host_of py resolver allow_private_hosts parsed in
        let exempt = is_exempt py resolver allow_private_hosts host in
        let inner =
          if not (is_truthy parsed.hostname)
          then refused no_host
          else check_host py resolver allow_private_hosts host in
        let middle =
          if is_truthy parsed.username || is_truthy parsed.password
          then refused credentials
          else inner in
        if-IsOpen exempt (not (member (lower parsed.scheme) allowed_schemes)) (refused bad_scheme)
          middle (λ h. tt)
          (λ h.
            if-IsOpen exempt (is_truthy parsed.username || is_truthy parsed.password)
              (refused credentials) inner (λ h. tt)
              (λ h.
                if-IsOpen exempt (not (is_truthy parsed.hostname)) (refused no_host)
                  (check_host py resolver allow_private_hosts host) (λ h. tt)
                  (λ h. check_host-IsOpen host)))

module _ (validate : Text → Checked) (urljoin : Text → Text → Text)
    (request : Connection → Response) (o : Options) where
  -- A connection that the guard let through: to the address that was validated for its URL.
  abbrev pub IsGuarded : Connection → Type 0
  IsGuarded c =
      (o.require_https ≡ true → starts_with (lower c.url) (codes "https://") ≡ true)
      × ((ips : List Address) × (validate c.url ≡ passed ips) × (c.ip ≡ pinned o.pin_ip ips))

  abbrev IsCapped : Result → Type 0
  IsCapped (raised e) = Unit
  IsCapped (fetched f) = length f.body ≤ o.max_bytes

  abbrev pub IsFetch : ℕ → List Connection × Result → Type 0
  IsFetch n (trace, result) = All IsGuarded trace × (length trace ≤ n) × IsCapped result

  buffer_capped :
      (cs : List (List ℕ)) (buf body : List ℕ)
      → length buf ≤ o.max_bytes
      → buffer o.max_bytes buf cs ≡ some body
      → length body ≤ o.max_bytes
  unfolding buffer
  buffer_capped [] buf body h e = ground (arith, h, e)
  buffer_capped (c ∷ cs) buf body h e = elim (Bool-cases (ltb o.max_bytes (length (buf ++ c)))) [
    | inl over ↦ ground (arith, e, over)
    | inr under ↦
        buffer_capped cs (buf ++ c) body (ground (arith, under)) (ground (arith, e, under))
  ]

  read_capped-length :
      (resp : Response) (body : List ℕ)
      → read_capped resp o.max_bytes ≡ some body
      → length body ≤ o.max_bytes
  unfolding read_capped
  read_capped-length resp body e =
      buffer_capped resp.chunks [] body (omega arith) (ground (arith, e))

  finish-IsCapped :
      (url current : Text) (moved : Bool) (resp : Response) (b : Option (List ℕ))
      → b ≡ read_capped resp o.max_bytes
      → IsCapped (finish validate urljoin request o url current moved resp b)
  finish-IsCapped url current moved resp none e = tt
  finish-IsCapped url current moved resp (some body) e = read_capped-length resp body (sym e)

  if-IsFetch :
      (n : ℕ) (c : Bool) (x y : List Connection × Result)
      → (c ≡ true → IsFetch n x)
      → (c ≡ false → IsFetch n y)
      → IsFetch n (if c then x else y)
  if-IsFetch n true x y h h' = h refl
  if-IsFetch n false x y h h' = h' refl

  abbrev pub is_cleartext : Text → Bool
  is_cleartext url = o.require_https && not (starts_with (lower url) (codes "https://"))

  -- The hop after a URL was validated.
  abbrev pub after : Text → ℕ → Text → Bool → Bool → Checked → List Connection × Result
  after url n current saw_redirect all_permanent (refused e) =
      if is_cleartext current then ([], raised cleartext) else ([], raised e)
  after url n current saw_redirect all_permanent (passed ips) =
      let c : Connection = record { url = current; ip = pinned o.pin_ip ips } in
      let resp = request c in
      let next =
        hops validate urljoin request o url n (urljoin current (or_else resp.location [])) true
          (all_permanent && resp.status_code == 301) in
      if is_cleartext current
      then ([], raised cleartext)
      else if resp.is_redirect && is_truthy resp.location
      then connect validate urljoin request o c next
      else (
        c ∷ [],
        finish validate urljoin request o url current (saw_redirect && all_permanent) resp
            (read_capped resp o.max_bytes),
      )

  hops-IsFetch :
      (url : Text) (n : ℕ) (current : Text) (saw_redirect all_permanent : Bool)
      → IsFetch n (hops validate urljoin request o url n current saw_redirect all_permanent)
  unfolding hops
  hops-IsFetch url zero current saw_redirect all_permanent = (tt, omega arith, tt)
  hops-IsFetch url (suc n) current saw_redirect all_permanent =
      (elim (validate current)
          as (λ v.
            validate current ≡ v
            → IsFetch (suc n) (after url n current saw_redirect all_permanent v)) [
              | refused e ↦ λ _.
                  if-IsFetch (suc n) (is_cleartext current) ([], raised cleartext) ([], raised e)
                    (λ _. (tt, omega arith, tt)) (λ _. (tt, omega arith, tt))
              | passed ips ↦ λ e.
                  let c : Connection = record { url = current; ip = pinned o.pin_ip ips } in
                  let resp = request c in
                  let next =
                    hops validate urljoin request o url n
                      (urljoin current (or_else resp.location [])) true
                      (all_permanent && resp.status_code == 301) in
                  let later =
                    hops-IsFetch url n (urljoin current (or_else resp.location [])) true
                      (all_permanent && resp.status_code == 301) in
                  let last : List Connection × Result = (
                    c ∷ [],
                    finish validate urljoin request o url current (saw_redirect && all_permanent)
                        resp (read_capped resp o.max_bytes),
                  ) in
                  if-IsFetch (suc n) (is_cleartext current) ([], raised cleartext)
                    (if resp.is_redirect && is_truthy resp.location
                      then connect validate urljoin request o c next
                      else last)
                    (λ _. (tt, omega arith, tt))
                    (λ secure.
                      let guarded : IsGuarded c =
                        (λ https. ground (arith, secure, https), (ips, e, refl)) in
                      if-IsFetch (suc n) (resp.is_redirect && is_truthy resp.location)
                        (connect validate urljoin request o c next) last
                        (λ _.
                          let (all, short, capped) = later in ((guarded, all), omega arith, capped))
                        (λ _. (
                          (guarded, tt),
                          omega arith,
                          finish-IsCapped url current (saw_redirect && all_permanent) resp
                              (read_capped resp o.max_bytes) refl,
                        )))
            ])
        refl

  -- `safe_fetch` always ends: it opens one connection for each redirect that it may follow and one more
  -- at most, each to the address that was validated for its URL where it pins, and over TLS where
  -- the caller asks for it, and a body that it returns is within the byte limit.
  pub safe_fetch_guarded :
      (url : Text) → IsFetch (o.max_redirects + 1) (safe_fetch validate urljoin request o url)
  unfolding safe_fetch
  safe_fetch_guarded url = hops-IsFetch url (o.max_redirects + 1) url false true
