-- ===== src/Accounts/Tokens.antt =====
-- Signed tokens and their records in the cache: the helpers of backend/app/api/auth.py, the settings
-- they read (backend/app/config.py), `make_token` of backend/app/services/email_verification.py, and
-- the calls of backend/app/utils/cache.py. A moment is a count of microseconds, an expiry in a token
-- one of seconds. PyJWT and `uuid` are parameters.
use readprism.Prelude.{
  ℕ, ◌+◌, ◌*◌, ◌/◌, ◌<◌, ◌≤◌, ◌≡◌, Bool, true, false, Option, none, some, [], ◌∷◌, ◌++◌, ltb,
  if◌then◌else◌,
}
use readprism.Prelude.Text.{Text, codes, text_eq, lower}
use readprism.Links.Signed.{second, expiry}
use readprism.Billing.Account

pub record Settings : Type 0 where
  pub billing : Account.Settings
  pub secret_key : Text
  pub refresh_secret_key : Text
  pub access_token_expire_minutes : ℕ
  pub refresh_token_expire_days : ℕ
  pub magic_link_expire_minutes : ℕ
  pub email_verification_expire_hours : ℕ
  pub email_verification : Text
  pub signup_per_domain_per_hour : ℕ
  pub registration_mode : Text
  pub registration_invite_codes : Text
  pub demo_mode : Bool
  pub terms_version : Text

-- The claims that the program writes and reads; a claim that is missing is none.
pub record Claims : Type 0 where
  pub type : Option Text
  pub sub : Option Text
  pub email : Option Text
  pub jti : Option Text
  pub sid : Option Text
  pub iat : ℕ
  pub exp : ℕ

-- What `jwt.decode` answers: the claims, an ExpiredSignatureError or another InvalidTokenError.
pub data Decoded : Type 0 where
  good : Claims → Decoded
  expired malformed : Decoded

-- PyJWT with HS256, and the text of a UUID. `decode` takes whether it checks `exp`, and the time.
pub record Library : Type 0 where
  pub encode : Text → Claims → Text
  pub decode : Text → Text → Bool → ℕ → Decoded
  pub show_uuid : ℕ → Text
  pub read_uuid : Text → Option ℕ

-- What the two libraries document: an encoded payload reads back under the same secret until it
-- expires, and a UUID reads back from its text, which is not empty.
pub record IsLibrary (lib : Library) : Type 0 where
  pub decode-encode :
      (secret : Text) (c : Claims) (now : ℕ)
      → c.iat * second ≤ now
      → now < c.exp * second
      → lib.decode secret (lib.encode secret c) true now ≡ good c
  pub read-show : (u : ℕ) → lib.read_uuid (lib.show_uuid u) ≡ some u
  pub show_nonempty : (u : ℕ) → (c : ℕ) × (t : Text) × (lib.show_uuid u ≡ c ∷ t)

-- One key of Redis.
pub record Entry : Type 0 where
  pub value : Text
  pub expires_at : ℕ

abbrev pub Cache : Type 0
Cache = Text → Option Entry

abbrev pub value_at : ℕ → Option Entry → Option Text
value_at now none = none
value_at now (some e) = if ltb now e.expires_at then some e.value else none

-- `cache_get`, `cache_set` and `cache_delete`: an error of Redis is logged and swallowed.
unfoldable pub cache_get : Bool → Cache → ℕ → Text → Option Text
cache_get up cache now key = if up then value_at now (cache key) else none

unfoldable pub cache_set : Bool → Cache → ℕ → Text → Text → ℕ → Cache
cache_set up cache now key value ttl_seconds k =
    if up
    then if text_eq k key
      then some (record { value = value; expires_at = now + ttl_seconds * second })
      else cache k
    else cache k

unfoldable pub cache_delete : Bool → Cache → Text → Cache
cache_delete up cache key k = if up then if text_eq k key then none else cache k else cache k

-- `not value`, for a claim.
abbrev pub is_missing : Option Text → Bool
is_missing none = true
is_missing (some []) = true
is_missing (some (c ∷ t)) = false

abbrev pub is_claim : Option Text → Text → Bool
is_claim none t = false
is_claim (some s) t = text_eq s t

-- `_access_secret` and `_refresh_secret`
unfoldable pub access_secret : Settings → Text
access_secret s = s.secret_key

abbrev pub or_secret : Text → Text → Text
or_secret [] other = other
or_secret (c ∷ t) other = c ∷ t

unfoldable pub refresh_secret : Settings → Text
refresh_secret s = or_secret s.refresh_secret_key s.secret_key

-- `_refresh_allowlist_key`, and the key of a magic link.
unfoldable pub refresh_allowlist_key : Text → Text
refresh_allowlist_key jti = codes "refresh:" ++ jti

unfoldable pub magic_key : Text → Text
magic_key jti = codes "magic:" ++ jti

abbrev pub verify_email : Text
verify_email = codes "verify_email"

module _ (s : Settings) (lib : Library) where
  unfoldable pub access_claims : ℕ → Option Text → ℕ → Claims
  access_claims user_id session_id now = record {
    type = some (codes "access");
    sub = some (lib.show_uuid user_id);
    email = none;
    jti = none;
    sid = if is_missing session_id then none else session_id;
    iat = now / second;
    exp = expiry now (s.access_token_expire_minutes * 60);
  }

  -- `_create_access_token`
  unfoldable pub create_access_token : ℕ → Option Text → ℕ → Text
  unfolding access_claims access_secret
  create_access_token user_id session_id now =
      lib.encode (access_secret s) (access_claims user_id session_id now)

  unfoldable pub refresh_claims : ℕ → Text → ℕ → Claims
  refresh_claims user_id jti now = record {
    type = some (codes "refresh");
    sub = some (lib.show_uuid user_id);
    email = none;
    jti = some jti;
    sid = none;
    iat = now / second;
    exp = expiry now (s.refresh_token_expire_days * 86_400);
  }

  -- `_create_refresh_token`: `jti` is the `uuid4` drawn, and `up` whether Redis takes the write.
  unfoldable pub create_refresh_token : ℕ → Text → Bool → Cache → ℕ → Text × Cache
  unfolding refresh_claims refresh_secret cache_set
  create_refresh_token user_id jti up cache now = (
    lib.encode (refresh_secret s) (refresh_claims user_id jti now),
    cache_set up cache now (refresh_allowlist_key jti) (lib.show_uuid user_id)
        (s.refresh_token_expire_days * 86_400),
  )

  unfoldable pub magic_claims : Text → Text → ℕ → Claims
  magic_claims email jti now = record {
    type = some (codes "magic");
    sub = none;
    email = some email;
    jti = some jti;
    sid = none;
    iat = now / second;
    exp = expiry now (s.magic_link_expire_minutes * 60);
  }

  -- `_create_magic_token`
  unfoldable pub create_magic_token : Text → Text → Bool → Cache → ℕ → Text × Cache
  unfolding magic_claims cache_set
  create_magic_token email jti up cache now = (
    lib.encode s.secret_key (magic_claims email jti now),
    cache_set up cache now (magic_key jti) email (s.magic_link_expire_minutes * 60),
  )

  unfoldable pub verify_claims : Account.User → ℕ → Claims
  verify_claims user now = record {
    type = some verify_email;
    sub = some (lib.show_uuid user.id);
    email = some (lower user.email);
    jti = none;
    sid = none;
    iat = now / second;
    exp = expiry now (s.email_verification_expire_hours * 3600);
  }

  -- `make_token`
  unfoldable pub make_token : Account.User → ℕ → Text
  unfolding verify_claims
  make_token user now = lib.encode s.secret_key (verify_claims user now)
