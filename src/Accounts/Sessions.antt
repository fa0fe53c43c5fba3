-- ===== src/Accounts/Sessions.antt =====
-- Rotating, revoking and confirming: the handlers `refresh`, `logout`, `magic_link_verify`,
-- `verify_email`, `resend_verification` and `session_state` of backend/app/api/auth.py, with
-- `verify_token` and `mark_verified` of backend/app/services/email_verification.py.
use readprism.Prelude.{
  ℕ, Bool, true, false, not, Option, none, some, List, [], ◌∷◌, if◌then◌else◌, is_some, ◌==◌, ◌++◌,
}
use readprism.Prelude.Text.{Text, codes, lower}
use readprism.Accounts.Tokens.{
  Settings, Library, Claims, Decoded, good, expired, malformed, Cache, cache_get, cache_set,
  cache_delete, is_claim, refresh_secret, refresh_allowlist_key, magic_key, make_token,
  verify_email,
}
use readprism.Accounts.Registration.{Member, Users, id_of, email_of, by_email, by_id}
use readprism.Accounts.Replies.{
  Error, token_expired, token_invalid, missing_refresh, invalid_refresh, refresh_revoked,
  invalid_link, link_used, user_not_found, unconfirmed, server_error, Reply, ok, http, Token, Visit,
  Store, Mail, verification,
}
use readprism.Accounts.SignIn.{open_session, signed_in}

abbrev pub to_claims : Decoded → Reply Claims
to_claims (good c) = ok c
to_claims expired = http token_expired
to_claims malformed = http token_invalid

-- `_decode_token`
unfoldable pub decode_token : Library → Text → Text → ℕ → Reply Claims
decode_token lib secret token now = to_claims (lib.decode secret token true now)

-- The `or` of two claims that must both be there, with their values.
abbrev pub both : Option Text → Option Text → Option (Text × Text)
both (some (c ∷ t)) (some (d ∷ u)) = some (c ∷ t, d ∷ u)
both _ _ = none

-- A body's token, or else the cookie's.
abbrev pub raw_token : Option Text → Option Text → Option Text
raw_token (some (c ∷ t)) cookie = some (c ∷ t)
raw_token _ (some (c ∷ t)) = some (c ∷ t)
raw_token _ _ = none

-- `cache_set_nx`: set if absent, and true on an error of Redis.
unfoldable pub cache_set_nx : Bool → Cache → ℕ → Text → Text → ℕ → Bool × Cache
unfolding cache_get cache_set
cache_set_nx up cache now key value ttl_seconds =
    if not up
    then (true, cache)
    else if is_some (cache_get true cache now key)
    then (false, cache)
    else (true, cache_set true cache now key value ttl_seconds)

unfoldable pub resend_key : Text → Text
resend_key user_id = codes "verify_resend:" ++ user_id

module _ (s : Settings) (lib : Library) where
  -- The owner and the jti of a token with claims of a type, on a record of `key jti` that says its owner.
  abbrev pub check_record :
      Error → Visit → Cache → (Text → Text) → Option (Text × Text) → Error → Reply (Text × Text)
  check_record bad v cache key none used = http bad
  check_record bad v cache key (some (owner, jti)) used =
      if is_claim (cache_get v.get_up cache v.now (key jti)) owner
      then ok (owner, jti)
      else http used

  abbrev pub refresh_grant : Visit → Cache → Reply Claims → Reply (Text × Text)
  refresh_grant v cache (http e) = http e
  refresh_grant v cache (ok c) =
      if is_claim c.type (codes "refresh")
      then check_record invalid_refresh v cache refresh_allowlist_key (both c.sub c.jti)
          refresh_revoked
      else http invalid_refresh

  -- The checks of `refresh`.
  unfoldable pub check_refresh : Visit → Option Text → Cache → Reply (Text × Text)
  unfolding decode_token cache_get refresh_secret refresh_allowlist_key
  check_refresh v none cache = http missing_refresh
  check_refresh v (some raw) cache =
      refresh_grant v cache (decode_token lib (refresh_secret s) raw v.now)

  -- `uuid.UUID(user_id)` and the new session.
  abbrev pub reopen : Visit → Users → Cache → Option ℕ → Reply Token × Store
  reopen v users cache none = (http server_error, record { users = users; cache = cache })
  reopen v users cache (some user_id) = signed_in s lib v users user_id none cache

  abbrev pub rotate : Visit → Store → Reply (Text × Text) → Reply Token × Store
  rotate v st (http e) = (http e, st)
  rotate v st (ok (owner, jti)) =
      let cache' = cache_delete v.delete_up st.cache (refresh_allowlist_key jti) in
      reopen v st.users cache' (lib.read_uuid owner)

  -- `refresh`, for the body's token and the cookie's.
  unfoldable pub refresh : Visit → Option Text → Option Text → Store → Reply Token × Store
  unfolding check_refresh cache_delete open_session refresh_allowlist_key
  refresh v body cookie st = rotate v st (check_refresh v (raw_token body cookie) st.cache)

  abbrev pub revoke_jti : Visit → Cache → Option Text → Cache
  revoke_jti v cache (some (c ∷ t)) = cache_delete v.delete_up cache (refresh_allowlist_key (c ∷ t))
  revoke_jti v cache _ = cache

  abbrev pub revoke : Visit → Cache → Decoded → Cache
  revoke v cache (good c) = revoke_jti v cache c.jti
  revoke v cache _ = cache

  abbrev pub revoke_raw : Visit → Cache → Option Text → Cache
  revoke_raw v cache none = cache
  revoke_raw v cache (some raw) = revoke v cache (lib.decode (refresh_secret s) raw false v.now)

  -- `logout`: the token's expiry is not asked.
  unfoldable pub logout : Visit → Option Text → Option Text → Store → Store
  unfolding cache_delete refresh_secret refresh_allowlist_key
  logout v body cookie st = record st { cache = revoke_raw v st.cache (raw_token body cookie) }

  -- The checks of `magic_link_verify`.
  abbrev pub magic_grant : Visit → Cache → Reply Claims → Reply (Text × Text)
  magic_grant v cache (http e) = http e
  magic_grant v cache (ok c) =
      if is_claim c.type (codes "magic")
      then check_record invalid_link v cache magic_key (both c.email c.jti) link_used
      else http invalid_link

  unfoldable pub check_magic : Visit → Text → Cache → Reply (Text × Text)
  unfolding decode_token cache_get magic_key
  check_magic v token cache = magic_grant v cache (decode_token lib s.secret_key token v.now)

  -- `mark_verified`
  unfoldable pub mark_verified : ℕ → Member → Member
  mark_verified now m =
      let at =
        if is_some m.account.user.email_verified_at
        then m.account.user.email_verified_at
        else some now in
      record m {
        account = record m.account { user = record m.account.user { email_verified_at = at } };
      }

  -- The row of one id, changed.
  unfoldable pub update_row : (Member → Member) → ℕ → Users → Users
  update_row f u [] = []
  update_row f u (m ∷ ms) = if id_of m == u then f m ∷ ms else m ∷ update_row f u ms

  abbrev pub enter : Visit → Store → Cache → Option Member → Reply Token × Store
  enter v st cache none = (http user_not_found, record st { cache = cache })
  enter v st cache (some m) =
      signed_in s lib v (update_row (mark_verified v.now) (id_of m) st.users) (id_of m) none cache

  abbrev pub spend_link : Visit → Store → Reply (Text × Text) → Reply Token × Store
  spend_link v st (http e) = (http e, st)
  spend_link v st (ok (email, jti)) =
      let cache' = cache_delete v.delete_up st.cache (magic_key jti) in
      enter v st cache' (by_email st.users email)

  unfoldable pub magic_link_verify : Visit → Text → Store → Reply Token × Store
  unfolding check_magic cache_delete by_email update_row mark_verified open_session magic_key
  magic_link_verify v token st = spend_link v st (check_magic v token st.cache)

  -- The row that the claims of a confirmation link name, if it has their address.
  abbrev pub named : Option Text → Option Member → Option Member
  named email none = none
  named email (some m) = if is_claim email (lower (email_of m)) then some m else none

  abbrev pub row_of : Users → Option ℕ → Option Member
  row_of users none = none
  row_of users (some u) = by_id users u

  abbrev pub uuid_of : Option Text → Option ℕ
  uuid_of none = lib.read_uuid (codes "None")
  uuid_of (some t) = lib.read_uuid t

  abbrev pub confirmed : Users → Decoded → Option Member
  confirmed users (good c) =
      if is_claim c.type verify_email then named c.email (row_of users (uuid_of c.sub)) else none
  confirmed users _ = none

  abbrev pub verified : ℕ → Users → Option Member → Option Member × Users
  verified now users none = (none, users)
  verified now users (some m) =
      (some (mark_verified now m), update_row (mark_verified now) (id_of m) users)

  -- `verify_token`: the user it answers, and the table.
  unfoldable pub verify_token : ℕ → Text → Users → Option Member × Users
  unfolding by_id update_row mark_verified
  verify_token now token users =
      verified now users (confirmed users (lib.decode s.secret_key token true now))

  -- The handler `verify_email`.
  unfoldable pub confirm_email : ℕ → Text → Users → Reply Unit × Users
  unfolding verify_token
  confirm_email now token users =
      let (found, users') = verify_token now token users in
      (if is_some found then ok tt else http unconfirmed, users')

  -- `resend_verification`, with the mails it sends.
  unfoldable pub resend_verification : Visit → Member → Cache → Cache × List Mail
  unfolding cache_set_nx make_token resend_key
  resend_verification v m cache =
      let key = resend_key (lib.show_uuid (id_of m)) in
      let (fresh, cache') = cache_set_nx v.set_up cache v.now key (codes "1") 300 in
      if is_some m.account.user.email_verified_at
      then (cache, [])
      else if fresh
      then (cache', verification (email_of m) (make_token s lib m.account.user v.now) ∷ [])
      else (cache', [])
