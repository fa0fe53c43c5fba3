-- ===== src/Accounts/Guard.antt =====
-- Who a request comes from and what it may do: `get_current_user` of backend/app/api/auth.py with its
-- checks, and `enforce_csrf` of backend/app/api/session_cookies.py. A hash of an API token is a parameter.
use readprism.Prelude.{
  ℕ, suc, Bool, true, false, ◌&&◌, ◌||◌, not, Option, none, some, List, [], ◌∷◌, if◌then◌else◌,
}
use readprism.Prelude.Text.{Text, codes, text_eq, starts_with, ends_with, rstrip, member}
use readprism.Billing.Account.{Plan}
use readprism.Entitlements.Quotas.{Quota, is_paused, pro_features}
use readprism.Accounts.Tokens.{Settings, Library, Claims, is_claim, access_secret}
use readprism.Accounts.Registration.{Member, Users, by_id, compare_digest}
use readprism.Accounts.Replies.{
  Error, not_authenticated, invalid_type, invalid_payload, invalid_api_token, read_only_token,
  csrf_invalid, demo_read_only, paused_read_only, needs_pro, session_required, user_not_found,
  server_error, Reply, ok, http,
}
use readprism.Accounts.Sessions.{decode_token}

pub data Method : Type 0 where
  get_ head options post put patch delete : Method

-- `method in MUTATING_METHODS`
abbrev pub is_mutating : Method → Bool
is_mutating post = true
is_mutating put = true
is_mutating patch = true
is_mutating delete = true
is_mutating _ = false

abbrev pub is_post : Method → Bool
is_post post = true
is_post _ = false

abbrev pub is_delete : Method → Bool
is_delete delete = true
is_delete _ = false

-- What a request carries: its bearer token, the cookies of a browser session and the CSRF header. A
-- cookie or header that is missing is empty.
pub record Request : Type 0 where
  pub method : Method
  pub path : Text
  pub bearer : Option Text
  pub access_cookie : Option Text
  pub csrf_cookie : Text
  pub csrf_header : Text

pub record ApiToken : Type 0 where
  pub token_hash : Text
  pub user_id : ℕ
  pub scopes : List Text
  pub revoked : Bool
  pub last_used_at : Option ℕ
  pub use_count : ℕ

-- `request.state.auth_via`; a bearer session leaves it unset.
pub data Via : Type 0 where
  bearer cookie api_token : Via

abbrev pub is_nonempty : Text → Bool
is_nonempty [] = false
is_nonempty (c ∷ t) = true

abbrev of_digest : Option Bool → Option Error
of_digest none = some server_error
of_digest (some true) = none
of_digest (some false) = some csrf_invalid

-- `enforce_csrf`
unfoldable pub enforce_csrf : Request → Option Error
enforce_csrf r =
    if not (is_mutating r.method)
    then none
    else if is_nonempty r.csrf_cookie && is_nonempty r.csrf_header
    then of_digest (compare_digest r.csrf_cookie r.csrf_header)
    else some csrf_invalid

-- `_is_demo_allowed_write`
unfoldable pub is_demo_allowed_write : Text → Bool
is_demo_allowed_write path =
    ends_with path (codes "/feedback/interaction")
    || ends_with path (codes "/auth/logout")
    || ends_with path (codes "/auth/demo")

-- `_enforce_demo_read_only`
unfoldable pub enforce_demo_read_only : Request → Member → Option Error
unfolding is_demo_allowed_write
enforce_demo_read_only r m =
    if m.is_demo && is_mutating r.method && not (is_demo_allowed_write r.path)
    then some demo_read_only
    else none

-- `_EXTENSION_ROUTES`
unfoldable pub is_extension_route : Request → Bool
is_extension_route r =
    is_post r.method
    && member (rstrip b'/' r.path)
        (codes "/api/v1/extension/save" ∷ codes "/api/v1/sources" ∷ codes "/api/v1/creators" ∷ [])

-- The writes that a paused account may make.
unfoldable pub is_paused_allowed_write : Request → Bool
is_paused_allowed_write r =
    starts_with r.path (codes "/api/v1/billing")
    || starts_with r.path (codes "/api/v1/auth/")
    || (is_delete r.method && text_eq (rstrip b'/' r.path) (codes "/api/v1/account"))

-- `configured` is HOSTED_PLAN_QUOTAS, and `now` the time of the request.
module _ (s : Settings) (lib : Library) (hash_api_token : Text → Text)
    (configured : Plan → Quota → Option ℕ) (now : ℕ) where
  -- `_enforce_api_access`
  unfoldable pub enforce_api_access : Request → Member → Option Error
  unfolding is_extension_route pro_features
  enforce_api_access r m =
      if is_extension_route r || pro_features s.billing configured now m.account
      then none
      else some needs_pro

  -- `_enforce_paused_read_only`
  unfoldable pub enforce_paused_read_only : Request → Member → Option Error
  unfolding is_paused_allowed_write is_paused
  enforce_paused_read_only r m =
      if not (is_mutating r.method) || is_paused_allowed_write r
      then none
      else if is_paused s.billing configured now m.account
      then some paused_read_only
      else none

  -- `select(ApiToken).where(ApiToken.token_hash == hash)`; the column is unique.
  unfoldable pub find_token : Text → List ApiToken → Option ApiToken
  find_token h [] = none
  find_token h (t ∷ ts) = if text_eq t.token_hash h then some t else find_token h ts

  abbrev pub used : ApiToken → ApiToken
  used t = record t { last_used_at = some now; use_count = suc t.use_count }

  unfoldable pub use_token : Text → List ApiToken → List ApiToken
  use_token h [] = []
  use_token h (t ∷ ts) = if text_eq t.token_hash h then used t ∷ ts else t ∷ use_token h ts

  -- `set(row.scopes or ["read"])` has "write".
  abbrev pub may_write : ApiToken → Bool
  may_write t = member (codes "write") t.scopes

  abbrev pub of_token : Request → Users → Option ApiToken → Reply Member
  of_token r users none = http invalid_api_token
  of_token r users (some t) =
      if t.revoked
      then http invalid_api_token
      else if is_mutating r.method && not (may_write t)
      then http read_only_token
      else elim (by_id users t.user_id) [ none ↦ http invalid_api_token | some m ↦ ok m ]

  abbrev pub counted : Text → List ApiToken → Reply Member → Reply Member × List ApiToken
  counted h tokens (ok m) = (ok m, use_token h tokens)
  counted h tokens (http e) = (http e, tokens)

  -- `_user_for_api_token`, with the refusal its caller makes of None.
  unfoldable pub user_for_api_token :
      Request → Text → Users → List ApiToken → Reply Member × List ApiToken
  unfolding find_token use_token by_id
  user_for_api_token r token users tokens =
      let h = hash_api_token token in counted h tokens (of_token r users (find_token h tokens))

  abbrev pub first_error : Option Error → Option Error → Option Error
  first_error (some e) other = some e
  first_error none other = other

  abbrev pub unless : Option Error → Member → Reply Member
  unless none m = ok m
  unless (some e) m = http e

  -- The checks that follow an identified user.
  unfoldable pub user_error : Request → Via → Member → Option Error
  user_error r api_token m =
      first_error (enforce_demo_read_only r m)
        (first_error (enforce_paused_read_only r m) (enforce_api_access r m))
  user_error r bearer m = first_error (enforce_demo_read_only r m) (enforce_paused_read_only r m)
  user_error r cookie m = first_error (enforce_demo_read_only r m) (enforce_paused_read_only r m)

  abbrev pub checked : Request → Via → Reply Member → Reply Member
  checked r via (http e) = http e
  checked r via (ok m) = unless (user_error r via m) m

  abbrev pub of_row : Option Member → Reply Member
  of_row none = http user_not_found
  of_row (some m) = ok m

  abbrev pub of_uuid : Users → Option ℕ → Reply Member
  of_uuid users none = http server_error
  of_uuid users (some u) = of_row (by_id users u)

  abbrev pub of_sub : Users → Option Text → Reply Member
  of_sub users none = http invalid_payload
  of_sub users (some []) = http invalid_payload
  of_sub users (some (c ∷ t)) = of_uuid users (lib.read_uuid (c ∷ t))

  abbrev pub of_claims : Users → Reply Claims → Reply Member
  of_claims users (http e) = http e
  of_claims users (ok c) =
      if is_claim c.type (codes "access") then of_sub users c.sub else http invalid_type

  -- The user of an access token.
  unfoldable pub user_for_jwt : Text → Users → Reply Member
  unfolding decode_token access_secret by_id
  user_for_jwt token users = of_claims users (decode_token lib (access_secret s) token now)

  abbrev pub identify : Request → Via → Text → Users → List ApiToken → Via × Reply Member
  identify r via token users tokens =
      if starts_with token (codes "rp_")
      then (api_token, checked r api_token (user_for_api_token r token users tokens).0)
      else (via, checked r via (user_for_jwt token users))

  abbrev pub by_cookie : Request → Option Error → Text → Users → List ApiToken → Via × Reply Member
  by_cookie r (some e) token users tokens = (cookie, http e)
  by_cookie r none token users tokens = identify r cookie token users tokens

  abbrev pub by_cookies : Request → Option Text → Users → List ApiToken → Via × Reply Member
  by_cookies r (some (c ∷ t)) users tokens = by_cookie r (enforce_csrf r) (c ∷ t) users tokens
  by_cookies r _ users tokens = (cookie, http not_authenticated)

  abbrev pub by_bearer : Request → Option Text → Users → List ApiToken → Via × Reply Member
  by_bearer r (some (c ∷ t)) users tokens = identify r bearer (c ∷ t) users tokens
  by_bearer r _ users tokens = by_cookies r r.access_cookie users tokens

  -- `get_current_user`: how the request authenticates, and the user or the refusal. The use that it
  -- counts of an API token is `user_for_api_token`'s.
  unfoldable pub get_current_user : Request → Users → List ApiToken → Via × Reply Member
  get_current_user r users tokens = by_bearer r r.bearer users tokens

  abbrev pub refuse_api_token : Via → Reply Member → Reply Member
  refuse_api_token api_token (ok m) = http session_required
  refuse_api_token _ reply = reply

  -- `get_current_user_jwt`
  unfoldable pub get_current_user_jwt : Request → Users → List ApiToken → Reply Member
  unfolding get_current_user
  get_current_user_jwt r users tokens =
      let (via, reply) = get_current_user r users tokens in refuse_api_token via reply
