-- ===== src/Accounts/Replies.antt =====
-- What the handlers of backend/app/api/auth.py answer and keep: their errors and bodies, the cookies of
-- backend/app/api/session_cookies.py, the tables and the cache they share, and what a request brings.
use readprism.Prelude.{ℕ, Bool, Option}
use readprism.Prelude.Text.{Text}
use readprism.Accounts.Tokens.{Cache}
use readprism.Accounts.Registration.{Users}

-- The HTTPExceptions of the module, by where they are raised, with their status below.
pub data Error : Type 0 where
  demo_disabled demo_unseeded demo_read_only : Error
  registration_refused invite_needed already_registered domain_limit terms_required : Error
  invalid_credentials invalid_link link_used user_not_found unconfirmed : Error
  token_expired token_invalid missing_refresh invalid_refresh refresh_revoked : Error
  not_authenticated invalid_type invalid_payload invalid_api_token read_only_token : Error
  csrf_invalid paused_read_only needs_pro session_required : Error
  server_error : Error

unfoldable pub status_code : Error → ℕ
status_code demo_disabled = 404
status_code demo_unseeded = 500
status_code demo_read_only = 403
status_code registration_refused = 403
status_code invite_needed = 403
status_code already_registered = 409
status_code domain_limit = 429
status_code terms_required = 422
status_code invalid_credentials = 401
status_code invalid_link = 401
status_code link_used = 401
status_code user_not_found = 401
status_code unconfirmed = 400
status_code token_expired = 401
status_code token_invalid = 401
status_code missing_refresh = 401
status_code invalid_refresh = 401
status_code refresh_revoked = 401
status_code not_authenticated = 401
status_code invalid_type = 401
status_code invalid_payload = 401
status_code invalid_api_token = 401
status_code read_only_token = 403
status_code csrf_invalid = 403
status_code paused_read_only = 402
status_code needs_pro = 402
status_code session_required = 403
status_code server_error = 500

pub data Reply (A : Type 0) : Type 0 where
  ok : A → Reply A
  http : Error → Reply A

-- The cookies that `set_session_cookies` writes.
pub record Cookies : Type 0 where
  pub access : Text
  pub refresh : Text
  pub csrf : Text

-- The body of a sign-in, and its cookies in cookie mode.
pub record Token : Type 0 where
  pub access_token : Text
  pub refresh_token : Option Text
  pub expires_in : ℕ
  pub csrf_token : Option Text
  pub cookies : Option Cookies

-- What a request brings from outside: its time, `wants_cookies`, which calls of Redis succeed, and what
-- `uuid4` and `secrets` draw.
pub record Visit : Type 0 where
  pub now : ℕ
  pub wants_cookies : Bool
  pub get_up : Bool
  pub set_up : Bool
  pub delete_up : Bool
  pub new_id : ℕ
  pub jti : Text
  pub csrf : Text

pub record Store : Type 0 where
  pub users : Users
  pub cache : Cache

-- The mails that a handler sends: a sign-in link or a verification link, with its token.
pub data Mail : Type 0 where
  sign_in verification : Text → Text → Mail
