-- ===== src/Accounts/Screen.antt =====
-- What the web app is told of its browser session: `session_state` and `_refresh_user_exists` of
-- backend/app/api/auth.py. Clearing the cookies is a flag of the answer.
use readprism.Prelude.{
  ℕ, Bool, true, false, ◌&&◌, not, Option, none, some, [], ◌∷◌, is_some, if◌then◌else◌,
}
use readprism.Prelude.Text.{Text, codes}
use readprism.Accounts.Tokens.{
  Settings, Library, Claims, is_missing, is_claim, access_secret, refresh_secret,
}
use readprism.Accounts.Registration.{Users, by_id}
use readprism.Accounts.Replies.{Reply, ok, http}
use readprism.Accounts.Sessions.{decode_token}

pub record SessionState : Type 0 where
  pub authenticated : Bool
  pub refreshable : Bool
  pub csrf_token : Option Text
  pub cleared : Bool

abbrev or_empty : Option Text → Text
or_empty none = []
or_empty (some t) = t

module _ (s : Settings) (lib : Library) where
  abbrev user_exists : Users → Option ℕ → Bool
  user_exists users none = false
  user_exists users (some u) = is_some (by_id users u)

  abbrev sub_exists : Users → Option Text → Bool
  sub_exists users (some (c ∷ t)) = user_exists users (lib.read_uuid (c ∷ t))
  sub_exists users _ = false

  abbrev claims_valid : Users → Reply Claims → Bool
  claims_valid users (http e) = false
  claims_valid users (ok c) = is_claim c.type (codes "access") && sub_exists users c.sub

  abbrev owner_exists : Users → Reply Claims → Bool
  owner_exists users (http e) = false
  owner_exists users (ok c) = sub_exists users c.sub

  -- `_refresh_user_exists`
  unfoldable pub refresh_user_exists : Option Text → Users → ℕ → Bool
  unfolding decode_token refresh_secret by_id
  refresh_user_exists refresh_cookie users now =
      owner_exists users (decode_token lib (refresh_secret s) (or_empty refresh_cookie) now)

  unfoldable pub session_state : Option Text → Option Text → Option Text → Users → ℕ → SessionState
  unfolding refresh_user_exists decode_token access_secret by_id
  session_state access_cookie refresh_cookie csrf_cookie users now =
      let access = not (is_missing access_cookie) in
      let claims = decode_token lib (access_secret s) (or_empty access_cookie) now in
      let valid = access && claims_valid users claims in
      let refreshable = not (is_missing refresh_cookie) in
      let gone = not (refresh_user_exists refresh_cookie users now) in
      let stale = access && not valid in
      record {
        authenticated = valid;
        refreshable = refreshable && not (stale && gone);
        csrf_token = if valid then csrf_cookie else none;
        cleared = stale && (if refreshable then gone else true);
      }
