-- ===== src/Links/Signed.antt =====
-- Signed links: backend/app/utils/signed_links.py and backend/app/utils/unsubscribe.py. The HMAC-SHA256
-- of a message under the instance's key, and the decimal digits of a number, are parameters. A moment is
-- a count of microseconds, and an expiry one of seconds. Users and items are the texts of their ids.
use readprism.Prelude.{
  ℕ, ◌+◌, ◌*◌, ◌/◌, Bool, true, false, ◌&&◌, Option, none, some, List, [], ◌∷◌, ◌++◌, leb,
  if◌then◌else◌,
}
use readprism.Prelude.Text.{Text, codes, text_eq, member}

abbrev pub second : ℕ
second = 1_000_000

-- The parts of a message with a colon between them.
unfoldable pub join : List Text → Text
join [] = []
join (t ∷ []) = t
join (t ∷ u ∷ l) = t ++ (b':' ∷ join (u ∷ l))

abbrev pub actions : List Text
actions = codes "open" ∷ codes "up" ∷ codes "down" ∷ codes "save" ∷ []

abbrev pub topic_actions : List Text
topic_actions = codes "less" ∷ codes "more" ∷ []

abbrev pub user_actions : List Text
user_actions = codes "weekly" ∷ []

-- What a link carries in its path and query.
pub record Link : Type 0 where
  pub uid : Text
  pub subject : Text
  pub action : Text
  pub exp : ℕ
  pub sig : Text

abbrev pub is_nonempty : Text → Bool
is_nonempty [] = false
is_nonempty (c ∷ t) = true

-- `int(now + ttl_seconds)` and `int(now)`
abbrev pub expiry : ℕ → ℕ → ℕ
expiry now ttl_seconds = (now + ttl_seconds * second) / second

-- `int(exp) < int(now)` is not the case.
abbrev pub unexpired : ℕ → ℕ → Bool
unexpired exp now = leb (now / second) exp

module _ (hmac : Text → Text) (show : ℕ → Text) where
  unfoldable pub signature : Text → Text → Text → ℕ → Text
  signature user item action exp =
      hmac (join (codes "email-action" ∷ user ∷ item ∷ action ∷ show exp ∷ []))

  -- `action_url`, as the parts of its link; none is the ValueError.
  unfoldable pub action_url : Text → Text → Text → ℕ → ℕ → Option Link
  action_url user item action ttl_seconds now =
      let exp = expiry now ttl_seconds in
      if member action actions
      then some record {
        uid = user;
        subject = item;
        action = action;
        exp = exp;
        sig = signature user item action exp;
      }
      else none

  unfoldable pub verify_action : Text → Text → Text → ℕ → Text → ℕ → Bool
  verify_action user item action exp sig now =
      member action actions
      && is_nonempty sig
      && unexpired exp now
      && text_eq (signature user item action exp) sig

  unfoldable pub topic_signature : Text → Text → Text → ℕ → Text
  topic_signature user topic action exp =
      hmac (join (codes "topic-action" ∷ user ∷ topic ∷ action ∷ show exp ∷ []))

  unfoldable pub topic_action_url : Text → Text → Text → ℕ → ℕ → Option Link
  topic_action_url user topic action ttl_seconds now =
      let exp = expiry now ttl_seconds in
      if member action topic_actions
      then some record {
        uid = user;
        subject = topic;
        action = action;
        exp = exp;
        sig = topic_signature user topic action exp;
      }
      else none

  unfoldable pub verify_topic_action : Text → Text → Text → ℕ → Text → ℕ → Bool
  verify_topic_action user topic action exp sig now =
      member action topic_actions
      && is_nonempty sig
      && unexpired exp now
      && text_eq (topic_signature user topic action exp) sig

  unfoldable pub user_signature : Text → Text → ℕ → Text
  user_signature user action exp = hmac (join (codes "user-action" ∷ user ∷ action ∷ show exp ∷ []))

  unfoldable pub user_action_url : Text → Text → ℕ → ℕ → Option Link
  user_action_url user action ttl_seconds now =
      let exp = expiry now ttl_seconds in
      if member action user_actions
      then some record {
        uid = user;
        subject = [];
        action = action;
        exp = exp;
        sig = user_signature user action exp;
      }
      else none

  unfoldable pub verify_user_action : Text → Text → ℕ → Text → ℕ → Bool
  verify_user_action user action exp sig now =
      member action user_actions
      && is_nonempty sig
      && unexpired exp now
      && text_eq (user_signature user action exp) sig

module _ (hmac : Text → Text) where
  unfoldable pub make_unsubscribe_token : Text → Text
  make_unsubscribe_token user = hmac (join (codes "unsubscribe" ∷ user ∷ []))

  unfoldable pub verify_unsubscribe_token : Text → Text → Bool
  verify_unsubscribe_token user token =
      is_nonempty token && text_eq (make_unsubscribe_token user) token

  unfoldable pub weekly_token : Text → Text
  weekly_token user = hmac (join (codes "unsubscribe-weekly" ∷ user ∷ []))

  unfoldable pub verify_weekly_unsubscribe_token : Text → Text → Bool
  verify_weekly_unsubscribe_token user token =
      is_nonempty token && text_eq (weekly_token user) token
