-- ===== src/Accounts/Registration.antt =====
-- Who may create an account: backend/app/services/registration.py and the limits of
-- backend/app/services/email_verification.py, over the table `users`. A pattern of LIKE is read as the
-- end of the text, since a validated domain has no wildcard.
use readprism.Prelude.{
  ℕ, ◌+◌, ◌*◌, ◌-◌, Bool, true, false, ◌&&◌, ◌||◌, not, Option, none, some, List, [], ◌∷◌, leb, ltb,
  ◌==◌, if◌then◌else◌, is_some,
}
use readprism.Prelude.Text.{Text, codes, text_eq, lower, ends_with, member}
use readprism.Billing.Account
use readprism.Billing.Account.{strip, second, day}
use readprism.Entitlements.Quotas.{Account}
use readprism.Accounts.Tokens.{Settings}

-- A row of `users`: the columns of billing and entitlements, and those that signing in reads.
pub record Member : Type 0 where
  pub account : Account
  pub hashed_password : Text
  pub display_name : Option Text
  pub is_demo : Bool
  pub terms_accepted_at : Option ℕ
  pub terms_version : Option Text

abbrev pub Users : Type 0
Users = List Member

abbrev pub id_of : Member → ℕ
id_of m = m.account.user.id

abbrev pub email_of : Member → Text
email_of m = m.account.user.email

-- `select(User).where(User.email == email)`; the column is unique.
unfoldable pub by_email : Users → Text → Option Member
by_email [] email = none
by_email (m ∷ ms) email = if text_eq (email_of m) email then some m else by_email ms email

-- `session.get(User, id)`
unfoldable pub by_id : Users → ℕ → Option Member
by_id [] u = none
by_id (m ∷ ms) u = if id_of m == u then some m else by_id ms u

pub data Mode : Type 0 where
  closed invite open_to_all : Mode

unfoldable pub effective_mode : Settings → Mode
unfolding strip
effective_mode s =
    let mode = lower (strip s.registration_mode) in
    if text_eq mode (codes "closed")
    then closed
    else if text_eq mode (codes "invite")
    then invite
    else if text_eq mode (codes "open") || s.billing.hosted
    then open_to_all
    else closed

abbrev is_ascii : Text → Bool
is_ascii [] = true
is_ascii (c ∷ t) = ltb c 128 && is_ascii t

-- `hmac.compare_digest` on texts: a TypeError, as none, where either is not ASCII.
abbrev pub compare_digest : Text → Text → Option Bool
compare_digest a b = if is_ascii a && is_ascii b then some (text_eq a b) else none

abbrev or_any : Option Bool → Option Bool → Option Bool
or_any none rest = none
or_any (some true) rest = some true
or_any (some false) rest = rest

-- The `any` of `_valid_invite`, which stops at the first match.
abbrev pub any_digest : Text → List Text → Option Bool
any_digest code [] = some false
any_digest code (valid ∷ codes) = or_any (compare_digest code valid) (any_digest code codes)

-- `_valid_invite`
unfoldable pub valid_invite : Settings → Option Text → Option Bool
unfolding strip Account.ids
valid_invite s none = some false
valid_invite s (some []) = some false
valid_invite s (some (c ∷ t)) = any_digest (strip (c ∷ t)) (Account.ids s.registration_invite_codes)

unfoldable pub has_users : Users → Bool
has_users [] = false
has_users (m ∷ ms) = true

-- The order of `is_instance_owner`: by creation, then by id.
abbrev is_before : Member → Member → Bool
is_before a b =
    let t = a.account.user.created_at in
    let u = b.account.user.created_at in ltb t u || ((t == u) && leb (id_of a) (id_of b))

unfoldable pub first_of : Member → Users → Member
first_of m [] = m
first_of m (n ∷ ns) = if is_before m n then first_of m ns else first_of n ns

-- `is_instance_owner`
unfoldable pub is_instance_owner : Users → ℕ → Bool
unfolding first_of
is_instance_owner [] u = false
is_instance_owner (m ∷ ms) u = id_of (first_of m ms) == u

-- What `can_register` answers, with the reasons it gives; `crashed` is the TypeError.
pub data Verdict : Type 0 where
  admitted invite_required registration_closed crashed : Verdict

abbrev of_invite : Option Bool → Verdict
of_invite none = crashed
of_invite (some true) = admitted
of_invite (some false) = invite_required

abbrev pub in_mode : Mode → Option Bool → Verdict
in_mode open_to_all valid = admitted
in_mode invite valid = of_invite valid
in_mode closed valid = registration_closed

unfoldable pub can_register : Settings → Users → Option Text → Verdict
unfolding effective_mode has_users valid_invite
can_register s users invite_code =
    if not (has_users users)
    then admitted
    else in_mode (effective_mode s) (valid_invite s invite_code)

unfoldable pub verification_required : Settings → Bool
unfolding strip
verification_required s =
    let mode = lower (strip s.email_verification) in
    if member mode (codes "required" ∷ codes "on" ∷ codes "true" ∷ [])
    then true
    else if member mode (codes "off" ∷ codes "false" ∷ [])
    then false
    else s.billing.hosted

-- `is_verified` and `may_email`
unfoldable pub is_verified : Settings → Member → Bool
is_verified s m = is_some m.account.user.email_verified_at || not (verification_required s)

unfoldable pub may_email : Settings → Member → Bool
unfolding is_verified
may_email s m = is_verified s m

abbrev of_row : Settings → Option Member → Bool
of_row s none = false
of_row s (some m) = is_verified s m

abbrev of_uuid : Settings → Users → Option ℕ → Bool
of_uuid s users none = false
of_uuid s users (some u) = of_row s (by_id users u)

-- `may_receive_newsletters`; `read_uuid` is `uuid.UUID`.
unfoldable pub may_receive_newsletters : Settings → (Text → Option ℕ) → Users → Option Text → Bool
unfolding by_id is_verified
may_receive_newsletters s read_uuid users none = true
may_receive_newsletters s read_uuid users (some user_id) =
    if not (verification_required s) then true else of_uuid s users (read_uuid user_id)

after_last_at : Text → Text → Text
after_last_at found [] = found
after_last_at found (c ∷ t) = if c == b'@' then after_last_at t t else after_last_at found t

unfoldable pub email_domain : Text → Text
unfolding after_last_at strip
email_domain email = lower (strip (after_last_at email email))

abbrev pub large_providers : List Text
large_providers =
    codes "gmail.com"
    ∷ codes "googlemail.com"
    ∷ codes "outlook.com"
    ∷ codes "hotmail.com"
    ∷ codes "live.com"
    ∷ codes "yahoo.com"
    ∷ codes "icloud.com"
    ∷ codes "me.com"
    ∷ codes "proton.me"
    ∷ codes "protonmail.com"
    ∷ codes "fastmail.com"
    ∷ codes "gmx.com"
    ∷ codes "aol.com"
    ∷ []

abbrev pub hour : ℕ
hour = 3600 * second

-- An account of the domain that was created since `since`.
abbrev pub is_recent : Text → ℕ → Member → Bool
is_recent domain since m =
    ends_with (lower (email_of m)) (b'@' ∷ domain) && leb since m.account.user.created_at

unfoldable pub count_recent : Text → ℕ → Users → ℕ
count_recent domain since [] = 0
count_recent domain since (m ∷ ms) =
    (if is_recent domain since m then 1 else 0) + count_recent domain since ms

unfoldable pub domain_limit : Settings → Text → ℕ
domain_limit s domain =
    if member domain large_providers
    then s.signup_per_domain_per_hour * 20
    else s.signup_per_domain_per_hour

unfoldable pub domain_signup_allowed : Settings → Users → Text → ℕ → Bool
unfolding email_domain domain_limit count_recent verification_required
domain_signup_allowed s users email now =
    let domain = email_domain email in
    if not (verification_required s) || s.signup_per_domain_per_hour == 0
    then true
    else ltb (count_recent domain (now - hour) users) (domain_limit s domain)
